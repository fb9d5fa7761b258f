-- ===== src/Mailbox/Fifo/Valid.antt =====
-- The invariant of a run of one producer and one consumer.
use wirelink.Common.{ℕ, ◌+◌, ◌-◌, ◌%◌, ◌^◌, ◌<◌, ◌≤◌, ◌≡◌, ◌≢◌, arith, Bool, true, ap}
use wirelink.Common.{Option, none, some, ◌==◌, u32, Bool-cases, inl, inr}
use native.Mathlib.Decide.{dec_lt}
use wirelink.Mailbox.Fifo.{Fifo, Ticket, fifo_magic}
use wirelink.Mailbox.Fifo.Producer.{claim_matches, write_claim, write_publish, write_abort, minus}
use wirelink.Mailbox.Fifo.Consumer.{view_matches, read_acquire, read_release}
use wirelink.Mailbox.Fifo.Upkeep.{reset}
use wirelink.Mailbox.Fifo.Steps.{System, put, Step, after_publish, after_release, after_reset}
use wirelink.Mailbox.Fifo.Steps.{claim, write, publish, abort, acquire, release, clear}
use wirelink.Mailbox.Fifo.Indices.{next_index-mod, index_apart}

pub record IsSane (f : Fifo) : Type 0 where
  pub marked : f.magic ≡ fifo_magic
  pub nonempty : 0 < f.capacity
  pub bounded : f.capacity < 2 ^ 31

pub record IsValid (s : System) : Type 0 where
  pub sane : IsSane s.fifo
  pub write_cursor_is : s.fifo.write_cursor ≡ u32 s.written
  pub published_is : s.fifo.published_cursor ≡ u32 s.written
  pub write_index_is : s.fifo.write_index ≡ s.written % s.fifo.capacity
  pub read_cursor_is : s.fifo.read_cursor ≡ u32 s.released
  pub consumed_is : s.fifo.consumed_cursor ≡ u32 s.released
  pub read_index_is : s.fifo.read_index ≡ s.released % s.fifo.capacity
  pub released_seen : s.seen_released ≤ s.released
  pub readable : s.released ≤ s.seen_written
  pub written_seen : s.seen_written ≤ s.written
  pub full : s.written ≤ s.seen_released + s.fifo.capacity
  pub claimed_room : s.fifo.write_claimed ≡ true → s.written < s.seen_released + s.fifo.capacity
  pub borrowed_value : s.fifo.read_borrowed ≡ true → s.released < s.seen_written
  pub kept : (k : ℕ) → s.released ≤ k → k < s.written → s.values (k % s.fifo.capacity) ≡ s.history k

-- Cursors that are less than 2^31 apart are compared and subtracted as if they did not wrap.
pub minus-u32 : (a b : ℕ) → b ≤ a → a < b + 2 ^ 32 → minus (u32 a) (u32 b) ≡ a - b
minus-u32 a b le near = omega arith

pub u32_apart : (a b : ℕ) → b ≤ a → a < b + 2 ^ 32 → u32 b ≢ u32 a → b < a
u32_apart a b le near ne = elim (dec_lt b a) [
  | yes lt ↦ lt
  | no ge ↦ let e : b ≡ a = omega arith in absurd (ne (ap u32 e))
]

-- Only a loan that is out can match.
claim_matches-claimed :
    (f : Fifo) (c : Option Ticket) → claim_matches f c ≡ true → f.write_claimed ≡ true
unfolding claim_matches
claim_matches-claimed f none h = cc
claim_matches-claimed f (some c) h = ground arith

view_matches-borrowed :
    (f : Fifo) (c : Option Ticket) → view_matches f c ≡ true → f.read_borrowed ≡ true
unfolding view_matches
view_matches-borrowed f none h = cc
view_matches-borrowed f (some c) h = ground arith

module _ {s : System} (v : IsValid s) where
  claim-IsValid :
      (no_claim : Bool) (seen : ℕ)
      → s.seen_released ≤ seen
      → seen ≤ s.released
      → IsValid
          (record s { fifo = (write_claim s.fifo no_claim (u32 seen)).1; seen_released = seen })
  unfolding write_claim
  claim-IsValid no_claim seen lo hi =
      let apart =
        minus-u32 s.written seen (omega (arith, v.readable, v.written_seen))
          (omega (arith, v.full, v.sane.bounded)) in
      ground (arith, v, v.sane, apart)

  write-IsValid :
      (x : ℕ)
      → s.fifo.write_claimed ≡ true
      → IsValid (record s { values = put s.values s.fifo.write_index x })
  write-IsValid x claimed = record {
    sane = v.sane;
    write_cursor_is = v.write_cursor_is;
    published_is = v.published_is;
    write_index_is = v.write_index_is;
    read_cursor_is = v.read_cursor_is;
    consumed_is = v.consumed_is;
    read_index_is = v.read_index_is;
    released_seen = v.released_seen;
    readable = v.readable;
    written_seen = v.written_seen;
    full = v.full;
    claimed_room = v.claimed_room;
    borrowed_value = v.borrowed_value;
    kept = λ k lo hi.
        let apart =
          index_apart k s.written s.fifo.capacity hi
            (omega (arith, v.claimed_room claimed, v.released_seen)) in
        ground (arith, v.kept k lo hi, v.write_index_is, apart);
  }

  publish-IsValid :
      (c : Option Ticket) (seen : ℕ)
      → s.seen_released ≤ seen
      → seen ≤ s.released
      → IsValid (after_publish s c seen)
  unfolding write_publish
  publish-IsValid c seen lo hi = elim (Bool-cases (claim_matches s.fifo c)) [
    | inr f ↦ rw f (ground (arith, v, v.sane))
    | inl t ↦
        let claimed : s.fifo.write_claimed ≡ true = claim_matches-claimed s.fifo c t in
        let room = v.claimed_room claimed in
        let index = next_index-mod s.written s.fifo.capacity v.sane.nonempty v.sane.bounded in
        let marked : (s.fifo.magic == fifo_magic) ≡ true = ground (arith, v.sane.marked) in
        rw (t, marked)
          (record {
            sane = ground (arith, v.sane);
            write_cursor_is = omega (arith, v.write_cursor_is);
            published_is = omega (arith, v.write_cursor_is);
            write_index_is = rw (v.write_index_is) index;
            read_cursor_is = v.read_cursor_is;
            consumed_is = v.consumed_is;
            read_index_is = v.read_index_is;
            released_seen = hi;
            readable = v.readable;
            written_seen = omega (arith, v.written_seen);
            full = omega (arith, room);
            claimed_room = λ e. absurd (cc);
            borrowed_value = v.borrowed_value;
            kept = λ k lo' hi'. ground (arith, v.kept k lo', v.write_index_is);
          })
  ]

  abort-IsValid : (c : Option Ticket) → IsValid (record s { fifo = (write_abort s.fifo c).1 })
  unfolding write_abort
  abort-IsValid c = ground (arith, v, v.sane)

  acquire-IsValid :
      (no_view : Bool) (seen : ℕ)
      → s.seen_written ≤ seen
      → seen ≤ s.written
      → IsValid
          (record s { fifo = (read_acquire s.fifo no_view (u32 seen)).1; seen_written = seen })
  unfolding read_acquire
  acquire-IsValid no_view seen lo hi =
      let apart =
        u32_apart seen s.released (omega (arith, v.readable))
          (omega (arith, v.full, v.released_seen, v.sane.bounded)) in
      ground (arith, v, v.sane, apart)

  release-IsValid : (c : Option Ticket) → IsValid (after_release s c)
  unfolding read_release
  release-IsValid c = elim (Bool-cases (view_matches s.fifo c)) [
    | inr f ↦ rw f (ground (arith, v, v.sane))
    | inl t ↦
        let borrowed : s.fifo.read_borrowed ≡ true = view_matches-borrowed s.fifo c t in
        let later = v.borrowed_value borrowed in
        let index = next_index-mod s.released s.fifo.capacity v.sane.nonempty v.sane.bounded in
        let marked : (s.fifo.magic == fifo_magic) ≡ true = ground (arith, v.sane.marked) in
        rw (t, marked)
          (record {
            sane = ground (arith, v.sane);
            write_cursor_is = v.write_cursor_is;
            published_is = v.published_is;
            write_index_is = v.write_index_is;
            read_cursor_is = omega (arith, v.read_cursor_is);
            consumed_is = omega (arith, v.read_cursor_is);
            read_index_is = rw (v.read_index_is) index;
            released_seen = omega (arith, v.released_seen);
            readable = omega (arith, later);
            written_seen = v.written_seen;
            full = v.full;
            claimed_room = v.claimed_room;
            borrowed_value = λ e. absurd (cc);
            kept = λ k lo hi. v.kept k (omega arith) hi;
          })
  ]

  reset-IsValid : IsValid (after_reset s)
  unfolding reset
  reset-IsValid = ground (arith, v, v.sane)

pub Step-IsValid : {s s' : System} → Step s s' → IsValid s → IsValid s'
Step-IsValid (claim s no_claim seen lo hi) v = claim-IsValid v no_claim seen lo hi
Step-IsValid (write s x claimed) v = write-IsValid v x claimed
Step-IsValid (publish s c seen lo hi) v = publish-IsValid v c seen lo hi
Step-IsValid (abort s c) v = abort-IsValid v c
Step-IsValid (acquire s no_view seen lo hi) v = acquire-IsValid v no_view seen lo hi
Step-IsValid (release s c) v = release-IsValid v c
Step-IsValid (clear s) v = reset-IsValid v
