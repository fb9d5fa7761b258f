-- ===== src/Mailbox/Fifo/Order.antt =====
-- What the producer and the consumer of src/fifo.c are promised.
use wirelink.Common.{
  ℕ, ◌+◌, ◌-◌, ◌%◌, ◌^◌, ◌<◌, ◌≤◌, ◌≡◌, ◌≢◌, ◌⊎◌, arith, Bool, true, false, refl, ap,
}
use wirelink.Common.{Option, none, some, ◌==◌, leb, u32, Bool-cases, Option-cases, inl, inr}
use native.Mathlib.Decide.{dec_lt}
use native.Mathlib.Nat.{mod-eq_of_lt}
use wirelink.Link.Status.{Status}
use wirelink.Mailbox.Fifo.{
  Fifo, Config, Storage, Requirements, Ticket, fifo_magic, init, fresh, requirements,
}
use wirelink.Mailbox.Fifo.Producer.{claim_matches, write_claim, write_publish, write_abort, minus}
use wirelink.Mailbox.Fifo.Consumer.{view_matches, read_acquire, read_release}
use wirelink.Mailbox.Fifo.Upkeep.{reset, Stats, get_stats}
use wirelink.Mailbox.Fifo.Steps.{System, Step, Reach, here, then_step, started}
use wirelink.Mailbox.Fifo.Steps.{claim, write, publish, abort, acquire, release, clear}
use wirelink.Mailbox.Fifo.Indices.{index_apart}
use wirelink.Mailbox.Fifo.Valid.{IsValid, minus-u32, u32_apart, Step-IsValid}

requirements-capacity :
    (c : Config) {r : Requirements}
    → requirements (some c) ≡ some r
    → (0 < c.capacity) × (c.capacity < 2 ^ 31)
unfolding requirements
requirements-capacity c h = ground arith

init-fresh :
    (lock_free : Bool) (fifo : ℕ) (c : Config) (st : Storage) {f : Fifo}
    → init lock_free fifo (some c) (some st) ≡ (Status.ok, some f)
    → (r : Requirements) × (requirements (some c) ≡ some r) × (fresh c r st fifo_magic ≡ f)
unfolding init
init-fresh lock_free fifo c st h = elim (Option-cases (requirements (some c))) [
  | inl e ↦ absurd (ground arith)
  | inr (r, e) ↦ (r, e, ground arith)
]

fresh-IsValid :
    (c : Config) (r : Requirements) (st : Storage) (values : ℕ → ℕ)
    → 0 < c.capacity
    → c.capacity < 2 ^ 31
    → IsValid (started (fresh c r st fifo_magic) values)
unfolding fresh
fresh-IsValid c r st values pos small = ground (arith, mod-eq_of_lt {n = 0} {m = c.capacity} pos)

-- Whatever the two sides call, in whatever order, and however late each sees the other's cursor: in
-- a FIFO that was initialised, every value that is published and not yet released is in the slot of
-- its number modulo the capacity; there are at most as many of them as the capacity, and fewer
-- while a claim is out; and the cursors and indices are those numbers modulo 2^32 and modulo the
-- capacity.
pub started-IsValid :
    (lock_free : Bool) (fifo : ℕ) (c : Config) (st : Storage) (values : ℕ → ℕ) {f : Fifo}
    {s : System}
    → init lock_free fifo (some c) (some st) ≡ (Status.ok, some f)
    → Reach (started f values) s
    → IsValid s
started-IsValid lock_free fifo c st values made here =
    let (r, e, same) = init-fresh lock_free fifo c st made in
    let (pos, small) = requirements-capacity c e in
    rw (← same) (fresh-IsValid c r st values pos small)
started-IsValid lock_free fifo c st values made (then_step r s) =
    Step-IsValid s (started-IsValid lock_free fifo c st values made r)

module _ {s : System} (v : IsValid s) where
  -- In a valid run, a claim made while none is out answers QUEUE_FULL only if as many values are
  -- published and not seen to be released as the FIFO has slots; and otherwise it gives a claim
  -- that matches, on a slot that holds no value which is still to be released.
  pub write_claim_lem :
      (seen : ℕ)
      → s.seen_released ≤ seen
      → seen ≤ s.released
      → s.fifo.write_claimed ≡ false
      → let r = write_claim s.fifo false (u32 seen) in
        ((r.0 ≡ Status.queue_full) × (r.2 ≡ none) × (s.written ≡ seen + s.fifo.capacity))
        ⊎ ((t : Ticket) × (r.0 ≡ Status.ok)
            × (r.2 ≡ some t)
            × (claim_matches r.1 (some t) ≡ true)
            × ((k : ℕ) → s.released ≤ k → k < s.written → k % s.fifo.capacity ≢ t.private_slot))
  unfolding write_claim claim_matches
  write_claim_lem seen lo hi idle =
      let apart =
        minus-u32 s.written seen (omega (arith, v.readable, v.written_seen))
          (omega (arith, v.full, v.sane.bounded)) in
      let marked : (s.fifo.magic == fifo_magic) ≡ true = ground (arith, v.sane.marked) in
      elim (Bool-cases (leb s.fifo.capacity (minus s.fifo.write_cursor (u32 seen)))) [
        | inl t ↦
            rw (marked, idle, t)
              (inl (refl, refl, ground (arith, apart, v.write_cursor_is, v.full)))
        | inr f ↦
            let room : s.written < seen + s.fifo.capacity =
              ground (arith, apart, v.write_cursor_is) in
            rw (marked, idle, f)
              (inr (
                _,
                refl,
                refl,
                ground arith,
                λ k lo' hi'.
                    rw v.write_index_is (index_apart k s.written s.fifo.capacity hi' (omega arith)),
              ))
      ]

  -- In a valid run, an acquisition made while no view is out answers NO_DATA only if no value is
  -- seen to be published that is not released; and otherwise it gives a view that matches, on a
  -- slot which holds the oldest such value.
  pub read_acquire_lem :
      (seen : ℕ)
      → s.seen_written ≤ seen
      → seen ≤ s.written
      → s.fifo.read_borrowed ≡ false
      → let r = read_acquire s.fifo false (u32 seen) in
        ((r.0 ≡ Status.no_data) × (r.2 ≡ none) × (seen ≡ s.released))
        ⊎ ((t : Ticket) × (r.0 ≡ Status.ok)
            × (r.2 ≡ some t)
            × (view_matches r.1 (some t) ≡ true)
            × (s.released < seen)
            × (s.values t.private_slot ≡ s.history s.released))
  unfolding read_acquire view_matches
  read_acquire_lem seen lo hi idle =
      let apart =
        u32_apart seen s.released (omega (arith, v.readable))
          (omega (arith, v.full, v.released_seen, v.sane.bounded)) in
      let marked : (s.fifo.magic == fifo_magic) ≡ true = ground (arith, v.sane.marked) in
      elim (dec_lt s.released seen) [
        | yes lt ↦
            let other : (s.fifo.read_cursor == u32 seen) ≡ false =
              ground (arith, v.read_cursor_is, v.full, v.released_seen, v.sane.bounded) in
            rw (marked, idle, other)
              (inr (
                _,
                refl,
                refl,
                ground arith,
                lt,
                rw v.read_index_is (v.kept s.released (omega arith) (omega arith)),
              ))
        | no ge ↦
            let equal : seen ≡ s.released = omega (arith, v.readable) in
            let same : (s.fifo.read_cursor == u32 seen) ≡ true = ground (arith, v.read_cursor_is) in
            rw (marked, idle, same) (inl (refl, refl, equal))
      ]

  -- In a valid run, with both cursors as they are, the depth that is reported is the number of
  -- values that are published and not released.
  pub get_stats-depth :
      (stats : Stats) (st : Status)
      → get_stats s.fifo false s.fifo.consumed_cursor s.fifo.published_cursor ≡ (st, some stats)
      → stats.depth ≡ s.written - s.released
  unfolding get_stats
  get_stats-depth stats st h =
      let apart =
        minus-u32 s.written s.released (omega (arith, v.readable, v.written_seen))
          (omega (arith, v.full, v.sane.bounded, v.released_seen)) in
      ground (arith, v.consumed_is, v.published_is, v.full, v.released_seen, apart)

-- A release that leaves the view out was refused, and so was such a reset.
read_release_held :
    (f : Fifo) (c : Option Ticket)
    → (read_release f c).1.read_borrowed ≡ true
    → (read_release f c).1.read_index ≡ f.read_index
unfolding read_release
read_release_held f c h = ground arith

reset_held : (f : Fifo) → f.read_borrowed ≡ true → (reset f).1.read_index ≡ f.read_index
unfolding reset
reset_held f h = ground arith

-- In a valid run, a step before and after which the consumer holds a view does not change its slot
-- or the value in it.
pub view_keeps :
    {s s' : System}
    → IsValid s
    → Step s s'
    → s.fifo.read_borrowed ≡ true
    → s'.fifo.read_borrowed ≡ true
    → (s'.fifo.read_index ≡ s.fifo.read_index)
      × (s'.values s'.fifo.read_index ≡ s.values s.fifo.read_index)
view_keeps v (claim s no_claim seen lo hi) b b' = unfold write_claim in ground arith
view_keeps v (write s x claimed) b b' =
    let apart =
      index_apart s.released s.written s.fifo.capacity
        (omega (arith, v.borrowed_value b, v.written_seen))
        (omega (arith, v.claimed_room claimed, v.released_seen)) in
    ground (arith, v.write_index_is, v.read_index_is, apart)
view_keeps v (publish s c seen lo hi) b b' = unfold write_publish in ground arith
view_keeps v (abort s c) b b' = unfold write_abort in ground arith
view_keeps v (acquire s no_view seen lo hi) b b' = unfold read_acquire in ground arith
view_keeps v (release s c) b b' = let e = read_release_held s.fifo c b' in (e, ap s.values e)
view_keeps v (clear s) b b' = let e = reset_held s.fifo b in (e, ap s.values e)
