-- ===== src/Mailbox/Latest/Valid.antt =====
-- The invariant of a run of one producer and one consumer.
use wirelink.Common.{ℕ, ◌+◌, ◌<◌, ◌≡◌, ◌≢◌, arith, Bool, true, false, refl, ap}
use wirelink.Common.{Option, none, some, ◌==◌, u32, Bool-cases, inl, inr}
use wirelink.Mailbox.Latest.{Latest, Claim, View, latest_magic, is_dirty, index, set_dirty}
use wirelink.Mailbox.Latest.Producer.{claim_matches, write_claim, write_publish, write_abort}
use wirelink.Mailbox.Latest.Consumer.{read_acquire, read_release}
use wirelink.Mailbox.Latest.Upkeep.{reset}
use wirelink.Mailbox.Latest.Steps.{System, put, Step, after_publish, after_acquire, after_reset}
use wirelink.Mailbox.Latest.Steps.{claim, write, publish, abort, acquire, release, clear}

-- The consumer's slot, the producer's and the one in the middle are the three slots.
pub record IsSplit (front back middle : ℕ) : Type 0 where
  pub front_in : front < 3
  pub back_in : back < 3
  pub middle_in : index middle < 3
  pub front_back : front ≢ back
  pub front_middle : front ≢ index middle
  pub back_middle : back ≢ index middle

pub record IsValid (s : System) : Type 0 where
  pub marked : s.box.magic ≡ latest_magic
  pub split : IsSplit s.box.reader_front s.box.writer_back s.box.middle
  pub numbered : s.box.generation ≡ u32 (s.initial + s.published)
  pub none_newer : is_dirty s.box.middle ≡ false → s.acquired ≡ s.published
  pub newer : is_dirty s.box.middle ≡ true → s.acquired < s.published
  pub held : is_dirty s.box.middle ≡ true → s.values (index s.box.middle) ≡ s.newest
  pub stamped :
      is_dirty s.box.middle ≡ true → s.box.slot_generation (index s.box.middle) ≡ s.box.generation

claim_matches-claimed :
    (b : Latest) (c : Option Claim) → claim_matches b c ≡ true → b.write_claimed ≡ true
unfolding claim_matches
claim_matches-claimed b none h = cc
claim_matches-claimed b (some c) h = ground arith

module _ {s : System} (v : IsValid s) where
  claim-IsValid : (no_claim : Bool) → IsValid (record s { box = (write_claim s.box no_claim).1 })
  unfolding write_claim
  claim-IsValid no_claim = ground (arith, v, v.split)

  write-IsValid : (x : ℕ) → IsValid (record s { values = put s.values s.box.writer_back x })
  write-IsValid x = ground (arith, v, v.split)

  publish-IsValid : (c : Option Claim) → IsValid (after_publish s c)
  unfolding write_publish
  publish-IsValid c = elim (Bool-cases (claim_matches s.box c)) [
    | inr f ↦ rw f (ground (arith, v, v.split))
    | inl t ↦
        let marked : (s.box.magic == latest_magic) ≡ true = ground (arith, v.marked) in
        let clean : is_dirty s.box.writer_back ≡ false = ground (arith, v.split.back_in) in
        let dirty : is_dirty (set_dirty s.box.writer_back) ≡ true =
          ground (arith, v.split.back_in) in
        let place : index (set_dirty s.box.writer_back) ≡ s.box.writer_back =
          ground (arith, v.split.back_in) in
        let same : (s.box.writer_back == s.box.writer_back) ≡ true = ground arith in
        rw (t, marked)
          (record {
            marked = v.marked;
            split = record {
              front_in = v.split.front_in;
              back_in = v.split.middle_in;
              middle_in = rw place v.split.back_in;
              front_back = v.split.front_middle;
              front_middle = rw place v.split.front_back;
              back_middle = rw place (λ e. ground (arith, v.split.back_middle));
            };
            numbered = omega (arith, v.numbered);
            none_newer = λ e. absurd (cc (e, dirty));
            newer = λ e. ground (arith, v.newer, v.none_newer);
            held = λ e. ap s.values place;
            stamped = λ e. rw (place, same) refl;
          })
  ]

  abort-IsValid : (c : Option Claim) → IsValid (record s { box = (write_abort s.box c).1 })
  unfolding write_abort
  abort-IsValid c = ground (arith, v, v.split)

  acquire-IsValid :
      (no_view : Bool) (seen : ℕ)
      → (is_dirty seen ≡ true → is_dirty s.box.middle ≡ true)
      → IsValid (after_acquire s no_view seen)
  unfolding read_acquire
  acquire-IsValid no_view seen h =
      let clean : is_dirty s.box.reader_front ≡ false = ground (arith, v.split.front_in) in
      let place : index s.box.reader_front ≡ s.box.reader_front =
        ground (arith, v.split.front_in) in
      ground (arith, v, v.split, h)

  release-IsValid : (c : Option View) → IsValid (record s { box = (read_release s.box c).1 })
  unfolding read_release
  release-IsValid c = ground (arith, v, v.split)

  reset-IsValid : IsValid (after_reset s)
  unfolding reset
  reset-IsValid = ground (arith, v, v.split)

pub Step-IsValid : {s s' : System} → Step s s' → IsValid s → IsValid s'
Step-IsValid (claim s no_claim) v = claim-IsValid v no_claim
Step-IsValid (write s x claimed) v = write-IsValid v x
Step-IsValid (publish s c) v = publish-IsValid v c
Step-IsValid (abort s c) v = abort-IsValid v c
Step-IsValid (acquire s no_view seen h) v = acquire-IsValid v no_view seen h
Step-IsValid (release s c) v = release-IsValid v c
Step-IsValid (clear s) v = reset-IsValid v
