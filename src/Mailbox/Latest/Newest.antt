-- ===== src/Mailbox/Latest/Newest.antt =====
-- What the producer and the consumer of src/latest.c are promised.
use wirelink.Common.{ℕ, ◌+◌, ◌^◌, ◌<◌, ◌≡◌, ◌≢◌, ◌⊎◌, arith, Bool, true, false, refl, ◌∙◌}
use wirelink.Common.{Option, none, some, ◌==◌, u32, Bool-cases, Option-cases, inl, inr}
use wirelink.Link.Status.{Status}
use wirelink.Mailbox.Latest.{
  Latest, Config, Storage, Requirements, Claim, View, latest_magic, init, fresh, requirements,
}
use wirelink.Mailbox.Latest.{is_dirty, index}
use wirelink.Mailbox.Latest.Producer.{claim_matches, write_claim, write_publish, write_abort}
use wirelink.Mailbox.Latest.Consumer.{view_matches, read_acquire, read_release}
use wirelink.Mailbox.Latest.Upkeep.{reset}
use wirelink.Mailbox.Latest.Steps.{System, Step, Reach, here, then_step, begun}
use wirelink.Mailbox.Latest.Steps.{claim, write, publish, abort, acquire, release, clear}
use wirelink.Mailbox.Latest.Valid.{IsValid, Step-IsValid}

init-fresh :
    (lock_free : Bool) (mailbox : ℕ) (c : Config) (st : Storage) {b : Latest}
    → init lock_free mailbox (some c) (some st) ≡ (Status.ok, some b)
    → (r : Requirements) × (requirements (some c) ≡ some r) × (fresh c r st latest_magic ≡ b)
unfolding init
init-fresh lock_free mailbox c st h = elim (Option-cases (requirements (some c))) [
  | inl e ↦ absurd (ground arith)
  | inr (r, e) ↦ (r, e, ground arith)
]

fresh-IsValid :
    (c : Config) (r : Requirements) (st : Storage) (values : ℕ → ℕ)
    → c.initial_generation < 2 ^ 32
    → IsValid (begun (fresh c r st latest_magic) values)
unfolding fresh
fresh-IsValid c r st values small = ground arith

-- Whatever the two sides call, and in whatever order: in a mailbox that was initialised with a
-- generation of 32 bits, the consumer, the producer and the middle have one slot each, the middle is
-- dirty if and only if a value is published that was not acquired or discarded, and then it holds the
-- value that was published last, under the current generation.
pub begun-IsValid :
    (lock_free : Bool) (mailbox : ℕ) (c : Config) (st : Storage) (values : ℕ → ℕ) {b : Latest}
    {s : System}
    → c.initial_generation < 2 ^ 32
    → init lock_free mailbox (some c) (some st) ≡ (Status.ok, some b)
    → Reach (begun b values) s
    → IsValid s
begun-IsValid lock_free mailbox c st values small made here =
    let (r, e, same) = init-fresh lock_free mailbox c st made in
    rw (← same) (fresh-IsValid c r st values small)
begun-IsValid lock_free mailbox c st values small made (then_step r s) =
    Step-IsValid s (begun-IsValid lock_free mailbox c st values small made r)

module _ {s : System} (v : IsValid s) where
  -- In a valid run, an acquisition made while no view is out answers NO_DATA if the load of
  -- `middle` finds it clean, and otherwise gives a view that matches, on a slot that holds the
  -- value which was published last, under its generation; that value was not acquired before, and
  -- after it nothing newer waits.
  pub read_acquire-newest :
      (seen : ℕ)
      → (is_dirty seen ≡ true → is_dirty s.box.middle ≡ true)
      → s.box.read_borrowed ≡ false
      → let r = read_acquire s.box false seen in
        ((r.0 ≡ Status.no_data) × (r.2 ≡ none) × (is_dirty seen ≡ false))
        ⊎ ((t : View) × (r.0 ≡ Status.ok)
            × (r.2 ≡ some t)
            × (view_matches r.1 (some t) ≡ true)
            × (s.acquired < s.published)
            × (s.values t.private_slot ≡ s.newest)
            × (t.generation ≡ u32 (s.initial + s.published))
            × (is_dirty r.1.middle ≡ false))
  unfolding read_acquire view_matches
  read_acquire-newest seen h idle =
      let marked : (s.box.magic == latest_magic) ≡ true = ground (arith, v.marked) in
      elim (Bool-cases (is_dirty seen)) [
        | inr f ↦ rw (marked, idle, f) (inl (refl, refl, refl))
        | inl t ↦
            let d = h t in
            rw (marked, idle, t)
              (inr (
                _,
                refl,
                refl,
                ground arith,
                v.newer d,
                v.held d,
                v.stamped d ∙ v.numbered,
                ground (arith, v.split.front_in),
              ))
      ]

  -- In a valid run, a claim made while none is out always gives a slot, which is neither the
  -- consumer's nor the one in the middle, where the value that waits is.
  pub write_claim_apart :
      s.box.write_claimed ≡ false
      → let r = write_claim s.box false in
        (t : Claim) × (r.0 ≡ Status.ok)
        × (r.2 ≡ some t)
        × (claim_matches r.1 (some t) ≡ true)
        × (t.private_slot ≢ s.box.reader_front)
        × (t.private_slot ≢ index s.box.middle)
  unfolding write_claim claim_matches
  write_claim_apart idle =
      let marked : (s.box.magic == latest_magic) ≡ true = ground (arith, v.marked) in
      rw (marked, idle)
        (_, refl, refl, ground arith, ground (arith, v.split.front_back), v.split.back_middle)

-- A release that leaves the view out was refused, and so was such a reset.
read_release_held :
    (b : Latest) (c : Option View)
    → (read_release b c).1.read_borrowed ≡ true
    → ((read_release b c).1.reader_front ≡ b.reader_front)
      × ((read_release b c).1.slot_generation ≡ b.slot_generation)
unfolding read_release
read_release_held b c h = ground arith

reset_held :
    (b : Latest)
    → b.read_borrowed ≡ true
    → ((reset b).1.reader_front ≡ b.reader_front)
      × ((reset b).1.slot_generation ≡ b.slot_generation)
unfolding reset
reset_held b h = ground arith

-- In a valid run, a step before and after which the consumer holds a view does not change its slot,
-- the value in it or the generation of that value.
pub view_stays :
    {s s' : System}
    → IsValid s
    → Step s s'
    → s.box.read_borrowed ≡ true
    → s'.box.read_borrowed ≡ true
    → (s'.box.reader_front ≡ s.box.reader_front)
      × (s'.values s'.box.reader_front ≡ s.values s.box.reader_front)
      × (s'.box.slot_generation s'.box.reader_front ≡ s.box.slot_generation s.box.reader_front)
view_stays v (claim s no_claim) b b' = unfold write_claim in ground arith
view_stays v (write s x claimed) b b' = ground (arith, v.split.front_back)
view_stays v (publish s c) b b' = unfold write_publish in ground (arith, v.split.front_back)
view_stays v (abort s c) b b' = unfold write_abort in ground arith
view_stays v (acquire s no_view seen h) b b' = unfold read_acquire in ground arith
view_stays v (release s c) b b' =
    let (e, g) = read_release_held s.box c b' in rw (e, g) (refl, refl, refl)
view_stays v (clear s) b b' = let (e, g) = reset_held s.box b in rw (e, g) (refl, refl, refl)
