-- ===== src/Mailbox/Latest/Steps.antt =====
-- Runs of one producer and one consumer: calls of src/latest.c in any order.
use wirelink.Common.{ℕ, ◌+◌, ◌≡◌, Bool, true, ◌||◌, Option, ◌==◌, if◌then◌else◌}
use wirelink.Mailbox.Latest.{Latest, Claim, View, is_dirty}
use wirelink.Mailbox.Latest.Producer.{claim_matches, write_claim, write_publish, write_abort}
use wirelink.Mailbox.Latest.Consumer.{read_acquire, read_release}
use wirelink.Mailbox.Latest.Upkeep.{reset}

-- The mailbox with the values in its slots, and what has happened: the first generation, the number
-- of values published, the number of the last one that was acquired or discarded, and the value that
-- was published last.
pub record System : Type 0 where
  pub box : Latest
  pub values : ℕ → ℕ
  pub initial : ℕ
  pub published : ℕ
  pub acquired : ℕ
  pub newest : ℕ

abbrev pub put : (ℕ → ℕ) → ℕ → ℕ → ℕ → ℕ
put values i v k = if k == i then v else values k

abbrev pub after_publish : System → Option Claim → System
after_publish s claim =
    let taken = claim_matches s.box claim in
    record s {
      box = (write_publish s.box claim).1;
      published = if taken then s.published + 1 else s.published;
      newest = if taken then s.values s.box.writer_back else s.newest;
    }

abbrev pub after_acquire : System → Bool → ℕ → System
after_acquire s no_view seen =
    let idle = no_view || s.box.read_borrowed in
    record s {
      box = (read_acquire s.box no_view seen).1;
      acquired = if idle then s.acquired else if is_dirty seen then s.published else s.acquired;
    }

abbrev pub after_reset : System → System
after_reset s =
    let busy = s.box.write_claimed || s.box.read_borrowed in
    record s { box = (reset s.box).1; acquired = if busy then s.acquired else s.published }

pub data Step : System → System → Type 0 where
  claim :
      (s : System) (no_claim : Bool) → Step s (record s { box = (write_claim s.box no_claim).1 })
  -- The producer writes into the slot that it has claimed.
  write :
      (s : System) (v : ℕ)
      → s.box.write_claimed ≡ true
      → Step s (record s { values = put s.values s.box.writer_back v })
  publish : (s : System) (c : Option Claim) → Step s (after_publish s c)
  abort : (s : System) (c : Option Claim) → Step s (record s { box = (write_abort s.box c).1 })
  -- The load of `middle` returns what the consumer itself stored last, which is not dirty, or a value
  -- that the producer stored since, after which `middle` is dirty until the consumer takes it.
  acquire :
      (s : System) (no_view : Bool) (seen : ℕ)
      → (is_dirty seen ≡ true → is_dirty s.box.middle ≡ true)
      → Step s (after_acquire s no_view seen)
  release : (s : System) (v : Option View) → Step s (record s { box = (read_release s.box v).1 })
  clear : (s : System) → Step s (after_reset s)

pub data Reach (s : System) : System → Type 0 where
  here : Reach s s
  then_step : {s' s'' : System} → Reach s s' → Step s' s'' → Reach s s''

abbrev pub begun : Latest → (ℕ → ℕ) → System
begun b values = record {
  box = b;
  values = values;
  initial = b.generation;
  published = 0;
  acquired = 0;
  newest = 0;
}
