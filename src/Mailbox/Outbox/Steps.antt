-- ===== src/Mailbox/Outbox/Steps.antt =====
-- The states that calls of the outbox lead to.
use wirelink.Common.{ℕ, ◌^◌, ◌<◌, ◌≡◌, Bool}
use wirelink.Common.{Option, some}
use wirelink.Common.Memory.{Mem}
use wirelink.Mailbox.Outbox.{Outbox, Config, Item, Completion}
use wirelink.Mailbox.Outbox.{init}
use wirelink.Mailbox.Outbox.Submission.{submit_latest}
use wirelink.Mailbox.Outbox.Release.{complete, reset}
use wirelink.Mailbox.Outbox.Acquisition.{acquire_copy}
use wirelink.Mailbox.Outbox.Valid.{
  IsValid, init-IsValid, submit_latest-IsValid, acquire_copy-IsValid, complete-IsValid,
  reset-IsValid,
}

-- A call of any operation, with whatever memory and arguments the caller chooses.
pub data Step : Outbox → Outbox → Type 0 where
  submit :
      (o : Outbox) (m : Mem) (id payload len : ℕ) → Step o (submit_latest o m id payload len).box
  acquire :
      (o : Outbox) (m : Mem) (payload capacity : ℕ) (no_item : Bool)
      → Step o (acquire_copy o m payload capacity no_item).box
  completion : (o : Outbox) (item : Option Item) (c : Completion) → Step o (complete o item c).1
  clear : (o : Outbox) → Step o (reset o).1

pub data Reach (o : Outbox) : Outbox → Type 0 where
  here : Reach o o
  then_step : {o' o'' : Outbox} → Reach o o' → Step o' o'' → Reach o o''

pub Step-IsValid : {o o' : Outbox} → Step o o' → IsValid o → IsValid o'
Step-IsValid (submit o m id payload len) v = submit_latest-IsValid v m id payload len
Step-IsValid (acquire o m payload capacity no_item) v =
    acquire_copy-IsValid v m payload capacity no_item
Step-IsValid (completion o item c) v = complete-IsValid v item c
Step-IsValid (clear o) v = reset-IsValid v

-- Every state that calls lead to from a fresh outbox, of less than 2^16 slots, is valid: the depth
-- is the number of slots in use, slots in use have different ids other than 0 and values that fit,
-- and the cursor and the index on loan are in range.
pub Reach-IsValid :
    (is_null : Bool) (c : Config) {o o' : Outbox}
    → c.slot_count < 2 ^ 16
    → init is_null (some c) ≡ some o
    → Reach o o'
    → IsValid o'
Reach-IsValid is_null c small made here = (init-IsValid is_null c small made).0
Reach-IsValid is_null c small made (then_step r s) =
    Step-IsValid s (Reach-IsValid is_null c small made r)
