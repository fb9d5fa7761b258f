-- ===== src/Mailbox/Outbox/Tests.antt =====
-- Runs of an outbox with two slots, and what the theorems of this component say of them.
use wirelink.Common.{
  ◌+◌, ◌%◌, ◌^◌, ◌<◌, ◌≤◌, ◌≡◌, ◌⊎◌, refl, arith, false, ◌==◌, ltb, if◌then◌else◌,
}
use wirelink.Common.{none, some, not, ◌&&◌}
use wirelink.Common.Memory.{Mem, load}
use wirelink.Link.Status.{Status}
use wirelink.Mailbox.Outbox.{Outbox, Config, Item, init, slot, accepted, rejected}
use wirelink.Mailbox.Outbox.Release.{complete, reset, is_valid}
use wirelink.Mailbox.Outbox.Acquisition.{acquire_copy}
use wirelink.Mailbox.Outbox.Submission.{submit_latest}
use wirelink.Mailbox.Outbox.{fresh, find}
use wirelink.Mailbox.Outbox.Acquisition.{find_next, take_next, take_slot}
use wirelink.Mailbox.Outbox.Submission.{select, fill}
use wirelink.Mailbox.Outbox.Valid.{IsValid}
use wirelink.Mailbox.Outbox.Steps.{submit, acquire, Reach, here, then_step, Reach-IsValid}
use wirelink.Mailbox.Outbox.Values.{latest, latest-submit_latest}
use wirelink.Mailbox.Outbox.Turns.{IsNext, IsTooLong, acquire_copy_lem}
use wirelink.Mailbox.Outbox.Finish.{is_deferred, is_same, latest-complete}
use wirelink.Mailbox.Outbox.Loans.{none_yet, submitted, complete-again}
use wirelink.Mailbox.Outbox.Newer.{IsLent, newer_survives}

abbrev bytes : Mem
bytes x = x % 256

abbrev config : Config
config = record {
  slots = 1;
  slot_count = 2;
  payload_storage = 100;
  payload_storage_size = 8;
  payload_capacity_per_slot = 4;
  initial_generation = 0;
}

abbrev empty : Outbox
empty = fresh config

abbrev one : Outbox
one = (submit_latest empty bytes 5 50 3).box

abbrev lent : Outbox
lent = (acquire_copy one bytes 200 4 false).box

abbrev item : Item
item = record { token = 1; slot_index = 0; message_id = 5; payload_length = 3 }

started : init false (some config) ≡ some empty
unfolding init fresh
started = refl

abbrev calls : Reach empty lent
calls = then_step (then_step here (submit empty bytes 5 50 3)) (acquire one bytes 200 4 false)

Reach-IsValid_example : IsValid lent
Reach-IsValid_example = Reach-IsValid false config (omega arith) started calls

empty-IsValid : IsValid empty
empty-IsValid = Reach-IsValid false config (omega arith) started here

one-IsValid : IsValid one
one-IsValid =
    Reach-IsValid false config (omega arith) started (then_step here (submit empty bytes 5 50 3))

lent-IsValid : IsValid lent
lent-IsValid = Reach-IsValid false config (omega arith) started calls

latest-submit_latest_example :
    let r = submit_latest empty bytes 5 50 3 in
    ((r.status ≡ Status.ok)
      × (latest r.box r.mem 5 ≡ (if 5 == 5 then some (load bytes 50 3) else latest empty bytes 5)))
    ⊎ ((r.status ≡ Status.queue_full)
        × (latest r.box r.mem 5 ≡ latest empty bytes 5)
        × (latest empty bytes 5 ≡ none)
        × (empty.depth ≡ empty.slot_count))
latest-submit_latest_example =
    latest-submit_latest bytes 5 50 3 5 empty-IsValid (ground arith) (ground arith)
      (unfold fresh in omega arith)

idle : one.active ≡ false
unfolding submit_latest init fresh select find fill
idle = refl

acquire_copy_lem_example :
    let r = acquire_copy one bytes 200 4 false in
    ((r.status ≡ Status.no_data) × (one.depth ≡ 0) × (r.box ≡ one) × (r.mem ≡ bytes))
    ⊎ ((r.status ≡ Status.no_space) × (r.box ≡ one) × (r.mem ≡ bytes) × IsTooLong one 4)
    ⊎ ((got : Item) × (r.status ≡ Status.ok)
        × (r.item ≡ some got)
        × IsNext one bytes 200 r.box r.mem got)
acquire_copy_lem_example = acquire_copy_lem bytes 200 4 one-IsValid idle (ground arith)

loan : IsLent lent item
unfolding submit_latest acquire_copy fresh select find find_next take_next take_slot fill
loan = record { active = refl; index = refl; token = refl; used = refl; named = refl }

latest-complete_example :
    let r = complete lent (some item) rejected in
    (r.0 ≡ Status.ok)
    × (r.1.active ≡ false)
    × (latest r.1 bytes 5 ≡ (
        if not (is_deferred rejected)
          && is_same lent item
          && (slot lent item.slot_index).message_id == 5
        then none
        else latest lent bytes 5))
latest-complete_example =
    latest-complete lent-IsValid bytes item rejected 5 loan.active loan.index loan.token refl

-- The item is completed, a value is submitted, and the item is completed again.
abbrev after_reject : Outbox
after_reject = (submit_latest (complete lent (some item) rejected).1 bytes 7 50 3).box

complete-again_example :
    (complete after_reject (some item) accepted ≡ (
      if ltb item.slot_index after_reject.slot_count && is_valid accepted
          then Status.invalid_state
          else Status.invalid_arg,
      after_reject,
    ))
    × ((reset after_reject).0 ≡ Status.ok)
complete-again_example =
    complete-again lent item item rejected accepted
      (latest-complete lent-IsValid bytes item rejected 5 loan.active loan.index loan.token refl).0
      (submitted bytes 7 50 3 none_yet)

generations :
    (item.token ≤ lent.next_generation)
    × (lent.next_generation + 1 < 2 ^ 64)
    × (2 ≤ lent.payload_capacity)
unfolding submit_latest acquire_copy fresh select find find_next take_next take_slot fill
generations = (omega arith, omega arith, omega arith)

newer_survives_example :
    let s = submit_latest lent bytes 5 60 2 in
    let r = complete s.box (some item) accepted in
    (s.status ≡ Status.ok) × (r.0 ≡ Status.ok) × (latest r.1 s.mem 5 ≡ some (load bytes 60 2))
newer_survives_example =
    newer_survives lent-IsValid bytes item 60 2 accepted loan (ground arith) generations.2
      generations.0 generations.1 refl
