-- ===== src/Mailbox/Outbox/Newer.antt =====
-- A value that `wl_outbox_submit_latest` stores while an older one of its id is lent out.
use wirelink.Common.{ℕ, ◌+◌, ◌^◌, ◌<◌, ◌≤◌, ◌≡◌, ◌≢◌, refl, arith, true, false}
use wirelink.Common.{some, length, get_or-set_self}
use wirelink.Common.Memory.{Mem, load}
use wirelink.Link.Status.{Status}
use wirelink.Mailbox.Outbox.{no_slot, Outbox, Item, Completion, slot}
use wirelink.Mailbox.Outbox.Release.{complete, is_valid}
use wirelink.Mailbox.Outbox.Submission.{fill, next, submit_latest, select}
use wirelink.Mailbox.Outbox.Valid.{IsValid, submit_latest-IsValid}
use wirelink.Mailbox.Outbox.Values.{latest, find_lane, latest-submit_latest}
use wirelink.Mailbox.Outbox.Finish.{is_same, latest-complete}

-- What is lent out: the slot of the item, still with the value that the item was made from.
pub record IsLent (o : Outbox) (item : Item) : Type 0 where
  pub active : o.active ≡ true
  pub index : o.active_index ≡ item.slot_index
  pub token : o.active_token ≡ item.token
  pub used : (slot o item.slot_index).valid ≡ true
  pub named : (slot o item.slot_index).message_id ≡ item.message_id

-- The search of a submission for the item's id finds the item's slot.
select-lent :
    {o : Outbox} (v : IsValid o) (item : Item)
    → IsLent o item
    → select o item.message_id ≡ some (item.slot_index, true)
unfolding select
select-lent {o} v item l =
    let found =
      find_lane o.slots o.payload_capacity item.message_id item.slot_index v.lanes
        (ground (arith, v.counted, v.active_in l.active, l.index))
        (ground (arith, l.used, l.named)) in
    rw (found, select) refl

submit-lent :
    {o : Outbox} (v : IsValid o) (m : Mem) (item : Item) (payload len : ℕ)
    → IsLent o item
    → payload ≢ 0
    → len ≤ o.payload_capacity
    → submit_latest o m item.message_id payload len
      ≡ fill o m item.message_id payload len item.slot_index true
unfolding submit_latest
submit-lent {o} v m item payload len l given small =
    let numbered = v.lanes.numbered item.slot_index l.used in
    let e = select-lent v item l in rw e (ground (arith, v.marked, l.named, numbered))

-- The loan stays as it is, and the slot now has a generation of its own.
fill-lent :
    {o : Outbox} (v : IsValid o) (m : Mem) (item : Item) (payload len : ℕ)
    → IsLent o item
    → let box = (fill o m item.message_id payload len item.slot_index true).box in
      (box.active ≡ true)
      × (box.active_index ≡ item.slot_index)
      × (box.active_token ≡ item.token)
      × ((slot box item.slot_index).generation ≡ next o.next_generation)
unfolding fill
fill-lent {o} v m item payload len l =
    let lt : item.slot_index < length o.slots =
      ground (arith, v.counted, v.active_in l.active, l.index) in
    rw (get_or-set_self o.slots item.slot_index _ no_slot lt) (l.active, l.index, l.token, refl)

-- While an item of a valid outbox is lent out, its slot still in use for its message id and its
-- token not above the generation counter, which is not at its end, a newer value for its message id
-- is taken, and it still waits after the older item is completed, however that ends.
pub newer_survives :
    {o : Outbox} (v : IsValid o) (m : Mem) (item : Item) (payload len : ℕ) (c : Completion)
    → IsLent o item
    → payload ≢ 0
    → len ≤ o.payload_capacity
    → item.token ≤ o.next_generation
    → o.next_generation + 1 < 2 ^ 64
    → is_valid c ≡ true
    → let s = submit_latest o m item.message_id payload len in
      let r = complete s.box (some item) c in
      (s.status ≡ Status.ok)
      × (r.0 ≡ Status.ok)
      × (latest r.1 s.mem item.message_id ≡ some (load m payload len))
newer_survives {o} v m item payload len c l given small older room known =
    let e = submit-lent v m item payload len l given small in
    let (active, index, token, generation) = fill-lent v m item payload len l in
    let numbered : item.message_id ≢ 0 =
      ground (arith, v.lanes.numbered item.slot_index l.used, l.named) in
    let v' = submit_latest-IsValid v m item.message_id payload len in
    let s = submit_latest o m item.message_id payload len in
    let (ok, ended, now) =
      latest-complete v' s.mem item c item.message_id (rw e active) (rw e index) (rw e token)
        known in
    let stored =
      latest-submit_latest m item.message_id payload len item.message_id v numbered given small in
    let fresh : is_same s.box item ≡ false = rw e (ground (arith, generation)) in
    let status : s.status ≡ Status.ok = rw e (unfold fill in refl) in (status, ok, ground arith)
