-- ===== src/Mailbox/Outbox/Finish.antt =====
-- What `wl_outbox_complete` does to the values that wait.
use wirelink.Common.{ℕ, ◌<◌, ◌≡◌, ◌≢◌, refl, arith, Bool, true, false, ◌&&◌, not}
use wirelink.Common.{none, some, length, set, ◌==◌, get_or-set_self, get_or-set_ne}
use wirelink.Common.{length-set, if◌then◌else◌, Bool-cases, Option-cases, inl, inr, ◌∙◌, ap, sym}
use wirelink.Common.Memory.{Mem}
use wirelink.Link.Status.{Status}
use wirelink.Mailbox.Outbox.{no_slot, Outbox, Item, Completion, outbox_magic, slot, find, has_id}
use wirelink.Mailbox.Outbox.Release.{retire, complete, finish, is_valid}
use wirelink.Mailbox.Outbox.{accepted, deferred, rejected, invalid}
use wirelink.Mailbox.Outbox.Slots.{find-some, find-none, find_misses}
use wirelink.Mailbox.Outbox.Valid.{IsLanes, IsValid, IsLanes-clear}
use wirelink.Mailbox.Outbox.Values.{latest, value, find_lane, latest-some, latest-none}

-- The slot still holds the value that was lent out.
abbrev pub is_same : Outbox → Item → Bool
is_same o item = (slot o item.slot_index).valid && (slot o item.slot_index).generation == item.token

module _ {o : Outbox} (v : IsValid o) (m : Mem) (item : Item) (is_accepted : Bool)
    (lt : item.slot_index < o.slot_count) where
  abbrev left : Outbox
  left = retire o item is_accepted

  module _ (same : is_same o item ≡ true) where
    left-slots : left.slots ≡ set o.slots item.slot_index no_slot
    unfolding retire
    left-slots = rw same refl

    slot-left_self : slot left item.slot_index ≡ no_slot
    slot-left_self =
        rw left-slots
          (get_or-set_self o.slots item.slot_index no_slot no_slot (omega (arith, v.counted)))

    slot-left_ne : (k : ℕ) → item.slot_index ≢ k → slot left k ≡ slot o k
    slot-left_ne k ne = rw left-slots (get_or-set_ne o.slots item.slot_index k no_slot no_slot ne)

    length-left : length left.slots ≡ length o.slots
    length-left = rw left-slots (length-set o.slots item.slot_index no_slot)

    IsLanes-left : IsLanes left.slots o.payload_capacity
    IsLanes-left =
        rw left-slots
          (IsLanes-clear o.slots item.slot_index no_slot (omega (arith, v.counted)) refl v.lanes)

    value-left : (k : ℕ) → item.slot_index ≢ k → value left m k ≡ value o m k
    value-left k ne = rw (slot-left_ne k ne) (unfold retire in refl)

    -- The emptied slot's id has no value any more.
    latest-left_self : (j : ℕ) → (slot o item.slot_index).message_id ≡ j → latest left m j ≡ none
    latest-left_self j named = latest-none left m j (
        find_misses (has_id j) left.slots 0 (λ k h. elim (Bool-cases (item.slot_index == k)) [
          | inl e ↦
              let here : k ≡ item.slot_index = ground arith in
              rw here (ground (arith, slot-left_self))
          | inr f ↦ rw (slot-left_ne k (ground arith)) (elim (Bool-cases (has_id j (slot o k))) [
            | inl t ↦ ground (arith, v.lanes.apart item.slot_index k)
            | inr t ↦ t
          ])
        ]))

    latest-left_ne :
        (j : ℕ) → (slot o item.slot_index).message_id ≢ j → latest left m j ≡ latest o m j
    latest-left_ne j other = elim (Option-cases (find (has_id j) o.slots 0)) [
      | inr (k', e) ↦
          let (k, at_k, h, t) = find-some (has_id j) o.slots 0 k' e in
          let here : k' ≡ k = omega arith in
          let apart : item.slot_index ≢ k =
            λ e'. let t' : has_id j (slot o item.slot_index) ≡ true = rw e' t in ground arith in
          latest-some left m j k (
            find_lane left.slots o.payload_capacity j k IsLanes-left (omega (arith, length-left))
              (rw (slot-left_ne k apart) t))
          ∙ ap some (value-left k apart)
          ∙ sym (latest-some o m j k (rw here at e))
      | inl e ↦
          latest-none left m j (
            find_misses (has_id j) left.slots 0 (λ k h. elim (Bool-cases (item.slot_index == k)) [
              | inl e' ↦
                  let here : k ≡ item.slot_index = ground arith in
                  rw here (ground (arith, slot-left_self))
              | inr f ↦
                  rw (slot-left_ne k (ground arith))
                    (find-none (has_id j) o.slots 0 k e (omega (arith, length-left)))
            ]))
          ∙ sym (latest-none o m j e)
    ]

  -- Retiring an item removes the value that was lent out, where it is still there, and no other.
  pub latest-retire :
      (j : ℕ)
      → latest left m j ≡ (
          if is_same o item && (slot o item.slot_index).message_id == j then none else latest o m j)
  latest-retire j = elim (Bool-cases (is_same o item)) [
    | inr f ↦ rw f (unfold retire latest in rw f refl)
    | inl same ↦ elim (Bool-cases ((slot o item.slot_index).message_id == j)) [
      | inl e ↦ rw (same, e) (latest-left_self same j (ground arith))
      | inr f ↦ rw (same, f) (latest-left_ne same j (ground arith))
    ]
  ]

abbrev pub is_deferred : Completion → Bool
is_deferred deferred = true
is_deferred _ = false

-- A completion that fits the loan is taken.
complete-body :
    (o : Outbox) (item : Item) (c : Completion)
    → o.magic ≡ outbox_magic
    → item.slot_index < o.slot_count
    → is_valid c ≡ true
    → o.active ≡ true
    → o.active_index ≡ item.slot_index
    → o.active_token ≡ item.token
    → complete o (some item) c
      ≡ (Status.ok, finish (record o { active = false; active_token = 0 }) item c)
unfolding complete
complete-body o item c marked lt known active index token = ground arith

released : {o : Outbox} → IsValid o → IsValid (record o { active = false; active_token = 0 })
released v = ground (arith, v)

latest-finish :
    {o : Outbox} (v : IsValid o) (m : Mem) (item : Item) (c : Completion) (j : ℕ)
    → item.slot_index < o.slot_count
    → is_valid c ≡ true
    → ((finish o item c).active ≡ o.active)
      × (latest (finish o item c) m j ≡ (
          if not (is_deferred c) && is_same o item && (slot o item.slot_index).message_id == j
          then none
          else latest o m j))
unfolding finish
latest-finish v m item accepted j lt known =
    (unfold retire in refl, latest-retire v m item true lt j)
latest-finish v m item deferred j lt known = (refl, unfold latest in refl)
latest-finish v m item rejected j lt known =
    (unfold retire in refl, latest-retire v m item false lt j)
latest-finish v m item invalid j lt known = cc

-- On a valid outbox, a known completion with the token and the index of the item that is lent out
-- answers OK and ends the loan. If it is accepted or rejected, the value that was lent out no
-- longer waits, unless a newer one has taken its slot; no other value changes, and a deferred
-- completion changes none.
pub latest-complete :
    {o : Outbox} (v : IsValid o) (m : Mem) (item : Item) (c : Completion) (j : ℕ)
    → o.active ≡ true
    → o.active_index ≡ item.slot_index
    → o.active_token ≡ item.token
    → is_valid c ≡ true
    → let r = complete o (some item) c in
      (r.0 ≡ Status.ok)
      × (r.1.active ≡ false)
      × (latest r.1 m j ≡ (
          if not (is_deferred c) && is_same o item && (slot o item.slot_index).message_id == j
          then none
          else latest o m j))
latest-complete {o} v m item c j active index token known =
    let lt : item.slot_index < o.slot_count = ground (arith, v.active_in active) in
    let (ended, left) = latest-finish (released v) m item c j lt known in
    rw (complete-body o item c v.marked lt known active index token)
      (refl, ended, unfold latest in left)
