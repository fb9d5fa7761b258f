-- ===== src/Mailbox/Outbox/Turns.antt =====
-- What `wl_outbox_acquire_copy` lends out.
use wirelink.Common.{ℕ, ◌<◌, ◌≤◌, ◌≡◌, ◌≢◌, ◌⊎◌, refl, arith}
use wirelink.Common.{true, false, some, ◌==◌}
use wirelink.Common.{if◌then◌else◌, Bool-cases}
use wirelink.Common.{Option-cases, inl, inr, ◌∙◌, ap, sym, ltb}
use native.Mathlib.Decide.{dec_lt}
use wirelink.Common.Memory.{Mem, load, load-copy, copy}
use wirelink.Link.Status.{Status}
use wirelink.Mailbox.Outbox.{Outbox, Item, outbox_magic, slot, payload_at}
use wirelink.Mailbox.Outbox.Acquisition.{find_next, take_next, take_slot, acquire_copy}
use wirelink.Mailbox.Outbox.Slots.{find_next-some}
use wirelink.Mailbox.Outbox.Valid.{IsValid}
use wirelink.Mailbox.Outbox.Values.{latest, value, find_lane, latest-some}
use wirelink.Mailbox.Outbox.Round.{turn, find_next-first, idle-depth}

-- What an acquired item is: a lane whose value is now at `payload`, which nothing that waits comes
-- before, counted round from the cursor, and the token and index that complete it.
pub record IsNext (o : Outbox) (m : Mem) (payload : ℕ) (box : Outbox) (m' : Mem) (item : Item)
    : Type 0 where
  pub k : ℕ
  pub place : item.slot_index ≡ turn o k
  pub within : k < o.slot_count
  pub first : (j : ℕ) → j < k → (slot o (turn o j)).valid ≡ false
  pub waits : latest o m item.message_id ≡ some (load m' payload item.payload_length)
  pub owned :
      (box.active ≡ true) × (box.active_index ≡ item.slot_index) × (box.active_token ≡ item.token)
  pub kept : (slot o item.slot_index).generation ≡ item.token

-- The value that is next in turn is longer than the capacity.
abbrev pub IsTooLong : Outbox → ℕ → Type 0
IsTooLong o capacity =
    (k : ℕ) × (k < o.slot_count)
    × ((slot o (turn o k)).valid ≡ true)
    × (capacity < (slot o (turn o k)).payload_length)
    × ((j : ℕ) → j < k → (slot o (turn o j)).valid ≡ false)

-- The value of a lane in use is copied out.
take_slot-IsNext :
    {o : Outbox} (m : Mem) (payload capacity k i : ℕ)
    → IsValid o
    → (slot o i).payload_length ≤ capacity
    → i < o.slot_count
    → (slot o i).valid ≡ true
    → i ≡ turn o k
    → k < o.slot_count
    → ((j : ℕ) → j < k → (slot o (turn o j)).valid ≡ false)
    → let r = take_slot o m payload capacity i in
      (item : Item) × (r.status ≡ Status.ok)
      × (r.item ≡ some item)
      × IsNext o m payload r.box r.mem item
unfolding take_slot
take_slot-IsNext {o} m payload capacity k i v fits lt used place within first =
    let room : ltb capacity (slot o i).payload_length ≡ false = ground arith in
    rw room (
      record {
        token = (slot o i).generation;
        slot_index = i;
        message_id = (slot o i).message_id;
        payload_length = (slot o i).payload_length;
      },
      refl,
      refl,
      record {
        k = k;
        place = place;
        within = within;
        first = first;
        waits =
            latest-some o m (slot o i).message_id i (
              find_lane o.slots o.payload_capacity (slot o i).message_id i v.lanes
                (omega (arith, v.counted)) (ground arith))
            ∙ ap some (sym moved);
        owned = (refl, refl, refl);
        kept = refl;
      },
    )
  where
    moved :
        load
          (if (slot o i).payload_length == 0
            then m
            else copy m payload (payload_at o i) (slot o i).payload_length)
          payload
          (slot o i).payload_length
        ≡ value o m i
    moved = elim (Bool-cases ((slot o i).payload_length == 0)) [
      | inl z ↦ let e : (slot o i).payload_length ≡ 0 = ground arith in rw e
      | inr nz ↦ rw nz (load-copy m payload (payload_at o i) (slot o i).payload_length)
    ]

take_slot_large :
    (o : Outbox) (m : Mem) (payload capacity i : ℕ)
    → capacity < (slot o i).payload_length
    → let r = take_slot o m payload capacity i in
      (r.status ≡ Status.no_space) × (r.box ≡ o) × (r.mem ≡ m)
unfolding take_slot
take_slot_large o m payload capacity i lt =
    let full : ltb capacity (slot o i).payload_length ≡ true = ground arith in
    rw full (refl, refl, refl)

acquire_copy-body :
    (o : Outbox) (m : Mem) (payload capacity : ℕ)
    → o.magic ≡ outbox_magic
    → o.active ≡ false
    → payload ≢ 0
    → acquire_copy o m payload capacity false
      ≡ take_next o m payload capacity (find_next o o.slot_count 0)
unfolding acquire_copy
acquire_copy-body o m payload capacity marked idle given = ground arith

-- On a valid outbox that is not lent out, an acquisition with real pointers answers NO_DATA if
-- nothing waits and NO_SPACE if the next value in turn is longer than the capacity, with state and
-- memory as they were; and otherwise it answers OK and gives the next value in turn: the first slot
-- in use from the cursor on, whose value is copied out and is lent under the slot's generation.
pub acquire_copy_lem :
    {o : Outbox} (m : Mem) (payload capacity : ℕ)
    → IsValid o
    → o.active ≡ false
    → payload ≢ 0
    → let r = acquire_copy o m payload capacity false in
      ((r.status ≡ Status.no_data) × (o.depth ≡ 0) × (r.box ≡ o) × (r.mem ≡ m))
      ⊎ ((r.status ≡ Status.no_space) × (r.box ≡ o) × (r.mem ≡ m) × IsTooLong o capacity)
      ⊎ ((item : Item) × (r.status ≡ Status.ok)
          × (r.item ≡ some item)
          × IsNext o m payload r.box r.mem item)
acquire_copy_lem {o} m payload capacity v idle given =
    let body = acquire_copy-body o m payload capacity v.marked idle given in
    elim (Option-cases (find_next o o.slot_count 0)) [
      | inl e ↦ rw (body, e) (unfold take_next in inl (refl, idle-depth v e, refl, refl))
      | inr (i, e) ↦
          let (k, lo, hi, place, used, first) =
            find_next-first o o.slot_count 0 i v.nonempty v.bounded e in
          let (lt, _) = find_next-some o o.slot_count 0 i v.nonempty v.bounded e in
          rw (body, e)
            (unfold take_next in
              elim (dec_lt capacity (slot o i).payload_length) [
                | yes large ↦
                    let (status, box, mem) = take_slot_large o m payload capacity i large in
                    inr (
                      inl (
                        status,
                        box,
                        mem,
                        (
                          k,
                          omega arith,
                          rw (← place) used,
                          rw (← place) large,
                          λ j h. first j (omega arith) h,
                        ),
                      ))
                | no fits ↦ inr (
                    inr (
                      take_slot-IsNext m payload capacity k i v (omega arith) lt used place
                        (omega arith) (λ j h. first j (omega arith) h)))
              ])
    ]
