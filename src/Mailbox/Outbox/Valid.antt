-- ===== src/Mailbox/Outbox/Valid.antt =====
-- The invariant of the outbox, which every operation keeps.
use wirelink.Common.{ℕ, ◌^◌, ◌<◌, ◌≤◌, ◌≡◌, ◌≢◌, refl, arith, Bool, true, false}
use wirelink.Common.{Option, none, some, List, length, set, length-set, get_or-set, ◌==◌}
use wirelink.Common.{
  replicate, length-replicate, get_or-replicate, if◌then◌else◌, Bool-cases, Option-cases,
}
use wirelink.Common.{◌&&◌, inl, inr, sym, ◌∙◌, get_or_out}
use native.Mathlib.Decide.{dec_lt}
use wirelink.Common.Memory.{Mem}
use wirelink.Mailbox.Outbox.{Slot, no_slot, Outbox, Config, Item, Completion, outbox_magic, slot}
use wirelink.Mailbox.Outbox.{accepted, deferred, rejected, invalid}
use wirelink.Mailbox.Outbox.{fresh, init}
use wirelink.Mailbox.Outbox.Submission.{select, fill, next, submit_latest}
use wirelink.Mailbox.Outbox.Release.{retire, finish, complete, reset}
use wirelink.Mailbox.Outbox.Acquisition.{find_next, take_next, take_slot, acquire_copy}
use wirelink.Mailbox.Outbox.Slots.{at, occupied, occupied-le, occupied-set}
use wirelink.Mailbox.Outbox.Slots.{occupied-replicate, IsSelected, select-some}
use wirelink.Mailbox.Outbox.Slots.{find_next-some}

-- The slots in use belong to different message ids, which are not 0, and their values fit.
pub record IsLanes (ss : List Slot) (capacity : ℕ) : Type 0 where
  pub fits : (i : ℕ) → (at ss i).valid ≡ true → (at ss i).payload_length ≤ capacity
  pub numbered : (i : ℕ) → (at ss i).valid ≡ true → (at ss i).message_id ≢ 0
  pub apart :
      (i j : ℕ)
      → (at ss i).valid ≡ true
      → (at ss j).valid ≡ true
      → (at ss i).message_id ≡ (at ss j).message_id
      → i ≡ j

pub record IsValid (o : Outbox) : Type 0 where
  pub marked : o.magic ≡ outbox_magic
  pub counted : length o.slots ≡ o.slot_count
  pub nonempty : 0 < o.slot_count
  pub bounded : o.slot_count < 2 ^ 16
  pub cursor_in : o.cursor < o.slot_count
  pub depth_is : o.depth ≡ occupied o.slots
  pub lanes : IsLanes o.slots o.payload_capacity
  pub active_in : o.active ≡ true → o.active_index < o.slot_count

-- What a slot holds after a write.
module _ (ss : List Slot) (i : ℕ) (s : Slot) (lt : i < length ss) where
  pub at-set : (j : ℕ) → at (set ss i s) j ≡ (if i == j then s else at ss j)
  at-set j = get_or-set ss i j s no_slot lt

  -- A slot that is emptied leaves the lanes in order.
  pub IsLanes-clear :
      {capacity : ℕ} → s.valid ≡ false → IsLanes ss capacity → IsLanes (set ss i s) capacity
  IsLanes-clear e l = record {
    fits = λ j. ground (arith, at-set j, l.fits j);
    numbered = λ j. ground (arith, at-set j, l.numbered j);
    apart = λ j k. ground (arith, at-set j, at-set k, l.apart j k);
  }

  -- So does one that is filled for an id that no other slot has.
  IsLanes-fill :
      {capacity : ℕ}
      → s.payload_length ≤ capacity
      → s.message_id ≢ 0
      → ((j : ℕ) → j ≢ i → (at ss j).valid ≡ true → (at ss j).message_id ≢ s.message_id)
      → IsLanes ss capacity
      → IsLanes (set ss i s) capacity
  IsLanes-fill small numbered other l = record {
    fits = λ j. ground (arith, at-set j, l.fits j);
    numbered = λ j. ground (arith, at-set j, l.numbered j);
    apart = λ j k. ground (arith, at-set j, at-set k, l.apart j k, other j, other k);
  }

IsLanes-replicate : (n capacity : ℕ) → IsLanes (replicate n no_slot) capacity
IsLanes-replicate n capacity = record {
  fits = λ j. ground (arith, get_or-replicate n j no_slot);
  numbered = λ j. ground (arith, get_or-replicate n j no_slot);
  apart = λ j k. ground (arith, get_or-replicate n j no_slot);
}

fresh-IsValid :
    (c : Config)
    → c.slot_count < 2 ^ 16
    → 0 < c.slot_count
    → IsValid (fresh c) × ((fresh c).depth ≡ 0) × ((fresh c).active ≡ false)
unfolding fresh
fresh-IsValid c small pos = (
  record {
    marked = refl;
    counted = length-replicate c.slot_count no_slot;
    nonempty = pos;
    bounded = small;
    cursor_in = pos;
    depth_is = sym (occupied-replicate c.slot_count);
    lanes = IsLanes-replicate c.slot_count c.payload_capacity_per_slot;
    active_in = λ e. absurd (cc);
  },
  refl,
  refl,
)

-- An accepted configuration gives a valid outbox with nothing in it.
pub init-IsValid :
    (is_null : Bool) (c : Config) {o : Outbox}
    → c.slot_count < 2 ^ 16
    → init is_null (some c) ≡ some o
    → IsValid o × (o.depth ≡ 0) × (o.active ≡ false)
unfolding init
init-IsValid is_null c {o} small h =
    let made : fresh c ≡ o = ground arith in
    let pos : 0 < c.slot_count = ground arith in rw (← made) (fresh-IsValid c small pos)

module _ {o : Outbox} (v : IsValid o) where
  pub fill-IsValid :
      (m : Mem) (id payload len i : ℕ) (replaced : Bool)
      → id ≢ 0
      → len ≤ o.payload_capacity
      → IsSelected o id i replaced
      → IsValid (fill o m id payload len i replaced).box
  unfolding fill
  fill-IsValid m id payload len i replaced numbered small s = record {
    marked = v.marked;
    counted = length-set o.slots i _ ∙ v.counted;
    nonempty = v.nonempty;
    bounded = v.bounded;
    cursor_in = v.cursor_in;
    depth_is = ground (
      arith,
      v.depth_is,
      v.counted,
      v.bounded,
      occupied-le (set o.slots i filled),
      length-set o.slots i filled,
      occupied-set o.slots i filled s.in_range,
      s.lane,
      s.free,
    );
    lanes = IsLanes-fill o.slots i _ s.in_range small numbered other v.lanes;
    active_in = v.active_in;
  }
    where
      filled : Slot
      filled = record {
        generation = next o.next_generation;
        payload_length = len;
        message_id = id;
        valid = true;
      }

      other : (j : ℕ) → j ≢ i → (slot o j).valid ≡ true → (slot o j).message_id ≢ id
      other j ne used = elim (dec_lt j (length o.slots)) [
        | yes lt ↦ elim (Bool-cases replaced) [
          | inl r ↦ ground (arith, s.lane r, v.lanes.apart j i)
          | inr f ↦ ground (arith, s.fresh f j lt)
        ]
        | no ge ↦ ground (arith, get_or_out o.slots j no_slot)
      ]

  pub submit_latest-IsValid :
      (m : Mem) (id payload len : ℕ) → IsValid (submit_latest o m id payload len).box
  unfolding submit_latest
  submit_latest-IsValid m id payload len = elim (Option-cases (select o id)) [
    | inl e ↦ ground (arith, v)
    | inr ((i, replaced), e) ↦
        ground (arith, v, fill-IsValid m id payload len i replaced, select-some o id i replaced e)
  ]

  pub acquire_copy-IsValid :
      (m : Mem) (payload capacity : ℕ) (no_item : Bool)
      → IsValid (acquire_copy o m payload capacity no_item).box
  unfolding acquire_copy take_next take_slot
  acquire_copy-IsValid m payload capacity no_item =
      elim (Option-cases (find_next o o.slot_count 0)) [
        | inl e ↦ ground (arith, v)
        | inr (i, e) ↦ ground (arith, v, find_next-some o o.slot_count 0 i v.nonempty v.bounded e)
      ]

  -- An item that is retired leaves its slot free, or filled by a newer value.
  retire-IsValid :
      (item : Item) (is_accepted : Bool)
      → item.slot_index < o.slot_count
      → IsValid (retire o item is_accepted)
  unfolding retire
  retire-IsValid item is_accepted lt =
      let in_range : item.slot_index < length o.slots = omega (arith, v.counted) in
      elim (Bool-cases
        ((slot o item.slot_index).valid && (slot o item.slot_index).generation == item.token)) [
          | inl same ↦ record {
            marked = v.marked;
            counted = rw same (length-set o.slots item.slot_index no_slot ∙ v.counted);
            nonempty = v.nonempty;
            bounded = v.bounded;
            cursor_in = ground (arith, v.nonempty, v.bounded);
            depth_is = ground (
              arith,
              v.depth_is,
              v.counted,
              v.bounded,
              occupied-le o.slots,
              occupied-set o.slots item.slot_index no_slot in_range,
            );
            lanes = rw same (IsLanes-clear o.slots item.slot_index no_slot in_range refl v.lanes);
            active_in = v.active_in;
          }
          | inr other ↦ ground (arith, v)
        ]

  finish-IsValid :
      (item : Item) (completion : Completion)
      → item.slot_index < o.slot_count
      → IsValid (finish o item completion)
  unfolding finish
  finish-IsValid item accepted lt = retire-IsValid item true lt
  finish-IsValid item deferred lt = ground (arith, v)
  finish-IsValid item rejected lt = retire-IsValid item false lt
  finish-IsValid item invalid lt = v

  pub reset-IsValid : IsValid (reset o).1
  unfolding reset
  reset-IsValid = ground (
    arith,
    v,
    IsLanes-replicate o.slot_count o.payload_capacity,
    occupied-replicate o.slot_count,
    length-replicate o.slot_count no_slot,
  )

  release : IsValid (record o { active = false; active_token = 0 })
  release = ground (arith, v)

module _ {o : Outbox} (v : IsValid o) where
  pub complete-IsValid :
      (item : Option Item) (completion : Completion) → IsValid (complete o item completion).1
  unfolding complete
  complete-IsValid none completion = v
  complete-IsValid (some item) completion = elim (dec_lt item.slot_index o.slot_count) [
    | yes lt ↦ ground (arith, v, finish-IsValid (release v) item completion lt)
    | no ge ↦ ground (arith, v)
  ]
