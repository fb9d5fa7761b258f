-- ===== src/Mailbox/Outbox.antt =====
-- src/outbox.c: one unsent value for each message id, taken in turn. All calls are serialized by
-- the caller. The payload bytes lie in one memory, `payload_storage` and `payload` being addresses
-- (0 is NULL); the other fields are the record's own.
pub mod Submission
pub mod Acquisition
pub mod Release
pub mod Slots
pub mod Valid
pub mod Steps
pub mod Values
pub mod Round
pub mod Turns
pub mod Finish
pub mod Loans
pub mod Newer
mod Tests
use wirelink.Common.{ℕ, zero, suc, ◌+◌, ◌*◌, ◌/◌, ◌%◌, Bool, true, false, not, ◌&&◌, ◌||◌}
use wirelink.Common.{Option, none, some, List, [], ◌∷◌, ltb, ◌==◌, if◌then◌else◌}
use wirelink.Common.{u16, u64, size_max, get_or, set, replicate}
use wirelink.Common.Memory.{Mem, copy}
use wirelink.Link.Status.{Status}

-- `wl_outbox_slot_impl_t`
pub record Slot : Type 0 where
  pub generation : ℕ
  pub payload_length : ℕ
  pub message_id : ℕ
  pub valid : Bool

-- A slot that is all zero bytes.
abbrev pub no_slot : Slot
no_slot = record { generation = 0; payload_length = 0; message_id = 0; valid = false }

-- `wl_outbox_impl_t`, with the array that `slots` points to in its place.
pub record Outbox : Type 0 where
  pub slots : List Slot
  pub payload_storage : ℕ
  pub next_generation : ℕ
  pub submitted : ℕ
  pub coalesced : ℕ
  pub queue_full : ℕ
  pub acquired : ℕ
  pub accepted : ℕ
  pub deferred : ℕ
  pub rejected : ℕ
  pub superseded : ℕ
  pub resets : ℕ
  pub active_token : ℕ
  pub magic : ℕ
  pub slot_count : ℕ
  pub payload_capacity : ℕ
  pub cursor : ℕ
  pub depth : ℕ
  pub active_index : ℕ
  pub active : Bool

-- `wl_outbox_config_t`; `slots` is the address of the array, which holds `slot_count` slots.
pub record Config : Type 0 where
  pub slots : ℕ
  pub slot_count : ℕ
  pub payload_storage : ℕ
  pub payload_storage_size : ℕ
  pub payload_capacity_per_slot : ℕ
  pub initial_generation : ℕ

-- `wl_outbox_item_t`
pub record Item : Type 0 where
  pub token : ℕ
  pub slot_index : ℕ
  pub message_id : ℕ
  pub payload_length : ℕ

-- `wl_outbox_completion_t`; `invalid` is any other number.
pub data Completion : Type 0 where
  accepted deferred rejected invalid : Completion

abbrev pub outbox_magic : ℕ
outbox_magic = 0x4f555442

-- `slot(state, index)`
abbrev pub slot : Outbox → ℕ → Slot
slot o i = get_or o.slots i no_slot

abbrev pub payload_at : Outbox → ℕ → ℕ
payload_at o i = o.payload_storage + i * o.payload_capacity

-- The state that an accepted configuration is turned into.
pub fresh : Config → Outbox
fresh c = record {
  slots = replicate c.slot_count no_slot;
  payload_storage = c.payload_storage;
  next_generation = c.initial_generation;
  submitted = 0;
  coalesced = 0;
  queue_full = 0;
  acquired = 0;
  accepted = 0;
  deferred = 0;
  rejected = 0;
  superseded = 0;
  resets = 0;
  active_token = 0;
  magic = outbox_magic;
  slot_count = c.slot_count;
  payload_capacity = c.payload_capacity_per_slot;
  cursor = 0;
  depth = 0;
  active_index = 0;
  active = false;
}

-- `wl_outbox_init`: the new state, or `none` for INVALID_ARG. `is_null` says that `outbox` is NULL,
-- and no configuration is a NULL `config`.
pub init : Bool → Option Config → Option Outbox
init is_null none = none
init is_null (some c) =
    if is_null
      || c.slots == 0
      || c.slot_count == 0
      || c.payload_storage == 0
      || c.payload_capacity_per_slot == 0
      || ltb (size_max / c.payload_capacity_per_slot) c.slot_count
    then none
    else if ltb c.payload_storage_size (c.slot_count * c.payload_capacity_per_slot)
    then none
    else some (fresh c)

-- The first slot from index `i` on, of the list of those from there on, that passes the test.
pub find : (Slot → Bool) → List Slot → ℕ → Option ℕ
find test [] i = none
find test (s ∷ ss) i = let rest = find test ss (i + 1) in if test s then some i else rest

abbrev pub has_id : ℕ → Slot → Bool
has_id id s = s.valid && s.message_id == id

abbrev pub is_free : Slot → Bool
is_free s = not s.valid
