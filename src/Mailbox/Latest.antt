-- ===== src/Mailbox/Latest.antt =====
-- src/latest.c: a mailbox of three slots that hands the latest value of one producer to one
-- consumer. Each side owns a slot, and an atomic exchange of `middle` passes the third one. The
-- bits of `middle` are read and set by arithmetic: a number below 2^32 with its top bit as a flag.
-- Addresses are numbers (0 is NULL). Functions other than `init` are given a mailbox that is not
-- NULL.
pub mod Producer
pub mod Consumer
pub mod Upkeep
pub mod Steps
pub mod Valid
pub mod Layout
pub mod Newest
mod Tests
use wirelink.Common.{
  ℕ, ◌+◌, ◌-◌, ◌*◌, ◌/◌, ◌%◌, ◌^◌, Bool, true, false, not, ◌&&◌, ◌||◌, Option, none, some,
}
use wirelink.Common.{ltb, leb, ◌==◌, if◌then◌else◌, size_max, List, [], ◌∷◌, u32}
use wirelink.Common.Bits.{bit_and, bit_not}
use wirelink.Common.Atomic.{counter_increment}
use wirelink.Link.Status.{Status}

abbrev pub latest_magic : ℕ
latest_magic = 0x574c4c54

abbrev pub slot_count : ℕ
slot_count = 3

-- `sizeof(wl_latest_t)`
abbrev context_size : ℕ
context_size = 128

-- `middle & WL_LATEST_DIRTY`
abbrev pub is_dirty : ℕ → Bool
is_dirty middle = middle / 2 ^ 31 % 2 == 1

-- `middle & WL_LATEST_INDEX_MASK`
abbrev pub index : ℕ → ℕ
index middle = middle % 4

-- `n | WL_LATEST_DIRTY`
abbrev pub set_dirty : ℕ → ℕ
set_dirty n = if is_dirty n then n else n + 2 ^ 31

-- `wl_latest_impl_t`
pub record Latest : Type 0 where
  pub magic : ℕ
  pub storage : ℕ
  pub value_size : ℕ
  pub slot_stride : ℕ
  pub writer_back : ℕ
  pub write_token : ℕ
  pub write_claimed : Bool
  pub reader_front : ℕ
  pub read_token : ℕ
  pub read_borrowed : Bool
  pub slot_generation : ℕ → ℕ
  pub middle : ℕ
  pub generation : ℕ
  pub publishes : ℕ
  pub reads : ℕ
  pub coalesced : ℕ
  pub empty_reads : ℕ
  pub resets : ℕ
  pub errors : ℕ

-- `wl_latest_config_t`
pub record Config : Type 0 where
  pub value_size : ℕ
  pub value_alignment : ℕ
  pub initial_generation : ℕ

-- `wl_latest_requirements_t`
pub record Requirements : Type 0 where
  pub storage_size : ℕ
  pub slot_stride : ℕ
  pub slot_count : ℕ

-- `wl_latest_storage_t`, `address` being its `data`
pub record Storage : Type 0 where
  pub address : ℕ
  pub size : ℕ

-- `wl_latest_write_claim_t`
pub record Claim : Type 0 where
  pub value : ℕ
  pub value_size : ℕ
  pub token : ℕ
  pub private_slot : ℕ

-- `wl_latest_view_t`
pub record View : Type 0 where
  pub value : ℕ
  pub value_size : ℕ
  pub generation : ℕ
  pub token : ℕ
  pub private_slot : ℕ

-- `wl_latest_slot`
abbrev pub slot : Latest → ℕ → ℕ
slot b i = b.storage + i * b.slot_stride

-- `wl_latest_error`
abbrev pub error : Latest → Status → Status × Latest
error b status = (status, record b { errors = counter_increment b.errors })

-- `wl_latest_requirements` with an `out_requirements` that is not NULL; `none` is INVALID_ARG.
pub requirements : Option Config → Option Requirements
requirements none = none
requirements (some c) =
    let mask = c.value_alignment - 1 in
    let stride = bit_and (c.value_size + mask) (bit_not mask) in
    if c.value_size == 0 || c.value_alignment == 0
    then none
    else if not (bit_and c.value_alignment mask == 0) || ltb (size_max - mask) c.value_size
    then none
    else if ltb (size_max / slot_count) stride
    then none
    else some (record {
      storage_size = stride * slot_count;
      slot_stride = stride;
      slot_count = slot_count;
    })

-- The context that is written for an accepted configuration.
pub fresh : Config → Requirements → Storage → ℕ → Latest
fresh c r s magic = record {
  magic = magic;
  storage = s.address;
  value_size = c.value_size;
  slot_stride = r.slot_stride;
  writer_back = 2;
  write_token = 0;
  write_claimed = false;
  reader_front = 0;
  read_token = 0;
  read_borrowed = false;
  slot_generation = λ i. 0;
  middle = 1;
  generation = c.initial_generation;
  publishes = 0;
  reads = 0;
  coalesced = 0;
  empty_reads = 0;
  resets = 0;
  errors = 0;
}

-- The storage of `size` bytes at `address` and the context at `mailbox` share a byte.
abbrev overlaps : ℕ → ℕ → ℕ → Bool
overlaps address size mailbox =
    (leb address mailbox && ltb (mailbox - address) size)
    || (ltb mailbox address && ltb (address - mailbox) context_size)

-- `wl_latest_init` on a context at address `mailbox`, with the context if one is written.
-- `lock_free` says whether the atomics of the target are.
pub init : Bool → ℕ → Option Config → Option Storage → Status × Option Latest
init lock_free mailbox none storage = (Status.invalid_arg, none)
init lock_free mailbox (some c) none = (Status.invalid_arg, none)
init lock_free mailbox (some c) (some s) =
    if mailbox == 0 || s.address == 0
    then (Status.invalid_arg, none)
    else elim (requirements (some c)) [
      | none ↦ (Status.invalid_arg, none)
      | some r ↦
          if ltb s.size r.storage_size
          then (Status.buf_too_small, none)
          else if not (bit_and s.address (c.value_alignment - 1) == 0)
          then (Status.invalid_arg, none)
          else if overlaps s.address r.storage_size mailbox
          then (Status.invalid_arg, none)
          else if lock_free
          then (Status.ok, some (fresh c r s latest_magic))
          else (Status.not_supported, some (fresh c r s 0))
    ]
