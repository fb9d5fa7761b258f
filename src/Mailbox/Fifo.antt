-- ===== src/Mailbox/Fifo.antt =====
-- src/fifo.c: a queue of values of one size between one producer and one consumer. The two share
-- `published_cursor` and `consumed_cursor`: each stores one of them and loads the other, and what
-- such a load returns is an argument, `seen`, of the operation that makes it. Addresses are numbers
-- (0 is NULL). Functions other than `init` are given a FIFO that is not NULL.
pub mod Producer
pub mod Consumer
pub mod Upkeep
pub mod Steps
pub mod Layout
pub mod Indices
pub mod Valid
pub mod Order
mod Tests
use wirelink.Common.{ℕ, ◌+◌, ◌-◌, ◌*◌, ◌/◌, Bool, true, false, not, ◌&&◌, ◌||◌, Option, none, some}
use wirelink.Common.{ltb, leb, ◌==◌, if◌then◌else◌, u32, size_max}
use wirelink.Common.Bits.{bit_and, bit_not}
use wirelink.Common.Atomic.{counter_increment}
use wirelink.Link.Status.{Status}

abbrev pub fifo_magic : ℕ
fifo_magic = 0x574c4651

abbrev pub max_capacity : ℕ
max_capacity = 0x80000000

-- `sizeof(wl_fifo_t)`
abbrev context_size : ℕ
context_size = 128

-- `wl_fifo_impl_t`
pub record Fifo : Type 0 where
  pub magic : ℕ
  pub storage : ℕ
  pub value_size : ℕ
  pub slot_stride : ℕ
  pub capacity : ℕ
  pub write_cursor : ℕ
  pub write_index : ℕ
  pub write_token : ℕ
  pub write_claimed : Bool
  pub read_cursor : ℕ
  pub read_index : ℕ
  pub read_token : ℕ
  pub read_borrowed : Bool
  pub published_cursor : ℕ
  pub consumed_cursor : ℕ
  pub high_watermark : ℕ
  pub publishes : ℕ
  pub consumes : ℕ
  pub full_rejections : ℕ
  pub empty_reads : ℕ
  pub aborts : ℕ
  pub resets : ℕ
  pub errors : ℕ

-- `wl_fifo_config_t`
pub record Config : Type 0 where
  pub value_size : ℕ
  pub value_alignment : ℕ
  pub capacity : ℕ

-- `wl_fifo_requirements_t`
pub record Requirements : Type 0 where
  pub storage_size : ℕ
  pub slot_stride : ℕ
  pub slot_count : ℕ

-- `wl_fifo_storage_t`, `address` being its `data`
pub record Storage : Type 0 where
  pub address : ℕ
  pub size : ℕ

-- `wl_fifo_write_claim_t` and `wl_fifo_view_t`
pub record Ticket : Type 0 where
  pub value : ℕ
  pub value_size : ℕ
  pub token : ℕ
  pub private_slot : ℕ

-- `wl_fifo_slot`
abbrev pub slot : Fifo → ℕ → ℕ
slot f index = f.storage + index * f.slot_stride

-- `wl_fifo_next_index`
abbrev pub next_index : ℕ → ℕ → ℕ
next_index index capacity = if u32 (index + 1) == capacity then 0 else u32 (index + 1)

-- `wl_fifo_error`
abbrev pub error : Fifo → Status → Status × Fifo
error f status = (status, record f { errors = counter_increment f.errors })

-- `wl_fifo_requirements` with an `out_requirements` that is not NULL; `none` is INVALID_ARG.
pub requirements : Option Config → Option Requirements
requirements none = none
requirements (some c) =
    let mask = c.value_alignment - 1 in
    let stride = bit_and (c.value_size + mask) (bit_not mask) in
    if c.value_size == 0 || c.value_alignment == 0 || c.capacity == 0 || leb max_capacity c.capacity
    then none
    else if not (bit_and c.value_alignment mask == 0)
        || ltb size_max c.value_alignment
        || ltb (size_max - mask) c.value_size
    then none
    else if ltb (size_max / c.capacity) stride
    then none
    else some (record {
      storage_size = stride * c.capacity;
      slot_stride = stride;
      slot_count = c.capacity;
    })

-- The context that is written for an accepted configuration.
pub fresh : Config → Requirements → Storage → ℕ → Fifo
fresh c r s magic = record {
  magic = magic;
  storage = s.address;
  value_size = c.value_size;
  slot_stride = r.slot_stride;
  capacity = c.capacity;
  write_cursor = 0;
  write_index = 0;
  write_token = 0;
  write_claimed = false;
  read_cursor = 0;
  read_index = 0;
  read_token = 0;
  read_borrowed = false;
  published_cursor = 0;
  consumed_cursor = 0;
  high_watermark = 0;
  publishes = 0;
  consumes = 0;
  full_rejections = 0;
  empty_reads = 0;
  aborts = 0;
  resets = 0;
  errors = 0;
}

-- The storage of `size` bytes at `address` and the context at `fifo` share a byte.
abbrev overlaps : ℕ → ℕ → ℕ → Bool
overlaps address size fifo =
    (leb address fifo && ltb (fifo - address) size)
    || (ltb fifo address && ltb (address - fifo) context_size)

-- `wl_fifo_init` on a context at address `fifo`, with the context if one is written. `lock_free`
-- says whether the atomics of the target are.
pub init : Bool → ℕ → Option Config → Option Storage → Status × Option Fifo
init lock_free fifo none storage = (Status.invalid_arg, none)
init lock_free fifo (some c) none = (Status.invalid_arg, none)
init lock_free fifo (some c) (some s) =
    if fifo == 0 || s.address == 0
    then (Status.invalid_arg, none)
    else elim (requirements (some c)) [
      | none ↦ (Status.invalid_arg, none)
      | some r ↦
          if ltb s.size r.storage_size
          then (Status.buf_too_small, none)
          else if not (bit_and s.address (c.value_alignment - 1) == 0)
          then (Status.invalid_arg, none)
          else if overlaps s.address r.storage_size fifo
          then (Status.invalid_arg, none)
          else if lock_free
          then (Status.ok, some (fresh c r s fifo_magic))
          else (Status.not_supported, some (fresh c r s 0))
    ]
