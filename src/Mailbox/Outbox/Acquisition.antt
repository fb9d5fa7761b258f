-- ===== src/Mailbox/Outbox/Acquisition.antt =====
-- `wl_outbox_acquire_copy` of src/outbox.c.
use wirelink.Common.{ℕ, zero, suc, ◌+◌, ◌%◌, Bool, true, not, ◌||◌}
use wirelink.Common.{Option, none, some, ltb, ◌==◌, if◌then◌else◌}
use wirelink.Common.{u16, u64}
use wirelink.Common.Memory.{Mem, copy}
use wirelink.Link.Status.{Status}
use wirelink.Mailbox.Outbox.{Outbox, Item, outbox_magic, slot, payload_at}

pub record Acquire : Type 0 where
  pub status : Status
  pub box : Outbox
  pub mem : Mem
  pub item : Option Item

-- The loop of `wl_outbox_acquire_copy` with `n` rounds left: the first valid slot, going round.
unfoldable pub find_next : Outbox → ℕ → ℕ → Option ℕ
find_next o zero offset = none
find_next o (suc n) offset =
    let index = u16 ((o.cursor + offset) % o.slot_count) in
    let rest = find_next o n (offset + 1) in if (slot o index).valid then some index else rest

-- The body of the loop at a valid slot.
unfoldable pub take_slot : Outbox → Mem → ℕ → ℕ → ℕ → Acquire
take_slot o m payload capacity i =
    if ltb capacity (slot o i).payload_length
    then record { status = Status.no_space; box = o; mem = m; item = none }
    else record {
      status = Status.ok;
      box = record o {
        acquired = u64 (o.acquired + 1);
        active_token = (slot o i).generation;
        active_index = i;
        active = true;
      };
      mem =
          if (slot o i).payload_length == 0
          then m
          else copy m payload (payload_at o i) (slot o i).payload_length;
      item = some (record {
        token = (slot o i).generation;
        slot_index = i;
        message_id = (slot o i).message_id;
        payload_length = (slot o i).payload_length;
      });
    }

-- What the loop comes to: no slot in use, or the slot `i`.
unfoldable pub take_next : Outbox → Mem → ℕ → ℕ → Option ℕ → Acquire
take_next o m payload capacity none = record {
  status = Status.no_data;
  box = o;
  mem = m;
  item = none;
}
take_next o m payload capacity (some i) = take_slot o m payload capacity i

-- `wl_outbox_acquire_copy`; `no_item` says that `out_item` is NULL.
unfoldable pub acquire_copy : Outbox → Mem → ℕ → ℕ → Bool → Acquire
acquire_copy o m payload capacity no_item =
    if not (o.magic == outbox_magic)
    then record { status = Status.not_initialized; box = o; mem = m; item = none }
    else if payload == 0 || no_item
    then record { status = Status.invalid_arg; box = o; mem = m; item = none }
    else if o.active
    then record { status = Status.busy; box = o; mem = m; item = none }
    else take_next o m payload capacity (find_next o o.slot_count 0)
