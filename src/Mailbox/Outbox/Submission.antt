-- ===== src/Mailbox/Outbox/Submission.antt =====
-- `wl_outbox_submit_latest` of src/outbox.c.
use wirelink.Common.{ℕ, ◌+◌, Bool, true, false, not, ◌&&◌, ◌||◌}
use wirelink.Common.{Option, none, some, ltb, ◌==◌, if◌then◌else◌}
use wirelink.Common.{u16, u64, set}
use wirelink.Common.Memory.{Mem, copy}
use wirelink.Link.Status.{Status}
use wirelink.Mailbox.Outbox.{Outbox, outbox_magic, payload_at, find, has_id, is_free}

-- The two loops of `wl_outbox_submit_latest`: the slot that the value goes to, and whether it
-- replaces one.
unfoldable pub select : Outbox → ℕ → Option (ℕ × Bool)
select o id = elim (find (has_id id) o.slots 0) [
  | some i ↦ some (i, true)
  | none ↦ elim (find is_free o.slots 0) [ some i ↦ some (i, false) | none ↦ none ]
]

-- What a call returns, and the state and the memory that it leaves; `coalesced` is what it wrote to
-- `*out_coalesced`.
pub record Submit : Type 0 where
  pub status : Status
  pub box : Outbox
  pub mem : Mem
  pub coalesced : Bool

-- `++next_generation`, and again at 0.
abbrev pub next : ℕ → ℕ
next g = if u64 (g + 1) == 0 then 1 else u64 (g + 1)

-- The value is stored in slot `i`.
unfoldable pub fill : Outbox → Mem → ℕ → ℕ → ℕ → ℕ → Bool → Submit
fill o m id payload len i replaced = record {
  status = Status.ok;
  box = record o {
    slots = set o.slots i (record {
      generation = next o.next_generation;
      payload_length = len;
      message_id = id;
      valid = true;
    });
    next_generation = next o.next_generation;
    submitted = u64 (o.submitted + 1);
    coalesced = if replaced then u64 (o.coalesced + 1) else o.coalesced;
    depth = if replaced then o.depth else u16 (o.depth + 1);
  };
  mem = if len == 0 then m else copy m (payload_at o i) payload len;
  coalesced = replaced;
}

-- `wl_outbox_submit_latest` on an outbox that is not NULL.
unfoldable pub submit_latest : Outbox → Mem → ℕ → ℕ → ℕ → Submit
submit_latest o m id payload len =
    if not (o.magic == outbox_magic)
    then record { status = Status.not_initialized; box = o; mem = m; coalesced = false }
    else if id == 0 || ltb o.payload_capacity len || (payload == 0 && not (len == 0))
    then record { status = Status.invalid_arg; box = o; mem = m; coalesced = false }
    else elim (select o id) [
      | none ↦ record {
        status = Status.queue_full;
        box = record o { queue_full = u64 (o.queue_full + 1) };
        mem = m;
        coalesced = false;
      }
      | some (i, replaced) ↦ fill o m id payload len i replaced
    ]
