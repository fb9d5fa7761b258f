-- ===== src/Mailbox/Outbox/Release.antt =====
-- `wl_outbox_complete`, `wl_outbox_reset` and `wl_outbox_get_stats` of src/outbox.c.
use wirelink.Common.{ℕ, ◌+◌, ◌%◌, Bool, true, false, not, ◌&&◌, ◌||◌}
use wirelink.Common.{Option, none, some, ltb, ◌==◌, if◌then◌else◌}
use wirelink.Common.{u16, u64, set, replicate}
use wirelink.Link.Status.{Status}
use wirelink.Mailbox.Outbox.{
  no_slot, Outbox, Item, Completion, accepted, deferred, rejected, invalid, outbox_magic, slot,
}

-- The last part of `wl_outbox_complete`, for an item that is sent or given up.
unfoldable pub retire : Outbox → Item → Bool → Outbox
retire o item is_accepted =
    let current = slot o item.slot_index in
    let same = current.valid && current.generation == item.token in
    record o {
      slots = if same then set o.slots item.slot_index no_slot else o.slots;
      depth = if same then u16 (o.depth + 65535) else o.depth;
      superseded = if same then o.superseded else u64 (o.superseded + 1);
      cursor = u16 ((item.slot_index + 1) % o.slot_count);
      accepted = if is_accepted then u64 (o.accepted + 1) else o.accepted;
      rejected = if is_accepted then o.rejected else u64 (o.rejected + 1);
    }

abbrev pub is_valid : Completion → Bool
is_valid invalid = false
is_valid _ = true

unfoldable pub finish : Outbox → Item → Completion → Outbox
finish o item accepted = retire o item true
finish o item deferred = record o { deferred = u64 (o.deferred + 1) }
finish o item rejected = retire o item false
finish o item invalid = o

-- `wl_outbox_complete`; no item is a NULL `item`.
unfoldable pub complete : Outbox → Option Item → Completion → Status × Outbox
complete o none completion =
    (if o.magic == outbox_magic then Status.invalid_arg else Status.not_initialized, o)
complete o (some item) completion =
    if not (o.magic == outbox_magic)
    then (Status.not_initialized, o)
    else if not (ltb item.slot_index o.slot_count) || not (is_valid completion)
    then (Status.invalid_arg, o)
    else if not o.active
        || not (o.active_index == item.slot_index)
        || not (o.active_token == item.token)
    then (Status.invalid_state, o)
    else (Status.ok, finish (record o { active = false; active_token = 0 }) item completion)

-- `wl_outbox_reset`, with the number that it writes to `*out_discarded`.
unfoldable pub reset : Outbox → Status × Outbox × Option ℕ
reset o =
    if not (o.magic == outbox_magic)
    then (Status.not_initialized, o, none)
    else if o.active
    then (Status.busy, o, none)
    else (
      Status.ok,
      record o {
        slots = replicate o.slot_count no_slot;
        depth = 0;
        cursor = 0;
        resets = u64 (o.resets + 1);
      },
      some o.depth,
    )

-- `wl_outbox_stats_t`
pub record Stats : Type 0 where
  pub submitted : ℕ
  pub coalesced : ℕ
  pub queue_full : ℕ
  pub acquired : ℕ
  pub accepted : ℕ
  pub deferred : ℕ
  pub rejected : ℕ
  pub superseded : ℕ
  pub resets : ℕ
  pub depth : ℕ

-- `wl_outbox_get_stats`; `no_stats` says that `out_stats` is NULL.
pub get_stats : Outbox → Bool → Status × Option Stats
get_stats o no_stats =
    if not (o.magic == outbox_magic)
    then (Status.not_initialized, none)
    else if no_stats
    then (Status.invalid_arg, none)
    else (
      Status.ok,
      some (record {
        submitted = o.submitted;
        coalesced = o.coalesced;
        queue_full = o.queue_full;
        acquired = o.acquired;
        accepted = o.accepted;
        deferred = o.deferred;
        rejected = o.rejected;
        superseded = o.superseded;
        resets = o.resets;
        depth = o.depth;
      }),
    )
