-- ===== src/Mailbox/Latest/Upkeep.antt =====
-- `wl_latest_reset` and `wl_latest_get_stats` of src/latest.c.
use wirelink.Common.{ℕ, Bool, not, ◌||◌, Option, none, some}
use wirelink.Common.{◌==◌, if◌then◌else◌}
use wirelink.Common.Atomic.{counter_increment}
use wirelink.Link.Status.{Status}
use wirelink.Mailbox.Latest.{Latest, latest_magic, error}

-- `wl_latest_reset`, which no other call overlaps
unfoldable pub reset : Latest → Status × Latest
reset b =
    if not (b.magic == latest_magic)
    then (Status.not_initialized, b)
    else if b.write_claimed || b.read_borrowed
    then error b Status.busy
    else (
      Status.ok,
      record b {
        reader_front = 0;
        writer_back = 2;
        middle = 1;
        resets = counter_increment b.resets;
      },
    )

-- `wl_latest_stats_t`
pub record Stats : Type 0 where
  pub generation : ℕ
  pub publishes : ℕ
  pub reads : ℕ
  pub coalesced : ℕ
  pub empty_reads : ℕ
  pub resets : ℕ
  pub errors : ℕ

-- `wl_latest_get_stats`; `no_stats` says that `out_stats` is NULL.
unfoldable pub get_stats : Latest → Bool → Status × Option Stats
get_stats b no_stats =
    if no_stats
    then (Status.invalid_arg, none)
    else if not (b.magic == latest_magic)
    then (Status.not_initialized, none)
    else (
      Status.ok,
      some (record {
        generation = b.generation;
        publishes = b.publishes;
        reads = b.reads;
        coalesced = b.coalesced;
        empty_reads = b.empty_reads;
        resets = b.resets;
        errors = b.errors;
      }),
    )
