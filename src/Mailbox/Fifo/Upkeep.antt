-- ===== src/Mailbox/Fifo/Upkeep.antt =====
-- `wl_fifo_reset` and `wl_fifo_get_stats` of src/fifo.c.
use wirelink.Common.{ℕ, Bool, not, ◌||◌, Option, none, some}
use wirelink.Common.{ltb, ◌==◌, if◌then◌else◌}
use wirelink.Common.Atomic.{counter_increment}
use wirelink.Link.Status.{Status}
use wirelink.Mailbox.Fifo.{Fifo, fifo_magic, error}
use wirelink.Mailbox.Fifo.Producer.{minus}

-- `wl_fifo_reset`, which no other call overlaps
unfoldable pub reset : Fifo → Status × Fifo
reset f =
    if not (f.magic == fifo_magic)
    then (Status.not_initialized, f)
    else if f.write_claimed || f.read_borrowed
    then error f Status.busy
    else (
      Status.ok,
      record f {
        write_cursor = 0;
        write_index = 0;
        read_cursor = 0;
        read_index = 0;
        published_cursor = 0;
        consumed_cursor = 0;
        resets = counter_increment f.resets;
      },
    )

-- `wl_fifo_stats_t`
pub record Stats : Type 0 where
  pub depth : ℕ
  pub high_watermark : ℕ
  pub publishes : ℕ
  pub consumes : ℕ
  pub full_rejections : ℕ
  pub empty_reads : ℕ
  pub aborts : ℕ
  pub resets : ℕ
  pub errors : ℕ

-- `wl_fifo_get_stats`, which loads `consumed` and `published`; `no_stats` says that `out_stats` is
-- NULL.
unfoldable pub get_stats : Fifo → Bool → ℕ → ℕ → Status × Option Stats
get_stats f no_stats consumed published =
    let depth = minus published consumed in
    if no_stats
    then (Status.invalid_arg, none)
    else if not (f.magic == fifo_magic)
    then (Status.not_initialized, none)
    else (
      Status.ok,
      some (record {
        depth = if ltb f.capacity depth then f.capacity else depth;
        high_watermark = f.high_watermark;
        publishes = f.publishes;
        consumes = f.consumes;
        full_rejections = f.full_rejections;
        empty_reads = f.empty_reads;
        aborts = f.aborts;
        resets = f.resets;
        errors = f.errors;
      }),
    )
