-- ===== src/Mailbox/Fifo/Producer.antt =====
-- The producer's side of src/fifo.c.
use wirelink.Common.{ℕ, ◌+◌, ◌-◌, ◌^◌, Bool, true, false, not, ◌&&◌, Option, none, some}
use wirelink.Common.{leb, ◌==◌, if◌then◌else◌, u32}
use wirelink.Common.Atomic.{counter_increment, counter_max, next_token}
use wirelink.Link.Status.{Status}
use wirelink.Mailbox.Fifo.{Fifo, Ticket, fifo_magic, slot, next_index, error}

-- `wl_fifo_claim_matches`
unfoldable pub claim_matches : Fifo → Option Ticket → Bool
claim_matches f none = false
claim_matches f (some claim) =
    f.write_claimed
    && not (claim.token == 0)
    && claim.token == f.write_token
    && claim.private_slot == f.write_index
    && claim.value == slot f f.write_index
    && claim.value_size == f.value_size

-- `(uint32_t)(a - b)` on two values of 32 bits
abbrev pub minus : ℕ → ℕ → ℕ
minus a b = u32 (a + (2 ^ 32 - b))

-- `wl_fifo_write_claim`, which loads `seen` from `consumed_cursor`; `no_claim` says that `out_claim`
-- is NULL, and `none` is the claim of zeros.
unfoldable pub write_claim : Fifo → Bool → ℕ → Status × Fifo × Option Ticket
write_claim f no_claim seen =
    let token = next_token f.write_token in
    if no_claim
    then (Status.invalid_arg, f, none)
    else if not (f.magic == fifo_magic)
    then (Status.not_initialized, f, none)
    else if f.write_claimed
    then ((error f Status.busy).0, (error f Status.busy).1, none)
    else if leb f.capacity (minus f.write_cursor seen)
    then (
      Status.queue_full,
      record f { full_rejections = counter_increment f.full_rejections },
      none,
    )
    else (
      Status.ok,
      record f { write_token = token; write_claimed = true },
      some (record {
        value = slot f f.write_index;
        value_size = f.value_size;
        token = token;
        private_slot = f.write_index;
      }),
    )

-- `wl_fifo_write_publish`, which loads `seen` from `consumed_cursor`
unfoldable pub write_publish : Fifo → Option Ticket → ℕ → Status × Fifo
write_publish f claim seen =
    let next_cursor = u32 (f.write_cursor + 1) in
    if not (f.magic == fifo_magic)
    then (Status.not_initialized, f)
    else if not (claim_matches f claim)
    then error f Status.invalid_state
    else (
      Status.ok,
      record f {
        write_cursor = next_cursor;
        write_index = next_index f.write_index f.capacity;
        write_claimed = false;
        published_cursor = next_cursor;
        high_watermark = counter_max f.high_watermark (minus next_cursor seen);
        publishes = counter_increment f.publishes;
      },
    )

-- `wl_fifo_write_abort`
unfoldable pub write_abort : Fifo → Option Ticket → Status × Fifo
write_abort f claim =
    if not (f.magic == fifo_magic)
    then (Status.not_initialized, f)
    else if not (claim_matches f claim)
    then error f Status.invalid_state
    else (Status.ok, record f { write_claimed = false; aborts = counter_increment f.aborts })
