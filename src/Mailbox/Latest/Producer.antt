-- ===== src/Mailbox/Latest/Producer.antt =====
-- The producer's side of src/latest.c.
use wirelink.Common.{ℕ, ◌+◌, Bool, true, false, not, ◌&&◌, Option, none, some}
use wirelink.Common.{◌==◌, if◌then◌else◌, u32}
use wirelink.Common.Atomic.{counter_increment, next_token}
use wirelink.Link.Status.{Status}
use wirelink.Mailbox.Latest.{Latest, Claim, latest_magic, slot, error, is_dirty, index, set_dirty}

-- `wl_latest_claim_matches`
unfoldable pub claim_matches : Latest → Option Claim → Bool
claim_matches b none = false
claim_matches b (some claim) =
    b.write_claimed
    && not (claim.token == 0)
    && claim.token == b.write_token
    && claim.private_slot == b.writer_back
    && claim.value == slot b b.writer_back
    && claim.value_size == b.value_size

-- `wl_latest_write_claim`; `no_claim` says that `out_claim` is NULL, and `none` is the claim of
-- zeros.
unfoldable pub write_claim : Latest → Bool → Status × Latest × Option Claim
write_claim b no_claim =
    let token = next_token b.write_token in
    if no_claim
    then (Status.invalid_arg, b, none)
    else if not (b.magic == latest_magic)
    then (Status.not_initialized, b, none)
    else if b.write_claimed
    then ((error b Status.busy).0, (error b Status.busy).1, none)
    else (
      Status.ok,
      record b { write_token = token; write_claimed = true },
      some (record {
        value = slot b b.writer_back;
        value_size = b.value_size;
        token = token;
        private_slot = b.writer_back;
      }),
    )

-- `slot_generation[i] = generation`
abbrev pub stamp : (ℕ → ℕ) → ℕ → ℕ → ℕ → ℕ
stamp generations i generation k = if k == i then generation else generations k

-- `wl_latest_write_publish`
unfoldable pub write_publish : Latest → Option Claim → Status × Latest
write_publish b claim =
    let generation = u32 (b.generation + 1) in
    if not (b.magic == latest_magic)
    then (Status.not_initialized, b)
    else if not (claim_matches b claim)
    then error b Status.invalid_state
    else (
      Status.ok,
      record b {
        generation = generation;
        slot_generation = stamp b.slot_generation b.writer_back generation;
        middle = set_dirty b.writer_back;
        writer_back = index b.middle;
        write_claimed = false;
        publishes = counter_increment b.publishes;
        coalesced = if is_dirty b.middle then counter_increment b.coalesced else b.coalesced;
      },
    )

-- `wl_latest_write_abort`
unfoldable pub write_abort : Latest → Option Claim → Status × Latest
write_abort b claim =
    if not (b.magic == latest_magic)
    then (Status.not_initialized, b)
    else if not (claim_matches b claim)
    then error b Status.invalid_state
    else (Status.ok, record b { write_claimed = false })
