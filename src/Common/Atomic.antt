-- ===== src/Common/Atomic.antt =====
-- Atomic counters and tokens of 32 bits. A compare-and-exchange loop on a counter ends with one
-- exchange that succeeds, so it is one step here.
use Prim.Native.Nat.{ℕ, ◌+◌}
use wirelink.Common.Tests.{◌==◌, if◌then◌else◌, ltb, u32}

-- `wl_fifo_counter_increment`, `wl_latest_counter_increment`
abbrev pub counter_increment : ℕ → ℕ
counter_increment c = if c == 0xffffffff then c else u32 (c + 1)

-- `wl_fifo_counter_max`
abbrev pub counter_max : ℕ → ℕ → ℕ
counter_max c v = if ltb c v then v else c

-- `wl_fifo_next_token`, `wl_latest_next_token`
abbrev pub next_token : ℕ → ℕ
next_token t = if u32 (t + 1) == 0 then 1 else u32 (t + 1)
