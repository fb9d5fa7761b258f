-- ===== src/Common/Bits.antt =====
-- Bitwise operations on `size_t`.
use Prim.Native.Nat.{ℕ, zero, suc, ◌+◌, ◌-◌, ◌*◌, ◌/◌, ◌%◌}
use mathlib.Core.Bool.{◌&&◌}
use wirelink.Common.Tests.{◌==◌, if◌then◌else◌, size_max}

-- The lower `n` bits of `a & b`.
unfoldable pub bits_and : ℕ → ℕ → ℕ → ℕ
bits_and zero a b = 0
bits_and (suc n) a b = (if a % 2 == 1 && b % 2 == 1 then 1 else 0) + 2 * bits_and n (a / 2) (b / 2)

unfoldable pub bit_and : ℕ → ℕ → ℕ
bit_and a b = bits_and 64 a b

-- `~a`
abbrev pub bit_not : ℕ → ℕ
bit_not a = size_max - a

-- The lower `n` bits of `a ^ b`.
unfoldable pub bits_xor : ℕ → ℕ → ℕ → ℕ
bits_xor zero a b = 0
bits_xor (suc n) a b = (a + b) % 2 + 2 * bits_xor n (a / 2) (b / 2)
