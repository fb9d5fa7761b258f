-- ===== src/Link/Crc/Bitwise.antt =====
-- The tables against the division by the polynomials, a bit at a time.
use wirelink.Common.{ℕ, zero, suc, ◌+◌, ◌*◌, ◌/◌, ◌%◌, ◌^◌, ◌<◌, ◌≡◌, refl, arith, ap, ◌∙◌}
use wirelink.Common.{List, [], ◌∷◌, ◌==◌, if◌then◌else◌, u16, get_or}
use native.Mathlib.Nat.{zero-add}
use wirelink.Common.Bits.{bits_xor}
use wirelink.Link.Crc.Tables.{crc16_table, crc32_table}

-- One bit of the division by x^16 + x^12 + x^5 + 1, the highest bit first.
abbrev pub divide16 : ℕ → ℕ
divide16 s = if s / 2 ^ 15 % 2 == 1 then bits_xor 16 (u16 (s * 2)) 0x1021 else u16 (s * 2)

-- One bit of the division by the Castagnoli polynomial, the lowest bit first.
abbrev pub divide32 : ℕ → ℕ
divide32 s = if s % 2 == 1 then bits_xor 32 (s / 2) 0x82f63b78 else s / 2

unfoldable pub times : ℕ → (ℕ → ℕ) → ℕ → ℕ
times zero f s = s
times (suc n) f s = times n f (f s)

-- `f i`, `f (i + 1)`, ... for `n` numbers.
unfoldable pub tabulate : (ℕ → ℕ) → ℕ → ℕ → List ℕ
tabulate f i zero = []
tabulate f i (suc n) = f i ∷ tabulate f (i + 1) n

get_or-tabulate : (f : ℕ → ℕ) (i n k : ℕ) → k < n → get_or (tabulate f i n) k 0 ≡ f (i + k)
unfolding tabulate
get_or-tabulate f i zero k lt = absurd (omega arith)
get_or-tabulate f i (suc n) zero lt = ap f (omega arith)
get_or-tabulate f i (suc n) (suc k) lt =
    get_or-tabulate f (i + 1) n k (omega arith) ∙ ap f (omega arith)

abbrev pub entry16 : ℕ → ℕ
entry16 i = times 8 divide16 (i * 256)

abbrev pub entry32 : ℕ → ℕ
entry32 i = times 8 divide32 i

tabulate16 : crc16_table ≡ tabulate entry16 0 256
unfolding tabulate times bits_xor
tabulate16 = refl

tabulate32 : crc32_table ≡ tabulate entry32 0 256
unfolding tabulate times bits_xor
tabulate32 = refl

-- Every entry of the table for CRC-16 is the remainder of its index, and so is every entry of the
-- one for CRC-32C.
pub tables_divide :
    (i : ℕ) → i < 256 → (get_or crc16_table i 0 ≡ entry16 i) × (get_or crc32_table i 0 ≡ entry32 i)
tables_divide i lt = (
  ap (λ t. get_or t i 0) tabulate16 ∙ get_or-tabulate entry16 0 256 i lt ∙ ap entry16 (zero-add i),
  ap (λ t. get_or t i 0) tabulate32 ∙ get_or-tabulate entry32 0 256 i lt ∙ ap entry32 (zero-add i),
)
