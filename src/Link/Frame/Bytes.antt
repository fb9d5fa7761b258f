-- ===== src/Link/Frame/Bytes.antt =====
-- src/frame_internal.h: numbers in big-endian order. A private array of a function is the list of
-- its bytes; a buffer is an address in memory, whose cells hold bytes.
use wirelink.Common.{ℕ, ◌+◌, ◌*◌, ◌/◌, ◌^◌, ◌<◌, ◌≡◌, arith, List, [], ◌∷◌, u8, All}
use wirelink.Link.Cobs.Format.{IsByte}
use wirelink.Common.Memory.{Mem, Holds, Holds-get_or}

-- `write_u16_be`, `write_u32_be` and `write_u64_be`: the bytes that are written.
abbrev pub u16_be : ℕ → List ℕ
u16_be v = u8 (v / 2 ^ 8) ∷ u8 v ∷ []

abbrev pub u32_be : ℕ → List ℕ
u32_be v = u8 (v / 2 ^ 24) ∷ u8 (v / 2 ^ 16) ∷ u8 (v / 2 ^ 8) ∷ u8 v ∷ []

abbrev pub u64_be : ℕ → List ℕ
u64_be v =
    u8 (v / 2 ^ 56)
    ∷ u8 (v / 2 ^ 48)
    ∷ u8 (v / 2 ^ 40)
    ∷ u8 (v / 2 ^ 32)
    ∷ u8 (v / 2 ^ 24)
    ∷ u8 (v / 2 ^ 16)
    ∷ u8 (v / 2 ^ 8)
    ∷ u8 v
    ∷ []

unfoldable pub read_u16_be : Mem → ℕ → ℕ
read_u16_be m p = m p * 2 ^ 8 + m (p + 1)

unfoldable pub read_u32_be : Mem → ℕ → ℕ
read_u32_be m p = m p * 2 ^ 24 + m (p + 1) * 2 ^ 16 + m (p + 2) * 2 ^ 8 + m (p + 3)

unfoldable pub read_u64_be : Mem → ℕ → ℕ
read_u64_be m p =
    m p * 2 ^ 56
    + m (p + 1) * 2 ^ 48
    + m (p + 2) * 2 ^ 40
    + m (p + 3) * 2 ^ 32
    + m (p + 4) * 2 ^ 24
    + m (p + 5) * 2 ^ 16
    + m (p + 6) * 2 ^ 8
    + m (p + 7)

-- What was written is read back.
pub read_u16_be-Holds :
    (m : Mem) (p v : ℕ) → v < 2 ^ 16 → Holds m p (u16_be v) → read_u16_be m p ≡ v
unfolding read_u16_be
read_u16_be-Holds m p v small h =
    let at = λ (i : ℕ) (lt : i < 2). Holds-get_or m p i (u16_be v) lt h in
    omega (arith, small, h.0, at 1 (omega arith))

pub read_u32_be-Holds :
    (m : Mem) (p v : ℕ) → v < 2 ^ 32 → Holds m p (u32_be v) → read_u32_be m p ≡ v
unfolding read_u32_be
read_u32_be-Holds m p v small h =
    let at = λ (i : ℕ) (lt : i < 4). Holds-get_or m p i (u32_be v) lt h in
    omega (arith, small, h.0, at 1 (omega arith), at 2 (omega arith), at 3 (omega arith))

pub read_u64_be-Holds :
    (m : Mem) (p v : ℕ) → v < 2 ^ 64 → Holds m p (u64_be v) → read_u64_be m p ≡ v
unfolding read_u64_be
read_u64_be-Holds m p v small h =
    let at = λ (i : ℕ) (lt : i < 8). Holds-get_or m p i (u64_be v) lt h in
    omega (
      arith,
      small,
      h.0,
      at 1 (omega arith),
      at 2 (omega arith),
      at 3 (omega arith),
      at 4 (omega arith),
      at 5 (omega arith),
      at 6 (omega arith),
      at 7 (omega arith),
    )

pub u16_be-IsByte : (v : ℕ) → All IsByte (u16_be v)
u16_be-IsByte v = (omega arith, (omega arith, tt))

pub u32_be-IsByte : (v : ℕ) → All IsByte (u32_be v)
u32_be-IsByte v = (omega arith, (omega arith, (omega arith, (omega arith, tt))))

pub u64_be-IsByte : (v : ℕ) → All IsByte (u64_be v)
u64_be-IsByte v = (
  omega arith,
  (
    omega arith,
    (omega arith, (omega arith, (omega arith, (omega arith, (omega arith, (omega arith, tt)))))),
  ),
)
