-- ===== src/Link/Crc/Residue.antt =====
-- The residue that src/frame_cobs_crc16.c tests: a CRC-16 that is carried on over its own two
-- bytes, in big-endian order, is 0, and over any other two bytes it is not.
use wirelink.Common.{
  ℕ, zero, suc, ◌+◌, ◌*◌, ◌/◌, ◌%◌, ◌^◌, ◌<◌, ◌≡◌, ◌≢◌, ◌↔◌, refl, arith, ap, ◌∙◌,
}
use wirelink.Common.{List, [], ◌∷◌, Bool, true, not, ◌&&◌, ◌==◌, u8, u16, get_or, length}
use wirelink.Common.Bits.{bits_xor}
use wirelink.Link.Crc.{crc16_byte}
use wirelink.Link.Crc.Linear.{bits_xor_comm, bits_xor_zero, bits_xor_small}
use wirelink.Link.Crc.Tables.{crc16_table}

-- The lower `n` bits of `a` are 0; those of `a` and `b` are the same.
abbrev IsClear : ℕ → ℕ → Type 0
IsClear zero a = Unit {0}
IsClear (suc n) a = (a % 2 ≡ 0) × IsClear n (a / 2)

abbrev IsSame : ℕ → ℕ → ℕ → Type 0
IsSame zero a b = Unit {0}
IsSame (suc n) a b = (a % 2 ≡ b % 2) × IsSame n (a / 2) (b / 2)

bits_xor-IsSame : (n k a b : ℕ) → IsClear n (bits_xor (n + k) a b) → IsSame n a b
unfolding bits_xor
bits_xor-IsSame zero k a b h = tt
bits_xor-IsSame (suc n) k a b h =
    let e : suc n + k ≡ suc (n + k) = omega arith in
    let h' : IsClear (suc n) ((a + b) % 2 + 2 * bits_xor (n + k) (a / 2) (b / 2)) = rw e at h in
    let half : ((a + b) % 2 + 2 * bits_xor (n + k) (a / 2) (b / 2)) / 2
        ≡ bits_xor (n + k) (a / 2) (b / 2) =
      omega arith in
    (omega (arith, h'.0), bits_xor-IsSame n k (a / 2) (b / 2) (rw half at h'.1))

bits_xor_self : (n a : ℕ) → bits_xor n a a ≡ 0
unfolding bits_xor
bits_xor_self zero a = refl
bits_xor_self (suc n) a = omega (arith, bits_xor_self n (a / 2))

clear8 : (a : ℕ) → a % 256 ≡ 0 → IsClear 8 a
clear8 a h = (
  omega arith,
  (
    omega arith,
    (omega arith, (omega arith, (omega arith, (omega arith, (omega arith, (omega arith, tt)))))),
  ),
)

same8 : (a b : ℕ) → IsSame 8 a b → a % 256 ≡ b % 256
same8 a b h = omega (arith, h)

IsClear-zero : (n : ℕ) → IsClear n 0
IsClear-zero zero = tt
IsClear-zero (suc n) = (refl, IsClear-zero n)

same16 : (a b : ℕ) → IsSame 16 a b → a % 2 ^ 16 ≡ b % 2 ^ 16
same16 a b h = omega (arith, h)

low_nonzero : List ℕ → Bool
low_nonzero [] = true
low_nonzero (x ∷ xs) = not (x % 256 == 0) && low_nonzero xs

low_nonzero-get_or :
    (xs : List ℕ) (i : ℕ) → low_nonzero xs ≡ true → i < length xs → get_or xs i 0 % 256 ≢ 0
unfolding low_nonzero
low_nonzero-get_or [] i h lt = absurd (omega arith)
low_nonzero-get_or (x ∷ xs) zero h lt = ground arith
low_nonzero-get_or (x ∷ xs) (suc i) h lt = low_nonzero-get_or xs i (ground arith) (omega arith)

abbrev rest : List ℕ → List ℕ
rest [] = []
rest (x ∷ xs) = xs

rest_nonzero : low_nonzero (rest crc16_table) ≡ true
unfolding low_nonzero
rest_nonzero = refl

-- The only entry of the table whose lower byte is 0 is the first.
table_first : (i : ℕ) → i < 256 → get_or crc16_table i 0 % 256 ≡ 0 → i ≡ 0
table_first zero lt h = refl
table_first (suc i) lt h =
    absurd (low_nonzero-get_or (rest crc16_table) i rest_nonzero (omega arith) h)

pub crc16_byte_small : (s v : ℕ) → crc16_byte s v < 2 ^ 16
unfolding crc16_byte
crc16_byte_small s v = bits_xor_small 16 _ _

-- The index into the table that a byte selects.
abbrev index : ℕ → ℕ → ℕ
index s v = u8 (bits_xor 16 (s / 256) v)

crc16_byte-hit : (s v : ℕ) → s / 256 ≡ v → crc16_byte s v ≡ s % 256 * 256
unfolding crc16_byte
crc16_byte-hit s v e =
    rw (e, bits_xor_self 16 v)
      (bits_xor_comm 16 (u16 (s * 256)) 0 ∙ bits_xor_zero 16 (u16 (s * 256)) ∙ omega arith)

crc16_byte-low : (s v : ℕ) → s < 2 ^ 16 → v < 256 → crc16_byte s v % 256 ≡ 0 → s / 256 ≡ v
unfolding crc16_byte
crc16_byte-low s v small byte h =
    let same =
      same8 _ _
        (bits_xor-IsSame 8 8 (u16 (s * 256)) (get_or crc16_table (index s v) 0) (clear8 _ h)) in
    let first : index s v ≡ 0 = table_first (index s v) (omega arith) (omega (arith, same)) in
    let low = same8 _ _ (bits_xor-IsSame 8 8 (s / 256) v (clear8 _ first)) in omega (arith, low)

-- Given a CRC-16 state and two bytes: the state carried on over the two bytes is 0 if and only if
-- they are, in big-endian order, that state.
pub residue :
    (s h l : ℕ)
    → s < 2 ^ 16
    → h < 256
    → l < 256
    → (crc16_byte (crc16_byte s h) l ≡ 0) ↔ (h * 2 ^ 8 + l ≡ s)
residue s h l small hb lb = (
  λ z.
      let t = crc16_byte s h in
      let high = crc16_byte-low t l (crc16_byte_small s h) lb (ap (λ v. v % 256) z) in
      let low : t % 256 ≡ 0 = omega (arith, z, crc16_byte-hit t l high) in
      let first = crc16_byte-low s h small hb low in
      omega (arith, high, first, crc16_byte-hit s h first),
  λ e.
      let t = crc16_byte-hit s h (omega arith) in
      let r = crc16_byte-hit (crc16_byte s h) l (omega (arith, t)) in omega (arith, t, r),
)
