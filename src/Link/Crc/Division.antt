-- ===== src/Link/Crc/Division.antt =====
-- Both CRCs, a table entry for each byte, against the division of the bytes a bit at a time.
use wirelink.Common.{
  ℕ, zero, suc, ◌+◌, ◌*◌, ◌/◌, ◌%◌, ◌^◌, ◌<◌, ◌≡◌, ◌≢◌, refl, arith, ap, sym, ◌∙◌,
}
use wirelink.Common.{
  List, [], ◌∷◌, All, ◌==◌, ◌&&◌, not, if◌then◌else◌, if_intro, false, u8, u16, get_or,
}
use wirelink.Common.Bits.{bits_xor}
use wirelink.Common.Memory.{Mem, load}
use wirelink.Link.Crc.{crc16, crc32, crc16_update, crc32_update, crc16_byte, crc32_byte}
use wirelink.Link.Crc.Tables.{crc16_table}
use wirelink.Link.Crc.Bitwise.{divide16, divide32, times, entry16, entry32, tables_divide}
use wirelink.Link.Cobs.Format.{IsByte}
use wirelink.Link.Crc.Residue.{crc16_byte_small}
use wirelink.Link.Crc.Linear.{
  bits_xor_comm, bits_xor_assoc, bits_xor_half, bits_xor_low, bits_xor_twice, bits_xor_more,
  bits_xor_small, bits_xor_mod, bits_xor_cut, bits_xor_zero, bits_xor_div, bits_xor_apart,
  power_twice, power_covers, bits_xor_shift, bits_xor_bytes,
}

-- The last two operands of three change places.
xor_swap : (n a b c : ℕ) → bits_xor n (bits_xor n a b) c ≡ bits_xor n (bits_xor n a c) b
xor_swap n a b c =
    bits_xor_assoc n a b c ∙ ap (bits_xor n a) (bits_xor_comm n b c) ∙ sym (bits_xor_assoc n a c b)

divide32_small : (a : ℕ) → a < 2 ^ 32 → divide32 a < 2 ^ 32
divide32_small a l =
    if_intro (λ x. x < 2 ^ 32) (a % 2 == 1) (λ o. bits_xor_small 32 (a / 2) 0x82f63b78)
      (λ o. omega arith)

-- Bits above the lowest are only shifted by one division.
divide32-xor :
    (a y : ℕ)
    → a < 2 ^ 32
    → y < 2 ^ 31
    → divide32 (bits_xor 32 a (2 * y)) ≡ bits_xor 32 (divide32 a) y
divide32-xor a y l m =
    let low : bits_xor 32 a (2 * y) % 2 ≡ a % 2 = bits_xor_low 31 a (2 * y) ∙ omega arith in
    let back : 2 * y / 2 ≡ y = omega arith in
    let half : bits_xor 32 a (2 * y) / 2 ≡ bits_xor 32 (a / 2) y =
      bits_xor_half 31 a (2 * y)
      ∙ ap (bits_xor 31 (a / 2)) back
      ∙ sym (bits_xor_more 31 (a / 2) y (omega arith) m) in
    rw (low, half)
      (if_intro
        (λ x.
          (if a % 2 == 1
            then bits_xor 32 (bits_xor 32 (a / 2) y) 0x82f63b78
            else bits_xor 32 (a / 2) y)
          ≡ bits_xor 32 x y)
        (a % 2 == 1) (λ o. rw o (xor_swap 32 (a / 2) y 0x82f63b78)) (λ o. rw o refl))

-- The highest bit first: all but the highest are only shifted.
divide16-xor :
    (a b : ℕ) → b < 2 ^ 15 → divide16 (bits_xor 16 a b) ≡ bits_xor 16 (divide16 a) (2 * b)
divide16-xor a b m =
    let none : b / 2 ^ 15 ≡ 0 = omega arith in
    let top : bits_xor 16 a b / 2 ^ 15 % 2 ≡ a / 2 ^ 15 % 2 =
      ap (λ x. x % 2) (bits_xor_div 15 1 a b)
      ∙ bits_xor_low 0 (a / 2 ^ 15) (b / 2 ^ 15)
      ∙ omega (arith, none) in
    let doubled : a * 2 % 2 ^ 16 ≡ 2 * (a % 2 ^ 15) = omega arith in
    let left : bits_xor 16 a b * 2 % 2 ^ 16 ≡ 2 * bits_xor 15 a b =
      omega (arith, bits_xor_mod 15 a b) in
    let right : bits_xor 16 (a * 2 % 2 ^ 16) (2 * b) ≡ 2 * bits_xor 15 a b =
      ap (λ x. bits_xor 16 x (2 * b)) doubled
      ∙ bits_xor_twice 15 (a % 2 ^ 15) b
      ∙ ap (λ x. 2 * x) (bits_xor_cut 15 a b) in
    let shifted = left ∙ sym right in
    rw (top, shifted)
      (if_intro
        (λ x.
          (if a / 2 ^ 15 % 2 == 1
            then bits_xor 16 (bits_xor 16 (a * 2 % 2 ^ 16) (2 * b)) 0x1021
            else bits_xor 16 (a * 2 % 2 ^ 16) (2 * b))
          ≡ bits_xor 16 x (2 * b))
        (a / 2 ^ 15 % 2 == 1) (λ o. rw o (xor_swap 16 (a * 2 % 2 ^ 16) (2 * b) 0x1021))
        (λ o. rw o refl))

times-divide32 :
    (n a y : ℕ)
    → a < 2 ^ 32
    → 2 ^ n * y < 2 ^ 32
    → times n divide32 (bits_xor 32 a (2 ^ n * y)) ≡ bits_xor 32 (times n divide32 a) y
unfolding times
times-divide32 zero a y l m = let one : 2 ^ 0 * y ≡ y = omega arith in ap (bits_xor 32 a) one
times-divide32 (suc n) a y l m =
    let e = power_twice n y in
    let step = divide32-xor a (2 ^ n * y) l (omega (arith, m, e)) in
    ap (λ w. times n divide32 (divide32 (bits_xor 32 a w))) e
    ∙ ap (times n divide32) step
    ∙ times-divide32 n (divide32 a) y (divide32_small a l) (omega (arith, m, e))

times-divide16 :
    (n a b : ℕ)
    → 2 ^ n * b < 2 ^ 16
    → times n divide16 (bits_xor 16 a b) ≡ bits_xor 16 (times n divide16 a) (2 ^ n * b)
unfolding times
times-divide16 zero a b m = let one : 2 ^ 0 * b ≡ b = omega arith in ap (bits_xor 16 a) (sym one)
times-divide16 (suc n) a b m =
    let e = power_twice n b in
    let turn : 2 ^ n * (2 * b) ≡ 2 ^ suc n * b = grind arith in
    let step = divide16-xor a b (omega (arith, m, e, power_covers n b)) in
    ap (times n divide16) step
    ∙ times-divide16 n (divide16 a) (2 * b) (omega (arith, m, turn))
    ∙ ap (bits_xor 16 (times n divide16 (divide16 a))) turn

-- One byte: eight divisions.
crc32_byte-times :
    (s v : ℕ) → s < 2 ^ 32 → v < 256 → crc32_byte s v ≡ times 8 divide32 (bits_xor 32 s v)
unfolding crc32_byte
crc32_byte-times s v l m =
    let x = bits_xor 32 s v in
    let small = bits_xor_small 32 s v in
    let none : v / 2 ^ 8 ≡ 0 = omega arith in
    let high : x / 256 ≡ s / 256 =
      bits_xor_div 8 24 s v
      ∙ ap (bits_xor 24 (s / 2 ^ 8)) none
      ∙ bits_xor_comm 24 (s / 2 ^ 8) 0
      ∙ bits_xor_zero 24 (s / 2 ^ 8)
      ∙ omega (arith, l) in
    let whole : bits_xor 32 (x % 256) (2 ^ 8 * (x / 256)) ≡ x =
      bits_xor_apart 32 8 (x % 256) (x / 256) (omega arith) ∙ omega (arith, small) in
    let entry = (tables_divide (x % 256) (omega arith)).1 in
    ap (λ e. bits_xor 32 e (s / 256)) entry
    ∙ ap (bits_xor 32 (entry32 (x % 256))) (sym high)
    ∙ sym (times-divide32 8 (x % 256) (x / 256) (omega arith) (omega (arith, small)))
    ∙ ap (times 8 divide32) whole

crc16_byte-times :
    (s v : ℕ) → s < 2 ^ 16 → v < 256 → crc16_byte s v ≡ times 8 divide16 (bits_xor 16 s (v * 256))
unfolding crc16_byte
crc16_byte-times s v l m =
    let t = bits_xor 16 (s / 256) v in
    let bytes = bits_xor_bytes (s / 256) v (omega (arith, l)) m in
    let small : t < 256 = omega (arith, bytes, bits_xor_small 8 (s / 256) v) in
    let parts : s ≡ bits_xor 16 (2 ^ 8 * (s / 256)) (s % 256) = sym (
      bits_xor_comm 16 (2 ^ 8 * (s / 256)) (s % 256)
      ∙ bits_xor_apart 16 8 (s % 256) (s / 256) (omega arith)
      ∙ omega (arith, l)) in
    let placed : v * 256 ≡ 2 ^ 8 * v = omega arith in
    let high : bits_xor 16 (2 ^ 8 * (s / 256)) (v * 256) ≡ t * 256 =
      ap (bits_xor 16 (2 ^ 8 * (s / 256))) placed
      ∙ bits_xor_shift 8 8 (s / 256) v
      ∙ omega (arith, bytes) in
    let whole : bits_xor 16 s (v * 256) ≡ bits_xor 16 (t * 256) (s % 256) =
      ap (λ x. bits_xor 16 x (v * 256)) parts
      ∙ xor_swap 16 (2 ^ 8 * (s / 256)) (s % 256) (v * 256)
      ∙ ap (λ x. bits_xor 16 x (s % 256)) high in
    let index : u8 t ≡ t = omega (arith, small) in
    let entry = ap (λ i. get_or crc16_table i 0) index ∙ (tables_divide t small).0 in
    let shifted : u16 (s * 256) ≡ 2 ^ 8 * (s % 256) = omega arith in
    ap (bits_xor 16 (u16 (s * 256))) entry
    ∙ bits_xor_comm 16 (u16 (s * 256)) (entry16 t)
    ∙ ap (bits_xor 16 (entry16 t)) shifted
    ∙ sym (times-divide16 8 (t * 256) (s % 256) (omega arith))
    ∙ ap (times 8 divide16) (sym whole)

-- The remainder of a message that a state goes before, without a table: each byte is added to the
-- end of the state where it is shifted out, and then eight bits are divided.
unfoldable pub remainder16 : ℕ → List ℕ → ℕ
remainder16 s [] = s
remainder16 s (v ∷ vs) = remainder16 (times 8 divide16 (bits_xor 16 s (v * 256))) vs

unfoldable pub remainder32 : ℕ → List ℕ → ℕ
remainder32 s [] = s
remainder32 s (v ∷ vs) = remainder32 (times 8 divide32 (bits_xor 32 s v)) vs

crc16_update-remainder16 :
    (n s : ℕ) (m : Mem) (a : ℕ)
    → s < 2 ^ 16
    → All IsByte (load m a n)
    → crc16_update s m a n ≡ remainder16 s (load m a n)
unfolding crc16_update remainder16
crc16_update-remainder16 zero s m a l h = refl
crc16_update-remainder16 (suc n) s m a l h =
    crc16_update-remainder16 n (crc16_byte s (m a)) m (a + 1) (crc16_byte_small s (m a)) h.1
    ∙ ap (λ x. remainder16 x (load m (a + 1) n)) (crc16_byte-times s (m a) l h.0)

crc32_byte_small : (s v : ℕ) → crc32_byte s v < 2 ^ 32
unfolding crc32_byte
crc32_byte_small s v = bits_xor_small 32 _ _

crc32_update-remainder32 :
    (n s : ℕ) (m : Mem) (a : ℕ)
    → s < 2 ^ 32
    → All IsByte (load m a n)
    → crc32_update s m a n ≡ remainder32 s (load m a n)
unfolding crc32_update remainder32
crc32_update-remainder32 zero s m a l h = refl
crc32_update-remainder32 (suc n) s m a l h =
    crc32_update-remainder32 n (crc32_byte s (m a)) m (a + 1) (crc32_byte_small s (m a)) h.1
    ∙ ap (λ x. remainder32 x (load m (a + 1) n)) (crc32_byte-times s (m a) l h.0)

-- Both CRCs of a span of bytes that is not NULL are what the division of these bytes a bit at a time
-- gives, without a table: CRC-16 by x^16 + x^12 + x^5 + 1 from 0xffff on, CRC-32C by the Castagnoli
-- polynomial with the lowest bit first from 0xffffffff on, and its bits inverted at the end. So are
-- both updates, from any state of 16 and of 32 bits.
pub crc_lem :
    (m : Mem) (a n s r : ℕ)
    → a ≢ 0
    → s < 2 ^ 16
    → r < 2 ^ 32
    → All IsByte (load m a n)
    → let bytes = load m a n in
      (crc16 m a n ≡ remainder16 0xffff bytes)
      × (crc32 m a n ≡ bits_xor 32 (remainder32 0xffffffff bytes) 0xffffffff)
      × (crc16_update s m a n ≡ remainder16 s bytes)
      × (crc32_update r m a n ≡ remainder32 r bytes)
unfolding crc16 crc32
crc_lem m a n s r there small word bytes =
    let given : (a == 0 && not (n == 0)) ≡ false = ground (arith, there) in
    (
      rw given (crc16_update-remainder16 n 0xffff m a (omega arith) bytes),
      rw given (
          ap (λ x. bits_xor 32 x 0xffffffff)
            (crc32_update-remainder32 n 0xffffffff m a (omega arith) bytes)),
      crc16_update-remainder16 n s m a small bytes,
      crc32_update-remainder32 n r m a word bytes,
    )
