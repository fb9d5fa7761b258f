-- ===== src/Common/Alignment.antt =====
-- Rounding up to a power of two with a mask.
use Prim.Native.Nat.{ℕ, zero, suc, ◌+◌, ◌-◌, ◌*◌, ◌/◌, ◌%◌, ◌<◌, ◌≤◌}
use mathlib.Core.Path.{◌≡◌, refl, sym, ap, ◌∙◌}
use mathlib.Core.Logic.{inl, inr}
use native.Mathlib.Omega.{arith}
use native.Mathlib.Nat.{
  add-mod, zero-mod, mod-lt, mod-eq_of_lt, div-add-mod, mod-one, add-mul-mod_self_left,
  mul-mod_right,
}
use wirelink.Common.Tests.{◌==◌, size_max, Bool-cases}
use wirelink.Common.Bits.{bits_and, bit_and, bit_not}

-- The number of `n` bits that are all set.
unfoldable pub ones : ℕ → ℕ
ones zero = 0
ones (suc n) = 2 * ones n + 1

bits_and_self : (n b : ℕ) → b ≤ ones n → bits_and n b b ≡ b
unfolding bits_and ones
bits_and_self zero b h = omega arith
bits_and_self (suc n) b h = ground (arith, bits_and_self n (b / 2) (omega arith))

bits_and-ones : (n x : ℕ) → x ≤ ones n → bits_and n x (ones n) ≡ x
unfolding bits_and ones
bits_and-ones zero x h = omega arith
bits_and-ones (suc n) x h =
    let half : (2 * ones n + 1) / 2 ≡ ones n = omega arith in
    let odd : (2 * ones n + 1) % 2 ≡ 1 = omega arith in
    rw (half, odd) (ground (arith, bits_and-ones n (x / 2) (omega arith)))

-- The remainder by an even number.
mod-double : (x b : ℕ) → 0 < b → x % (2 * b) ≡ 2 * (x / 2 % b) + x % 2
mod-double x b pos =
    let half = div-add-mod (x / 2) b in
    let small = mod-lt (x / 2) {m = b} pos in
    let r : ℕ = 2 * (x / 2 % b) + x % 2 in
    let twice : 2 * b * (x / 2 / b) ≡ 2 * (b * (x / 2 / b)) = grind arith in
    let whole : x ≡ r + 2 * b * (x / 2 / b) = omega arith in
    ap (λ y. y % (2 * b)) whole
    ∙ add-mul-mod_self_left r (2 * b) (x / 2 / b)
    ∙ mod-eq_of_lt (omega arith)

-- A mask with an odd number can only be the one of 1.
bits_and-odd : (n a : ℕ) → a ≤ ones (suc n) → a % 2 ≡ 1 → bits_and (suc n) a (a - 1) ≡ 0 → a ≡ 1
unfolding bits_and ones
bits_and-odd n a small odd e =
    let down : (a - 1) / 2 ≡ a / 2 = omega arith in
    let whole = bits_and_self n (a / 2) (omega arith) in
    let raw : 2 * bits_and n (a / 2) ((a - 1) / 2) ≡ 0 = ground arith in
    let none : 2 * bits_and n (a / 2) (a / 2) ≡ 0 =
      ap (λ k. 2 * bits_and n (a / 2) k) (sym down) ∙ raw in
    omega arith

bits_and-even :
    (n x a : ℕ)
    → 0 < a
    → a ≤ ones (suc n)
    → x ≤ ones (suc n)
    → a % 2 ≡ 0
    → bits_and (suc n) a (a - 1) ≡ 0
    → (bits_and n (a / 2) (a / 2 - 1) ≡ 0)
      × (bits_and (suc n) x (ones (suc n) - (a - 1))
          ≡ 2 * bits_and n (x / 2) (ones n - (a / 2 - 1)))
unfolding bits_and ones
bits_and-even n x a pos small h even e =
    let down : (a - 1) / 2 ≡ a / 2 - 1 = omega arith in
    let half : (2 * ones n + 1 - (a - 1)) / 2 ≡ ones n - (a / 2 - 1) = omega arith in
    let last : (2 * ones n + 1 - (a - 1)) % 2 ≡ 0 = omega arith in
    (rw (← down) (ground arith), rw (half, last) (ground arith))

-- If `a` has no bit in common with `a - 1`, it is a power of two, and the complement of `a - 1`
-- takes off the remainder.
bits_and-mask :
    (n x a : ℕ)
    → 0 < a
    → a ≤ ones n
    → x ≤ ones n
    → bits_and n a (a - 1) ≡ 0
    → bits_and n x (ones n - (a - 1)) + x % a ≡ x
bits_and-mask zero x a pos small h e = unfold ones in absurd (omega arith)
bits_and-mask (suc n) x a pos small h e = elim (Bool-cases (a % 2 == 1)) [
  | inl odd ↦
      let one : a ≡ 1 = bits_and-odd n a small (ground arith) e in
      let whole : ones (suc n) - (1 - 1) ≡ ones (suc n) = omega arith in
      rw (one, whole) (omega (arith, bits_and-ones (suc n) x h, mod-one x))
  | inr other ↦
      let even : a % 2 ≡ 0 = ground arith in
      let (e', step) = bits_and-even n x a pos small h even e in
      let b : ℕ = a / 2 in
      let double : a ≡ 2 * b = omega arith in
      let top : ones (suc n) ≡ 2 * ones n + 1 = unfold ones in refl in
      let rest = bits_and-mask n (x / 2) b (omega arith) (omega arith) (omega arith) e' in
      let remainder : x % a ≡ 2 * (x / 2 % b) + x % 2 =
        ap (λ y. x % y) double ∙ mod-double x b (omega arith) in
      omega (arith, step, rest, remainder)
]

-- `(x + (a - 1)) & ~(a - 1)` for a power of two `a`: the first multiple of `a` from `x` on.
pub round_up :
    (x a : ℕ)
    → 0 < a
    → a ≤ size_max
    → bit_and a (a - 1) ≡ 0
    → x + (a - 1) ≤ size_max
    → let y = bit_and (x + (a - 1)) (bit_not (a - 1)) in (x ≤ y) × (y < x + a) × (y % a ≡ 0)
unfolding bit_and ones
round_up x a pos small e room =
    let z : ℕ = x + (a - 1) in
    let masked = bits_and-mask 64 z a pos small room e in
    let y : ℕ = bits_and 64 z (size_max - (a - 1)) in
    let masked' : y + z % a ≡ z = masked in
    let below = mod-lt z {m = a} pos in
    let multiple : y ≡ a * (z / a) = omega (arith, masked', div-add-mod z a) in
    (omega arith, omega arith, ap (λ k. k % a) multiple ∙ mul-mod_right a (z / a))

bits_and-zero : (n x : ℕ) → bits_and n x 0 ≡ 0
unfolding bits_and
bits_and-zero zero x = refl
bits_and-zero (suc n) x = ground (arith, bits_and-zero n (x / 2))

bits_and-low_even :
    (n x a : ℕ)
    → 0 < a
    → a % 2 ≡ 0
    → bits_and (suc n) x (a - 1) ≡ x % 2 + 2 * bits_and n (x / 2) (a / 2 - 1)
unfolding bits_and
bits_and-low_even n x a pos even =
    let down : (a - 1) / 2 ≡ a / 2 - 1 = omega arith in
    let last : (a - 1) % 2 ≡ 1 = omega arith in rw (down, last) (ground arith)

-- `a - 1` itself leaves the remainder.
bits_and-low :
    (n x a : ℕ)
    → 0 < a
    → a ≤ ones n
    → x ≤ ones n
    → bits_and n a (a - 1) ≡ 0
    → bits_and n x (a - 1) ≡ x % a
bits_and-low zero x a pos small h e = unfold ones in absurd (omega arith)
bits_and-low (suc n) x a pos small h e = elim (Bool-cases (a % 2 == 1)) [
  | inl odd ↦
      let one : a ≡ 1 = bits_and-odd n a small (ground arith) e in
      rw one (omega (arith, bits_and-zero (suc n) x, mod-one x))
  | inr other ↦
      let even : a % 2 ≡ 0 = ground arith in
      let (e', _) = bits_and-even n x a pos small h even e in
      let step = bits_and-low_even n x a pos even in
      let b : ℕ = a / 2 in
      let double : a ≡ 2 * b = omega arith in
      let top : ones (suc n) ≡ 2 * ones n + 1 = unfold ones in refl in
      let rest = bits_and-low n (x / 2) b (omega arith) (omega arith) (omega arith) e' in
      let remainder : x % a ≡ 2 * (x / 2 % b) + x % 2 =
        ap (λ y. x % y) double ∙ mod-double x b (omega arith) in
      omega (arith, step, rest, remainder)
]

-- The test that an address is aligned.
pub aligned :
    (x a : ℕ)
    → 0 < a
    → a ≤ size_max
    → x ≤ size_max
    → bit_and a (a - 1) ≡ 0
    → bit_and x (a - 1) ≡ 0
    → x % a ≡ 0
unfolding bit_and ones
aligned x a pos small h e level = sym (bits_and-low 64 x a pos small h e) ∙ level

-- Slots of `stride` bytes from an aligned address on, for values of `size` bytes.
pub record IsArray (base stride size count alignment limit : ℕ) : Type 0 where
  pub inside : (i : ℕ) → i < count → base + i * stride + size ≤ limit
  pub even : (i : ℕ) → (base + i * stride) % alignment ≡ 0
  pub apart : (i j : ℕ) → i < j → base + i * stride + size ≤ base + j * stride

pub array :
    (base stride size count alignment limit : ℕ)
    → size ≤ stride
    → stride % alignment ≡ 0
    → base % alignment ≡ 0
    → base + stride * count ≤ limit
    → IsArray base stride size count alignment limit
array base stride size count alignment limit fits whole level room = record {
  inside = λ i lt. let far : i * stride + stride ≤ stride * count = grind arith in omega arith;
  even = λ i.
      let q : ℕ = stride / alignment in
      let exact : stride ≡ alignment * q = omega (arith, div-add-mod stride alignment) in
      let swap : i * (alignment * q) ≡ alignment * (i * q) = grind arith in
      let times : i * stride % alignment ≡ 0 =
        ap (λ k. i * k % alignment) exact
        ∙ ap (λ k. k % alignment) swap
        ∙ mul-mod_right alignment (i * q) in
      add-mod base (i * stride) alignment ∙ rw (level, times) (zero-mod alignment);
  apart = λ i j lt. let far : i * stride + stride ≤ j * stride = grind arith in omega arith;
}
