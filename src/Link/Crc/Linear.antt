-- ===== src/Link/Crc/Linear.antt =====
-- The laws of `^` that the division by a polynomial needs.
use wirelink.Common.{
  ℕ, zero, suc, ◌+◌, ◌*◌, ◌/◌, ◌%◌, ◌^◌, ◌<◌, ◌≤◌, ◌≡◌, refl, arith, ap, sym, ◌∙◌,
}
use native.Mathlib.Nat.{pow-succ', div-div-eq-div-mul, mul_assoc, zero-add}
use wirelink.Common.Bits.{bits_xor}

pub bits_xor_comm : (n a b : ℕ) → bits_xor n a b ≡ bits_xor n b a
unfolding bits_xor
bits_xor_comm zero a b = refl
bits_xor_comm (suc n) a b = omega (arith, bits_xor_comm n (a / 2) (b / 2))

pub bits_xor_half : (n a b : ℕ) → bits_xor (suc n) a b / 2 ≡ bits_xor n (a / 2) (b / 2)
unfolding bits_xor
bits_xor_half n a b = omega arith

pub bits_xor_low : (n a b : ℕ) → bits_xor (suc n) a b % 2 ≡ (a + b) % 2
unfolding bits_xor
bits_xor_low n a b = omega arith

pub bits_xor_assoc : (n a b c : ℕ) → bits_xor n (bits_xor n a b) c ≡ bits_xor n a (bits_xor n b c)
unfolding bits_xor
bits_xor_assoc zero a b c = refl
bits_xor_assoc (suc n) a b c =
    let l : ((a + b) % 2 + 2 * bits_xor n (a / 2) (b / 2)) / 2 ≡ bits_xor n (a / 2) (b / 2) =
      omega arith in
    let r : ((b + c) % 2 + 2 * bits_xor n (b / 2) (c / 2)) / 2 ≡ bits_xor n (b / 2) (c / 2) =
      omega arith in
    rw (l, r) (omega (arith, bits_xor_assoc n (a / 2) (b / 2) (c / 2)))

-- A shift by one bit, in a word one bit longer.
pub bits_xor_twice : (n a b : ℕ) → bits_xor (suc n) (2 * a) (2 * b) ≡ 2 * bits_xor n a b
unfolding bits_xor
bits_xor_twice n a b =
    let l : 2 * a / 2 ≡ a = omega arith in
    let r : 2 * b / 2 ≡ b = omega arith in rw (l, r) (omega arith)

mod_one : (x : ℕ) → 0 ≡ x % 2 ^ 0
mod_one x = omega arith

-- The same, with bits that are 0 or cut off above.
pub bits_xor_more : (n a b : ℕ) → a < 2 ^ n → b < 2 ^ n → bits_xor (suc n) a b ≡ bits_xor n a b
unfolding bits_xor
bits_xor_more zero a b l m = omega arith
bits_xor_more (suc n) a b l m =
    omega (arith, bits_xor_more n (a / 2) (b / 2) (omega arith) (omega arith))

pub bits_xor_small : (n a b : ℕ) → bits_xor n a b < 2 ^ n
unfolding bits_xor
bits_xor_small zero a b = omega arith
bits_xor_small (suc n) a b = omega (arith, bits_xor_small n (a / 2) (b / 2))

power_step : (n x : ℕ) → x / 2 ^ suc n ≡ x / 2 / 2 ^ n
power_step n x = ap (λ m. x / m) (pow-succ' 2 n) ∙ sym (div-div-eq-div-mul x 2 (2 ^ n))

-- The lowest bit of a remainder by a power of 2, and the others.
mod_step : (n x : ℕ) → x % 2 ^ suc n ≡ x % 2 + 2 * (x / 2 % 2 ^ n)
mod_step n x =
    let d = power_step n x in
    let m : 2 ^ suc n * (x / 2 / 2 ^ n) ≡ 2 * (2 ^ n * (x / 2 / 2 ^ n)) =
      ap (λ p. p * (x / 2 / 2 ^ n)) (pow-succ' 2 n) ∙ mul_assoc 2 (2 ^ n) (x / 2 / 2 ^ n) in
    let whole : 2 ^ suc n * (x / 2 ^ suc n) ≡ 2 * (2 ^ n * (x / 2 / 2 ^ n)) =
      ap (λ q. 2 ^ suc n * q) d ∙ m in
    omega (arith, whole)

bits_xor-suc : (n a b : ℕ) → bits_xor (suc n) a b ≡ (a + b) % 2 + 2 * bits_xor n (a / 2) (b / 2)
unfolding bits_xor
bits_xor-suc n a b = refl

zero_bits : (a b : ℕ) → 0 ≡ bits_xor 0 a b
unfolding bits_xor
zero_bits a b = refl

pub bits_xor_mod : (n a b : ℕ) → bits_xor (suc n) a b % 2 ^ n ≡ bits_xor n a b
bits_xor_mod zero a b = sym (mod_one (bits_xor 1 a b)) ∙ zero_bits a b
bits_xor_mod (suc n) a b =
    mod_step n (bits_xor (suc (suc n)) a b)
    ∙ (rw (bits_xor_low (suc n) a b, bits_xor_half (suc n) a b, bits_xor_mod n (a / 2) (b / 2))
        (unfold bits_xor in refl))

pub bits_xor_cut : (n a b : ℕ) → bits_xor n (a % 2 ^ n) b ≡ bits_xor n a b
unfolding bits_xor
bits_xor_cut zero a b = refl
bits_xor_cut (suc n) a b =
    let step = mod_step n a in
    let half : a % 2 ^ suc n / 2 ≡ a / 2 % 2 ^ n = omega (arith, step) in
    let low : (a % 2 ^ suc n + b) % 2 ≡ (a + b) % 2 = omega (arith, step) in
    rw (low, half, bits_xor_cut n (a / 2) (b / 2)) refl

pub bits_xor_zero : (n b : ℕ) → bits_xor n 0 b ≡ b % 2 ^ n
unfolding bits_xor
bits_xor_zero zero b = mod_one b
bits_xor_zero (suc n) b = omega (arith, mod_step n b, bits_xor_zero n (b / 2))

pub bits_xor_div : (k n a b : ℕ) → bits_xor (k + n) a b / 2 ^ k ≡ bits_xor n (a / 2 ^ k) (b / 2 ^ k)
bits_xor_div zero n a b =
    let r : (x : ℕ) → x / 1 ≡ x = λ x. omega arith in rw (zero-add n, r a, r b) (r (bits_xor n a b))
bits_xor_div (suc k) n a b =
    let e : suc k + n ≡ suc (k + n) = omega arith in
    rw
      (
        e,
        power_step k (bits_xor (suc (k + n)) a b),
        power_step k a,
        power_step k b,
        bits_xor_half (k + n) a b,
      )
      (bits_xor_div k n (a / 2) (b / 2))

-- Bits that do not overlap.
pub bits_xor_apart : (n k t h : ℕ) → t < 2 ^ k → bits_xor n t (2 ^ k * h) ≡ (t + 2 ^ k * h) % 2 ^ n
bits_xor_apart n zero t h l =
    let z : t ≡ 0 = omega (arith, l) in
    rw z (bits_xor_zero n (2 ^ 0 * h) ∙ ap (λ v. v % 2 ^ n) (sym (zero-add (2 ^ 0 * h))))
bits_xor_apart zero (suc k) t h l = sym (zero_bits t (2 ^ suc k * h)) ∙ mod_one (t + 2 ^ suc k * h)
bits_xor_apart (suc n) (suc k) t h l =
    let m : 2 ^ suc k * h ≡ 2 * (2 ^ k * h) =
      ap (λ p. p * h) (pow-succ' 2 k) ∙ mul_assoc 2 (2 ^ k) h in
    let half : 2 * (2 ^ k * h) / 2 ≡ 2 ^ k * h = omega arith in
    let sum : (t + 2 * (2 ^ k * h)) / 2 ≡ t / 2 + 2 ^ k * h = omega arith in
    rw
      (
        m,
        bits_xor-suc n t (2 * (2 ^ k * h)),
        mod_step n (t + 2 * (2 ^ k * h)),
        half,
        sum,
        bits_xor_apart n k (t / 2) h (omega (arith, l)),
      )
      refl

pub power_twice : (k h : ℕ) → 2 ^ suc k * h ≡ 2 * (2 ^ k * h)
power_twice k h = ap (λ p. p * h) (pow-succ' 2 k) ∙ mul_assoc 2 (2 ^ k) h

pub power_covers : (k h : ℕ) → h ≤ 2 ^ k * h
power_covers zero h = omega arith
power_covers (suc k) h = omega (arith, power_twice k h, power_covers k h)

-- A shift by `k` bits.
pub bits_xor_shift :
    (k n a b : ℕ) → bits_xor (k + n) (2 ^ k * a) (2 ^ k * b) ≡ 2 ^ k * bits_xor n a b
bits_xor_shift zero n a b =
    let one : (x : ℕ) → 2 ^ 0 * x ≡ x = λ x. omega arith in
    rw (zero-add n, one a, one b, one (bits_xor n a b)) refl
bits_xor_shift (suc k) n a b =
    let e : suc k + n ≡ suc (k + n) = omega arith in
    rw (e, power_twice k a, power_twice k b, power_twice k (bits_xor n a b))
      (bits_xor_twice (k + n) (2 ^ k * a) (2 ^ k * b) ∙ ap (λ x. 2 * x) (bits_xor_shift k n a b))

-- Two bytes in a word of 16 bits.
pub bits_xor_bytes : (a b : ℕ) → a < 2 ^ 8 → b < 2 ^ 8 → bits_xor 16 a b ≡ bits_xor 8 a b
bits_xor_bytes a b l m =
    bits_xor_more 15 a b (omega arith) (omega arith)
    ∙ bits_xor_more 14 a b (omega arith) (omega arith)
    ∙ bits_xor_more 13 a b (omega arith) (omega arith)
    ∙ bits_xor_more 12 a b (omega arith) (omega arith)
    ∙ bits_xor_more 11 a b (omega arith) (omega arith)
    ∙ bits_xor_more 10 a b (omega arith) (omega arith)
    ∙ bits_xor_more 9 a b (omega arith) (omega arith)
    ∙ bits_xor_more 8 a b l m
