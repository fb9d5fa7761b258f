-- ===== src/Common/Memory.antt =====
-- Byte-addressed memory: a function from addresses, so that two buffers may overlap. Address 0 is
-- the null pointer.
use Prim.Native.Nat.{ℕ, zero, suc, ◌+◌, ◌-◌, ◌≤◌, ◌<◌}
use mathlib.Core.Path.{◌≡◌, refl, ap, ap₂, ◌∙◌}
use mathlib.Core.Bool.{◌&&◌}
use native.Mathlib.Nat.{add-zero}
use mathlib.Core.Logic.{◌≢◌, ◌⊎◌}
use mathlib.Core.List.{List, [], ◌∷◌, ◌++◌}
use native.Mathlib.Omega.{arith}
use wirelink.Common.Tests.{ltb, leb, ◌==◌, if◌then◌else◌}
use wirelink.Common.Lists.{length, length-append, get_or}

abbrev pub Mem : Type 0
Mem = ℕ → ℕ

unfoldable pub store : Mem → ℕ → ℕ → Mem
store m a v x = if x == a then v else m x

pub store_self : (m : Mem) (a v : ℕ) → store m a v a ≡ v
unfolding store
store_self m a v = ground arith

pub store_ne : (m : Mem) (a v x : ℕ) → x ≢ a → store m a v x ≡ m x
unfolding store
store_ne m a v x h = ground arith

-- The bytes from address `a` on are `xs`.
abbrev pub Holds : Mem → ℕ → List ℕ → Type 0
Holds m a [] = Unit {0}
Holds m a (x ∷ xs) = (m a ≡ x) × Holds m (a + 1) xs

-- `x` lies outside the `n` bytes from `a` on.
abbrev pub Outside : ℕ → ℕ → ℕ → Type 0
Outside a n x = (x < a) ⊎ (a + n ≤ x)

pub Holds-store :
    (m : Mem) (a x v : ℕ) (xs : List ℕ)
    → Outside a (length xs) x
    → Holds m a xs
    → Holds (store m x v) a xs
Holds-store m a x v [] o h = tt
Holds-store m a x v (y ∷ ys) o h =
    (ground (arith, store_ne m x v a), Holds-store m (a + 1) x v ys (omega arith) h.1)

pub Holds-append :
    (m : Mem) (a b : ℕ) (xs ys : List ℕ)
    → b ≡ a + length xs
    → Holds m a xs
    → Holds m b ys
    → Holds m a (xs ++ ys)
Holds-append m a b [] ys e h k = let e' : b ≡ a = omega arith in rw (← e') k
Holds-append m a b (x ∷ xs) ys e h k = (h.0, Holds-append m (a + 1) b xs ys (omega arith) h.1 k)

pub Holds-left : (m : Mem) (a : ℕ) (xs ys : List ℕ) → Holds m a (xs ++ ys) → Holds m a xs
Holds-left m a [] ys h = tt
Holds-left m a (x ∷ xs) ys h = (h.0, Holds-left m (a + 1) xs ys h.1)

pub Holds-right :
    (m : Mem) (a b : ℕ) (xs ys : List ℕ) → b ≡ a + length xs → Holds m a (xs ++ ys) → Holds m b ys
Holds-right m a b [] ys e h = let e' : b ≡ a = omega arith in rw e' h
Holds-right m a b (x ∷ xs) ys e h = Holds-right m (a + 1) b xs ys (omega arith) h.1

pub Holds-get_or :
    (m : Mem) (a i : ℕ) (xs : List ℕ) → i < length xs → Holds m a xs → m (a + i) ≡ get_or xs i 0
Holds-get_or m a i [] lt h = absurd (omega arith)
Holds-get_or m a zero (x ∷ xs) lt h = ap m (omega arith) ∙ h.0
Holds-get_or m a (suc i) (x ∷ xs) lt h =
    ap m (omega arith) ∙ Holds-get_or m (a + 1) i xs (omega arith) h.1

pub Holds_agree :
    (m m' : Mem) (a : ℕ) (xs : List ℕ)
    → ((x : ℕ) → a ≤ x → x < a + length xs → m' x ≡ m x)
    → Holds m a xs
    → Holds m' a xs
Holds_agree m m' a [] same h = tt
Holds_agree m m' a (y ∷ ys) same h = (
  same a (omega arith) (omega arith) ∙ h.0,
  Holds_agree m m' (a + 1) ys (λ x lo hi. same x (omega arith) (omega arith)) h.1,
)

-- The `n` bytes from `a` and the `k` bytes from `b` do not overlap.
abbrev pub IsDisjoint : ℕ → ℕ → ℕ → ℕ → Type 0
IsDisjoint a n b k = (a + n ≤ b) ⊎ (b + k ≤ a)

-- `m'` holds `ys` at `a`, and is `m` elsewhere.
pub record IsWritten (a : ℕ) (ys : List ℕ) (m m' : Mem) : Type 0 where
  pub bytes : Holds m' a ys
  pub outside : (x : ℕ) → Outside a (length ys) x → m' x ≡ m x

pub store-IsWritten : (m : Mem) (a v : ℕ) → IsWritten a (v ∷ []) m (store m a v)
store-IsWritten m a v = record {
  bytes = (store_self m a v, tt);
  outside = λ x h. store_ne m a v x (omega arith);
}

-- Two writes, one behind the other.
pub IsWritten-append :
    (a b : ℕ) (xs ys : List ℕ) (m m' m'' : Mem)
    → b ≡ a + length xs
    → IsWritten a xs m m'
    → IsWritten b ys m' m''
    → IsWritten a (xs ++ ys) m m''
IsWritten-append a b xs ys m m' m'' e w v = record {
  bytes =
      Holds-append m'' a b xs ys e
        (Holds_agree m' m'' a xs (λ x lo hi. v.outside x (omega arith)) w.bytes) v.bytes;
  outside = λ x h.
      v.outside x (omega (arith, length-append xs ys))
      ∙ w.outside x (omega (arith, length-append xs ys));
}

-- The `n` bytes from address `a` on.
abbrev pub load : Mem → ℕ → ℕ → List ℕ
load m a zero = []
load m a (suc n) = m a ∷ load m (a + 1) n

-- `memcpy(to, from, n)`; every byte is read before it is written over, as `memmove` does it too.
unfoldable pub copy : Mem → ℕ → ℕ → ℕ → Mem
copy m to from n x = if leb to x && ltb x (to + n) then m (from + (x - to)) else m x

pub length-load : (m : Mem) (a n : ℕ) → length (load m a n) ≡ n
length-load m a zero = refl
length-load m a (suc n) = ap suc (length-load m (a + 1) n)

pub load_agree :
    (m m' : Mem) (a n : ℕ) → ((x : ℕ) → a ≤ x → x < a + n → m' x ≡ m x) → load m' a n ≡ load m a n
load_agree m m' a zero same = refl
load_agree m m' a (suc n) same =
    ap₂ ◌∷◌ (same a (omega arith) (omega arith))
      (load_agree m m' (a + 1) n (λ x lo hi. same x (omega arith) (omega arith)))

-- The same `n` bytes, at two places.
load_shift :
    (m m' : Mem) (a b n : ℕ) → ((i : ℕ) → i < n → m' (a + i) ≡ m (b + i)) → load m' a n ≡ load m b n
load_shift m m' a b zero same = refl
load_shift m m' a b (suc n) same = ap₂ ◌∷◌ (rw (add-zero a, add-zero b) at (same 0 (omega arith))) (
    load_shift m m' (a + 1) (b + 1) n (λ i h.
      let there : a + 1 + i ≡ a + suc i = omega arith in
      let here : b + 1 + i ≡ b + suc i = omega arith in
      rw (there, here) (same (suc i) (omega arith))))

pub load-copy : (m : Mem) (to from n : ℕ) → load (copy m to from n) to n ≡ load m from n
load-copy m to from n =
    load_shift m (copy m to from n) to from n (λ i h. unfold copy in ground arith)

-- The same bytes, at two places.
Holds_shift :
    (m m' : Mem) (a b : ℕ) (xs : List ℕ)
    → ((i : ℕ) → i < length xs → m' (b + i) ≡ m (a + i))
    → Holds m a xs
    → Holds m' b xs
Holds_shift m m' a b [] same h = tt
Holds_shift m m' a b (x ∷ xs) same h = (
  (rw (add-zero a, add-zero b) at (same 0 (omega arith))) ∙ h.0,
  Holds_shift m m' (a + 1) (b + 1) xs
      (λ i k.
        let there : b + 1 + i ≡ b + suc i = omega arith in
        let here : a + 1 + i ≡ a + suc i = omega arith in
        rw (there, here) (same (suc i) (omega arith)))
      h.1,
)

pub copy-Outside : (m : Mem) (to from n x : ℕ) → Outside to n x → copy m to from n x ≡ m x
unfolding copy
copy-Outside m to from n x h = ground arith

pub copy-Holds :
    (m : Mem) (to from : ℕ) (xs : List ℕ)
    → Holds m from xs
    → Holds (copy m to from (length xs)) to xs
copy-Holds m to from xs h =
    Holds_shift m (copy m to from (length xs)) from to xs (λ i k. unfold copy in ground arith) h
