-- ===== src/Link/Cobs/Format.antt =====
-- The format that src/cobs.c reads and writes, with no reference to how: the blocks of an encoding,
-- and the encoding that the source writes as a function on lists.
use wirelink.Common.{ℕ, ◌+◌, ◌/◌, ◌<◌, ◌≤◌, ◌≡◌, refl, arith, List, [], ◌∷◌, ◌++◌, length}
use wirelink.Common.{
  length-append, append_assoc, append-nil, ◌==◌, if◌then◌else◌, All, All-append, All-left,
  All-right, ◌≢◌,
}
use wirelink.Common.{Bool-cases, inl, inr}

-- `Blocks xs ys`: the bytes `ys` are a sequence of blocks that stands for `xs`. A block is its
-- code, which is its length, and the bytes behind it; below 0xff a zero follows, if the block is
-- not the last.
pub data Blocks : List ℕ → List ℕ → Type 0 where
  last : (run : List ℕ) (code : ℕ) → code ≡ length run + 1 → code < 256 → Blocks run (code ∷ run)
  zero_after :
      (run : List ℕ) (code : ℕ) {xs ys : List ℕ}
      → code ≡ length run + 1
      → code < 0xff
      → Blocks xs ys
      → Blocks (run ++ (0 ∷ xs)) (code ∷ (run ++ ys))
  full :
      (run : List ℕ) {xs ys : List ℕ}
      → length run ≡ 254
      → Blocks xs ys
      → Blocks (run ++ xs) (0xff ∷ (run ++ ys))

pub Blocks-nonempty : {xs ys : List ℕ} → Blocks xs ys → 0 < length ys
Blocks-nonempty (last run code e small) = omega arith
Blocks-nonempty (zero_after run code e small b) = omega arith
Blocks-nonempty (full run e b) = omega arith

-- An encoding is longer than what it stands for.
pub length-Blocks : {xs ys : List ℕ} → Blocks xs ys → length xs < length ys
length-Blocks (last run code e small) = omega arith
length-Blocks (zero_after run code {xs} {ys} e small b) =
    omega (arith, length-Blocks b, length-append run (0 ∷ xs), length-append run ys)
length-Blocks (full run {xs} {ys} e b) =
    omega (arith, length-Blocks b, length-append run xs, length-append run ys)

-- The encoding of `run ++ xs`, with `run` the bytes of the block that is open.
unfoldable pub stuffed : List ℕ → List ℕ → List ℕ
stuffed run [] = (length run + 1) ∷ run
stuffed run (x ∷ xs) =
    if x == 0
    then (length run + 1) ∷ (run ++ stuffed [] xs)
    else if length run == 253
    then 0xff ∷ ((run ++ (x ∷ [])) ++ stuffed [] xs)
    else stuffed (run ++ (x ∷ [])) xs

abbrev pub IsNonzero : ℕ → Type 0
IsNonzero x = x ≢ 0

pub snoc_append : (run : List ℕ) (x : ℕ) (xs : List ℕ) → (run ++ (x ∷ [])) ++ xs ≡ run ++ (x ∷ xs)
snoc_append run x xs = append_assoc run (x ∷ []) xs

pub length-snoc : (run : List ℕ) (x : ℕ) → length (run ++ (x ∷ [])) ≡ length run + 1
length-snoc run x = length-append run (x ∷ [])

-- What is written is a sequence of blocks for what was read.
pub stuffed-Blocks : (run xs : List ℕ) → length run < 254 → Blocks (run ++ xs) (stuffed run xs)
unfolding stuffed
stuffed-Blocks run [] h = rw append-nil (last run (length run + 1) refl (omega arith))
stuffed-Blocks run (x ∷ xs) h = elim (Bool-cases (x == 0)) [
  | inl z ↦
      let e : x ≡ 0 = ground arith in
      rw e (zero_after run (length run + 1) refl (omega arith) (stuffed-Blocks [] xs (omega arith)))
  | inr nz ↦ elim (Bool-cases (length run == 253)) [
    | inl f ↦
        rw (nz, f, ← snoc_append run x xs)
          (full (run ++ (x ∷ [])) (ground (arith, length-snoc run x))
            (stuffed-Blocks [] xs (omega arith)))
    | inr g ↦
        rw (nz, g, ← snoc_append run x xs)
          (stuffed-Blocks (run ++ (x ∷ [])) xs (ground (arith, length-snoc run x)))
  ]
]

-- The delimiter never occurs in an encoding.
pub stuffed-IsNonzero : (run xs : List ℕ) → All IsNonzero run → All IsNonzero (stuffed run xs)
unfolding stuffed
stuffed-IsNonzero run [] h = (omega arith, h)
stuffed-IsNonzero run (x ∷ xs) h = elim (Bool-cases (x == 0)) [
  | inl z ↦ rw z (omega arith, All-append IsNonzero run _ h (stuffed-IsNonzero [] xs tt))
  | inr nz ↦ elim (Bool-cases (length run == 253)) [
    | inl f ↦
        rw (nz, f)
          (
            omega arith,
            All-append IsNonzero _ _ (All-append IsNonzero run (x ∷ []) h (ground arith, tt))
                (stuffed-IsNonzero [] xs tt),
          )
    | inr g ↦
        rw (nz, g)
          (stuffed-IsNonzero (run ++ (x ∷ [])) xs (All-append IsNonzero run _ h (ground arith, tt)))
  ]
]

-- At least one byte more than the input.
pub length-stuffed_lower : (run xs : List ℕ) → length run + length xs + 1 ≤ length (stuffed run xs)
unfolding stuffed
length-stuffed_lower run [] = omega arith
length-stuffed_lower run (x ∷ xs) = ground (
  arith,
  length-stuffed_lower [] xs,
  length-stuffed_lower (run ++ (x ∷ [])) xs,
  length-snoc run x,
  length-append run (stuffed [] xs),
  length-append (run ++ (x ∷ [])) (stuffed [] xs),
)

-- At most one byte in 254 more than that.
pub length-stuffed_upper :
    (run xs : List ℕ)
    → length run < 254
    → length (stuffed run xs) ≤ length run + length xs + (length run + length xs) / 254 + 1
unfolding stuffed
length-stuffed_upper run [] h = omega arith
length-stuffed_upper run (x ∷ xs) h = ground (
  arith,
  length-stuffed_upper [] xs,
  length-stuffed_upper (run ++ (x ∷ [])) xs,
  length-snoc run x,
  length-append run (stuffed [] xs),
  length-append (run ++ (x ∷ [])) (stuffed [] xs),
)

abbrev pub IsByte : ℕ → Type 0
IsByte x = x < 256

-- A code is a byte, as are the bytes that are encoded.
pub stuffed-IsByte :
    (run xs : List ℕ)
    → length run < 254
    → All IsByte run
    → All IsByte xs
    → All IsByte (stuffed run xs)
unfolding stuffed
stuffed-IsByte run [] short h k = (omega arith, h)
stuffed-IsByte run (x ∷ xs) short h k =
    let snoc : All IsByte (run ++ (x ∷ [])) = All-append IsByte run (x ∷ []) h (k.0, tt) in
    let tail : All IsByte (stuffed [] xs) = stuffed-IsByte [] xs (omega arith) tt k.1 in
    elim (Bool-cases (x == 0)) [
      | inl z ↦ rw z (omega arith, All-append IsByte run _ h tail)
      | inr nz ↦ elim (Bool-cases (length run == 253)) [
        | inl f ↦ rw (nz, f) (omega arith, All-append IsByte _ _ snoc tail)
        | inr g ↦
            rw (nz, g)
              (stuffed-IsByte (run ++ (x ∷ [])) xs (ground (arith, length-snoc run x)) snoc k.1)
      ]
    ]

-- Blocks of bytes stand for bytes.
pub Blocks-IsByte : {xs ys : List ℕ} → Blocks xs ys → All IsByte ys → All IsByte xs
Blocks-IsByte (last run code e small) h = h.1
Blocks-IsByte (zero_after run code {xs} {ys} e small b) h =
    All-append IsByte run (0 ∷ xs) (All-left IsByte run ys h.1)
      (omega arith, Blocks-IsByte b (All-right IsByte run ys h.1))
Blocks-IsByte (full run {xs} {ys} e b) h =
    All-append IsByte run xs (All-left IsByte run ys h.1)
      (Blocks-IsByte b (All-right IsByte run ys h.1))
