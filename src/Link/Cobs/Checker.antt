-- ===== src/Link/Cobs/Checker.antt =====
-- The first pass of `wl_cobs_decode` accepts exactly the sequences of blocks.
use wirelink.Common.{ℕ, zero, suc, ◌+◌, ◌-◌, ◌^◌, ◌<◌, ◌≤◌, ◌≡◌, refl, arith, List, [], ◌∷◌, ◌++◌}
use wirelink.Common.{length, length-append, leb, ltb, ◌==◌, if◌then◌else◌, not, ◌&&◌, false}
use wirelink.Common.{
  append-nil, ◌∙◌, ap, sym, ◌⊎◌, Bool-cases, inl, inr, size, split_at, All, All-right,
}
use wirelink.Common.Memory.{Mem, Holds, Holds-right}
use wirelink.Link.Cobs.{malformed, required, scan_loop}
use wirelink.Link.Cobs.Format.{Blocks, IsByte, last, zero_after, full}

pub scan_loop_end :
    (fuel : ℕ) (m : Mem) (input n in_pos req : ℕ)
    → n ≤ in_pos
    → scan_loop fuel m input n in_pos req ≡ required req
unfolding scan_loop
scan_loop_end zero m input n in_pos req h = refl
scan_loop_end (suc fuel) m input n in_pos req h = ground arith

-- Where the first pass stands: at `in_pos`, before the bytes `ys`, with no more bytes required than
-- read, in an input whose length leaves room for a `size_t` to count.
pub record IsScanning (m : Mem) (input n in_pos req : ℕ) (ys : List ℕ) : Type 0 where
  pub unread : Holds m (input + in_pos) ys
  pub ends : n ≡ in_pos + length ys
  pub behind : req ≤ in_pos
  pub small : n < 2 ^ 63

-- One round, on a block `code ∷ run` with `ys` behind it.
module _ (fuel : ℕ) (m : Mem) (input n in_pos req code : ℕ) (run ys : List ℕ)
    (e : code ≡ length run + 1) (byte : code < 256)
    (r : IsScanning m input n in_pos req (code ∷ (run ++ ys))) where
  abbrev after : ℕ
  after = in_pos + 1 + length run

  len : length (run ++ ys) ≡ length run + length ys
  len = length-append run ys

  -- The test for a zero behind the block counts the block twice.
  pub scan_loop-suc : scan_loop (suc fuel) m input n in_pos req ≡ (
      if ltb (after + length run) n && not (code == 0xff)
      then scan_loop fuel m input n after (req + length run + 1)
      else scan_loop fuel m input n after (req + length run))
  unfolding scan_loop
  scan_loop-suc =
      let tested : leb n in_pos ≡ false = ground (arith, r.ends) in
      let count : code - 1 ≡ length run = omega arith in
      let nonzero : (code == 0) ≡ false = ground arith in
      let fits : ltb n (size after) ≡ false = ground (arith, r.ends, len) in
      let whole : size (req + length run) ≡ req + length run =
        omega (arith, r.behind, r.ends, len, r.small) in
      let counted : (req + length run == 0 && not (code == 1)) ≡ false = ground arith in
      let more : size (after + length run) ≡ after + length run =
        omega (arith, r.ends, len, r.small) in
      let one_more : size (req + length run + 1) ≡ req + length run + 1 =
        omega (arith, r.behind, r.ends, len, r.small) in
      let positive : (req + length run + 1 == 0) ≡ false = ground arith in
      rw (r.unread.0, tested, count, nonzero, fits, whole, counted, more, one_more, positive)

  pub next-IsScanning :
      (req' : ℕ) → req' ≤ req + length run + 1 → IsScanning m input n after req' ys
  next-IsScanning req' h = record {
    unread = Holds-right m (input + in_pos + 1) (input + after) run ys (omega arith) r.unread.1;
    ends = omega (arith, r.ends, len);
    behind = omega (arith, r.behind);
    small = r.small;
  }

  -- The round goes on with a count that is at most one more than the block's bytes, and one more
  -- only where a zero follows the block.
  round_cases :
      (req' : ℕ) × (req' ≤ req + length run + 1)
      × ((code ≡ 0xff) ⊎ (length ys ≡ 0) → req' ≤ req + length run)
      × (scan_loop (suc fuel) m input n in_pos req ≡ scan_loop fuel m input n after req')
  round_cases = elim (Bool-cases (ltb (after + length run) n && not (code == 0xff))) [
    | inl t ↦ (
      req + length run + 1,
      omega arith,
      λ h. absurd (ground (arith, r.ends, len)),
      rw (scan_loop-suc, t),
    )
    | inr f ↦ (req + length run, omega arith, λ h. omega arith, rw (scan_loop-suc, f))
  ]

-- On a sequence of blocks the first pass finds a number of bytes that is not above that of the
-- bytes that they stand for.
pub scan_loop-Blocks :
    {xs ys : List ℕ}
    → Blocks xs ys
    → (fuel : ℕ) (m : Mem) (input n in_pos req : ℕ) → length ys ≤ fuel
    → IsScanning m input n in_pos req ys
    → (k : ℕ) × (scan_loop fuel m input n in_pos req ≡ required k) × (k ≤ req + length xs)
scan_loop-Blocks (last run code e small) zero m input n in_pos req enough r = absurd (omega arith)
scan_loop-Blocks (last run code e small) (suc fuel) m input n in_pos req enough r =
    let r' : IsScanning m input n in_pos req (code ∷ (run ++ [])) = rw append-nil r in
    let (k, _, exact, step) = round_cases fuel m input n in_pos req code run [] e small r' in
    (
      k,
      step ∙ scan_loop_end fuel m input n (in_pos + 1 + length run) k (omega (arith, r.ends)),
      exact (inr refl),
    )
scan_loop-Blocks (zero_after run code e small b) zero m input n in_pos req enough r =
    absurd (omega arith)
scan_loop-Blocks (zero_after run code {xs} {ys} e small b) (suc fuel) m input n in_pos req enough
      r =
    let byte : code < 256 = omega arith in
    let (req', bound, _, step) = round_cases fuel m input n in_pos req code run ys e byte r in
    let (k, ok, le) =
      scan_loop-Blocks b fuel m input n (in_pos + 1 + length run) req'
        (omega (arith, length-append run ys))
        (next-IsScanning fuel m input n in_pos req code run ys e byte r req' bound) in
    (k, step ∙ ok, omega (arith, bound, le, length-append run (0 ∷ xs)))
scan_loop-Blocks (full run e b) zero m input n in_pos req enough r = absurd (omega arith)
scan_loop-Blocks (full run {xs} {ys} e b) (suc fuel) m input n in_pos req enough r =
    let code : 0xff ≡ length run + 1 = omega arith in
    let byte : 0xff < 256 = omega arith in
    let (req', bound, exact, step) =
      round_cases fuel m input n in_pos req 0xff run ys code byte r in
    let (k, ok, le) =
      scan_loop-Blocks b fuel m input n (in_pos + 1 + length run) req'
        (omega (arith, length-append run ys))
        (next-IsScanning fuel m input n in_pos req 0xff run ys code byte r req' bound) in
    (k, step ∙ ok, omega (arith, exact (inl refl), le, length-append run xs))

-- A code that the first pass lets through leaves its block whole.
block_fits :
    (fuel : ℕ) (m : Mem) (input n in_pos req k code : ℕ) (rest : List ℕ)
    → IsScanning m input n in_pos req (code ∷ rest)
    → code < 256
    → scan_loop (suc fuel) m input n in_pos req ≡ required k
    → (0 < code) × (code - 1 ≤ length rest)
unfolding scan_loop
block_fits fuel m input n in_pos req k code rest r byte h = ground arith

-- Any other code is refused at once.
code_cases :
    (fuel : ℕ) (m : Mem) (input n in_pos req code : ℕ) (rest : List ℕ)
    → IsScanning m input n in_pos req (code ∷ rest)
    → code < 256
    → (scan_loop (suc fuel) m input n in_pos req ≡ malformed)
      ⊎ ((0 < code) × (code - 1 ≤ length rest))
unfolding scan_loop
code_cases fuel m input n in_pos req code rest r byte = elim (Bool-cases (code == 0)) [
  | inl z ↦ inl (ground arith)
  | inr nz ↦ elim (Bool-cases (ltb (length rest) (code - 1))) [
    | inl long ↦ inl (ground arith)
    | inr fits ↦ inr (ground arith)
  ]
]

-- A block in front of nothing, or of a sequence of blocks.
pub block_before :
    (code : ℕ) (run ys : List ℕ)
    → code ≡ length run + 1
    → code < 256
    → (0 < length ys → (xs : List ℕ) × Blocks xs ys)
    → (xs : List ℕ) × Blocks xs (code ∷ (run ++ ys))
block_before code run [] e byte rest = (run, rw append-nil (last run code e byte))
block_before code run (y ∷ ys) e byte rest =
    let (xs, b) = rest (omega arith) in
    elim (Bool-cases (code == 0xff)) [
      | inl t ↦ let e' : code ≡ 0xff = ground arith in (run ++ xs, rw e' (full run (omega arith) b))
      | inr f ↦ (run ++ (0 ∷ xs), zero_after run code e (ground arith) b)
    ]

-- What the first pass accepts is a sequence of blocks.
pub scan_loop_sound :
    (fuel : ℕ) (m : Mem) (input n in_pos req k : ℕ) (ys : List ℕ)
    → length ys ≤ fuel
    → 0 < length ys
    → All IsByte ys
    → IsScanning m input n in_pos req ys
    → scan_loop fuel m input n in_pos req ≡ required k
    → (xs : List ℕ) × Blocks xs ys
scan_loop_sound fuel m input n in_pos req k [] enough some_bytes bytes r h = absurd (omega arith)
scan_loop_sound zero m input n in_pos req k (code ∷ rest) enough some_bytes bytes r h =
    absurd (omega arith)
scan_loop_sound (suc fuel) m input n in_pos req k (code ∷ rest) enough some_bytes bytes r h =
    let (pos, fits) = block_fits fuel m input n in_pos req k code rest r bytes.0 h in
    let (run, ys, e, l) = split_at (code - 1) rest fits in
    let r' : IsScanning m input n in_pos req (code ∷ (run ++ ys)) = rw e at r in
    let c : code ≡ length run + 1 = omega arith in
    let (req', bound, _, step) = round_cases fuel m input n in_pos req code run ys c bytes.0 r' in
    rw e (
      block_before code run ys c bytes.0 (λ more.
        scan_loop_sound fuel m input n (in_pos + 1 + length run) req' k ys
          (omega (arith, ap length e, length-append run ys)) more
          (All-right IsByte run ys (rw e at bytes.1))
          (next-IsScanning fuel m input n in_pos req code run ys c bytes.0 r' req' bound)
          (sym step ∙ h)))

-- In an input of this size the first pass never meets a length that wraps.
pub scan_loop_answers :
    (fuel : ℕ) (m : Mem) (input n in_pos req : ℕ) (ys : List ℕ)
    → length ys ≤ fuel
    → All IsByte ys
    → IsScanning m input n in_pos req ys
    → let found = scan_loop fuel m input n in_pos req in
      (found ≡ malformed) ⊎ ((k : ℕ) × (found ≡ required k))
scan_loop_answers fuel m input n in_pos req [] enough bytes r =
    inr (req, scan_loop_end fuel m input n in_pos req (omega (arith, r.ends)))
scan_loop_answers zero m input n in_pos req (code ∷ rest) enough bytes r = absurd (omega arith)
scan_loop_answers (suc fuel) m input n in_pos req (code ∷ rest) enough bytes r =
    elim (code_cases fuel m input n in_pos req code rest r bytes.0) [
      | inl bad ↦ inl bad
      | inr (pos, fits) ↦
          let (run, ys, e, l) = split_at (code - 1) rest fits in
          let r' : IsScanning m input n in_pos req (code ∷ (run ++ ys)) = rw e at r in
          let c : code ≡ length run + 1 = omega arith in
          let (req', bound, _, step) =
            round_cases fuel m input n in_pos req code run ys c bytes.0 r' in
          rw step (
            scan_loop_answers fuel m input n (in_pos + 1 + length run) req' ys
              (omega (arith, ap length e, length-append run ys))
              (All-right IsByte run ys (rw e at bytes.1))
              (next-IsScanning fuel m input n in_pos req code run ys c bytes.0 r' req' bound))
    ]
