-- ===== src/Link/Cobs/Overrun.antt =====
-- The first pass of `wl_cobs_decode` tests for a zero behind a block at `in_pos + (code - 1)`, with
-- `in_pos` already moved past the block; the second pass tests at `in_pos`.
use wirelink.Common.{ℕ, suc, ◌+◌, ◌<◌, ◌≡◌, ◌∙◌, ap, refl, arith, List, [], ◌∷◌, ◌++◌, length}
use wirelink.Common.{length-append, append-nil, ltb, false}
use wirelink.Common.Memory.{Mem}
use wirelink.Link.Cobs.{required, scan_loop, decode}
use wirelink.Link.Cobs.Format.{Blocks, last, zero_after}
use wirelink.Link.Cobs.Checker.{IsScanning, scan_loop-suc, scan_loop_end, next-IsScanning}
use wirelink.Link.Cobs.Decode.{IsReady, Decoded, start-IsScanning, decode_accepted}

-- The encoding of `a`, a zero and `b`, where both are short and without zeros.
abbrev pub two_blocks : List ℕ → List ℕ → List ℕ
two_blocks a b = (length a + 1) ∷ (a ++ ((length b + 1) ∷ b))

two_blocks-Blocks :
    (a b : List ℕ) → length b < length a → length a < 254 → Blocks (a ++ (0 ∷ b)) (two_blocks a b)
two_blocks-Blocks a b h k =
    zero_after a (length a + 1) refl (omega arith) (last b (length b + 1) refl (omega arith))

length-two_blocks : (a b : List ℕ) → length (a ++ ((length b + 1) ∷ b)) ≡ suc (length a + length b)
length-two_blocks a b = omega (arith, length-append a ((length b + 1) ∷ b))

-- The first block is not followed by another of its length, so its zero is not counted.
scan_two_blocks :
    (m : Mem) (input : ℕ) (a b : List ℕ)
    → length b < length a
    → length a < 254
    → IsScanning m input (length (two_blocks a b)) 0 0 (two_blocks a b)
    → scan_loop (length (two_blocks a b)) m input (length (two_blocks a b)) 0 0
      ≡ required (length a + length b)
scan_two_blocks m input a b h k r =
    let n : ℕ = length (two_blocks a b) in
    let whole = length-two_blocks a b in
    let byte : length a + 1 < 256 = omega arith in
    let byte' : length b + 1 < 256 = omega arith in
    let alone : ltb (0 + 1 + length a + length a) n ≡ false = ground arith in
    let tail : IsScanning m input n (0 + 1 + length a) (0 + length a) ((length b + 1) ∷ (b ++ [])) =
      rw append-nil (
        next-IsScanning (suc (length a + length b)) m input n 0 0 (length a + 1) a
          ((length b + 1) ∷ b) refl byte r (0 + length a) (omega arith)) in
    let ended : ltb (0 + 1 + length a + 1 + length b + length b) n ≡ false = ground arith in
    let first =
      scan_loop-suc (length (a ++ ((length b + 1) ∷ b))) m input n 0 0 (length a + 1) a
        ((length b + 1) ∷ b) refl byte r in
    let second =
      scan_loop-suc (length a + length b) m input n (0 + 1 + length a) (0 + length a) (length b + 1)
        b [] refl byte' tail in
    (rw alone at first)
    ∙ ap (λ f. scan_loop f m input n (0 + 1 + length a) (0 + length a)) whole
    ∙ (rw ended at second)
    ∙ scan_loop_end _ m input n _ (0 + length a + length b) (omega arith)
    ∙ ap required (omega arith)

-- On the encoding of `a`, a zero and `b`, where `b` is shorter than `a`, which is shorter than 254,
-- and a capacity of the length of `a` and `b`, the decoder answers OK and writes one byte more than
-- that capacity.
pub decode_overruns :
    (m : Mem) (input out len_ptr : ℕ) (a b : List ℕ)
    → length b < length a
    → length a < 254
    → IsReady m input out len_ptr (two_blocks a b)
    → let cap = length a + length b in
      let r = decode m input (length (two_blocks a b)) out cap len_ptr in
      Decoded m out (a ++ (0 ∷ b)) r × (length (a ++ (0 ∷ b)) ≡ cap + 1)
decode_overruns m input out len_ptr a b h k r =
    let scan = start-IsScanning m input out (length a + length b) len_ptr (two_blocks a b) r in
    (
      decode_accepted m input out (length a + length b) len_ptr (two_blocks a b) r
          (length a + length b) (omega arith) (scan_two_blocks m input a b h k scan)
          (two_blocks-Blocks a b h k),
      omega (arith, length-append a (0 ∷ b)),
    )
