-- ===== src/Link/Frame/Fused.antt =====
-- The loop of `wl_frame_decode_cobs_crc16` against the second pass of `wl_cobs_decode`: it decodes
-- the same blocks, and takes the CRC of what it decodes.
use wirelink.Common.{ℕ, zero, suc, ◌+◌, ◌-◌, ◌<◌, ◌≤◌, ◌≡◌, ◌⊎◌, refl, arith, ap, ◌∙◌, inl, inr}
use wirelink.Common.{
  List, [], ◌∷◌, ◌++◌, length, length-append, append-nil, Bool, true, false, leb, ltb, ◌==◌, not,
  ◌&&◌, ◌||◌, if◌then◌else◌, Bool-cases, split_at, All, All-right,
}
use native.Mathlib.Decide.{dec_lt}
use wirelink.Common.Memory.{Mem, Holds, Holds-store, Holds-left, store}
use wirelink.Link.Cobs.{copy_loop, write_loop}
use wirelink.Link.Cobs.Format.{Blocks, IsByte, Blocks-nonempty, last, zero_after, full}
use wirelink.Link.Cobs.Checker.{block_before}
use wirelink.Link.Cobs.Reader.{
  IsReading, copied, zero_stored, write_loop-suc, copied-IsReading, zero_stored-IsReading,
  write_loop_end,
}
use wirelink.Link.Crc.{crc16_byte}
use wirelink.Link.Frame.Encoder.{crc16_bytes}
use wirelink.Link.Frame.Stream.{crc16_bytes-append}
use wirelink.Link.Frame.Decoder.{Decoded, copy_crc16, decode_crc16}

copy_crc16-split :
    (run : List ℕ) (m : Mem) (from to crc : ℕ)
    → Holds m from run
    → to ≤ from
    → copy_crc16 (length run) m from to crc
      ≡ (copy_loop (length run) m from to, crc16_bytes crc run)
unfolding copy_crc16 copy_loop crc16_bytes
copy_crc16-split [] m from to crc h o = refl
copy_crc16-split (v ∷ run) m from to crc h o =
    copy_crc16-split run (store m to (m from)) (from + 1) (to + 1) (crc16_byte crc (m from))
      (Holds-store m (from + 1) to (m from) run (omega arith) h.1) (omega arith)
    ∙ ap
        (λ w. (
          copy_loop (length run) (store m to (m from)) (from + 1) (to + 1),
          crc16_bytes (crc16_byte crc w) run,
        ))
        h.0

-- What the loop comes to where the second pass leaves `w`.
abbrev pub accept : Mem × ℕ → ℕ → Decoded
accept w crc = record { accepted = true; mem = w.0; write = w.1; crc = crc }

module _ (fuel : ℕ) (m : Mem) (b n read write crc code : ℕ) (run ys : List ℕ)
    (e : code ≡ length run + 1) (r : IsReading m b n b read write (code ∷ (run ++ ys))) where
  decode_crc16-suc : decode_crc16 (suc fuel) m b n read write crc ≡ (
      if not (code == 0xff) && ltb (read + 1 + length run) n
      then decode_crc16 fuel
          (store (copy_loop (length run) m (b + read + 1) (b + write)) (b + (write + length run)) 0)
          b
          n
          (read + 1 + length run)
          (write + length run + 1)
          (crc16_byte (crc16_bytes crc run) 0)
      else decode_crc16 fuel
          (copy_loop (length run) m (b + read + 1) (b + write))
          b
          n
          (read + 1 + length run)
          (write + length run)
          (crc16_bytes crc run))
  unfolding decode_crc16
  decode_crc16-suc =
      let len = length-append run ys in
      let tested : leb n read ≡ false = ground (arith, r.ends) in
      let count : code - 1 ≡ length run = omega arith in
      let fits : (code == 0 || ltb (n - (read + 1)) (length run)) ≡ false =
        ground (arith, r.ends, len) in
      let split =
        copy_crc16-split run m (b + read + 1) (b + write) crc
          (Holds-left m (b + read + 1) run ys r.unread.1) (omega (arith, r.behind)) in
      rw (r.unread.0, tested, count, fits, split)

  -- Whatever the round does, the loop goes on behind the block.
  next_round :
      (m' : Mem) × (write' : ℕ) × (crc' : ℕ) × IsReading m' b n b (read + 1 + length run) write' ys
      × (decode_crc16 (suc fuel) m b n read write crc
          ≡ decode_crc16 fuel m' b n (read + 1 + length run) write' crc')
  next_round = elim (Bool-cases (not (code == 0xff) && ltb (read + 1 + length run) n)) [
    | inl t ↦ (
      zero_stored fuel m b n b read write code run ys e r,
      write + length run + 1,
      crc16_byte (crc16_bytes crc run) 0,
      zero_stored-IsReading fuel m b n b read write code run ys e r,
      rw (decode_crc16-suc, t),
    )
    | inr f ↦ (
      copied fuel m b n b read write code run ys e r,
      write + length run,
      crc16_bytes crc run,
      copied-IsReading fuel m b n b read write code run ys e r,
      rw (decode_crc16-suc, f),
    )
  ]

decode_crc16_end :
    (fuel : ℕ) (m : Mem) (b n read write crc : ℕ)
    → n ≤ read
    → decode_crc16 fuel m b n read write crc ≡ accept (m, write) crc
unfolding decode_crc16
decode_crc16_end zero m b n read write crc h = refl
decode_crc16_end (suc fuel) m b n read write crc h =
    let e : leb n read ≡ true = ground arith in rw e

crc16_bytes-zero :
    (crc : ℕ) (run xs : List ℕ)
    → crc16_bytes crc (run ++ (0 ∷ xs)) ≡ crc16_bytes (crc16_byte (crc16_bytes crc run) 0) xs
unfolding crc16_bytes
crc16_bytes-zero crc run xs = crc16_bytes-append crc run (0 ∷ xs)

pub decode_crc16-Blocks :
    {xs ys : List ℕ}
    → Blocks xs ys
    → (fuel : ℕ) (m : Mem) (b n read write crc : ℕ) → length ys ≤ fuel
    → IsReading m b n b read write ys
    → decode_crc16 fuel m b n read write crc
      ≡ accept (write_loop fuel m b n b read write) (crc16_bytes crc xs)
decode_crc16-Blocks (last run code e small) zero m b n read write crc enough r =
    absurd (omega arith)
decode_crc16-Blocks (last run code e small) (suc fuel) m b n read write crc enough r =
    let r' : IsReading m b n b read write (code ∷ (run ++ [])) = rw append-nil r in
    let at_end : ltb (read + 1 + length run) n ≡ false = ground (arith, r.ends) in
    let no_more : (not (code == 0xff) && ltb (read + 1 + length run) n) ≡ false =
      ground (arith, r.ends) in
    rw (
      decode_crc16-suc fuel m b n read write crc code run [] e r',
      write_loop-suc fuel m b n b read write code run [] e r',
      no_more,
      at_end,
      write_loop_end fuel _ b n b (read + 1 + length run) (write + length run)
          (omega (arith, r.ends)),
      decode_crc16_end fuel _ b n (read + 1 + length run) (write + length run) (crc16_bytes crc run)
          (omega (arith, r.ends)),
    )
decode_crc16-Blocks (zero_after run code e small k) zero m b n read write crc enough r =
    absurd (omega arith)
decode_crc16-Blocks (zero_after run code {xs} {ys} e small k) (suc fuel) m b n read write crc enough
      r =
    let inside : ltb (read + 1 + length run) n ≡ true =
      ground (arith, r.ends, length-append run ys, Blocks-nonempty k) in
    let short : (code == 0xff) ≡ false = ground arith in
    let next = zero_stored-IsReading fuel m b n b read write code run ys e r in
    rw
      (
        decode_crc16-suc fuel m b n read write crc code run ys e r,
        write_loop-suc fuel m b n b read write code run ys e r,
        inside,
        short,
        crc16_bytes-zero crc run xs,
      )
      (decode_crc16-Blocks k fuel _ b n _ _ (crc16_byte (crc16_bytes crc run) 0)
        (omega (arith, length-append run ys)) next)
decode_crc16-Blocks (full run e k) zero m b n read write crc enough r = absurd (omega arith)
decode_crc16-Blocks (full run {xs} {ys} e k) (suc fuel) m b n read write crc enough r =
    let code : 0xff ≡ length run + 1 = omega arith in
    let long : (ltb (read + 1 + length run) n && false) ≡ false = ground arith in
    let next = copied-IsReading fuel m b n b read write 0xff run ys code r in
    rw
      (
        decode_crc16-suc fuel m b n read write crc 0xff run ys code r,
        write_loop-suc fuel m b n b read write 0xff run ys code r,
        long,
        crc16_bytes-append crc run xs,
      )
      (decode_crc16-Blocks k fuel _ b n _ _ (crc16_bytes crc run)
        (omega (arith, length-append run ys)) next)

-- A code that leaves no whole block is refused.
code_cases :
    (fuel : ℕ) (m : Mem) (b n read write crc code : ℕ) (ys : List ℕ)
    → IsReading m b n b read write (code ∷ ys)
    → ((decode_crc16 (suc fuel) m b n read write crc).accepted ≡ false)
      ⊎ ((0 < code) × (code - 1 ≤ length ys))
unfolding decode_crc16
code_cases fuel m b n read write crc code ys r =
    elim (Bool-cases (code == 0 || ltb (length ys) (code - 1))) [
      | inl bad ↦
          let tested : leb n read ≡ false = ground (arith, r.ends) in
          let left : n - (read + 1) ≡ length ys = omega (arith, r.ends) in
          inl (rw (r.unread.0, tested, left, bad) refl)
      | inr fits ↦ inr (ground arith)
    ]

abbrev accepted_of : Decoded → Bool
accepted_of d = d.accepted

-- What the rest of the loop found, with the block before it.
carry :
    (code : ℕ) (run zs ys : List ℕ) (d d' : Decoded)
    → ys ≡ run ++ zs
    → code ≡ length run + 1
    → code < 256
    → d.accepted ≡ d'.accepted
    → (d'.accepted ≡ false) ⊎ ((xs : List ℕ) × Blocks xs zs)
    → (d.accepted ≡ false) ⊎ ((xs : List ℕ) × Blocks xs (code ∷ ys))
carry code run zs ys d d' e c byte same (inl bad) = inl (same ∙ bad)
carry code run zs ys d d' e c byte same (inr found) =
    inr (rw e (block_before code run zs c byte (λ more. found)))

-- What the loop does not refuse is a sequence of blocks.
pub decode_crc16_answers :
    (fuel : ℕ) (m : Mem) (b n read write crc : ℕ) (ys : List ℕ)
    → length ys ≤ fuel
    → 0 < length ys
    → All IsByte ys
    → IsReading m b n b read write ys
    → ((decode_crc16 fuel m b n read write crc).accepted ≡ false) ⊎ ((xs : List ℕ) × Blocks xs ys)
decode_crc16_answers fuel m b n read write crc [] enough some_bytes bytes r = absurd (omega arith)
decode_crc16_answers zero m b n read write crc (code ∷ ys) enough some_bytes bytes r =
    absurd (omega arith)
decode_crc16_answers (suc fuel) m b n read write crc (code ∷ ys) enough some_bytes bytes r =
    elim (code_cases fuel m b n read write crc code ys r) [
      | inl bad ↦ inl bad
      | inr (pos, fits) ↦
          let (run, zs, e, l) = split_at (code - 1) ys fits in
          let r' : IsReading m b n b read write (code ∷ (run ++ zs)) = rw e at r in
          let c : code ≡ length run + 1 = omega arith in
          let tail : All IsByte zs = All-right IsByte run zs (rw e at bytes.1) in
          elim (dec_lt 0 (length zs)) [
            | no none_left ↦
                inr (rw e (block_before code run zs c bytes.0 (λ more. absurd (omega arith))))
            | yes more ↦
                let (m', write', crc', next, step) =
                  next_round fuel m b n read write crc code run zs c r' in
                carry code run zs ys (decode_crc16 (suc fuel) m b n read write crc)
                  (decode_crc16 fuel m' b n (read + 1 + length run) write' crc') e c bytes.0
                  (ap accepted_of step)
                  (decode_crc16_answers fuel m' b n _ write' crc' zs
                    (omega (arith, ap length e, length-append run zs)) more tail next)
          ]
    ]
