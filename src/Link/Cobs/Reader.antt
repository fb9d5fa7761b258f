-- ===== src/Link/Cobs/Reader.antt =====
-- What the two passes of `wl_cobs_decode` do with a buffer that holds a sequence of blocks.
use wirelink.Common.{ℕ, zero, suc, ◌+◌, ◌-◌, ◌<◌, ◌≤◌, ◌≡◌, refl, arith, List, [], ◌∷◌, ◌++◌}
use wirelink.Common.{
  length, ◌⊎◌, length-append, leb, ltb, ◌==◌, if◌then◌else◌, not, ◌&&◌, true, false, append-nil,
}
use wirelink.Common.Memory.{Mem, store, Holds, Holds-store, Holds-left}
use wirelink.Common.Memory.{Holds-right, Holds_agree, IsWritten, IsWritten-append, store-IsWritten}
use wirelink.Link.Cobs.{copy_loop, write_loop}
use wirelink.Link.Cobs.Format.{Blocks, Blocks-nonempty, last, zero_after, full}

-- The loop copies forward, so its target may overlap its source from below.
pub copy_loop-IsWritten :
    (run : List ℕ) (m : Mem) (from to : ℕ)
    → Holds m from run
    → (to ≤ from) ⊎ (from + length run ≤ to)
    → IsWritten to run m (copy_loop (length run) m from to)
unfolding copy_loop
copy_loop-IsWritten [] m from to h o = record { bytes = tt; outside = λ x k. refl }
copy_loop-IsWritten (v ∷ run) m from to h o =
    let m' = store m to (m from) in
    let moved = store-IsWritten m to (m from) in
    let rest =
      copy_loop-IsWritten run m' (from + 1) (to + 1)
        (Holds-store m (from + 1) to (m from) run (omega arith) h.1) (omega arith) in
    IsWritten-append to (to + 1) (v ∷ []) run m m' _ (omega arith) (rw (← h.0) moved) rest

pub write_loop_end :
    (fuel : ℕ) (m : Mem) (input n out in_pos done : ℕ)
    → n ≤ in_pos
    → write_loop fuel m input n out in_pos done ≡ (m, done)
unfolding write_loop
write_loop_end zero m input n out in_pos done h = refl
write_loop_end (suc fuel) m input n out in_pos done h = ground arith

-- Where the second pass stands: it has read up to `in_pos` and written `done` bytes, and its writes
-- stay behind its reads or outside the input.
pub record IsReading (m : Mem) (input n out in_pos done : ℕ) (ys : List ℕ) : Type 0 where
  pub unread : Holds m (input + in_pos) ys
  pub ends : n ≡ in_pos + length ys
  pub behind : done ≤ in_pos
  pub apart : (out ≤ input) ⊎ (input + n ≤ out)

-- What the second pass leaves, from `in_pos` and `done`, if it decodes to `xs`.
abbrev pub Decodes : ℕ → Mem → ℕ → ℕ → ℕ → ℕ → ℕ → List ℕ → Type 0
Decodes fuel m input n out in_pos done xs =
    IsWritten (out + done) xs m (write_loop fuel m input n out in_pos done).0
    × ((write_loop fuel m input n out in_pos done).1 ≡ done + length xs)

-- One round, on a block `code ∷ run` with `ys` behind it.
module _ (fuel : ℕ) (m : Mem) (input n out in_pos done code : ℕ) (run ys : List ℕ)
    (e : code ≡ length run + 1) (r : IsReading m input n out in_pos done (code ∷ (run ++ ys))) where
  abbrev pub copied : Mem
  copied = copy_loop (length run) m (input + in_pos + 1) (out + done)

  abbrev pub after : ℕ
  after = in_pos + 1 + length run

  abbrev pub zero_stored : Mem
  zero_stored = store copied (out + (done + length run)) 0

  len : length (run ++ ys) ≡ length run + length ys
  len = length-append run ys

  copied-IsWritten : IsWritten (out + done) run m copied
  copied-IsWritten =
      copy_loop-IsWritten run m (input + in_pos + 1) (out + done)
        (Holds-left m (input + in_pos + 1) run ys r.unread.1)
        (omega (arith, r.behind, r.apart, r.ends, len))

  pub write_loop-suc : write_loop (suc fuel) m input n out in_pos done ≡ (
      if ltb after n && not (code == 0xff)
      then write_loop fuel zero_stored input n out after (done + length run + 1)
      else write_loop fuel copied input n out after (done + length run))
  unfolding write_loop
  write_loop-suc =
      let tested : leb n in_pos ≡ false = ground (arith, r.ends) in
      let count : code - 1 ≡ length run = omega arith in rw (r.unread.0, tested, count)

  pub copied-IsReading : IsReading copied input n out after (done + length run) ys
  copied-IsReading = record {
    unread =
        Holds_agree m copied (input + after) ys
          (λ x lo hi. copied-IsWritten.outside x (omega (arith, r.behind, r.apart, r.ends, len)))
          (Holds-right m (input + in_pos + 1) (input + after) run ys (omega arith) r.unread.1);
    ends = omega (arith, r.ends, len);
    behind = omega (arith, r.behind);
    apart = r.apart;
  }

  pub zero_stored-IsReading : IsReading zero_stored input n out after (done + length run + 1) ys
  zero_stored-IsReading = record {
    unread =
        Holds-store copied (input + after) _ 0 ys (omega (arith, r.behind, r.apart, r.ends, len))
          copied-IsReading.unread;
    ends = copied-IsReading.ends;
    behind = omega (arith, r.behind);
    apart = r.apart;
  }

  -- A block of less than 254 bytes with another behind it leaves its bytes and a zero.
  zero_round :
      (xs : List ℕ)
      → 0 < length ys
      → code < 0xff
      → Decodes fuel zero_stored input n out after (done + length run + 1) xs
      → Decodes (suc fuel) m input n out in_pos done (run ++ (0 ∷ xs))
  zero_round xs more small (w, d) =
      let inside : ltb after n ≡ true = ground (arith, r.ends, len) in
      let short : (code == 0xff) ≡ false = ground arith in
      let zero = store-IsWritten copied (out + (done + length run)) 0 in
      rw (write_loop-suc, inside, short)
        (
          IsWritten-append (out + done) (out + (done + length run)) run (0 ∷ xs) m copied _
              (omega arith) copied-IsWritten
              (IsWritten-append (out + (done + length run)) (out + (done + length run + 1)) (0 ∷ [])
                xs copied zero_stored _ (omega arith) zero w),
          omega (arith, d, length-append run (0 ∷ xs)),
        )

  -- A block of 254 bytes leaves its bytes alone.
  full_round :
      (xs : List ℕ)
      → code ≡ 0xff
      → Decodes fuel copied input n out after (done + length run) xs
      → Decodes (suc fuel) m input n out in_pos done (run ++ xs)
  full_round xs whole (w, d) =
      let long : (ltb after n && not (code == 0xff)) ≡ false = ground arith in
      rw (write_loop-suc, long)
        (
          IsWritten-append (out + done) (out + (done + length run)) run xs m copied _ (omega arith)
              copied-IsWritten w,
          omega (arith, d, length-append run xs),
        )

-- The second pass decodes the blocks that it has not read.
pub write_loop-Blocks :
    {xs ys : List ℕ}
    → Blocks xs ys
    → (fuel : ℕ) (m : Mem) (input n out in_pos done : ℕ) → length ys ≤ fuel
    → IsReading m input n out in_pos done ys
    → Decodes fuel m input n out in_pos done xs
write_loop-Blocks (last run code e small) zero m input n out in_pos done enough r =
    absurd (omega arith)
write_loop-Blocks (last run code e small) (suc fuel) m input n out in_pos done enough r =
    let r' : IsReading m input n out in_pos done (code ∷ (run ++ [])) = rw append-nil r in
    let at_end : ltb (in_pos + 1 + length run) n ≡ false = ground (arith, r.ends) in
    rw
      (
        write_loop-suc fuel m input n out in_pos done code run [] e r',
        at_end,
        write_loop_end fuel _ input n out (in_pos + 1 + length run) (done + length run)
            (omega (arith, r.ends)),
      )
      (copied-IsWritten fuel m input n out in_pos done code run [] e r', refl)
write_loop-Blocks (zero_after run code e small b) zero m input n out in_pos done enough r =
    absurd (omega arith)
write_loop-Blocks (zero_after run code {xs} {ys} e small b) (suc fuel) m input n out in_pos done
      enough r =
    zero_round fuel m input n out in_pos done code run ys e r xs (Blocks-nonempty b) small (
      write_loop-Blocks b fuel _ input n out _ _ (omega (arith, length-append run ys))
        (zero_stored-IsReading fuel m input n out in_pos done code run ys e r))
write_loop-Blocks (full run e b) zero m input n out in_pos done enough r = absurd (omega arith)
write_loop-Blocks (full run {xs} {ys} e b) (suc fuel) m input n out in_pos done enough r =
    let code : 0xff ≡ length run + 1 = omega arith in
    full_round fuel m input n out in_pos done 0xff run ys code r xs refl (
      write_loop-Blocks b fuel _ input n out _ _ (omega (arith, length-append run ys))
        (copied-IsReading fuel m input n out in_pos done 0xff run ys code r))
