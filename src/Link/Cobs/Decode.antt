-- ===== src/Link/Cobs/Decode.antt =====
-- The whole of `wl_cobs_decode` and `wl_cobs_decode_in_place`: the checks and both passes.
use wirelink.Common.{ℕ, ◌+◌, ◌^◌, ◌<◌, ◌≤◌, ◌≡◌, ◌≢◌, ◌⊎◌, inl, inr, refl, arith, List, length}
use wirelink.Common.{ap, some, ltb, ◌==◌, true, false, All}
use native.Mathlib.Nat.{add-zero}
use native.Mathlib.Decide.{dec_lt}
use wirelink.Common.Memory.{Mem, Holds, IsWritten}
use wirelink.Link.Status.{Status}
use wirelink.Link.Cobs.{Result, malformed, required, scan_loop, write_loop, decode, decode_in_place}
use wirelink.Link.Cobs.Format.{Blocks, IsByte, length-Blocks}
use wirelink.Link.Cobs.Reader.{IsReading, write_loop-Blocks}
use wirelink.Link.Cobs.Checker.{IsScanning, scan_loop-Blocks, scan_loop_sound}
use wirelink.Link.Cobs.Checker.{scan_loop_answers}
use wirelink.Link.Cobs.Encode.{Refused}

-- What a call of `decode` has to find: real pointers, and an input that is not behind the output in
-- memory, unless it is outside the bytes that the output can reach.
pub record IsReady (m : Mem) (input out len_ptr : ℕ) (ys : List ℕ) : Type 0 where
  pub held : Holds m input ys
  pub bytes : All IsByte ys
  pub given : (input ≢ 0) × (out ≢ 0) × (len_ptr ≢ 0)
  pub some_bytes : 0 < length ys
  pub small : length ys < 2 ^ 63
  pub apart : (out ≤ input) ⊎ (input + length ys ≤ out)

-- The answer to a sequence of blocks for `xs`: its length, and `xs` at `out` with all other memory
-- as it was.
abbrev pub Decoded : Mem → ℕ → List ℕ → Result → Type 0
Decoded m out xs r = (r.status ≡ Status.ok) × (r.len ≡ some (length xs)) × IsWritten out xs m r.mem

module _ (m : Mem) (input out cap len_ptr : ℕ) (ys : List ℕ)
    (r : IsReady m input out len_ptr ys) where
  pub start-IsScanning : IsScanning m input (length ys) 0 0 ys
  start-IsScanning = record {
    unread = rw add-zero r.held;
    ends = omega arith;
    behind = omega arith;
    small = r.small;
  }

  pub start-IsReading : IsReading m input (length ys) out 0 0 ys
  start-IsReading = record {
    unread = rw add-zero r.held;
    ends = omega arith;
    behind = omega arith;
    apart = r.apart;
  }

  -- Past its checks the call does what its first pass says.
  decode_malformed :
      scan_loop (length ys) m input (length ys) 0 0 ≡ malformed
      → Refused m Status.cobs_decode (decode m input (length ys) out cap len_ptr)
  unfolding decode
  decode_malformed e =
      let present : (len_ptr == 0) ≡ false = ground (arith, r.given) in
      let source : (input == 0) ≡ false = ground (arith, r.given) in
      let nonempty : (length ys == 0) ≡ false = ground (arith, r.some_bytes) in
      rw (present, source, nonempty, e) (refl, refl, refl)

  pub decode_required :
      (k : ℕ)
      → k ≤ cap
      → scan_loop (length ys) m input (length ys) 0 0 ≡ required k
      → let done = write_loop (length ys) m input (length ys) out 0 0 in
        decode m input (length ys) out cap len_ptr
        ≡ record { status = Status.ok; mem = done.0; len = some done.1 }
  unfolding decode
  decode_required k le e =
      let present : (len_ptr == 0) ≡ false = ground (arith, r.given) in
      let source : (input == 0) ≡ false = ground (arith, r.given) in
      let target : (out == 0) ≡ false = ground (arith, r.given) in
      let nonempty : (length ys == 0) ≡ false = ground (arith, r.some_bytes) in
      let room : ltb cap k ≡ false = ground arith in rw (present, source, nonempty, e, room, target)

  decode_room :
      (k : ℕ)
      → cap < k
      → scan_loop (length ys) m input (length ys) 0 0 ≡ required k
      → Refused m Status.buf_too_small (decode m input (length ys) out cap len_ptr)
  unfolding decode
  decode_room k lt e =
      let present : (len_ptr == 0) ≡ false = ground (arith, r.given) in
      let source : (input == 0) ≡ false = ground (arith, r.given) in
      let nonempty : (length ys == 0) ≡ false = ground (arith, r.some_bytes) in
      let full : ltb cap k ≡ true = ground arith in
      rw (present, source, nonempty, e, full) (refl, refl, refl)

  -- Blocks that the first pass lets through are decoded.
  pub decode_accepted :
      (k : ℕ) {xs : List ℕ}
      → k ≤ cap
      → scan_loop (length ys) m input (length ys) 0 0 ≡ required k
      → Blocks xs ys
      → Decoded m out xs (decode m input (length ys) out cap len_ptr)
  decode_accepted k {xs} le e b =
      let (w, count) =
        write_loop-Blocks b (length ys) m input (length ys) out 0 0 (omega arith) start-IsReading in
      rw (decode_required k le e) (refl, ap some (omega (arith, count)), rw add-zero at w)

  -- Given pointers that are not NULL and bytes in number above 0 and below 2^63, which start at the
  -- output or behind it or end before it, a call that answers OK was given a sequence of blocks,
  -- and has decoded it.
  pub decode_sound :
      (decode m input (length ys) out cap len_ptr).status ≡ Status.ok
      → (xs : List ℕ) × Blocks xs ys × Decoded m out xs (decode m input (length ys) out cap len_ptr)
  decode_sound h =
      elim (scan_loop_answers (length ys) m input (length ys) 0 0 ys (omega arith) r.bytes
        start-IsScanning) [
          | inl bad ↦ cc (h, (decode_malformed bad).0)
          | inr (k, e) ↦ elim (dec_lt cap k) [
            | yes lt ↦ cc (h, (decode_room k lt e).0)
            | no ge ↦
                let (xs, b) =
                  scan_loop_sound (length ys) m input (length ys) 0 0 k ys (omega arith)
                    r.some_bytes r.bytes start-IsScanning e in
                (xs, b, decode_accepted k (omega arith) e b)
          ]
        ]

  -- Given pointers that are not NULL, and an input of less than 2^63 bytes which starts at the
  -- output or behind it or ends before it, a sequence of blocks is decoded wherever there is room
  -- for the bytes that it stands for.
  pub decode-Blocks :
      {xs : List ℕ}
      → Blocks xs ys
      → length xs ≤ cap
      → Decoded m out xs (decode m input (length ys) out cap len_ptr)
  decode-Blocks b room =
      let (k, e, le) =
        scan_loop-Blocks b (length ys) m input (length ys) 0 0 (omega arith) start-IsScanning in
      decode_accepted k (omega (arith, le)) e b

-- Decoding in place needs no other capacity than the buffer: a buffer of bytes, in number above 0
-- and below 2^63, either holds a sequence of blocks, and is decoded into less bytes than it has, at
-- its front, with all other memory as it was; or it holds none, and is refused with COBS_DECODE and
-- left as it was.
pub decode_in_place_lem :
    (m : Mem) (buffer len_ptr : ℕ) (ys : List ℕ)
    → IsReady m buffer buffer len_ptr ys
    → let r = decode_in_place m buffer (length ys) len_ptr in
      ((xs : List ℕ) × Blocks xs ys × (length xs < length ys) × Decoded m buffer xs r)
      ⊎ (((xs : List ℕ) → ¬ Blocks xs ys) × Refused m Status.cobs_decode r)
unfolding decode_in_place
decode_in_place_lem m buffer len_ptr ys r =
    elim (scan_loop_answers (length ys) m buffer (length ys) 0 0 ys (omega arith) r.bytes scan) [
      | inl bad ↦ inr (
        λ xs b.
            let (k, e, le) =
              scan_loop-Blocks b (length ys) m buffer (length ys) 0 0 (omega arith) scan in
            cc (bad, e),
        decode_malformed m buffer buffer (length ys) len_ptr ys r bad,
      )
      | inr (k, e) ↦
          let (xs, b) =
            scan_loop_sound (length ys) m buffer (length ys) 0 0 k ys (omega arith) r.some_bytes
              r.bytes scan e in
          let shorter = length-Blocks b in
          inl (
            xs,
            b,
            shorter,
            decode-Blocks m buffer buffer (length ys) len_ptr ys r b (omega (arith, shorter)),
          )
    ]
  where
    scan : IsScanning m buffer (length ys) 0 0 ys
    scan = start-IsScanning m buffer buffer (length ys) len_ptr ys r
