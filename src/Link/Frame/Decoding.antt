-- ===== src/Link/Frame/Decoding.antt =====
-- `wl_frame_decode_cobs_crc16` against `wl_frame_decode_cobs_generic`: one pass with a residue,
-- against decoding in place and then comparing the CRC.
use wirelink.Common.{
  ℕ, ◌+◌, ◌-◌, ◌*◌, ◌^◌, ◌<◌, ◌≤◌, ◌≡◌, ◌≢◌, ◌⊎◌, refl, arith, ap, sym, ◌∙◌, inl, inr,
}
use wirelink.Common.{
  List, [], ◌∷◌, ◌++◌, length, length-append, true, false, not, ltb, ◌==◌, ◌||◌, if◌then◌else◌,
  some, none, split_at, All, All-right,
}
use mathlib.Core.Path.{ap₂}
use native.Mathlib.Nat.{add-zero}
use native.Mathlib.Decide.{dec_lt}
use wirelink.Common.Memory.{Mem, Holds, Holds-left, Holds-right}
use wirelink.Link.Status.{Status}
use wirelink.Link.Cobs.{decode_in_place, write_loop}
use wirelink.Link.Cobs.Format.{Blocks, IsByte, Blocks-IsByte, length-Blocks}
use wirelink.Link.Cobs.Reader.{IsReading, write_loop-Blocks}
use wirelink.Link.Cobs.Checker.{scan_loop-Blocks}
use wirelink.Link.Cobs.Decode.{
  IsReady, start-IsReading, start-IsScanning, decode_required, decode_in_place_lem,
}
use wirelink.Link.Crc.{crc16_byte, crc16}
use wirelink.Link.Crc.Residue.{residue, crc16_byte_small}
use wirelink.Link.Frame.{integrity_crc16}
use wirelink.Link.Frame.Bytes.{read_u16_be}
use wirelink.Link.Frame.Encoder.{crc16_bytes}
use wirelink.Link.Frame.Stream.{crc16_bytes-append, crc16_update-Holds}
use wirelink.Link.Frame.Decoder.{
  Decoding, refuse, decode_unstuffed, bad_integrity, parse_kind, frame_parse, frame_decode,
  frame_decode_cobs_generic, frame_decode_cobs_crc16, decode_crc16,
}
use wirelink.Link.Frame.Fused.{decode_crc16-Blocks, decode_crc16_answers}

pub crc16_bytes_small : (s : ℕ) (xs : List ℕ) → s < 2 ^ 16 → crc16_bytes s xs < 2 ^ 16
unfolding crc16_bytes
crc16_bytes_small s [] h = h
crc16_bytes_small s (x ∷ xs) h = crc16_bytes_small (crc16_byte s x) xs (crc16_byte_small s x)

-- The residue of a body with two bytes behind it is the test that they are its CRC.
residue_test :
    (body : List ℕ) (h l : ℕ)
    → h < 256
    → l < 256
    → (crc16_bytes 0xffff (body ++ (h ∷ l ∷ [])) == 0) ≡ (h * 2 ^ 8 + l == crc16_bytes 0xffff body)
residue_test body h l hb lb =
    let s = crc16_bytes 0xffff body in
    let r = residue s h l (crc16_bytes_small 0xffff body (omega arith)) hb lb in
    let split : crc16_bytes 0xffff (body ++ (h ∷ l ∷ [])) ≡ crc16_byte (crc16_byte s h) l =
      unfold crc16_bytes in crc16_bytes-append 0xffff body (h ∷ l ∷ []) in
    rw split (ground (arith, r))

pair_of : (xs : List ℕ) → length xs ≡ 2 → (h : ℕ) × (l : ℕ) × (xs ≡ h ∷ l ∷ [])
pair_of [] e = absurd (omega arith)
pair_of (h ∷ []) e = absurd (omega arith)
pair_of (h ∷ l ∷ []) e = (h, l, refl)
pair_of (h ∷ l ∷ x ∷ xs) e = absurd (omega arith)

read_u16_be-Holds : (m : Mem) (a h l : ℕ) → Holds m a (h ∷ l ∷ []) → read_u16_be m a ≡ h * 2 ^ 8 + l
unfolding read_u16_be
read_u16_be-Holds m a h l held = omega (arith, held.0, held.1.0)

pub crc16-Holds :
    (m : Mem) (a : ℕ) (xs : List ℕ)
    → Holds m a xs
    → a ≢ 0
    → crc16 m a (length xs) ≡ crc16_bytes 0xffff xs
unfolding crc16
crc16-Holds m a xs held given =
    let nonnull : (a == 0) ≡ false = ground (arith, given) in
    rw nonnull (crc16_update-Holds m a 0xffff xs held)

-- Two bytes at the end of a list.
last_two :
    (xs : List ℕ)
    → 2 ≤ length xs
    → (body : List ℕ) × (h : ℕ) × (l : ℕ) × (xs ≡ body ++ (h ∷ l ∷ []))
last_two xs n =
    let (body, end, e, len) = split_at (length xs - 2) xs (omega arith) in
    let (h, l, two) = pair_of end (omega (arith, n, len, ap length e, length-append body end)) in
    (body, h, l, e ∙ ap (λ t. body ++ t) two)

module _ (m : Mem) (a : ℕ) (xs : List ℕ) (held : Holds m a xs) (bytes : All IsByte xs)
    (given : a ≢ 0) where
  -- The residue decides as the comparison does.
  bad_integrity-residue :
      2 ≤ length xs
      → bad_integrity m a (length xs - 2) integrity_crc16 (some (crc16_bytes 0xffff xs))
        ≡ bad_integrity m a (length xs - 2) integrity_crc16 none
  unfolding bad_integrity
  bad_integrity-residue n =
      let (body, h, l, e) = last_two xs n in
      let held' : Holds m a (body ++ (h ∷ l ∷ [])) = rw e at held in
      let bytes' : All IsByte (body ++ (h ∷ l ∷ [])) = rw e at bytes in
      let front = Holds-left m a body (h ∷ l ∷ []) held' in
      let end = Holds-right m a (a + length body) body (h ∷ l ∷ []) refl held' in
      let hl = All-right IsByte body (h ∷ l ∷ []) bytes' in
      let count : length xs - 2 ≡ length body =
        omega (arith, ap length e, length-append body (h ∷ l ∷ [])) in
      let test = residue_test body h l hl.0 hl.1.0 in
      let read =
        ap (λ k. read_u16_be m (a + k)) count ∙ read_u16_be-Holds m (a + length body) h l end in
      let crc = ap (crc16 m a) count ∙ crc16-Holds m a body front given in
      ap (λ ys. not (crc16_bytes 0xffff ys == 0)) e
      ∙ ap not test
      ∙ ap not (ap₂ ◌==◌ (sym read) (sym crc))

  parse_kind-residue :
      (type flags header_len : ℕ)
      → 2 ≤ length xs
      → parse_kind m a
          (length xs)
          integrity_crc16
          2
          (some (crc16_bytes 0xffff xs))
          type
          flags
          header_len
        ≡ parse_kind m a (length xs) integrity_crc16 2 none type flags header_len
  unfolding parse_kind
  parse_kind-residue type flags header_len n = rw (bad_integrity-residue n)

  frame_parse-residue :
      (out_view : ℕ)
      → frame_parse m a (length xs) integrity_crc16 2 (some (crc16_bytes 0xffff xs)) out_view
        ≡ frame_parse m a (length xs) integrity_crc16 2 none out_view
  unfolding frame_parse
  frame_parse-residue out_view = elim (dec_lt (length xs) 6) [
    | yes lt ↦ let short : ltb (length xs) (4 + 2) ≡ true = ground arith in rw short
    | no ge ↦ rw (
      parse_kind-residue 1 0 4 (omega arith),
      parse_kind-residue 1 1 16 (omega arith),
      parse_kind-residue 2 0 16 (omega arith),
    )
  ]

-- The two decoders, on the bytes of a buffer.
module _ (m : Mem) (encoded out_view : ℕ) (ys : List ℕ) (r : IsReady m encoded encoded 1 ys)
    (wanted : out_view ≢ 0) where
  abbrev pub written : Mem × ℕ
  written = write_loop (length ys) m encoded (length ys) encoded 0 0

  -- What both come to on a sequence of blocks for `xs`.
  abbrev pub outcome : List ℕ → Decoding
  outcome xs =
      if length xs == 0
      then record { parsed = refuse Status.invalid_arg; mem = written.0 }
      else record {
        parsed = frame_parse written.0 encoded (length xs) integrity_crc16 2 none out_view;
        mem = written.0;
      }

  reading : IsReading m encoded (length ys) encoded 0 0 ys
  reading = start-IsReading m encoded encoded (length ys) 1 ys r

  pub written-Blocks :
      {xs : List ℕ} → Blocks xs ys → Holds written.0 encoded xs × (written.1 ≡ length xs)
  written-Blocks b =
      let (w, count) =
        write_loop-Blocks b (length ys) m encoded (length ys) encoded 0 0 (omega arith) reading in
      (rw add-zero at w.bytes, omega (arith, count))

  pub fused-Blocks :
      {xs : List ℕ}
      → Blocks xs ys
      → frame_decode_cobs_crc16 m encoded (length ys) out_view ≡ outcome xs
  unfolding frame_decode_cobs_crc16
  fused-Blocks {xs} b =
      let (held, count) = written-Blocks b in
      let nonnull : (encoded == 0 || out_view == 0) ≡ false = ground (arith, r.given, wanted) in
      let nonempty : (length ys == 0) ≡ false = ground (arith, r.some_bytes) in
      rw (
        nonnull,
        nonempty,
        decode_crc16-Blocks b (length ys) m encoded (length ys) 0 0 0xffff (omega arith) reading,
        count,
        frame_parse-residue written.0 encoded xs held (Blocks-IsByte b r.bytes) r.given.0 out_view,
      )

  generic-Blocks :
      {xs : List ℕ}
      → Blocks xs ys
      → frame_decode_cobs_generic m encoded (length ys) integrity_crc16 out_view ≡ outcome xs
  unfolding frame_decode_cobs_generic decode_unstuffed frame_decode decode_in_place
  generic-Blocks {xs} b =
      let (held, count) = written-Blocks b in
      let (k, e, le) =
        scan_loop-Blocks b (length ys) m encoded (length ys) 0 0 (omega arith)
          (start-IsScanning m encoded encoded (length ys) 1 ys r) in
      let nonnull : (encoded == 0) ≡ false = ground (arith, r.given) in
      let view : (out_view == 0) ≡ false = ground (arith, wanted) in
      rw (
        decode_required m encoded encoded (length ys) 1 ys r k (omega (arith, le, length-Blocks b))
            e,
        count,
        nonnull,
        view,
      )

  fused-refused :
      (decode_crc16 (length ys) m encoded (length ys) 0 0 0xffff).accepted ≡ false
      → (frame_decode_cobs_crc16 m encoded (length ys) out_view).parsed ≡ refuse Status.cobs_decode
  unfolding frame_decode_cobs_crc16
  fused-refused bad =
      let nonnull : (encoded == 0 || out_view == 0) ≡ false = ground (arith, r.given, wanted) in
      let nonempty : (length ys == 0) ≡ false = ground (arith, r.some_bytes) in
      rw (nonnull, nonempty, bad)

  generic-refused :
      (decode_in_place m encoded (length ys) 1).status ≡ Status.cobs_decode
      → (frame_decode_cobs_generic m encoded (length ys) integrity_crc16 out_view).parsed
        ≡ refuse Status.cobs_decode
  unfolding frame_decode_cobs_generic decode_unstuffed
  generic-refused bad = rw bad

  -- On a buffer of bytes, in number above 0 and below 2^63, with pointers that are not NULL:
  -- either it holds a sequence of COBS blocks, and the single-pass decoder of the stream with
  -- CRC-16 leaves the same answer, view and memory as decoding COBS in place and then parsing the
  -- frame with a comparison of the CRC; or it holds none, and both answer COBS_DECODE and give no
  -- view.
  pub decode_cobs_crc16-generic :
      let f = frame_decode_cobs_crc16 m encoded (length ys) out_view in
      let g = frame_decode_cobs_generic m encoded (length ys) integrity_crc16 out_view in
      ((xs : List ℕ) × Blocks xs ys × (f ≡ g) × (f ≡ outcome xs))
      ⊎ (((xs : List ℕ) → ¬ Blocks xs ys)
          × (f.parsed ≡ refuse Status.cobs_decode)
          × (g.parsed ≡ refuse Status.cobs_decode))
  decode_cobs_crc16-generic = elim (decode_in_place_lem m encoded 1 ys r) [
    | inl (xs, b, _, _) ↦ inl (xs, b, fused-Blocks b ∙ sym (generic-Blocks b), fused-Blocks b)
    | inr (unblocked, refused) ↦
        elim (decode_crc16_answers (length ys) m encoded (length ys) 0 0 0xffff ys (omega arith)
          r.some_bytes r.bytes reading) [
            | inl bad ↦ inr (unblocked, fused-refused bad, generic-refused refused.0)
            | inr (xs, b) ↦ absurd (unblocked xs b)
          ]
  ]
