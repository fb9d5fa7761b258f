-- ===== src/Link/Frame/Encoding.antt =====
-- The whole of `wl_frame_encode_cobs_crc16`: the path that fuses the CRC into the encoder, and the
-- one for buffers that overlap or fit exactly.
use wirelink.Common.{
  ℕ, ◌+◌, ◌-◌, ◌/◌, ◌<◌, ◌≤◌, ◌≡◌, ◌≢◌, ◌⊎◌, refl, arith, ap, sym, ◌∙◌, inl, inr, some,
}
use wirelink.Common.{
  List, [], ◌∷◌, ◌++◌, length, length-append, Bool, true, false, ltb, ◌==◌, if◌then◌else◌, ◌||◌,
  Bool-cases,
}
use native.Mathlib.Decide.{dec_lt}
use wirelink.Common.Memory.{
  Mem, Holds, IsWritten, IsWritten-append, store, store-IsWritten, copy, copy-Holds, copy-Outside,
}
use wirelink.Link.Status.{Status}
use wirelink.Link.Cobs.{Result, encoded_max_size}
use wirelink.Link.Cobs.Format.{stuffed, length-stuffed_lower, length-stuffed_upper}
use wirelink.Link.Cobs.Encode.{Refused}
use wirelink.Link.Cobs.Spans.{Leads}
use wirelink.Link.Frame.{Packet, max_payload, integrity_crc16}
use wirelink.Link.Crc.{crc16_update}
use wirelink.Link.Frame.Bytes.{u16_be}
use wirelink.Link.Frame.Encoder.{
  crc16_bytes, encode_header_len, frame_write_header, frame_encode_cobs_crc16, frame_cobs_encode,
  frame_cobs_encoded_size, frame_write_integrity, spans_overlap, encode_bounded_stream,
  encode_fused, encode_staged, worst_len, failed, encode_bytes, reset_len,
}
use wirelink.Link.Frame.Size.{frame_cobs_encoded_size_lem, spans_overlap-apart}
use wirelink.Link.Frame.Stream.{done-IsWritten, crc16_spans, crc16_update-Holds, crc16_bytes-append}

abbrev pub header_of : Packet → List ℕ
header_of p = frame_write_header p (encode_header_len p)

-- The CRC of a packet with the payload `xs`, and the bytes that a frame of it has.
abbrev pub crc_of : Packet → List ℕ → ℕ
crc_of p xs = crc16_bytes 0xffff (header_of p ++ xs)

abbrev pub raw_frame : Packet → List ℕ → List ℕ
raw_frame p xs = header_of p ++ (xs ++ u16_be (crc_of p xs))

abbrev pub wire : Packet → List ℕ → List ℕ
wire p xs = stuffed [] (raw_frame p xs)

-- What the encoder has to find: the payload, of a length that a packet may have, and an output.
-- They may overlap in any way.
pub record IsGiven (m : Mem) (p : Packet) (out : ℕ) (xs : List ℕ) : Type 0 where
  pub held : Holds m p.payload xs
  pub measured : p.payload_len ≡ length xs
  pub bounded : length xs ≤ max_payload
  pub target : out ≢ 0

-- The answer: the encoding and the delimiter, with all other memory as it was.
abbrev pub Framed : Mem → ℕ → List ℕ → Result → Type 0
Framed m out ys r =
    (r.status ≡ Status.ok) × (r.len ≡ some (length ys + 1)) × IsWritten out (ys ++ (0 ∷ [])) m r.mem

pub length-header_of : (p : Packet) → length (header_of p) ≡ encode_header_len p
unfolding frame_write_header
length-header_of p = ground arith

delimit :
    (m m' : Mem) (out n : ℕ) (ys : List ℕ)
    → n ≡ length ys
    → IsWritten out ys m m'
    → IsWritten out (ys ++ (0 ∷ [])) m (store m' (out + n) 0)
delimit m m' out n ys e w =
    IsWritten-append out (out + n) ys (0 ∷ []) m m' _ (omega arith) w
      (store-IsWritten m' (out + n) 0)

-- A length that was written stays.
reset_len-Framed :
    (m : Mem) (out : ℕ) (ys : List ℕ) (r : Result)
    → Framed m out ys r
    → Framed m out ys (reset_len r)
reset_len-Framed m out ys r (status, len, w) = rw len (status, refl, w)

module _ (m : Mem) (p : Packet) (out cap : ℕ) (xs : List ℕ) (g : IsGiven m p out xs) where
  abbrev pub raw_len : ℕ
  raw_len = encode_header_len p + p.payload_len + 2

  pub length-raw : length (raw_frame p xs) ≡ raw_len
  length-raw = omega (
    arith,
    length-header_of p,
    g.measured,
    length-append (header_of p) (xs ++ u16_be (crc_of p xs)),
    length-append xs (u16_be (crc_of p xs)),
  )

  pub upper : length (wire p xs) ≤ raw_len + raw_len / 254 + 1
  upper = omega (arith, length-stuffed_upper [] (raw_frame p xs), length-raw)

  lower : raw_len + 1 ≤ length (wire p xs)
  lower = omega (arith, length-stuffed_lower [] (raw_frame p xs), length-raw)

  integrity : frame_write_integrity m p integrity_crc16 (header_of p) ≡ u16_be (crc_of p xs)
  unfolding frame_write_integrity
  integrity = ap u16_be (
      ap (crc16_update (crc16_bytes 0xffff (header_of p)) m p.payload) g.measured
      ∙ crc16_update-Holds m p.payload _ xs g.held
      ∙ sym (crc16_bytes-append 0xffff (header_of p) xs))

  -- The single pass, on a payload that lies apart from the output or is empty.
  fused_pass :
      (p.payload_len ≡ 0)
        ⊎ (p.payload + p.payload_len ≤ out)
        ⊎ (out + (raw_len + raw_len / 254 + 1) ≤ p.payload)
      → Framed m out (wire p xs) (encode_fused m p (header_of p) out)
  unfolding encode_fused encode_bytes
  fused_pass apart =
      let leads : Leads out p.payload (length xs) 2 (length (wire p xs)) =
        omega (arith, apart, g.measured, upper) in
      let trailer = u16_be (crc_of p xs) in
      let (w, len) = done-IsWritten m out p.payload (header_of p) xs trailer g.held leads in
      let spans = crc16_spans m out p.payload (header_of p) xs trailer g.held leads in
      simp (g.measured, spans) (refl, ap some (omega (arith, len)), delimit m _ out _ _ len w)

  -- The passes of the other path, on a payload that lies apart, and on one that was moved.
  apart_pass :
      (lead : ℕ)
      → spans_overlap p.payload p.payload_len out (raw_len + raw_len / 254 + 1) ≡ false
      → Framed m out
          (wire p xs)
          (encode_staged m p (header_of p) (u16_be (crc_of p xs)) lead false out)
  unfolding encode_staged frame_cobs_encode
  apart_pass lead h =
      let apart = spans_overlap-apart p.payload p.payload_len out (raw_len + raw_len / 254 + 1) h in
      let (w, len) =
        done-IsWritten m out p.payload (header_of p) xs (u16_be (crc_of p xs)) g.held
          (omega (arith, apart, g.measured, upper)) in
      simp (g.measured) (refl, ap some (omega (arith, len)), delimit m _ out _ _ len w)

  staged_pass :
      (lead : ℕ)
      → raw_len + lead ≡ length (wire p xs)
      → Framed m out
          (wire p xs)
          (encode_staged m p (header_of p) (u16_be (crc_of p xs)) lead true out)
  unfolding encode_staged frame_cobs_encode
  staged_pass lead e =
      let staged = out + lead + length (header_of p) in
      let header = length-header_of p in
      let m' = copy m staged p.payload (length xs) in
      let (w, len) =
        done-IsWritten m' out staged (header_of p) xs (u16_be (crc_of p xs))
          (copy-Holds m staged p.payload xs g.held) (omega (arith, e, lower, header, g.measured)) in
      let moved : IsWritten out (wire p xs) m _ = record {
        bytes = w.bytes;
        outside = λ x h.
            w.outside x h
            ∙ copy-Outside m staged p.payload (length xs) x
                (omega (arith, h, e, lower, header, g.measured));
      } in
      simp (g.measured) (refl, ap some (omega (arith, len)), delimit m _ out _ _ len moved)

  abbrev too_tight : Bool
  too_tight =
      ltb cap (worst_len raw_len)
      || spans_overlap p.payload p.payload_len out (worst_len raw_len - 1)

  max_size : encoded_max_size raw_len ≡ raw_len + raw_len / 254 + 1
  unfolding encoded_max_size
  max_size = ground (arith, g.measured, g.bounded)

  size_counted :
      frame_cobs_encoded_size m (header_of p) p.payload p.payload_len (u16_be (crc_of p xs))
      ≡ length (wire p xs)
  size_counted =
      ap (λ n. frame_cobs_encoded_size m (header_of p) p.payload n (u16_be (crc_of p xs)))
        g.measured
      ∙ frame_cobs_encoded_size_lem m p.payload (header_of p) xs (u16_be (crc_of p xs)) g.held

  abbrev overlap : Bool
  overlap = spans_overlap p.payload p.payload_len out (raw_len + raw_len / 254 + 1)

  -- Past its tests the other path has counted the encoding exactly.
  bounded_body :
      too_tight ≡ true
      → encode_bounded_stream m p integrity_crc16 (header_of p) raw_len out cap ≡ (
          if ltb cap (length (wire p xs) + 1)
          then failed m Status.buf_too_small
          else encode_staged m p
              (header_of p)
              (u16_be (crc_of p xs))
              (length (wire p xs) - raw_len)
              overlap
              out)
  unfolding encode_bounded_stream
  bounded_body h =
      let tight : (ltb cap (raw_len + raw_len / 254 + 1 + 1) || overlap) ≡ true =
        ap (λ w. ltb cap w || overlap) (omega arith)
        ∙ ap (λ v. ltb cap (worst_len raw_len) || spans_overlap p.payload p.payload_len out v)
            (omega arith)
        ∙ h in
      let given : (out == 0) ≡ false = ground (arith, g.target) in
      rw (max_size, integrity, tight, size_counted, given)

  staged_lead : raw_len + (length (wire p xs) - raw_len) ≡ length (wire p xs)
  staged_lead = omega (arith, lower)

  bounded_pass : Framed m out (wire p xs) (
      encode_staged m p
        (header_of p)
        (u16_be (crc_of p xs))
        (length (wire p xs) - raw_len)
        overlap
        out)
  bounded_pass = elim (Bool-cases overlap) [
    | inl t ↦ rw t (staged_pass (length (wire p xs) - raw_len) staged_lead)
    | inr f ↦ rw f (apart_pass (length (wire p xs) - raw_len) f)
  ]

  -- The two tests of the room agree: the bound that the first path asks for is enough.
  direct_room : too_tight ≡ false → length (wire p xs) + 1 ≤ cap
  direct_room h = ground (arith, upper)

  direct_body :
      too_tight ≡ false → frame_encode_cobs_crc16 m p out cap ≡ encode_fused m p (header_of p) out
  unfolding frame_encode_cobs_crc16
  direct_body h = let given : (out == 0) ≡ false = ground (arith, g.target) in rw (h, given)

  bounded_path :
      too_tight ≡ true
      → frame_encode_cobs_crc16 m p out cap
        ≡ reset_len (encode_bounded_stream m p integrity_crc16 (header_of p) raw_len out cap)
  unfolding frame_encode_cobs_crc16
  bounded_path h = rw h

  -- Given a payload of at most 2048 bytes in memory, overlapping the output in any way, and an
  -- output that is not NULL: either the capacity is less than the COBS encoding of header, payload
  -- and CRC-16 and one byte more, and the call answers BUF_TOO_SMALL, reports the length 0 and
  -- leaves memory as it was; or it answers OK, reports that length, writes that encoding of the
  -- original payload and the delimiter 0 at the output, and leaves all other memory as it was.
  pub frame_encode_cobs_crc16_lem :
      let r = frame_encode_cobs_crc16 m p out cap in
      ((cap < length (wire p xs) + 1) × Refused m Status.buf_too_small r)
      ⊎ ((length (wire p xs) + 1 ≤ cap) × Framed m out (wire p xs) r)
  frame_encode_cobs_crc16_lem = elim (Bool-cases too_tight) [
    | inr f ↦ inr (
      direct_room f,
      rw (direct_body f) (
          fused_pass (
            let a =
              spans_overlap-apart p.payload p.payload_len out (worst_len raw_len - 1)
                (ground arith) in
            omega (arith, a))),
    )
    | inl t ↦ elim (dec_lt cap (length (wire p xs) + 1)) [
      | yes lt ↦
          let small : ltb cap (length (wire p xs) + 1) ≡ true = ground arith in
          inl (lt, rw (bounded_path t, bounded_body t, small) (refl, refl, refl))
      | no ge ↦
          let room : ltb cap (length (wire p xs) + 1) ≡ false = ground arith in
          inr (
            omega arith,
            rw (bounded_path t, bounded_body t, room)
                (reset_len-Framed m out (wire p xs) _ bounded_pass),
          )
    ]
  ]
