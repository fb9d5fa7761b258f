-- ===== src/Link/Frame/RoundTrip.antt =====
-- A packet that `wl_frame_encode` writes into a stream, decoded by `wl_frame_decode_cobs_crc16`.
use wirelink.Common.{ℕ, ◌+◌, ◌≤◌, ◌≡◌, ◌≢◌, ◌⊎◌, refl, arith, ap, ◌∙◌, inl, inr}
use wirelink.Common.{
  List, [], ◌∷◌, ◌++◌, length, All, All-append, Bool-cases, some, false, ◌==◌, not, ◌&&◌,
}
use wirelink.Common.Memory.{Mem, Holds, Holds-left, Holds-right}
use wirelink.Link.Status.{Status}
use wirelink.Link.Cobs.Format.{Blocks, stuffed-Blocks, stuffed-IsByte, IsByte, length-stuffed_lower}
use wirelink.Link.Cobs.{Result}
use wirelink.Link.Cobs.Decode
use wirelink.Link.Frame.{Packet, integrity_crc16, envelope_cobs_stream}
use wirelink.Link.Frame.Bytes.{u16_be, u32_be, u64_be, u16_be-IsByte, u32_be-IsByte, u64_be-IsByte}
use wirelink.Link.Frame.Encoder.{
  frame_encode, frame_encode_cobs_crc16, frame_write_header, frame_packet_kind, encode_header_len,
}
use wirelink.Link.Frame.Encoding.{
  length-raw, upper, IsGiven, Framed, wire, raw_frame, header_of, crc_of, length-header_of,
  frame_encode_cobs_crc16_lem,
}
use wirelink.Link.Frame.Decoder.{frame_decode_cobs_crc16, Decoding, Parsed}
use wirelink.Link.Frame.Decoding.{fused-Blocks, written-Blocks, outcome, written}
use wirelink.Link.Frame.Parsing.{IsSound, view_of, frame_parse-view}

-- What the public call checks beside the packet: an address for the length, a payload that is not
-- NULL, and the integrity of the stream.
pub record IsCall (p : Packet) (out_len : ℕ) : Type 0 where
  pub counted : out_len ≢ 0
  pub there : (p.payload_len ≡ 0) ⊎ (p.payload ≢ 0)
  pub crc16 : p.integrity ≡ integrity_crc16

frame_encode-cobs_crc16 :
    (m : Mem) (p : Packet) (out out_cap out_len : ℕ) (xs : List ℕ)
    → IsSound p xs
    → IsCall p out_len
    → frame_encode m p envelope_cobs_stream out out_cap out_len
      ≡ frame_encode_cobs_crc16 m p out out_cap
unfolding frame_encode
frame_encode-cobs_crc16 m p out out_cap out_len xs s c =
    let counted : (out_len == 0) ≡ false = ground (arith, c.counted) in
    let there : (not (p.payload_len == 0) && p.payload == 0) ≡ false = ground (arith, c.there) in
    rw (counted, there, s.checked.1, c.crc16)

header_of-IsByte : (p : Packet) → All IsByte (header_of p)
unfolding frame_write_header frame_packet_kind
header_of-IsByte p = (
  ground arith,
  (
    omega arith,
    All-append IsByte (u16_be p.message_id) _ (u16_be-IsByte p.message_id)
        (elim (Bool-cases (encode_header_len p == 16)) [
          | inl t ↦ rw t (
              All-append IsByte (u64_be p.session_id) (u32_be p.sequence)
                (u64_be-IsByte p.session_id) (u32_be-IsByte p.sequence))
          | inr f ↦ rw f tt
        ]),
  ),
)

raw_frame-IsByte : (p : Packet) (xs : List ℕ) → All IsByte xs → All IsByte (raw_frame p xs)
raw_frame-IsByte p xs h =
    All-append IsByte (header_of p) _ (header_of-IsByte p)
      (All-append IsByte xs (u16_be (crc_of p xs)) h (u16_be-IsByte (crc_of p xs)))

encode_header_len_small : (p : Packet) → encode_header_len p ≤ 16
encode_header_len_small p = ground arith

abbrev parsed_of : Decoding → Parsed
parsed_of d = d.parsed

abbrev mem_of : Decoding → Mem
mem_of d = d.mem

module _ (m : Mem) (p : Packet) (out cap out_len out_view : ℕ) (xs : List ℕ)
    (g : IsGiven m p out xs) (s : IsSound p xs) (c : IsCall p out_len) (bytes : All IsByte xs)
    (wanted : out_view ≢ 0) (room : length (wire p xs) + 1 ≤ cap) where
  abbrev sent : Result
  sent = frame_encode m p envelope_cobs_stream out cap out_len

  sent-Framed : Framed m out (wire p xs) sent
  sent-Framed =
      rw (frame_encode-cobs_crc16 m p out cap out_len xs s c)
        (elim (frame_encode_cobs_crc16_lem m p out cap xs g) [
          | inl small ↦ absurd (omega (arith, small.0, room))
          | inr done ↦ done.1
        ])

  ready : Decode.IsReady sent.mem out out 1 (wire p xs)
  ready = record {
    held = Holds-left sent.mem out (wire p xs) (0 ∷ []) sent-Framed.2.bytes;
    bytes = stuffed-IsByte [] (raw_frame p xs) (omega arith) tt (raw_frame-IsByte p xs bytes);
    given = (g.target, g.target, omega arith);
    some_bytes = omega (arith, length-stuffed_lower [] (raw_frame p xs));
    small = omega (arith, g.bounded, g.measured, upper m p out cap xs g, encode_header_len_small p);
    apart = inl (omega arith);
  }

  abbrev received : Decoding
  received = frame_decode_cobs_crc16 sent.mem out (length (wire p xs)) out_view

  blocks : Blocks (raw_frame p xs) (wire p xs)
  blocks = stuffed-Blocks [] (raw_frame p xs) (omega arith)

  decoded : received ≡ outcome sent.mem out out_view (wire p xs) ready wanted (raw_frame p xs)
  decoded = fused-Blocks sent.mem out out_view (wire p xs) ready wanted blocks

  decoded-Holds :
      Holds (written sent.mem out out_view (wire p xs) ready wanted).0 out (raw_frame p xs)
  decoded-Holds = (written-Blocks sent.mem out out_view (wire p xs) ready wanted blocks).0

  viewed : outcome sent.mem out out_view (wire p xs) ready wanted (raw_frame p xs) ≡ record {
    parsed = (Status.ok, some (view_of p xs out));
    mem = (written sent.mem out out_view (wire p xs) ready wanted).0;
  }
  viewed =
      let len : length (raw_frame p xs) ≡ encode_header_len p + length xs + 2 =
        omega (arith, length-raw m p out cap xs g, g.measured) in
      let some_bytes : (encode_header_len p + length xs + 2 == 0) ≡ false = ground arith in
      rw (len, some_bytes, frame_parse-view _ out p xs g.target decoded-Holds s out_view wanted)

  kept : Holds received.mem out (raw_frame p xs)
  kept = rw (ap mem_of (decoded ∙ viewed)) decoded-Holds

  -- Given a packet that passes the checks of `wl_frame_encode`, its numbers in the range of their
  -- types, its payload held in memory as bytes, in any overlap with the output; the stream
  -- envelope with CRC-16; pointers that are not NULL; and a capacity for the encoding and the
  -- delimiter: the call answers OK and reports that length, the delimiter 0 follows the encoding,
  -- and the single-pass decoder, in place on the encoding, accepts it, with a view of the same
  -- packet (a short header stands for a session and a sequence of 0) whose payload is the original
  -- one.
  pub decode_cobs_crc16-encode :
      (sent.status ≡ Status.ok)
      × (sent.len ≡ some (length (wire p xs) + 1))
      × (sent.mem (out + length (wire p xs)) ≡ 0)
      × (received.parsed ≡ (Status.ok, some (view_of p xs out)))
      × Holds received.mem (out + encode_header_len p) xs
  decode_cobs_crc16-encode = (
    sent-Framed.0,
    sent-Framed.1,
    (Holds-right sent.mem out (out + length (wire p xs)) (wire p xs) (0 ∷ []) refl
        sent-Framed.2.bytes).0,
    ap parsed_of (decoded ∙ viewed),
    Holds-left received.mem (out + encode_header_len p) xs _ (
        Holds-right received.mem out (out + encode_header_len p) (header_of p)
          (xs ++ u16_be (crc_of p xs)) (omega (arith, length-header_of p)) kept),
  )
