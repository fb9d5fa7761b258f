-- ===== src/Link/Frame/Tests.antt =====
-- Frames of a small packet.
use wirelink.Common.{ℕ, ◌+◌, ◌<◌, ◌≤◌, ◌≡◌, ◌⊎◌, refl, arith, inr}
use wirelink.Common.{List, [], ◌∷◌, length, All, some}
use wirelink.Common.{get_or, ◌-◌}
use wirelink.Common.Bits.{bits_xor}
use wirelink.Common.Memory.{Mem, Holds, store}
use wirelink.Link.Status.{Status}
use wirelink.Link.Cobs.Format.{Blocks, IsByte, stuffed}
use wirelink.Link.Cobs.Decode
use wirelink.Link.Cobs.Encode.{Refused}
use wirelink.Link.Crc.{crc16_byte}
use wirelink.Link.Frame.{Packet, frame_header_size, packet_header_size}
use wirelink.Link.Frame.Encoder.{
  frame_encode, frame_encode_cobs_crc16, frame_write_header, frame_packet_kind, crc16_bytes,
}
use wirelink.Link.Frame.Encoding.{IsGiven, Framed, wire, frame_encode_cobs_crc16_lem}
use wirelink.Link.Frame.Decoder.{frame_decode_cobs_crc16, frame_decode_cobs_generic, refuse}
use wirelink.Link.Frame.Decoding.{outcome, decode_cobs_crc16-generic}
use wirelink.Link.Frame.Parsing.{IsSound, view_of}
use wirelink.Link.Frame.RoundTrip.{IsCall, decode_cobs_crc16-encode}

-- A telemetry packet with the payload 7, 0, 9 at address 100.
abbrev memory : Mem
memory = store (store (λ x. 0) 100 7) 102 9

abbrev sample : Packet
sample = record {
  type = 1;
  integrity = 1;
  flags = 0;
  message_id = 0x102;
  session_id = 5;
  sequence = 6;
  payload = 100;
  payload_len = 3;
}

-- The output starts at 98, so that the payload overlaps it.
sample-IsGiven : IsGiven memory sample 98 (7 ∷ 0 ∷ 9 ∷ [])
unfolding store
sample-IsGiven = record {
  held = (refl, (refl, (refl, tt)));
  measured = refl;
  bounded = omega arith;
  target = omega arith;
}

sample-IsSound : IsSound sample (7 ∷ 0 ∷ 9 ∷ [])
unfolding frame_header_size packet_header_size
sample-IsSound = record {
  checked = (4, refl);
  measured = refl;
  message_range = omega arith;
  session_range = omega arith;
  sequence_range = omega arith;
}

sample-IsCall : IsCall sample 1
sample-IsCall = record { counted = omega arith; there = inr (omega arith); crc16 = refl }

sample_bytes : All IsByte (7 ∷ 0 ∷ 9 ∷ [])
sample_bytes = (omega arith, (omega arith, (omega arith, tt)))

sample-wire : length (wire sample (7 ∷ 0 ∷ 9 ∷ [])) + 1 ≤ 64
unfolding stuffed crc16_bytes crc16_byte bits_xor frame_write_header frame_packet_kind
sample-wire = omega arith

-- What is on the wire, without the delimiter.
abbrev stream : List ℕ
stream = 2 ∷ 164 ∷ 4 ∷ 1 ∷ 2 ∷ 7 ∷ 4 ∷ 9 ∷ 166 ∷ 135 ∷ []

sample-stream : wire sample (7 ∷ 0 ∷ 9 ∷ []) ≡ stream
unfolding stuffed crc16_bytes crc16_byte bits_xor frame_write_header frame_packet_kind
sample-stream = refl

abbrev at_16 : List ℕ → Mem
at_16 xs a = get_or xs (a - 16) 0

stream-IsReady : Decode.IsReady (at_16 stream) 16 16 1 stream
stream-IsReady = omega arith

frame_encode_cobs_crc16_lem_example :
    let r = frame_encode_cobs_crc16 memory sample 98 64 in
    ((64 < length (wire sample (7 ∷ 0 ∷ 9 ∷ [])) + 1) × Refused memory Status.buf_too_small r)
    ⊎ ((length (wire sample (7 ∷ 0 ∷ 9 ∷ [])) + 1 ≤ 64)
        × Framed memory 98 (wire sample (7 ∷ 0 ∷ 9 ∷ [])) r)
frame_encode_cobs_crc16_lem_example =
    frame_encode_cobs_crc16_lem memory sample 98 64 (7 ∷ 0 ∷ 9 ∷ []) sample-IsGiven

decode_cobs_crc16-generic_example :
    let f = frame_decode_cobs_crc16 (at_16 stream) 16 10 1 in
    let g = frame_decode_cobs_generic (at_16 stream) 16 10 1 1 in
    ((xs : List ℕ) × Blocks xs stream
      × (f ≡ g)
      × (f ≡ outcome (at_16 stream) 16 1 stream stream-IsReady (omega arith) xs))
    ⊎ (((xs : List ℕ) → ¬ Blocks xs stream)
        × (f.parsed ≡ refuse Status.cobs_decode)
        × (g.parsed ≡ refuse Status.cobs_decode))
decode_cobs_crc16-generic_example =
    decode_cobs_crc16-generic (at_16 stream) 16 1 stream stream-IsReady (omega arith)

decode_cobs_crc16-encode_example :
    let n = length (wire sample (7 ∷ 0 ∷ 9 ∷ [])) in
    let e = frame_encode memory sample 0 98 64 1 in
    let d = frame_decode_cobs_crc16 e.mem 98 n 1 in
    (e.status ≡ Status.ok)
    × (e.len ≡ some (n + 1))
    × (e.mem (98 + n) ≡ 0)
    × (d.parsed ≡ (Status.ok, some (view_of sample (7 ∷ 0 ∷ 9 ∷ []) 98)))
    × Holds d.mem (98 + 4) (7 ∷ 0 ∷ 9 ∷ [])
decode_cobs_crc16-encode_example =
    decode_cobs_crc16-encode memory sample 98 64 1 1 (7 ∷ 0 ∷ 9 ∷ []) sample-IsGiven sample-IsSound
      sample-IsCall sample_bytes (omega arith) sample-wire
