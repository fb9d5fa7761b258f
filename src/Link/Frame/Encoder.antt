-- ===== src/Link/Frame/Encoder.antt =====
-- src/frame.c, src/frame_internal.h and src/frame_cobs_crc16.c: the encoding of a packet. The
-- header and the integrity bytes are private arrays of the functions, so each is a list of the
-- bytes that are used of it; the payload and the output are buffers in one memory and may overlap.
-- Payloads are bounded before anything is encoded, so that no length wraps.
use wirelink.Common.{ℕ, zero, suc, ◌+◌, ◌-◌, ◌/◌, Bool, false, not, ◌&&◌, ◌||◌}
use wirelink.Common.{
  List, [], ◌∷◌, ◌++◌, ◌^◌, inl, inr, none, some, length, ltb, leb, ◌==◌, if◌then◌else◌, u8,
}
use wirelink.Common.Bits.{bits_xor}
use wirelink.Common.Memory.{Mem, store, copy}
use wirelink.Link.Status.{Status}
use wirelink.Link.Cobs.{Result, Encoder, encoded_max_size, encode_byte, encode_loop, close, start}
use wirelink.Link.Crc.{crc16_byte, crc16_update, crc32_byte, crc32_update}
use wirelink.Link.Frame.{
  Packet, packet_ack, is_reliable, frame_header_size, profile_envelope_valid,
  profile_integrity_valid, profile_supported, profile_crc_size, envelope_cobs_stream,
  envelope_bus_length16, integrity_crc16, integrity_crc32c, base_header_size, reliable_header_size,
}
use wirelink.Link.Frame.Bytes.{u16_be, u32_be, u64_be}

unfoldable pub frame_packet_kind : Packet → ℕ
frame_packet_kind p = if p.type == packet_ack then 2 else if is_reliable p.flags then 1 else 0

-- `frame_write_header`: the first `header_len` bytes of `header`. `WL_FRAME_PREFIX` is 0xa4, whose
-- two lower bits are 0.
unfoldable pub frame_write_header : Packet → ℕ → List ℕ
frame_write_header p header_len =
    (0xa4 + frame_packet_kind p)
    ∷ 0
    ∷ (u16_be p.message_id
        ++ (if header_len == reliable_header_size
            then u64_be p.session_id ++ u32_be p.sequence
            else []))

-- The updates of a CRC over a private array.
unfoldable pub crc16_bytes : ℕ → List ℕ → ℕ
crc16_bytes s [] = s
crc16_bytes s (x ∷ xs) = crc16_bytes (crc16_byte s x) xs

unfoldable pub crc32_bytes : ℕ → List ℕ → ℕ
crc32_bytes s [] = s
crc32_bytes s (x ∷ xs) = crc32_bytes (crc32_byte s x) xs

-- `frame_write_integrity`: the bytes of `integrity` that it counts.
unfoldable pub frame_write_integrity : Mem → Packet → ℕ → List ℕ → List ℕ
frame_write_integrity m p kind header =
    if kind == integrity_crc16
    then u16_be (crc16_update (crc16_bytes 0xffff header) m p.payload p.payload_len)
    else if kind == integrity_crc32c
    then u32_be (
        bits_xor 32 (crc32_update (crc32_bytes 0xffffffff header) m p.payload p.payload_len)
          0xffffffff)
    else []

unfoldable pub spans_overlap : ℕ → ℕ → ℕ → ℕ → Bool
spans_overlap left left_len right right_len =
    if left_len == 0 || right_len == 0
    then false
    else if leb left right
    then ltb (right - left) left_len
    else ltb (left - right) right_len

-- `wl_cobs_count_state_t`
pub record Count : Type 0 where
  pub encoded_len : ℕ
  pub code : ℕ

-- One round of the loop of `cobs_count_span`, which adds the byte itself to the length.
unfoldable pub count_byte : Count → ℕ → Count
count_byte s v =
    let code = if v == 0 then 1 else s.code + 1 in
    if code == 0xff
    then record { encoded_len = s.encoded_len + 2; code = 1 }
    else record { encoded_len = s.encoded_len + 1; code = code }

-- `cobs_count_span`, over a private array and over a buffer.
unfoldable pub count_bytes : Count → List ℕ → Count
count_bytes s [] = s
count_bytes s (x ∷ xs) = count_bytes (count_byte s x) xs

unfoldable pub cobs_count_span : Count → Mem → ℕ → ℕ → Count
cobs_count_span s m a zero = s
cobs_count_span s m a (suc n) = cobs_count_span (count_byte s (m a)) m (a + 1) n

unfoldable pub frame_cobs_encoded_size : Mem → List ℕ → ℕ → ℕ → List ℕ → ℕ
frame_cobs_encoded_size m header payload payload_len integrity =
    let s = count_bytes (record { encoded_len = 1; code = 1 }) header in
    (count_bytes (cobs_count_span s m payload payload_len) integrity).encoded_len

-- `cobs_encode_byte` is the round of the loop of `wl_cobs_encode`, statement by statement.
abbrev pub cobs_encode_byte : ℕ → Encoder → ℕ → Encoder
cobs_encode_byte = encode_byte

-- `cobs_encode_span`, over a private array and over a buffer.
unfoldable pub encode_bytes : ℕ → Encoder → List ℕ → Encoder
encode_bytes out s [] = s
encode_bytes out s (x ∷ xs) = encode_bytes out (cobs_encode_byte out s x) xs

abbrev pub cobs_encode_span : ℕ → ℕ → ℕ → Encoder → Encoder
cobs_encode_span = encode_loop

-- `frame_cobs_encode`: the memory and the number of bytes.
unfoldable pub frame_cobs_encode : Mem → List ℕ → ℕ → ℕ → List ℕ → ℕ → Mem × ℕ
frame_cobs_encode m header payload payload_len integrity out =
    let body = cobs_encode_span out payload payload_len (encode_bytes out (start m) header) in
    let s = encode_bytes out body integrity in (close out s, s.write_index)

-- A `memcpy` from a private array.
unfoldable pub put : Mem → ℕ → List ℕ → Mem
put m a [] = m
put m a (x ∷ xs) = put (store m a x) (a + 1) xs

-- `frame_write_raw`; the two copies of a header are one of all its bytes.
unfoldable pub frame_write_raw : Mem → List ℕ → Packet → List ℕ → ℕ → Mem
frame_write_raw m header p integrity out =
    let moved =
      if p.payload_len == 0 then m else copy m (out + length header) p.payload p.payload_len in
    put (put moved out header) (out + length header + p.payload_len) integrity

abbrev pub failed : Mem → Status → Result
failed m status = record { status = status; mem = m; len = none }

-- The end of the stream envelope of `wl_frame_encode_bounded`: a payload that overlaps the output
-- is moved to its offset in the raw frame, `lead` bytes behind the output's start.
unfoldable pub encode_staged : Mem → Packet → List ℕ → List ℕ → ℕ → Bool → ℕ → Result
encode_staged m p header integrity lead overlap out =
    let staged = out + lead + length header in
    let payload = if overlap then staged else p.payload in
    let m' = if overlap then copy m staged p.payload p.payload_len else m in
    let r = frame_cobs_encode m' header payload p.payload_len integrity out in
    record { status = Status.ok; mem = store r.0 (out + r.1) 0; len = some (r.1 + 1) }

-- The stream envelope of `wl_frame_encode_bounded`; the failures leave `*out_len` alone.
unfoldable pub encode_bounded_stream : Mem → Packet → ℕ → List ℕ → ℕ → ℕ → ℕ → Result
encode_bounded_stream m p kind header raw_len out out_cap =
    let integrity = frame_write_integrity m p kind header in
    let max_len = encoded_max_size raw_len in
    let overlap = spans_overlap p.payload p.payload_len out max_len in
    let cobs_len =
      if ltb out_cap (max_len + 1) || overlap
      then frame_cobs_encoded_size m header p.payload p.payload_len integrity
      else max_len in
    if ltb out_cap (cobs_len + 1)
    then failed m Status.buf_too_small
    else if out == 0
    then failed m Status.invalid_arg
    else encode_staged m p header integrity (cobs_len - raw_len) overlap out

-- `wl_frame_encode_bounded`
unfoldable pub frame_encode_bounded : Mem → Packet → ℕ → ℕ → List ℕ → ℕ → ℕ → ℕ → Result
frame_encode_bounded m p envelope kind header raw_len out out_cap =
    let integrity = frame_write_integrity m p kind header in
    if envelope == envelope_cobs_stream
    then encode_bounded_stream m p kind header raw_len out out_cap
    else if envelope == envelope_bus_length16
    then (if ltb 0xffff raw_len
        then failed m Status.frame_too_long
        else if ltb out_cap (raw_len + 2)
        then failed m Status.buf_too_small
        else if out == 0
        then failed m Status.invalid_arg
        else record {
          status = Status.ok;
          mem = put (frame_write_raw m header p integrity (out + 2)) out (u16_be raw_len);
          len = some (raw_len + 2);
        })
    else if ltb out_cap raw_len
    then failed m Status.buf_too_small
    else if out == 0
    then failed m Status.invalid_arg
    else record {
      status = Status.ok;
      mem = frame_write_raw m header p integrity out;
      len = some raw_len;
    }

-- `*out_len = 0U` before a call that may leave it alone.
abbrev pub reset_len : Result → Result
reset_len r = elim r.len [ none ↦ record r { len = some 0 } | some n ↦ r ]

-- The `header_len` of both encoders.
abbrev pub encode_header_len : Packet → ℕ
encode_header_len p =
    if p.type == packet_ack || not (p.flags == 0) then reliable_header_size else base_header_size

-- `wl_frame_encode_generic`
unfoldable pub frame_encode_generic : Mem → Packet → ℕ → ℕ → ℕ → ℕ → Result
frame_encode_generic m p envelope integrity out out_cap =
    let header_len = encode_header_len p in
    reset_len (
      frame_encode_bounded m p envelope integrity (frame_write_header p header_len)
        (header_len + p.payload_len + profile_crc_size integrity) out out_cap)

-- `cobs_crc16_encode_span`, with `crc` beside the encoder.
unfoldable pub crc16_encode_bytes : ℕ → Encoder → List ℕ → ℕ → Encoder × ℕ
crc16_encode_bytes out s [] crc = (s, crc)
crc16_encode_bytes out s (x ∷ xs) crc =
    crc16_encode_bytes out (cobs_encode_byte out s x) xs (crc16_byte crc x)

unfoldable pub cobs_crc16_encode_span : ℕ → ℕ → ℕ → Encoder → ℕ → Encoder × ℕ
cobs_crc16_encode_span out a zero s crc = (s, crc)
cobs_crc16_encode_span out a (suc n) s crc =
    cobs_crc16_encode_span out (a + 1) n (cobs_encode_byte out s (s.mem a))
      (crc16_byte crc (s.mem a))

-- The single pass of `wl_frame_encode_cobs_crc16`.
unfoldable pub encode_fused : Mem → Packet → List ℕ → ℕ → Result
encode_fused m p header out =
    let h = crc16_encode_bytes out (start m) header 0xffff in
    let b = cobs_crc16_encode_span out p.payload p.payload_len h.0 h.1 in
    let s = cobs_encode_byte out (cobs_encode_byte out b.0 (u8 (b.1 / 2 ^ 8))) (u8 b.1) in
    record {
      status = Status.ok;
      mem = store (close out s) (out + s.write_index) 0;
      len = some (s.write_index + 1);
    }

-- The `worst` of `wl_frame_encode_cobs_crc16`.
abbrev pub worst_len : ℕ → ℕ
worst_len raw_len = raw_len + raw_len / 254 + 2

-- `wl_frame_encode_cobs_crc16`
unfoldable pub frame_encode_cobs_crc16 : Mem → Packet → ℕ → ℕ → Result
frame_encode_cobs_crc16 m p out out_cap =
    let header_len = encode_header_len p in
    let raw_len = header_len + p.payload_len + 2 in
    let worst = worst_len raw_len in
    let header = frame_write_header p header_len in
    if ltb out_cap worst || spans_overlap p.payload p.payload_len out (worst - 1)
    then reset_len (encode_bounded_stream m p integrity_crc16 header raw_len out out_cap)
    else if out == 0
    then record { status = Status.invalid_arg; mem = m; len = some 0 }
    else encode_fused m p header out

-- `wl_frame_encode`, given a packet; `out_len` is the address of a cell of its own.
unfoldable pub frame_encode : Mem → Packet → ℕ → ℕ → ℕ → ℕ → Result
frame_encode m p envelope out out_cap out_len =
    if out_len == 0
    then failed m Status.invalid_arg
    else if not (p.payload_len == 0) && p.payload == 0
        || not (profile_envelope_valid envelope)
        || not (profile_integrity_valid p.integrity)
    then record { status = Status.invalid_arg; mem = m; len = some 0 }
    else elim (frame_header_size p) [
      | inl e ↦ record { status = e; mem = m; len = some 0 }
      | inr header_len ↦
          if not (profile_supported envelope p.integrity)
          then record { status = Status.not_supported; mem = m; len = some 0 }
          else if envelope == envelope_cobs_stream && p.integrity == integrity_crc16
          then frame_encode_cobs_crc16 m p out out_cap
          else frame_encode_generic m p envelope p.integrity out out_cap
    ]
