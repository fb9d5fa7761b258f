-- ===== src/Link/Frame/Decoder.antt =====
-- src/frame_internal.h, src/frame.c and src/frame_cobs_crc16.c: the decoding of a frame. A view is
-- returned instead of being written to `*out_view`; `out_view` itself is only compared with NULL.
use wirelink.Common.{ℕ, zero, suc, ◌+◌, ◌-◌, ◌/◌, ◌%◌, Bool, true, false, not, ◌&&◌, ◌||◌}
use wirelink.Common.{Option, none, some, ltb, leb, ◌==◌, if◌then◌else◌}
use wirelink.Common.Memory.{Mem, store}
use wirelink.Link.Status.{Status}
use wirelink.Link.Cobs.{decode_in_place}
use wirelink.Link.Crc.{crc16_byte, crc16, crc32}
use wirelink.Link.Frame.{
  View, packet_data, packet_ack, profile_integrity_valid, profile_supported, profile_crc_size,
  envelope_cobs_stream, integrity_crc16, integrity_crc32c, base_header_size, reliable_header_size,
  max_payload, is_reliable, has_reserved,
}
use wirelink.Link.Frame.Bytes.{read_u16_be, read_u32_be, read_u64_be}

abbrev pub Parsed : Type 0
Parsed = Status × Option View

abbrev pub refuse : Status → Parsed
refuse s = (s, none)

-- The test of the integrity bytes, true where they are wrong.
unfoldable pub bad_integrity : Mem → ℕ → ℕ → ℕ → Option ℕ → Bool
bad_integrity m input covered integrity cobs_crc =
    if integrity == integrity_crc16
    then elim cobs_crc [
      | some crc ↦ not (crc == 0)
      | none ↦ not (read_u16_be m (input + covered) == crc16 m input covered)
    ]
    else if integrity == integrity_crc32c
    then not (read_u32_be m (input + covered) == crc32 m input covered)
    else false

-- `frame_parse` from its second length test on, with what the `switch` on the kind has set.
unfoldable pub parse_kind : Mem → ℕ → ℕ → ℕ → ℕ → Option ℕ → ℕ → ℕ → ℕ → Parsed
parse_kind m input in_len integrity crc_len cobs_crc packet_type flags header_len =
    let payload_len = in_len - header_len - crc_len in
    let message_id = read_u16_be m (input + 2) in
    let long = header_len == reliable_header_size in
    let session_id = if long then read_u64_be m (input + 4) else 0 in
    let sequence = if long then read_u32_be m (input + 12) else 0 in
    let bad_fields =
      if packet_type == packet_data
      then message_id == 0 || not (flags == 0) && session_id == 0
      else not (message_id == 0) || not (payload_len == 0) || session_id == 0 in
    if ltb in_len (header_len + crc_len)
    then refuse Status.bad_frame
    else if ltb max_payload payload_len
    then refuse Status.frame_too_long
    else if not (m (input + 1) == 0)
    then refuse Status.bad_frame
    else if bad_fields
    then refuse Status.bad_frame
    else if bad_integrity m input (in_len - crc_len) integrity cobs_crc
    then refuse Status.crc
    else (
      Status.ok,
      some (record {
        type = packet_type;
        flags = flags;
        message_id = message_id;
        session_id = session_id;
        sequence = sequence;
        integrity = integrity;
        payload = input + header_len;
        payload_len = payload_len;
        integrity_bytes = if crc_len == 0 then 0 else input + header_len + payload_len;
        integrity_len = crc_len;
        total_len = in_len;
      }),
    )

-- `frame_parse`
unfoldable pub frame_parse : Mem → ℕ → ℕ → ℕ → ℕ → Option ℕ → ℕ → Parsed
frame_parse m input in_len integrity crc_len cobs_crc out_view =
    let kind = m input % 4 in
    let parse = parse_kind m input in_len integrity crc_len cobs_crc in
    if out_view == 0 || input == 0
    then refuse Status.invalid_arg
    else if ltb in_len (base_header_size + crc_len)
    then refuse Status.bad_frame
    else if not (m input / 16 == 0xa)
    then refuse Status.bad_frame
    else if not (m input / 4 % 4 == 1)
    then refuse Status.protocol_version
    else if kind == 0
    then parse packet_data 0 base_header_size
    else if kind == 1
    then parse packet_data 1 reliable_header_size
    else if kind == 2
    then parse packet_ack 0 reliable_header_size
    else refuse Status.not_supported

-- `wl_frame_decode`
unfoldable pub frame_decode : Mem → ℕ → ℕ → ℕ → ℕ → Parsed
frame_decode m input in_len integrity out_view =
    if out_view == 0 || input == 0 || not (profile_integrity_valid integrity)
    then refuse Status.invalid_arg
    else if not (profile_supported envelope_cobs_stream integrity)
    then refuse Status.not_supported
    else frame_parse m input in_len integrity (profile_crc_size integrity) none out_view

-- What a decoder in place leaves: what it parsed, and the memory.
pub record Decoding : Type 0 where
  pub parsed : Parsed
  pub mem : Mem

-- `wl_frame_decode_cobs_generic` behind its call, with what that returned, wrote to `decoded_len`
-- and left in memory.
unfoldable pub decode_unstuffed : Status → Option ℕ → Mem → ℕ → ℕ → ℕ → Decoding
decode_unstuffed Status.ok (some len) m encoded integrity out_view =
    if len == 0
    then record { parsed = refuse Status.invalid_arg; mem = m }
    else record { parsed = frame_decode m encoded len integrity out_view; mem = m }
decode_unstuffed e len m encoded integrity out_view = record { parsed = refuse e; mem = m }

-- `wl_frame_decode_cobs_generic`; the address of its local `decoded_len` is not NULL.
unfoldable pub frame_decode_cobs_generic : Mem → ℕ → ℕ → ℕ → ℕ → Decoding
frame_decode_cobs_generic m encoded n integrity out_view =
    let r = decode_in_place m encoded n 1 in
    decode_unstuffed r.status r.len r.mem encoded integrity out_view

-- The inner loop of `wl_frame_decode_cobs_crc16`, with `k` rounds left.
unfoldable pub copy_crc16 : ℕ → Mem → ℕ → ℕ → ℕ → Mem × ℕ
copy_crc16 zero m from to crc = (m, crc)
copy_crc16 (suc k) m from to crc =
    copy_crc16 k (store m to (m from)) (from + 1) (to + 1) (crc16_byte crc (m from))

-- Where the outer loop stops: at the end, or at a code that is refused.
pub record Decoded : Type 0 where
  pub accepted : Bool
  pub mem : Mem
  pub write : ℕ
  pub crc : ℕ

-- The outer loop. Each round reads one byte at least, so the length of the buffer is fuel enough.
unfoldable pub decode_crc16 : ℕ → Mem → ℕ → ℕ → ℕ → ℕ → ℕ → Decoded
decode_crc16 zero m encoded n read write crc = record {
  accepted = true;
  mem = m;
  write = write;
  crc = crc;
}
decode_crc16 (suc fuel) m encoded n read write crc =
    let code = m (encoded + read) in
    let count = code - 1 in
    let after = read + 1 + count in
    let c = copy_crc16 count m (encoded + read + 1) (encoded + write) crc in
    let write' = write + count in
    let with_zero =
      decode_crc16 fuel (store c.0 (encoded + write') 0) encoded n after (write' + 1)
        (crc16_byte c.1 0) in
    let without = decode_crc16 fuel c.0 encoded n after write' c.1 in
    if leb n read
    then record { accepted = true; mem = m; write = write; crc = crc }
    else if code == 0 || ltb (n - (read + 1)) count
    then record { accepted = false; mem = m; write = write; crc = crc }
    else if not (code == 0xff) && ltb after n
    then with_zero
    else without

-- `wl_frame_decode_cobs_crc16`
unfoldable pub frame_decode_cobs_crc16 : Mem → ℕ → ℕ → ℕ → Decoding
frame_decode_cobs_crc16 m encoded n out_view =
    let d = decode_crc16 n m encoded n 0 0 0xffff in
    if encoded == 0 || out_view == 0
    then record { parsed = refuse Status.invalid_arg; mem = m }
    else if n == 0
    then record { parsed = refuse Status.cobs_decode; mem = m }
    else if not d.accepted
    then record { parsed = refuse Status.cobs_decode; mem = d.mem }
    else if d.write == 0
    then record { parsed = refuse Status.invalid_arg; mem = d.mem }
    else record {
      parsed = frame_parse d.mem encoded d.write integrity_crc16 2 (some d.crc) out_view;
      mem = d.mem;
    }

-- `wl_frame_header_t`
pub record Header : Type 0 where
  pub marker_version_kind : ℕ
  pub reserved : ℕ
  pub version : ℕ
  pub header_length : ℕ
  pub packet_type : ℕ
  pub flags : ℕ
  pub session_id : ℕ
  pub sequence : ℕ
  pub message_id : ℕ
  pub payload_length : ℕ

-- `wl_frame_validate_header`; `none` is the NULL pointer.
unfoldable pub frame_validate_header : Option Header → Status
frame_validate_header none = Status.invalid_arg
frame_validate_header (some h) =
    if not (h.marker_version_kind / 16 == 0xa) || not (h.reserved == 0)
    then Status.bad_frame
    else if not (h.version == 1)
    then Status.protocol_version
    else if ltb max_payload h.payload_length
    then Status.frame_too_long
    else if h.packet_type == packet_data
    then (if h.message_id == 0
        then Status.bad_frame
        else if has_reserved h.flags
        then Status.bad_frame
        else if is_reliable h.flags
        then (if not (h.header_length == reliable_header_size) || h.session_id == 0
            then Status.bad_frame
            else Status.ok)
        else if not (h.header_length == base_header_size)
            || not (h.session_id == 0)
            || not (h.sequence == 0)
        then Status.bad_frame
        else Status.ok)
    else if h.packet_type == packet_ack
    then (if not (h.message_id == 0)
          || not (h.payload_length == 0)
          || not (h.flags == 0)
          || not (h.header_length == reliable_header_size)
          || h.session_id == 0
        then Status.bad_frame
        else Status.ok)
    else Status.not_supported
