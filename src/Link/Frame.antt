-- ===== src/Link/Frame.antt =====
-- include/wirelink/frame.h, include/wirelink/profile.h, src/frame.c and src/frame_internal.h: the
-- packet that a frame carries, the sizes of its parts, and the checks on them. The build is the
-- general one (WL_LINK_PROFILE_COBS_CRC16 is 0), in which every valid selector is supported.
-- A type or a selector is an `int32_t`; a negative one is its two's complement, which is larger
-- than every code, so that the same tests refuse it.
pub mod Bytes
pub mod Encoder
pub mod Decoder
pub mod Fused
pub mod Decoding
pub mod Parsing
pub mod RoundTrip
mod Tests
pub mod Size
pub mod Stream
pub mod Encoding
use wirelink.Common.{ℕ, ◌+◌, ◌-◌, ◌/◌, ◌%◌, Bool, true, not, ◌&&◌, ◌||◌}
use wirelink.Common.{◌⊎◌, inl, inr, ltb, leb, ◌==◌, if◌then◌else◌, size_max}
use wirelink.Link.Status.{Status}
use wirelink.Link.Cobs.{encoded_max_size}

-- `wl_packet_type_t`
abbrev pub packet_data : ℕ
packet_data = 1

abbrev pub packet_ack : ℕ
packet_ack = 2

-- `wl_envelope_type_t`
abbrev pub envelope_cobs_stream : ℕ
envelope_cobs_stream = 0

abbrev pub envelope_native_packet : ℕ
envelope_native_packet = 1

abbrev pub envelope_bus_length16 : ℕ
envelope_bus_length16 = 2

-- `wl_integrity_t`
abbrev pub integrity_crc16 : ℕ
integrity_crc16 = 1

abbrev pub integrity_crc32c : ℕ
integrity_crc32c = 2

abbrev pub base_header_size : ℕ
base_header_size = 4

abbrev pub reliable_header_size : ℕ
reliable_header_size = 16

abbrev pub max_payload : ℕ
max_payload = 2048

-- `wl_wire_packet_t`; the payload is an address.
pub record Packet : Type 0 where
  pub type : ℕ
  pub integrity : ℕ
  pub flags : ℕ
  pub message_id : ℕ
  pub session_id : ℕ
  pub sequence : ℕ
  pub payload : ℕ
  pub payload_len : ℕ

-- `wl_frame_view_t`, its two spans as an address and a length each.
pub record View : Type 0 where
  pub type : ℕ
  pub flags : ℕ
  pub message_id : ℕ
  pub session_id : ℕ
  pub sequence : ℕ
  pub integrity : ℕ
  pub payload : ℕ
  pub payload_len : ℕ
  pub integrity_bytes : ℕ
  pub integrity_len : ℕ
  pub total_len : ℕ

-- `flags & WL_PACKET_FLAG_RELIABLE`
abbrev pub is_reliable : ℕ → Bool
is_reliable flags = flags % 2 == 1

-- `flags & ~WL_PACKET_FLAG_RELIABLE`, not 0
abbrev pub has_reserved : ℕ → Bool
has_reserved flags = not (flags / 2 == 0)

abbrev pub profile_envelope_valid : ℕ → Bool
profile_envelope_valid envelope = leb envelope envelope_bus_length16

abbrev pub profile_integrity_valid : ℕ → Bool
profile_integrity_valid integrity = leb integrity integrity_crc32c

abbrev pub profile_supported : ℕ → ℕ → Bool
profile_supported envelope integrity = true

abbrev pub profile_crc_size : ℕ → ℕ
profile_crc_size integrity =
    if integrity == integrity_crc16 then 2 else if integrity == integrity_crc32c then 4 else 0

unfoldable pub packet_header_size : ℕ → ℕ → ℕ
packet_header_size type flags =
    if type == packet_ack && flags == 0
    then reliable_header_size
    else if not (type == packet_data) || has_reserved flags
    then 0
    else if is_reliable flags
    then reliable_header_size
    else base_header_size

-- `frame_header_size`: an error, or the size of the header.
unfoldable pub frame_header_size : Packet → Status ⊎ ℕ
frame_header_size p =
    let sized =
      if ltb max_payload p.payload_len
      then inl Status.payload_too_long
      else inr (packet_header_size p.type p.flags) in
    if p.type == packet_data
    then (if p.message_id == 0 || has_reserved p.flags || is_reliable p.flags && p.session_id == 0
        then inl Status.invalid_arg
        else sized)
    else if p.type == packet_ack
    then (if not (p.message_id == 0)
          || not (p.payload_len == 0)
          || not (p.flags == 0)
          || p.session_id == 0
        then inl Status.invalid_arg
        else sized)
    else inl Status.bad_frame

unfoldable pub frame_overhead : ℕ → ℕ
frame_overhead integrity =
    if not (profile_integrity_valid integrity)
      || not (profile_supported envelope_cobs_stream integrity)
    then 0
    else reliable_header_size + profile_crc_size integrity

unfoldable pub frame_raw_size : ℕ → ℕ → ℕ
frame_raw_size payload_len integrity =
    if not (profile_integrity_valid integrity)
      || not (profile_supported envelope_cobs_stream integrity)
    then 0
    else if ltb (size_max - reliable_header_size - profile_crc_size integrity) payload_len
    then 0
    else reliable_header_size + payload_len + profile_crc_size integrity

unfoldable pub frame_encode_overhead : ℕ → ℕ → ℕ
frame_encode_overhead envelope integrity =
    let raw_size = frame_raw_size 0 integrity in
    if not (profile_envelope_valid envelope)
      || not (profile_integrity_valid integrity)
      || not (profile_supported envelope integrity)
    then 0
    else if raw_size == 0
    then 0
    else if envelope == envelope_cobs_stream
    then encoded_max_size raw_size + 1
    else if envelope == envelope_bus_length16
    then raw_size + 2
    else if envelope == envelope_native_packet
    then raw_size
    else 0
