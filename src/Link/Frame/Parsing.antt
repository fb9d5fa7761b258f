-- ===== src/Link/Frame/Parsing.antt =====
-- `frame_parse` on the bytes that the encoders write for a packet.
use wirelink.Common.{ℕ, ◌+◌, ◌-◌, ◌/◌, ◌%◌, ◌^◌, ◌<◌, ◌≤◌, ◌≡◌, ◌≢◌, ◌⊎◌, arith, ap, ◌∙◌, inl, inr}
use wirelink.Common.{
  List, ◌++◌, append_assoc, length, length-append, false, ◌==◌, not, ◌&&◌, ◌||◌, Bool-cases, ltb,
  if◌then◌else◌, none, some,
}
use wirelink.Common.Memory.{Mem, Holds, Holds-left, Holds-right}
use wirelink.Link.Status.{Status}
use wirelink.Link.Crc.{crc16}
use wirelink.Link.Frame.{Packet, View, frame_header_size, integrity_crc16, max_payload}
use wirelink.Link.Frame.Bytes.{
  u16_be, u32_be, u64_be, read_u16_be, read_u32_be, read_u64_be, read_u16_be-Holds,
  read_u32_be-Holds, read_u64_be-Holds,
}
use wirelink.Link.Frame.Encoder.{frame_write_header, frame_packet_kind, encode_header_len}
use wirelink.Link.Frame.Encoding.{header_of, crc_of, raw_frame, length-header_of}
use wirelink.Link.Frame.Decoder.{bad_integrity, parse_kind, frame_parse}
use wirelink.Link.Frame.Decoding.{crc16-Holds, crc16_bytes_small}

-- A packet that `wl_frame_encode` lets through, its numbers in the range of their types, with the
-- payload `xs`.
pub record IsSound (p : Packet) (xs : List ℕ) : Type 0 where
  pub checked : (n : ℕ) × (frame_header_size p ≡ inr n)
  pub measured : p.payload_len ≡ length xs
  pub message_range : p.message_id < 2 ^ 16
  pub session_range : p.session_id < 2 ^ 64
  pub sequence_range : p.sequence < 2 ^ 32

-- The three kinds of packet.
abbrev Unreliable : Packet → Type 0
Unreliable p = (p.type ≡ 1) × (p.flags ≡ 0) × (p.message_id ≢ 0)

abbrev Reliable : Packet → Type 0
Reliable p = (p.type ≡ 1) × (p.flags ≡ 1) × (p.message_id ≢ 0) × (p.session_id ≢ 0)

abbrev Ack : Packet → Type 0
Ack p = (p.type ≡ 2) × (p.flags ≡ 0) × (p.message_id ≡ 0) × (p.payload_len ≡ 0) × (p.session_id ≢ 0)

kind_cases :
    (p : Packet) (n : ℕ)
    → frame_header_size p ≡ inr n
    → (Unreliable p ⊎ Reliable p ⊎ Ack p) × (p.payload_len ≤ max_payload)
unfolding frame_header_size
kind_cases p n h = ground arith

-- What a header has room for; a short one stands for zeros.
abbrev carried_session : Packet → ℕ
carried_session p = if encode_header_len p == 16 then p.session_id else 0

abbrev carried_sequence : Packet → ℕ
carried_sequence p = if encode_header_len p == 16 then p.sequence else 0

parse_kind-ok :
    (m : Mem) (a k n type flags id session sequence : ℕ)
    → n ≤ max_payload
    → m (a + 1) ≡ 0
    → read_u16_be m (a + 2) ≡ id
    → (if k == 16 then read_u64_be m (a + 4) else 0) ≡ session
    → (if k == 16 then read_u32_be m (a + 12) else 0) ≡ sequence
    → (if type == 1
        then id == 0 || not (flags == 0) && session == 0
        else not (id == 0) || not (n == 0) || session == 0)
      ≡ false
    → bad_integrity m a (k + n) integrity_crc16 none ≡ false
    → parse_kind m a (k + n + 2) integrity_crc16 2 none type flags k ≡ (
      Status.ok,
      some (record {
        type = type;
        flags = flags;
        message_id = id;
        session_id = session;
        sequence = sequence;
        integrity = integrity_crc16;
        payload = a + k;
        payload_len = n;
        integrity_bytes = a + k + n;
        integrity_len = 2;
        total_len = k + n + 2;
      }),
    )
unfolding parse_kind
parse_kind-ok m a k n type flags id session sequence bounded zero_byte e_id e_session e_sequence
      fields intact =
    let rest : k + n + 2 - k - 2 ≡ n = omega arith in
    let covered : k + n + 2 - 2 ≡ k + n = omega arith in
    let fits : ltb (k + n + 2) (k + 2) ≡ false = ground arith in
    let short : ltb max_payload n ≡ false = ground arith in
    rw (fits, rest, covered, short, zero_byte, e_id, e_session, e_sequence, fields, intact)

-- The view of a frame of `p` that starts at `a`.
abbrev pub view_of : Packet → List ℕ → ℕ → View
view_of p xs a =
    let n = encode_header_len p in
    record {
      type = p.type;
      flags = p.flags;
      message_id = p.message_id;
      session_id = if n == 16 then p.session_id else 0;
      sequence = if n == 16 then p.sequence else 0;
      integrity = integrity_crc16;
      payload = a + n;
      payload_len = length xs;
      integrity_bytes = a + n + length xs;
      integrity_len = 2;
      total_len = n + length xs + 2;
    }

module _ (m : Mem) (a : ℕ) (p : Packet) (xs : List ℕ) (given : a ≢ 0)
    (held : Holds m a (raw_frame p xs)) where
  body_held : Holds m a (header_of p ++ xs)
  body_held =
      Holds-left m a (header_of p ++ xs) (u16_be (crc_of p xs))
        (rw (append_assoc (header_of p) xs (u16_be (crc_of p xs))) held)

  trailer_held : Holds m (a + (encode_header_len p + length xs)) (u16_be (crc_of p xs))
  trailer_held =
      Holds-right m a _ (header_of p ++ xs) (u16_be (crc_of p xs))
        (omega (arith, length-header_of p, length-append (header_of p) xs))
        (rw (append_assoc (header_of p) xs (u16_be (crc_of p xs))) held)

  intact : bad_integrity m a (encode_header_len p + length xs) integrity_crc16 none ≡ false
  unfolding bad_integrity
  intact =
      let len : encode_header_len p + length xs ≡ length (header_of p ++ xs) =
        omega (arith, length-header_of p, length-append (header_of p) xs) in
      let crc = ap (crc16 m a) len ∙ crc16-Holds m a (header_of p ++ xs) body_held given in
      let read =
        read_u16_be-Holds m _ (crc_of p xs)
          (crc16_bytes_small 0xffff (header_of p ++ xs) (omega arith)) trailer_held in
      ground (arith, crc, read)

  head_held : Holds m a (header_of p)
  head_held = Holds-left m a (header_of p) _ held

  marker : m a ≡ 0xa4 + frame_packet_kind p
  unfolding frame_write_header
  marker = head_held.0

  reserved : m (a + 1) ≡ 0
  unfolding frame_write_header
  reserved = head_held.1.0

  message_id : p.message_id < 2 ^ 16 → read_u16_be m (a + 2) ≡ p.message_id
  unfolding frame_write_header
  message_id small =
      ap (read_u16_be m) (omega arith)
      ∙ read_u16_be-Holds m (a + 1 + 1) p.message_id small
          (Holds-left m (a + 1 + 1) (u16_be p.message_id) _ head_held.1.1)

  numbers_held :
      encode_header_len p ≡ 16 → Holds m (a + 4) (u64_be p.session_id ++ u32_be p.sequence)
  unfolding frame_write_header
  numbers_held long =
      let at =
        Holds-right m (a + 1 + 1) (a + 4) (u16_be p.message_id) _ (omega arith) head_held.1.1 in
      rw long at at

  session_id :
      encode_header_len p ≡ 16 → p.session_id < 2 ^ 64 → read_u64_be m (a + 4) ≡ p.session_id
  session_id long small =
      read_u64_be-Holds m (a + 4) p.session_id small
        (Holds-left m (a + 4) (u64_be p.session_id) (u32_be p.sequence) (numbers_held long))

  sequence : encode_header_len p ≡ 16 → p.sequence < 2 ^ 32 → read_u32_be m (a + 12) ≡ p.sequence
  sequence long small = read_u32_be-Holds m (a + 12) p.sequence small (
      Holds-right m (a + 4) (a + 12) (u64_be p.session_id) (u32_be p.sequence) (omega arith)
        (numbers_held long))

  -- The frame of a packet whose fields pass the checks is viewed as that packet.
  parse_kind-view :
      IsSound p xs
      → length xs ≤ max_payload
      → (if p.type == 1
          then p.message_id == 0 || not (p.flags == 0) && carried_session p == 0
          else not (p.message_id == 0) || not (length xs == 0) || carried_session p == 0)
        ≡ false
      → parse_kind m a
          (encode_header_len p + length xs + 2)
          integrity_crc16
          2
          none
          p.type
          p.flags
          (encode_header_len p)
        ≡ (Status.ok, some (view_of p xs a))
  parse_kind-view s bounded fields =
      parse_kind-ok m a (encode_header_len p) (length xs) p.type p.flags p.message_id
        (carried_session p) (carried_sequence p) bounded reserved (message_id s.message_range)
        (elim (Bool-cases (encode_header_len p == 16)) [
          | inl t ↦ rw t (session_id (ground arith) s.session_range)
          | inr f ↦ rw f
        ])
        (elim (Bool-cases (encode_header_len p == 16)) [
          | inl t ↦ rw t (sequence (ground arith) s.sequence_range)
          | inr f ↦ rw f
        ])
        fields intact

  abbrev total : ℕ
  total = encode_header_len p + length xs + 2

  -- The first byte selects how the rest is read.
  dispatch :
      (out_view kind type flags k : ℕ)
      → out_view ≢ 0
      → ((kind ≡ 0) × (type ≡ 1) × (flags ≡ 0) × (k ≡ 4))
        ⊎ ((kind ≡ 1) × (type ≡ 1) × (flags ≡ 1) × (k ≡ 16))
        ⊎ ((kind ≡ 2) × (type ≡ 2) × (flags ≡ 0) × (k ≡ 16))
      → frame_packet_kind p ≡ kind
      → frame_parse m a total integrity_crc16 2 none out_view
        ≡ parse_kind m a total integrity_crc16 2 none type flags k
  unfolding frame_parse
  dispatch out_view kind type flags k wanted which e =
      let nonnull : (out_view == 0 || a == 0) ≡ false = ground (arith, wanted, given) in
      let long : ltb total 6 ≡ false = ground arith in
      let mark : m a ≡ 0xa4 + kind = omega (arith, marker, e) in
      let version : m a / 4 % 4 ≡ 1 = omega (arith, mark, which) in
      let prefix : m a / 16 ≡ 0xa = omega (arith, mark, which) in
      let code : m a % 4 ≡ kind = omega (arith, mark, which) in
      elim which [
        | inl w ↦ rw (nonnull, long, prefix, version, code, w.0, w.1, w.2, w.3)
        | inr (inl w) ↦ rw (nonnull, long, prefix, version, code, w.0, w.1, w.2, w.3)
        | inr (inr w) ↦ rw (nonnull, long, prefix, version, code, w.0, w.1, w.2, w.3)
      ]

  pub frame_parse-view :
      IsSound p xs
      → (out_view : ℕ) → out_view ≢ 0
      → frame_parse m a total integrity_crc16 2 none out_view ≡ (Status.ok, some (view_of p xs a))
  unfolding frame_packet_kind
  frame_parse-view s out_view wanted =
      let (kinds, bounded) = kind_cases p (s.checked.0) s.checked.1 in
      let view = parse_kind-view s (omega (arith, bounded, s.measured)) in
      elim kinds [
        | inl u ↦
            dispatch out_view 0 p.type p.flags (encode_header_len p) wanted (ground (arith, u))
              (ground (arith, u))
            ∙ view (ground (arith, u))
        | inr (inl r) ↦
            dispatch out_view 1 p.type p.flags (encode_header_len p) wanted (ground (arith, r))
              (ground (arith, r))
            ∙ view (ground (arith, r))
        | inr (inr k) ↦
            dispatch out_view 2 p.type p.flags (encode_header_len p) wanted (ground (arith, k))
              (ground (arith, k))
            ∙ view (ground (arith, k, s.measured))
      ]
