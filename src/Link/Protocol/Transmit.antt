-- ===== src/Link/Protocol/Transmit.antt =====
-- src/protocol.c and src/link_frame.h: how DATA and ACK units are encoded and handed to the sink.
use wirelink.Common.{ℕ, ◌+◌, ◌*◌, ◌^◌, Bool, true, false, not, ◌&&◌, ◌||◌}
use wirelink.Common.{Option, none, some, ltb, ◌==◌, if◌then◌else◌, u16}
use wirelink.Common.Memory.{copy}
use wirelink.Link.Status.{Status, is_ok}
use wirelink.Link.Cobs
use wirelink.Link.Frame.{
  Packet, View, packet_data, packet_ack, envelope_cobs_stream, integrity_crc16,
}
use wirelink.Link.Frame.Encoder.{frame_encode_generic, frame_encode_cobs_crc16}
use wirelink.Link.Protocol.{
  Link, Outcome, Sink, data_busy, complete_unreliable_tx, state_idle, state_sending,
  state_waiting_ack, wait_none, wait_ack, sink_sent, sink_started, sink_busy,
}

-- `wl_link_encode`
unfoldable pub link_encode : Link → Packet → ℕ → ℕ → Cobs.Result
link_encode s p out cap =
    if not (s.config.envelope == envelope_cobs_stream)
      || not (s.config.integrity == integrity_crc16)
    then frame_encode_generic s.mem p s.config.envelope s.config.integrity out cap
    else frame_encode_cobs_crc16 s.mem p out cap

-- The length that an encoder reports; it always reports one.
abbrev pub encoded : Cobs.Result → ℕ
encoded r = elim r.len [ none ↦ 0 | some n ↦ n ]

-- The next `tx_token`.
abbrev pub next_io_token : ℕ → ℕ
next_io_token t = if t == 0xffffffff then 1 else t + 1

-- `wl_submit_data` with the answer of the sink.
unfoldable pub data_submitted : Link → Bool → ℕ → Outcome
data_submitted s reliable answer =
    if answer == sink_started
    then (
      Status.ok,
      record s {
        tx_inflight = true;
        tx_queued = false;
        in_flight_reliable = reliable;
        tx_state = if reliable then state_sending else s.tx_state;
      },
    )
    else if answer == sink_busy
    then (
      Status.ok,
      record s {
        tx_inflight = false;
        tx_queued = true;
        tx_writable = false;
        in_flight_reliable = reliable;
        tx_state = if reliable then state_sending else s.tx_state;
      },
    )
    else if answer == sink_sent
    then (if reliable
        then (
          Status.ok,
          record s {
            tx_inflight = false;
            tx_queued = false;
            in_flight_reliable = false;
            tx_state = state_waiting_ack;
            tx_wait_state = wait_ack;
            tx_start_ts = s.now_ms;
          },
        )
        else complete_unreliable_tx
            (record s { tx_inflight = false; tx_queued = false; in_flight_reliable = false }))
    else (
      Status.io,
      record s {
        tx_queued = false;
        tx_inflight = false;
        in_flight_reliable = false;
        tx_unreliable_len = if reliable then s.tx_unreliable_len else 0;
      },
    )

-- `wl_submit_data` from its test of the sink on.
unfoldable pub submit_data_to : Option Sink → Link → Bool → Outcome
submit_data_to none s reliable = (Status.not_initialized, s)
submit_data_to (some sink) s reliable =
    let length = if reliable then s.tx_encoded_len else s.tx_unreliable_len in
    let token = next_io_token s.tx_token in
    data_submitted (record s { tx_token = token; in_callback = false }) reliable
      (sink token s.storage.tx_unit length)

-- `wl_submit_data`
unfoldable pub submit_data : Link → Bool → Outcome
submit_data s reliable = submit_data_to s.sink s reliable

abbrev pub has_sink : Option Sink → Bool
has_sink none = false
has_sink (some sink) = true

-- The packet of the reliable transaction.
abbrev pub tx_wire : Link → Packet
tx_wire s = record {
  type = packet_data;
  integrity = s.config.integrity;
  flags = 1;
  message_id = s.tx_last_message_id;
  session_id = s.session_id;
  sequence = s.tx_waiting_seq;
  payload = s.tx_payload;
  payload_len = s.tx_payload_length;
}

-- The end of `wl_send_tx_payload`, after an encoding.
unfoldable pub submit_encoded : Link → Cobs.Result → Outcome
submit_encoded s r =
    if is_ok r.status
    then submit_data (record s { mem = r.mem; tx_encoded_len = encoded r }) true
    else (r.status, record s { mem = r.mem })

-- `wl_send_tx_payload`
unfoldable pub send_tx_payload : Link → Outcome
send_tx_payload s =
    if not s.initialized || not (has_sink s.sink)
    then (Status.not_initialized, s)
    else if s.in_callback
    then (Status.reentrant, s)
    else if s.tx_encoded_len == 0
    then submit_encoded s (link_encode s (tx_wire s) s.storage.tx_unit s.storage.tx_unit_size)
    else submit_data s true

-- `wl_submit_control` with the answer of the sink.
unfoldable pub control_submitted : Link → ℕ → Outcome
control_submitted s answer =
    if answer == sink_sent
    then (Status.ok, record s { control_pending = false })
    else if answer == sink_started
    then (Status.ok, record s { control_inflight = true })
    else if answer == sink_busy
    then (Status.ok, record s { tx_writable = false })
    else (Status.io, record s { control_pending = false })

-- `wl_submit_control` from its test of the sink on.
unfoldable pub submit_control_to : Option Sink → Link → Outcome
submit_control_to none s = (Status.not_initialized, s)
submit_control_to (some sink) s =
    let token = next_io_token s.tx_token in
    if s.in_callback
    then (Status.reentrant, s)
    else control_submitted (record s { tx_token = token; in_callback = false })
        (sink token s.storage.control_unit s.control_len)

-- `wl_submit_control`
unfoldable pub submit_control : Link → Outcome
submit_control s =
    if not s.control_pending
      || s.control_inflight
      || s.tx_inflight
      || s.tx_drain_pending
      || not s.tx_writable
    then (Status.ok, s)
    else submit_control_to s.sink s

-- The packet of an acknowledgement.
abbrev pub ack_of : Link → View → Packet
ack_of s view = record {
  type = packet_ack;
  integrity = s.config.integrity;
  flags = 0;
  message_id = 0;
  session_id = view.session_id;
  sequence = view.sequence;
  payload = 0;
  payload_len = 0;
}

-- The end of `wl_send_ack`, after the encoding.
unfoldable pub submit_ack : Link → Cobs.Result → Outcome
submit_ack s r =
    if is_ok r.status
    then submit_control (record s { mem = r.mem; control_len = encoded r; control_pending = true })
    else (r.status, record s { mem = r.mem })

-- `wl_send_ack`
unfoldable pub send_ack : Link → View → Outcome
send_ack s view =
    if not s.initialized || not (has_sink s.sink)
    then (Status.not_initialized, s)
    else if s.in_callback
    then (Status.reentrant, s)
    else if s.control_pending
    then (Status.queue_full, s)
    else submit_ack s
        (link_encode s (ack_of s view) s.storage.control_unit s.storage.control_unit_size)

-- `wl_invalidate_tx_image`
unfoldable pub invalidate_tx_image : Link → Link
invalidate_tx_image s =
    if not (s.tx_handle == 0) && not (s.tx_payload == s.storage.tx_payload)
    then record s {
      mem =
          if s.tx_payload_length == 0
          then s.mem
          else copy s.mem s.storage.tx_payload s.tx_payload s.tx_payload_length;
      tx_payload = s.storage.tx_payload;
      tx_encoded_len = 0;
    }
    else record s { tx_encoded_len = 0 }

-- `wl_prepare_reliable_payload`
unfoldable pub prepare_reliable_payload : Link → Packet → Bool → Link
prepare_reliable_payload s p direct = record s {
  mem =
      if not direct && not (p.payload_len == 0)
      then copy s.mem s.storage.tx_payload p.payload p.payload_len
      else s.mem;
  tx_encoded_len = 0;
  tx_last_message_id = p.message_id;
  tx_payload = if direct then p.payload else s.storage.tx_payload;
  tx_payload_length = p.payload_len;
}

-- What a submission returns, with the handle that it writes to `*out_handle`, if anything.
pub record Sent : Type 0 where
  pub status : Status
  pub link : Link
  pub handle : Option ℕ

-- The unreliable part of `wl_send_frame_internal`, after the encoding. The encoder writes to
-- `tx_unreliable_len` itself, so also where it fails.
unfoldable pub submit_unreliable : Link → Cobs.Result → Sent
submit_unreliable s r =
    let s' = record s { mem = r.mem; tx_unreliable_len = encoded r } in
    let o = submit_data s' false in
    if is_ok r.status
    then record { status = o.0; link = o.1; handle = some 0 }
    else record { status = r.status; link = s'; handle = none }

-- The transaction that `wl_send_frame_internal` opens.
abbrev pub next_generation : ℕ → ℕ
next_generation g = if u16 (g + 1) == 0 then 1 else u16 (g + 1)

abbrev pub open_transaction : Link → Packet → Link
open_transaction s p =
    let generation = next_generation s.tx_generation in
    record s {
      tx_generation = generation;
      tx_handle = generation * 2 ^ 16 + 1;
      tx_waiting_seq = p.sequence;
      tx_wait_state = wait_none;
      tx_retries_left = s.tx_retries_max;
      tx_retries_used = 0;
    }

-- The end of its reliable part, after `wl_send_tx_payload`.
abbrev pub settle : ℕ → Outcome → Sent
settle handle o =
    if is_ok o.0
    then record {
      status = Status.ok;
      link = record o.1 { tx_result_code = Status.busy };
      handle = some handle;
    }
    else record {
      status = o.0;
      link = record o.1 {
        tx_handle = 0;
        tx_state = state_idle;
        tx_waiting_seq = 0;
        tx_wait_state = wait_none;
        tx_retries_left = 0;
        tx_payload = o.1.storage.tx_payload;
        tx_payload_length = 0;
        tx_last_message_id = 0;
        tx_encoded_len = 0;
      };
      handle = some 0;
    }

abbrev pub refused : Status → Link → Sent
refused e s = record { status = e; link = s; handle = none }

-- `wl_send_frame_internal`; a `NULL` for `out_handle` is the caller's to ignore.
unfoldable pub send_frame_internal : Link → Packet → Bool → Bool → ℕ → Sent
send_frame_internal s p reliable direct now_ms =
    let quiet = invalidate_tx_image s in
    let opened =
      open_transaction (prepare_reliable_payload (record s { now_ms = now_ms }) p direct) p in
    if not (p.payload_len == 0) && p.payload == 0
    then refused Status.invalid_arg s
    else if not s.initialized
    then refused Status.not_initialized s
    else if s.session_id == 0
    then refused Status.invalid_arg s
    else if ltb s.config.max_payload_len p.payload_len
    then refused Status.payload_too_long s
    else if data_busy s reliable
    then refused Status.busy s
    else if s.in_callback
    then refused Status.reentrant s
    else if not reliable && s.tx_unreliable_completions == 0xffffffff
    then refused Status.queue_full s
    else if p.message_id == 0
    then refused Status.invalid_arg s
    else if reliable
    then settle opened.tx_handle (send_tx_payload opened)
    else submit_unreliable quiet (link_encode quiet p s.storage.tx_unit s.storage.tx_unit_size)

-- `wl_send_unreliable`
unfoldable pub send_unreliable : Link → ℕ → ℕ → ℕ → Sent
send_unreliable s message_id payload payload_len =
    let p : Packet = record {
      type = packet_data;
      integrity = 0;
      flags = 0;
      message_id = message_id;
      session_id = 0;
      sequence = 0;
      payload = payload;
      payload_len = payload_len;
    } in
    if not s.initialized
    then refused Status.not_initialized s
    else if s.tx_claim_active
    then refused Status.busy s
    else send_frame_internal s p false false 0

-- `wl_send_reliable`, given an `out_handle`.
unfoldable pub send_reliable : Link → ℕ → ℕ → ℕ → ℕ → Sent
send_reliable s message_id payload payload_len now_ms =
    let p : Packet = record {
      type = packet_data;
      integrity = 0;
      flags = 1;
      message_id = message_id;
      session_id = 0;
      sequence = s.tx_sequence;
      payload = payload;
      payload_len = payload_len;
    } in
    let s' = record s { tx_sequence = s.tx_sequence + 1 } in
    if not s.initialized
    then refused Status.not_initialized s
    else if s.tx_sequence == 0xffffffff
    then refused Status.invalid_state s
    else if s.tx_claim_active
    then record { status = Status.busy; link = s'; handle = some 0 }
    else let r = send_frame_internal s' p true false now_ms in
      record r { handle = elim r.handle [ none ↦ some 0 | some h ↦ some h ] }
