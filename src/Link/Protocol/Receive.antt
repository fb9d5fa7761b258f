-- ===== src/Link/Protocol/Receive.antt =====
-- src/protocol.c: what a verified frame does to the link.
use wirelink.Common.{◌+◌, Bool, true, false, not, ◌&&◌, ◌||◌}
use wirelink.Common.{ltb, ◌==◌, if◌then◌else◌, u32}
use wirelink.Link.Status.{Status, is_ok}
use wirelink.Link.Frame.{View, packet_data, packet_ack, is_reliable}
use wirelink.Link.Protocol.{
  Link, Outcome, push_event, push_tx_event, state_sending, state_waiting_ack, state_success,
  wait_none, evt_reliable_rx, evt_unreliable_rx, evt_tx_success,
}
use wirelink.Link.Protocol.Transmit.{send_ack}

-- The test of `wl_handle_ack` that the ACK is for the transaction that is under way.
abbrev pub acknowledges : View → Link → Bool
acknowledges view s =
    (s.tx_state == state_waiting_ack || s.tx_state == state_sending)
    && s.session_id == view.session_id
    && s.tx_waiting_seq == view.sequence

-- `wl_handle_ack`
unfoldable pub handle_ack : Link → View → Outcome
handle_ack s view =
    let parked = s.tx_queued && s.in_flight_reliable in
    if not (acknowledges view s) then (Status.ok, s) else (
      Status.ok,
      push_tx_event
          (record s {
            tx_state = state_success;
            tx_wait_state = wait_none;
            tx_waiting_seq = 0;
            tx_retries_left = 0;
            tx_result_code = Status.ok;
            tx_queued = if parked then false else s.tx_queued;
            in_flight_reliable = if parked then false else s.in_flight_reliable;
          })
          evt_tx_success,
    )

-- The test of `wl_frame_route_view` for the reliable frame that was delivered last.
abbrev pub is_duplicate : View → Link → Bool
is_duplicate view s =
    s.rx_have_reliable && s.rx_session_id == view.session_id && s.rx_sequence == view.sequence

-- A reliable frame that was pushed: it is remembered, and acknowledged.
abbrev pub accept_reliable : View → Outcome → Outcome
accept_reliable view o =
    if is_ok o.0
    then send_ack
        (record o.1 {
          event = record o.1.event { peer_session_id = view.session_id };
          rx_session_id = view.session_id;
          rx_sequence = view.sequence;
          rx_have_reliable = true;
        })
        view
    else o

abbrev pub count_duplicate : Link → Link
count_duplicate s = record s {
  rx_counters = record s.rx_counters { duplicate = u32 (s.rx_counters.duplicate + 1) };
}

abbrev pub count_unsupported : Link → Link
count_unsupported s = record s {
  rx_counters = record s.rx_counters { unsupported = u32 (s.rx_counters.unsupported + 1) };
}

-- The branch of `wl_frame_route_view` for a reliable DATA frame.
unfoldable pub route_reliable : Link → View → Outcome
route_reliable s view =
    if is_duplicate view s
    then send_ack (count_duplicate s) view
    else accept_reliable view
        (push_event s evt_reliable_rx view.message_id view.payload view.payload_len 0)

-- `wl_frame_route_view`; 3 is WL_PACKET_NACK.
unfoldable pub route_view : Link → View → Outcome
route_view s view =
    if ltb s.config.max_payload_len view.payload_len
    then (Status.payload_too_long, s)
    else if view.type == packet_data
    then (if is_reliable view.flags
        then route_reliable s view
        else push_event s evt_unreliable_rx view.message_id view.payload view.payload_len 0)
    else if view.type == packet_ack
    then handle_ack s view
    else if view.type == 3
    then (Status.not_supported, count_unsupported s)
    else (Status.ok, s)

abbrev pub is_crc : Status → Bool
is_crc Status.crc = true
is_crc e = false

abbrev pub is_not_supported : Status → Bool
is_not_supported Status.not_supported = true
is_not_supported e = false

-- `wl_frame_bad_frame`, which returns the error that it is given: the link that it leaves.
unfoldable pub bad_frame : Link → Status → Link
bad_frame s e =
    if is_crc e
    then record s {
      rx_counters = record s.rx_counters { bad_integrity = u32 (s.rx_counters.bad_integrity + 1) };
    }
    else if is_not_supported e
    then count_unsupported s
    else record s {
      rx_counters = record s.rx_counters { malformed = u32 (s.rx_counters.malformed + 1) };
    }
