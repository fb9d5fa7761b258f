-- ===== src/Link/Protocol/Poll.antt =====
-- src/protocol.c: `wl_poll`, the pass of the owner over the link. The receiving queues (`rx_ring` and
-- `rx_units`) are a parameter, `Receiver`: what `wl_link_process_rx` does to a link.
use wirelink.Common.{ℕ, ◌+◌, ◌-◌, ◌^◌, Bool, false, not, ◌&&◌, ◌||◌}
use wirelink.Common.{Option, none, some, leb, ◌==◌, if◌then◌else◌, u32}
use wirelink.Common.Memory.{Mem}
use wirelink.Link.Status.{Status, is_ok}
use wirelink.Link.Frame.{View, envelope_cobs_stream}
use wirelink.Link.Protocol.{
  Link, Outcome, Event, push_event, push_tx_event, is_rx_event, state_waiting_ack, state_failed,
  wait_none, wait_ack, evt_none, evt_tx_success, evt_tx_timeout,
}
use wirelink.Link.Protocol.Transmit.{send_tx_payload, submit_data, submit_control}
use wirelink.Link.Protocol.Completion.{fail_io}
use wirelink.Link.Protocol.Receive.{route_view, bad_frame}

-- What the frames of the receiving queues do to a link: they are decoded in their own buffers, and
-- routed, refused or dropped for want of room.
pub data Routed (s : Link) : Link → Type 0 where
  nothing : Routed s s
  decoded :
      (m : Mem) (source : ℕ) {s' : Link}
      → Routed s s'
      → Routed s (record s' { mem = m; rx_candidate_source = source })
  routed : (view : View) {s' : Link} → Routed s s' → Routed s (route_view s' view).1
  refused : (error : Status) {s' : Link} → Routed s s' → Routed s (bad_frame s' error)
  dropped :
      (overflow : ℕ) {s' : Link}
      → Routed s s'
      → Routed s (record s' { rx_counters = record s'.rx_counters { overflow = overflow } })

-- `wl_link_process_rx`, and whether `rx_units` was initialised.
pub record Receiver : Type 0 where
  pub process_rx : Link → Link
  pub units : Bool
  pub routes : (s : Link) → Routed s (process_rx s)

-- The parts of `wl_poll_transport_progress`, in order, after `wl_submit_control`.
unfoldable pub publish_pending : Link → Link
publish_pending s =
    if not (s.tx_pending_event == evt_none)
      && not s.has_event
      && not (s.tx_inflight && s.in_flight_reliable)
    then record (push_event s s.tx_pending_event 0 0 0 s.tx_handle).1 {
      tx_pending_event = evt_none;
    }
    else s

unfoldable pub receive : Receiver → Link → Link
receive r s =
    if not s.control_pending && not s.has_event && not s.rx_event_leased then r.process_rx s else s

-- A queued unit that was tried again.
abbrev pub retried : Bool → Outcome → Link
retried reliable o =
    if is_ok o.0
    then o.1
    else if reliable
    then fail_io (record o.1 { tx_queued = false; in_flight_reliable = false })
    else record o.1 { tx_queued = false; in_flight_reliable = false; tx_unreliable_len = 0 }

-- The conditions under which a queued unit is tried again.
abbrev pub may_submit : Link → Bool
may_submit s =
    not s.has_event
    && not s.control_pending
    && not s.tx_claim_active
    && s.tx_queued
    && not s.tx_inflight
    && not s.tx_drain_pending
    && s.tx_writable

unfoldable pub submit_queued : Link → Link
submit_queued s =
    if may_submit s
    then retried s.in_flight_reliable
        (if s.in_flight_reliable then send_tx_payload s else submit_data s false)
    else s

-- A timeout with a retry left.
abbrev pub after_timeout : ℕ → Outcome → Link
after_timeout now_ms o =
    if is_ok o.0
    then record o.1 {
      tx_retries_left = o.1.tx_retries_left - 1;
      tx_retries_used = o.1.tx_retries_used + 1;
      tx_start_ts = if o.1.tx_state == state_waiting_ack then now_ms else o.1.tx_start_ts;
    }
    else fail_io o.1

-- A timeout with none.
abbrev pub time_out : Link → Link
time_out s =
    push_tx_event
      (record s {
        tx_state = state_failed;
        tx_wait_state = wait_none;
        tx_waiting_seq = 0;
        tx_result_code = Status.timeout;
      })
      evt_tx_timeout

-- The conditions under which the ACK timer is read.
abbrev pub timer_runs : Link → Bool
timer_runs s =
    not s.has_event
    && not s.control_pending
    && not s.tx_inflight
    && not s.tx_queued
    && not s.tx_claim_active
    && s.tx_state == state_waiting_ack
    && s.tx_wait_state == wait_ack
    && s.initialized
    && not (s.config.ack_timeout_ms == 0)

-- Times are modulo 2^32.
abbrev pub elapsed : ℕ → ℕ → ℕ
elapsed now_ms start = u32 (now_ms + 2 ^ 32 - start)

unfoldable pub expire : Link → ℕ → Link
expire s now_ms =
    if timer_runs s && leb s.config.ack_timeout_ms (elapsed now_ms s.tx_start_ts)
    then (if s.tx_retries_left == 0 then time_out s else after_timeout now_ms (send_tx_payload s))
    else s

-- `wl_poll_transport_progress`
unfoldable pub poll_transport_progress : Receiver → Link → ℕ → Link
poll_transport_progress r s now_ms =
    expire (submit_queued (receive r (publish_pending (submit_control s).1))) now_ms

-- The test of `wl_poll` for any work.
abbrev pub has_work : Receiver → Link → Bool
has_work r s =
    s.control_pending
    || not (s.tx_pending_event == evt_none)
    || s.tx_queued
    || s.tx_state == state_waiting_ack
    || not s.has_event
      && not s.rx_event_leased
      && (s.config.envelope == envelope_cobs_stream || r.units)

-- A completed unreliable unit is published when there is room.
abbrev pub counted_off : Outcome → Link
counted_off o =
    if is_ok o.0
    then record o.1 { tx_unreliable_completions = o.1.tx_unreliable_completions - 1 }
    else o.1

unfoldable pub publish_completion : Link → Link
publish_completion s =
    if not s.has_event && not (s.tx_unreliable_completions == 0)
    then counted_off (push_event s evt_tx_success 0 0 0 0)
    else s

-- What `wl_poll` returns and writes.
pub record Polled : Type 0 where
  pub status : Status
  pub link : Link
  pub event : Option Event

-- The end of `wl_poll`: the event is handed out, and what it received is lent.
abbrev pub hand_out : Link → Polled
hand_out s =
    if not s.has_event then record { status = Status.no_data; link = s; event = none } else record {
      status = Status.ok;
      link = record s {
        has_event = false;
        rx_event_leased = is_rx_event s.event.type || s.rx_event_leased;
      };
      event = some s.event;
    }

unfoldable pub progress : Receiver → Link → ℕ → Link
progress r s now_ms = if has_work r s then poll_transport_progress r s now_ms else s

-- `wl_poll`, given an `out_event`; what it clears there is `none`.
unfoldable pub poll : Receiver → Link → ℕ → Polled
poll r s now_ms =
    let clocked = record s { now_ms = now_ms } in
    if not s.initialized
    then record { status = Status.not_initialized; link = s; event = none }
    else hand_out (publish_completion (progress r clocked now_ms))
