-- ===== src/Link/Protocol/Completion.antt =====
-- src/protocol.c: the reports of the transport that a unit was consumed or drained.
use wirelink.Common.{ℕ, ◌+◌, ◌-◌, Bool, true, false, not, ◌&&◌, ◌||◌}
use wirelink.Common.{◌==◌, if◌then◌else◌, u32}
use wirelink.Link.Status.{Status, is_ok}
use wirelink.Link.Protocol.{
  Link, Outcome, push_tx_event, complete_unreliable_tx, state_sending, state_waiting_ack,
  state_failed, wait_none, wait_ack, wait_drain, evt_tx_failed,
}
use wirelink.Link.Protocol.Transmit.{send_tx_payload, submit_control}

-- `(void)wl_submit_control(ctx)`
abbrev pub and_control : Link → Link
and_control s = (submit_control s).1

-- The transaction that fails for an I/O error.
abbrev pub fail_io : Link → Link
fail_io s =
    push_tx_event
      (record s {
        tx_state = state_failed;
        tx_result_code = Status.io;
        tx_wait_state = wait_none;
        tx_waiting_seq = 0;
      })
      evt_tx_failed

-- One retry less.
abbrev pub count_retry : Link → Link
count_retry s = record s {
  tx_retries_left = s.tx_retries_left - 1;
  tx_retries_used = s.tx_retries_used + 1;
}

-- The rest of `wl_tx_consumed` after a retry was sent.
abbrev pub after_retry : Outcome → Link
after_retry o = and_control (if is_ok o.0 then count_retry o.1 else fail_io o.1)

-- `wl_tx_consumed` from the release of a reliable unit on.
unfoldable pub reliable_consumed : Link → Bool → Link
reliable_consumed s io_ok =
    if s.tx_cancel_requested
    then and_control (record s {
      tx_cancel_requested = false;
      tx_payload = s.storage.tx_payload;
      tx_payload_length = 0;
      tx_encoded_len = 0;
    })
    else if not (s.tx_state == state_sending)
    then and_control s
    else if io_ok
    then and_control (record s {
      tx_state = state_waiting_ack;
      tx_wait_state = if s.tx_drain_pending then wait_drain else wait_ack;
      tx_start_ts = s.now_ms;
    })
    else if not (s.tx_retries_left == 0)
    then (if s.control_pending
        then after_retry (Status.ok, record s { tx_queued = true; in_flight_reliable = true })
        else after_retry (send_tx_payload s))
    else and_control (fail_io s)

-- The unreliable part of `wl_tx_consumed`, after the release.
abbrev pub unreliable_consumed : Bool → Outcome → Outcome
unreliable_consumed io_ok o = (o.0, and_control (record o.1 { tx_unreliable_len = 0 }))

-- What a report of `wl_tx_consumed` notes first, and the release of a DATA unit.
abbrev pub noted : Link → ℕ → Bool → Link
noted s token io_ok =
    let drains = io_ok && s.tx_drain_required in
    record s {
      tx_writable = true;
      resource_generation = u32 (s.resource_generation + 1);
      tx_drain_pending = drains || s.tx_drain_pending;
      tx_drain_token = if drains then token else s.tx_drain_token;
      tx_drain_reliable =
          if drains then s.tx_inflight && s.in_flight_reliable else s.tx_drain_reliable;
    }

abbrev pub data_released : Link → ℕ → Bool → Link
data_released s token io_ok = record (noted s token io_ok) {
  tx_inflight = false;
  in_flight_reliable = false;
}

-- `wl_tx_consumed`; `io_ok` is `io_result == WL_OK`.
unfoldable pub tx_consumed : Link → ℕ → Bool → Outcome
tx_consumed s token io_ok =
    let released = data_released s token io_ok in
    if not s.initialized
    then (Status.not_initialized, s)
    else if not (token == s.tx_token)
    then (Status.not_found, s)
    else if not s.tx_inflight && not s.control_inflight
    then (Status.not_found, s)
    else if s.control_inflight
    then (
      if io_ok then Status.ok else Status.io,
      record (noted s token io_ok) { control_inflight = false; control_pending = false },
    )
    else if not s.in_flight_reliable
    then unreliable_consumed io_ok
        (if io_ok then complete_unreliable_tx released else (Status.ok, released))
    else (Status.ok, reliable_consumed released io_ok)

-- `wl_tx_drained`
unfoldable pub tx_drained : Link → ℕ → Bool → Outcome
tx_drained s token io_ok =
    let noted = record s {
      tx_drain_pending = false;
      tx_writable = true;
      resource_generation = u32 (s.resource_generation + 1);
    } in
    let failed =
      push_tx_event
        (record noted {
          tx_state = state_failed;
          tx_wait_state = wait_none;
          tx_result_code = Status.io;
        })
        evt_tx_failed in
    if not s.initialized
    then (Status.not_initialized, s)
    else if not s.tx_drain_pending || not (token == s.tx_drain_token)
    then (Status.not_found, s)
    else if s.tx_drain_reliable && s.tx_state == state_waiting_ack && s.tx_wait_state == wait_drain
    then (if io_ok
        then (
          Status.ok,
          record noted {
            tx_wait_state = wait_ack;
            tx_start_ts = s.now_ms;
            tx_drain_reliable = false;
          },
        )
        else (Status.ok, record failed { tx_drain_reliable = false }))
    else (Status.ok, record noted { tx_drain_reliable = false })
