-- ===== src/Link/Protocol/Transaction.antt =====
-- src/transport.c: the calls that configure the transport of a link and those that end a reliable
-- transaction. What the receiving queues do on the release of an event is not modelled.
use wirelink.Common.{ℕ, ◌+◌, Bool, true, false, not, ◌&&◌, ◌||◌}
use wirelink.Common.{Option, none, some, ◌==◌, if◌then◌else◌, u32}
use wirelink.Link.Status.{Status}
use wirelink.Link.Protocol.{
  Link, Outcome, Sink, Event, is_rx_event, tx_retry_due, state_idle, state_success, state_failed,
  state_cancelled, wait_none, evt_none,
}
use wirelink.Link.Protocol.Transmit.{has_sink}

-- `wl_set_sink`
unfoldable pub set_sink : Link → Option Sink → Outcome
set_sink s sink =
    if not s.initialized
    then (Status.not_initialized, s)
    else if s.in_callback
    then (Status.reentrant, s)
    else (Status.ok, record s { sink = sink })

-- `wl_set_tx_drain_required`
unfoldable pub set_tx_drain_required : Link → Bool → Outcome
set_tx_drain_required s required =
    if not s.initialized
    then (Status.not_initialized, s)
    else if s.tx_inflight || s.control_inflight || s.tx_drain_pending
    then (Status.busy, s)
    else (Status.ok, record s { tx_drain_required = required })

abbrev pub released : Link → Link
released s = record s { resource_generation = u32 (s.resource_generation + 1) }

-- `wl_tx_writable`
unfoldable pub tx_writable : Link → Outcome
tx_writable s = if not s.initialized then (Status.not_initialized, s) else (
  Status.ok,
  record s { tx_writable = true; resource_generation = u32 (s.resource_generation + 1) },
)

-- A transaction that is over.
abbrev pub is_over : ℕ → Bool
is_over state = state == state_success || state == state_failed || state == state_cancelled

-- `wl_tx_can_take`
unfoldable pub tx_can_take : Link → ℕ → Bool
tx_can_take s handle =
    s.initialized
    && not (handle == 0)
    && handle == s.tx_handle
    && not (s.tx_inflight && s.in_flight_reliable)
    && is_over s.tx_state

-- `wl_tx_can_submit`; `reliable` is `delivery == WL_DELIVERY_RELIABLE`.
unfoldable pub tx_can_submit : Link → Bool → Bool
tx_can_submit s reliable =
    s.initialized
    && has_sink s.sink
    && not s.tx_inflight
    && not s.tx_drain_pending
    && not s.control_pending
    && not s.control_inflight
    && not s.tx_queued
    && not s.tx_claim_active
    && (if reliable then s.tx_handle == 0 else not (tx_retry_due s s.now_ms))

-- `wl_tx_cancel`
unfoldable pub tx_cancel : Link → ℕ → Outcome
tx_cancel s handle =
    let flying = s.tx_inflight && s.in_flight_reliable in
    let parked = not flying && (s.tx_queued && s.in_flight_reliable) in
    if not s.initialized
    then (Status.not_initialized, s)
    else if handle == 0 || not (handle == s.tx_handle)
    then (Status.not_found, s)
    else if s.tx_state == state_idle || is_over s.tx_state
    then (Status.invalid_state, s)
    else (
      Status.ok,
      record s {
        tx_cancel_requested = flying || s.tx_cancel_requested;
        tx_queued = if parked then false else s.tx_queued;
        in_flight_reliable = if parked then false else s.in_flight_reliable;
        tx_state = state_cancelled;
        tx_wait_state = wait_none;
        tx_waiting_seq = 0;
        tx_retries_left = 0;
        tx_result_code = Status.cancelled;
      },
    )

-- `wl_tx_status`: the state that it writes, if any.
unfoldable pub tx_status : Link → ℕ → Status × Option ℕ
tx_status s handle =
    if not s.initialized
    then (Status.not_initialized, none)
    else if handle == 0 || not (handle == s.tx_handle)
    then (Status.not_found, none)
    else (Status.ok, some s.tx_state)

-- `wl_tx_result_t`
pub record TxResult : Type 0 where
  pub state : ℕ
  pub result : Status
  pub retries_used : ℕ

-- What `wl_tx_take` returns and writes.
pub record Taken : Type 0 where
  pub status : Status
  pub link : Link
  pub result : Option TxResult

-- `wl_tx_take`
unfoldable pub tx_take : Link → ℕ → Taken
tx_take s handle =
    if not s.initialized
    then record { status = Status.not_initialized; link = s; result = none }
    else if handle == 0 || not (handle == s.tx_handle)
    then record { status = Status.not_found; link = s; result = none }
    else if s.tx_inflight && s.in_flight_reliable || not (is_over s.tx_state)
    then record { status = Status.invalid_state; link = s; result = none }
    else record {
      status = Status.ok;
      link = record s {
        resource_generation = u32 (s.resource_generation + 1);
        tx_handle = 0;
        tx_pending_event = evt_none;
        tx_state = state_idle;
        tx_cancel_requested = false;
        tx_wait_state = wait_none;
        tx_waiting_seq = 0;
        tx_payload_length = 0;
        tx_payload = s.storage.tx_payload;
        tx_encoded_len = 0;
      };
      result = some (record {
        state = s.tx_state;
        result = s.tx_result_code;
        retries_used = s.tx_retries_used;
      });
    }

-- `wl_event_release`, on the link itself.
unfoldable pub event_release : Link → Event → Link
event_release s event =
    if s.initialized
      && is_rx_event event.type
      && s.rx_event_leased
      && event.lease == s.rx_event_generation
    then record s {
      rx_event_leased = false;
      resource_generation = u32 (s.resource_generation + 1);
      rx_candidate_source = 0;
      rx_payload_length = 0;
    }
    else s
