-- ===== src/Link/Protocol.antt =====
-- include/wirelink/link.h, include/wirelink/port.h, src/context.h and src/protocol.c: the state of a
-- link, and the events that it publishes. An `int32_t` that takes values of an `enum` is its code.
-- Every function is given a context that is not NULL.
pub mod Transmit
pub mod Completion
pub mod Receive
pub mod Transaction
pub mod Claims
pub mod Poll
pub mod Valid
pub mod Reports
pub mod Requests
pub mod Passes
pub mod Steps
pub mod Acknowledgement
pub mod Timeout
pub mod GiveUp
pub mod Delivery
pub mod Once
pub mod Ended
mod Tests
use wirelink.Common.{ℕ, ◌+◌, ◌-◌, ◌%◌, ◌^◌, Bool, true, false, not, ◌&&◌, ◌||◌}
use wirelink.Common.{Option, none, some, ltb, leb, ◌==◌, if◌then◌else◌, u16, u32}
use wirelink.Common.Memory.{Mem}
use wirelink.Link.Status.{Status, is_ok}

-- `wl_tx_state_t`
abbrev pub state_idle : ℕ
state_idle = 0

abbrev pub state_sending : ℕ
state_sending = 1

abbrev pub state_waiting_ack : ℕ
state_waiting_ack = 2

abbrev pub state_success : ℕ
state_success = 3

abbrev pub state_failed : ℕ
state_failed = 4

abbrev pub state_cancelled : ℕ
state_cancelled = 5

-- `wl_tx_wait_reason_t`
abbrev pub wait_none : ℕ
wait_none = 0

abbrev pub wait_ack : ℕ
wait_ack = 1

abbrev pub wait_drain : ℕ
wait_drain = 2

-- `wl_event_type_t`
abbrev pub evt_none : ℕ
evt_none = 0

abbrev pub evt_unreliable_rx : ℕ
evt_unreliable_rx = 1

abbrev pub evt_reliable_rx : ℕ
evt_reliable_rx = 2

abbrev pub evt_tx_success : ℕ
evt_tx_success = 3

abbrev pub evt_tx_timeout : ℕ
evt_tx_timeout = 4

abbrev pub evt_tx_failed : ℕ
evt_tx_failed = 5

-- `wl_sink_result_t`
abbrev pub sink_sent : ℕ
sink_sent = 0

abbrev pub sink_started : ℕ
sink_started = 1

abbrev pub sink_busy : ℕ
sink_busy = 2

-- `wl_sink_fn`: what the transport answers to a token, the address of a unit and its length. It is
-- called with `in_callback` set and does not touch the link or its storage.
abbrev pub Sink : Type 0
Sink = ℕ → ℕ → ℕ → ℕ

-- `wl_config_t`, less what `wl_init` copies elsewhere.
pub record Config : Type 0 where
  pub max_payload_len : ℕ
  pub envelope : ℕ
  pub integrity : ℕ
  pub ack_timeout_ms : ℕ

-- `wl_storage_t`: the buffers of the transmitting side.
pub record Storage : Type 0 where
  pub tx_payload : ℕ
  pub tx_unit : ℕ
  pub tx_unit_size : ℕ
  pub control_unit : ℕ
  pub control_unit_size : ℕ

-- `wl_event_t`
pub record Event : Type 0 where
  pub type : ℕ
  pub message_id : ℕ
  pub payload : ℕ
  pub payload_len : ℕ
  pub handle : ℕ
  pub io_result : ℕ
  pub lease : ℕ
  pub peer_session_id : ℕ

-- `wl_rx_counters_t`
pub record Counters : Type 0 where
  pub malformed : ℕ
  pub bad_integrity : ℕ
  pub unsupported : ℕ
  pub duplicate : ℕ
  pub overflow : ℕ

-- `wl_ctx_impl_t`, with the memory that its pointers lead to. A span is an address and a length;
-- the queues of the receiving side are not part of this state.
pub record Link : Type 0 where
  pub mem : Mem
  pub config : Config
  pub storage : Storage
  pub initialized : Bool
  pub sink : Option Sink
  pub tx_state : ℕ
  pub tx_pending_event : ℕ
  pub tx_handle : ℕ
  pub tx_unreliable_completions : ℕ
  pub tx_token : ℕ
  pub tx_start_ts : ℕ
  pub tx_retries_left : ℕ
  pub tx_retries_max : ℕ
  pub tx_retries_used : ℕ
  pub tx_sequence : ℕ
  pub tx_waiting_seq : ℕ
  pub tx_inflight : Bool
  pub tx_writable : Bool
  pub resource_generation : ℕ
  pub tx_drain_required : Bool
  pub tx_drain_pending : Bool
  pub tx_drain_reliable : Bool
  pub tx_drain_token : ℕ
  pub tx_wait_state : ℕ
  pub tx_cancel_requested : Bool
  pub tx_generation : ℕ
  pub tx_result_code : Status
  pub tx_last_message_id : ℕ
  pub tx_claim_active : Bool
  pub tx_claim_reliable : Bool
  pub tx_claim_message_id : ℕ
  pub tx_claim_token : ℕ
  pub tx_claim_payload : ℕ
  pub tx_claim_length : ℕ
  pub session_id : ℕ
  pub rx_sequence : ℕ
  pub rx_session_id : ℕ
  pub rx_have_reliable : Bool
  pub event : Event
  pub has_event : Bool
  pub in_callback : Bool
  pub in_flight_reliable : Bool
  pub control_pending : Bool
  pub control_inflight : Bool
  pub tx_queued : Bool
  pub tx_encoded_len : ℕ
  pub tx_unreliable_len : ℕ
  pub control_len : ℕ
  pub rx_event_leased : Bool
  pub rx_candidate_source : ℕ
  pub rx_event_generation : ℕ
  pub rx_counters : Counters
  pub now_ms : ℕ
  pub rx_payload : ℕ
  pub rx_payload_length : ℕ
  pub tx_payload : ℕ
  pub tx_payload_length : ℕ

-- What a function returns, and the link that it leaves.
abbrev pub Outcome : Type 0
Outcome = Status × Link

-- `wl_tx_retry_due`
unfoldable pub tx_retry_due : Link → ℕ → Bool
tx_retry_due s now =
    s.tx_state == state_waiting_ack
    && s.tx_wait_state == wait_ack
    && not (s.config.ack_timeout_ms == 0)
    && leb s.config.ack_timeout_ms (u32 (now + 2 ^ 32 - s.tx_start_ts))

-- The event of `wl_push_event`.
abbrev event_of : ℕ → ℕ → ℕ → ℕ → ℕ → ℕ → Event
event_of type message_id payload payload_len handle lease = record {
  type = type;
  message_id = message_id;
  payload = payload;
  payload_len = payload_len;
  handle = handle;
  io_result = 0;
  lease = lease;
  peer_session_id = 0;
}

abbrev pub is_rx_event : ℕ → Bool
is_rx_event type = type == evt_unreliable_rx || type == evt_reliable_rx

-- `wl_push_event`
unfoldable pub push_event : Link → ℕ → ℕ → ℕ → ℕ → ℕ → Outcome
push_event s type message_id payload payload_len handle =
    let generation =
      if u32 (s.rx_event_generation + 1) == 0 then 1 else u32 (s.rx_event_generation + 1) in
    if s.has_event || is_rx_event type && s.rx_event_leased
    then (Status.queue_full, s)
    else if is_rx_event type
    then (if ltb s.config.max_payload_len payload_len
          || not (payload_len == 0) && payload == 0
          || s.rx_candidate_source == 0
        then (Status.payload_too_long, s)
        else (
          Status.ok,
          record s {
            rx_payload = payload;
            rx_payload_length = payload_len;
            rx_event_generation = generation;
            event = event_of type message_id payload payload_len handle generation;
            has_event = true;
          },
        ))
    else (
      Status.ok,
      record s { event = event_of type message_id payload payload_len handle 0; has_event = true },
    )

abbrev or_pending : ℕ → Outcome → Link
or_pending type o = if is_ok o.0 then o.1 else record o.1 { tx_pending_event = type }

-- `wl_push_tx_event`, which always returns OK: the link that it leaves.
unfoldable pub push_tx_event : Link → ℕ → Link
push_tx_event s type =
    if s.tx_inflight && s.in_flight_reliable
    then record s { tx_pending_event = type }
    else or_pending type (push_event s type 0 0 0 s.tx_handle)

-- `wl_complete_unreliable_tx`
unfoldable pub complete_unreliable_tx : Link → Outcome
complete_unreliable_tx s =
    if s.tx_unreliable_completions == 0xffffffff then (Status.queue_full, s) else (
      Status.ok,
      record s {
        tx_unreliable_completions = s.tx_unreliable_completions + 1;
        tx_unreliable_len = 0;
      },
    )

-- `wl_data_busy`
unfoldable pub data_busy : Link → Bool → Bool
data_busy s reliable =
    s.tx_inflight
    || s.tx_drain_pending
    || s.control_pending
    || s.control_inflight
    || s.tx_queued
    || (if reliable then not (s.tx_handle == 0) else tx_retry_due s s.now_ms)
