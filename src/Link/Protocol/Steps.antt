-- ===== src/Link/Protocol/Steps.antt =====
-- Every call on a link as a step, in whatever order the application, the owner and the transport
-- make them; and the link that `wl_init` of src/init.c leaves.
use wirelink.Common.{ℕ, arith, Bool, true, false, Option, none}
use wirelink.Common.Memory.{Mem}
use wirelink.Link.Status.{Status}
use wirelink.Link.Protocol.{Link, Config, Storage, Sink, Event}
use wirelink.Link.Protocol.Transmit.{send_unreliable, send_reliable}
use wirelink.Link.Protocol.Completion.{tx_consumed, tx_drained}
use wirelink.Link.Protocol.Transaction.{
  set_sink, set_tx_drain_required, tx_writable, tx_cancel, tx_take, event_release,
}
use wirelink.Link.Protocol.Claims.{Claim, tx_payload_claim, tx_payload_commit, tx_payload_abort}
use wirelink.Link.Protocol.Poll.{Receiver, poll}
use wirelink.Link.Protocol.Valid.{IsValid}
use wirelink.Link.Protocol.Reports.{tx_consumed-IsValid, tx_drained-IsValid}
use wirelink.Link.Protocol.Requests.{
  send_unreliable-IsValid, send_reliable-IsValid, tx_cancel-IsValid, tx_take-IsValid,
  set_sink-IsValid, set_tx_drain_required-IsValid, tx_writable-IsValid, event_release-IsValid,
}
use wirelink.Link.Protocol.Passes.{
  tx_payload_claim-IsValid, tx_payload_commit-IsValid, tx_payload_abort-IsValid, poll-IsValid,
}

abbrev no_event : Event
no_event = record {
  type = 0;
  message_id = 0;
  payload = 0;
  payload_len = 0;
  handle = 0;
  io_result = 0;
  lease = 0;
  peer_session_id = 0;
}

-- The link that `wl_init` leaves behind its checks, less the receiving queues.
unfoldable pub fresh_link : Mem → Config → Storage → ℕ → ℕ → ℕ → Link
fresh_link m config storage session_id max_retries rx_fallback = record {
  mem = m;
  config = config;
  storage = storage;
  initialized = true;
  sink = none;
  tx_state = 0;
  tx_pending_event = 0;
  tx_handle = 0;
  tx_unreliable_completions = 0;
  tx_token = 1;
  tx_start_ts = 0;
  tx_retries_left = max_retries;
  tx_retries_max = max_retries;
  tx_retries_used = 0;
  tx_sequence = 0;
  tx_waiting_seq = 0;
  tx_inflight = false;
  tx_writable = true;
  resource_generation = 0;
  tx_drain_required = false;
  tx_drain_pending = false;
  tx_drain_reliable = false;
  tx_drain_token = 0;
  tx_wait_state = 0;
  tx_cancel_requested = false;
  tx_generation = 0;
  tx_result_code = Status.ok;
  tx_last_message_id = 0;
  tx_claim_active = false;
  tx_claim_reliable = false;
  tx_claim_message_id = 0;
  tx_claim_token = 0;
  tx_claim_payload = 0;
  tx_claim_length = 0;
  session_id = session_id;
  rx_sequence = 0;
  rx_session_id = 0;
  rx_have_reliable = false;
  event = no_event;
  has_event = false;
  in_callback = false;
  in_flight_reliable = false;
  control_pending = false;
  control_inflight = false;
  tx_queued = false;
  tx_encoded_len = 0;
  tx_unreliable_len = 0;
  control_len = 0;
  rx_event_leased = false;
  rx_candidate_source = 0;
  rx_event_generation = 0;
  rx_counters = record {
    malformed = 0;
    bad_integrity = 0;
    unsupported = 0;
    duplicate = 0;
    overflow = 0;
  };
  now_ms = 0;
  rx_payload = rx_fallback;
  rx_payload_length = 0;
  tx_payload = storage.tx_payload;
  tx_payload_length = 0;
}

pub data Step (s : Link) : Link → Type 0 where
  unreliable : (id payload len : ℕ) → Step s (send_unreliable s id payload len).link
  reliable : (id payload len now_ms : ℕ) → Step s (send_reliable s id payload len now_ms).link
  claim : (id : ℕ) (delivery : Bool) → Step s (tx_payload_claim s id delivery).link
  commit :
      (c : Claim) (len now_ms : ℕ) (handled : Bool)
      → Step s (tx_payload_commit s c len now_ms handled).link
  abort : (c : Claim) → Step s (tx_payload_abort s c).1
  consumed : (token : ℕ) (io_ok : Bool) → Step s (tx_consumed s token io_ok).1
  drained : (token : ℕ) (io_ok : Bool) → Step s (tx_drained s token io_ok).1
  writable : Step s (tx_writable s).1
  polled : (r : Receiver) (now_ms : ℕ) → Step s (poll r s now_ms).link
  cancel : (handle : ℕ) → Step s (tx_cancel s handle).1
  take : (handle : ℕ) → Step s (tx_take s handle).link
  release : (e : Event) → Step s (event_release s e)
  sink : (k : Option Sink) → Step s (set_sink s k).1
  drain : (required : Bool) → Step s (set_tx_drain_required s required).1

Step-IsValid : {s s' : Link} → Step s s' → IsValid s → IsValid s'
Step-IsValid (unreliable id payload len) v = send_unreliable-IsValid _ id payload len v
Step-IsValid (reliable id payload len now_ms) v = send_reliable-IsValid _ id payload len now_ms v
Step-IsValid (claim id delivery) v = tx_payload_claim-IsValid _ id delivery v
Step-IsValid (commit c len now_ms handled) v = tx_payload_commit-IsValid _ c len now_ms handled v
Step-IsValid (abort c) v = tx_payload_abort-IsValid _ c v
Step-IsValid (consumed token io_ok) v = tx_consumed-IsValid _ token io_ok v
Step-IsValid (drained token io_ok) v = tx_drained-IsValid _ token io_ok v
Step-IsValid writable v = tx_writable-IsValid _ v
Step-IsValid (polled r now_ms) v = poll-IsValid r _ now_ms v
Step-IsValid (cancel handle) v = tx_cancel-IsValid _ handle v
Step-IsValid (take handle) v = tx_take-IsValid _ handle v
Step-IsValid (release e) v = event_release-IsValid _ e v
Step-IsValid (sink k) v = set_sink-IsValid _ k v
Step-IsValid (drain required) v = set_tx_drain_required-IsValid _ required v

pub data Runs (s : Link) : Link → Type 0 where
  begun : Runs s s
  stepped : {s' s'' : Link} → Runs s s' → Step s' s'' → Runs s s''

fresh_link-IsValid :
    (m : Mem) (c : Config) (st : Storage) (session retries fallback : ℕ)
    → IsValid (fresh_link m c st session retries fallback)
unfolding fresh_link
fresh_link-IsValid m c st session retries fallback = ground arith

-- A link that `wl_init` set up is valid after every sequence of sends, claims, commits, aborts, reports
-- of the transport, passes of the owner, cancels, takes, releases and changes of the sink: the
-- transport holds one unit at most, and what it holds is not queued as well; a control unit that it
-- holds is kept; there is a handle exactly when the transaction is not idle; one that waits has a
-- reason; a reliable unit in flight belongs to a transaction, and one that is queued to one that
-- sends; while a transaction sends or waits, the retries that are left and those that were used add up
-- to the maximum; and the mark of a running callback is clear.
pub Runs-IsValid :
    (m : Mem) (c : Config) (st : Storage) (session retries fallback : ℕ) {s : Link}
    → Runs (fresh_link m c st session retries fallback) s
    → IsValid s
Runs-IsValid m c st session retries fallback begun =
    fresh_link-IsValid m c st session retries fallback
Runs-IsValid m c st session retries fallback (stepped r t) =
    Step-IsValid t (Runs-IsValid m c st session retries fallback r)
