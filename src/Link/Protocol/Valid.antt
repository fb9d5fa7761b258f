-- ===== src/Link/Protocol/Valid.antt =====
-- The invariant of a link, and that the sending functions of src/protocol.c keep it.
use wirelink.Common.{ℕ, ◌+◌, ◌≤◌, ◌≡◌, ◌≢◌, ◌⊎◌, arith, inl, inr, true, false, not, ◌||◌}
use wirelink.Common.{Option, none, some, Bool-cases}
use wirelink.Link.Status.{is_ok}
use wirelink.Link.Protocol.{Link, Outcome, Sink, push_event, push_tx_event}
use wirelink.Link.Cobs
use wirelink.Link.Protocol.Transmit.{
  encoded, submit_encoded, send_tx_payload, link_encode, tx_wire, data_submitted, submit_data_to,
  submit_data, submit_control_to, submit_control, control_submitted,
}

pub record IsValid (s : Link) : Type 0 where
  -- The sink has one unit at most, which is not queued as well.
  pub one_unit : s.tx_inflight ≡ true → s.control_inflight ≡ false
  pub not_queued : s.tx_inflight ≡ true → s.tx_queued ≡ false
  pub control_kept : s.control_inflight ≡ true → s.control_pending ≡ true
  -- A transaction has a handle until it is taken.
  pub handled : (s.tx_state ≡ 0 → s.tx_handle ≡ 0) × (s.tx_handle ≡ 0 → s.tx_state ≡ 0)
  pub range : s.tx_state ≤ 5
  pub waits : s.tx_state ≡ 2 → s.tx_wait_state ≢ 0
  pub flying : s.tx_inflight ≡ true → s.in_flight_reliable ≡ true → s.tx_state ≢ 0
  pub parked : s.tx_queued ≡ true → s.in_flight_reliable ≡ true → s.tx_state ≡ 1
  pub retries :
      (s.tx_state ≡ 1) ⊎ (s.tx_state ≡ 2) → s.tx_retries_left + s.tx_retries_used ≡ s.tx_retries_max
  pub idle_callback : s.in_callback ≡ false

pub push_event-IsValid : (s : Link) (t i p n h : ℕ) → IsValid s → IsValid (push_event s t i p n h).1
unfolding push_event
push_event-IsValid s t i p n h v = ground (arith, v)

control_submitted-IsValid :
    (s : Link) (answer : ℕ)
    → IsValid s
    → s.control_pending ≡ true
    → s.control_inflight ≡ false
    → s.tx_inflight ≡ false
    → IsValid (control_submitted s answer).1
unfolding control_submitted
control_submitted-IsValid s answer v p c t = ground (arith, v)

submit_control_to-IsValid :
    (sink : Option Sink) (s : Link)
    → IsValid s
    → s.control_pending ≡ true
    → s.control_inflight ≡ false
    → s.tx_inflight ≡ false
    → IsValid (submit_control_to sink s).1
unfolding submit_control_to control_submitted
submit_control_to-IsValid none s v p c t = v
submit_control_to-IsValid (some sink) s v p c t = ground (arith, v)

pub submit_control-IsValid : (s : Link) → IsValid s → IsValid (submit_control s).1
unfolding submit_control
submit_control-IsValid s v =
    elim (Bool-cases (
      not s.control_pending
      || s.control_inflight
      || s.tx_inflight
      || s.tx_drain_pending
      || not s.tx_writable)) [
        | inl t ↦ rw t v
        | inr f ↦
            rw f (submit_control_to-IsValid s.sink s v (ground arith) (ground arith) (ground arith))
      ]

pub push_tx_event-IsValid : (s : Link) (t : ℕ) → IsValid s → IsValid (push_tx_event s t)
unfolding push_tx_event push_event
push_tx_event-IsValid s t v = ground (arith, v)

-- What a reliable submission has to find.
pub record IsSendable (s : Link) : Type 0 where
  pub free : s.tx_inflight ≡ false
  pub control_free : s.control_inflight ≡ false
  pub opened : s.tx_handle ≢ 0
  pub range : s.tx_state ≤ 5
  pub retries : s.tx_retries_left + s.tx_retries_used ≡ s.tx_retries_max
  pub idle_callback : s.in_callback ≡ false

-- What it leaves: a valid link that sends or waits, or one with nothing in flight to fail.
pub record IsSubmitted (s : Link) (o : Outcome) : Type 0 where
  pub sent : is_ok o.0 ≡ true → IsValid o.1 × ((o.1.tx_state ≡ 1) ⊎ (o.1.tx_state ≡ 2))
  pub unsent :
      is_ok o.0 ≡ false → (o.1.tx_inflight ≡ false) × (o.1.tx_queued ≡ true → s.tx_queued ≡ true)
  pub control_free : o.1.control_inflight ≡ false
  pub same_pending : o.1.control_pending ≡ s.control_pending
  pub same_handle : o.1.tx_handle ≡ s.tx_handle
  pub same_left : o.1.tx_retries_left ≡ s.tx_retries_left
  pub same_used : o.1.tx_retries_used ≡ s.tx_retries_used
  pub same_max : o.1.tx_retries_max ≡ s.tx_retries_max
  pub idle_callback : o.1.in_callback ≡ false

data_submitted-IsSubmitted :
    (s : Link) (answer : ℕ) → IsSendable s → IsSubmitted s (data_submitted s true answer)
unfolding data_submitted
data_submitted-IsSubmitted s answer v = ground (arith, v)

submit_data_to-IsSubmitted :
    (sink : Option Sink) (s : Link) → IsSendable s → IsSubmitted s (submit_data_to sink s true)
unfolding submit_data_to data_submitted
submit_data_to-IsSubmitted none s v = ground (arith, v)
submit_data_to-IsSubmitted (some sink) s v = ground (arith, v)

submit_encoded-IsSubmitted :
    (s : Link) (r : Cobs.Result) → IsSendable s → IsSubmitted s (submit_encoded s r)
unfolding submit_encoded submit_data
submit_encoded-IsSubmitted s r v =
    let s' = record s { mem = r.mem; tx_encoded_len = encoded r } in
    let v' : IsSendable s' = ground (arith, v) in
    let o = submit_data_to-IsSubmitted s.sink s' v' in
    elim (Bool-cases (is_ok r.status)) [
      | inl t ↦ rw t (ground (arith, o))
      | inr f ↦ rw f (ground (arith, v))
    ]

pub send_tx_payload-IsSubmitted : (s : Link) → IsSendable s → IsSubmitted s (send_tx_payload s)
unfolding send_tx_payload submit_data
send_tx_payload-IsSubmitted s v = ground (
  arith,
  v,
  submit_data_to-IsSubmitted s.sink s v,
  submit_encoded-IsSubmitted s (link_encode s (tx_wire s) s.storage.tx_unit s.storage.tx_unit_size)
      v,
)
