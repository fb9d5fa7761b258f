-- ===== src/Link/Protocol/Timeout.antt =====
-- The end of a reliable transaction that is never acknowledged: how `wl_poll` retries and gives up.
use wirelink.Common.{ℕ, ◌+◌, ◌-◌, ◌^◌, ◌<◌, ◌≤◌, ◌≡◌, ◌≢◌, refl, arith, ap, true, false, not, ◌&&◌}
use wirelink.Common.{none, some, leb, ◌==◌, u32, if_intro}
use wirelink.Link.Status.{Status}
use wirelink.Link.Protocol.{Link, Sink, push_event, push_tx_event}
use wirelink.Link.Protocol.Transmit.{
  send_tx_payload, submit_data, submit_data_to, data_submitted, submit_control, next_io_token,
}
use wirelink.Link.Protocol.Poll.{
  Receiver, publish_pending, receive, submit_queued, after_timeout, time_out, elapsed, expire,
  poll_transport_progress, publish_completion, hand_out, poll, timer_runs, progress, may_submit,
  has_work,
}

-- A link that waits for an ACK over a transport that sends every unit at once, with nothing else to
-- do: its reliable image is encoded, and no event, control unit, claim or completion is pending.
pub record IsWaiting (s : Link) : Type 0 where
  pub up : s.initialized ≡ true
  pub transport : (k : Sink) × (s.sink ≡ some k) × ((t u n : ℕ) → k t u n ≡ 0)
  pub image : s.tx_encoded_len ≢ 0
  pub waiting : (s.tx_state ≡ 2) × (s.tx_wait_state ≡ 1)
  pub timed : s.config.ack_timeout_ms ≢ 0
  pub started : s.tx_start_ts < 2 ^ 32
  pub line : (s.tx_inflight ≡ false) × (s.tx_queued ≡ false) × (s.control_pending ≡ false)
  pub quiet :
      (s.has_event ≡ false)
      × (s.tx_pending_event ≡ 0)
      × (s.tx_unreliable_completions ≡ 0)
      × (s.tx_claim_active ≡ false)
      × (s.in_callback ≡ false)

-- A retry over such a transport.
abbrev pub resent : Link → ℕ → Link
resent s now_ms = record s {
  tx_token = next_io_token s.tx_token;
  in_callback = false;
  tx_inflight = false;
  tx_queued = false;
  in_flight_reliable = false;
  tx_state = 2;
  tx_wait_state = 1;
  tx_start_ts = now_ms;
}

send_tx_payload-sent : (s : Link) → IsWaiting s → send_tx_payload s ≡ (Status.ok, resent s s.now_ms)
unfolding send_tx_payload submit_data submit_data_to data_submitted
send_tx_payload-sent s w =
    let (k, e, sends) = w.transport in
    let fresh : (s.tx_encoded_len == 0) ≡ false = ground (arith, w.image) in
    let token = next_io_token s.tx_token in
    let sent = sends token s.storage.tx_unit s.tx_encoded_len in
    simp (w.up, w.quiet.4, e, fresh, sent)

submit_control-idle : (s : Link) → IsWaiting s → submit_control s ≡ (Status.ok, s)
unfolding submit_control
submit_control-idle s w = simp (w.line.2)

-- The time `d` after the last transmission.
abbrev pub after : Link → ℕ → ℕ
after s d = u32 (s.tx_start_ts + d)

-- A receiver with nothing to deliver.
abbrev pub IsIdle : Receiver → Type 0
IsIdle r = (s : Link) → r.process_rx s ≡ s

module _ (r : Receiver) (idle : IsIdle r) (s : Link) (w : IsWaiting s) where
  publish_pending-idle : publish_pending s ≡ s
  unfolding publish_pending
  publish_pending-idle = simp (w.quiet.1)

  receive-idle : receive r s ≡ s
  unfolding receive
  receive-idle =
      if_intro (λ t. t ≡ s) (not s.control_pending && not s.has_event && not s.rx_event_leased)
        (λ t. idle s) (λ t. refl)

  submit_queued-idle : submit_queued s ≡ s
  unfolding submit_queued
  submit_queued-idle =
      if_intro (λ t. t ≡ s) (may_submit s) (λ t. absurd (ground (arith, w.line))) (λ t. refl)

  poll_transport_progress-idle : (now_ms : ℕ) → poll_transport_progress r s now_ms ≡ expire s now_ms
  unfolding poll_transport_progress
  poll_transport_progress-idle now_ms =
      rw (submit_control-idle s w, publish_pending-idle, receive-idle, submit_queued-idle)

  abbrev clocked : ℕ → Link
  clocked now_ms = record s { now_ms = now_ms }

-- A pass at the time `d` after the last transmission.
module _ (r : Receiver) (idle : IsIdle r) (s : Link) (w : IsWaiting s) (d : ℕ) (small : d < 2 ^ 32)
    (late : s.config.ack_timeout_ms ≤ d) where
  abbrev pub now : ℕ
  now = after s d

  abbrev pub at_now : Link
  at_now = record s { now_ms = now }

  at_now-IsWaiting : IsWaiting at_now
  at_now-IsWaiting = record {
    up = w.up;
    transport = w.transport;
    image = w.image;
    waiting = w.waiting;
    timed = w.timed;
    started = w.started;
    line = w.line;
    quiet = w.quiet;
  }

  due : (timer_runs at_now && leb s.config.ack_timeout_ms (elapsed now s.tx_start_ts)) ≡ true
  due =
      let e : elapsed now s.tx_start_ts ≡ d = omega (arith, w.started, small) in
      ground (arith, w, e, late)

  progress-due : progress r at_now now ≡ expire at_now now
  unfolding progress
  progress-due =
      if_intro (λ t. t ≡ expire at_now now) (has_work r at_now)
        (λ h. poll_transport_progress-idle r idle at_now at_now-IsWaiting now)
        (λ h. absurd (ground (arith, w.waiting, h)))

  pub poll-due : poll r s now ≡ hand_out (publish_completion (expire at_now now))
  unfolding poll
  poll-due =
      if_intro (λ p. p ≡ hand_out (publish_completion (expire at_now now))) (not s.initialized)
        (λ i. absurd (ground (arith, w.up)))
        (λ i. ap (λ t. hand_out (publish_completion t)) progress-due)

  -- What a pass leaves where a retry is left.
  abbrev pub retried_link : Link
  retried_link = record (resent at_now now) {
    tx_retries_left = s.tx_retries_left - 1;
    tx_retries_used = s.tx_retries_used + 1;
    tx_start_ts = now;
  }

  expire-retry : s.tx_retries_left ≢ 0 → expire at_now now ≡ retried_link
  unfolding expire
  expire-retry more =
      if_intro (λ t. t ≡ retried_link)
        (timer_runs at_now && leb s.config.ack_timeout_ms (elapsed now s.tx_start_ts))
        (λ t.
          if_intro (λ t. t ≡ retried_link) (s.tx_retries_left == 0) (λ z. absurd (ground arith))
            (λ z. ap (after_timeout now) (send_tx_payload-sent at_now at_now-IsWaiting)))
        (λ t. absurd (ground (arith, due)))

  pub publish_completion-idle :
      (t : Link) → t.tx_unreliable_completions ≡ 0 → publish_completion t ≡ t
  unfolding publish_completion
  publish_completion-idle t z =
      if_intro (λ u. u ≡ t) (not t.has_event && not (t.tx_unreliable_completions == 0))
        (λ h. absurd (ground arith)) (λ h. refl)

  pub poll-retry :
      s.tx_retries_left ≢ 0
      → poll r s now ≡ record { status = Status.no_data; link = retried_link; event = none }
  poll-retry more =
      rw (poll-due, expire-retry more, publish_completion-idle retried_link w.quiet.2)
        (if_intro (λ p. p ≡ record { status = Status.no_data; link = retried_link; event = none })
          (not s.has_event) (λ h. refl) (λ h. absurd (ground (arith, w.quiet))))

  pub retried-IsWaiting : IsWaiting retried_link
  retried-IsWaiting = record {
    up = w.up;
    transport = w.transport;
    image = w.image;
    waiting = (refl, refl);
    timed = w.timed;
    started = omega arith;
    line = (refl, refl, w.line.2);
    quiet = (w.quiet.0, w.quiet.1, w.quiet.2, w.quiet.3, refl);
  }

  pub expire-last : s.tx_retries_left ≡ 0 → expire at_now now ≡ time_out at_now
  unfolding expire
  expire-last none_left =
      if_intro (λ t. t ≡ time_out at_now)
        (timer_runs at_now && leb s.config.ack_timeout_ms (elapsed now s.tx_start_ts))
        (λ t.
          if_intro (λ t. t ≡ time_out at_now) (s.tx_retries_left == 0) (λ z. refl)
            (λ z. absurd (ground arith)))
        (λ t. absurd (ground (arith, due)))

  pub time_out-published :
      let t = time_out at_now in
      (t.has_event ≡ true)
      × (t.event.type ≡ 4)
      × (t.event.handle ≡ s.tx_handle)
      × (t.tx_state ≡ 4)
      × (t.tx_result_code ≡ Status.timeout)
      × (t.tx_unreliable_completions ≡ 0)
      × (t.tx_retries_used ≡ s.tx_retries_used)
  unfolding push_tx_event push_event
  time_out-published = ground (arith, w.line, w.quiet)
