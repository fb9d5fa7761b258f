-- ===== src/Link/Protocol/Passes.antt =====
-- The claims of the application, and the passes of the owner, keep the invariant of a link.
use wirelink.Common.{ℕ, ◌+◌, ◌≡◌, ◌≢◌, refl, arith, inl, inr, Bool, true, false, not, ◌&&◌, ◌||◌}
use wirelink.Common.{ltb, leb, ◌==◌, if◌then◌else◌, Bool-cases, if_intro}
use wirelink.Link.Status.{is_ok}
use wirelink.Link.Protocol.{Link, Outcome, push_event, data_busy}
use wirelink.Link.Protocol.Transmit.{submit_data, send_tx_payload, invalidate_tx_image}
use wirelink.Link.Protocol.Claims.{
  Claim, Claimed, tx_payload_claim, tx_payload_commit, tx_payload_abort, claim_packet,
  commit_packet, end_claim, tx_claim_matches,
}
use wirelink.Link.Protocol.Poll.{
  Routed, nothing, decoded, routed, refused, dropped, Receiver, publish_pending, receive, retried,
  submit_queued, after_timeout, timer_runs, elapsed, expire, poll_transport_progress, has_work,
  publish_completion, hand_out, Polled, poll, progress, may_submit,
}
use wirelink.Link.Protocol.Valid.{
  IsValid, IsSendable, IsSubmitted, push_event-IsValid, push_tx_event-IsValid,
  submit_control-IsValid, send_tx_payload-IsSubmitted,
}
use wirelink.Link.Protocol.Reports.{Keeps, fail_io-IsValid, route_view-IsValid, bad_frame-IsValid}
use wirelink.Link.Protocol.Requests.{SentKeeps, submit_data-IsValid, send_frame_internal-IsValid}

abbrev ClaimKeeps : Claimed → Type 0
ClaimKeeps r = IsValid r.link

invalidated-IsValid : (s : Link) → IsValid s → IsValid (invalidate_tx_image s)
unfolding invalidate_tx_image
invalidated-IsValid s v = ground (arith, v)

claimed-IsValid :
    (s : Link) (reliable : Bool)
    → IsValid s
    → IsValid (if reliable then s else invalidate_tx_image s)
claimed-IsValid s reliable v = if_intro IsValid reliable (λ r. v) (λ r. invalidated-IsValid s v)

pub tx_payload_claim-IsValid :
    (s : Link) (id : ℕ) (reliable : Bool) → IsValid s → ClaimKeeps (tx_payload_claim s id reliable)
unfolding tx_payload_claim
tx_payload_claim-IsValid s id reliable v =
    if_intro ClaimKeeps (id == 0) (λ a. v)
      (λ a.
        if_intro ClaimKeeps (not s.initialized) (λ b. v)
          (λ b.
            if_intro ClaimKeeps (s.tx_claim_active || data_busy s reliable) (λ c. v)
              (λ c.
                if_intro ClaimKeeps (not reliable && s.tx_unreliable_completions == 0xffffffff)
                  (λ d. v) (λ d. let w = claimed-IsValid s reliable v in ground (arith, w)))))

numbered-IsValid :
    (s : Link)
    → IsValid s
    → IsValid (
        if s.tx_claim_reliable
        then record (end_claim s) { tx_sequence = s.tx_sequence + 1 }
        else end_claim s)
numbered-IsValid s v =
    if_intro IsValid s.tx_claim_reliable (λ r. ground (arith, v)) (λ r. ground (arith, v))

pub tx_payload_commit-IsValid :
    (s : Link) (claim : Claim) (len now_ms : ℕ) (handled : Bool)
    → IsValid s
    → SentKeeps (tx_payload_commit s claim len now_ms handled)
unfolding tx_payload_commit commit_packet
tx_payload_commit-IsValid s claim len now_ms handled v =
    if_intro SentKeeps (not s.initialized) (λ a. v)
      (λ a.
        if_intro SentKeeps (not (tx_claim_matches s claim)) (λ b. v)
          (λ b.
            if_intro SentKeeps (ltb s.tx_claim_length len || s.tx_claim_reliable && not handled)
              (λ c. ground (arith, v))
              (λ c.
                if_intro SentKeeps (s.tx_claim_reliable && s.tx_sequence == 0xffffffff)
                  (λ d. ground (arith, v))
                  (λ d.
                    send_frame_internal-IsValid _ (claim_packet s claim len) s.tx_claim_reliable
                      true now_ms (numbered-IsValid s v)))))

pub tx_payload_abort-IsValid :
    (s : Link) (claim : Claim) → IsValid s → Keeps (tx_payload_abort s claim)
unfolding tx_payload_abort
tx_payload_abort-IsValid s claim v =
    if_intro Keeps (not s.initialized) (λ a. v)
      (λ a. if_intro Keeps (not (tx_claim_matches s claim)) (λ b. v) (λ b. ground (arith, v)))

pub Routed-IsValid : {s s' : Link} → Routed s s' → IsValid s → IsValid s'
Routed-IsValid nothing v = v
Routed-IsValid (decoded m source r) v = let w = Routed-IsValid r v in ground (arith, w)
Routed-IsValid (routed view r) v = route_view-IsValid _ view (Routed-IsValid r v)
Routed-IsValid (refused error r) v = bad_frame-IsValid _ error (Routed-IsValid r v)
Routed-IsValid (dropped overflow r) v = let w = Routed-IsValid r v in ground (arith, w)

publish_pending-IsValid : (s : Link) → IsValid s → IsValid (publish_pending s)
unfolding publish_pending
publish_pending-IsValid s v =
    if_intro IsValid
      (not (s.tx_pending_event == 0)
        && not s.has_event
        && not (s.tx_inflight && s.in_flight_reliable))
      (λ t.
        let w = push_event-IsValid s s.tx_pending_event 0 0 0 s.tx_handle v in ground (arith, w))
      (λ t. v)

receive-IsValid : (r : Receiver) (s : Link) → IsValid s → IsValid (receive r s)
unfolding receive
receive-IsValid r s v =
    if_intro IsValid (not s.control_pending && not s.has_event && not s.rx_event_leased)
      (λ t. Routed-IsValid (r.routes s) v) (λ t. v)

-- A queued reliable unit that cannot be sent fails the transaction.
retried_reliable-IsValid :
    (s : Link) (o : Outcome) → IsSubmitted s o → s.tx_handle ≢ 0 → IsValid (retried true o)
retried_reliable-IsValid s o r h =
    if_intro IsValid (is_ok o.0) (λ t. (r.sent t).0)
      (λ t.
        let u = r.unsent t in
        fail_io-IsValid (record o.1 { tx_queued = false; in_flight_reliable = false }) u.0
          r.control_free refl (ground (arith, r)) r.idle_callback)

retried_unreliable-IsValid : (o : Outcome) → Keeps o → IsValid (retried false o)
retried_unreliable-IsValid o v = if_intro IsValid (is_ok o.0) (λ t. v) (λ t. ground (arith, v))

submit_queued-IsValid : (s : Link) → IsValid s → IsValid (submit_queued s)
unfolding submit_queued
submit_queued-IsValid s v =
    if_intro IsValid (may_submit s)
      (λ t. elim (Bool-cases s.in_flight_reliable) [
        | inl r ↦
            let h : IsSendable s = ground (arith, v) in
            simp r (
              retried_reliable-IsValid s (send_tx_payload s) (send_tx_payload-IsSubmitted s h)
                (ground (arith, v)))
        | inr r ↦ simp r (
            retried_unreliable-IsValid (submit_data s false)
              (submit_data-IsValid s v (ground (arith, v))))
      ])
      (λ t. v)

after_timeout-IsValid :
    (s : Link) (now_ms : ℕ) (o : Outcome)
    → IsSubmitted s o
    → s.tx_queued ≡ false
    → s.tx_handle ≢ 0
    → s.tx_retries_left ≢ 0
    → IsValid (after_timeout now_ms o)
after_timeout-IsValid s now_ms o r q h left =
    if_intro IsValid (is_ok o.0) (λ t. let v = (r.sent t).0 in ground (arith, v, r))
      (λ t.
        let u = r.unsent t in
        fail_io-IsValid o.1 u.0 r.control_free (ground (arith, u)) (ground (arith, r))
          r.idle_callback)

expire-IsValid : (s : Link) (now_ms : ℕ) → IsValid s → IsValid (expire s now_ms)
unfolding expire
expire-IsValid s now_ms v =
    if_intro IsValid (timer_runs s && leb s.config.ack_timeout_ms (elapsed now_ms s.tx_start_ts))
      (λ t.
        if_intro IsValid (s.tx_retries_left == 0)
          (λ z. push_tx_event-IsValid _ 4 (ground (arith, v)))
          (λ z.
            let h : IsSendable s = ground (arith, v) in
            let r = send_tx_payload-IsSubmitted s h in
            after_timeout-IsValid s now_ms _ r (ground (arith, v)) (ground (arith, v))
              (ground arith)))
      (λ t. v)

pub poll_transport_progress-IsValid :
    (r : Receiver) (s : Link) (now_ms : ℕ)
    → IsValid s
    → IsValid (poll_transport_progress r s now_ms)
unfolding poll_transport_progress
poll_transport_progress-IsValid r s now_ms v = expire-IsValid _ now_ms (
    submit_queued-IsValid _
      (receive-IsValid r _ (publish_pending-IsValid _ (submit_control-IsValid s v))))

publish_completion-IsValid : (s : Link) → IsValid s → IsValid (publish_completion s)
unfolding publish_completion
publish_completion-IsValid s v =
    if_intro IsValid (not s.has_event && not (s.tx_unreliable_completions == 0))
      (λ t.
        let w = push_event-IsValid s 3 0 0 0 0 v in
        if_intro IsValid (is_ok (push_event s 3 0 0 0 0).0) (λ o. ground (arith, w)) (λ o. w))
      (λ t. v)

abbrev PolledKeeps : Polled → Type 0
PolledKeeps r = IsValid r.link

hand_out-IsValid : (s : Link) → IsValid s → PolledKeeps (hand_out s)
hand_out-IsValid s v = if_intro PolledKeeps (not s.has_event) (λ e. v) (λ e. ground (arith, v))

progress-IsValid :
    (r : Receiver) (s : Link) (now_ms : ℕ) → IsValid s → IsValid (progress r s now_ms)
unfolding progress
progress-IsValid r s now_ms v =
    if_intro IsValid (has_work r s) (λ h. poll_transport_progress-IsValid r s now_ms v) (λ h. v)

pub poll-IsValid :
    (r : Receiver) (s : Link) (now_ms : ℕ) → IsValid s → PolledKeeps (poll r s now_ms)
unfolding poll
poll-IsValid r s now_ms v =
    if_intro PolledKeeps (not s.initialized) (λ i. v)
      (λ i.
        hand_out-IsValid _
          (publish_completion-IsValid _ (progress-IsValid r _ now_ms (ground (arith, v)))))
