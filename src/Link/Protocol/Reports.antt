-- ===== src/Link/Protocol/Reports.antt =====
-- The reports of the transport, and the frames that arrive, keep the invariant of a link.
use wirelink.Common.{ℕ, ◌+◌, ◌≡◌, ◌≢◌, refl, arith, inl, inr, Bool, true, false, not, ◌&&◌, ◌||◌}
use wirelink.Common.{ltb, ◌==◌, if◌then◌else◌, u32, Bool-cases, if_intro}
use wirelink.Link.Status.{Status, is_ok}
use wirelink.Link.Cobs
use wirelink.Link.Frame.{View, is_reliable}
use wirelink.Link.Protocol.{Link, Outcome, push_event, push_tx_event, complete_unreliable_tx}
use wirelink.Link.Protocol.Transmit.{has_sink, send_tx_payload, send_ack, submit_ack}
use wirelink.Link.Protocol.Completion.{
  data_released, unreliable_consumed, fail_io, after_retry, reliable_consumed, tx_consumed,
  tx_drained,
}
use wirelink.Link.Protocol.Receive.{
  handle_ack, accept_reliable, is_duplicate, route_reliable, route_view, bad_frame,
}
use wirelink.Link.Protocol.Valid.{
  IsValid, IsSubmitted, push_tx_event-IsValid, push_event-IsValid, submit_control-IsValid,
  send_tx_payload-IsSubmitted,
}

-- A transaction fails with nothing in flight or queued for it.
pub fail_io-IsValid :
    (s : Link)
    → s.tx_inflight ≡ false
    → s.control_inflight ≡ false
    → s.tx_queued ≡ false
    → s.tx_handle ≢ 0
    → s.in_callback ≡ false
    → IsValid (fail_io s)
unfolding push_tx_event push_event
fail_io-IsValid s f c q h b = ground arith

reliable_retry-IsValid :
    (s : Link) (o : Outcome)
    → IsSubmitted s o
    → s.tx_queued ≡ false
    → s.tx_handle ≢ 0
    → s.tx_retries_left ≢ 0
    → IsValid (after_retry o)
reliable_retry-IsValid s o r q h left = submit_control-IsValid _ (elim (Bool-cases (is_ok o.0)) [
  | inl t ↦ let v = (r.sent t).0 in rw t (ground (arith, v, r))
  | inr f ↦ rw f (
      fail_io-IsValid o.1 (r.unsent f).0 r.control_free (ground (arith, r.unsent f))
        (ground (arith, r)) r.idle_callback)
])

reliable_consumed-IsValid :
    (s : Link) (io_ok : Bool)
    → IsValid s
    → s.tx_inflight ≡ false
    → s.control_inflight ≡ false
    → s.tx_queued ≡ false
    → s.tx_handle ≢ 0
    → IsValid (reliable_consumed s io_ok)
unfolding reliable_consumed
reliable_consumed-IsValid s io_ok v f c q h =
    if_intro IsValid s.tx_cancel_requested (λ t. submit_control-IsValid _ (ground (arith, v)))
      (λ t.
        if_intro IsValid (not (s.tx_state == 1)) (λ e. submit_control-IsValid s v)
          (λ e.
            if_intro IsValid io_ok (λ o. submit_control-IsValid _ (ground (arith, v)))
              (λ o.
                if_intro IsValid (not (s.tx_retries_left == 0))
                  (λ z.
                    if_intro IsValid s.control_pending
                      (λ p. submit_control-IsValid _ (ground (arith, v)))
                      (λ p.
                        reliable_retry-IsValid s (send_tx_payload s)
                          (send_tx_payload-IsSubmitted s (ground (arith, v))) q h (ground arith)))
                  (λ z. submit_control-IsValid _ (fail_io-IsValid s f c q h v.idle_callback)))))

-- An outcome with a valid link.
abbrev pub Keeps : Outcome → Type 0
Keeps o = IsValid o.1

unreliable_consumed-IsValid :
    (io_ok : Bool) (o : Outcome) → Keeps o → Keeps (unreliable_consumed io_ok o)
unreliable_consumed-IsValid io_ok o v = submit_control-IsValid _ (ground (arith, v))

pub complete_unreliable_tx-IsValid : (s : Link) → IsValid s → Keeps (complete_unreliable_tx s)
unfolding complete_unreliable_tx
complete_unreliable_tx-IsValid s v = ground (arith, v)

pub tx_consumed-IsValid :
    (s : Link) (token : ℕ) (io_ok : Bool) → IsValid s → Keeps (tx_consumed s token io_ok)
unfolding tx_consumed
tx_consumed-IsValid s token io_ok v =
    if_intro Keeps (not s.initialized) (λ i. v)
      (λ i.
        if_intro Keeps (not (token == s.tx_token)) (λ t. v)
          (λ t.
            if_intro Keeps (not s.tx_inflight && not s.control_inflight) (λ n. v)
              (λ n.
                if_intro Keeps s.control_inflight (λ c. ground (arith, v))
                  (λ c.
                    if_intro Keeps (not s.in_flight_reliable)
                      (λ r.
                        let d = data_released s token io_ok in
                        unreliable_consumed-IsValid io_ok
                          (if io_ok then complete_unreliable_tx d else (Status.ok, d))
                          (if_intro Keeps io_ok
                            (λ o. complete_unreliable_tx-IsValid _ (ground (arith, v)))
                            (λ o. ground (arith, v))))
                      (λ r.
                        reliable_consumed-IsValid _ io_ok (ground (arith, v)) refl c
                          (ground (arith, v)) (ground (arith, v)))))))

pub tx_drained-IsValid :
    (s : Link) (token : ℕ) (io_ok : Bool) → IsValid s → Keeps (tx_drained s token io_ok)
unfolding tx_drained
tx_drained-IsValid s token io_ok v =
    if_intro Keeps (not s.initialized) (λ i. v)
      (λ i.
        if_intro Keeps (not s.tx_drain_pending || not (token == s.tx_drain_token)) (λ t. v)
          (λ t.
            if_intro Keeps (s.tx_drain_reliable && s.tx_state == 2 && s.tx_wait_state == 2)
              (λ w.
                if_intro Keeps io_ok (λ o. ground (arith, v))
                  (λ o.
                    let failed =
                      push_tx_event-IsValid
                        (record s {
                          tx_drain_pending = false;
                          tx_writable = true;
                          resource_generation = u32 (s.resource_generation + 1);
                          tx_state = 4;
                          tx_wait_state = 0;
                          tx_result_code = Status.io;
                        })
                        5 (ground (arith, v)) in
                    ground (arith, failed)))
              (λ w. ground (arith, v))))

pub handle_ack-IsValid : (s : Link) (view : View) → IsValid s → IsValid (handle_ack s view).1
unfolding handle_ack push_tx_event push_event
handle_ack-IsValid s view v = ground (arith, v)

submit_ack-IsValid : (s : Link) (r : Cobs.Result) → IsValid s → Keeps (submit_ack s r)
unfolding submit_ack
submit_ack-IsValid s r v =
    if_intro Keeps (is_ok r.status) (λ o. submit_control-IsValid _ (ground (arith, v)))
      (λ o. ground (arith, v))

pub send_ack-IsValid : (s : Link) (view : View) → IsValid s → Keeps (send_ack s view)
unfolding send_ack
send_ack-IsValid s view v =
    if_intro Keeps (not s.initialized || not (has_sink s.sink)) (λ i. v)
      (λ i.
        if_intro Keeps s.in_callback (λ c. v)
          (λ c. if_intro Keeps s.control_pending (λ p. v) (λ p. submit_ack-IsValid s _ v)))

accept_reliable-IsValid : (view : View) (o : Outcome) → Keeps o → Keeps (accept_reliable view o)
accept_reliable-IsValid view o v =
    if_intro Keeps (is_ok o.0) (λ t. send_ack-IsValid _ view (ground (arith, v))) (λ t. v)

pub route_view-IsValid : (s : Link) (view : View) → IsValid s → Keeps (route_view s view)
unfolding route_view route_reliable
route_view-IsValid s view v =
    if_intro Keeps (ltb s.config.max_payload_len view.payload_len) (λ l. v)
      (λ l.
        if_intro Keeps (view.type == 1)
          (λ d.
            if_intro Keeps (is_reliable view.flags)
              (λ r.
                if_intro Keeps (is_duplicate view s)
                  (λ e. send_ack-IsValid _ view (ground (arith, v)))
                  (λ e.
                    accept_reliable-IsValid view _
                      (push_event-IsValid s 2 view.message_id view.payload view.payload_len 0 v)))
              (λ r. push_event-IsValid s 1 view.message_id view.payload view.payload_len 0 v))
          (λ d.
            if_intro Keeps (view.type == 2) (λ a. handle_ack-IsValid s view v)
              (λ a. if_intro Keeps (view.type == 3) (λ n. ground (arith, v)) (λ n. v))))

pub bad_frame-IsValid : (s : Link) (error : Status) → IsValid s → IsValid (bad_frame s error)
unfolding bad_frame
bad_frame-IsValid s error v = ground (arith, v)
