-- ===== src/Link/Protocol/Requests.antt =====
-- The calls of the application, and the passes of the owner, keep the invariant of a link.
use wirelink.Common.{ℕ, ◌+◌, ◌≡◌, arith, Bool, true, false, not, ◌&&◌, ◌||◌}
use wirelink.Common.{Option, none, some, ltb, ◌==◌, if_intro}
use wirelink.Link.Status.{is_ok}
use wirelink.Link.Cobs
use wirelink.Link.Frame.{Packet}
use wirelink.Link.Protocol.{Link, Outcome, Sink, Event, data_busy}
use wirelink.Link.Protocol.Transmit.{
  data_submitted, submit_data_to, submit_data, submit_unreliable, send_tx_payload, open_transaction,
  prepare_reliable_payload, settle, invalidate_tx_image, send_frame_internal, send_unreliable,
  send_reliable, Sent,
}
use wirelink.Link.Protocol.Transaction.{
  set_sink, set_tx_drain_required, tx_writable, tx_cancel, tx_take, Taken, event_release, is_over,
}
use wirelink.Link.Protocol.Valid.{IsValid, IsSendable, IsSubmitted, send_tx_payload-IsSubmitted}
use wirelink.Link.Protocol.Reports.{Keeps, complete_unreliable_tx-IsValid}

-- An unreliable unit goes out over a free line.
abbrev IsFree : Link → Type 0
IsFree s = (s.tx_inflight ≡ false) × (s.control_inflight ≡ false)

data_submitted-IsValid :
    (s : Link) (answer : ℕ) → IsValid s → IsFree s → Keeps (data_submitted s false answer)
unfolding data_submitted
data_submitted-IsValid s answer v f =
    if_intro Keeps (answer == 1) (λ a. ground (arith, v, f))
      (λ a.
        if_intro Keeps (answer == 2) (λ b. ground (arith, v, f))
          (λ b.
            if_intro Keeps (answer == 0)
              (λ c. complete_unreliable_tx-IsValid _ (ground (arith, v, f)))
              (λ c. ground (arith, v, f))))

submit_data_to-IsValid :
    (sink : Option Sink) (s : Link) → IsValid s → IsFree s → Keeps (submit_data_to sink s false)
unfolding submit_data_to
submit_data_to-IsValid none s v f = v
submit_data_to-IsValid (some sink) s v f = data_submitted-IsValid _ _ (ground (arith, v)) f

pub submit_data-IsValid : (s : Link) → IsValid s → IsFree s → Keeps (submit_data s false)
unfolding submit_data
submit_data-IsValid s v f = submit_data_to-IsValid s.sink s v f

abbrev pub SentKeeps : Sent → Type 0
SentKeeps r = IsValid r.link

settle-IsValid :
    (s : Link) (handle : ℕ) (o : Outcome)
    → IsSubmitted s o
    → s.tx_queued ≡ false
    → SentKeeps (settle handle o)
settle-IsValid s handle o r q =
    if_intro SentKeeps (is_ok o.0) (λ t. let v = (r.sent t).0 in ground (arith, v))
      (λ t. let u = r.unsent t in ground (arith, u, r))

submit_unreliable-IsValid :
    (s : Link) (r : Cobs.Result) → IsValid s → IsFree s → SentKeeps (submit_unreliable s r)
unfolding submit_unreliable
submit_unreliable-IsValid s r v f =
    if_intro SentKeeps (is_ok r.status) (λ t. submit_data-IsValid _ (ground (arith, v)) f)
      (λ t. ground (arith, v))

invalidate_tx_image-IsValid :
    (s : Link)
    → IsValid s
    → IsFree s
    → IsValid (invalidate_tx_image s) × IsFree (invalidate_tx_image s)
unfolding invalidate_tx_image
invalidate_tx_image-IsValid s v f = ground (arith, v, f)

data_busy-IsFree :
    (s : Link) (reliable : Bool) → data_busy s reliable ≡ false → IsFree s × (s.tx_queued ≡ false)
unfolding data_busy
data_busy-IsFree s reliable h = ground arith

abbrev opened : Link → Packet → Bool → ℕ → Link
opened s p direct now_ms =
    open_transaction (prepare_reliable_payload (record s { now_ms = now_ms }) p direct) p

opened-IsSendable :
    (s : Link) (p : Packet) (direct : Bool) (now_ms : ℕ)
    → IsValid s
    → IsFree s
    → IsSendable (opened s p direct now_ms)
unfolding prepare_reliable_payload
opened-IsSendable s p direct now_ms v f = ground (arith, v, f)

open_reliable-IsValid :
    (s : Link) (p : Packet) (direct : Bool) (now_ms : ℕ)
    → IsValid s
    → IsFree s
    → s.tx_queued ≡ false
    → SentKeeps
        (settle (opened s p direct now_ms).tx_handle (send_tx_payload (opened s p direct now_ms)))
unfolding prepare_reliable_payload
open_reliable-IsValid s p direct now_ms v f q =
    settle-IsValid (opened s p direct now_ms) _ _
      (send_tx_payload-IsSubmitted _ (opened-IsSendable s p direct now_ms v f)) q

pub send_frame_internal-IsValid :
    (s : Link) (p : Packet) (reliable direct : Bool) (now_ms : ℕ)
    → IsValid s
    → SentKeeps (send_frame_internal s p reliable direct now_ms)
unfolding send_frame_internal
send_frame_internal-IsValid s p reliable direct now_ms v =
    if_intro SentKeeps (not (p.payload_len == 0) && p.payload == 0) (λ a. v)
      (λ a.
        if_intro SentKeeps (not s.initialized) (λ b. v)
          (λ b.
            if_intro SentKeeps (s.session_id == 0) (λ c. v)
              (λ c.
                if_intro SentKeeps (ltb s.config.max_payload_len p.payload_len) (λ d. v)
                  (λ d.
                    if_intro SentKeeps (data_busy s reliable) (λ e. v)
                      (λ e.
                        if_intro SentKeeps s.in_callback (λ g. v)
                          (λ g.
                            if_intro SentKeeps
                              (not reliable && s.tx_unreliable_completions == 0xffffffff) (λ h. v)
                              (λ h.
                                if_intro SentKeeps (p.message_id == 0) (λ i. v)
                                  (λ i.
                                    if_intro SentKeeps reliable
                                      (λ r.
                                        let f = data_busy-IsFree s reliable e in
                                        open_reliable-IsValid s p direct now_ms v f.0 f.1)
                                      (λ r.
                                        let f = data_busy-IsFree s reliable e in
                                        let q = invalidate_tx_image-IsValid s v f.0 in
                                        submit_unreliable-IsValid _ _ q.0 q.1)))))))))

pub send_unreliable-IsValid :
    (s : Link) (id payload len : ℕ) → IsValid s → SentKeeps (send_unreliable s id payload len)
unfolding send_unreliable
send_unreliable-IsValid s id payload len v =
    if_intro SentKeeps (not s.initialized) (λ i. v)
      (λ i.
        if_intro SentKeeps s.tx_claim_active (λ c. v)
          (λ c. send_frame_internal-IsValid s _ false false 0 v))

pub send_reliable-IsValid :
    (s : Link) (id payload len now_ms : ℕ)
    → IsValid s
    → SentKeeps (send_reliable s id payload len now_ms)
unfolding send_reliable
send_reliable-IsValid s id payload len now_ms v =
    if_intro SentKeeps (not s.initialized) (λ i. v)
      (λ i.
        if_intro SentKeeps (s.tx_sequence == 0xffffffff) (λ q. v)
          (λ q.
            if_intro SentKeeps s.tx_claim_active (λ c. ground (arith, v))
              (λ c.
                send_frame_internal-IsValid (record s { tx_sequence = s.tx_sequence + 1 }) _ true
                  false now_ms (ground (arith, v)))))

-- The calls of src/transport.c.
pub tx_cancel-IsValid : (s : Link) (handle : ℕ) → IsValid s → Keeps (tx_cancel s handle)
unfolding tx_cancel
tx_cancel-IsValid s handle v =
    if_intro Keeps (not s.initialized) (λ i. v)
      (λ i.
        if_intro Keeps (handle == 0 || not (handle == s.tx_handle)) (λ h. v)
          (λ h.
            if_intro Keeps (s.tx_state == 0 || is_over s.tx_state) (λ o. v)
              (λ o. ground (arith, v))))

abbrev pub TakenKeeps : Taken → Type 0
TakenKeeps r = IsValid r.link

pub tx_take-IsValid : (s : Link) (handle : ℕ) → IsValid s → TakenKeeps (tx_take s handle)
unfolding tx_take
tx_take-IsValid s handle v =
    if_intro TakenKeeps (not s.initialized) (λ i. v)
      (λ i.
        if_intro TakenKeeps (handle == 0 || not (handle == s.tx_handle)) (λ h. v)
          (λ h.
            if_intro TakenKeeps (s.tx_inflight && s.in_flight_reliable || not (is_over s.tx_state))
              (λ o. v) (λ o. ground (arith, v))))

pub set_sink-IsValid : (s : Link) (sink : Option Sink) → IsValid s → Keeps (set_sink s sink)
unfolding set_sink
set_sink-IsValid s sink v = ground (arith, v)

pub set_tx_drain_required-IsValid :
    (s : Link) (required : Bool) → IsValid s → Keeps (set_tx_drain_required s required)
unfolding set_tx_drain_required
set_tx_drain_required-IsValid s required v = ground (arith, v)

pub tx_writable-IsValid : (s : Link) → IsValid s → Keeps (tx_writable s)
unfolding tx_writable
tx_writable-IsValid s v = ground (arith, v)

pub event_release-IsValid : (s : Link) (e : Event) → IsValid s → IsValid (event_release s e)
unfolding event_release
event_release-IsValid s e v = ground (arith, v)
