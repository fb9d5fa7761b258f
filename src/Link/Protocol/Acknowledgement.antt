-- ===== src/Link/Protocol/Acknowledgement.antt =====
-- What an acknowledgement does to a reliable transaction, up to the result that is taken.
use wirelink.Common.{ℕ, ◌≡◌, ◌≢◌, ◌⊎◌, refl, arith, inl, inr, true, false, not, ◌&&◌, ◌||◌}
use wirelink.Common.{some, ◌==◌, Bool-cases, if_intro}
use wirelink.Link.Status.{Status}
use wirelink.Link.Frame.{View}
use wirelink.Link.Protocol.{Link, push_event, push_tx_event}
use wirelink.Link.Protocol.Receive.{acknowledges, handle_ack}
use wirelink.Link.Protocol.Transaction.{Taken, tx_take, TxResult, is_over}
use wirelink.Link.Protocol.Valid.{IsValid}

-- The success is published, or it is pending.
abbrev pub IsPublished : Link → Link → Type 0
IsPublished s s' =
    ((s.has_event ≡ false)
      × (s'.has_event ≡ true)
      × (s'.event.type ≡ 3)
      × (s'.event.handle ≡ s.tx_handle))
    ⊎ ((s.has_event ≡ true)
        × (s'.tx_pending_event ≡ 3)
        × (s'.has_event ≡ s.has_event)
        × (s'.event ≡ s.event))

matched :
    (s : Link) (view : View)
    → acknowledges view s ≡ true
    → (s.tx_inflight && s.in_flight_reliable) ≡ false
    → let s' = (handle_ack s view).1 in
      (s'.tx_state ≡ 3)
      × (s'.tx_result_code ≡ Status.ok)
      × (s'.tx_handle ≡ s.tx_handle)
      × (s'.tx_retries_used ≡ s.tx_retries_used)
      × (s'.initialized ≡ s.initialized)
      × (s'.tx_inflight ≡ s.tx_inflight)
      × (s'.in_flight_reliable ≡ true → s.in_flight_reliable ≡ true)
      × IsPublished s s'
unfolding handle_ack push_tx_event push_event
matched s view h quiet = ground arith

unacknowledged :
    (s : Link) (view : View) → acknowledges view s ≡ false → handle_ack s view ≡ (Status.ok, s)
unfolding handle_ack
unacknowledged s view f = rw f

-- The result that a successful take writes.
abbrev pub success_of : Link → TxResult
success_of s = record { state = 3; result = Status.ok; retries_used = s.tx_retries_used }

abbrev pub TakesSuccess : Link → Taken → Type 0
TakesSuccess s r =
    (r.status ≡ Status.ok)
    × (r.result ≡ some (success_of s))
    × (r.link.tx_state ≡ 0)
    × (r.link.tx_handle ≡ 0)

taken :
    (s : Link) (handle : ℕ)
    → s.initialized ≡ true
    → handle ≢ 0
    → s.tx_handle ≡ handle
    → s.tx_state ≡ 3
    → s.tx_result_code ≡ Status.ok
    → (s.tx_inflight && s.in_flight_reliable) ≡ false
    → TakesSuccess s (tx_take s handle)
unfolding tx_take
taken s handle i h e t c f =
    if_intro (TakesSuccess s) (not s.initialized) (λ b. absurd (ground arith))
      (λ b.
        if_intro (TakesSuccess s) (handle == 0 || not (handle == s.tx_handle))
          (λ b. absurd (ground arith))
          (λ b.
            if_intro (TakesSuccess s)
              (s.tx_inflight && s.in_flight_reliable || not (is_over s.tx_state))
              (λ b. absurd (ground arith)) (λ b. (refl, rw (t, c) refl, refl, refl))))

-- On a valid link that is set up and whose transaction has no unit in flight: an ACK of another
-- session or sequence, or of a transaction that does not send or wait, is accepted and changes
-- nothing; the ACK of the transaction that is under way publishes TX_SUCCESS under its handle if no
-- event waits to be handed out, and otherwise leaves it pending behind that event, which stays; and a
-- take with the handle then answers OK, gives the result SUCCESS with the retries that were used, and
-- leaves the link idle.
pub handle_ack-tx_take :
    (s : Link) (view : View)
    → IsValid s
    → s.initialized ≡ true
    → (s.tx_inflight && s.in_flight_reliable) ≡ false
    → let s' = (handle_ack s view).1 in
      ((acknowledges view s ≡ false) × (handle_ack s view ≡ (Status.ok, s)))
      ⊎ ((acknowledges view s ≡ true) × IsPublished s s' × TakesSuccess s (tx_take s' s.tx_handle))
handle_ack-tx_take s view v i quiet = elim (Bool-cases (acknowledges view s)) [
  | inr f ↦ inl (f, unacknowledged s view f)
  | inl t ↦
      let m = matched s view t quiet in
      let taking =
        taken (handle_ack s view).1 s.tx_handle (ground (arith, m, i)) (ground (arith, v)) m.2 m.0
          m.1 (ground (arith, m)) in
      inr (t, m.7, (taking.0, rw (m.3) at taking.1, taking.2, taking.3))
]
