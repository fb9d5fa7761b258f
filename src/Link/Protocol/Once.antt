-- ===== src/Link/Protocol/Once.antt =====
-- The token of a unit, from its report on.
use wirelink.Common.{ℕ, ◌≡◌, ◌≢◌, ◌⊎◌, refl, arith, inl, Bool, true, false, not, ◌&&◌, ◌||◌}
use wirelink.Common.{Option, none, some, ◌==◌, if◌then◌else◌, if_intro}
use wirelink.Link.Status.{Status, is_ok}
use wirelink.Link.Cobs
use wirelink.Link.Protocol.{Link, Outcome, Sink, push_event, push_tx_event, complete_unreliable_tx}
use wirelink.Link.Protocol.Transmit.{
  next_io_token, data_submitted, submit_data_to, submit_data, submit_encoded, send_tx_payload,
  control_submitted, submit_control_to, submit_control, encoded, has_sink,
}
use wirelink.Link.Protocol.Completion.{
  fail_io, after_retry, and_control, reliable_consumed, unreliable_consumed, data_released,
  tx_consumed,
}
use wirelink.Link.Protocol.Valid.{IsValid}

-- What a submission does: the token stays, with no unit handed out, or the next one is taken; and a
-- claim stays as it is.
abbrev pub Moves : Link → Link → Type 0
Moves s s' =
    ((s'.initialized ≡ s.initialized) × (s'.tx_claim_active ≡ s.tx_claim_active))
    × (((s'.tx_token ≡ s.tx_token)
          × (s'.tx_inflight ≡ s.tx_inflight)
          × (s'.control_inflight ≡ s.control_inflight))
        ⊎ (s'.tx_token ≡ next_io_token s.tx_token))

abbrev pub MovedBy : Link → Outcome → Type 0
MovedBy s o = Moves s o.1

stays-Moves : (s : Link) → Moves s s
stays-Moves s = ((refl, refl), inl (refl, refl, refl))

data_submitted-Moves :
    (s t : Link) (reliable : Bool) (answer : ℕ)
    → s.initialized ≡ t.initialized
    → s.tx_claim_active ≡ t.tx_claim_active
    → s.tx_token ≡ next_io_token t.tx_token
    → MovedBy t (data_submitted s reliable answer)
unfolding data_submitted complete_unreliable_tx
data_submitted-Moves s t reliable answer i a h = ground arith

control_submitted-Moves :
    (s t : Link) (answer : ℕ)
    → s.initialized ≡ t.initialized
    → s.tx_claim_active ≡ t.tx_claim_active
    → s.tx_token ≡ next_io_token t.tx_token
    → MovedBy t (control_submitted s answer)
unfolding control_submitted
control_submitted-Moves s t answer i a h = ground arith

submit_data_to-Moves :
    (k : Option Sink) (s : Link) (reliable : Bool) → MovedBy s (submit_data_to k s reliable)
unfolding submit_data_to
submit_data_to-Moves none s reliable = stays-Moves s
submit_data_to-Moves (some k) s reliable = data_submitted-Moves _ s reliable _ refl refl refl

submit_control_to-Moves : (k : Option Sink) (s : Link) → MovedBy s (submit_control_to k s)
unfolding submit_control_to
submit_control_to-Moves none s = stays-Moves s
submit_control_to-Moves (some k) s =
    if_intro (MovedBy s) s.in_callback (λ c. stays-Moves s)
      (λ c. control_submitted-Moves _ s _ refl refl refl)

submit_control-Moves : (s : Link) → MovedBy s (submit_control s)
unfolding submit_control
submit_control-Moves s =
    if_intro (MovedBy s)
      (not s.control_pending
        || s.control_inflight
        || s.tx_inflight
        || s.tx_drain_pending
        || not s.tx_writable)
      (λ h. stays-Moves s) (λ h. submit_control_to-Moves s.sink s)

pub submit_data-Moves : (s : Link) (reliable : Bool) → MovedBy s (submit_data s reliable)
unfolding submit_data
submit_data-Moves s reliable = submit_data_to-Moves s.sink s reliable

submit_encoded-Moves : (s : Link) (r : Cobs.Result) → MovedBy s (submit_encoded s r)
unfolding submit_encoded
submit_encoded-Moves s r =
    if_intro (MovedBy s) (is_ok r.status)
      (λ o. submit_data-Moves (record s { mem = r.mem; tx_encoded_len = encoded r }) true)
      (λ o. stays-Moves s)

pub send_tx_payload-Moves : (s : Link) → MovedBy s (send_tx_payload s)
unfolding send_tx_payload
send_tx_payload-Moves s =
    if_intro (MovedBy s) (not s.initialized || not (has_sink s.sink)) (λ i. stays-Moves s)
      (λ i.
        if_intro (MovedBy s) s.in_callback (λ c. stays-Moves s)
          (λ c.
            if_intro (MovedBy s) (s.tx_encoded_len == 0) (λ e. submit_encoded-Moves s _)
              (λ e. submit_data-Moves s true)))

-- The token is still that of the unit, with nothing handed out, or it is the next one.
abbrev Left : ℕ → Link → Type 0
Left t s =
    (s.initialized ≡ true)
    × (((s.tx_token ≡ t) × (s.tx_inflight ≡ false) × (s.control_inflight ≡ false))
        ⊎ (s.tx_token ≡ next_io_token t))

-- No unit with this token is handed out.
abbrev Retired : ℕ → Link → Type 0
Retired t s =
    (s.initialized ≡ true)
    × (((s.tx_inflight ≡ false) × (s.control_inflight ≡ false)) ⊎ (s.tx_token ≢ t))

and_control-Retired : (t : ℕ) (s : Link) → Left t s → Retired t (and_control s)
and_control-Retired t s h = let m = submit_control-Moves s in ground (arith, h, m)

fail_io-Left : (t : ℕ) (s : Link) → Left t s → Left t (fail_io s)
unfolding push_tx_event push_event
fail_io-Left t s h = ground (arith, h)

after_retry-Retired : (t : ℕ) (o : Outcome) → Left t o.1 → Retired t (after_retry o)
after_retry-Retired t o h =
    and_control-Retired t _
      (if_intro (Left t) (is_ok o.0) (λ y. ground (arith, h)) (λ n. fail_io-Left t o.1 h))

send_tx_payload-Left :
    (t : ℕ) (s : Link)
    → s.initialized ≡ true
    → s.tx_token ≡ t
    → s.tx_inflight ≡ false
    → s.control_inflight ≡ false
    → Left t (send_tx_payload s).1
send_tx_payload-Left t s i e f c = let m = send_tx_payload-Moves s in ground (arith, m)

reliable_consumed-Retired :
    (t : ℕ) (s : Link) (io_ok : Bool)
    → s.initialized ≡ true
    → s.tx_token ≡ t
    → s.tx_inflight ≡ false
    → s.control_inflight ≡ false
    → Retired t (reliable_consumed s io_ok)
unfolding reliable_consumed
reliable_consumed-Retired t s io_ok i e f c =
    let left : Left t s = (i, inl (e, f, c)) in
    if_intro (Retired t) s.tx_cancel_requested (λ r. and_control-Retired t _ (i, inl (e, f, c)))
      (λ r.
        if_intro (Retired t) (not (s.tx_state == 1)) (λ n. and_control-Retired t s left)
          (λ n.
            if_intro (Retired t) io_ok (λ o. and_control-Retired t _ (i, inl (e, f, c)))
              (λ o.
                if_intro (Retired t) (not (s.tx_retries_left == 0))
                  (λ z.
                    if_intro (Retired t) s.control_pending
                      (λ p.
                        after_retry-Retired t
                          (Status.ok, record s { tx_queued = true; in_flight_reliable = true })
                          (i, inl (e, f, c)))
                      (λ p.
                        after_retry-Retired t (send_tx_payload s)
                          (send_tx_payload-Left t s i e f c)))
                  (λ z. and_control-Retired t _ (fail_io-Left t s left)))))

abbrev RetiredBy : ℕ → Outcome → Type 0
RetiredBy t o = Retired t o.1

unreliable_consumed-Retired :
    (t : ℕ) (io_ok : Bool) (o : Outcome) → Left t o.1 → RetiredBy t (unreliable_consumed io_ok o)
unreliable_consumed-Retired t io_ok o h = and_control-Retired t _ (ground (arith, h))

complete_unreliable_tx-Left : (t : ℕ) (s : Link) → Left t s → Left t (complete_unreliable_tx s).1
unfolding complete_unreliable_tx
complete_unreliable_tx-Left t s h = ground (arith, h)

abbrev LeftBy : ℕ → Outcome → Type 0
LeftBy t o = Left t o.1

tx_consumed-Retired :
    (s : Link) (token : ℕ) (io_ok : Bool)
    → IsValid s
    → s.initialized ≡ true
    → RetiredBy token (tx_consumed s token io_ok)
unfolding tx_consumed
tx_consumed-Retired s token io_ok v i =
    if_intro (RetiredBy token) (not s.initialized) (λ n. absurd (ground arith))
      (λ n.
        if_intro (RetiredBy token) (not (token == s.tx_token)) (λ e. ground arith)
          (λ e.
            if_intro (RetiredBy token) (not s.tx_inflight && not s.control_inflight)
              (λ q. ground arith)
              (λ q.
                if_intro (RetiredBy token) s.control_inflight (λ c. ground (arith, v))
                  (λ c.
                    let same : s.tx_token ≡ token = ground arith in
                    if_intro (RetiredBy token) (not s.in_flight_reliable)
                      (λ r.
                        let d = data_released s token io_ok in
                        unreliable_consumed-Retired token io_ok
                          (if io_ok then complete_unreliable_tx d else (Status.ok, d))
                          (if_intro (LeftBy token) io_ok
                            (λ o. complete_unreliable_tx-Left token d (i, inl (same, refl, c)))
                            (λ o. (i, inl (same, refl, c)))))
                      (λ r. reliable_consumed-Retired token _ io_ok i same refl c)))))

tx_consumed-unknown :
    (s : Link) (token : ℕ) (io_ok : Bool)
    → Retired token s
    → tx_consumed s token io_ok ≡ (Status.not_found, s)
unfolding tx_consumed
tx_consumed-unknown s token io_ok h =
    if_intro (λ o. o ≡ (Status.not_found, s)) (not s.initialized) (λ n. absurd (ground (arith, h)))
      (λ n.
        if_intro (λ o. o ≡ (Status.not_found, s)) (not (token == s.tx_token)) (λ e. refl)
          (λ e.
            if_intro (λ o. o ≡ (Status.not_found, s)) (not s.tx_inflight && not s.control_inflight)
              (λ q. refl) (λ q. absurd (ground (arith, h)))))

-- A unit is reported once: on a valid link that is set up, whatever a report of the transport that a token was
-- consumed answers and does (a retry and a queued ACK may be handed to the sink at once), a second
-- report of this token right after it answers NOT_FOUND and changes nothing.
pub tx_consumed-again :
    (s : Link) (token : ℕ) (io_ok again : Bool)
    → IsValid s
    → s.initialized ≡ true
    → let s' = (tx_consumed s token io_ok).1 in tx_consumed s' token again ≡ (Status.not_found, s')
tx_consumed-again s token io_ok again v i =
    tx_consumed-unknown _ token again (tx_consumed-Retired s token io_ok v i)
