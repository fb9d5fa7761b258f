-- ===== src/Link/Protocol/Ended.antt =====
-- The claim of a payload, from its end on.
use wirelink.Common.{ℕ, ◌≡◌, refl, arith, Bool, true, false, not, ◌&&◌, ◌||◌}
use wirelink.Common.{ltb, ◌==◌, if_intro}
use wirelink.Link.Status.{Status, is_ok}
use wirelink.Link.Cobs
use wirelink.Link.Frame.{Packet}
use wirelink.Link.Protocol.{Link, Outcome, data_busy}
use wirelink.Link.Protocol.Transmit.{
  Sent, settle, submit_unreliable, send_frame_internal, send_tx_payload, invalidate_tx_image,
  prepare_reliable_payload, open_transaction, encoded, refused,
}
use wirelink.Link.Protocol.Claims.{
  Claim, tx_claim_matches, end_claim, claim_packet, numbered, commit_packet, tx_payload_commit,
  tx_payload_abort,
}
use wirelink.Link.Protocol.Once.{send_tx_payload-Moves, submit_data-Moves}

-- A link that is up and has no claim.
abbrev IsUnclaimed : Link → Type 0
IsUnclaimed s = (s.initialized ≡ true) × (s.tx_claim_active ≡ false)

abbrev Leaves : Sent → Type 0
Leaves r = IsUnclaimed r.link

settle-IsUnclaimed : (handle : ℕ) (o : Outcome) → IsUnclaimed o.1 → Leaves (settle handle o)
settle-IsUnclaimed handle o h = if_intro Leaves (is_ok o.0) (λ y. h) (λ n. h)

submit_unreliable-IsUnclaimed :
    (s : Link) (r : Cobs.Result) → IsUnclaimed s → Leaves (submit_unreliable s r)
unfolding submit_unreliable
submit_unreliable-IsUnclaimed s r h =
    let m = submit_data-Moves (record s { mem = r.mem; tx_unreliable_len = encoded r }) false in
    if_intro Leaves (is_ok r.status) (λ y. ground (arith, m, h)) (λ n. h)

invalidate_tx_image-IsUnclaimed : (s : Link) → IsUnclaimed s → IsUnclaimed (invalidate_tx_image s)
unfolding invalidate_tx_image
invalidate_tx_image-IsUnclaimed s h = ground (arith, h)

opened-IsUnclaimed :
    (s : Link) (p : Packet) (direct : Bool)
    → IsUnclaimed s
    → IsUnclaimed (open_transaction (prepare_reliable_payload s p direct) p)
unfolding prepare_reliable_payload
opened-IsUnclaimed s p direct h = h

sent-IsUnclaimed : (s : Link) → IsUnclaimed s → IsUnclaimed (send_tx_payload s).1
sent-IsUnclaimed s h = let m = send_tx_payload-Moves s in ground (arith, m, h)

send_frame_internal-IsUnclaimed :
    (s : Link) (p : Packet) (reliable direct : Bool) (now_ms : ℕ)
    → IsUnclaimed s
    → Leaves (send_frame_internal s p reliable direct now_ms)
unfolding send_frame_internal
send_frame_internal-IsUnclaimed s p reliable direct now_ms h =
    if_intro Leaves (not (p.payload_len == 0) && p.payload == 0) (λ t. h)
      (λ t.
        if_intro Leaves (not s.initialized) (λ t. h)
          (λ t.
            if_intro Leaves (s.session_id == 0) (λ t. h)
              (λ t.
                if_intro Leaves (ltb s.config.max_payload_len p.payload_len) (λ t. h)
                  (λ t.
                    if_intro Leaves (data_busy s reliable) (λ t. h)
                      (λ t.
                        if_intro Leaves s.in_callback (λ t. h)
                          (λ t.
                            if_intro Leaves
                              (not reliable && s.tx_unreliable_completions == 0xffffffff) (λ t. h)
                              (λ t.
                                if_intro Leaves (p.message_id == 0) (λ t. h)
                                  (λ t.
                                    if_intro Leaves reliable
                                      (λ t. settle-IsUnclaimed _ _ (
                                        sent-IsUnclaimed _ (
                                          opened-IsUnclaimed (record s { now_ms = now_ms }) p direct
                                            h)))
                                      (λ t.
                                        submit_unreliable-IsUnclaimed _ _
                                          (invalidate_tx_image-IsUnclaimed s h))))))))))

-- A claim that matches no claim of a link that is up.
record IsOver (claim : Claim) (s : Link) : Type 0 where
  up : s.initialized ≡ true
  over : tx_claim_matches s claim ≡ false

IsUnclaimed-IsOver : (claim : Claim) (s : Link) → IsUnclaimed s → IsOver claim s
unfolding tx_claim_matches
IsUnclaimed-IsOver claim s h = record { up = h.0; over = ground (arith, h) }

numbered-IsUnclaimed : (s : Link) → s.initialized ≡ true → IsUnclaimed (numbered s)
numbered-IsUnclaimed s i =
    if_intro IsUnclaimed s.tx_claim_reliable (λ r. (i, refl)) (λ r. (i, refl))

commit_packet-IsOver :
    (s : Link) (claim : Claim) (payload_len now_ms : ℕ)
    → s.initialized ≡ true
    → IsOver claim (commit_packet s claim payload_len now_ms).link
unfolding commit_packet
commit_packet-IsOver s claim payload_len now_ms i =
    IsUnclaimed-IsOver claim
      (send_frame_internal (numbered s) (claim_packet s claim payload_len) s.tx_claim_reliable true
        now_ms).link
      (send_frame_internal-IsUnclaimed (numbered s) (claim_packet s claim payload_len)
        s.tx_claim_reliable true now_ms (numbered-IsUnclaimed s i))

abbrev Ends : Claim → Sent → Type 0
Ends claim r = IsOver claim r.link

tx_payload_commit-Ends :
    (s : Link) (claim : Claim) (payload_len now_ms : ℕ) (handled : Bool)
    → s.initialized ≡ true
    → Ends claim (tx_payload_commit s claim payload_len now_ms handled)
unfolding tx_payload_commit
tx_payload_commit-Ends s claim payload_len now_ms handled i =
    let over : IsOver claim (end_claim s) = IsUnclaimed-IsOver claim (end_claim s) (i, refl) in
    if_intro (Ends claim) (not s.initialized) (λ t. absurd (ground arith))
      (λ t.
        if_intro (Ends claim) (not (tx_claim_matches s claim))
          (λ n. record { up = i; over = ground arith })
          (λ n.
            if_intro (Ends claim)
              (ltb s.tx_claim_length payload_len || s.tx_claim_reliable && not handled) (λ l. over)
              (λ l.
                if_intro (Ends claim) (s.tx_claim_reliable && s.tx_sequence == 0xffffffff)
                  (λ q. over) (λ q. commit_packet-IsOver s claim payload_len now_ms i))))

tx_payload_commit-unknown :
    (s : Link) (claim : Claim) (payload_len now_ms : ℕ) (handled : Bool)
    → IsOver claim s
    → tx_payload_commit s claim payload_len now_ms handled ≡ refused Status.not_found s
unfolding tx_payload_commit
tx_payload_commit-unknown s claim payload_len now_ms handled h =
    if_intro (λ r. r ≡ refused Status.not_found s) (not s.initialized)
      (λ n. absurd (ground (arith, h)))
      (λ n.
        if_intro (λ r. r ≡ refused Status.not_found s) (not (tx_claim_matches s claim)) (λ m. refl)
          (λ m. absurd (ground (arith, h))))

tx_payload_abort-unknown :
    (s : Link) (claim : Claim) → IsOver claim s → tx_payload_abort s claim ≡ (Status.not_found, s)
unfolding tx_payload_abort
tx_payload_abort-unknown s claim h =
    if_intro (λ o. o ≡ (Status.not_found, s)) (not s.initialized) (λ n. absurd (ground (arith, h)))
      (λ n.
        if_intro (λ o. o ≡ (Status.not_found, s)) (not (tx_claim_matches s claim)) (λ m. refl)
          (λ m. absurd (ground (arith, h))))

-- A claim ends with its commit, whatever this answers: on a link that is up, after a commit of any
-- length, sent or refused, a commit or an abort of the same claim answers NOT_FOUND, writes no handle
-- and changes nothing.
pub tx_payload_commit-again :
    (s : Link) (claim : Claim) (payload_len now_ms len' now_ms' : ℕ) (handled handled' : Bool)
    → s.initialized ≡ true
    → let s' = (tx_payload_commit s claim payload_len now_ms handled).link in
      (tx_payload_commit s' claim len' now_ms' handled' ≡ refused Status.not_found s')
      × (tx_payload_abort s' claim ≡ (Status.not_found, s'))
tx_payload_commit-again s claim payload_len now_ms len' now_ms' handled handled' i =
    let over = tx_payload_commit-Ends s claim payload_len now_ms handled i in
    (
      tx_payload_commit-unknown _ claim len' now_ms' handled' over,
      tx_payload_abort-unknown _ claim over,
    )
