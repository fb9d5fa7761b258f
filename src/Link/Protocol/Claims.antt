-- ===== src/Link/Protocol/Claims.antt =====
-- src/protocol.c: a payload that the application writes in place, under a claim.
use wirelink.Common.{ℕ, ◌+◌, Bool, true, false, not, ◌&&◌, ◌||◌}
use wirelink.Common.{Option, none, some, ltb, ◌==◌, if◌then◌else◌, u32}
use wirelink.Link.Status.{Status}
use wirelink.Link.Frame.{Packet, packet_data, packet_header_size, envelope_native_packet}
use wirelink.Link.Protocol.{Link, Outcome, data_busy}
use wirelink.Link.Protocol.Transmit.{Sent, invalidate_tx_image, send_frame_internal}

-- `wl_tx_payload_claim_t`
pub record Claim : Type 0 where
  pub span : ℕ
  pub span_length : ℕ
  pub token : ℕ

-- What `wl_tx_payload_claim` returns and writes; a claim that is cleared is `none`.
pub record Claimed : Type 0 where
  pub status : Status
  pub link : Link
  pub claim : Option Claim

abbrev pub next_claim_token : ℕ → ℕ
next_claim_token t = if u32 (t + 1) == 0 then 1 else u32 (t + 1)

-- The address that a claim gives.
abbrev pub claim_payload : Link → Bool → ℕ
claim_payload s reliable =
    if s.config.envelope == envelope_native_packet
    then s.storage.tx_unit + packet_header_size packet_data (if reliable then 1 else 0)
    else if not reliable && not (s.tx_handle == 0)
    then s.storage.tx_unit
    else s.storage.tx_payload

-- `wl_tx_payload_claim` for one of the two deliveries, with an `out_claim`.
unfoldable pub tx_payload_claim : Link → ℕ → Bool → Claimed
tx_payload_claim s message_id reliable =
    let s' = if reliable then s else invalidate_tx_image s in
    let payload = claim_payload s' reliable in
    let token = next_claim_token s.tx_claim_token in
    if message_id == 0
    then record { status = Status.invalid_arg; link = s; claim = none }
    else if not s.initialized
    then record { status = Status.not_initialized; link = s; claim = none }
    else if s.tx_claim_active || data_busy s reliable
    then record { status = Status.busy; link = s; claim = none }
    else if not reliable && s.tx_unreliable_completions == 0xffffffff
    then record { status = Status.queue_full; link = s; claim = none }
    else record {
      status = Status.ok;
      link = record s' {
        tx_claim_token = token;
        tx_claim_active = true;
        tx_claim_reliable = reliable;
        tx_claim_message_id = message_id;
        tx_claim_payload = payload;
        tx_claim_length = s.config.max_payload_len;
      };
      claim =
          some (record { span = payload; span_length = s.config.max_payload_len; token = token });
    }

-- `tx_claim_matches`
unfoldable pub tx_claim_matches : Link → Claim → Bool
tx_claim_matches s claim =
    s.tx_claim_active && claim.token == s.tx_claim_token && claim.span == s.tx_claim_payload

abbrev pub end_claim : Link → Link
end_claim s = record s { tx_claim_active = false; tx_claim_payload = 0; tx_claim_length = 0 }

-- The packet of a claim.
abbrev pub claim_packet : Link → Claim → ℕ → Packet
claim_packet s claim payload_len = record {
  type = packet_data;
  integrity = s.config.integrity;
  flags = if s.tx_claim_reliable then 1 else 0;
  message_id = s.tx_claim_message_id;
  session_id = s.session_id;
  sequence = if s.tx_claim_reliable then s.tx_sequence else 0;
  payload = claim.span;
  payload_len = payload_len;
}

-- The link that `wl_tx_payload_commit` sends from: the claim is ended, and a sequence number taken.
abbrev pub numbered : Link → Link
numbered s =
    let ended = end_claim s in
    if s.tx_claim_reliable then record ended { tx_sequence = s.tx_sequence + 1 } else ended

-- The packet of a claim is sent; the handle is written in any case.
unfoldable pub commit_packet : Link → Claim → ℕ → ℕ → Sent
commit_packet s claim payload_len now_ms =
    let r =
      send_frame_internal (numbered s) (claim_packet s claim payload_len) s.tx_claim_reliable true
        now_ms in
    record r { handle = elim r.handle [ none ↦ some 0 | some h ↦ some h ] }

-- `wl_tx_payload_commit`; `handled` is that `out_handle` is not NULL.
unfoldable pub tx_payload_commit : Link → Claim → ℕ → ℕ → Bool → Sent
tx_payload_commit s claim payload_len now_ms handled =
    let ended = end_claim s in
    if not s.initialized
    then record { status = Status.not_initialized; link = s; handle = none }
    else if not (tx_claim_matches s claim)
    then record { status = Status.not_found; link = s; handle = none }
    else if ltb s.tx_claim_length payload_len || s.tx_claim_reliable && not handled
    then record { status = Status.invalid_arg; link = ended; handle = some 0 }
    else if s.tx_claim_reliable && s.tx_sequence == 0xffffffff
    then record { status = Status.invalid_state; link = ended; handle = some 0 }
    else commit_packet s claim payload_len now_ms

-- `wl_tx_payload_abort`
unfoldable pub tx_payload_abort : Link → Claim → Outcome
tx_payload_abort s claim =
    if not s.initialized
    then (Status.not_initialized, s)
    else if not (tx_claim_matches s claim)
    then (Status.not_found, s)
    else (Status.ok, record (end_claim s) { resource_generation = u32 (s.resource_generation + 1) })
