-- ===== src/Link/Protocol/Delivery.antt =====
-- How often `wl_frame_route_view` delivers a reliable frame.
use wirelink.Common.{
  ℕ, ◌+◌, ◌≤◌, ◌≡◌, ◌≢◌, ◌⊎◌, refl, arith, ap, ◌∙◌, inl, inr, true, false, not, ◌&&◌, ◌||◌,
}
use wirelink.Common.{Option, none, some, ltb, ◌==◌, u32, if_intro}
use wirelink.Link.Status.{Status, is_ok}
use wirelink.Link.Cobs
use wirelink.Link.Frame.{View, is_reliable}
use wirelink.Link.Protocol.{Link, Outcome, Sink, Event, push_event}
use wirelink.Link.Protocol.Transmit.{
  encoded, control_submitted, submit_control_to, submit_control, submit_ack, send_ack, has_sink,
}
use wirelink.Link.Protocol.Receive.{
  is_duplicate, accept_reliable, count_duplicate, route_reliable, route_view,
}

-- What an acknowledgement that is sent leaves alone: all that the receiving side remembers.
pub record IsKept (s s' : Link) : Type 0 where
  pub event : s'.event ≡ s.event
  pub has_event : s'.has_event ≡ s.has_event
  pub session : s'.rx_session_id ≡ s.rx_session_id
  pub sequence : s'.rx_sequence ≡ s.rx_sequence
  pub reliable : s'.rx_have_reliable ≡ s.rx_have_reliable
  pub duplicates : s'.rx_counters.duplicate ≡ s.rx_counters.duplicate

abbrev KeptBy : Link → Outcome → Type 0
KeptBy s o = IsKept s o.1

same-IsKept : (s : Link) → IsKept s s
same-IsKept s = record {
  event = refl;
  has_event = refl;
  session = refl;
  sequence = refl;
  reliable = refl;
  duplicates = refl;
}

submit_control_to-IsKept : (k : Option Sink) (s : Link) → KeptBy s (submit_control_to k s)
unfolding submit_control_to control_submitted
submit_control_to-IsKept none s = same-IsKept s
submit_control_to-IsKept (some k) s = ground arith

submit_control-IsKept : (s : Link) → KeptBy s (submit_control s)
unfolding submit_control
submit_control-IsKept s =
    if_intro (KeptBy s)
      (not s.control_pending
        || s.control_inflight
        || s.tx_inflight
        || s.tx_drain_pending
        || not s.tx_writable)
      (λ h. same-IsKept s) (λ h. submit_control_to-IsKept s.sink s)

submit_ack-IsKept : (s : Link) (r : Cobs.Result) → KeptBy s (submit_ack s r)
unfolding submit_ack
submit_ack-IsKept s r =
    let k =
      submit_control-IsKept
        (record s { mem = r.mem; control_len = encoded r; control_pending = true }) in
    if_intro (KeptBy s) (is_ok r.status)
      (λ o. record {
        event = k.event;
        has_event = k.has_event;
        session = k.session;
        sequence = k.sequence;
        reliable = k.reliable;
        duplicates = k.duplicates;
      })
      (λ o. ground arith)

pub send_ack-IsKept : (s : Link) (view : View) → KeptBy s (send_ack s view)
unfolding send_ack
send_ack-IsKept s view =
    if_intro (KeptBy s) (not s.initialized || not (has_sink s.sink)) (λ i. same-IsKept s)
      (λ i.
        if_intro (KeptBy s) s.in_callback (λ c. same-IsKept s)
          (λ c.
            if_intro (KeptBy s) s.control_pending (λ p. same-IsKept s)
              (λ p. submit_ack-IsKept s _)))

-- There is no event, handed out or not, that is still in use.
abbrev pub HasRoom : Link → Type 0
HasRoom s = (s.has_event ≡ false) × (s.rx_event_leased ≡ false)

abbrev pub IsOccupied : Link → Type 0
IsOccupied s = (s.has_event ≡ true) ⊎ (s.rx_event_leased ≡ true)

-- The frame is in a receiving buffer, and has no payload or an address for it.
abbrev pub IsUsable : Link → View → Type 0
IsUsable s view = (s.rx_candidate_source ≢ 0) × ((view.payload_len ≡ 0) ⊎ (view.payload ≢ 0))

abbrev pub IsUnusable : Link → View → Type 0
IsUnusable s view = (s.rx_candidate_source ≡ 0) ⊎ ((view.payload_len ≢ 0) × (view.payload ≡ 0))

-- The three things that can become of a reliable frame.
abbrev pub Repeated : View → Link → Outcome → Type 0
Repeated view s o =
    (is_duplicate view s ≡ true)
    × (o.1.event ≡ s.event)
    × (o.1.has_event ≡ s.has_event)
    × (o.1.rx_counters.duplicate ≡ u32 (s.rx_counters.duplicate + 1))
    × (is_duplicate view o.1 ≡ true)

abbrev pub Delivered : View → Link → Outcome → Type 0
Delivered view s o =
    (is_duplicate view s ≡ false)
    × HasRoom s
    × IsUsable s view
    × (o.1.has_event ≡ true)
    × (o.1.event.type ≡ 2)
    × (o.1.event.message_id ≡ view.message_id)
    × (o.1.event.payload ≡ view.payload)
    × (o.1.event.payload_len ≡ view.payload_len)
    × (o.1.event.peer_session_id ≡ view.session_id)
    × (is_duplicate view o.1 ≡ true)

abbrev pub Refused : View → Link → Outcome → Type 0
Refused view s o =
    (IsOccupied s × (o ≡ (Status.queue_full, s)))
    ⊎ (HasRoom s × IsUnusable s view × (o ≡ (Status.payload_too_long, s)))

abbrev pub Dropped : View → Link → Outcome → Type 0
Dropped view s o = (is_duplicate view s ≡ false) × Refused view s o

repeated :
    (s : Link) (view : View)
    → is_duplicate view s ≡ true
    → Repeated view s (send_ack (count_duplicate s) view)
repeated s view d =
    let k = send_ack-IsKept (count_duplicate s) view in
    (d, k.event, k.has_event, k.duplicates, ground (arith, d, k))

abbrev Pushed : View → Link → Outcome → Type 0
Pushed view s o =
    Refused view s o
    ⊎ ((is_ok o.0 ≡ true)
        × HasRoom s
        × IsUsable s view
        × (o.1.has_event ≡ true)
        × (o.1.event.type ≡ 2)
        × (o.1.event.message_id ≡ view.message_id)
        × (o.1.event.payload ≡ view.payload)
        × (o.1.event.payload_len ≡ view.payload_len))

abbrev pushing : Link → View → Outcome
pushing s view = push_event s 2 view.message_id view.payload view.payload_len 0

pushing-Pushed :
    (s : Link) (view : View)
    → view.payload_len ≤ s.config.max_payload_len
    → Pushed view s (pushing s view)
unfolding push_event
pushing-Pushed s view fits =
    if_intro (Pushed view s) (s.has_event || s.rx_event_leased)
      (λ h. inl (inl (ground arith, refl)))
      (λ h.
        if_intro (Pushed view s)
          (ltb s.config.max_payload_len view.payload_len
            || not (view.payload_len == 0) && view.payload == 0
            || s.rx_candidate_source == 0)
          (λ l. inl (inr (ground arith, ground arith, refl)))
          (λ l. inr (refl, ground arith, ground arith, refl, refl, refl, refl, refl)))

accept_reliable-Pushed :
    (s : Link) (view : View) (o : Outcome)
    → is_duplicate view s ≡ false
    → Pushed view s o
    → Delivered view s (accept_reliable view o) ⊎ Dropped view s (accept_reliable view o)
accept_reliable-Pushed s view o d (inl (inl (full, e))) = rw e (inr (d, inl (full, refl)))
accept_reliable-Pushed s view o d (inl (inr (room, bad, e))) = rw e (inr (d, inr (room, bad, refl)))
accept_reliable-Pushed s view o d (inr (good, free, usable, full, type, id, payload, len)) =
    let noted : Link = record o.1 {
      event = record o.1.event { peer_session_id = view.session_id };
      rx_session_id = view.session_id;
      rx_sequence = view.sequence;
      rx_have_reliable = true;
    } in
    let k = send_ack-IsKept noted view in
    let type_of : Event → ℕ = λ e. e.type in
    let id_of : Event → ℕ = λ e. e.message_id in
    let payload_of : Event → ℕ = λ e. e.payload in
    let len_of : Event → ℕ = λ e. e.payload_len in
    let peer_of : Event → ℕ = λ e. e.peer_session_id in
    rw good (
      inl (
        d,
        free,
        usable,
        k.has_event ∙ full,
        ap type_of k.event ∙ type,
        ap id_of k.event ∙ id,
        ap payload_of k.event ∙ payload,
        ap len_of k.event ∙ len,
        ap peer_of k.event,
        ground (arith, k),
      ))

abbrev pub Reliably : View → Link → Outcome → Type 0
Reliably view s o = Repeated view s o ⊎ (Delivered view s o ⊎ Dropped view s o)

route_reliable-Reliably :
    (s : Link) (view : View)
    → view.payload_len ≤ s.config.max_payload_len
    → Reliably view s (route_reliable s view)
unfolding route_reliable
route_reliable-Reliably s view fits =
    if_intro (Reliably view s) (is_duplicate view s) (λ d. inl (repeated s view d))
      (λ d. inr (accept_reliable-Pushed s view (pushing s view) d (pushing-Pushed s view fits)))

route_view-data :
    (s : Link) (view : View)
    → view.type ≡ 1
    → is_reliable view.flags ≡ true
    → view.payload_len ≤ s.config.max_payload_len
    → route_view s view ≡ route_reliable s view
unfolding route_view
route_view-data s view is_data reliable fits =
    let short : ltb s.config.max_payload_len view.payload_len ≡ false = ground arith in
    rw (short, is_data, reliable) refl

-- A reliable DATA frame within the limit of the payload has one of three effects. If it is the frame
-- that was delivered last, the event of the link stays as it was and a duplicate is counted. If it is
-- another frame, there is room (no event waits and none is leased), and the frame lies in a receiving
-- buffer, with an address for any payload, the event is the frame, of the peer's session, and the
-- frame is then the one that was delivered last. If it is another frame, and there is no room, the
-- answer is QUEUE_FULL; with room, and no buffer or address, it is PAYLOAD_TOO_LONG; and the link then
-- stays as it was.
pub route_view-reliable :
    (s : Link) (view : View)
    → view.type ≡ 1
    → is_reliable view.flags ≡ true
    → view.payload_len ≤ s.config.max_payload_len
    → Reliably view s (route_view s view)
route_view-reliable s view is_data reliable fits =
    rw (route_view-data s view is_data reliable fits) (route_reliable-Reliably s view fits)
