-- ===== src/Link/Protocol/Tests.antt =====
-- A link that sends one reliable packet, and one that receives one.
use wirelink.Common.{ℕ, ◌≤◌, ◌≡◌, ◌⊎◌, refl, arith, true, false, ◌&&◌}
use wirelink.Common.{List, [], ◌∷◌, some}
use wirelink.Common.Memory.{Mem}
use wirelink.Link.Status.{Status}
use wirelink.Link.Frame.{View}
use wirelink.Link.Protocol.{Link, Config, Storage, data_busy, tx_retry_due}
use wirelink.Link.Protocol.Transmit.{send_reliable, refused, invalidate_tx_image}
use wirelink.Link.Protocol.Transaction.{set_sink, tx_take}
use wirelink.Link.Protocol.Receive.{acknowledges, handle_ack, route_view}
use wirelink.Link.Protocol.Poll.{Receiver, Routed, poll}
use wirelink.Link.Protocol.Valid.{IsValid}
use wirelink.Link.Protocol.Steps.{fresh_link, Step, Runs, Runs-IsValid}
use wirelink.Link.Protocol.Acknowledgement.{IsPublished, TakesSuccess, handle_ack-tx_take}
use wirelink.Link.Protocol.Completion.{tx_consumed}
use wirelink.Link.Protocol.Claims.{Claim, tx_payload_claim, tx_payload_commit, tx_payload_abort}
use wirelink.Link.Protocol.Ended.{tx_payload_commit-again}
use wirelink.Link.Protocol.Once.{tx_consumed-again}
use wirelink.Link.Protocol.Delivery.{Reliably, route_view-reliable}

abbrev memory : Mem
memory = λ x. 0

abbrev config : Config
config = record { max_payload_len = 16; envelope = 0; integrity = 1; ack_timeout_ms = 100 }

abbrev storage : Storage
storage = record {
  tx_payload = 1000;
  tx_unit = 2000;
  tx_unit_size = 64;
  control_unit = 3000;
  control_unit_size = 64;
}

abbrev fresh : Link
fresh = fresh_link memory config storage 7 2 4000

-- A link with a sink sends a packet, and is polled when the timeout is over.
abbrev receiver : Receiver
receiver = record { process_rx = λ s. s; units = false; routes = λ s. Routed.nothing }

abbrev wired : Link
wired = (set_sink fresh (some (λ t u n. 0))).1

abbrev sent : Link
sent = (send_reliable wired 0x101 0 0 5).link

Runs-IsValid_example : IsValid (poll receiver sent 200).link
Runs-IsValid_example = Runs-IsValid memory config storage 7 2 4000 (
    Runs.stepped
      (Runs.stepped (Runs.stepped Runs.begun (Step.sink (some (λ t u n. 0))))
        (Step.reliable 0x101 0 0 5))
      (Step.polled receiver 200))

-- The link of a packet that was sent at the time 5 and is not acknowledged yet.
abbrev waiting : Link
waiting = record (fresh_link memory config storage 7 2 4000) {
  sink = some (λ t u n. 0);
  tx_state = 2;
  tx_wait_state = 1;
  tx_handle = 1;
  tx_start_ts = 5;
  tx_sequence = 1;
  tx_waiting_seq = 1;
  tx_encoded_len = 20;
}

abbrev ack : View
ack = record {
  type = 2;
  flags = 0;
  message_id = 0;
  session_id = 7;
  sequence = 1;
  integrity = 1;
  payload = 0;
  payload_len = 0;
  integrity_bytes = 5020;
  integrity_len = 2;
  total_len = 22;
}

waiting-IsValid : IsValid waiting
unfolding fresh_link
waiting-IsValid = ground arith

waiting_up : waiting.initialized ≡ true
unfolding fresh_link
waiting_up = refl

waiting_quiet : (waiting.tx_inflight && waiting.in_flight_reliable) ≡ false
unfolding fresh_link
waiting_quiet = refl

handle_ack-tx_take_example :
    ((acknowledges ack waiting ≡ false) × (handle_ack waiting ack ≡ (Status.ok, waiting)))
    ⊎ ((acknowledges ack waiting ≡ true)
        × IsPublished waiting (handle_ack waiting ack).1
        × TakesSuccess waiting (tx_take (handle_ack waiting ack).1 waiting.tx_handle))
handle_ack-tx_take_example = handle_ack-tx_take waiting ack waiting-IsValid waiting_up waiting_quiet

-- The times of the passes after the first.
abbrev later : List ℕ
later = 150 ∷ 100 ∷ []

-- A reliable frame that comes to that link.
abbrev data_frame : View
data_frame = record {
  type = 1;
  flags = 1;
  message_id = 0x101;
  session_id = 9;
  sequence = 4;
  integrity = 1;
  payload = 5000;
  payload_len = 3;
  integrity_bytes = 5003;
  integrity_len = 2;
  total_len = 21;
}

data_frame_fits : data_frame.payload_len ≤ waiting.config.max_payload_len
unfolding fresh_link
data_frame_fits = omega arith

route_view-reliable_example : Reliably data_frame waiting (route_view waiting data_frame)
route_view-reliable_example = route_view-reliable waiting data_frame refl refl data_frame_fits

-- The reliable unit of that link is in flight, and the transport fails it.
abbrev flying : Link
flying = record waiting {
  tx_state = 1;
  tx_wait_state = 0;
  tx_inflight = true;
  in_flight_reliable = true;
}

flying-IsValid : IsValid flying
unfolding fresh_link
flying-IsValid = ground arith

flying_up : flying.initialized ≡ true
unfolding fresh_link
flying_up = refl

tx_consumed-again_example :
    tx_consumed (tx_consumed flying 1 false).1 1 true
    ≡ (Status.not_found, (tx_consumed flying 1 false).1)
tx_consumed-again_example = tx_consumed-again flying 1 false true flying-IsValid flying_up

-- A claim on the link that sends nothing, which is committed and sent.
abbrev claimed : Link
claimed = (tx_payload_claim fresh 0x101 false).link

abbrev claim : Claim
claim = record { span = 1000; span_length = 16; token = 1 }

claimed_up : claimed.initialized ≡ true
unfolding fresh_link tx_payload_claim data_busy tx_retry_due invalidate_tx_image
claimed_up = refl

tx_payload_commit-again_example :
    (tx_payload_commit (tx_payload_commit claimed claim 4 9 true).link claim 5 10 true
      ≡ refused Status.not_found (tx_payload_commit claimed claim 4 9 true).link)
    × (tx_payload_abort (tx_payload_commit claimed claim 4 9 true).link claim
        ≡ (Status.not_found, (tx_payload_commit claimed claim 4 9 true).link))
tx_payload_commit-again_example =
    tx_payload_commit-again claimed claim 4 9 5 10 true true claimed_up
