-- ===== src/Link/Protocol/GiveUp.antt =====
-- The number of passes after which `wl_poll` gives up a transaction that is never acknowledged.
use wirelink.Common.{ℕ, ◌^◌, ◌<◌, ◌≤◌, ◌≡◌}
use wirelink.Common.{List, [], ◌∷◌, some}
use wirelink.Link.Status.{Status}
use wirelink.Link.Protocol.{Link, Event}
use wirelink.Link.Protocol.Poll.{Receiver, Polled, poll}
use wirelink.Link.Protocol.Timeout.{after}

-- The pass that gives up: it hands out TX_TIMEOUT, and the transaction has failed.
abbrev pub GivesUp : ℕ → ℕ → Polled → Type 0
GivesUp handle used p =
    (p.status ≡ Status.ok)
    × ((e : Event) × (p.event ≡ some e) × (e.type ≡ 4) × (e.handle ≡ handle))
    × (p.link.tx_state ≡ 4)
    × (p.link.tx_result_code ≡ Status.timeout)
    × (p.link.tx_retries_used ≡ used)

-- A pass that has sent again.
abbrev pub Retries : ℕ → ℕ → Polled → Type 0
Retries handle used p =
    (p.status ≡ Status.no_data)
    × (p.link.tx_state ≡ 2)
    × (p.link.tx_handle ≡ handle)
    × (p.link.tx_retries_used ≡ used)

-- Passes of the owner, each at a time after the transmission before it.
unfoldable pub polls : Receiver → Link → ℕ → List ℕ → Polled
polls r s d [] = poll r s (after s d)
polls r s d (e ∷ es) = polls r (poll r s (after s d)).link e es

abbrev pub IsLate : ℕ → ℕ → Type 0
IsLate timeout d = (timeout ≤ d) × (d < 2 ^ 32)
