-- ===== src/Mailbox/Fifo/Steps.antt =====
-- Runs of one producer and one consumer: calls of src/fifo.c in any order, where a load of the other
-- side's cursor returns any value that was stored since the one it saw last.
use wirelink.Common.{ℕ, ◌+◌, ◌≤◌, ◌≡◌, Bool, true, ◌||◌, Option, ◌==◌, if◌then◌else◌, u32}
use wirelink.Mailbox.Fifo.{Fifo, Ticket}
use wirelink.Mailbox.Fifo.Producer.{claim_matches, write_claim, write_publish, write_abort}
use wirelink.Mailbox.Fifo.Consumer.{view_matches, read_acquire, read_release}
use wirelink.Mailbox.Fifo.Upkeep.{reset}

-- The FIFO with the values in its slots, and what has happened since the last reset: the numbers of
-- values published and released, the values in the order of their publication, and how much of the
-- other side each side has seen.
pub record System : Type 0 where
  pub fifo : Fifo
  pub values : ℕ → ℕ
  pub history : ℕ → ℕ
  pub written : ℕ
  pub released : ℕ
  pub seen_released : ℕ
  pub seen_written : ℕ

abbrev pub put : (ℕ → ℕ) → ℕ → ℕ → ℕ → ℕ
put values i v k = if k == i then v else values k

abbrev pub after_publish : System → Option Ticket → ℕ → System
after_publish s claim seen =
    let taken = claim_matches s.fifo claim in
    record s {
      fifo = (write_publish s.fifo claim (u32 seen)).1;
      history = if taken then put s.history s.written (s.values s.fifo.write_index) else s.history;
      written = if taken then s.written + 1 else s.written;
      seen_released = seen;
    }

abbrev pub after_release : System → Option Ticket → System
after_release s view = record s {
  fifo = (read_release s.fifo view).1;
  released = if view_matches s.fifo view then s.released + 1 else s.released;
}

abbrev pub after_reset : System → System
after_reset s =
    let busy = s.fifo.write_claimed || s.fifo.read_borrowed in
    record s {
      fifo = (reset s.fifo).1;
      written = if busy then s.written else 0;
      released = if busy then s.released else 0;
      seen_released = if busy then s.seen_released else 0;
      seen_written = if busy then s.seen_written else 0;
    }

pub data Step : System → System → Type 0 where
  claim :
      (s : System) (no_claim : Bool) (seen : ℕ)
      → s.seen_released ≤ seen
      → seen ≤ s.released
      → Step s
          (record s { fifo = (write_claim s.fifo no_claim (u32 seen)).1; seen_released = seen })
  -- The producer writes into the slot that it has claimed.
  write :
      (s : System) (v : ℕ)
      → s.fifo.write_claimed ≡ true
      → Step s (record s { values = put s.values s.fifo.write_index v })
  publish :
      (s : System) (c : Option Ticket) (seen : ℕ)
      → s.seen_released ≤ seen
      → seen ≤ s.released
      → Step s (after_publish s c seen)
  abort : (s : System) (c : Option Ticket) → Step s (record s { fifo = (write_abort s.fifo c).1 })
  acquire :
      (s : System) (no_view : Bool) (seen : ℕ)
      → s.seen_written ≤ seen
      → seen ≤ s.written
      → Step s (record s { fifo = (read_acquire s.fifo no_view (u32 seen)).1; seen_written = seen })
  release : (s : System) (v : Option Ticket) → Step s (after_release s v)
  clear : (s : System) → Step s (after_reset s)

pub data Reach (s : System) : System → Type 0 where
  here : Reach s s
  then_step : {s' s'' : System} → Reach s s' → Step s' s'' → Reach s s''

abbrev pub started : Fifo → (ℕ → ℕ) → System
started f values = record {
  fifo = f;
  values = values;
  history = λ k. 0;
  written = 0;
  released = 0;
  seen_released = 0;
  seen_written = 0;
}
