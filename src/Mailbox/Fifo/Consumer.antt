-- ===== src/Mailbox/Fifo/Consumer.antt =====
-- The consumer's side of src/fifo.c.
use wirelink.Common.{ℕ, ◌+◌, Bool, true, false, not, ◌&&◌, Option, none, some}
use wirelink.Common.{◌==◌, if◌then◌else◌, u32}
use wirelink.Common.Atomic.{counter_increment, next_token}
use wirelink.Link.Status.{Status}
use wirelink.Mailbox.Fifo.{Fifo, Ticket, fifo_magic, slot, next_index, error}

-- `wl_fifo_view_matches`
unfoldable pub view_matches : Fifo → Option Ticket → Bool
view_matches f none = false
view_matches f (some view) =
    f.read_borrowed
    && not (view.token == 0)
    && view.token == f.read_token
    && view.private_slot == f.read_index
    && view.value == slot f f.read_index
    && view.value_size == f.value_size

-- `wl_fifo_read_acquire`, which loads `seen` from `published_cursor`; `no_view` says that `out_view`
-- is NULL, and `none` is the view of zeros.
unfoldable pub read_acquire : Fifo → Bool → ℕ → Status × Fifo × Option Ticket
read_acquire f no_view seen =
    let token = next_token f.read_token in
    if no_view
    then (Status.invalid_arg, f, none)
    else if not (f.magic == fifo_magic)
    then (Status.not_initialized, f, none)
    else if f.read_borrowed
    then ((error f Status.busy).0, (error f Status.busy).1, none)
    else if f.read_cursor == seen
    then (Status.no_data, record f { empty_reads = counter_increment f.empty_reads }, none)
    else (
      Status.ok,
      record f { read_token = token; read_borrowed = true },
      some (record {
        value = slot f f.read_index;
        value_size = f.value_size;
        token = token;
        private_slot = f.read_index;
      }),
    )

-- `wl_fifo_read_release`
unfoldable pub read_release : Fifo → Option Ticket → Status × Fifo
read_release f view =
    if not (f.magic == fifo_magic)
    then (Status.not_initialized, f)
    else if not (view_matches f view)
    then error f Status.invalid_state
    else (
      Status.ok,
      record f {
        read_cursor = u32 (f.read_cursor + 1);
        read_index = next_index f.read_index f.capacity;
        read_borrowed = false;
        consumed_cursor = u32 (f.read_cursor + 1);
        consumes = counter_increment f.consumes;
      },
    )
