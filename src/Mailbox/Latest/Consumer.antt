-- ===== src/Mailbox/Latest/Consumer.antt =====
-- The consumer's side of src/latest.c.
use wirelink.Common.{ℕ, Bool, true, false, not, ◌&&◌, Option, none, some}
use wirelink.Common.{◌==◌, if◌then◌else◌}
use wirelink.Common.Atomic.{counter_increment, next_token}
use wirelink.Link.Status.{Status}
use wirelink.Mailbox.Latest.{Latest, View, latest_magic, slot, error, is_dirty, index}

-- `wl_latest_view_matches`
unfoldable pub view_matches : Latest → Option View → Bool
view_matches b none = false
view_matches b (some view) =
    b.read_borrowed
    && not (view.token == 0)
    && view.token == b.read_token
    && view.private_slot == b.reader_front
    && view.value == slot b b.reader_front
    && view.value_size == b.value_size
    && view.generation == b.slot_generation b.reader_front

-- `wl_latest_read_acquire`, whose load of `middle` returns `seen`; `no_view` says that `out_view` is
-- NULL, and `none` is the view of zeros.
unfoldable pub read_acquire : Latest → Bool → ℕ → Status × Latest × Option View
read_acquire b no_view seen =
    let token = next_token b.read_token in
    let front = index b.middle in
    if no_view
    then (Status.invalid_arg, b, none)
    else if not (b.magic == latest_magic)
    then (Status.not_initialized, b, none)
    else if b.read_borrowed
    then ((error b Status.busy).0, (error b Status.busy).1, none)
    else if not (is_dirty seen)
    then (Status.no_data, record b { empty_reads = counter_increment b.empty_reads }, none)
    else (
      Status.ok,
      record b {
        middle = b.reader_front;
        reader_front = front;
        read_token = token;
        read_borrowed = true;
        reads = counter_increment b.reads;
      },
      some (record {
        value = slot b front;
        value_size = b.value_size;
        generation = b.slot_generation front;
        token = token;
        private_slot = front;
      }),
    )

-- `wl_latest_read_release`
unfoldable pub read_release : Latest → Option View → Status × Latest
read_release b view =
    if not (b.magic == latest_magic)
    then (Status.not_initialized, b)
    else if not (view_matches b view)
    then error b Status.invalid_state
    else (Status.ok, record b { read_borrowed = false })
