-- ===== src/Mailbox/Fifo/Tests.antt =====
-- A FIFO of two slots of 4 bytes, and what the theorems of this component say of it.
use wirelink.Common.{
  ℕ, ◌+◌, ◌-◌, ◌%◌, ◌<◌, ◌≤◌, ◌≡◌, ◌≢◌, ◌⊎◌, refl, arith, true, false, none, some, u32,
}
use wirelink.Common.Bits.{bit_and, bits_and}
use wirelink.Link.Status.{Status}
use wirelink.Mailbox.Fifo.{
  Fifo, Config, Storage, Requirements, Ticket, init, fresh, requirements, fifo_magic,
}
use wirelink.Mailbox.Fifo.Producer.{claim_matches, write_claim, write_publish}
use wirelink.Mailbox.Fifo.Consumer.{view_matches, read_acquire}
use wirelink.Mailbox.Fifo.Upkeep.{Stats, get_stats}
use wirelink.Mailbox.Fifo.Steps.{
  System, Step, Reach, here, then_step, started, claim, write, publish, acquire, after_publish, put,
}
use wirelink.Common.Alignment.{IsArray}
use wirelink.Mailbox.Fifo.Layout.{IsLaidOut, init-IsArray}
use wirelink.Mailbox.Fifo.Valid.{IsValid}
use wirelink.Mailbox.Fifo.Order.{
  started-IsValid, write_claim_lem, read_acquire_lem, view_keeps, get_stats-depth,
}

abbrev config : Config
config = record { value_size = 3; value_alignment = 4; capacity = 2 }

abbrev storage : Storage
storage = record { address = 4096; size = 8 }

abbrev needed : Requirements
needed = record { storage_size = 8; slot_stride = 4; slot_count = 2 }

-- A value of 3 bytes takes a stride of 4.
requirements-config : requirements (some config) ≡ some needed
unfolding requirements bit_and bits_and
requirements-config = refl

-- Storage that runs into the context is refused.
init_overlap : init true 4100 (some config) (some storage) ≡ (Status.invalid_arg, none)
unfolding init requirements bit_and bits_and
init_overlap = refl

abbrev empty : Fifo
empty = fresh config needed storage fifo_magic

made : init true 8192 (some config) (some storage) ≡ (Status.ok, some empty)
unfolding init requirements bit_and bits_and
made = refl

abbrev zeros : ℕ → ℕ
zeros k = 0

abbrev ticket : Ticket
ticket = record { value = 4096; value_size = 3; token = 1; private_slot = 0 }

abbrev idle : System
idle = started empty zeros

abbrev claimed : System
claimed = record idle { fifo = (write_claim empty false (u32 0)).1; seen_released = 0 }

claimed_now : claimed.fifo.write_claimed ≡ true
unfolding fresh write_claim
claimed_now = refl

abbrev filled : System
filled = record claimed { values = put claimed.values claimed.fifo.write_index 7 }

abbrev published : System
published = after_publish filled (some ticket) 0

one_value : Reach idle published
one_value =
    then_step
      (then_step (then_step here (claim idle false 0 (omega arith) (omega arith)))
        (write claimed 7 claimed_now))
      (publish filled (some ticket) 0 (omega arith) (omega arith))

abbrev reading : System
reading = record published {
  fifo = (read_acquire published.fifo false (u32 1)).1;
  seen_written = 1;
}

counts :
    (published.written ≡ 1)
    × (published.fifo.read_borrowed ≡ false)
    × (published.fifo.write_claimed ≡ false)
    × (reading.fifo.read_borrowed ≡ true)
    × (published.history 0 ≡ 7)
unfolding fresh write_claim write_publish claim_matches read_acquire
counts = (refl, refl, refl, refl, refl)

started-IsValid_example : IsValid published
started-IsValid_example = started-IsValid true 8192 config storage zeros made one_value

published-IsValid : IsValid published
published-IsValid = started-IsValid true 8192 config storage zeros made one_value

read-Step : Step published reading
read-Step = acquire published false 1 (omega arith) (omega (arith, counts.0))

reading-IsValid : IsValid reading
reading-IsValid =
    started-IsValid true 8192 config storage zeros made (then_step one_value read-Step)

write_claim_lem_example :
    let r = write_claim published.fifo false (u32 0) in
    ((r.0 ≡ Status.queue_full) × (r.2 ≡ none) × (published.written ≡ 0 + published.fifo.capacity))
    ⊎ ((t : Ticket) × (r.0 ≡ Status.ok)
        × (r.2 ≡ some t)
        × (claim_matches r.1 (some t) ≡ true)
        × ((k : ℕ)
            → published.released ≤ k
            → k < published.written
            → k % published.fifo.capacity ≢ t.private_slot))
write_claim_lem_example = write_claim_lem published-IsValid 0 (omega arith) (omega arith) counts.2

read_acquire_lem_example :
    let r = read_acquire published.fifo false (u32 1) in
    ((r.0 ≡ Status.no_data) × (r.2 ≡ none) × (1 ≡ published.released))
    ⊎ ((t : Ticket) × (r.0 ≡ Status.ok)
        × (r.2 ≡ some t)
        × (view_matches r.1 (some t) ≡ true)
        × (published.released < 1)
        × (published.values t.private_slot ≡ published.history published.released))
read_acquire_lem_example =
    read_acquire_lem published-IsValid 1 (omega arith) (omega (arith, counts.0)) counts.1

-- The producer claims the other slot while the consumer reads.
abbrev both : System
both = record reading { fifo = (write_claim reading.fifo false (u32 0)).1; seen_released = 0 }

still_borrowed : both.fifo.read_borrowed ≡ true
unfolding fresh write_claim write_publish claim_matches read_acquire
still_borrowed = refl

view_keeps_example :
    (both.fifo.read_index ≡ reading.fifo.read_index)
    × (both.values both.fifo.read_index ≡ reading.values reading.fifo.read_index)
view_keeps_example =
    view_keeps reading-IsValid (claim reading false 0 (omega arith) (omega arith)) counts.3
      still_borrowed

abbrev stats : Stats
stats = record {
  depth = 1;
  high_watermark = 1;
  publishes = 1;
  consumes = 0;
  full_rejections = 0;
  empty_reads = 0;
  aborts = 0;
  resets = 0;
  errors = 0;
}

got_stats :
    get_stats published.fifo false published.fifo.consumed_cursor published.fifo.published_cursor
    ≡ (Status.ok, some stats)
unfolding fresh write_claim write_publish claim_matches get_stats
got_stats = refl

get_stats-depth_example : stats.depth ≡ published.written - published.released
get_stats-depth_example = get_stats-depth published-IsValid stats Status.ok got_stats

init-IsArray_example :
    (r : Requirements) × (requirements (some config) ≡ some r)
    × IsLaidOut config r
    × (empty.slot_stride ≡ r.slot_stride)
    × IsArray empty.storage empty.slot_stride empty.value_size empty.capacity 4
        (4096 + r.storage_size)
    × (r.storage_size ≤ 8)
    × ((4096 + r.storage_size ≤ 8192) ⊎ (8192 + 128 ≤ 4096))
init-IsArray_example = init-IsArray true 8192 config storage (omega arith) (omega arith) made
