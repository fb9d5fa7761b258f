-- ===== src/Mailbox/Latest/Tests.antt =====
-- A mailbox for values of 3 bytes, and what the theorems of this component say of it.
use wirelink.Common.{
  ℕ, ◌≤◌, ◌+◌, ◌^◌, ◌<◌, ◌≡◌, ◌≢◌, ◌⊎◌, refl, arith, true, false, none, some, u32,
}
use wirelink.Common.Bits.{bit_and, bits_and}
use wirelink.Link.Status.{Status}
use wirelink.Mailbox.Latest.{
  Latest, Config, Storage, Requirements, Claim, View, init, fresh, requirements, latest_magic,
  is_dirty, index,
}
use wirelink.Mailbox.Latest.Producer.{claim_matches, write_claim, write_publish}
use wirelink.Mailbox.Latest.Consumer.{view_matches, read_acquire}
use wirelink.Mailbox.Latest.Steps.{
  System, Reach, here, then_step, begun, claim, write, publish, acquire, after_publish,
  after_acquire, put,
}
use wirelink.Common.Alignment.{IsArray}
use wirelink.Mailbox.Latest.Layout.{IsLaidOut, init-IsLaidOut}
use wirelink.Mailbox.Latest.Valid.{IsValid}
use wirelink.Mailbox.Latest.Newest.{
  begun-IsValid, read_acquire-newest, write_claim_apart, view_stays,
}

-- The generations are about to wrap.
abbrev config : Config
config = record { value_size = 3; value_alignment = 4; initial_generation = 0xffffffff }

abbrev storage : Storage
storage = record { address = 4096; size = 12 }

abbrev needed : Requirements
needed = record { storage_size = 12; slot_stride = 4; slot_count = 3 }

abbrev empty : Latest
empty = fresh config needed storage latest_magic

made : init true 8192 (some config) (some storage) ≡ (Status.ok, some empty)
unfolding init requirements bit_and bits_and
made = refl

abbrev zeros : ℕ → ℕ
zeros k = 0

abbrev ticket : Claim
ticket = record { value = 4104; value_size = 3; token = 1; private_slot = 2 }

abbrev idle : System
idle = begun empty zeros

abbrev claimed : System
claimed = record idle { box = (write_claim empty false).1 }

claimed_now : claimed.box.write_claimed ≡ true
unfolding fresh write_claim
claimed_now = refl

abbrev filled : System
filled = record claimed { values = put claimed.values claimed.box.writer_back 7 }

abbrev published : System
published = after_publish filled (some ticket)

small : config.initial_generation < 2 ^ 32
small = omega arith

one_value : Reach idle published
one_value =
    then_step (then_step (then_step here (claim idle false)) (write claimed 7 claimed_now))
      (publish filled (some ticket))

begun-IsValid_example : IsValid published
begun-IsValid_example = begun-IsValid true 8192 config storage zeros small made one_value

published-IsValid : IsValid published
published-IsValid = begun-IsValid true 8192 config storage zeros small made one_value

abbrev reading : System
reading = after_acquire published false published.box.middle

reading-IsValid : IsValid reading
reading-IsValid =
    begun-IsValid true 8192 config storage zeros small made
      (then_step one_value (acquire published false published.box.middle (λ e. e)))

facts :
    (published.box.read_borrowed ≡ false)
    × (published.box.write_claimed ≡ false)
    × (reading.box.read_borrowed ≡ true)
    × (published.newest ≡ 7)
    × (is_dirty published.box.middle ≡ true)
unfolding fresh write_claim write_publish claim_matches read_acquire
facts = (refl, refl, refl, refl, refl)

read_acquire-newest_example :
    let r = read_acquire published.box false published.box.middle in
    ((r.0 ≡ Status.no_data) × (r.2 ≡ none) × (is_dirty published.box.middle ≡ false))
    ⊎ ((t : View) × (r.0 ≡ Status.ok)
        × (r.2 ≡ some t)
        × (view_matches r.1 (some t) ≡ true)
        × (published.acquired < published.published)
        × (published.values t.private_slot ≡ published.newest)
        × (t.generation ≡ u32 (published.initial + published.published))
        × (is_dirty r.1.middle ≡ false))
read_acquire-newest_example =
    read_acquire-newest published-IsValid published.box.middle (λ e. e) facts.0

write_claim_apart_example :
    let r = write_claim published.box false in
    (t : Claim) × (r.0 ≡ Status.ok)
    × (r.2 ≡ some t)
    × (claim_matches r.1 (some t) ≡ true)
    × (t.private_slot ≢ published.box.reader_front)
    × (t.private_slot ≢ index published.box.middle)
write_claim_apart_example = write_claim_apart published-IsValid facts.1

-- The producer claims while the consumer reads.
abbrev both : System
both = record reading { box = (write_claim reading.box false).1 }

still_borrowed : both.box.read_borrowed ≡ true
unfolding fresh write_claim write_publish claim_matches read_acquire
still_borrowed = refl

view_stays_example :
    (both.box.reader_front ≡ reading.box.reader_front)
    × (both.values both.box.reader_front ≡ reading.values reading.box.reader_front)
    × (both.box.slot_generation both.box.reader_front
        ≡ reading.box.slot_generation reading.box.reader_front)
view_stays_example = view_stays reading-IsValid (claim reading false) facts.2 still_borrowed

init-IsLaidOut_example :
    (r : Requirements) × (requirements (some config) ≡ some r)
    × IsLaidOut config r
    × (empty.slot_stride ≡ r.slot_stride)
    × IsArray empty.storage empty.slot_stride empty.value_size 3 4 (4096 + r.storage_size)
    × (r.storage_size ≤ 12)
    × ((4096 + r.storage_size ≤ 8192) ⊎ (8192 + 128 ≤ 4096))
init-IsLaidOut_example = init-IsLaidOut true 8192 config storage (omega arith) (omega arith) made
