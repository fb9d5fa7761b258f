-- ===== src/Mailbox/Outbox/Round.antt =====
-- The round that `wl_outbox_acquire_copy` makes from the cursor.
use wirelink.Common.{ℕ, zero, suc, ◌+◌, ◌-◌, ◌%◌, ◌^◌, ◌<◌, ◌≤◌, ◌≡◌, arith}
use wirelink.Common.{true, false, none, some}
use wirelink.Common.{if◌then◌else◌, Bool-cases}
use wirelink.Common.{inl, inr, ◌∙◌, u16}
use native.Mathlib.Decide.{dec_lt}
use native.Mathlib.Nat.{mod-eq_of_lt, mod-eq-sub-mod}
use wirelink.Mailbox.Outbox.{Outbox, slot}
use wirelink.Mailbox.Outbox.Acquisition.{find_next}
use wirelink.Mailbox.Outbox.Slots.{occupied_none}
use wirelink.Mailbox.Outbox.Valid.{IsValid}

-- The slot that comes `k` places behind the cursor.
abbrev pub turn : Outbox → ℕ → ℕ
turn o k = (o.cursor + k) % o.slot_count

find_next-suc :
    (o : Outbox) (n offset : ℕ)
    → 0 < o.slot_count
    → o.slot_count < 2 ^ 16
    → find_next o (suc n) offset ≡ (
        if (slot o (turn o offset)).valid then some (turn o offset) else find_next o n (offset + 1))
unfolding find_next
find_next-suc o n offset pos small =
    let whole : u16 (turn o offset) ≡ turn o offset = omega arith in rw whole

-- The search goes round from the cursor and stops at the first slot in use.
pub find_next-first :
    (o : Outbox) (n offset i : ℕ)
    → 0 < o.slot_count
    → o.slot_count < 2 ^ 16
    → find_next o n offset ≡ some i
    → (k : ℕ) × (offset ≤ k)
      × (k < offset + n)
      × (i ≡ turn o k)
      × ((slot o i).valid ≡ true)
      × ((j : ℕ) → offset ≤ j → j < k → (slot o (turn o j)).valid ≡ false)
find_next-first o zero offset i pos small h = unfold find_next in cc
find_next-first o (suc n) offset i pos small h = elim (Bool-cases (slot o (turn o offset)).valid) [
  | inl used ↦
      let here : i ≡ turn o offset = ground (arith, find_next-suc o n offset pos small) in
      (offset, omega arith, omega arith, here, rw here used, λ j lo hi. absurd (omega arith))
  | inr idle ↦
      let later : find_next o n (offset + 1) ≡ some i =
        ground (arith, find_next-suc o n offset pos small) in
      let (k, lo, hi, here, used, before) = find_next-first o n (offset + 1) i pos small later in
      (
        k,
        omega arith,
        omega arith,
        here,
        used,
        λ j lo' hi'. elim (dec_lt offset j) [
          | yes lt ↦ before j (omega arith) hi'
          | no ge ↦ let same : j ≡ offset = omega arith in rw same idle
        ],
      )
]

-- It fails only after a whole round.
find_next-none :
    (o : Outbox) (n offset k : ℕ)
    → 0 < o.slot_count
    → o.slot_count < 2 ^ 16
    → find_next o n offset ≡ none
    → offset ≤ k
    → k < offset + n
    → (slot o (turn o k)).valid ≡ false
find_next-none o zero offset k pos small h lo hi = absurd (omega arith)
find_next-none o (suc n) offset k pos small h lo hi =
    let idle : (slot o (turn o offset)).valid ≡ false =
      ground (arith, find_next-suc o n offset pos small) in
    elim (dec_lt offset k) [
      | yes lt ↦
          find_next-none o n (offset + 1) k pos small
            (ground (arith, find_next-suc o n offset pos small)) (omega arith) (omega arith)
      | no ge ↦ let same : k ≡ offset = omega arith in rw same idle
    ]

-- A round meets every slot.
turn_onto :
    (o : Outbox) (j : ℕ)
    → o.cursor < o.slot_count
    → j < o.slot_count
    → (k : ℕ) × (k < o.slot_count) × (turn o k ≡ j)
turn_onto o j c h = elim (dec_lt j o.cursor) [
  | yes before ↦ (
    j + o.slot_count - o.cursor,
    omega arith,
    omega (
      arith,
      mod-eq-sub-mod {n = o.cursor + (j + o.slot_count - o.cursor)} {m = o.slot_count}
          (omega arith),
      mod-eq_of_lt {n = o.cursor + (j + o.slot_count - o.cursor) - o.slot_count} {m = o.slot_count}
          (omega arith),
    ),
  )
  | no after ↦ (
    j - o.cursor,
    omega arith,
    omega (arith, mod-eq_of_lt {n = o.cursor + (j - o.cursor)} {m = o.slot_count} (omega arith)),
  )
]

-- With no slot in use nothing waits.
pub idle-depth : {o : Outbox} → IsValid o → find_next o o.slot_count 0 ≡ none → o.depth ≡ 0
idle-depth {o} v h =
    v.depth_is
    ∙ occupied_none o.slots (λ k lt.
      let (j, within, there) = turn_onto o k v.cursor_in (omega (arith, v.counted)) in
      rw there at
        (find_next-none o o.slot_count 0 j v.nonempty v.bounded h (omega arith) (omega arith)))
