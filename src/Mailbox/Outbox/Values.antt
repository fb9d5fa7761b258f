-- ===== src/Mailbox/Outbox/Values.antt =====
-- The outbox as a map from message ids to their latest values.
use wirelink.Common.{ℕ, ◌+◌, ◌*◌, ◌<◌, ◌≤◌, ◌≡◌, ◌≢◌, ◌⊎◌, refl, arith, Bool, true, false}
use wirelink.Common.{Option, none, some, List, length, length-set, ◌==◌, ltb}
use wirelink.Common.{
  ◌&&◌, ◌||◌, not, get_or-set_self, get_or-set_ne, if◌then◌else◌, Bool-cases, Option-cases, inl,
  inr, ◌∙◌, ap, sym,
}
use native.Mathlib.Decide.{dec_lt}
use wirelink.Common.Memory.{Mem, Outside, load, load_agree, load-copy, copy-Outside}
use wirelink.Link.Status.{Status}
use wirelink.Mailbox.Outbox.{Slot, no_slot, Outbox, outbox_magic, slot, payload_at, find, has_id}
use wirelink.Mailbox.Outbox.Submission.{select, fill, submit_latest}
use wirelink.Mailbox.Outbox.Slots.{at, find-some, find-none, find_only, find_misses, occupied_full}
use wirelink.Mailbox.Outbox.Slots.{IsSelected, select-some, select-none}
use wirelink.Mailbox.Outbox.Valid.{IsLanes, IsValid, fill-IsValid}

-- The bytes of slot `i`.
abbrev pub value : Outbox → Mem → ℕ → List ℕ
value o m i = load m (payload_at o i) (slot o i).payload_length

-- The value that waits for `id`.
unfoldable pub latest : Outbox → Mem → ℕ → Option (List ℕ)
latest o m id = elim (find (has_id id) o.slots 0) [ some i ↦ some (value o m i) | none ↦ none ]

-- In a valid outbox the search finds a lane wherever it is.
pub find_lane :
    (ss : List Slot) (capacity id i : ℕ)
    → IsLanes ss capacity
    → i < length ss
    → has_id id (at ss i) ≡ true
    → find (has_id id) ss 0 ≡ some i
find_lane ss capacity id i l lt t =
    find_only (has_id id) ss 0 i lt t (λ j u. ground (arith, l.apart j i)) ∙ ap some (omega arith)

-- The storage of two slots does not overlap.
storage_apart :
    (base capacity len i k x : ℕ)
    → i ≢ k
    → len ≤ capacity
    → base + k * capacity ≤ x
    → x < base + k * capacity + capacity
    → Outside (base + i * capacity) len x
storage_apart base capacity len i k x ne small lo hi = elim (dec_lt i k) [
  | yes lt ↦ let room : i * capacity + capacity ≤ k * capacity = grind arith in inr (omega arith)
  | no ge ↦
      let lt : k < i = omega arith in
      let room : k * capacity + capacity ≤ i * capacity = grind arith in inl (omega arith)
]

pub latest-some :
    (o : Outbox) (m : Mem) (id i : ℕ)
    → find (has_id id) o.slots 0 ≡ some i
    → latest o m id ≡ some (value o m i)
unfolding latest
latest-some o m id i e = rw (e, latest)

pub latest-none :
    (o : Outbox) (m : Mem) (id : ℕ) → find (has_id id) o.slots 0 ≡ none → latest o m id ≡ none
unfolding latest
latest-none o m id e = rw (e, latest)

module _ {o : Outbox} (v : IsValid o) (m : Mem) (id payload len i : ℕ) (replaced : Bool)
    (numbered : id ≢ 0) (small : len ≤ o.payload_capacity) (s : IsSelected o id i replaced) where
  abbrev filled : Outbox
  filled = (fill o m id payload len i replaced).box

  abbrev stored : Mem
  stored = (fill o m id payload len i replaced).mem

  lanes : IsLanes filled.slots filled.payload_capacity
  lanes = (fill-IsValid v m id payload len i replaced numbered small s).lanes

  length-filled : length filled.slots ≡ length o.slots
  unfolding fill
  length-filled = length-set o.slots i _

  slot-filled_self :
      ((slot filled i).valid ≡ true)
      × ((slot filled i).message_id ≡ id)
      × ((slot filled i).payload_length ≡ len)
  unfolding fill
  slot-filled_self = rw (get_or-set_self o.slots i _ no_slot s.in_range) (refl, refl, refl)

  slot-filled_ne : (k : ℕ) → i ≢ k → slot filled k ≡ slot o k
  unfolding fill
  slot-filled_ne k ne = get_or-set_ne o.slots i k _ no_slot ne

  value-filled_self : load stored (payload_at filled i) len ≡ load m payload len
  unfolding fill
  value-filled_self = elim (Bool-cases (len == 0)) [
    | inl z ↦ let e : len ≡ 0 = ground arith in rw e
    | inr nz ↦ rw nz (load-copy m (payload_at o i) payload len)
  ]

  -- The bytes of another slot stay.
  value-filled_ne :
      (k : ℕ)
      → i ≢ k
      → k < length o.slots
      → (slot o k).valid ≡ true
      → value filled stored k ≡ value o m k
  unfolding fill
  value-filled_ne k ne lt used = rw (slot-filled_ne k ne) (
      load_agree m stored (payload_at o k) (slot o k).payload_length (λ x lo hi. unchanged x (
        storage_apart o.payload_storage o.payload_capacity len i k x ne small lo
          (omega (arith, v.lanes.fits k used)))))
    where
      unchanged : (x : ℕ) → Outside (payload_at o i) len x → stored x ≡ m x
      unchanged x out = ground (arith, copy-Outside m (payload_at o i) payload len x)

  -- The slot of another id is another slot.
  other_slot : (j k : ℕ) → j ≢ id → has_id j (slot o k) ≡ true → i ≢ k
  other_slot j k ne t same =
      let t' : has_id j (slot o i) ≡ true = rw same t in
      elim (Bool-cases replaced) [
        | inl r ↦ ground (arith, s.lane r)
        | inr f ↦ ground (arith, s.free f)
      ]

  missed :
      (j : ℕ)
      → j ≢ id
      → find (has_id j) o.slots 0 ≡ none
      → (k : ℕ) → k < length filled.slots
      → has_id j (slot filled k) ≡ false
  missed j ne e k lt = elim (Bool-cases (i == k)) [
    | inl same ↦ let here : k ≡ i = ground arith in rw here (ground (arith, slot-filled_self))
    | inr other ↦
        rw (slot-filled_ne k (ground arith))
          (find-none (has_id j) o.slots 0 k e (omega (arith, length-filled)))
  ]

  pub latest-fill_self : latest filled stored id ≡ some (load m payload len)
  latest-fill_self =
      let (used, named, long) = slot-filled_self in
      latest-some filled stored id i (
        find_lane filled.slots filled.payload_capacity id i lanes
          (omega (arith, length-filled, s.in_range)) (ground arith))
      ∙ ap some (rw long value-filled_self)

  latest-fill_ne : (j : ℕ) → j ≢ id → latest filled stored j ≡ latest o m j
  latest-fill_ne j ne = elim (Option-cases (find (has_id j) o.slots 0)) [
    | inr (k', e) ↦
        let (k, at_k, lt, t) = find-some (has_id j) o.slots 0 k' e in
        let here : k' ≡ k = omega arith in
        let other : i ≢ k = other_slot j k ne t in
        latest-some filled stored j k (
          find_lane filled.slots filled.payload_capacity j k lanes (omega (arith, length-filled))
            (rw (slot-filled_ne k other) t))
        ∙ ap some (value-filled_ne k other lt (ground arith))
        ∙ sym (latest-some o m j k (rw here at e))
    | inl e ↦
        latest-none filled stored j (find_misses (has_id j) filled.slots 0 (missed j ne e))
        ∙ sym (latest-none o m j e)
  ]

  latest-fill :
      (j : ℕ)
      → latest filled stored j ≡ (if j == id then some (load m payload len) else latest o m j)
  latest-fill j = elim (Bool-cases (j == id)) [
    | inl e ↦ let same : j ≡ id = ground arith in rw (e, same) latest-fill_self
    | inr f ↦ rw f (latest-fill_ne j (ground arith))
  ]

status-fill :
    (o : Outbox) (m : Mem) (id payload len i : ℕ) (replaced : Bool)
    → (fill o m id payload len i replaced).status ≡ Status.ok
unfolding fill
status-fill o m id payload len i replaced = refl

-- A value that is submitted to a valid outbox, with an id that is not 0, a pointer that is not NULL
-- and a length within the slots, replaces the one that waits for its id, and no other: where the
-- call answers OK, the value for `id` is the submitted bytes and the value for every other id is as
-- it was. Where it answers QUEUE_FULL, no value waits for `id`, every slot is in use, and no value
-- has changed. It answers nothing else.
pub latest-submit_latest :
    {o : Outbox} (m : Mem) (id payload len j : ℕ)
    → IsValid o
    → id ≢ 0
    → payload ≢ 0
    → len ≤ o.payload_capacity
    → let r = submit_latest o m id payload len in
      ((r.status ≡ Status.ok)
        × (latest r.box r.mem j ≡ (if j == id then some (load m payload len) else latest o m j)))
      ⊎ ((r.status ≡ Status.queue_full)
          × (latest r.box r.mem j ≡ latest o m j)
          × (latest o m id ≡ none)
          × (o.depth ≡ o.slot_count))
unfolding submit_latest
latest-submit_latest {o} m id payload len j v numbered given small =
    let marked : (o.magic == outbox_magic) ≡ true = ground (arith, v.marked) in
    let taken : (id == 0 || ltb o.payload_capacity len || (payload == 0 && not (len == 0)))
        ≡ false =
      ground arith in
    elim (Option-cases (select o id)) [
      | inr ((i, replaced), e) ↦
          rw (marked, taken, e)
            (inl (
              status-fill o m id payload len i replaced,
              latest-fill v m id payload len i replaced numbered small
                  (select-some o id i replaced e) j,
            ))
      | inl e ↦
          let full = select-none o id e in
          rw (marked, taken, e)
            (inr (
              refl,
              unfold latest in refl,
              latest-none o m id
                  (find_misses (has_id id) o.slots 0 (λ k lt. ground (arith, full k lt))),
              v.depth_is ∙ occupied_full o.slots (λ k lt. (full k lt).0) ∙ v.counted,
            ))
    ]
