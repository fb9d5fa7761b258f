-- ===== src/Mailbox/Outbox/Slots.antt =====
-- The slot array: searching it, counting it, and writing to it.
use wirelink.Common.{ℕ, zero, suc, ◌+◌, ◌<◌, ◌≤◌, ◌≡◌, ◌≢◌, refl, arith, Bool, true, false}
use wirelink.Common.{none, some, List, [], ◌∷◌, length, get_or, set, replicate}
use wirelink.Common.{if◌then◌else◌, Bool-cases, inl, inr, ap, ◌∙◌}
use wirelink.Common.{Option-cases, ◌^◌}
use wirelink.Mailbox.Outbox.{Slot, no_slot, find, Outbox, slot, has_id, is_free}
use wirelink.Mailbox.Outbox.Acquisition.{find_next}
use wirelink.Mailbox.Outbox.Submission.{select}

abbrev pub at : List Slot → ℕ → Slot
at ss k = get_or ss k no_slot

-- What the search returns passes the test.
pub find-some :
    (test : Slot → Bool) (ss : List Slot) (i j : ℕ)
    → find test ss i ≡ some j
    → (k : ℕ) × (j ≡ i + k) × (k < length ss) × (test (at ss k) ≡ true)
unfolding find
find-some test [] i j h = cc
find-some test (s ∷ ss) i j h = elim (Bool-cases (test s)) [
  | inl t ↦ (0, ground arith, omega arith, t)
  | inr f ↦
      let (k, e, lt, t) = find-some test ss (i + 1) j (ground arith) in
      (suc k, omega arith, omega arith, t)
]

-- The search fails exactly when every slot does.
pub find-none :
    (test : Slot → Bool) (ss : List Slot) (i k : ℕ)
    → find test ss i ≡ none
    → k < length ss
    → test (at ss k) ≡ false
unfolding find
find-none test [] i k h lt = absurd (omega arith)
find-none test (s ∷ ss) i zero h lt = ground arith
find-none test (s ∷ ss) i (suc k) h lt = find-none test ss (i + 1) k (ground arith) (omega arith)

pub find_misses :
    (test : Slot → Bool) (ss : List Slot) (i : ℕ)
    → ((k : ℕ) → k < length ss → test (at ss k) ≡ false)
    → find test ss i ≡ none
unfolding find
find_misses test [] i h = refl
find_misses test (s ∷ ss) i h =
    rw (h 0 (omega arith)) (find_misses test ss (i + 1) (λ k lt. h (suc k) (omega arith)))

-- Where one slot alone passes, the search finds it.
pub find_only :
    (test : Slot → Bool) (ss : List Slot) (i k : ℕ)
    → k < length ss
    → test (at ss k) ≡ true
    → ((j : ℕ) → test (at ss j) ≡ true → j ≡ k)
    → find test ss i ≡ some (i + k)
unfolding find
find_only test [] i k lt t only = absurd (omega arith)
find_only test (s ∷ ss) i zero lt t only = rw t (ap some (omega arith))
find_only test (s ∷ ss) i (suc k) lt t only = elim (Bool-cases (test s)) [
  | inl first ↦ absurd (omega (arith, only 0 first))
  | inr f ↦ rw f (
      find_only test ss (i + 1) k (omega arith) t (λ j u. omega (arith, only (suc j) u))
      ∙ ap some (omega arith))
]

-- The number of slots in use.
unfoldable pub occupied : List Slot → ℕ
occupied [] = 0
occupied (s ∷ ss) = (if s.valid then 1 else 0) + occupied ss

pub occupied-le : (ss : List Slot) → occupied ss ≤ length ss
unfolding occupied
occupied-le [] = omega arith
occupied-le (s ∷ ss) = ground (arith, occupied-le ss)

pub occupied_full :
    (ss : List Slot) → ((k : ℕ) → k < length ss → (at ss k).valid ≡ true) → occupied ss ≡ length ss
unfolding occupied
occupied_full [] h = refl
occupied_full (s ∷ ss) h =
    rw (h 0 (omega arith)) (omega (arith, occupied_full ss (λ k lt. h (suc k) (omega arith))))

pub occupied_none :
    (ss : List Slot) → ((k : ℕ) → k < length ss → (at ss k).valid ≡ false) → occupied ss ≡ 0
unfolding occupied
occupied_none [] h = refl
occupied_none (s ∷ ss) h =
    rw (h 0 (omega arith)) (omega (arith, occupied_none ss (λ k lt. h (suc k) (omega arith))))

pub occupied-set :
    (ss : List Slot) (i : ℕ) (s : Slot)
    → i < length ss
    → occupied (set ss i s) + (if (at ss i).valid then 1 else 0)
      ≡ occupied ss + (if s.valid then 1 else 0)
unfolding occupied
occupied-set [] i s lt = absurd (omega arith)
occupied-set (x ∷ ss) zero s lt = omega arith
occupied-set (x ∷ ss) (suc i) s lt = omega (arith, occupied-set ss i s (omega arith))

pub occupied-replicate : (n : ℕ) → occupied (replicate n no_slot) ≡ 0
unfolding occupied
occupied-replicate zero = refl
occupied-replicate (suc n) = omega (arith, occupied-replicate n)

-- What the search of `wl_outbox_submit_latest` returns: the slot of the id, or else a free one.
pub record IsSelected (o : Outbox) (id i : ℕ) (replaced : Bool) : Type 0 where
  pub in_range : i < length o.slots
  pub lane : replaced ≡ true → has_id id (slot o i) ≡ true
  pub free : replaced ≡ false → (slot o i).valid ≡ false
  pub fresh : replaced ≡ false → (k : ℕ) → k < length o.slots → has_id id (slot o k) ≡ false

pub select-some :
    (o : Outbox) (id i : ℕ) (replaced : Bool)
    → select o id ≡ some (i, replaced)
    → IsSelected o id i replaced
unfolding select
select-some o id i replaced h = elim (Option-cases (find (has_id id) o.slots 0)) [
  | inr (j, e) ↦
      let (k, at_k, lt, t) = find-some (has_id id) o.slots 0 j e in
      let same : j ≡ k = omega arith in
      let here : i ≡ k = ground arith in
      record {
        in_range = omega arith;
        lane = λ r. rw here t;
        free = ground arith;
        fresh = λ r. absurd (ground arith);
      }
  | inl e ↦ elim (Option-cases (find is_free o.slots 0)) [
    | inr (j, e') ↦
        let (k, at_k, lt, t) = find-some is_free o.slots 0 j e' in
        let here : i ≡ k = ground arith in
        record {
          in_range = omega arith;
          lane = ground arith;
          free = λ r. rw here (ground arith);
          fresh = λ r k' lt'. find-none (has_id id) o.slots 0 k' e lt';
        }
    | inl e' ↦ absurd (ground arith)
  ]
]

-- It returns nothing if no slot has the id and none is free.
pub select-none :
    (o : Outbox) (id : ℕ)
    → select o id ≡ none
    → (k : ℕ) → k < length o.slots
    → ((slot o k).valid ≡ true) × ((slot o k).message_id ≢ id)
unfolding select
select-none o id h k lt = elim (Option-cases (find (has_id id) o.slots 0)) [
  | inr (j, e) ↦ absurd (ground arith)
  | inl e ↦ elim (Option-cases (find is_free o.slots 0)) [
    | inr (j, e') ↦ absurd (ground arith)
    | inl e' ↦
        ground (arith, find-none (has_id id) o.slots 0 k e lt, find-none is_free o.slots 0 k e' lt)
  ]
]

-- The slot that `wl_outbox_acquire_copy` comes to is in use, and in range.
pub find_next-some :
    (o : Outbox) (n offset i : ℕ)
    → 0 < o.slot_count
    → o.slot_count < 2 ^ 16
    → find_next o n offset ≡ some i
    → (i < o.slot_count) × ((slot o i).valid ≡ true)
unfolding find_next
find_next-some o zero offset i pos small h = cc
find_next-some o (suc n) offset i pos small h =
    ground (arith, find_next-some o n (offset + 1) i pos small)
