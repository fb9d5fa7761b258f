-- ===== src/Mailbox/Outbox/Loans.antt =====
-- The end of a loan: an item is completed once.
use wirelink.Common.{ℕ, ◌≡◌, refl, arith, false, not, ◌&&◌, ◌||◌}
use wirelink.Common.{Option, none, some, ltb, ◌==◌, if◌then◌else◌, if_intro, Option-cases, inl, inr}
use wirelink.Common.Memory.{Mem}
use wirelink.Link.Status.{Status}
use wirelink.Mailbox.Outbox.{
  Outbox, Item, Completion, accepted, deferred, rejected, invalid, outbox_magic,
}
use wirelink.Mailbox.Outbox.Release.{retire, complete, finish, is_valid, reset}
use wirelink.Mailbox.Outbox.Submission.{Submit, select, fill, submit_latest}

-- Calls of anything but `wl_outbox_acquire_copy`.
pub data Calls (o : Outbox) : Outbox → Type 0 where
  none_yet : Calls o o
  submitted :
      {o' : Outbox} (m : Mem) (id payload len : ℕ)
      → Calls o o'
      → Calls o (submit_latest o' m id payload len).box
  completed :
      {o' : Outbox} (item : Option Item) (c : Completion)
      → Calls o o'
      → Calls o (complete o' item c).1
  cleared : {o' : Outbox} → Calls o o' → Calls o (reset o').1

-- An outbox that was initialised, with nothing on loan.
abbrev IsQuiet : Outbox → Type 0
IsQuiet o = (o.magic ≡ outbox_magic) × (o.active ≡ false)

abbrev QuietBy : Status × Outbox → Type 0
QuietBy r = IsQuiet r.1

finish-IsQuiet : (o : Outbox) (item : Item) (c : Completion) → IsQuiet o → IsQuiet (finish o item c)
unfolding finish retire
finish-IsQuiet o item accepted h = h
finish-IsQuiet o item deferred h = h
finish-IsQuiet o item rejected h = h
finish-IsQuiet o item invalid h = h

abbrev SubmitQuiet : Submit → Type 0
SubmitQuiet r = IsQuiet r.box

submit_latest-IsQuiet :
    (o : Outbox) (m : Mem) (id payload len : ℕ)
    → IsQuiet o
    → SubmitQuiet (submit_latest o m id payload len)
unfolding submit_latest fill
submit_latest-IsQuiet o m id payload len h =
    if_intro SubmitQuiet (not (o.magic == outbox_magic)) (λ n. h)
      (λ n.
        if_intro SubmitQuiet
          (id == 0 || ltb o.payload_capacity len || (payload == 0 && not (len == 0))) (λ b. h)
          (λ b. elim (Option-cases (select o id)) [ inl e ↦ rw e h | inr (x, e) ↦ rw e h ]))

refused :
    (o : Outbox) (item : Item) (c : Completion)
    → IsQuiet o
    → complete o (some item) c ≡ (
      if ltb item.slot_index o.slot_count && is_valid c
          then Status.invalid_state
          else Status.invalid_arg,
      o,
    )
unfolding complete
refused o item c h = ground (arith, h)

complete-IsQuiet :
    (o : Outbox) (item : Option Item) (c : Completion) → IsQuiet o → QuietBy (complete o item c)
unfolding complete
complete-IsQuiet o none c h = h
complete-IsQuiet o (some item) c h = ground (arith, h)

reset-IsQuiet : (o : Outbox) → IsQuiet o → IsQuiet (reset o).1
unfolding reset
reset-IsQuiet o h = ground (arith, h)

Calls-IsQuiet : {o o' : Outbox} → IsQuiet o → Calls o o' → IsQuiet o'
Calls-IsQuiet h none_yet = h
Calls-IsQuiet h (submitted m id payload len r) =
    submit_latest-IsQuiet _ m id payload len (Calls-IsQuiet h r)
Calls-IsQuiet h (completed item c r) = complete-IsQuiet _ item c (Calls-IsQuiet h r)
Calls-IsQuiet h (cleared r) = reset-IsQuiet _ (Calls-IsQuiet h r)

abbrev OkQuiet : Status × Outbox → Type 0
OkQuiet r = r.0 ≡ Status.ok → IsQuiet r.1

complete-OkQuiet : (o : Outbox) (item : Item) (c : Completion) → OkQuiet (complete o (some item) c)
unfolding complete
complete-OkQuiet o item c =
    if_intro OkQuiet (not (o.magic == outbox_magic)) (λ n e. absurd (ground arith))
      (λ n.
        if_intro OkQuiet (not (ltb item.slot_index o.slot_count) || not (is_valid c))
          (λ b e. absurd (ground arith))
          (λ b.
            if_intro OkQuiet
              (not o.active
                || not (o.active_index == item.slot_index)
                || not (o.active_token == item.token))
              (λ s e. absurd (ground arith))
              (λ s e.
                finish-IsQuiet (record o { active = false; active_token = 0 }) item c
                  (ground arith, refl))))

-- A loan ends once: after a completion that answered OK, however it ended, and then any submissions,
-- completions and resets, every completion changes nothing and answers INVALID_STATE if its index is
-- in range and it is a known one, and otherwise INVALID_ARG; and a reset answers OK.
pub complete-again :
    (o : Outbox) {o' : Outbox} (item again : Item) (c c' : Completion)
    → (complete o (some item) c).0 ≡ Status.ok
    → Calls (complete o (some item) c).1 o'
    → (complete o' (some again) c' ≡ (
      if ltb again.slot_index o'.slot_count && is_valid c'
          then Status.invalid_state
          else Status.invalid_arg,
      o',
    ))
      × ((reset o').0 ≡ Status.ok)
unfolding reset
complete-again o item again c c' ok calls =
    let h = Calls-IsQuiet (complete-OkQuiet o item c ok) calls in
    (refused _ again c' h, ground (arith, h))
