-- ===== src/Mailbox/Fifo/Indices.antt =====
-- Slot indices: `wl_fifo_next_index` counts modulo the capacity.
use wirelink.Common.{ℕ, ◌+◌, ◌*◌, ◌/◌, ◌%◌, ◌^◌, ◌<◌, ◌≤◌, ◌≡◌, ◌≢◌, arith, ◌∙◌, ap, sym, u32, ◌==◌}
use wirelink.Common.{true, false}
use native.Mathlib.Decide.{dec_lt}
use native.Mathlib.Nat.{mod-lt, mod-eq_of_lt, mod_self, mod-add-mod, div-add-mod}
use wirelink.Mailbox.Fifo.{next_index}

-- Past the end it starts again.
pub next_index-mod : (k c : ℕ) → 0 < c → c < 2 ^ 31 → next_index (k % c) c ≡ (k + 1) % c
next_index-mod k c pos small =
    let lt = mod-lt k {m = c} pos in
    elim (dec_lt (k % c + 1) c) [
      | yes h ↦
          let whole : u32 (k % c + 1) ≡ k % c + 1 = omega arith in
          let inside : (k % c + 1 == c) ≡ false = ground arith in
          rw (whole, inside) (sym (mod-eq_of_lt h) ∙ mod-add-mod k c 1)
      | no h ↦
          let end : k % c + 1 ≡ c = omega arith in
          let whole : u32 (k % c + 1) ≡ k % c + 1 = omega arith in
          let last : (k % c + 1 == c) ≡ true = ground arith in
          rw (whole, last) (sym (mod_self c) ∙ ap (λ e. e % c) (sym end) ∙ mod-add-mod k c 1)
    ]

-- Places less than the capacity apart have different slots.
pub index_apart : (k w c : ℕ) → k < w → w < k + c → k % c ≢ w % c
index_apart k w c lt near same =
    let at_k = div-add-mod k c in
    let at_w = div-add-mod w c in
    elim (dec_lt (k / c) (w / c)) [
      | yes h ↦ let more : c * (k / c) + c ≤ c * (w / c) = grind arith in absurd (omega arith)
      | no h ↦ let less : c * (w / c) ≤ c * (k / c) = grind arith in absurd (omega arith)
    ]
