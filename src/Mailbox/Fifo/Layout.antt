-- ===== src/Mailbox/Fifo/Layout.antt =====
-- The storage that `wl_fifo_requirements` asks for and `wl_fifo_init` accepts.
use wirelink.Common.{ℕ, ◌+◌, ◌-◌, ◌*◌, ◌/◌, ◌%◌, ◌<◌, ◌≤◌, ◌≡◌, ◌⊎◌, arith, Bool, refl}
use wirelink.Common.{some, size_max, Option-cases, inl, inr}
use wirelink.Common.Bits.{bit_and, bit_not}
use wirelink.Common.Alignment.{round_up, aligned, IsArray, array}
use native.Mathlib.Decide.{dec_lt}
use native.Mathlib.Nat.{div-mul-le_self}
use wirelink.Link.Status.{Status}
use wirelink.Mailbox.Fifo.{
  Fifo, Config, Storage, Requirements, fifo_magic, init, fresh, requirements,
}

-- What an accepted configuration needs.
pub record IsLaidOut (c : Config) (r : Requirements) : Type 0 where
  pub alignment_pos : 0 < c.value_alignment
  pub power : bit_and c.value_alignment (c.value_alignment - 1) ≡ 0
  pub fits : c.value_size ≤ r.slot_stride
  pub tight : r.slot_stride < c.value_size + c.value_alignment
  pub level : r.slot_stride % c.value_alignment ≡ 0
  pub whole : r.storage_size ≡ r.slot_stride * c.capacity
  pub bounded : r.storage_size ≤ size_max

requirements-IsLaidOut :
    (c : Config) {r : Requirements}
    → c.value_alignment ≤ size_max
    → requirements (some c) ≡ some r
    → IsLaidOut c r
unfolding requirements
requirements-IsLaidOut c {r} small h =
    let mask : ℕ = c.value_alignment - 1 in
    let stride : ℕ = bit_and (c.value_size + mask) (bit_not mask) in
    let pos : 0 < c.value_alignment = ground arith in
    let power : bit_and c.value_alignment mask ≡ 0 = ground arith in
    let room : c.value_size + mask ≤ size_max = ground arith in
    let some_slots : 0 < c.capacity = ground arith in
    let few : stride ≤ size_max / c.capacity = ground arith in
    let made : record {
      storage_size = stride * c.capacity;
      slot_stride = stride;
      slot_count = c.capacity;
    }
        ≡ r =
      ground arith in
    let (lo, hi, level) = round_up c.value_size c.value_alignment pos small power room in
    let most : stride * c.capacity ≤ size_max / c.capacity * c.capacity = grind arith in
    let least = div-mul-le_self size_max c.capacity in
    rw (← made) (record {
      alignment_pos = pos;
      power = power;
      fits = lo;
      tight = hi;
      level = level;
      whole = refl;
      bounded = omega arith;
    })

-- Where `wl_fifo_init` answers OK, for an alignment and a storage address of `size_t`, the stride
-- is a multiple of the alignment, not less than the value size and less than an alignment above it;
-- the storage size is the stride times the capacity, without a wrap; and the slots lie in the
-- storage, aligned, without overlap and apart from the context.
pub init-IsArray :
    (lock_free : Bool) (fifo : ℕ) (c : Config) (st : Storage) {f : Fifo}
    → c.value_alignment ≤ size_max
    → st.address ≤ size_max
    → init lock_free fifo (some c) (some st) ≡ (Status.ok, some f)
    → (r : Requirements) × (requirements (some c) ≡ some r)
      × IsLaidOut c r
      × (f.slot_stride ≡ r.slot_stride)
      × IsArray f.storage f.slot_stride f.value_size f.capacity c.value_alignment
          (st.address + r.storage_size)
      × (r.storage_size ≤ st.size)
      × ((st.address + r.storage_size ≤ fifo) ⊎ (fifo + 128 ≤ st.address))
unfolding init
init-IsArray lock_free fifo c st {f} small address h = elim (Option-cases (requirements (some c))) [
  | inl e ↦ absurd (ground arith)
  | inr (r, e) ↦
      let made : fresh c r st fifo_magic ≡ f = ground arith in
      let room : r.storage_size ≤ st.size = ground arith in
      let level : bit_and st.address (c.value_alignment - 1) ≡ 0 = ground arith in
      let away : (st.address + r.storage_size ≤ fifo) ⊎ (fifo + 128 ≤ st.address) =
        elim (dec_lt fifo st.address) [
          | yes lt ↦ let after : fifo + 128 ≤ st.address = ground arith in inr after
          | no ge ↦ let before : st.address + r.storage_size ≤ fifo = ground arith in inl before
        ] in
      let l = requirements-IsLaidOut c small e in
      let even = aligned st.address c.value_alignment l.alignment_pos small address l.power level in
      let slots =
        array st.address r.slot_stride c.value_size c.capacity c.value_alignment
          (st.address + r.storage_size) l.fits l.level even (omega (arith, l.whole)) in
      rw (← made) (unfold fresh in (r, e, l, refl, slots, room, away))
]
