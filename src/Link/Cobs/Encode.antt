-- ===== src/Link/Cobs/Encode.antt =====
-- The whole of `wl_cobs_encode`: its checks and its loop.
use wirelink.Common.{ℕ, suc, ◌+◌, ◌^◌, ◌<◌, ◌≤◌, ◌≡◌, ◌≢◌, ◌⊎◌, inl, inr, refl, arith, ap}
use wirelink.Common.{List, [], ◌∷◌, ◌++◌, length, length-append, some, ltb, ◌==◌, size_max}
use wirelink.Common.{All, true, false, u8, size, if◌then◌else◌}
use native.Mathlib.Decide.{dec_lt}
use wirelink.Common.Memory.{Mem, Holds, IsWritten, IsDisjoint, store, store-IsWritten}
use wirelink.Link.Status.{Status}
use wirelink.Link.Cobs.{
  Result, encoded_max_size, count_loop, count_encoded_len, encode, encode_loop,
}
use wirelink.Link.Cobs.{close, start}
use wirelink.Link.Cobs.Format.{Blocks, IsNonzero, stuffed-Blocks, stuffed-IsNonzero}
use wirelink.Link.Cobs.Format.{stuffed, length-snoc, length-stuffed_lower, length-stuffed_upper}
use wirelink.Link.Cobs.Writer.{IsOpen, encode_loop-IsWritten}

abbrev pub max_input : ℕ
max_input = 2 ^ 62

-- The count is the length of what the loop writes, as long as no length wraps.
count_loop-stuffed :
    (m : Mem) (a : ℕ) (q xs : List ℕ) (n code total : ℕ)
    → Holds m a xs
    → code ≡ length q + 1
    → length q < 254
    → n + length (stuffed q xs) ≡ total + length q + 1
    → total < size_max
    → count_loop m a (length xs) n code ≡ some total
unfolding count_loop stuffed
count_loop-stuffed m a q [] n code total h c short e fits = ap some (omega arith)
count_loop-stuffed m a q (x ∷ xs) n code total h c short e fits = ground (
  arith,
  length-append q (stuffed [] xs),
  length-append (q ++ (x ∷ [])) (stuffed [] xs),
  length-snoc q x,
  length-stuffed_lower [] xs,
  length-stuffed_lower (q ++ (x ∷ [])) xs,
  count_loop-stuffed m (a + 1) [] xs (size (n + 1)) 1 total h.1 refl (omega arith),
  count_loop-stuffed m (a + 1) [] xs (size (size (n + 1) + 1)) 1 total h.1 refl (omega arith),
  count_loop-stuffed m (a + 1) (q ++ (x ∷ [])) xs (size (n + 1)) (u8 (code + 1)) total h.1,
)

-- The bound that callers size their buffers by.
pub length-stuffed-le-encoded_max_size :
    (xs : List ℕ) → length xs < max_input → length (stuffed [] xs) ≤ encoded_max_size (length xs)
unfolding encoded_max_size
length-stuffed-le-encoded_max_size xs h = ground (arith, length-stuffed_upper [] xs)

-- What a call of `encode` has to find: real pointers, an input of a size that no count wraps on,
-- and an output that does not overlap it.
pub record IsReady (m : Mem) (input out len_ptr : ℕ) (xs : List ℕ) : Type 0 where
  pub held : Holds m input xs
  pub given : (input ≢ 0) × (out ≢ 0) × (len_ptr ≢ 0)
  pub small : length xs < max_input
  pub apart : IsDisjoint input (length xs) out (length (stuffed [] xs))

-- The count before the loop.
count_encoded_len-stuffed :
    (m : Mem) (input : ℕ) (xs : List ℕ)
    → Holds m input xs
    → input ≢ 0
    → length xs < max_input
    → count_encoded_len m input (length xs) ≡ some (length (stuffed [] xs))
unfolding count_encoded_len
count_encoded_len-stuffed m input [] h g small = unfold stuffed in ground arith
count_encoded_len-stuffed m input (x ∷ xs) h g small = ground (
  arith,
  length-stuffed_upper [] (x ∷ xs),
  count_loop-stuffed m input [] (x ∷ xs) 1 1 (length (stuffed [] (x ∷ xs))) h refl,
)

-- The state before the loop is an open block with nothing in it.
pub start-IsOpen : (m : Mem) (out : ℕ) → IsOpen out [] [] (start m)
start-IsOpen m out = record {
  blocks = tt;
  run = tt;
  code_at = refl;
  write_at = refl;
  code_is = refl;
  short = omega arith;
}

-- The two results of a call whose pointers are real.
abbrev pub Encoded : Mem → ℕ → List ℕ → Result → Type 0
Encoded m out xs r =
    (r.status ≡ Status.ok)
    × (r.len ≡ some (length (stuffed [] xs)))
    × IsWritten out (stuffed [] xs) m r.mem

abbrev pub Refused : Mem → Status → Result → Type 0
Refused m status r = (r.status ≡ status) × (r.len ≡ some 0) × (r.mem ≡ m)

module _ (m : Mem) (input out cap len_ptr : ℕ) where
  encode_small :
      (xs : List ℕ)
      → IsReady m input out len_ptr xs
      → cap < length (stuffed [] xs)
      → Refused m Status.buf_too_small (encode m input (length xs) out cap len_ptr)
  unfolding encode
  encode_small xs r h =
      let present : (len_ptr == 0) ≡ false = ground (arith, r.given) in
      let small : ltb cap (length (stuffed [] xs)) ≡ true = ground arith in
      rw (present, count_encoded_len-stuffed m input xs r.held r.given.0 r.small, small)
        (refl, refl, refl)

  -- With room enough the call comes to its loop, or to the constant encoding of nothing.
  encode_body :
      (xs : List ℕ)
      → IsReady m input out len_ptr xs
      → length (stuffed [] xs) ≤ cap
      → encode m input (length xs) out cap len_ptr ≡ (
          if length xs == 0
          then record { status = Status.ok; mem = store m out 1; len = some 1 }
          else record {
            status = Status.ok;
            mem = close out (encode_loop out input (length xs) (start m));
            len = some (encode_loop out input (length xs) (start m)).write_index;
          })
  unfolding encode
  encode_body xs r h =
      let present : (len_ptr == 0) ≡ false = ground (arith, r.given) in
      let large : ltb cap (length (stuffed [] xs)) ≡ false = ground arith in
      let target : (out == 0) ≡ false = ground (arith, r.given) in
      rw (present, count_encoded_len-stuffed m input xs r.held r.given.0 r.small, large, target)

  pub encode_large :
      (xs : List ℕ)
      → IsReady m input out len_ptr xs
      → length (stuffed [] xs) ≤ cap
      → Encoded m out xs (encode m input (length xs) out cap len_ptr)
  encode_large [] r h =
      rw (encode_body [] r h) (unfold stuffed in (refl, refl, store-IsWritten m out 1))
  encode_large (x ∷ xs) r h =
      let (w, count) =
        encode_loop-IsWritten out input [] [] (x ∷ xs) (start m) (start-IsOpen m out) r.held
          r.apart in
      let nonempty : (suc (length xs) == 0) ≡ false = ground arith in
      rw (encode_body (x ∷ xs) r h, nonempty) (refl, ap some count, w)

  -- Given buffers that are not NULL and do not overlap, on an input of less than 2^62 bytes, the
  -- call either finds the capacity smaller than the encoding, and then answers BUF_TOO_SMALL,
  -- reports the length 0 and leaves memory as it was; or it answers OK, reports the length of the
  -- encoding, writes the encoding at `out` and leaves all other memory as it was.
  pub encode_lem :
      (xs : List ℕ)
      → IsReady m input out len_ptr xs
      → let r = encode m input (length xs) out cap len_ptr in
        ((cap < length (stuffed [] xs)) × Refused m Status.buf_too_small r)
        ⊎ ((length (stuffed [] xs) ≤ cap) × Encoded m out xs r)
  encode_lem xs r = elim (dec_lt cap (length (stuffed [] xs))) [
    | yes lt ↦ inl (lt, encode_small xs r lt)
    | no ge ↦ let le : length (stuffed [] xs) ≤ cap = omega arith in inr (le, encode_large xs r le)
  ]

-- Given pointers that are not NULL, an input of less than 2^62 bytes and, apart from it, a buffer
-- of the size that `wl_cobs_encoded_max_size` gives, what is written is in the format: it is a
-- sequence of blocks for the input, none of its bytes is the delimiter 0, it is not longer than
-- that size, and its length is reported.
pub encode-Blocks :
    (m : Mem) (input out cap len_ptr : ℕ) (xs : List ℕ)
    → IsReady m input out len_ptr xs
    → encoded_max_size (length xs) ≤ cap
    → let r = encode m input (length xs) out cap len_ptr in
      (ys : List ℕ) × Blocks xs ys
      × All IsNonzero ys
      × (length ys ≤ encoded_max_size (length xs))
      × (r.status ≡ Status.ok)
      × (r.len ≡ some (length ys))
      × IsWritten out ys m r.mem
encode-Blocks m input out cap len_ptr xs r room =
    let bound = length-stuffed-le-encoded_max_size xs r.small in
    let (status, len, written) = encode_large m input out cap len_ptr xs r (omega (arith, bound)) in
    (
      stuffed [] xs,
      stuffed-Blocks [] xs (omega arith),
      stuffed-IsNonzero [] xs tt,
      bound,
      status,
      len,
      written,
    )
