-- ===== src/Link/Frame/Size.antt =====
-- The exact size that src/frame.c counts before it encodes, and its test for overlapping spans.
use wirelink.Common.{ℕ, ◌+◌, ◌<◌, ◌≤◌, ◌≡◌, ◌⊎◌, refl, arith, ap, sym, ◌∙◌}
use wirelink.Common.{List, [], ◌∷◌, ◌++◌, length, length-append, false}
use wirelink.Common.Memory.{Mem, Holds}
use wirelink.Link.Cobs.Format.{stuffed, length-snoc}
use wirelink.Link.Frame.Encoder.{
  Count, count_byte, count_bytes, cobs_count_span, frame_cobs_encoded_size, spans_overlap,
}

count_bytes-stuffed :
    (s : Count) (q xs : List ℕ)
    → s.code ≡ length q + 1
    → length q < 254
    → (count_bytes s xs).encoded_len + length q + 1 ≡ s.encoded_len + length (stuffed q xs)
unfolding count_bytes count_byte stuffed
count_bytes-stuffed s q [] c short = omega arith
count_bytes-stuffed s q (x ∷ xs) c short = ground (
  arith,
  length-append q (stuffed [] xs),
  length-append (q ++ (x ∷ [])) (stuffed [] xs),
  length-snoc q x,
  count_bytes-stuffed (count_byte s x) [] xs,
  count_bytes-stuffed (count_byte s x) (q ++ (x ∷ [])) xs,
)

cobs_count_span-Holds :
    (s : Count) (m : Mem) (a : ℕ) (xs : List ℕ)
    → Holds m a xs
    → cobs_count_span s m a (length xs) ≡ count_bytes s xs
unfolding cobs_count_span count_bytes
cobs_count_span-Holds s m a [] h = refl
cobs_count_span-Holds s m a (x ∷ xs) h =
    ap (λ v. cobs_count_span (count_byte s v) m (a + 1) (length xs)) h.0
    ∙ cobs_count_span-Holds (count_byte s x) m (a + 1) xs h.1

count_bytes-append :
    (s : Count) (xs ys : List ℕ) → count_bytes s (xs ++ ys) ≡ count_bytes (count_bytes s xs) ys
unfolding count_bytes
count_bytes-append s [] ys = refl
count_bytes-append s (x ∷ xs) ys = count_bytes-append (count_byte s x) xs ys

-- The count is the length of the encoding of the three spans together.
pub frame_cobs_encoded_size_lem :
    (m : Mem) (payload : ℕ) (header xs trailer : List ℕ)
    → Holds m payload xs
    → frame_cobs_encoded_size m header payload (length xs) trailer
      ≡ length (stuffed [] (header ++ (xs ++ trailer)))
unfolding frame_cobs_encoded_size
frame_cobs_encoded_size_lem m payload header xs trailer h =
    let s : Count = record { encoded_len = 1; code = 1 } in
    let total = count_bytes-stuffed s [] (header ++ (xs ++ trailer)) refl (omega arith) in
    let after : Count → Count = λ c. count_bytes c trailer in
    let spans =
      ap after (cobs_count_span-Holds (count_bytes s header) m payload xs h)
      ∙ sym (count_bytes-append (count_bytes s header) xs trailer)
      ∙ sym (count_bytes-append s header (xs ++ trailer)) in
    let measure : Count → ℕ = λ c. c.encoded_len in ap measure spans ∙ omega (arith, total)

-- Spans that are not empty and do not overlap lie apart.
pub spans_overlap-apart :
    (a n b k : ℕ) → spans_overlap a n b k ≡ false → (n ≡ 0) ⊎ (k ≡ 0) ⊎ (a + n ≤ b) ⊎ (b + k ≤ a)
unfolding spans_overlap
spans_overlap-apart a n b k h = ground arith
