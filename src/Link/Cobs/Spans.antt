-- ===== src/Link/Cobs/Spans.antt =====
-- The encoder of src/cobs.c carried on over several spans of bytes, as the framing does it.
use wirelink.Common.{ℕ, suc, ◌+◌, ◌<◌, ◌≤◌, ◌≡◌, ◌⊎◌, refl, arith, ap, ◌∙◌}
use wirelink.Common.{List, [], ◌∷◌, ◌++◌, length, length-append, append-nil}
use wirelink.Common.Memory.{Mem, Holds, Holds_agree, Outside, IsWritten}
use wirelink.Link.Cobs.{Encoder, encode_byte, encode_loop, close, start}
use wirelink.Link.Cobs.Format.{stuffed, length-stuffed_lower}
use wirelink.Link.Cobs.Writer.{IsOpen, next-IsOpen, encode_byte-Outside, close-Holds, close-Outside}

-- From `s`, with the block `q` open behind `p`, the encoder has come to `s'` by taking in `xs`;
-- `ys` are still to come.
pub record Extended (out : ℕ) (p q : List ℕ) (s s' : Encoder) (xs ys : List ℕ) : Type 0 where
  pub blocks : List ℕ
  pub run : List ℕ
  pub is_open : IsOpen out blocks run s'
  pub whole : blocks ++ stuffed run ys ≡ p ++ stuffed q (xs ++ ys)
  pub later : s.write_index ≤ s'.write_index
  pub outside : (x : ℕ) → Outside out s'.write_index x → s'.mem x ≡ s.mem x

-- An open block and what is still to come fill the encoding.
pub write_index-IsOpen :
    (out : ℕ) (p q xs : List ℕ) (s : Encoder)
    → IsOpen out p q s
    → s.write_index + length xs ≤ length (p ++ stuffed q xs)
write_index-IsOpen out p q xs s o =
    omega (arith, o.write_at, length-append p (stuffed q xs), length-stuffed_lower q xs)

encode_byte-later :
    (out : ℕ) (s : Encoder) (x : ℕ) → s.write_index < (encode_byte out s x).write_index
unfolding encode_byte
encode_byte-later out s x = ground arith

pub nothing-Extended :
    (out : ℕ) (p q ys : List ℕ) (s : Encoder) → IsOpen out p q s → Extended out p q s s [] ys
nothing-Extended out p q ys s o = record {
  blocks = p;
  run = q;
  is_open = o;
  whole = refl;
  later = omega arith;
  outside = λ x h. refl;
}

-- A byte, and then a span.
pub byte-Extended :
    (out : ℕ) (p q xs ys : List ℕ) (x : ℕ) (s s' : Encoder) (o : IsOpen out p q s)
    → ((p' q' : List ℕ)
        → IsOpen out p' q' (encode_byte out s x)
        → p' ++ stuffed q' (xs ++ ys) ≡ p ++ stuffed q (x ∷ (xs ++ ys))
        → Extended out p' q' (encode_byte out s x) s' xs ys)
    → Extended out p q s s' (x ∷ xs) ys
byte-Extended out p q xs ys x s s' o rest =
    let (p', q', o', e) = next-IsOpen out p q x (xs ++ ys) s o in
    let r = rest p' q' o' e in
    let later = encode_byte-later out s x in
    record {
      blocks = r.blocks;
      run = r.run;
      is_open = r.is_open;
      whole = r.whole ∙ e;
      later = omega (arith, r.later, later);
      outside = λ y h. r.outside y h ∙ encode_byte-Outside out p q s o x y (omega (arith, r.later));
    }

-- The span is read while the encoder writes, so it has to lie outside the encoding, or so far
-- behind its start that the writes never pass the reads.
abbrev pub Leads : ℕ → ℕ → ℕ → ℕ → ℕ → Type 0
Leads out a n k total = (n ≡ 0) ⊎ (a + n ≤ out) ⊎ (out + total ≤ a) ⊎ (out + total ≤ a + n + k)

encode_loop-next :
    (out a n x : ℕ) (s : Encoder)
    → s.mem a ≡ x
    → encode_loop out a (suc n) s ≡ encode_loop out (a + 1) n (encode_byte out s x)
unfolding encode_loop
encode_loop-next out a n x s e = ap (λ v. encode_loop out (a + 1) n (encode_byte out s v)) e

-- A byte is written without changing what is unread.
pub next-Leads :
    (out a : ℕ) (p q p' q' : List ℕ) (x : ℕ) (xs ys : List ℕ) (s : Encoder)
    → IsOpen out p q s
    → IsOpen out p' q' (encode_byte out s x)
    → p' ++ stuffed q' (xs ++ ys) ≡ p ++ stuffed q (x ∷ (xs ++ ys))
    → Leads out a (suc (length xs)) (length ys) (length (p ++ stuffed q (x ∷ (xs ++ ys))))
    → Holds s.mem (a + 1) xs
    → Holds (encode_byte out s x).mem (a + 1) xs
      × Leads out (a + 1) (length xs) (length ys) (length (p' ++ stuffed q' (xs ++ ys)))
next-Leads out a p q p' q' x xs ys s o o' e l h =
    let size = ap length e in
    let room = write_index-IsOpen out p' q' (xs ++ ys) _ o' in
    (
      Holds_agree s.mem _ (a + 1) xs
          (λ y lo hi.
            encode_byte-Outside out p q s o x y (omega (arith, l, size, length-append xs ys, room)))
          h,
      omega (arith, l, size),
    )

pub encode_loop-Extended :
    (out a : ℕ) (p q xs ys : List ℕ) (s : Encoder)
    → IsOpen out p q s
    → Holds s.mem a xs
    → Leads out a (length xs) (length ys) (length (p ++ stuffed q (xs ++ ys)))
    → Extended out p q s (encode_loop out a (length xs) s) xs ys
encode_loop-Extended out a p q [] ys s o h l = unfold encode_loop in nothing-Extended out p q ys s o
encode_loop-Extended out a p q (x ∷ xs) ys s o h l =
    rw (encode_loop-next out a (length xs) x s h.0) (
      byte-Extended out p q xs ys x s _ o (λ p' q' o' e.
        let (h', l') = next-Leads out a p q p' q' x xs ys s o o' e l h.1 in
        encode_loop-Extended out (a + 1) p' q' xs ys _ o' h' l'))

-- Two spans, one after the other, and nothing to come.
pub Extended-append :
    (out : ℕ) (p q : List ℕ) (s s' s'' : Encoder) (xs ys : List ℕ) (e : Extended out p q s s' xs ys)
    → Extended out e.blocks e.run s' s'' ys []
    → Extended out p q s s'' (xs ++ ys) []
Extended-append out p q s s' s'' xs ys e f =
    let w : f.blocks ++ stuffed f.run [] ≡ e.blocks ++ stuffed e.run ys =
      rw append-nil at f.whole in
    record {
      blocks = f.blocks;
      run = f.run;
      is_open = f.is_open;
      whole = rw append-nil (w ∙ e.whole);
      later = omega (arith, e.later, f.later);
      outside = λ y h. f.outside y h ∙ e.outside y (omega (arith, f.later));
    }

-- The last code completes the encoding of all that was taken in.
pub close-IsWritten :
    (m : Mem) (out : ℕ) (xs : List ℕ) (s : Encoder)
    → Extended out [] [] (start m) s xs []
    → IsWritten out (stuffed [] xs) m (close out s) × (s.write_index ≡ length (stuffed [] xs))
unfolding stuffed
close-IsWritten m out xs s e =
    let o = e.is_open in
    let w : e.blocks ++ ((length e.run + 1) ∷ e.run) ≡ stuffed [] xs = rw append-nil at e.whole in
    let l = length-append e.blocks ((length e.run + 1) ∷ e.run) in
    rw (← w) (
      record {
        bytes = close-Holds out e.blocks e.run s o;
        outside = λ y h.
            close-Outside out e.blocks e.run s o y (omega (arith, l))
            ∙ e.outside y (omega (arith, l, o.write_at));
      },
      omega (arith, l, o.write_at),
    )
