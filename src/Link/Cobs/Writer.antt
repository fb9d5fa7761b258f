-- ===== src/Link/Cobs/Writer.antt =====
-- What the loop of `wl_cobs_encode` writes: the list `Format.stuffed`, and nothing beside it.
use wirelink.Common.{ℕ, suc, ap, ◌+◌, ◌<◌, ◌≤◌, ◌≡◌, refl, arith, List, [], ◌∷◌, ◌++◌, length, ◌≢◌}
use wirelink.Common.{length-append, append_assoc, ◌==◌, Bool-cases, inl, inr, ◌∙◌, u8, true, false}
use wirelink.Common.Memory.{store, store_self, store_ne, Holds, Outside}
use wirelink.Common.Memory.{Holds-store, Holds-append, Holds_agree, IsWritten, IsDisjoint}
use wirelink.Link.Cobs.{Encoder, encode_byte, encode_loop, close}
use wirelink.Link.Cobs.Format.{stuffed, length-snoc, length-stuffed_lower}

-- The encoder has written the blocks `p`, and the bytes `q` behind a place for their code.
pub record IsOpen (out : ℕ) (p q : List ℕ) (s : Encoder) : Type 0 where
  pub blocks : Holds s.mem out p
  pub run : Holds s.mem (out + length p + 1) q
  pub code_at : s.code_index ≡ length p
  pub write_at : s.write_index ≡ length p + 1 + length q
  pub code_is : s.code ≡ length q + 1
  pub short : length q < 254

module _ (out : ℕ) (p q : List ℕ) (s : Encoder) (o : IsOpen out p q s) where
  -- Storing the code of the open block completes it.
  pub close-Holds : Holds (close out s) out (p ++ ((length q + 1) ∷ q))
  unfolding close
  close-Holds =
      Holds-append _ out (out + length p) p _ refl
        (Holds-store s.mem out _ s.code p (omega arith) o.blocks)
        (
          rw (o.code_at) (store_self s.mem (out + length p) s.code) ∙ o.code_is,
          Holds-store s.mem (out + length p + 1) _ s.code q (omega arith) o.run,
        )

  pub close-Outside : (x : ℕ) → Outside out (length p + (length q + 1)) x → close out s x ≡ s.mem x
  unfolding close
  close-Outside x h = store_ne s.mem _ s.code x (omega (arith, o.code_at))

  encode_byte-zero :
      (v : ℕ) → v ≡ 0 → IsOpen out (p ++ ((length q + 1) ∷ q)) [] (encode_byte out s v)
  unfolding encode_byte close
  encode_byte-zero v e =
      let zero_byte : (v == 0) ≡ true = ground arith in
      rw zero_byte (record {
        blocks = close-Holds;
        run = tt;
        code_at = omega (arith, o.write_at, length-append p ((length q + 1) ∷ q));
        write_at = omega (arith, o.write_at, length-append p ((length q + 1) ∷ q));
        code_is = refl;
        short = omega arith;
      })

  encode_byte-data :
      (v : ℕ) → v ≢ 0 → length q ≢ 253 → IsOpen out p (q ++ (v ∷ [])) (encode_byte out s v)
  unfolding encode_byte
  encode_byte-data v e h =
      let data_byte : (v == 0) ≡ false = ground arith in
      let room : (u8 (s.code + 1) == 0xff) ≡ false = ground (arith, o.code_is, o.short) in
      let len = length-snoc q v in
      rw (data_byte, room)
        (record {
          blocks = Holds-store s.mem out _ v p (omega (arith, o.write_at)) o.blocks;
          run =
              Holds-append _ (out + length p + 1) (out + s.write_index) q (v ∷ [])
                (omega (arith, o.write_at))
                (Holds-store s.mem _ _ v q (omega (arith, o.write_at)) o.run)
                (store_self s.mem _ v, tt);
          code_at = o.code_at;
          write_at = omega (arith, o.write_at, len);
          code_is = omega (arith, o.code_is, o.short, len);
          short = omega (arith, o.short, len);
        })

  encode_byte-full :
      (v : ℕ)
      → v ≢ 0
      → length q ≡ 253
      → IsOpen out (p ++ (0xff ∷ (q ++ (v ∷ [])))) [] (encode_byte out s v)
  unfolding encode_byte
  encode_byte-full v e h =
      let data_byte : (v == 0) ≡ false = ground arith in
      let code : u8 (s.code + 1) ≡ 0xff = omega (arith, o.code_is) in
      let len = length-snoc q v in
      let len_p = length-append p (0xff ∷ (q ++ (v ∷ []))) in
      rw (data_byte, code)
        (record {
          blocks =
              Holds-append _ out (out + s.code_index) p _ (omega (arith, o.code_at))
                (Holds-store _ out _ _ p (omega (arith, o.code_at))
                  (Holds-store s.mem out _ v p (omega (arith, o.write_at)) o.blocks))
                (
                  store_self _ (out + s.code_index) 0xff,
                  Holds-append _ (out + s.code_index + 1) (out + s.write_index) q (v ∷ [])
                      (omega (arith, o.code_at, o.write_at))
                      (rw o.code_at (
                        Holds-store _ _ _ _ q (omega (arith, o.code_at))
                          (Holds-store s.mem _ _ v q (omega (arith, o.write_at)) o.run)))
                      (
                        store_ne _ (out + s.code_index) 0xff (out + s.write_index)
                              (omega (arith, o.code_at, o.write_at))
                            ∙ store_self s.mem _ v,
                        tt,
                      ),
                );
          run = tt;
          code_at = omega (arith, o.write_at, len, len_p);
          write_at = omega (arith, o.write_at, len, len_p);
          code_is = refl;
          short = omega arith;
        })

  -- A byte changes nothing outside what is written or reserved after it.
  pub encode_byte-Outside :
      (v x : ℕ)
      → Outside out (encode_byte out s v).write_index x
      → (encode_byte out s v).mem x ≡ s.mem x
  unfolding encode_byte
  encode_byte-Outside v x h = ground (
    arith,
    o.code_at,
    o.write_at,
    store_ne s.mem (out + s.code_index) s.code x,
    store_ne s.mem (out + s.write_index) v x,
    store_ne (store s.mem (out + s.write_index) v) (out + s.code_index) (u8 (s.code + 1)) x,
  )

-- The result of the loop, from the state `s` at the address `a`.
abbrev LoopWrites : ℕ → ℕ → ℕ → Encoder → List ℕ → Type 0
LoopWrites out a n s ys =
    IsWritten out ys s.mem (close out (encode_loop out a n s))
    × ((encode_loop out a n s).write_index ≡ length ys)

module _ (out : ℕ) (p q : List ℕ) (x : ℕ) (xs : List ℕ) (s : Encoder) (o : IsOpen out p q s) where
  abbrev next : Encoder
  next = encode_byte out s x

  -- After a byte the encoder is open again, with the same list to be written.
  pub next-IsOpen :
      (p' : List ℕ) × (q' : List ℕ) × IsOpen out p' q' next
      × (p' ++ stuffed q' xs ≡ p ++ stuffed q (x ∷ xs))
  unfolding stuffed
  next-IsOpen = elim (Bool-cases (x == 0)) [
    | inl z ↦ (
      p ++ ((length q + 1) ∷ q),
      [],
      encode_byte-zero out p q s o x (ground arith),
      rw z (append_assoc p _ _),
    )
    | inr nz ↦ elim (Bool-cases (length q == 253)) [
      | inl f ↦ (
        p ++ (0xff ∷ (q ++ (x ∷ []))),
        [],
        encode_byte-full out p q s o x (ground arith) (ground arith),
        rw (nz, f) (append_assoc p _ _),
      )
      | inr g ↦ (
        p,
        q ++ (x ∷ []),
        encode_byte-data out p q s o x (ground arith) (ground arith),
        rw (nz, g),
      )
    ]
  ]

module _ (out a : ℕ) (p q : List ℕ) (x : ℕ) (xs : List ℕ) (s : Encoder) (o : IsOpen out p q s)
    (input : Holds s.mem a (x ∷ xs)) where
  encode_loop-suc :
      (n : ℕ) → encode_loop out a (suc n) s ≡ encode_loop out (a + 1) n (encode_byte out s x)
  unfolding encode_loop
  encode_loop-suc n = ap (λ v. encode_loop out (a + 1) n (encode_byte out s v)) input.0

  -- One round, from what it leaves to do.
  loop_round :
      (p' q' : List ℕ)
      → IsOpen out p' q' (next out p q x xs s o)
      → p' ++ stuffed q' xs ≡ p ++ stuffed q (x ∷ xs)
      → IsDisjoint a (suc (length xs)) out (length (p ++ stuffed q (x ∷ xs)))
      → (Holds (next out p q x xs s o).mem (a + 1) xs
          → LoopWrites out (a + 1) (length xs) (next out p q x xs s o) (p' ++ stuffed q' xs))
      → LoopWrites out a (suc (length xs)) s (p ++ stuffed q (x ∷ xs))
  loop_round p' q' o' e d ih =
      rw (encode_loop-suc, ← e)
        (
          record {
            bytes = rest.0.bytes;
            outside = λ y h. rest.0.outside y h ∙ same y (omega (arith, len, o'.write_at, low));
          },
          rest.1,
        )
    where
      len : length (p' ++ stuffed q' xs) ≡ length p' + length (stuffed q' xs)
      len = length-append p' (stuffed q' xs)

      low : length q' + length xs + 1 ≤ length (stuffed q' xs)
      low = length-stuffed_lower q' xs

      same :
          (y : ℕ)
          → Outside out (next out p q x xs s o).write_index y
          → (next out p q x xs s o).mem y ≡ s.mem y
      same = encode_byte-Outside out p q s o x

      rest : LoopWrites out (a + 1) (length xs) (next out p q x xs s o) (p' ++ stuffed q' xs)
      rest = ih (
          Holds_agree s.mem (next out p q x xs s o).mem (a + 1) xs
            (λ y lo hi. same y (omega (arith, o'.write_at, low, len, ap length e))) input.1)

loop_end :
    (out a : ℕ) (p q : List ℕ) (s : Encoder)
    → IsOpen out p q s
    → LoopWrites out a 0 s (p ++ stuffed q [])
unfolding encode_loop stuffed
loop_end out a p q s o = (
  record {
    bytes = close-Holds out p q s o;
    outside = λ y k. close-Outside out p q s o y (omega (arith, len));
  },
  omega (arith, o.write_at, len),
)
  where
    len : length (p ++ ((length q + 1) ∷ q)) ≡ length p + (length q + 1)
    len = omega (arith, length-append p ((length q + 1) ∷ q))

-- The loop writes the encoding behind the blocks that were there, wherever the input lies outside
-- what is written.
pub encode_loop-IsWritten :
    (out a : ℕ) (p q xs : List ℕ) (s : Encoder)
    → IsOpen out p q s
    → Holds s.mem a xs
    → IsDisjoint a (length xs) out (length (p ++ stuffed q xs))
    → LoopWrites out a (length xs) s (p ++ stuffed q xs)
encode_loop-IsWritten out a p q [] s o h d = loop_end out a p q s o
encode_loop-IsWritten out a p q (x ∷ xs) s o h d =
    let (p', q', o', e) = next-IsOpen out p q x xs s o in
    loop_round out a p q x xs s o h p' q' o' e d
      (λ k. encode_loop-IsWritten out (a + 1) p' q' xs _ o' k (omega (arith, ap length e)))
