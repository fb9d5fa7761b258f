-- ===== src/Link/Frame/Stream.antt =====
-- What the encoders of src/frame.c and src/frame_cobs_crc16.c write into a stream: the COBS
-- encoding of the header, the payload and the CRC.
use wirelink.Common.{ℕ, ◌+◌, ◌≡◌, refl, arith, ap, ◌∙◌, sym}
use wirelink.Common.{List, [], ◌∷◌, ◌++◌, length, length-append}
use wirelink.Common.Memory.{Mem, Holds, Holds_agree, IsWritten}
use wirelink.Link.Cobs.{Encoder, encode_byte, encode_loop, close, start}
use wirelink.Link.Cobs.Format.{stuffed}
use wirelink.Link.Cobs.Writer.{IsOpen, next-IsOpen}
use wirelink.Link.Cobs.Spans.{
  Extended, nothing-Extended, byte-Extended, Leads, next-Leads, encode_loop-Extended,
  Extended-append, close-IsWritten, write_index-IsOpen,
}
use wirelink.Link.Cobs.Encode.{start-IsOpen}
use wirelink.Link.Crc.{crc16_byte, crc16_update}
use wirelink.Link.Frame.Encoder.{
  crc16_bytes, encode_bytes, crc16_encode_bytes, cobs_crc16_encode_span,
}

pub encode_bytes-Extended :
    (out : ℕ) (p q xs ys : List ℕ) (s : Encoder)
    → IsOpen out p q s
    → Extended out p q s (encode_bytes out s xs) xs ys
unfolding encode_bytes
encode_bytes-Extended out p q [] ys s o = nothing-Extended out p q ys s o
encode_bytes-Extended out p q (x ∷ xs) ys s o =
    byte-Extended out p q xs ys x s _ o (λ p' q' o' e. encode_bytes-Extended out p' q' xs ys _ o')

pub crc16_encode_bytes-split :
    (out : ℕ) (xs : List ℕ) (s : Encoder) (crc : ℕ)
    → crc16_encode_bytes out s xs crc ≡ (encode_bytes out s xs, crc16_bytes crc xs)
unfolding crc16_encode_bytes encode_bytes crc16_bytes
crc16_encode_bytes-split out [] s crc = refl
crc16_encode_bytes-split out (x ∷ xs) s crc =
    crc16_encode_bytes-split out xs (encode_byte out s x) (crc16_byte crc x)

-- The CRC is taken of the bytes that were there before the encoder wrote.
pub cobs_crc16_encode_span-split :
    (out a : ℕ) (p q xs ys : List ℕ) (s : Encoder) (crc : ℕ)
    → IsOpen out p q s
    → Holds s.mem a xs
    → Leads out a (length xs) (length ys) (length (p ++ stuffed q (xs ++ ys)))
    → cobs_crc16_encode_span out a (length xs) s crc
      ≡ (encode_loop out a (length xs) s, crc16_bytes crc xs)
unfolding cobs_crc16_encode_span encode_loop crc16_bytes
cobs_crc16_encode_span-split out a p q [] ys s crc o h l = refl
cobs_crc16_encode_span-split out a p q (x ∷ xs) ys s crc o h l =
    let (p', q', o', e) = next-IsOpen out p q x (xs ++ ys) s o in
    let (h', l') = next-Leads out a p q p' q' x xs ys s o o' e l h.1 in
    ap
      (λ v. cobs_crc16_encode_span out (a + 1) (length xs) (encode_byte out s v) (crc16_byte crc v))
      h.0
    ∙ cobs_crc16_encode_span-split out (a + 1) p' q' xs ys _ (crc16_byte crc x) o' h' l'
    ∙ ap
        (λ v. (
          encode_loop out (a + 1) (length xs) (encode_byte out s v),
          crc16_bytes (crc16_byte crc x) xs,
        ))
        (sym h.0)

pub crc16_update-Holds :
    (m : Mem) (a s : ℕ) (xs : List ℕ)
    → Holds m a xs
    → crc16_update s m a (length xs) ≡ crc16_bytes s xs
unfolding crc16_update crc16_bytes
crc16_update-Holds m a s [] h = refl
crc16_update-Holds m a s (x ∷ xs) h =
    ap (λ v. crc16_update (crc16_byte s v) m (a + 1) (length xs)) h.0
    ∙ crc16_update-Holds m (a + 1) (crc16_byte s x) xs h.1

pub crc16_bytes-append :
    (s : ℕ) (xs ys : List ℕ) → crc16_bytes s (xs ++ ys) ≡ crc16_bytes (crc16_bytes s xs) ys
unfolding crc16_bytes
crc16_bytes-append s [] ys = refl
crc16_bytes-append s (x ∷ xs) ys = crc16_bytes-append (crc16_byte s x) xs ys

-- A header, a payload in memory that the encoder does not overtake, and a trailer.
module _ (m : Mem) (out payload : ℕ) (header xs trailer : List ℕ) (held : Holds m payload xs)
    (leads : Leads out payload
      (length xs)
      (length trailer)
      (length (stuffed [] (header ++ (xs ++ trailer))))) where
  abbrev begun : Encoder
  begun = encode_bytes out (start m) header

  abbrev body : Encoder
  body = encode_loop out payload (length xs) begun

  abbrev done : Encoder
  done = encode_bytes out body trailer

  header-Extended : Extended out [] [] (start m) begun header (xs ++ trailer)
  header-Extended =
      encode_bytes-Extended out [] [] header (xs ++ trailer) (start m) (start-IsOpen m out)

  begun-Holds : Holds begun.mem payload xs
  begun-Holds =
      let room = write_index-IsOpen out _ _ (xs ++ trailer) _ header-Extended.is_open in
      Holds_agree m _ payload xs
        (λ y lo hi.
          header-Extended.outside y
            (omega (arith, leads, room, ap length header-Extended.whole, length-append xs trailer)))
        held

  begun-Leads :
      Leads out payload
        (length xs)
        (length trailer)
        (length (header-Extended.blocks ++ stuffed header-Extended.run (xs ++ trailer)))
  begun-Leads = omega (arith, leads, ap length header-Extended.whole)

  body-Extended : Extended out header-Extended.blocks header-Extended.run begun body xs trailer
  body-Extended =
      encode_loop-Extended out payload _ _ xs trailer begun header-Extended.is_open begun-Holds
        begun-Leads

  pub done-IsWritten :
      IsWritten out (stuffed [] (header ++ (xs ++ trailer))) m (close out done)
      × (done.write_index ≡ length (stuffed [] (header ++ (xs ++ trailer))))
  done-IsWritten = close-IsWritten m out (header ++ (xs ++ trailer)) done (
      Extended-append out [] [] (start m) begun done header (xs ++ trailer) header-Extended (
        Extended-append out _ _ begun body done xs trailer body-Extended
          (encode_bytes-Extended out _ _ trailer [] body body-Extended.is_open)))

  -- The fused spans come to the same state, with the CRC of the header and the payload.
  pub crc16_spans :
      let (s, crc) = crc16_encode_bytes out (start m) header 0xffff in
      cobs_crc16_encode_span out payload (length xs) s crc
      ≡ (body, crc16_bytes 0xffff (header ++ xs))
  crc16_spans =
      rw (crc16_encode_bytes-split out header (start m) 0xffff, crc16_bytes-append 0xffff header xs)
        (cobs_crc16_encode_span-split out payload _ _ xs trailer begun _ header-Extended.is_open
          begun-Holds begun-Leads)
