-- ===== src/Link/Cobs/RoundTrip.antt =====
-- Decoding in place what `wl_cobs_encode` wrote.
use wirelink.Common.{ℕ, ◌≤◌, ◌≡◌, inl, arith, List, [], length, some, All}
use wirelink.Common.Memory.{Mem}
use wirelink.Link.Cobs.{encoded_max_size, encode, decode_in_place}
use wirelink.Link.Cobs.Format.{
  stuffed, stuffed-Blocks, stuffed-IsByte, IsByte, length-stuffed_upper,
}
use wirelink.Link.Cobs.Format.{length-stuffed_lower}
use wirelink.Link.Cobs.Encode
use wirelink.Link.Cobs.Encode.{Encoded, encode_large, length-stuffed-le-encoded_max_size}
use wirelink.Link.Cobs.Decode.{Decoded, decode-Blocks}

-- A buffer of the size that `wl_cobs_encoded_max_size` gives takes the encoding of any bytes, less
-- than 2^62 of them, that it does not overlap, and decoding it in place, over the length that was
-- reported, gives the bytes back at its front.
pub decode_in_place-encode :
    (m : Mem) (input out cap len_ptr : ℕ) (xs : List ℕ)
    → Encode.IsReady m input out len_ptr xs
    → All IsByte xs
    → encoded_max_size (length xs) ≤ cap
    → let e = encode m input (length xs) out cap len_ptr in
      (n : ℕ) × (e.len ≡ some n) × Decoded e.mem out xs (decode_in_place e.mem out n len_ptr)
unfolding decode_in_place
decode_in_place-encode m input out cap len_ptr xs r bytes room =
    let upper = length-stuffed_upper [] xs in
    let written =
      encode_large m input out cap len_ptr xs r
        (omega (arith, length-stuffed-le-encoded_max_size xs r.small)) in
    (
      length (stuffed [] xs),
      written.1,
      decode-Blocks _ out out (length (stuffed [] xs)) len_ptr (stuffed [] xs)
          (record {
            held = written.2.bytes;
            bytes = stuffed-IsByte [] xs (omega arith) tt bytes;
            given = (r.given.1, r.given.1, r.given.2);
            some_bytes = omega (arith, length-stuffed_lower [] xs);
            small = omega (arith, upper, r.small);
            apart = inl (omega arith);
          })
          (stuffed-Blocks [] xs (omega arith)) (omega (arith, length-stuffed_lower [] xs)),
    )
