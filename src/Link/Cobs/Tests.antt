-- ===== src/Link/Cobs/Tests.antt =====
-- COBS at concrete buffers: runs of both functions, and the theorems at inputs that meet their
-- hypotheses.
use wirelink.Common.{ℕ, ◌+◌, ◌<◌, ◌≤◌, ◌≡◌, ◌⊎◌, refl, arith, List, [], ◌∷◌, length}
use wirelink.Common.{some, All, get_or, ◌-◌}
use wirelink.Common.Memory.{Mem, Holds, IsWritten, store}
use wirelink.Link.Status.{Status}
use wirelink.Link.Cobs.{encoded_max_size, count_encoded_len, count_loop, encode_byte, encode_loop}
use wirelink.Link.Cobs.{close, encode, scan_loop, copy_loop, write_loop, decode, decode_in_place}
use wirelink.Link.Cobs.Format.{Blocks, IsNonzero, stuffed}
use wirelink.Link.Cobs.Encode
use wirelink.Link.Cobs.Encode.{Encoded, Refused, encode_lem, encode-Blocks}
use wirelink.Link.Cobs.Decode
use wirelink.Link.Cobs.Decode.{Decoded, decode_sound, decode-Blocks, decode_in_place_lem}
use wirelink.Link.Cobs.RoundTrip.{decode_in_place-encode}
use wirelink.Link.Cobs.Overrun.{decode_overruns}

abbrev message : List ℕ
message = 1 ∷ 2 ∷ 0 ∷ 3 ∷ []

abbrev packed : List ℕ
packed = 3 ∷ 1 ∷ 2 ∷ 2 ∷ 3 ∷ []

-- The bytes `xs` at address 16, and zeros elsewhere.
abbrev at_16 : List ℕ → Mem
at_16 xs a = get_or xs (a - 16) 0

encode-message :
    ((encode (at_16 message) 16 4 32 8 1).len ≡ some 5)
    × Holds (encode (at_16 message) 16 4 32 8 1).mem 32 packed
unfolding encode encode_loop encode_byte close count_encoded_len count_loop store
encode-message = (refl, omega arith)

-- Four bytes are written at a capacity of three.
decode-packed :
    ((decode (at_16 packed) 16 5 32 3 1).len ≡ some 4)
    × Holds (decode (at_16 packed) 16 5 32 3 1).mem 32 message
unfolding decode scan_loop write_loop copy_loop store
decode-packed = (refl, omega arith)

decode_cut : (decode_in_place (at_16 (3 ∷ 1 ∷ [])) 16 2 1).status ≡ Status.cobs_decode
unfolding decode_in_place decode scan_loop
decode_cut = refl

message-IsReady : Encode.IsReady (at_16 message) 16 32 1 message
message-IsReady = omega arith

packed-IsReady : Decode.IsReady (at_16 packed) 16 32 1 packed
packed-IsReady = omega arith

packed-IsReady_in_place : Decode.IsReady (at_16 packed) 16 16 1 packed
packed-IsReady_in_place = omega arith

room : encoded_max_size 4 ≤ 8
unfolding encoded_max_size
room = omega arith

accepted : (decode (at_16 packed) 16 5 32 4 1).status ≡ Status.ok
unfolding decode scan_loop write_loop copy_loop
accepted = refl

packed-Blocks : Blocks message packed
packed-Blocks =
    Blocks.zero_after (1 ∷ 2 ∷ []) 3 refl (omega arith) (Blocks.last (3 ∷ []) 2 refl (omega arith))

encode_lem_example :
    let r = encode (at_16 message) 16 4 32 8 1 in
    ((8 < length (stuffed [] message)) × Refused (at_16 message) Status.buf_too_small r)
    ⊎ ((length (stuffed [] message) ≤ 8) × Encoded (at_16 message) 32 message r)
encode_lem_example = encode_lem (at_16 message) 16 32 8 1 message message-IsReady

encode-Blocks_example :
    let r = encode (at_16 message) 16 4 32 8 1 in
    (ys : List ℕ) × Blocks message ys
    × All IsNonzero ys
    × (length ys ≤ encoded_max_size 4)
    × (r.status ≡ Status.ok)
    × (r.len ≡ some (length ys))
    × IsWritten 32 ys (at_16 message) r.mem
encode-Blocks_example = encode-Blocks (at_16 message) 16 32 8 1 message message-IsReady room

decode_sound_example :
    (xs : List ℕ) × Blocks xs packed
    × Decoded (at_16 packed) 32 xs (decode (at_16 packed) 16 5 32 4 1)
decode_sound_example = decode_sound (at_16 packed) 16 32 4 1 packed packed-IsReady accepted

decode-Blocks_example : Decoded (at_16 packed) 32 message (decode (at_16 packed) 16 5 32 4 1)
decode-Blocks_example =
    decode-Blocks (at_16 packed) 16 32 4 1 packed packed-IsReady packed-Blocks (omega arith)

decode_in_place_lem_example :
    let r = decode_in_place (at_16 packed) 16 5 1 in
    ((xs : List ℕ) × Blocks xs packed × (length xs < 5) × Decoded (at_16 packed) 16 xs r)
    ⊎ (((xs : List ℕ) → ¬ Blocks xs packed) × Refused (at_16 packed) Status.cobs_decode r)
decode_in_place_lem_example = decode_in_place_lem (at_16 packed) 16 1 packed packed-IsReady_in_place

decode_in_place-encode_example :
    let e = encode (at_16 message) 16 4 32 8 1 in
    (n : ℕ) × (e.len ≡ some n) × Decoded e.mem 32 message (decode_in_place e.mem 32 n 1)
decode_in_place-encode_example =
    decode_in_place-encode (at_16 message) 16 32 8 1 message message-IsReady (omega arith) room

decode_overruns_example :
    Decoded (at_16 packed) 32 message (decode (at_16 packed) 16 5 32 3 1) × (4 ≡ 3 + 1)
decode_overruns_example =
    decode_overruns (at_16 packed) 16 32 1 (1 ∷ 2 ∷ []) (3 ∷ []) (omega arith) (omega arith)
      packed-IsReady
