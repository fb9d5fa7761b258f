-- ===== src/Link/Cobs.antt =====
-- src/cobs.c: consistent overhead byte stuffing. Buffers are addresses into one memory, so an
-- input and an output may overlap, and 0 is the null pointer; `*output_len` is a cell of its own.
-- An index into a buffer stays below its length, so an index is counted without a wrap; lengths
-- that are computed from the data wrap as `size_t`.
pub mod Format
pub mod Writer
pub mod Checker
pub mod Reader
pub mod Spans
pub mod Encode
pub mod Decode
pub mod RoundTrip
pub mod Overrun
mod Tests
use wirelink.Common.{ℕ, zero, suc, ◌+◌, ◌-◌, ◌/◌, not, ◌&&◌}
use wirelink.Common.{Option, none, some, ltb, leb, ◌==◌, if◌then◌else◌, u8, size, size_max}
use wirelink.Common.Memory.{Mem, store}
use wirelink.Link.Status.{Status}

-- What a call returns, the memory that it leaves and what it wrote to `*output_len`, if anything.
pub record Result : Type 0 where
  pub status : Status
  pub mem : Mem
  pub len : Option ℕ

unfoldable pub encoded_max_size : ℕ → ℕ
encoded_max_size n =
    if n == 0 then 1 else if ltb (size_max - n / 254 - 1) n then size_max else n + n / 254 + 1

-- `wl_cobs_count_encoded_len`, its loop with `n` rounds left at address `a`; `none` is the
-- INVALID_ARG of a count that reaches SIZE_MAX.
pub count_loop : Mem → ℕ → ℕ → ℕ → ℕ → Option ℕ
count_loop m a zero len code = some len
count_loop m a (suc n) len code =
    let zero_byte = count_loop m (a + 1) n (size (len + 1)) 1 in
    let full = size (size (len + 1) + 1) in
    let full_block = if full == size_max then none else count_loop m (a + 1) n full 1 in
    let len' = size (len + 1) in
    let code' = u8 (code + 1) in
    let data_byte = if len' == size_max then none else count_loop m (a + 1) n len' code' in
    if m a == 0 then zero_byte else if code' == 0xff then full_block else data_byte

-- The `NULL` test of its `out_len` cannot fire: both callers pass the address of a local.
pub count_encoded_len : Mem → ℕ → ℕ → Option ℕ
count_encoded_len m input n =
    if input == 0 && ltb 0 n then none else if n == 0 then some 1 else count_loop m input n 1 1

-- The locals of `wl_cobs_encode` with the memory.
pub record Encoder : Type 0 where
  pub mem : Mem
  pub write_index : ℕ
  pub code_index : ℕ
  pub code : ℕ

-- One round of the loop of `wl_cobs_encode` on the byte `v`, into the buffer at `out`.
unfoldable pub encode_byte : ℕ → Encoder → ℕ → Encoder
encode_byte out s v =
    let stored = store s.mem (out + s.write_index) v in
    let code' = u8 (s.code + 1) in
    if v == 0
    then record {
      mem = store s.mem (out + s.code_index) s.code;
      write_index = s.write_index + 1;
      code_index = s.write_index;
      code = 1;
    }
    else if code' == 0xff
    then record {
      mem = store stored (out + s.code_index) code';
      write_index = s.write_index + 2;
      code_index = s.write_index + 1;
      code = 1;
    }
    else record s { mem = stored; write_index = s.write_index + 1; code = code' }

-- The loop with `n` rounds left, the next byte at address `a`.
unfoldable pub encode_loop : ℕ → ℕ → ℕ → Encoder → Encoder
encode_loop out a zero s = s
encode_loop out a (suc n) s = encode_loop out (a + 1) n (encode_byte out s (s.mem a))

-- `output[code_index] = code`
pub close : ℕ → Encoder → Mem
close out s = store s.mem (out + s.code_index) s.code

abbrev pub start : Mem → Encoder
start m = record { mem = m; write_index = 1; code_index = 0; code = 1 }

pub encode : Mem → ℕ → ℕ → ℕ → ℕ → ℕ → Result
encode m input n out cap len_ptr =
    if len_ptr == 0
    then record { status = Status.invalid_arg; mem = m; len = none }
    else elim (count_encoded_len m input n) [
      | none ↦ record { status = Status.invalid_arg; mem = m; len = some 0 }
      | some required ↦
          if ltb cap required
          then record { status = Status.buf_too_small; mem = m; len = some 0 }
          else if out == 0 && ltb 0 required
          then record { status = Status.invalid_arg; mem = m; len = some 0 }
          else if n == 0
          then record { status = Status.ok; mem = store m out 1; len = some 1 }
          else let s = encode_loop out input n (start m) in
            record { status = Status.ok; mem = close out s; len = some s.write_index }
    ]

-- What the first pass of `wl_cobs_decode` finds: a malformed code, a length that wrapped to 0, or
-- the number of bytes that it takes to be required.
pub data Scan : Type 0 where
  malformed wrapped : Scan
  required : ℕ → Scan

-- The first pass at `in_pos`, with `req` bytes required so far. Each round reads one byte at
-- least, so `n` rounds of fuel are enough (`scan_loop` never stops by its fuel at `in_pos < n`).
pub scan_loop : ℕ → Mem → ℕ → ℕ → ℕ → ℕ → Scan
scan_loop zero m input n in_pos req = required req
scan_loop (suc fuel) m input n in_pos req =
    let code = m (input + in_pos) in
    let after = in_pos + 1 + (code - 1) in
    let req' = size (req + (code - 1)) in
    let implicit = ltb (size (after + (code - 1))) n && not (code == 0xff) in
    let with_zero =
      if size (req' + 1) == 0 then wrapped else scan_loop fuel m input n after (size (req' + 1)) in
    let without = scan_loop fuel m input n after req' in
    if leb n in_pos
    then required req
    else if code == 0
    then malformed
    else if ltb n (size after)
    then malformed
    else if req' == 0 && not (code == 1)
    then wrapped
    else if implicit
    then with_zero
    else without

-- The inner loop of the second pass, with `k` rounds left.
unfoldable pub copy_loop : ℕ → Mem → ℕ → ℕ → Mem
copy_loop zero m from to = m
copy_loop (suc k) m from to = copy_loop k (store m to (m from)) (from + 1) (to + 1)

-- The second pass, from `in_pos` with `done` bytes written.
unfoldable pub write_loop : ℕ → Mem → ℕ → ℕ → ℕ → ℕ → ℕ → Mem × ℕ
write_loop zero m input n out in_pos done = (m, done)
write_loop (suc fuel) m input n out in_pos done =
    let code = m (input + in_pos) in
    let m' = copy_loop (code - 1) m (input + in_pos + 1) (out + done) in
    let in' = in_pos + 1 + (code - 1) in
    let done' = done + (code - 1) in
    let with_zero = write_loop fuel (store m' (out + done') 0) input n out in' (done' + 1) in
    let without = write_loop fuel m' input n out in' done' in
    if leb n in_pos
    then (m, done)
    else if ltb in' n && not (code == 0xff)
    then with_zero
    else without

unfoldable pub decode : Mem → ℕ → ℕ → ℕ → ℕ → ℕ → Result
decode m input n out cap len_ptr =
    if len_ptr == 0
    then record { status = Status.invalid_arg; mem = m; len = none }
    else if input == 0 && ltb 0 n
    then record { status = Status.invalid_arg; mem = m; len = some 0 }
    else if n == 0
    then record { status = Status.cobs_decode; mem = m; len = some 0 }
    else elim (scan_loop n m input n 0 0) [
      | malformed ↦ record { status = Status.cobs_decode; mem = m; len = some 0 }
      | wrapped ↦ record { status = Status.invalid_arg; mem = m; len = some 0 }
      | required r ↦
          if ltb cap r
          then record { status = Status.buf_too_small; mem = m; len = some 0 }
          else if out == 0 && ltb 0 r
          then record { status = Status.invalid_arg; mem = m; len = some 0 }
          else let (m', done) = write_loop n m input n out 0 0 in
            record { status = Status.ok; mem = m'; len = some done }
    ]

unfoldable pub decode_in_place : Mem → ℕ → ℕ → ℕ → Result
decode_in_place m buffer n len_ptr = decode m buffer n buffer n len_ptr
