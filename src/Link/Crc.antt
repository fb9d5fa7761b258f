-- ===== src/Link/Crc.antt =====
-- src/crc.c and src/crc_internal.h: CRC-16/CCITT-FALSE and CRC-32C, by tables of 256 entries.
-- Buffers are addresses into a memory of bytes, 0 being NULL.
pub mod Tables
pub mod Bitwise
pub mod Residue
pub mod Linear
pub mod Division
mod Tests
use wirelink.Common.{
  ℕ, zero, suc, ◌+◌, ◌*◌, ◌/◌, ◌%◌, ◌^◌, ◌&&◌, not, ltb, ◌==◌, if◌then◌else◌, u8, u16,
}
use wirelink.Common.{get_or}
use wirelink.Common.Bits.{bits_xor}
use wirelink.Common.Memory.{Mem}
use wirelink.Link.Crc.Tables.{crc16_table, crc32_table}

-- `wl_crc16_byte`
unfoldable pub crc16_byte : ℕ → ℕ → ℕ
crc16_byte state value =
    bits_xor 16 (u16 (state * 256)) (get_or crc16_table (u8 (bits_xor 16 (state / 256) value)) 0)

-- `wl_crc16_ccitt_false_update`
unfoldable pub crc16_update : ℕ → Mem → ℕ → ℕ → ℕ
crc16_update state m a zero = state
crc16_update state m a (suc n) = crc16_update (crc16_byte state (m a)) m (a + 1) n

-- One round of `wl_crc32c_update`
pub crc32_byte : ℕ → ℕ → ℕ
crc32_byte state value =
    bits_xor 32 (get_or crc32_table (u8 (bits_xor 32 state value)) 0) (state / 256)

-- `wl_crc32c_update`
unfoldable pub crc32_update : ℕ → Mem → ℕ → ℕ → ℕ
crc32_update state m a zero = state
crc32_update state m a (suc n) = crc32_update (crc32_byte state (m a)) m (a + 1) n

-- `wl_crc16_ccitt_false`
unfoldable pub crc16 : Mem → ℕ → ℕ → ℕ
crc16 m a n = if a == 0 && not (n == 0) then 0 else crc16_update 0xffff m a n

-- `wl_crc32c`
unfoldable pub crc32 : Mem → ℕ → ℕ → ℕ
crc32 m a n =
    if a == 0 && not (n == 0) then 0 else bits_xor 32 (crc32_update 0xffffffff m a n) 0xffffffff
