-- ===== src/Link/Crc/Tests.antt =====
-- The check values of both CRCs, and what the theorems of this component say of them.
use wirelink.Common.{◌+◌, ◌≡◌, refl, arith, get_or}
use wirelink.Common.{◌*◌, ◌↔◌, ◌^◌}
use wirelink.Link.Crc.Residue.{residue}
use wirelink.Common.Bits.{bits_xor}
use wirelink.Common.Memory.{Mem, load}
use wirelink.Common.{All}
use wirelink.Link.Cobs.Format.{IsByte}
use wirelink.Link.Crc.Division.{remainder16, remainder32, crc_lem}
use wirelink.Link.Crc.{crc16, crc32, crc16_update, crc32_update, crc16_byte, crc32_byte}
use wirelink.Link.Crc.Tables.{crc16_table, crc32_table}
use wirelink.Link.Crc.Bitwise.{tables_divide, entry16, entry32}

-- "123456789" at address 1.
abbrev digits : Mem
digits k = k + 48

crc16-digits : crc16 digits 1 9 ≡ 0x29b1
unfolding crc16 crc16_update crc16_byte bits_xor
crc16-digits = refl

crc32-digits : crc32 digits 1 9 ≡ 0xe3069283
unfolding crc32 crc32_update crc32_byte bits_xor
crc32-digits = refl

tables_divide_example :
    (get_or crc16_table 200 0 ≡ entry16 200) × (get_or crc32_table 200 0 ≡ entry32 200)
tables_divide_example = tables_divide 200 (omega arith)

residue_example : (crc16_byte (crc16_byte 0x29b1 0x29) 0xb1 ≡ 0) ↔ (0x29 * 2 ^ 8 + 0xb1 ≡ 0x29b1)
residue_example = residue 0x29b1 0x29 0xb1 (omega arith) (omega arith) (omega arith)

digits_are_bytes : All IsByte (load digits 1 9)
digits_are_bytes = ground arith

crc_lem_example :
    (crc16 digits 1 9 ≡ remainder16 0xffff (load digits 1 9))
    × (crc32 digits 1 9 ≡ bits_xor 32 (remainder32 0xffffffff (load digits 1 9)) 0xffffffff)
    × (crc16_update 7 digits 1 9 ≡ remainder16 7 (load digits 1 9))
    × (crc32_update 8 digits 1 9 ≡ remainder32 8 (load digits 1 9))
crc_lem_example = crc_lem digits 1 9 7 8 (ground arith) (omega arith) (omega arith) digits_are_bytes
