-- ===== src/Crc.antt =====
-- The check sum of a frame: `Crc16` of src/Utils.cpp, on one byte and on a buffer.
pub mod Laws
pub mod Examples
use ritex.Base.{ℕ, zero, suc, ◌*◌, ◌/◌, ◌%◌, ◌^◌, bit_xor, List, [], ◌∷◌, ◌==◌, if◌then◌else◌}

-- One round of the loop over the bits, on an unsigned short.
unfoldable pub crc_round : ℕ → ℕ
crc_round crc =
    if crc / 2 ^ 15 % 2 == 1 then bit_xor (crc * 2) 0x8005 % 0x10000 else crc * 2 % 0x10000

unfoldable pub crc_rounds : ℕ → ℕ → ℕ
crc_rounds zero crc = crc
crc_rounds (suc i) crc = crc_rounds i (crc_round crc)

unfoldable pub crc16_byte : ℕ → ℕ → ℕ
crc16_byte crc byte = crc_rounds 8 (bit_xor crc (byte * 2 ^ 8))

unfoldable pub crc16 : ℕ → List ℕ → ℕ
crc16 crc [] = crc
crc16 crc (byte ∷ buffer) = crc16 (crc16_byte crc byte) buffer
