-- ===== src/Crc/Examples.antt =====
-- The check sum on concrete bytes.
use ritex.Base.{◌≢◌, [], ◌∷◌, arith}
use ritex.Crc.{crc16}
use ritex.Crc.Laws.{crc16_detects_byte}

crc16_detects_byte_example :
    crc16 0 (0x36 ∷ 0x00 ∷ 0x02 ∷ 0x0b ∷ 0x00 ∷ [])
    ≢ crc16 0 (0x36 ∷ 0x00 ∷ 0x03 ∷ 0x0b ∷ 0x00 ∷ [])
crc16_detects_byte_example =
    crc16_detects_byte 0 0x02 0x03 (0x36 ∷ 0x00 ∷ []) (0x0b ∷ 0x00 ∷ []) (omega arith)
      (omega arith, (omega arith, (omega arith, (omega arith, (omega arith, tt))))) (omega arith)
      (omega arith)
