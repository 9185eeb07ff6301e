-- ===== src/Packet.antt =====
-- src/DataPacket.h and src/DataPacket.cpp, with `swap16`, `MSB` and `LSB` of src/Utils.h on the
-- little-endian target. A shift to the right is a division, a mask of low bits a remainder.
use ritex.Base.{ℕ, ◌+◌, ◌*◌, ◌/◌, ◌%◌, ◌^◌, bit_or, List, [], ◌∷◌, ◌++◌, length}
use ritex.Protocol.{PacketType, get_cmd}
use ritex.Crc.{crc16}

abbrev pub msb : ℕ → ℕ
msb x = x / 2 ^ 8 % 0x100

abbrev pub lsb : ℕ → ℕ
lsb x = x % 0x100

-- `(x << 8) | (x >> 8)` on an unsigned short: the two parts have no bit in common.
abbrev pub swap16 : ℕ → ℕ
swap16 x = x % 0x100 * 2 ^ 8 + x / 2 ^ 8

-- An unsigned short that `Read` or `memcpy` fills with the bytes `b0`, `b1` of the memory.
abbrev pub load16 : ℕ → ℕ → ℕ
load16 b0 b1 = b0 + b1 * 2 ^ 8

-- `m_pData` with `m_size` bytes is the list `bytes`; a null pointer is the empty list.
pub record DataPacket : Type 0 where
  pub address : ℕ
  pub cmd : ℕ
  pub type : PacketType
  pub timestamp : ℕ
  pub bytes : List ℕ

abbrev pub size : DataPacket → ℕ
size p = length p.bytes

-- The constructor of the class: no data yet.
abbrev pub new_packet : PacketType → ℕ → ℕ → ℕ → DataPacket
new_packet type address cmd timestamp = record {
  address = address;
  cmd = cmd;
  type = type;
  timestamp = timestamp;
  bytes = [];
}

-- `Allocate` and the writes through the pointer that it returns.
abbrev pub fill : DataPacket → List ℕ → DataPacket
fill p bytes = record p { bytes = bytes }

-- `SetCmdMode`: the mode is or-ed into the upper byte.
unfoldable pub set_cmd_mode : DataPacket → ℕ → DataPacket
set_cmd_mode p mode = record p { cmd = bit_or p.cmd (mode % 0x100 * 2 ^ 8) }

-- Everything in front of the check sum.
abbrev pub raw_body : DataPacket → List ℕ
raw_body p = p.address ∷ msb (size p + 1) ∷ lsb (size p + 1) ∷ get_cmd p.cmd ∷ p.bytes

-- `CreateRawPacket`: address, length, command, data and check sum, high bytes first.
unfoldable pub create_raw_packet : DataPacket → List ℕ
create_raw_packet p = let crc = crc16 0 (raw_body p) in raw_body p ++ (msb crc ∷ lsb crc ∷ [])
