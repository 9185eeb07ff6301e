-- ===== src/Port/Frame.antt =====
-- What a telegram on the line says, as a function of the bytes alone: the abstract view that
-- `ReadPacket` of src/ComTrafficProcessor.cpp implements.
use ritex.Base.{
  ℕ, ◌-◌, ◌%◌, ◌^◌, Option, none, some, List, [], ◌∷◌, ◌++◌, ◌==◌, if◌then◌else◌, length, take,
  drop, get_or, ltb,
}
use ritex.Protocol.{PacketType, is_length_matches, ksu_address}
use ritex.Packet.{swap16, load16}
use ritex.Port.{Error, bad_crc, bad_packet, long_cmd}
use ritex.Crc.{crc16}

-- `cut` is a stream that ends inside what is read.
pub data Parsed {ℓ} (A : Type ℓ) : Type ℓ where
  got : A → List ℕ → Parsed A
  failed : Error → List ℕ → Parsed A
  cut : Parsed A

abbrev pub Parser {ℓ} : Type ℓ → Type ℓ
Parser A = List ℕ → Parsed A

infixl 5 ◌>>=◌ ◌>>◌
abbrev pub ◌>>=◌ {ℓ κ} : {A : Type ℓ} {B : Type κ} → Parser A → (A → Parser B) → Parser B
◌>>=◌ m f s = elim (m s) [ got a rest ↦ f a rest | failed e rest ↦ failed e rest | cut ↦ cut ]

abbrev pub ◌>>◌ {ℓ} : {B : Type ℓ} → Parser (Unit {0}) → Parser B → Parser B
m >> k = m >>= λ _. k

abbrev pub pure {ℓ} : {A : Type ℓ} → A → Parser A
pure a s = got a s

abbrev pub fail {ℓ} : {A : Type ℓ} → Error → Parser A
fail e s = failed e s

-- The next n bytes.
unfoldable pub next : ℕ → Parser (List ℕ)
next n s = if ltb (length s) n then cut else got (take n s) (drop n s)

unfoldable pub next_bytes : ℕ → Parser (List ℕ)
next_bytes n = if n == 0 then pure [] else next n

-- Everything up to the first address is dropped.
unfoldable pub after_address : Parser (Unit {0})
after_address [] = cut
after_address (b ∷ s) = let rest = after_address s in if b == ksu_address then got tt s else rest

-- A telegram: its type, its command with the mode, and its data.
pub record Telegram : Type 0 where
  pub type : PacketType
  pub cmd : ℕ
  pub bytes : List ℕ

unfoldable pub decode_rest : PacketType → ℕ → ℕ → ℕ → Parser Telegram
decode_rest type cmd len crc = do
  bytes ← next_bytes (len - 1)
  sum ← next 2
  if swap16 (load16 (get_or sum 0 0) (get_or sum 1 0)) == crc16 crc bytes
      then pure (record { type = type; cmd = cmd; bytes = bytes })
      else fail bad_crc

unfoldable pub decode_checked : Option PacketType → ℕ → ℕ → ℕ → Parser Telegram
decode_checked none cmd len crc = fail bad_packet
decode_checked (some type) cmd len crc = decode_rest type cmd len crc

unfoldable pub decode : ℕ → Parser Telegram
decode mode = do
  after_address
  length_bytes ← next 2
  let len = swap16 (load16 (get_or length_bytes 0 0) (get_or length_bytes 1 0))
  cmd_bytes ← next 1
  let cmd = get_or cmd_bytes 0 0
  let crc = crc16 0 (ksu_address ∷ length_bytes ++ cmd_bytes)
  decode_checked (is_length_matches (long_cmd mode cmd % 2 ^ 8) len) (long_cmd mode cmd) len crc
