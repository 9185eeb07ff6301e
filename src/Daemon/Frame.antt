-- ===== src/Daemon/Frame.antt =====
-- Packets on the socket between the client and the daemon: src/DaemonCommChannel.cpp, and `recv` of the
-- system with MSG_WAITALL.
use Prim.Native.Char.{code}
use Prim.Native.String.{String}
use ritex.Base.{
  ℕ, ◌+◌, ◌*◌, ◌/◌, ◌%◌, ◌^◌, Bool, ◌&&◌, Option, none, some, List, [], ◌∷◌, ◌++◌, ◌==◌,
  if◌then◌else◌, ltb, leb, length, take, drop, get_or, ◌>>=◌,
}
use ritex.CmdLine.Words.{Word, get_cmd_line}

-- The bytes of a code point below 0x800.
abbrev pub utf8_char : ℕ → List ℕ
utf8_char c = if ltb c 0x80 then c ∷ [] else (0xc0 + c / 64) ∷ (0x80 + c % 64) ∷ []

abbrev pub utf8 : String → List ℕ
utf8 String.[] = []
utf8 (String.◌∷◌ c s) = utf8_char (code c) ++ utf8 s

-- An int in memory, on the little-endian target.
abbrev pub int_bytes : ℕ → List ℕ
int_bytes n = (n % 256) ∷ (n / 2 ^ 8 % 256) ∷ (n / 2 ^ 16 % 256) ∷ (n / 2 ^ 24 % 256) ∷ []

abbrev pub int_of : List ℕ → ℕ
int_of bytes =
    get_or bytes 0 0
    + get_or bytes 1 0 * 2 ^ 8
    + get_or bytes 2 0 * 2 ^ 16
    + get_or bytes 3 0 * 2 ^ 24

-- What `send` of the channel writes: the length in front of the bytes.
unfoldable pub envelope : List ℕ → List ℕ
envelope buffer = int_bytes (length buffer) ++ buffer

-- The packet of a client: its command line with the zero byte at the end.
unfoldable pub line_packet : List Word → List ℕ
line_packet args = envelope (get_cmd_line args ++ (0 ∷ []))

-- The bytes that are still to come, and whether the call behind them fails or tells the end.
pub record Socket : Type 0 where
  pub incoming : List ℕ
  pub fails : Bool

pub data Received : Type 0 where
  got : List ℕ → Socket → Received
  broken : Received

-- `recv` with MSG_WAITALL: fewer bytes than asked for come only in front of the end or of a failure.
unfoldable pub recv : ℕ → Socket → Received
recv n s =
    if leb n (length s.incoming)
    then got (take n s.incoming) (record s { incoming = drop n s.incoming })
    else if s.fails && length s.incoming == 0
    then broken
    else got s.incoming (record s { incoming = [] })

-- The text in front of the first zero byte. `none`: the bytes have no end.
unfoldable pub c_string : List ℕ → Option (List ℕ)
c_string [] = none
c_string (c ∷ s) = if c == 0 then some [] else (do rest ← c_string s; some (c ∷ rest))
