-- ===== src/Port.antt =====
-- The serial line: `Read`, `ReadPacket`, `WaitForKsuActivity` and `WritePacket` of
-- src/ComTrafficProcessor.cpp. The kernel's side of the line is a parameter: the bytes that the
-- driver holds, and what the calls of `select` will meet. `read` returns as many held bytes as
-- asked for, and fails with EWOULDBLOCK when none is held.
pub mod Stream
pub mod Frame
pub mod Agrees
pub mod Refines
pub mod Telegram
pub mod RoundTrip
pub mod Echo
pub mod Ends
pub mod Returns
pub mod Examples
use ritex.Base.{
  ℕ, zero, suc, ◌+◌, ◌-◌, ◌*◌, ◌/◌, ◌%◌, ◌^◌, Bool, true, false, Option, none, some, List, [], ◌∷◌,
  ◌++◌, ◌==◌, if◌then◌else◌, length, take, drop, get_or,
}
use ritex.Protocol.{PacketType, is_length_matches, ksu_address}
use ritex.Protocol.Ack
use ritex.Packet.{DataPacket, new_packet, fill, create_raw_packet, swap16, load16}
use ritex.Crc.{crc16, crc16_byte}

-- `ERROR_READ_...` and `ERROR_OOM`; `ERROR_READ_NO_ERROR` is a result without error.
pub data Error : Type 0 where
  bad_crc timeout bad_packet other oom unexpected_packet : Error

-- What a call of `select` meets: bytes after some seconds, the end of its timeout, or a failure
-- (of `select` itself, on the descriptor, or of the `read` that follows).
pub data Event : Type 0 where
  arrives : ℕ → List ℕ → Event
  times_out : ℕ → Event
  fails : Event

-- When no event is left, nothing ever arrives.
pub record Port : Type 0 where
  pub held : List ℕ
  pub events : List Event
  pub echo_cancel_fifo : List ℕ
  pub written : List ℕ
  pub clock : ℕ

-- `stuck` is no result of the program: a loop of the model ran out of fuel.
pub data Outcome {ℓ} (A : Type ℓ) : Type ℓ where
  ok : A → Port → Outcome A
  err : Error → Port → Outcome A
  stuck : Outcome A

abbrev pub PortM {ℓ} : Type ℓ → Type ℓ
PortM A = Port → Outcome A

infixl 5 ◌>>=◌
abbrev pub ◌>>=◌ {ℓ κ} : {A : Type ℓ} {B : Type κ} → PortM A → (A → PortM B) → PortM B
◌>>=◌ m f p = elim (m p) [ ok a q ↦ f a q | err e q ↦ err e q | stuck ↦ stuck ]

infixl 5 ◌>>◌
abbrev pub ◌>>◌ {ℓ} : {B : Type ℓ} → PortM (Unit {0}) → PortM B → PortM B
m >> k = m >>= λ _. k

abbrev pub return {ℓ} : {A : Type ℓ} → A → PortM A
return a p = ok a p

abbrev pub throw {ℓ} : {A : Type ℓ} → Error → PortM A
throw e p = err e p

-- The loop over the `ret` bytes that came last: each byte that is waiting for its echo is compared
-- with the last byte of the buffer, which is taken off. `none` is a mismatch.
unfoldable pub cancel_echo : ℕ → List ℕ → ℕ → List ℕ → Option (List ℕ × ℕ)
cancel_echo zero fifo total buffer = some (fifo, total)
cancel_echo (suc i) [] total buffer = some ([], total)
cancel_echo (suc i) (echo ∷ fifo) total buffer =
    let rest = cancel_echo i fifo (total - 1) buffer in
    if echo == get_or buffer (total - 1) 0 then rest else none

-- What a failed comparison does: the queue and the line are flushed.
abbrev pub flush : Port → Port
flush p = record p { held = []; echo_cancel_fifo = [] }

-- One round on held bytes: `read` fills the buffer from `total` on, and the echo is taken off. The
-- next round sees the first `total` bytes of the buffer.
unfoldable pub take_held : ℕ → ℕ → List ℕ → Port → Option (ℕ × List ℕ × Port)
take_held len total buffer p =
    let got = take (len - total) p.held in
    let filled = take total buffer ++ got in
    let q = record p { held = drop (len - total) p.held } in
    elim (cancel_echo (length got) p.echo_cancel_fifo (total + length got) filled) [
      | none ↦ none
      | some (fifo, total') ↦ some (total', filled, record q { echo_cancel_fifo = fifo })
    ]

pub data Wait : Type 0 where
  ready : Port → Wait
  broken : Error → Port → Wait

-- `select` on an empty line.
unfoldable pub wait_event : List Event → Port → Wait
wait_event [] p = broken timeout p
wait_event (arrives seconds bytes ∷ events) p =
    ready (record p { held = bytes; events = events; clock = p.clock + seconds })
wait_event (times_out seconds ∷ events) p =
    broken timeout (record p { events = events; clock = p.clock + seconds })
wait_event (fails ∷ events) p = broken other (record p { events = events })

-- `Read`: the loop ends when `total` reaches the length.
unfoldable pub read_loop : ℕ → ℕ → ℕ → List ℕ → PortM (List ℕ)
read_loop zero len total buffer p = stuck
read_loop (suc fuel) len total buffer p = elim p.held [
  | [] ↦ elim (wait_event p.events p) [
    | broken e q ↦ err e q
    | ready q ↦ read_loop fuel len total buffer q
  ]
  | b ∷ bs ↦ elim (take_held len total buffer p) [
    | none ↦ err other (flush p)
    | some (total', filled, q) ↦ elim (total' == len) [
      | true ↦ ok (take len filled) q
      | false ↦ read_loop fuel len total' filled q
    ]
  ]
]

-- A round takes a held byte or an event, so this many rounds are enough.
abbrev pub event_budget : List Event → ℕ
event_budget [] = 0
event_budget (arrives seconds bytes ∷ events) = suc (length bytes + event_budget events)
event_budget (e ∷ events) = suc (event_budget events)

abbrev pub budget : Port → ℕ
budget p = length p.held + event_budget p.events

unfoldable pub read : ℕ → PortM (List ℕ)
unfolding read_loop
read len p = read_loop (suc (budget p)) len 0 [] p

-- The loop over the bytes in front of the address. Each round takes a held byte or an event.
unfoldable pub skip_to_address : ℕ → PortM (Unit {0})
skip_to_address zero p = stuck
skip_to_address (suc fuel) p = elim (read 1 p) [
  | stuck ↦ stuck
  | err e q ↦ err e q
  | ok bytes q ↦ elim (get_or bytes 0 0 == ksu_address) [
    | true ↦ ok tt q
    | false ↦ skip_to_address fuel q
  ]
]

unfoldable pub find_address : PortM (Unit {0})
unfolding skip_to_address
find_address p = skip_to_address (suc (budget p)) p

abbrev pub time : PortM ℕ
time p = ok p.clock p

-- The command as it is kept: a reply with information gets the current mode, since the line does
-- not carry it. The byte and the shifted mode have no bit in common.
abbrev pub long_cmd : ℕ → ℕ → ℕ
long_cmd mode cmd = if cmd == Ack.info_mode 0 then (mode * 2 ^ 8 + cmd) % 2 ^ 16 else cmd

-- The data behind the command, if there is any.
unfoldable pub read_bytes : ℕ → PortM (List ℕ)
read_bytes len p = if len == 0 then ok [] p else read len p

-- The part of `ReadPacket` behind the length check. `crc` is the check sum so far.
unfoldable pub read_rest : PacketType → ℕ → ℕ → ℕ → PortM DataPacket
read_rest type cmd len crc = do
  now ← time
  bytes ← read_bytes (len - 1)
  sum ← read 2
  if swap16 (load16 (get_or sum 0 0) (get_or sum 1 0)) == crc16 crc bytes
      then return (fill (new_packet type ksu_address cmd now) bytes)
      else throw bad_crc

-- What follows the length check.
unfoldable pub read_checked : Option PacketType → ℕ → ℕ → ℕ → PortM DataPacket
read_checked none cmd len crc = throw bad_packet
read_checked (some type) cmd len crc = read_rest type cmd len crc

-- `ReadPacket`, with `m_writeMode` as an argument. A telegram that fails the length check is left
-- on the line behind its command byte.
unfoldable pub read_packet : ℕ → PortM DataPacket
read_packet mode = do
  find_address
  length_bytes ← read 2
  let len = swap16 (load16 (get_or length_bytes 0 0) (get_or length_bytes 1 0))
  cmd_bytes ← read 1
  let cmd = get_or cmd_bytes 0 0
  let crc = crc16 0 (ksu_address ∷ length_bytes ++ cmd_bytes)
  read_checked (is_length_matches (long_cmd mode cmd % 2 ^ 8) len) (long_cmd mode cmd) len crc

-- `WritePacket`: the bytes are queued for echo cancellation and sent.
unfoldable pub write_packet : DataPacket → PortM (Unit {0})
write_packet packet p =
    let raw = create_raw_packet packet in
    ok tt (record p { echo_cancel_fifo = p.echo_cancel_fifo ++ raw; written = p.written ++ raw })
