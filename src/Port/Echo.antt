-- ===== src/Port/Echo.antt =====
-- Echo cancellation: the line carries back what was written.
use ritex.Base.{
  ℕ, zero, suc, ◌+◌, ◌≤◌, ◌<◌, ◌≡◌, ◌≢◌, refl, sym, ap, ◌∙◌, true, false, List, [], ◌∷◌, ◌++◌, ◌==◌,
  some, arith, length, drop, length-append, All, IsByte,
}
use ritex.Protocol.{ksu_address, PacketType, is_length_matches, get_cmd}
use ritex.Packet.{DataPacket, create_raw_packet, size}
use ritex.Port.{
  Port, Event, arrives, times_out, fails, other, Outcome, ok, err, cancel_echo, take_held,
  wait_event, read_loop, read, budget, event_budget, flush, read_packet, write_packet,
}
use ritex.Port.Agrees.{Agrees}
use ritex.Port.Refines.{SameTelegram, read_packet-decode_from, find_address_from}
use ritex.Port.Frame.{decode}
use ritex.Port.RoundTrip.{as_read, reads_back}
use ritex.Port.Stream.{stream, line, line_error}

-- `q` is `p` after its echo, one more byte, and with the stream `rest`.
pub record Echoed (rest : List ℕ) (p q : Port) : Type 0 where
  pub after : stream q ≡ rest
  pub quiet : q.echo_cancel_fifo ≡ []
  pub sent : q.written ≡ p.written
  pub fault : line_error q.events ≡ line_error p.events
  pub spent : budget q + 1 ≤ budget p

abbrev port : List ℕ → List Event → List ℕ → List ℕ → ℕ → Port
port held events fifo written clock = record {
  held = held;
  events = events;
  echo_cancel_fifo = fifo;
  written = written;
  clock = clock;
}

-- The byte `b` behind the echo.
abbrev pub ReadsBehind : ℕ → List ℕ → Port → Outcome (List ℕ) → Type 0
ReadsBehind b rest p r = (q : Port) × (r ≡ ok (b ∷ []) q) × Echoed rest p q

-- A byte that is the echo of the first byte that was written is taken off.
echo_round :
    (fuel echo x : ℕ) (buffer xs : List ℕ) (events : List Event) (fifo written : List ℕ) (clock : ℕ)
    → echo ≡ x
    → read_loop (suc fuel) 1 0 buffer (port (x ∷ xs) events (echo ∷ fifo) written clock)
      ≡ read_loop fuel 1 0 (x ∷ []) (port xs events fifo written clock)
unfolding read_loop take_held cancel_echo
echo_round fuel echo x buffer xs events fifo written clock e =
    let hit : (echo == x) ≡ true = ground arith in rw (hit, read_loop, cancel_echo)

echo_loop :
    (fuel b : ℕ) (buffer held : List ℕ) (events : List Event) (fifo written rest : List ℕ)
    (clock : ℕ)
    → length held + event_budget events < fuel
    → held ++ line events ≡ fifo ++ (b ∷ rest)
    → ReadsBehind b rest
        (port held events fifo written clock)
        (read_loop fuel 1 0 buffer (port held events fifo written clock))
unfolding read_loop wait_event take_held cancel_echo
echo_loop zero b buffer held events fifo written rest clock f e = absurd (omega arith)
echo_loop (suc fuel) b buffer [] [] fifo written rest clock f e =
    absurd (omega (arith, ap length e, length-append fifo (b ∷ rest)))
echo_loop (suc fuel) b buffer [] (times_out s ∷ events) fifo written rest clock f e =
    absurd (omega (arith, ap length e, length-append fifo (b ∷ rest)))
echo_loop (suc fuel) b buffer [] (fails ∷ events) fifo written rest clock f e =
    absurd (omega (arith, ap length e, length-append fifo (b ∷ rest)))
echo_loop (suc fuel) b buffer [] (arrives s bytes ∷ events) fifo written rest clock f e =
    let (q, same, h) =
      echo_loop fuel b buffer bytes events fifo written rest (clock + s) (omega arith) e in
    (
      q,
      same,
      record {
        after = h.after;
        quiet = h.quiet;
        sent = h.sent;
        fault = h.fault;
        spent = omega (arith, h.spent);
      },
    )
echo_loop (suc fuel) b buffer (x ∷ xs) events [] written rest clock f e = (
  port xs events [] written clock,
  ap (λ t. ok (t ∷ []) (port xs events [] written clock)) (cc),
  record { after = ap (drop 1) e; quiet = refl; sent = refl; fault = refl; spent = omega arith },
)
echo_loop (suc fuel) b buffer (x ∷ xs) events (echo ∷ fifo) written rest clock f e =
    let (q, same, h) =
      echo_loop fuel b (x ∷ []) xs events fifo written rest clock (omega arith) (ap (drop 1) e) in
    (
      q,
      echo_round fuel echo x buffer xs events fifo written clock (cc) ∙ same,
      record {
        after = h.after;
        quiet = h.quiet;
        sent = h.sent;
        fault = h.fault;
        spent = omega (arith, h.spent);
      },
    )

-- A read of one byte takes the echo of everything that was written off the line, and returns the
-- byte behind it.
pub read_behind_echo :
    (b : ℕ) (rest : List ℕ) (p : Port)
    → stream p ≡ p.echo_cancel_fifo ++ (b ∷ rest)
    → ReadsBehind b rest p (read 1 p)
unfolding read
read_behind_echo b rest p e =
    echo_loop (suc (budget p)) b [] p.held p.events p.echo_cancel_fifo p.written rest p.clock
      (omega arith) e

-- A held byte that differs from the first byte that waits for its echo ends a read of one byte with
-- an error, and the held bytes and the queue are dropped.
pub read_wrong_echo :
    (x echo : ℕ) (xs fifo : List ℕ) (p : Port)
    → p.held ≡ x ∷ xs
    → p.echo_cancel_fifo ≡ echo ∷ fifo
    → echo ≢ x
    → read 1 p ≡ err other (flush p)
unfolding read read_loop take_held cancel_echo
read_wrong_echo x echo xs fifo p eh ef ne =
    let miss : (echo == x) ≡ false = ground arith in rw (eh, ef) (rw miss)

-- A read of two bytes compares the echo from its end: when two different bytes wait for their echo
-- and both are held in the right order, the read fails and drops them.
pub read_two_reversed :
    (a b : ℕ) (more : List ℕ) (p : Port)
    → p.held ≡ a ∷ b ∷ more
    → p.echo_cancel_fifo ≡ a ∷ b ∷ []
    → a ≢ b
    → read 2 p ≡ err other (flush p)
unfolding read read_loop take_held cancel_echo
read_two_reversed a b more p eh ef ne =
    let miss : (a == b) ≡ false = ground arith in rw (eh, ef) (rw miss)

-- When the line carries the bytes that wait for their echo and at least one more byte, read_packet
-- takes the echo off and agrees with the decoding of what follows it.
pub read_packet_behind_echo :
    (mode b : ℕ) (s : List ℕ) (p : Port)
    → stream p ≡ p.echo_cancel_fifo ++ (b ∷ s)
    → Agrees SameTelegram p (read_packet mode p) (decode mode (b ∷ s))
read_packet_behind_echo mode b s p e =
    let (q, same, h) = read_behind_echo b s p e in
    read_packet-decode_from mode (b ∷ s) p (
      find_address_from b s p q same h.after
        (record { quiet = h.quiet; sent = h.sent; fault = h.fault }) (omega (arith, h.spent)))

write_packet_sent :
    (p q : Port) (request : DataPacket)
    → write_packet request p ≡ ok tt q
    → q.written ≡ p.written ++ create_raw_packet request
unfolding write_packet
write_packet_sent p q request w = ground arith

write_packet_queued :
    (p q : Port) (request : DataPacket)
    → p.echo_cancel_fifo ≡ []
    → write_packet request p ≡ ok tt q
    → (q.echo_cancel_fifo ≡ create_raw_packet request) × (stream q ≡ stream p)
unfolding write_packet
write_packet_queued p q request quiet w = ground arith

read_reply :
    (mode : ℕ) (p q : Port) (request reply : DataPacket) (rest : List ℕ)
    → p.echo_cancel_fifo ≡ []
    → write_packet request p ≡ ok tt q
    → stream p ≡ create_raw_packet request ++ (create_raw_packet reply ++ rest)
    → Agrees SameTelegram q (read_packet mode q) (decode mode (create_raw_packet reply ++ rest))
read_reply mode p q request reply rest quiet w e =
    let (queued, same) = write_packet_queued p q request quiet w in
    unfold create_raw_packet in
    read_packet_behind_echo mode _ _ q
      (same ∙ e ∙ ap (λ s. s ++ (create_raw_packet reply ++ rest)) (sym queued))

-- A request and its reply: after write_packet on a line with no echo to wait for, a line that
-- carries the echo of the request and then a reply of an accepted length is read as that reply.
pub read_packet-write_packet :
    (mode : ℕ) (p q : Port) (request reply : DataPacket) (rest : List ℕ) {t : PacketType}
    → p.echo_cancel_fifo ≡ []
    → write_packet request p ≡ ok tt q
    → stream p ≡ create_raw_packet request ++ (create_raw_packet reply ++ rest)
    → reply.address ≡ ksu_address
    → All IsByte reply.bytes
    → is_length_matches (get_cmd reply.cmd) (size reply + 1) ≡ some t
    → (timestamp : ℕ) × (r : Port) × (read_packet mode q ≡ ok (as_read mode t timestamp reply) r)
      × (stream r ≡ rest)
      × (r.written ≡ p.written ++ create_raw_packet request)
      × (r.echo_cancel_fifo ≡ [])
read_packet-write_packet mode p q request reply rest {t} quiet w e addr hb m =
    let (timestamp, r, same, after, sent, calm) =
      reads_back mode q (read_packet mode q) [] rest reply
        (read_reply mode p q request reply rest quiet w e) tt addr hb m in
    (timestamp, r, same, after, sent ∙ write_packet_sent p q request w, calm)
