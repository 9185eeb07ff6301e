-- ===== src/Port/Examples.antt =====
-- The serial line at concrete inputs: a request, its echo, noise and replies, in pieces.
use ritex.Base.{ℕ, ◌≡◌, refl, List, [], ◌∷◌, ◌++◌, arith}
use ritex.Protocol.{type_cmd, type_ack, is_length_matches, scan}
use ritex.Protocol.Ack
use ritex.Protocol.Req
use ritex.Packet.{DataPacket, create_raw_packet, msb, lsb}
use ritex.Crc.{crc16}
use ritex.Port.{Port, arrives, times_out, ok, err, bad_crc, read_packet, write_packet}
use ritex.Port.Stream.{stream}
use ritex.Port.Frame.{decode}
use ritex.Port.Agrees.{Agrees}
use ritex.Port.Refines.{SameTelegram, read_packet-decode}
use ritex.Port.Telegram.{body}
use ritex.Port.RoundTrip.{as_read, read_packet-create_raw_packet, read_packet_corrupted}
use ritex.Port.Echo.{read_packet-write_packet}

-- A line that holds some bytes, with others a second later.
abbrev line_of : List ℕ → List ℕ → List ℕ → Port
line_of fifo held later = record {
  held = held;
  events = arrives 1 later ∷ times_out 10 ∷ [];
  echo_cancel_fifo = fifo;
  written = [];
  clock = 100;
}

-- The reply that no error occurred.
abbrev reply : DataPacket
reply = record { address = 0x36; cmd = Ack.ack; type = type_ack; timestamp = 0; bytes = 0 ∷ [] }

abbrev request : DataPacket
request = record { address = 0x36; cmd = Req.info; type = type_cmd; timestamp = 0; bytes = [] }

read_packet-decode_example :
    Agrees SameTelegram
      (line_of [] (0x36 ∷ 0x00 ∷ []) (create_raw_packet reply))
      (read_packet 2 (line_of [] (0x36 ∷ 0x00 ∷ []) (create_raw_packet reply)))
      (decode 2 (stream (line_of [] (0x36 ∷ 0x00 ∷ []) (create_raw_packet reply))))
read_packet-decode_example =
    read_packet-decode 2 (line_of [] (0x36 ∷ 0x00 ∷ []) (create_raw_packet reply)) refl

read_packet-create_raw_packet_example :
    (timestamp : ℕ) × (q : Port) × (read_packet 2
        (line_of [] (0x11 ∷ []) (create_raw_packet reply ++ []))
      ≡ ok (as_read 2 type_ack timestamp reply) q)
    × (stream q ≡ [])
    × (q.written ≡ [])
    × (q.echo_cancel_fifo ≡ [])
unfolding is_length_matches scan
read_packet-create_raw_packet_example =
    read_packet-create_raw_packet 2 (line_of [] (0x11 ∷ []) (create_raw_packet reply ++ []))
      (0x11 ∷ []) [] reply refl (unfold create_raw_packet in refl) (omega arith, tt) refl
      (omega arith, tt) refl

read_packet_corrupted_example :
    (q : Port) × (read_packet 2 (
        line_of [] [] (
          body 0x0b (5 ∷ [])
          ++ (msb (crc16 0 (body 0x0b (0 ∷ []))) ∷ lsb (crc16 0 (body 0x0b (0 ∷ []))) ∷ [])))
      ≡ err bad_crc q)
    × (stream q ≡ [])
unfolding is_length_matches scan
read_packet_corrupted_example =
    read_packet_corrupted 2 0x0b 0 5
      (line_of [] [] (
        body 0x0b (5 ∷ [])
        ++ (msb (crc16 0 (body 0x0b (0 ∷ []))) ∷ lsb (crc16 0 (body 0x0b (0 ∷ []))) ∷ [])))
      [] [] [] [] {t = type_ack} refl refl tt (omega arith, tt) (omega arith) (omega arith) refl

abbrev conversation : Port
conversation = line_of [] [] (create_raw_packet request ++ (create_raw_packet reply ++ []))

abbrev requested : Port
requested = record conversation {
  echo_cancel_fifo = create_raw_packet request;
  written = create_raw_packet request;
}

read_packet-write_packet_example :
    (timestamp : ℕ) × (r : Port) × (read_packet 0 requested
      ≡ ok (as_read 0 type_ack timestamp reply) r)
    × (stream r ≡ [])
    × (r.written ≡ [] ++ create_raw_packet request)
    × (r.echo_cancel_fifo ≡ [])
unfolding is_length_matches scan write_packet create_raw_packet
read_packet-write_packet_example =
    read_packet-write_packet 0 conversation requested request reply [] refl refl refl refl
      (omega arith, tt) refl
