-- ===== src/Traffic/Motor/Laws.antt =====
-- A command that the operator gives to the motor by hand, and the test of a reply.
use ritex.Base.{
  ℕ, ◌+◌, ◌%◌, if◌then◌else◌, ◌<◌, ◌≤◌, ◌≡◌, refl, sym, ap, ◌∙◌, true, false, Option, none, some,
  List, [], ◌∷◌, ◌++◌, ◌==◌, get_or, length, All, IsByte, arith, append-nil,
}
use ritex.Protocol.{
  PacketType, type_cmd, type_ack, get_cmd, is_length_matches, scan, get_ack_for_cmd,
}
use ritex.Protocol.Laws.{is_length_matches_large}
use ritex.Protocol.Req
use ritex.Protocol.Ack
use ritex.Packet.{DataPacket, size, create_raw_packet}
use ritex.Port.{Port, ok, long_cmd}
use ritex.Port.RoundTrip.{as_read, read_packet-create_raw_packet}
use ritex.Traffic.Exchange.{received, wait_for_ksu_activity}
use ritex.Traffic.Exchange.Laws.{
  Ready, Yields, telegram, raw_request, raw_reply, reply_as_read, bind_ok, wait_ok,
}
use ritex.Device.Event.{DbEvent}
use ritex.Device.Turns.{
  motor_started, motor_stopped, report_station_state-start, report_station_state-stop,
}
use ritex.Traffic.Motor.{
  Motor, turned, first_packet, second_packet, third_packet, process_motor_cmd, negated, is_refused,
}

negated_le : (o : Option ℕ) → negated o ≤ 1
negated_le none = omega arith
negated_le (some cmd) = ground arith

-- The test whether a reply belongs to its command refuses no reply that passed the length check,
-- whatever the command was.
pub is_refused-is_length_matches :
    (cmd : ℕ) (packet : DataPacket) {t : PacketType}
    → is_length_matches (get_cmd packet.cmd) (size packet + 1) ≡ some t
    → is_refused cmd packet ≡ false
unfolding is_refused
is_refused-is_length_matches cmd packet h =
    let large : 1 < packet.cmd =
      omega (arith, is_length_matches_large (get_cmd packet.cmd) (size packet + 1) h) in
    let differs : (negated (get_ack_for_cmd (get_cmd cmd) true) == packet.cmd) ≡ false =
      ground (arith, large, negated_le (get_ack_for_cmd (get_cmd cmd) true)) in
    rw differs refl

pub get_cmd-long_cmd : (mode cmd : ℕ) → cmd < 0x100 → get_cmd (long_cmd mode cmd) ≡ cmd
get_cmd-long_cmd mode cmd h = ground arith

-- A telegram that the station or the panel sends is read by a wait.
watched :
    (mode cmd : ℕ) (type : PacketType) (bytes rest : List ℕ) (p : Port)
    → Ready (create_raw_packet (telegram type cmd bytes) ++ rest) p
    → All IsByte bytes
    → is_length_matches (get_cmd cmd) (length bytes + 1) ≡ some type
    → (timestamp : ℕ) × Yields
        (received (as_read mode type timestamp (telegram type cmd bytes)))
        []
        rest
        p
        (wait_for_ksu_activity mode p)
watched mode cmd type bytes rest p ready hb m =
    let (timestamp, q, same, after, sent, calm) =
      read_packet-create_raw_packet mode p [] rest (telegram type cmd bytes) {t = type} ready.quiet
        ready.comes tt refl hb m in
    (
      timestamp,
      (
        q,
        wait_ok mode p same,
        record { comes = after; quiet = calm },
        sent ∙ sym (append-nil p.written),
      ),
    )

nothing_sent :
    (p q r : Port)
    → q.written ≡ p.written ++ []
    → r.written ≡ q.written ++ []
    → r.written ≡ p.written ++ []
nothing_sent p q r e f = f ∙ append-nil q.written ∙ e

-- What is reported when the operator turns the motor: its start, its stop, or nothing, by the lowest bit
-- of the old status and of the new one.
abbrev pub hand_turn : Option ℕ → ℕ → ℕ → ℕ → List DbEvent
hand_turn channel now old new =
    if old % 2 == 0
    then (if new % 2 == 1 then motor_started channel now "HND" ∷ [] else [])
    else (if new % 2 == 0 then motor_stopped channel now "HND" ∷ [] else [])

turned-hand_turn :
    (channel : Option ℕ) (now old new : ℕ)
    → turned channel now old new ≡ hand_turn channel now old new
turned-hand_turn channel now old new = ground (
  arith,
  report_station_state-start channel now "HND",
  report_station_state-stop channel now "HND",
)

-- The motor with its new status.
abbrev pub by_hand : Option ℕ → ℕ → ℕ → ℕ → Motor
by_hand channel old new now = record {
  status = new;
  events = hand_turn channel now old new;
  error = none;
}

third_packet-info :
    (channel : Option ℕ) (mode status timestamp : ℕ) (bytes : List ℕ) (p : Port)
    → third_packet channel status (received (reply_as_read mode timestamp Ack.info bytes)) p
      ≡ ok (by_hand channel status (get_or bytes 0 0) p.clock) p
third_packet-info channel mode status timestamp bytes p =
    let same : (get_cmd (long_cmd mode Ack.info) == Ack.info) ≡ true =
      ground (arith, get_cmd-long_cmd mode Ack.info (omega arith)) in
    rw same (
      ap (λ es. ok (record { status = get_or bytes 0 0; events = es; error = none }) p)
        (turned-hand_turn channel p.clock status (get_or bytes 0 0)))

-- The operator turns the motor by hand: on a line that waits for no echo, with the acknowledgement
-- of the station, the request of the panel and a reply with information of an accepted length, the
-- motor takes over the status at the first byte of the reply; its start is reported where the
-- lowest bit of the new status is set and that of the old one is not, its stop where it is the
-- other way round, and nothing where the two are equal; and nothing is written.
pub process_motor_cmd_lem :
    (channel : Option ℕ) (mode status : ℕ) (bytes rest : List ℕ) (p : Port)
    → All IsByte bytes
    → is_length_matches Ack.info (length bytes + 1) ≡ some type_ack
    → Ready
        (raw_reply Ack.ack (0 ∷ [])
          ++ (raw_request Req.info [] ++ (raw_reply Ack.info bytes ++ rest)))
        p
    → (now : ℕ) × Yields
        (by_hand channel status (get_or bytes 0 0) now)
        []
        rest
        p
        (process_motor_cmd channel mode status p)
unfolding process_motor_cmd
process_motor_cmd_lem channel mode status bytes rest p hb m ready =
    let (t, (q, acked, ready_q, sent_q)) =
      watched mode Ack.ack type_ack (0 ∷ []) _ p ready (omega arith, tt)
        (unfold is_length_matches scan in refl) in
    let (u, (r, asked, ready_r, sent_r)) =
      watched mode Req.info type_cmd [] _ q ready_q tt (unfold is_length_matches scan in refl) in
    let (v, (s, told, ready_s, sent_s)) =
      watched mode Ack.info type_ack bytes rest r ready_r hb m in
    (
      s.clock,
      (
        s,
        bind_ok (wait_for_ksu_activity mode) (first_packet channel mode status) acked
            ∙ bind_ok (wait_for_ksu_activity mode) (second_packet channel mode status) asked
            ∙ bind_ok (wait_for_ksu_activity mode) (third_packet channel status) told
            ∙ third_packet-info channel mode status v bytes s,
        ready_s,
        nothing_sent p q s sent_q (nothing_sent q r s sent_r sent_s),
      ),
    )
