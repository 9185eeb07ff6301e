-- ===== src/Traffic/Motor/Commands.antt =====
-- The conversation that carries out a command of a client.
use ritex.Base.{
  ℕ, ◌+◌, ◌<◌, ◌≡◌, refl, ap, ◌∙◌, true, false, none, some, List, [], ◌∷◌, ◌++◌, ◌==◌, get_or,
  length, All, IsByte, arith,
}
use ritex.Protocol.{PacketType, type_ack, get_cmd, is_length_matches, scan}
use ritex.Protocol.Req
use ritex.Protocol.Ack
use ritex.Packet.{DataPacket, size, create_raw_packet}
use ritex.Port.{Port, ◌>>=◌, return, ok, long_cmd, write_packet}
use ritex.Port.Echo.{read_packet-write_packet}
use ritex.Traffic.Exchange.{received, wait_for_ksu_activity, send}
use ritex.Traffic.Exchange.Laws.{
  Ready, Yields, telegram, raw_request, raw_reply, reply_as_read, bind_ok, wait_ok, exchange,
  then_sent,
}
use ritex.Traffic.Motor.{check_reply, is_motor_cmd, motor_result, answer, process_command}
use ritex.Traffic.Motor.Laws.{is_refused-is_length_matches, get_cmd-long_cmd}

abbrev queued : DataPacket → Port → Port
queued command p = record p {
  echo_cancel_fifo = p.echo_cancel_fifo ++ create_raw_packet command;
  written = p.written ++ create_raw_packet command;
}

-- A command and its reply, read by the wait that follows.
commanded :
    (mode : ℕ) (command : DataPacket) (cmd : ℕ) (bytes rest : List ℕ) (p : Port)
    → Ready (create_raw_packet command ++ (raw_reply cmd bytes ++ rest)) p
    → All IsByte bytes
    → is_length_matches (get_cmd cmd) (length bytes + 1) ≡ some type_ack
    → (timestamp : ℕ) × Yields
        (received (reply_as_read mode timestamp cmd bytes))
        (create_raw_packet command)
        rest
        p
        (wait_for_ksu_activity mode (queued command p))
unfolding write_packet
commanded mode command cmd bytes rest p ready hb m =
    let (timestamp, q, same, after, sent, calm) =
      read_packet-write_packet mode p _ command (telegram type_ack cmd bytes) rest {t = type_ack}
        ready.quiet refl ready.comes refl hb m in
    (timestamp, (q, wait_ok mode _ same, record { comes = after; quiet = calm }, sent))

check_reply_lem :
    (cmd status : ℕ) (packet : DataPacket) {t : PacketType}
    → is_length_matches (get_cmd packet.cmd) (size packet + 1) ≡ some t
    → check_reply cmd status packet ≡ record { packet = some packet; error = none; status = status }
unfolding check_reply
check_reply_lem cmd status packet h = rw (is_refused-is_length_matches cmd packet h) refl

read_accepted :
    (mode timestamp cmd : ℕ) (bytes : List ℕ)
    → cmd < 0x100
    → is_length_matches cmd (length bytes + 1) ≡ some type_ack
    → is_length_matches (get_cmd (reply_as_read mode timestamp cmd bytes).cmd) (length bytes + 1)
      ≡ some type_ack
read_accepted mode timestamp cmd bytes h m =
    let low : get_cmd cmd ≡ cmd = omega arith in
    rw (ap (λ c. get_cmd (long_cmd mode c)) low, get_cmd-long_cmd mode cmd h) m

answer_other :
    (mode cmd status : ℕ) (packet : DataPacket) (q : Port) {t : PacketType}
    → is_motor_cmd (get_cmd cmd) ≡ false
    → is_length_matches (get_cmd packet.cmd) (size packet + 1) ≡ some t
    → answer mode cmd status (received packet) q
      ≡ ok (record { packet = some packet; error = none; status = status }) q
answer_other mode cmd status packet q other m = rw (other, check_reply_lem cmd status packet m) refl

-- A command that is none of the three to the motor: on a line that waits for no echo, with the echo
-- of the command and any reply of an accepted length, the client gets this reply, without error,
-- and the status of the motor stays.
pub process_command_lem :
    (mode status cmd : ℕ) (command : DataPacket) (bytes rest : List ℕ) (p : Port)
    → is_motor_cmd (get_cmd command.cmd) ≡ false
    → cmd < 0x100
    → All IsByte bytes
    → is_length_matches cmd (length bytes + 1) ≡ some type_ack
    → Ready (create_raw_packet command ++ (raw_reply cmd bytes ++ rest)) p
    → (timestamp : ℕ) × Yields
        (record {
          packet = some (reply_as_read mode timestamp cmd bytes);
          error = none;
          status = status;
        })
        (create_raw_packet command)
        rest
        p
        (process_command mode status command p)
unfolding process_command write_packet
process_command_lem mode status cmd command bytes rest p other h hb m ready =
    let low : get_cmd cmd ≡ cmd = omega arith in
    let (timestamp, (q, same, ready_q, sent)) =
      commanded mode command cmd bytes rest p ready hb (rw low m) in
    (
      timestamp,
      (
        q,
        bind_ok (wait_for_ksu_activity mode) (answer mode command.cmd status) same
            ∙ answer_other mode command.cmd status (reply_as_read mode timestamp cmd bytes) q other
                (read_accepted mode timestamp cmd bytes h m),
        ready_q,
        sent,
      ),
    )

motor_result-info :
    (mode cmd status timestamp : ℕ) (bytes : List ℕ)
    → is_length_matches Ack.info (length bytes + 1) ≡ some type_ack
    → motor_result cmd status (received (reply_as_read mode timestamp Ack.info bytes)) ≡ record {
      packet = some (reply_as_read mode timestamp Ack.info bytes);
      error = none;
      status = get_or bytes 0 0;
    }
motor_result-info mode cmd status timestamp bytes m =
    let same : (get_cmd (long_cmd mode Ack.info) == Ack.info) ≡ true =
      ground (arith, get_cmd-long_cmd mode Ack.info (omega arith)) in
    check_reply_lem cmd _ (reply_as_read mode timestamp Ack.info bytes)
      (read_accepted mode timestamp Ack.info bytes (omega arith) m)
    ∙ rw same refl

answer_motor :
    (mode cmd status timestamp : ℕ) (p : Port)
    → is_motor_cmd (get_cmd cmd) ≡ true
    → answer mode cmd status (received (reply_as_read mode timestamp Ack.ack (0 ∷ []))) p
      ≡ (send Req.info [] >>= λ u.
            wait_for_ksu_activity mode >>= λ reply. return (motor_result cmd status reply))
          p
answer_motor mode cmd status timestamp p motor = rw motor refl

-- A command to the motor: on a line that waits for no echo, with the echo of the command, an
-- acknowledgement without error, the echo of the request for information and a reply with
-- information of an accepted length, the client gets this reply, without error, and the status of
-- the motor is the first byte of the reply.
pub process_command_motor :
    (mode status : ℕ) (command : DataPacket) (bytes rest : List ℕ) (p : Port)
    → is_motor_cmd (get_cmd command.cmd) ≡ true
    → All IsByte bytes
    → is_length_matches Ack.info (length bytes + 1) ≡ some type_ack
    → Ready
        (create_raw_packet command
          ++ (raw_reply Ack.ack (0 ∷ [])
              ++ (raw_request Req.info [] ++ (raw_reply Ack.info bytes ++ rest))))
        p
    → (timestamp : ℕ) × Yields
        (record {
          packet = some (reply_as_read mode timestamp Ack.info bytes);
          error = none;
          status = get_or bytes 0 0;
        })
        (create_raw_packet command ++ raw_request Req.info [])
        rest
        p
        (process_command mode status command p)
unfolding process_command write_packet
process_command_motor mode status command bytes rest p motor hb m ready =
    let (t, (q, acked, ready_q, sent_q)) =
      commanded mode command Ack.ack (0 ∷ []) _ p ready (omega arith, tt)
        (unfold is_length_matches scan in refl) in
    let (u, (r, told, ready_r, sent_r)) =
      exchange mode Req.info Ack.info [] bytes rest q (motor_result command.cmd status) ready_q hb
        m in
    (
      u,
      (
        r,
        bind_ok (wait_for_ksu_activity mode) (answer mode command.cmd status) acked
            ∙ answer_motor mode command.cmd status t q motor
            ∙ told
            ∙ ap (λ a. ok a r) (motor_result-info mode command.cmd status u bytes m),
        ready_r,
        then_sent p q r _ _ sent_q sent_r,
      ),
    )
