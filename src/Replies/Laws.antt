-- ===== src/Replies/Laws.antt =====
-- What a client is told after a command to the motor.
use ritex.Base.{
  ℕ, ◌<◌, ◌≡◌, refl, true, false, Option, none, some, List, [], ◌∷◌, ◌==◌, if◌then◌else◌, arith,
}
use ritex.Protocol.Req
use ritex.Protocol.Ack
use ritex.Packet.{DataPacket}
use ritex.Port.{long_cmd}
use ritex.Device.Table.{Setting}
use ritex.Device.Event.{DbEvent}
use ritex.Device.Turns.{
  motor_started, motor_stopped, report_station_state-start, report_station_state-stop,
}
use ritex.Traffic.Exchange.Laws.{reply_as_read}
use ritex.Traffic.Motor.{Answer}
use ritex.Replies.{
  text, External, says, unknown_reply, motor_events, is_motor, reply_motor, reply_to,
  external_reply,
}

-- An answer with a packet and no error.
abbrev pub answered : DataPacket → ℕ → Answer
answered packet status = record { packet = some packet; error = none; status = status }

-- What is reported of a command to the motor that was carried out: its start, its stop, or nothing.
abbrev pub motor_report : Option ℕ → ℕ → External → List DbEvent
motor_report channel now command =
    if command.cmd_id == Req.vd_on
    then motor_started channel now command.source ∷ []
    else if command.cmd_id == Req.vd_off
    then motor_stopped channel now command.source ∷ []
    else []

motor_events-motor_report :
    (channel : Option ℕ) (now : ℕ) (command : External)
    → motor_events channel now command ≡ motor_report channel now command
motor_events-motor_report channel now command =
    rw
      (
        report_station_state-start channel now command.source,
        report_station_state-stop channel now command.source,
      )
      refl

info_marked :
    (mode : ℕ)
    → mode < 0x100
    → ((long_cmd mode Ack.info == Ack.ack) ≡ false)
      × ((long_cmd mode Ack.info == Ack.info) ≡ (mode == 0))
info_marked mode h = ground arith

reply_motor-info :
    (channel : Option ℕ) (now mode timestamp : ℕ) (command : External) (settings : List Setting)
    (bytes : List ℕ)
    → mode < 0x100
    → reply_motor channel now command settings (reply_as_read mode timestamp Ack.info bytes) ≡ (
        if mode == 0
        then says (text "8;Прием без ошибок\n" ∷ []) settings (motor_report channel now command)
        else says unknown_reply settings [])
unfolding reply_motor
reply_motor-info channel now mode timestamp command settings bytes h =
    rw
      (
        (info_marked mode h).0,
        (info_marked mode h).1,
        motor_events-motor_report channel now command,
      )
      refl

-- A client that gave a command to the motor, answered without error by a reply with information as
-- it is read in a write mode below 0x100: in write mode 0 the client is told of the success, and
-- the start of the motor is reported for the command that turns it on, its stop for the one that
-- turns it off, and nothing for a rotation; in every other mode the client is told that the reply
-- is unknown, and nothing is reported.
pub external_reply_motor :
    (channel : Option ℕ) (now mode timestamp status : ℕ) (command : External)
    (settings : List Setting) (bytes : List ℕ)
    → is_motor command.cmd_id ≡ true
    → mode < 0x100
    → external_reply channel now command settings
        (answered (reply_as_read mode timestamp Ack.info bytes) status)
      ≡ (if mode == 0
          then says (text "8;Прием без ошибок\n" ∷ []) settings (motor_report channel now command)
          else says unknown_reply settings [])
unfolding external_reply reply_to
external_reply_motor channel now mode timestamp status command settings bytes motor h =
    let not_setting : (command.cmd_id == Req.setting_set) ≡ false = ground (arith, motor) in
    rw (not_setting, motor) (reply_motor-info channel now mode timestamp command settings bytes h)
