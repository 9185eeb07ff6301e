-- ===== src/Traffic/Motor.antt =====
-- Commands to the motor: `ProcessMotorCmd`, which follows a command that the operator gives by hand,
-- and `ProcessCommand`, which carries out a command of a client, both of src/ComTrafficProcessor.cpp.
-- `status` is `m_motorStatus`. A mask of the lowest bit is a remainder.
pub mod Laws
pub mod Commands
use ritex.Base.{
  ℕ, ◌/◌, ◌%◌, Bool, true, false, not, ◌&&◌, ◌||◌, Option, none, some, List, [], ◌∷◌, ◌==◌,
  if◌then◌else◌, get_or,
}
use ritex.Protocol.{get_cmd, get_ack_for_cmd}
use ritex.Protocol.Req
use ritex.Protocol.Ack
use ritex.Packet.{DataPacket}
use ritex.Port.{PortM, ◌>>=◌, ◌>>◌, return, Error, unexpected_packet, time, write_packet}
use ritex.Device.Event.{DbEvent}
use ritex.Device.Faults.{report_station_state}
use ritex.Traffic.Exchange.{Reply, received, failed, wait_for_ksu_activity, request_current_data}

-- The state of the motor, what was reported, and the value that `error` has; `none` is
-- ERROR_READ_NO_ERROR.
pub record Motor : Type 0 where
  pub status : ℕ
  pub events : List DbEvent
  pub error : Option Error

abbrev pub unmoved : ℕ → Option Error → Motor
unmoved status error = record { status = status; events = []; error = error }

-- `& VD_ON_MASK`.
abbrev pub is_on : ℕ → ℕ
is_on status = status % 2

-- A new status is kept, and reported if the motor was turned on or off.
abbrev pub turned : Option ℕ → ℕ → ℕ → ℕ → List DbEvent
turned channel now old new =
    if is_on old == is_on new
    then []
    else report_station_state channel (is_on new) (is_on old) now "HND" ∷ []

abbrev pub moved : Option ℕ → ℕ → ℕ → ℕ → Motor
moved channel old new now = record {
  status = new;
  events = turned channel now old new;
  error = none;
}

-- The packet after the request: the reply with the new status at its first byte.
abbrev pub third_packet : Option ℕ → ℕ → Reply → PortM Motor
third_packet channel status (failed e) = return (unmoved status (some e))
third_packet channel status (received packet) =
    if get_cmd packet.cmd == Ack.info
    then (do now ← time; return (moved channel status (get_or packet.bytes 0 0) now))
    else return (unmoved status (some unexpected_packet))

-- The packet after the acknowledgement: the request of the operator's panel for information.
abbrev pub second_packet : Option ℕ → ℕ → ℕ → Reply → PortM Motor
second_packet channel mode status (failed e) = return (unmoved status (some e))
second_packet channel mode status (received packet) =
    if get_cmd packet.cmd == Req.info
    then (do reply ← wait_for_ksu_activity mode; third_packet channel status reply)
    else return (unmoved status (some unexpected_packet))

abbrev pub first_packet : Option ℕ → ℕ → ℕ → Reply → PortM Motor
first_packet channel mode status (failed e) = return (unmoved status (some e))
first_packet channel mode status (received packet) =
    if get_cmd packet.cmd == Ack.ack && get_or packet.bytes 0 0 == 0
    then (do reply ← wait_for_ksu_activity mode; second_packet channel mode status reply)
    else return (unmoved status none)

unfoldable pub process_motor_cmd : Option ℕ → ℕ → ℕ → PortM Motor
process_motor_cmd channel mode status = do
  reply ← wait_for_ksu_activity mode
  first_packet channel mode status reply

-- What `ProcessCommand` hands to `SetReply`, and the status of the motor after it. `none` is a null
-- pointer.
pub record Answer : Type 0 where
  pub packet : Option DataPacket
  pub error : Option Error
  pub status : ℕ

abbrev pub is_motor_cmd : ℕ → Bool
is_motor_cmd cmd = cmd == Req.vd_on || (cmd == Req.vd_off || cmd == Req.vd_rotation)

-- `!GetAckForCmd(...)` as a number: the operator binds before the comparison. No reply, -1, is not 0.
abbrev pub negated : Option ℕ → ℕ
negated none = 0
negated (some cmd) = if cmd == 0 then 1 else 0

-- The test whether the reply belongs to the command.
unfoldable pub is_refused : ℕ → DataPacket → Bool
is_refused cmd packet =
    negated (get_ack_for_cmd (get_cmd cmd) true) == packet.cmd
    && negated (get_ack_for_cmd cmd false) == packet.cmd

unfoldable pub check_reply : ℕ → ℕ → DataPacket → Answer
check_reply cmd status packet = record {
  packet = some packet;
  error = if is_refused cmd packet then some unexpected_packet else none;
  status = status;
}

abbrev pub status_after : ℕ → DataPacket → ℕ
status_after status packet =
    if get_cmd packet.cmd == Ack.info then get_or packet.bytes 0 0 else status

-- The reply with the result of a command to the motor.
abbrev pub motor_result : ℕ → ℕ → Reply → Answer
motor_result cmd status (failed e) = record { packet = none; error = some e; status = status }
motor_result cmd status (received packet) = check_reply cmd (status_after status packet) packet

-- The reply to a command to the motor: after an acknowledgement without error, the result is asked
-- for.
abbrev pub motor_reply : ℕ → ℕ → ℕ → DataPacket → PortM Answer
motor_reply mode cmd status packet =
    if get_cmd packet.cmd == Ack.ack
    then (if get_or packet.bytes 0 0 == 0
        then (do
          request_current_data
          reply ← wait_for_ksu_activity mode
          return (motor_result cmd status reply))
        else return (record { packet = some packet; error = none; status = status }))
    else return (record { packet = some packet; error = some unexpected_packet; status = status })

abbrev pub answer : ℕ → ℕ → ℕ → Reply → PortM Answer
answer mode cmd status (failed e) =
    return (record { packet = none; error = some e; status = status })
answer mode cmd status (received packet) =
    if is_motor_cmd (get_cmd cmd)
    then motor_reply mode cmd status packet
    else return (check_reply cmd status packet)

unfoldable pub process_command : ℕ → ℕ → DataPacket → PortM Answer
process_command mode status command = do
  write_packet command
  reply ← wait_for_ksu_activity mode
  answer mode command.cmd status reply
