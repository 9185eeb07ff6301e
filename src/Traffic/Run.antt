-- ===== src/Traffic/Run.antt =====
-- The loop of `Run` of src/ComTrafficProcessor.cpp, pass by pass: a state machine of two states over the
-- serial line. What other threads send comes between two passes. What `SetReply` of the answered commands
-- does to the settings and reports is no part of the state here: Replies/Queue applies it to the answers.
pub mod State
pub mod Session
pub mod Laws
pub mod Kept
pub mod Queue
pub mod Order
pub mod Examples
use ritex.Base.{
  ℕ, ◌+◌, Bool, true, false, not, ◌||◌, Option, none, some, List, [], ◌∷◌, ◌++◌, ◌==◌,
  if◌then◌else◌, ltb, get_elem?,
}
use ritex.Protocol.{get_cmd}
use ritex.Protocol.Ack
use ritex.Packet.{DataPacket}
use ritex.Port.{PortM, ◌>>=◌, return, time}
use ritex.Device.Event.{DbEvent}
use ritex.Device.Settings.{Settings, check_settigs_changed}
use ritex.Device.Reports.{OffsetTableEntry, DbDataPacket}
use ritex.Device.Clock.{StationTime}
use ritex.Traffic.Exchange.{
  Reply, received, failed, wait_for_ksu_activity, capture, write_mode_offset,
}
use ritex.Traffic.Motor.{Motor, Answer, is_motor_cmd, process_motor_cmd, process_command}
use ritex.Traffic.Modes.{Reports, rounds, cycle_modes}
use ritex.Traffic.Run.State.{
  TrafficState, process_ksu_traffic, capture_device, Processor, Pass, quiet, is_waiting, on_info,
  on_settings, send_custom_cmd, behind,
}

-- The commands of the queue, each with what is handed to its `SetReply`, and the status of the motor.
pub record Drained : Type 0 where
  pub status : ℕ
  pub answers : List (DataPacket × Answer)

unfoldable pub process_pending : ℕ → ℕ → List DataPacket → PortM Drained
process_pending mode status [] = return (record { status = status; answers = [] })
process_pending mode status (cmd ∷ cmds) = do
  answer ← process_command mode status cmd
  drained ← process_pending mode answer.status cmds
  return (record drained { answers = (cmd, answer) ∷ drained.answers })

-- `MODE_CYCLE_TIME` and the time to leave the capture.
abbrev pub cycle_pause : ℕ
cycle_pause = 60 + 5

module _ (table : List OffsetTableEntry) (mktime : StationTime → ℕ) (limit : ℕ)
    (channel : Option ℕ) where
  -- The operator moved the motor.
  abbrev pub motor_moved : Processor → Motor → Pass
  motor_moved st motor = record {
    after = record st { motor_status = motor.status };
    events = motor.events;
    values = [];
    answers = [];
  }

  unfoldable pub on_packet : Processor → Reply → PortM (Option Pass)
  on_packet st (failed e) = return (some (quiet st))
  on_packet st (received packet) =
      if get_cmd packet.cmd == Ack.info
      then (do now ← time; return (on_info table mktime limit channel now packet st))
      else if get_cmd packet.cmd == Ack.all_settings
      then (do now ← time; return (on_settings table mktime limit channel now packet st))
      else if is_motor_cmd (get_cmd packet.cmd)
      then (do
        motor ← process_motor_cmd channel st.write_mode st.motor_status
        return (some (motor_moved st motor)))
      else return (some (quiet st))

  -- STATE_PROCESS_KSU_TRAFFIC.
  unfoldable pub traffic_pass : Processor → PortM (Option Pass)
  traffic_pass st = do reply ← wait_for_ksu_activity st.write_mode; on_packet st reply

  -- The end of STATE_CAPTURE_DEVICE: back to the traffic.
  abbrev pub released : Processor → ℕ → List DbEvent → List DbDataPacket → Drained → Pass
  released st next events values drained = record {
    after = record st {
      state = process_ksu_traffic;
      motor_status = drained.status;
      next_mode_loop_cycle = next;
      pending = [];
    };
    events = events;
    values = values;
    answers = drained.answers;
  }

  abbrev pub cycled : Processor → List DbEvent → Drained → Reports → PortM (Option Pass)
  cycled st events drained none = return none
  cycled st events drained (some values) = do
    now ← time
    return (some (released st (now + cycle_pause) events values drained))

  -- The cycle through the modes, if its time has passed.
  unfoldable pub with_cycle : Processor → List DbEvent → Drained → PortM (Option Pass)
  with_cycle st events drained = do
    now ← time
    if ltb st.next_mode_loop_cycle now
        then (do
          reports ← cycle_modes table st.is_auto_mode st.write_mode rounds
          cycled st events drained reports)
        else return (some (released st st.next_mode_loop_cycle events [] drained))

  -- The commands and the cycle of a captured device, after the settings that it told.
  abbrev pub with_settings :
      Processor → Option (Settings × List DbEvent) → Option ℕ → PortM (Option Pass)
  with_settings st none mode = return none
  with_settings st (some (settings, events)) none = return none
  with_settings st (some (settings, events)) (some mode) = do
    drained ← process_pending mode st.motor_status st.pending
    with_cycle (record st { settings = settings; write_mode = mode }) events drained

  unfoldable pub on_captured : Processor → Option DataPacket → PortM (Option Pass)
  on_captured st none = return (some (quiet st))
  on_captured st (some packet) = do
    now ← time
    with_settings st (check_settigs_changed channel now packet st.settings)
        (get_elem? packet.bytes write_mode_offset)

  -- STATE_CAPTURE_DEVICE. Where the capture fails, the next pass tries again.
  unfoldable pub capture_pass : Processor → PortM (Option Pass)
  capture_pass st = do settings ← capture st.write_mode; on_captured st settings

  -- The body of the loop.
  abbrev pub pass_in : TrafficState → Processor → PortM (Option Pass)
  pass_in process_ksu_traffic st = traffic_pass st
  pass_in capture_device st = capture_pass st

  -- The condition of the next round.
  abbrev pub with_do_run : Pass → Pass
  with_do_run done = record done {
    after = record done.after {
      do_run = done.after.is_data_capture || is_waiting done.after.pending;
    };
  }

  abbrev pub end_pass : Option Pass → PortM (Option Pass)
  end_pass none = return none
  end_pass (some done) = return (some (with_do_run done))

  unfoldable pub pass : Processor → PortM (Option Pass)
  pass st = do done ← pass_in st.state st; end_pass done
