-- ===== src/Traffic/Run/State.antt =====
-- The state of ComTrafficProcessor between two passes of `Run` in src/ComTrafficProcessor.cpp, and what
-- a pass does with a packet without the line. `none` is the end of the program: a read behind the data
-- of a packet, or an assertion.
use ritex.Base.{
  ℕ, ◌+◌, ◌/◌, ◌%◌, Bool, true, false, not, Option, some, List, [], ◌∷◌, ◌++◌, ◌==◌, if◌then◌else◌,
  get_elem?, ◌>>=◌,
}
use ritex.Packet.{DataPacket}
use ritex.Device.Event.{DbEvent}
use ritex.Device.Settings.{Settings, check_settigs_changed}
use ritex.Device.Reports.{OffsetTableEntry, DbDataPacket, report_data_packet}
use ritex.Device.Clock.{StationTime, check_and_report_time_diviation}
use ritex.Traffic.Fault.{FaultState, initial, check_and_report_fault}
use ritex.Traffic.Motor.{Answer, turned}
use ritex.Traffic.Modes.{need_capture}

pub data TrafficState : Type 0 where
  process_ksu_traffic capture_device : TrafficState

-- `pending` is `m_pendingCmdQueue`, by the packets of the commands; the last three fields are the state
-- of the reports: `m_isInFault` with `m_faultCode`, and what the device keeps.
pub record Processor : Type 0 where
  pub state : TrafficState
  pub write_mode : ℕ
  pub next_mode_loop_cycle : ℕ
  pub is_auto_mode : Bool
  pub motor_status : ℕ
  pub is_data_capture : Bool
  pub do_run : Bool
  pub data_capture_period : ℕ
  pub pending : List DataPacket
  pub fault : FaultState
  pub is_diviation_reported : Bool
  pub settings : Settings

abbrev pub data_capture_period_length : ℕ
data_capture_period_length = 5

-- The constructor and `Create`, at the start of `Run`.
abbrev pub created : Bool → ℕ → Settings → Processor
created one_shot now settings = record {
  state = process_ksu_traffic;
  write_mode = 0;
  next_mode_loop_cycle = now;
  is_auto_mode = false;
  motor_status = 0xff;
  is_data_capture = not one_shot;
  do_run = not one_shot;
  data_capture_period = data_capture_period_length;
  pending = [];
  fault = initial;
  is_diviation_reported = false;
  settings = settings;
}

-- `SendCustomCmd`.
unfoldable pub send_custom_cmd : DataPacket → Processor → Processor
send_custom_cmd cmd st = record st { pending = st.pending ++ (cmd ∷ []) }

-- `Start`, where its mutex is free.
abbrev pub start : Processor → Processor
start st = record st { do_run = true }

-- What a pass leaves, with the events and values that it reported, and the commands that it answered.
pub record Pass : Type 0 where
  pub after : Processor
  pub events : List DbEvent
  pub values : List DbDataPacket
  pub answers : List (DataPacket × Answer)

abbrev pub quiet : Processor → Pass
quiet st = record { after = st; events = []; values = []; answers = [] }

abbrev pub is_waiting : List DataPacket → Bool
is_waiting [] = false
is_waiting (cmd ∷ cmds) = true

module _ (table : List OffsetTableEntry) where
  -- Every fifth packet of the data capture is reported.
  unfoldable pub capture_data : DataPacket → Processor → Option Pass
  capture_data packet st =
      if not st.is_data_capture
      then some (quiet st)
      else if (st.data_capture_period + 1) % data_capture_period_length == 0
      then (do
        values ← report_data_packet table packet
        some (record {
          after = record st { data_capture_period = 0 };
          events = [];
          values = values;
          answers = [];
        }))
      else some (quiet (record st { data_capture_period = st.data_capture_period + 1 }))

  module _ (mktime : StationTime → ℕ) (limit : ℕ) (channel : Option ℕ) where
    -- A reply with information that leads to no capture.
    unfoldable pub report_info : ℕ → DataPacket → Processor → Option Pass
    report_info now packet st = do
      (fault, faults) ← check_and_report_fault channel packet st.fault
      (is_reported, times) ←
          check_and_report_time_diviation mktime limit channel now packet st.is_diviation_reported
      done ← capture_data packet (record st { fault = fault; is_diviation_reported = is_reported })
      some (record done { events = faults ++ times })

    -- The status of the motor and the mode of the station, from the first byte of the packet.
    abbrev pub with_status : ℕ → Processor → Processor
    with_status status st = record st { is_auto_mode = status / 2 % 2 == 1; motor_status = status }

    -- Before the first status, 0xFF, nothing is reported.
    abbrev pub status_events : ℕ → ℕ → ℕ → List DbEvent
    status_events now old new = if old == 0xff then [] else turned channel now old new

    abbrev pub behind : List DbEvent → Pass → Pass
    behind events done = record done { events = events ++ done.events }

    -- The branch of ACK_INFO.
    unfoldable pub on_info : ℕ → DataPacket → Processor → Option Pass
    on_info now packet st = do
      status ← get_elem? packet.bytes 0
      if need_capture (is_waiting st.pending) st.next_mode_loop_cycle now
          then some (
              behind (status_events now st.motor_status status)
                (quiet (record (with_status status st) { state = capture_device })))
          else (do
            done ← report_info now packet (with_status status st)
            some (behind (status_events now st.motor_status status) done))

    -- The branch of ACK_ALL_SETTINGS.
    unfoldable pub on_settings : ℕ → DataPacket → Processor → Option Pass
    on_settings now packet st = do
      (settings, events) ← check_settigs_changed channel now packet st.settings
      some (behind events (quiet (record st { settings = settings })))
