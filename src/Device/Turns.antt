-- ===== src/Device/Turns.antt =====
-- What ReportStationState of src/RitexDevice.cpp puts into the data base about the motor, written out.
use ritex.Base.{ℕ, ◌≡◌, refl, Option}
use Prim.Native.String.{String}
use ritex.Device.Event.{DbEvent, number, text}
use ritex.Device.Faults.{report_station_state}

abbrev pub motor_started : Option ℕ → ℕ → String → DbEvent
motor_started channel now source = record {
  type_id = 10;
  channel_id = channel;
  register_time = now;
  argument1 = number 1;
  argument2 = number 0;
  argument3 = text "ВД включен";
  argument4 = text source;
}

abbrev pub motor_stopped : Option ℕ → ℕ → String → DbEvent
motor_stopped channel now source = record {
  type_id = 10;
  channel_id = channel;
  register_time = now;
  argument1 = number 0;
  argument2 = number 1;
  argument3 = text "ВД выключен";
  argument4 = text source;
}

pub report_station_state-start :
    (channel : Option ℕ) (now : ℕ) (source : String)
    → report_station_state channel 1 0 now source ≡ motor_started channel now source
unfolding report_station_state
report_station_state-start channel now source = refl

pub report_station_state-stop :
    (channel : Option ℕ) (now : ℕ) (source : String)
    → report_station_state channel 0 1 now source ≡ motor_stopped channel now source
unfolding report_station_state
report_station_state-stop channel now source = refl
