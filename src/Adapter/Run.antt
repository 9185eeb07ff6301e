-- ===== src/Adapter/Run.antt =====
-- `Run` of src/Adapter.cpp behind the compiled command line: what is printed, what the parent does, and
-- what the daemon prepares before it serves.
use Prim.Native.String.{String}
use ritex.Base.{
  ℕ, ◌^◌, Bool, true, false, Option, none, some, List, [], ◌∷◌, ◌++◌, if◌then◌else◌, ltb, ◌>>=◌,
}
use ritex.CmdLine.Words.{Word, bytes_of}
use ritex.CmdLine.Compile.{Compiled}
use ritex.CmdLine.Options.{Options}
use ritex.Commands.Table.{Conversions}
use ritex.Commands.{
  DeviceCommand, start_measurement, test_device, external, create_command, get_int_parameter,
}
use ritex.Device.Channels.{device_channels}
use ritex.Device.Reports.{FilterItem}
use ritex.Listings.{ritex_sensor, show_info, show_parameters, get_additional_parameters}
use ritex.Listings.Commands.{supported_commands, get_supported_commands}
use ritex.Adapter.Process.{
  Calls, Context, context_error, context_parent, context_daemon, gone, become,
}
use ritex.Adapter.Client.{Talk, open_channel, run_client}

-- The rows of a query, a parameter and a channel in each; or the data base that cannot be opened, or a
-- query that cannot be prepared.
pub data Query : Type 0 where
  cannot_open not_prepared : Query
  rows : List (ℕ × ℕ) → Query

abbrev pub items_of : List (ℕ × ℕ) → List FilterItem
items_of [] = []
items_of ((param, channel) ∷ rest) =
    record { channel_id = channel; param_id = param } ∷ items_of rest

-- `UpdateParameterFilter`: the filter after it, or false. A query that cannot be prepared is no failure.
unfoldable pub update_parameter_filter : Query → List FilterItem → Option (List FilterItem)
update_parameter_filter cannot_open filter = none
update_parameter_filter not_prepared filter = some filter
update_parameter_filter (rows found) filter = some (filter ++ items_of found)

-- What the daemon meets: the two queries, the settings in the data base, and the threads of the loggers.
pub record Prepared : Type 0 where
  pub device_rows : Query
  pub all_rows : Query
  pub settings : Bool
  pub event_logger : Bool
  pub data_logger : Bool

-- Both threads, or none of the two loggers is kept.
unfoldable pub create_logger_facility : Bool → Bool → Bool
create_logger_facility event_logger data_logger = if event_logger then data_logger else false

-- `aborted` is the assertion on the device.
pub data DaemonEnd : Type 0 where
  aborted no_filter no_settings no_loggers served : DaemonEnd

pub record DaemonRun : Type 0 where
  pub end : DaemonEnd
  pub param_filter : List FilterItem
  pub filter_for_all : List FilterItem
  pub is_cleaned : Bool

abbrev ends : DaemonEnd → List FilterItem → List FilterItem → Bool → DaemonRun
ends end filter for_all cleaned = record {
  end = end;
  param_filter = filter;
  filter_for_all = for_all;
  is_cleaned = cleaned;
}

-- With both filters; the server is joined before the cleanup.
abbrev with_filters : Prepared → List FilterItem → List FilterItem → DaemonRun
with_filters p filter for_all =
    if p.settings
    then (if create_logger_facility p.event_logger p.data_logger
        then ends served filter for_all true
        else ends no_loggers filter for_all false)
    else ends no_settings filter for_all true

abbrev with_filter : Prepared → List FilterItem → Option (List FilterItem) → DaemonRun
with_filter p filter none = ends no_filter filter [] true
with_filter p filter (some for_all) = with_filters p filter for_all

abbrev from_filter : Prepared → Option (List FilterItem) → DaemonRun
from_filter p none = ends no_filter [] [] true
from_filter p (some filter) = with_filter p filter (update_parameter_filter p.all_rows [])

-- CONTEXT_DAEMON, from the assertion on.
unfoldable pub daemon_run : ℕ → Prepared → DaemonRun
daemon_run device_id p =
    if ltb 0 device_id
    then from_filter p (update_parameter_filter p.device_rows [])
    else ends aborted [] [] false

-- What is outside of `Run`.
pub record World : Type 0 where
  pub conversions : Conversions
  pub show_float : ℕ → Word
  pub unset : ℕ
  pub time_diviation : ℕ
  pub version : String
  pub options : Options
  pub args : List Word
  pub calls : Calls
  pub socket : Bool
  pub connected : List Bool
  pub before_length : Word
  pub before : ℕ → Word
  pub pieces : List Word
  pub prepared : Prepared

-- `returned` is the result of `Run`, true for 0, behind what was printed.
pub data Ended : Type 0 where
  returned : Bool → Word → Ended
  exit_failure exit_success : Ended
  in_parent : Talk → Ended
  in_daemon : DaemonRun → Ended

-- `isHWCommand`.
abbrev pub is_hw_command : DeviceCommand → Bool
is_hw_command (start_measurement comm speed) = true
is_hw_command (test_device comm speed) = true
is_hw_command (external comm speed e) = true
is_hw_command command = false

-- `Execute` of a command that prints a table: its result, and the table.
abbrev pub execute_table : World → DeviceCommand → Ended
execute_table w DeviceCommand.show_info =
    returned true (show_info "Ritex" w.version "Ritex adapter" device_channels (ritex_sensor ∷ []))
execute_table w DeviceCommand.show_parameters =
    returned true (show_parameters device_channels (ritex_sensor ∷ []))
execute_table w DeviceCommand.get_additional_parameters =
    returned true (get_additional_parameters w.show_float w.options)
execute_table w DeviceCommand.get_supported_commands =
    returned false (get_supported_commands supported_commands)
execute_table w command = returned false []

abbrev pub in_context : World → ℕ → Context → Ended
in_context w device_id context_error = exit_failure
in_context w device_id gone = exit_success
in_context w device_id context_parent =
    in_parent
      (run_client (open_channel w.socket w.connected) w.before_length w.before w.args w.pieces)
in_context w device_id context_daemon = in_daemon (daemon_run device_id w.prepared)

-- A command for the station; a device is negative from 2 ^ 31 on.
abbrev pub on_hardware : World → ℕ → Ended
on_hardware w device_id =
    if ltb device_id (2 ^ 31) then in_context w device_id (become w.calls) else returned false []

abbrev pub with_command : World → ℕ → Option DeviceCommand → Ended
with_command w device_id none = returned false []
with_command w device_id (some command) =
    if is_hw_command command then on_hardware w device_id else execute_table w command

-- The level of the log, where it was set, and the end. `none` is the end of the program.
unfoldable pub run_compiled : World → Compiled → Option (ℕ × Ended)
run_compiled w c = do
  (known, level) ← get_int_parameter c (bytes_of "debug") 0
  created ← create_command w.conversions w.unset w.time_diviation c
  some (level, with_command w c.device_id created.command)

abbrev pub run_adapter : World → Option Compiled → Option (ℕ × Ended)
run_adapter w none = some (0, returned true [])
run_adapter w (some c) = run_compiled w c
