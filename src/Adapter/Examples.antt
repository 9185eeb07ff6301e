-- ===== src/Adapter/Examples.antt =====
-- A test of the station that starts the daemon, a response that is printed, and the locks of two devices.
use ritex.Base.{
  ◌<◌, ◌^◌, ◌≡◌, ◌≢◌, refl, true, false, some, [], ◌∷◌, ◌++◌, arith, length, if◌then◌else◌,
}
use ritex.CmdLine.Words.{bytes_of}
use ritex.CmdLine.Command.{CommandType, order, find}
use ritex.CmdLine.Compile.{Compiled, int_value, string_value, get_compiled_parameter}
use ritex.Commands.{
  DeviceCommand, Created, create_command, create_as, create_test_device, get_text_parameter,
  get_int_parameter,
}
use ritex.Daemon.Frame.{envelope}
use ritex.Adapter.Process.{
  Host, Calls, in_child, context_daemon, context_parent, contexts, daemons, first_context,
  all_succeed, become, contexts-daemons,
}
use ritex.Adapter.Client.{client_output, client_output-envelope}
use ritex.Adapter.Run.{
  rows, World, DaemonRun, in_daemon, run_compiled, daemon_run, update_parameter_filter,
  create_logger_facility, is_hw_command,
}
use ritex.Adapter.Laws.{IsReady, run_compiled-served}

abbrev working : Host
working = record {
  lock = true;
  first_fork = true;
  setsid = true;
  second_fork = true;
  standard_in = true;
  standard_out = true;
  standard_error = true;
}

contexts-daemons_example :
    (first_context (contexts working) ≢ context_daemon)
    × ((daemons (contexts working) ≡ (if all_succeed working then 1 else 0))
        × (working.lock ≡ false → contexts working ≡ context_parent ∷ []))
contexts-daemons_example = contexts-daemons working

client_output-envelope_example :
    client_output (9 ∷ 9 ∷ 9 ∷ 9 ∷ []) (λ n. []) (envelope (bytes_of "8;ok" ++ (0 ∷ [])) ∷ [])
    ≡ some (bytes_of "8;ok")
client_output-envelope_example =
    client_output-envelope (bytes_of "8;ok") (9 ∷ 9 ∷ 9 ∷ 9 ∷ []) (λ n. []) []
      (refl, (refl, (refl, (refl, tt)))) (omega arith)

abbrev test_line : Compiled
test_line = record {
  command_type = CommandType.test_device;
  device_id_raw = bytes_of "7";
  message_raw = [];
  additional_parameters =
      (bytes_of "baudrate", int_value 1200)
      ∷ (bytes_of "comdevice", string_value (bytes_of "/dev/ttySC1"))
      ∷ [];
  device_id = 7;
  cmd_id = 0;
  cmd_type = 0;
}

abbrev in_daemon_calls : Calls
in_daemon_calls = record {
  lock = true;
  first_fork = in_child;
  setsid = true;
  second_fork = in_child;
  standard_in = true;
  standard_out = true;
  standard_error = true;
}

-- Two channels of the device are on, and one more of another.
abbrev world : World
world = record {
  conversions = record { atoi = length; atof_ushort = length };
  show_float = λ n. [];
  unset = 0;
  time_diviation = 60;
  version = "v0.1.17 alpha";
  options = [];
  args = [];
  calls = in_daemon_calls;
  socket = true;
  connected = [];
  before_length = [];
  before = λ n. [];
  pieces = [];
  prepared = record {
    device_rows = rows ((1050100150, 2) ∷ (1050000020, 3) ∷ []);
    all_rows = rows ((1050100150, 2) ∷ (1050000020, 3) ∷ (1050100150, 9) ∷ []);
    settings = true;
    event_logger = true;
    data_logger = true;
  };
}

abbrev tested : (d : DaemonRun) × (run_compiled world test_line ≡ some (0, in_daemon d))
unfolding run_compiled create_command create_as create_test_device get_text_parameter
    get_int_parameter get_compiled_parameter find order become daemon_run update_parameter_filter
    create_logger_facility
tested = (_, refl)

run_compiled-served_example :
    (become world.calls ≡ context_daemon)
    × ((test_line.device_id < 2 ^ 31)
        × (IsReady test_line.device_id world.prepared tested.0
            × ((created : Created) × ((create_command world.conversions world.unset
                      world.time_diviation test_line
                    ≡ some created)
                  × ((command : DeviceCommand) × ((created.command ≡ some command)
                        × (is_hw_command command ≡ true)))))))
unfolding tested daemon_run update_parameter_filter create_logger_facility
run_compiled-served_example = run_compiled-served world test_line 0 tested.0 tested.1 refl
