-- ===== src/Commands.antt =====
-- The commands of a client as the device carries them out: the tables of src/RitexDevice.cpp,
-- `CreateExternalCommand`, `CreateCommand`, `ExecuteCustomCommand`, `StartMesurements` and `TestDevice`
-- there, `CreateCommand` of src/Device.cpp, `GetParameter` of src/CmdLineCommand.cpp, and the `Execute`
-- functions of the commands for the station. `none` is the end of the program: an assertion that fails,
-- a null pointer, or a parameter that is read as another type.
pub mod Table
pub mod Laws
pub mod Limit
pub mod Examples
use ritex.Base.{
  ℕ, ◌+◌, ◌*◌, ◌%◌, ◌^◌, Bool, true, false, ◌&&◌, Option, none, some, List, [], ◌∷◌, ◌==◌,
  if◌then◌else◌, ltb, length, get_elem?, ◌>>=◌, get_or, map,
}
use ritex.Protocol.{type_cmd, ksu_address}
use ritex.Protocol.Req
use ritex.Packet.{DataPacket, new_packet, fill, msb, lsb}
use ritex.Device.Table.{Setting, all_settings}
use ritex.Device.Settings.{Settings}
use ritex.CmdLine.Words.{Word, bytes_of, split}
use ritex.CmdLine.Command.{CommandType}
use ritex.CmdLine.Compile.{
  CompiledParameter, int_value, float_value, string_value, Compiled, get_compiled_parameter,
}
use ritex.Traffic.Run.State.{Processor, created, send_custom_cmd, start}
use ritex.Commands.Table.{
  CmdTemplate, CommandArg, AdapterCommand, setting_templates, vd_on_start, vd_on_reset, vd_on_tune,
  vd_rotate_left, vd_rotate_right, motor_templates, external_commands, find_command, find_template,
  list_val, Conversions, ExternalCommand, read_message, external_of, list_arg, float_arg,
}

-- `GetParameter` for an int: its result, and the variable after it. A text is no number.
abbrev int_of : ℕ → Option CompiledParameter → Option (Bool × ℕ)
int_of old none = some (false, old)
int_of old (some (int_value n)) = some (false, n)
int_of old (some (float_value n)) = some (false, n)
int_of old (some (string_value s)) = none

unfoldable pub get_int_parameter : Compiled → Word → ℕ → Option (Bool × ℕ)
get_int_parameter c name old = int_of old (get_compiled_parameter c name)

-- `GetParameter` for a text, whose variable is empty at first.
abbrev text_of : Option CompiledParameter → Option (Bool × Word)
text_of none = some (false, [])
text_of (some (int_value n)) = none
text_of (some (float_value n)) = none
text_of (some (string_value s)) = some (false, s)

unfoldable pub get_text_parameter : Compiled → Word → Option (Bool × Word)
get_text_parameter c name = text_of (get_compiled_parameter c name)

pub data DeviceCommand : Type 0 where
  start_measurement : Word → ℕ → DeviceCommand
  test_device : Word → ℕ → DeviceCommand
  external : Word → ℕ → ExternalCommand → DeviceCommand
  show_info : DeviceCommand
  show_parameters : DeviceCommand
  get_additional_parameters : DeviceCommand
  get_supported_commands : DeviceCommand

-- A command, if there is one, and `m_timeDiviation` after it.
pub record Created : Type 0 where
  pub command : Option DeviceCommand
  pub time_diviation : ℕ

abbrev pub plain : ℕ → DeviceCommand → Option Created
plain limit command = some (record { command = some command; time_diviation = limit })

-- `unset` is what the variable for the speed holds before it is set.
unfoldable pub create_external_command : Conversions → ℕ → ℕ → Compiled → Option Created
create_external_command n unset limit c = do
  (found, comm) ← get_text_parameter c (bytes_of "comdevice")
  (known, speed) ← get_int_parameter c (bytes_of "baudrate") unset
  e ← external_of n c.cmd_type c.message_raw
  plain limit (external comm speed e)

-- The minutes become seconds where `GetParameter` returned true.
abbrev pub time_limit : Bool × ℕ → ℕ
time_limit (true, value) = value * 60 % 2 ^ 32
time_limit (false, value) = value

unfoldable pub create_start_measurement : ℕ → ℕ → Compiled → Option Created
create_start_measurement unset limit c = do
  (found, comm) ← get_text_parameter c (bytes_of "comdevice")
  (known, speed) ← get_int_parameter c (bytes_of "baudrate") unset
  given ← get_int_parameter c (bytes_of "sync_time") limit
  plain (time_limit given) (start_measurement comm speed)

unfoldable pub create_test_device : ℕ → ℕ → Compiled → Option Created
create_test_device unset limit c = do
  (found, comm) ← get_text_parameter c (bytes_of "comdevice")
  (known, speed) ← get_int_parameter c (bytes_of "baudrate") unset
  plain limit (test_device comm speed)

unfoldable pub create_as : Conversions → ℕ → ℕ → CommandType → Compiled → Option Created
create_as n unset limit CommandType.get_mesurements c = create_start_measurement unset limit c
create_as n unset limit CommandType.test_device c = create_test_device unset limit c
create_as n unset limit CommandType.command c = create_external_command n unset limit c
create_as n unset limit CommandType.show_info c = plain limit show_info
create_as n unset limit CommandType.get_connected_device_info c = plain limit show_parameters
create_as n unset limit CommandType.get_additional_parameter_list c =
    plain limit get_additional_parameters
create_as n unset limit CommandType.list_commands c = plain limit get_supported_commands
create_as n unset limit CommandType.exit c =
    some (record { command = none; time_diviation = limit })

unfoldable pub create_command : Conversions → ℕ → ℕ → Compiled → Option Created
create_command n unset limit c = create_as n unset limit c.command_type c

-- The packet that `ExecuteCustomCommand` makes, for the commands that it supports.
unfoldable pub custom_packet : ℕ → ℕ → ℕ → ℕ → Option DataPacket
custom_packet now cmd p1 p2 =
    let packet = new_packet type_cmd ksu_address cmd now in
    if cmd == Req.setting_set
    then some (fill packet (p1 ∷ msb p2 ∷ lsb p2 ∷ []))
    else if cmd == Req.vd_on
    then some (fill packet (p1 ∷ []))
    else if cmd == Req.vd_off
    then some packet
    else if cmd == Req.vd_rotation
    then some (fill packet (p1 ∷ []))
    else none

-- The traffic of the device, once its port is open; `none` is a port of -1.
abbrev pub Traffic : Type 0
Traffic = Option Processor

-- `Create` where it is needed: `opens` tells whether the port can be opened.
abbrev pub with_port : Bool → ℕ → Settings → Traffic → Traffic
with_port opens now settings (some st) = some st
with_port true now settings none = some (created true now settings)
with_port false now settings none = none

abbrev pub sent_to : DataPacket → Traffic → Bool × Traffic
sent_to packet none = (false, none)
sent_to packet (some st) = (true, some (start (send_custom_cmd packet st)))

unfoldable pub execute_custom_command :
    Bool → ℕ → Settings → ExternalCommand → Traffic → Bool × Traffic
execute_custom_command opens now settings e traffic =
    elim (custom_packet now (e.cmd_id % 2 ^ 8) e.param1 e.param2) [
      | none ↦ (false, traffic)
      | some packet ↦ sent_to packet (with_port opens now settings traffic)
    ]

unfoldable pub start_mesurements : Bool → ℕ → Settings → Traffic → Bool × Traffic
start_mesurements opens now settings (some st) = (false, some st)
start_mesurements true now settings none = (true, some (created false now settings))
start_mesurements false now settings none = (false, none)

-- The request that tests the station.
unfoldable pub test_station : Bool → ℕ → Settings → Traffic → Bool × Traffic
test_station opens now settings (some st) = (false, some st)
test_station opens now settings none =
    sent_to (new_packet type_cmd ksu_address Req.info now) (with_port opens now settings none)
