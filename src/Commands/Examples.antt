-- ===== src/Commands/Examples.antt =====
-- Commands of a client at concrete inputs.
use ritex.Base.{ℕ, ◌+◌, ◌%◌, ◌^◌, ◌≡◌, refl, some, [], ◌∷◌, arith}
use ritex.Protocol.{type_cmd, is_length_matches}
use ritex.Packet.{DataPacket, size}
use ritex.CmdLine.Words.{Word, bytes_of, split}
use ritex.CmdLine.Command.{CommandType, find, order, assign, add_parameter}
use ritex.CmdLine.Parser.Grammar.{Line, write_line, write_params, command_of, with_params}
use ritex.CmdLine.Parser.RoundTrip.{parse-write_line}
use ritex.CmdLine.Compile.{
  int_value, string_value, Compiled, compile, get_compiled_parameter, compile_int, compile_known,
  compile_parameter, in_list, compile_parameters, compile_values, is_parameter_exists,
  has_required_parameters,
}
use ritex.CmdLine.Compile.Lines.{last_given}
use ritex.CmdLine.Options.{
  adapter_options, add_int_parameter, add_string_parameter, add_list_parameter,
}
use ritex.CmdLine.Examples.{decimal, param}
use ritex.Commands.Table.{
  Conversions, ExternalCommand, external_of, read_message, find_command, find_template,
}
use ritex.Commands.{
  Created, external, custom_packet, create_external_command, get_int_parameter, get_text_parameter,
  create_command, create_as, create_start_measurement,
}
use ritex.Commands.Laws.{create_external_command-is_length_matches}
use ritex.Commands.Limit.{create_command-sync_time}

abbrev conversions : Conversions
conversions = record { atoi = decimal.strtol; atof_ushort = decimal.strtol }

-- The setting 33 becomes 8.
abbrev set_33 : Compiled
set_33 = record {
  command_type = CommandType.command;
  device_id_raw = bytes_of "7";
  message_raw = bytes_of "33~8";
  additional_parameters =
      (bytes_of "baudrate", int_value 1200)
      ∷ (bytes_of "comdevice", string_value (bytes_of "/dev/ttySC1"))
      ∷ [];
  device_id = 7;
  cmd_id = 1;
  cmd_type = 24;
}

abbrev set_33_created : (r : Created) × (create_external_command conversions 0 60 set_33 ≡ some r)
unfolding create_external_command get_text_parameter get_int_parameter get_compiled_parameter find
    order external_of find_command split read_message find_template
set_33_created = (_, refl)

create_external_command-is_length_matches_example :
    (comm : Word) × (speed : ℕ) × (e : ExternalCommand) × (packet : DataPacket)
    × (set_33_created.0.command ≡ some (external comm speed e))
    × (custom_packet 100 (e.cmd_id % 2 ^ 8) e.param1 e.param2 ≡ some packet)
    × (is_length_matches packet.cmd (size packet + 1) ≡ some type_cmd)
create_external_command-is_length_matches_example =
    create_external_command-is_length_matches conversions 0 60 100 set_33 set_33_created.0
      set_33_created.1

-- Five minutes are asked for.
abbrev sync_line : Line
sync_line =
    Line.measure (bytes_of "7") (bytes_of "/s")
      (param (bytes_of "comdevice") (bytes_of "/dev/ttySC1"))
      (param (bytes_of "baudrate") (bytes_of "1200")
        ∷ param (bytes_of "sync_time") (bytes_of "5")
        ∷ [])

abbrev sync_compiled :
    (d : Compiled) × (compile decimal 0 adapter_options (command_of sync_line) ≡ some d)
unfolding compile command_of with_params add_parameter assign order find compile_known
    compile_parameter compile_int in_list compile_parameters compile_values is_parameter_exists
    has_required_parameters adapter_options add_int_parameter add_string_parameter
    add_list_parameter
sync_compiled = (_, refl)

abbrev sync_created : (r : Created) × (create_command conversions 0 60 sync_compiled.0 ≡ some r)
unfolding sync_compiled create_command create_as create_start_measurement get_text_parameter
    get_int_parameter get_compiled_parameter find order
sync_created = (_, refl)

create_command-sync_time_example : sync_created.0.time_diviation ≡ 5
unfolding write_line write_params last_given order compile_int sync_compiled
create_command-sync_time_example =
    create_command-sync_time decimal conversions 0 0 60 14 5 sync_line (command_of sync_line)
      sync_compiled.0 (bytes_of "5") sync_created.0 (tt, (tt, (tt, tt))) (omega arith)
      (parse-write_line sync_line 14 (tt, (tt, (tt, tt))) (omega arith)) sync_compiled.1 refl refl
      refl sync_created.1
