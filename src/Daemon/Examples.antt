-- ===== src/Daemon/Examples.antt =====
-- The daemon at concrete inputs.
use ritex.Base.{false, ℕ, suc, ◌≡◌, refl, some, List, [], ◌∷◌, arith, if◌then◌else◌}
use ritex.CmdLine.Words.{Word, bytes_of, get_cmd_line}
use ritex.CmdLine.Parser.{Token}
use ritex.CmdLine.Compile.{same_word}
use ritex.CmdLine.Parser.{parse, parse_loop, step}
use ritex.CmdLine.Command.{add_parameter, assign, order, find}
use ritex.CmdLine.Compile.{
  compile, compile_parameters, compile_known, compile_parameter, in_list, compile_int,
  compile_values, has_required_parameters, is_parameter_exists, get_compiled_parameter,
}
use ritex.Commands.{
  create_command, create_as, create_test_device, get_text_parameter, get_int_parameter,
}
use ritex.Daemon.Frame.{envelope}
use ritex.CmdLine.Options.{
  add_int_parameter, add_string_parameter, add_list_parameter, adapter_options,
}
use ritex.CmdLine.Examples.{decimal}
use ritex.Daemon.{Outside, Server, result, serve}
use ritex.Daemon.Laws.{IsCarried, handle_all, packets, finish, serve-packets}

-- The options of these examples, as getopt_long_only tells them.
abbrev token_of : Word → Token
token_of w =
    if same_word w (bytes_of "-t")
    then Token.short_option b't'
    else if same_word w (bytes_of "-a")
    then Token.short_option b'a'
    else if same_word w (bytes_of "-r")
    then Token.short_option b'r'
    else Token.word w

abbrev tokens_of : List Word → List Token
tokens_of [] = []
tokens_of (w ∷ words) = token_of w ∷ tokens_of words

abbrev behind_name : List Word → List Token
behind_name [] = []
behind_name (name ∷ words) = tokens_of words

-- A device that counts its commands and carries out each of them.
abbrev outside : Outside ℕ
outside = record {
  getopt = behind_name;
  numbers = decimal;
  conversions = record { atoi = decimal.strtol; atof_ushort = decimal.strtol };
  random = λ device. 4;
  unset = λ device. 0;
  options = adapter_options;
  execute = λ device command. (suc device, result (bytes_of "8;OK"));
}

abbrev idle : Server ℕ
idle = record { device = 0; time_diviation = 60; responses = [] }

-- A test of the station, and a line that is no command.
abbrev test_args : List Word
test_args =
    bytes_of "ritex"
    ∷ bytes_of "-t"
    ∷ bytes_of "-a"
    ∷ bytes_of "comdevice"
    ∷ bytes_of "/dev/ttySC1"
    ∷ bytes_of "-a"
    ∷ bytes_of "baudrate"
    ∷ bytes_of "1200"
    ∷ []

abbrev bad_args : List Word
bad_args = bytes_of "ritex" ∷ bytes_of "-r" ∷ []

test_args-IsCarried : IsCarried test_args
unfolding get_cmd_line
test_args-IsCarried = record {
  plain = ground arith;
  named = λ h. absurd (cc h);
  clean = ground arith;
  small = omega arith;
}

bad_args-IsCarried : IsCarried bad_args
unfolding get_cmd_line
bad_args-IsCarried = record {
  plain = ground arith;
  named = λ h. absurd (cc h);
  clean = ground arith;
  small = omega arith;
}

serve-packets_example :
    serve outside 3 idle (record { incoming = packets (test_args ∷ bad_args ∷ []); fails = false })
    ≡ finish (handle_all outside idle (test_args ∷ bad_args ∷ []))
serve-packets_example =
    serve-packets outside (test_args ∷ bad_args ∷ []) 3 idle
      (test_args-IsCarried, (bad_args-IsCarried, tt)) (omega arith)

tested :
    handle_all outside idle (test_args ∷ [])
    ≡ some (record {
      device = 1;
      time_diviation = 60;
      responses = (5 ∷ 0 ∷ 0 ∷ 0 ∷ b'8' ∷ b';' ∷ b'O' ∷ b'K' ∷ 0 ∷ []) ∷ [];
    })
unfolding parse parse_loop step add_parameter assign order compile compile_parameters compile_known
    find adapter_options add_int_parameter add_string_parameter add_list_parameter compile_parameter
    in_list compile_int compile_values has_required_parameters is_parameter_exists create_command
    create_as create_test_device get_text_parameter get_int_parameter get_compiled_parameter
    envelope
tested = refl
