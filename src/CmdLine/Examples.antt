-- ===== src/CmdLine/Examples.antt =====
-- The command line at concrete inputs.
use ritex.Base.{ℕ, ◌+◌, ◌*◌, ◌-◌, ◌≡◌, refl, none, some, List, [], ◌∷◌, ◌>>=◌, arith, ◌<◌}
use ritex.CmdLine.Words.{Word, bytes_of}
use ritex.CmdLine.Command.{CmdLineCommand, order, find, assign, add_parameter}
use ritex.CmdLine.Parser.{Token, Result, accepted, parse, parse_loop, step}
use ritex.CmdLine.Parser.Laws.{parse_ends}
use ritex.CmdLine.Parser.Grammar.{
  Param, Line, write_line, write_params, IsLine, command_of, with_params,
}
use ritex.CmdLine.Parser.RoundTrip.{parse-write_line}
use ritex.CmdLine.Parser.Complete.{parse_accepts}
use ritex.CmdLine.Compile.{
  int_value, Numbers, compile, Compiled, compile_known, get_compiled_parameter, compile_int,
  compile_parameter, in_list, compile_parameters, compile_values, is_parameter_exists,
  has_required_parameters,
}
use ritex.CmdLine.Compile.Lines.{params_of, last_given, get_compiled_parameter-parse}
use ritex.CmdLine.Options.{
  adapter_options, add_int_parameter, add_string_parameter, add_list_parameter,
}

-- -r 7 -sp /s -a comdevice /dev/ttySC1 -a baudrate 300 -a baudrate 1200
abbrev pub param : Word → Word → Param
param name value = record { name = name; value = value; passed = [] }

abbrev pub measure_line : Line
measure_line =
    Line.measure (bytes_of "7") (bytes_of "/s")
      (param (bytes_of "comdevice") (bytes_of "/dev/ttySC1"))
      (param (bytes_of "baudrate") (bytes_of "300")
        ∷ param (bytes_of "baudrate") (bytes_of "1200")
        ∷ [])

measure_line_tokens :
    write_line measure_line
    ≡ Token.short_option b'r'
      ∷ Token.word (bytes_of "7")
      ∷ Token.long_option 1
      ∷ Token.word (bytes_of "/s")
      ∷ Token.short_option b'a'
      ∷ Token.word (bytes_of "comdevice")
      ∷ Token.word (bytes_of "/dev/ttySC1")
      ∷ Token.short_option b'a'
      ∷ Token.word (bytes_of "baudrate")
      ∷ Token.word (bytes_of "300")
      ∷ Token.short_option b'a'
      ∷ Token.word (bytes_of "baudrate")
      ∷ Token.word (bytes_of "1200")
      ∷ []
unfolding write_line write_params
measure_line_tokens = refl

-- The digits of a number, which stand for the library's functions here.
abbrev digits_from : ℕ → Word → ℕ
digits_from k [] = k
digits_from k (c ∷ s) = digits_from (k * 10 + (c - 48)) s

abbrev pub decimal : Numbers
decimal = record { strtol = digits_from 0; strtod = digits_from 0 }

abbrev pub measure_parsed : CmdLineCommand
measure_parsed = command_of measure_line

parse_ends_example :
    (result : Result) × ((rounds : ℕ)
      → 3 < rounds
      → parse rounds (Token.long_option 0 ∷ Token.word [] ∷ Token.short_option 63 ∷ [])
        ≡ some result)
parse_ends_example = parse_ends (Token.long_option 0 ∷ Token.word [] ∷ Token.short_option 63 ∷ [])

parse-write_line_example :
    parse 14 (write_line measure_line) ≡ some (accepted (command_of measure_line))
unfolding write_line write_params
parse-write_line_example = parse-write_line measure_line 14 (tt, (tt, (tt, tt))) (omega arith)

-- What stands behind -cmd is passed over up to a word.
abbrev list_tokens : List Token
list_tokens = Token.long_option 0 ∷ Token.short_option 63 ∷ Token.long_option 2 ∷ []

list_parsed :
    parse 9 list_tokens
    ≡ some
        (accepted (command_of (Line.commands (Token.short_option 63 ∷ Token.long_option 2 ∷ []))))
unfolding parse parse_loop step command_of
list_parsed = refl

parse_accepts_example :
    (line : Line) × IsLine line
    × (write_line line ≡ list_tokens)
    × (command_of line
        ≡ command_of (Line.commands (Token.short_option 63 ∷ Token.long_option 2 ∷ [])))
parse_accepts_example = parse_accepts list_tokens 9 _ (omega arith) list_parsed

-- The arguments of a program, joined and split.
abbrev args : List Word
args = bytes_of "ritex" ∷ bytes_of "" ∷ bytes_of "-r" ∷ bytes_of "7" ∷ []

measured : (d : Compiled) × (compile decimal 0 adapter_options (command_of measure_line) ≡ some d)
unfolding compile command_of with_params add_parameter assign order find compile_known
    compile_parameter compile_int in_list compile_parameters compile_values is_parameter_exists
    has_required_parameters adapter_options add_int_parameter add_string_parameter
    add_list_parameter
measured = (_, refl)

get_compiled_parameter-parse_example : get_compiled_parameter measured.0 (bytes_of "baudrate") ≡ (
    last_given (params_of measure_line) (bytes_of "baudrate") none >>= λ value.
    compile_known decimal adapter_options (bytes_of "baudrate") value)
unfolding write_line write_params
get_compiled_parameter-parse_example =
    get_compiled_parameter-parse decimal 0 adapter_options measure_line 14 (command_of measure_line)
      measured.0 (bytes_of "baudrate") (tt, (tt, (tt, tt))) (omega arith)
      (parse-write_line measure_line 14 (tt, (tt, (tt, tt))) (omega arith)) measured.1

baudrate_taken : get_compiled_parameter measured.0 (bytes_of "baudrate") ≡ some (int_value 1200)
unfolding measured get_compiled_parameter find order
baudrate_taken = refl
