-- ===== src/CmdLine/Parser/Grammar.antt =====
-- The lines that `Parse` accepts, as a grammar: each line, how it is written, and the command that it
-- stands for.
use ritex.Base.{Bool, true, false, List, [], ◌∷◌, ◌++◌, ◌≡◌, ◌==◌, All}
use ritex.CmdLine.Words.{Word}
use ritex.CmdLine.Command.{CommandType, CmdLineCommand, new_command, add_parameter}
use ritex.CmdLine.Parser.{Token}

abbrev pub is_word : Token → Bool
is_word (Token.word w) = true
is_word (Token.long_option i) = false
is_word (Token.short_option c) = false

abbrev pub is_a : Token → Bool
is_a (Token.short_option c) = c == b'a'
is_a (Token.long_option i) = false
is_a (Token.word w) = false

abbrev pub NoWords : List Token → Type 0
NoWords = All (λ token. is_word token ≡ false)

abbrev pub NoA : List Token → Type 0
NoA = All (λ token. is_a token ≡ false)

-- -a name value, and what the parser passes over behind it.
pub record Param : Type 0 where
  pub name : Word
  pub value : Word
  pub passed : List Token

pub data Line : Type 0 where
  info : Line
  additional : Line
  exit : Line
  devices : List Param → Line
  commands : List Token → Line
  test : Param → List Param → Line
  measure : Word → Word → Param → List Param → Line
  command : List Token → Word → Word → Word → Word → Word → Word → Param → List Param → Line

abbrev pub write_param : Param → List Token → List Token
write_param q rest =
    Token.short_option b'a' ∷ (Token.word q.name ∷ (Token.word q.value ∷ (q.passed ++ rest)))

unfoldable pub write_params : List Param → List Token
write_params [] = []
write_params (q ∷ qs) = write_param q (write_params qs)

unfoldable pub write_line : Line → List Token
write_line Line.info = Token.short_option b'p' ∷ []
write_line Line.additional = Token.short_option b'a' ∷ []
write_line Line.exit = Token.long_option 2 ∷ []
write_line (Line.devices qs) = Token.short_option b'd' ∷ write_params qs
write_line (Line.commands passed) = Token.long_option 0 ∷ passed
write_line (Line.test q qs) = Token.short_option b't' ∷ write_params (q ∷ qs)
write_line (Line.measure device path q qs) =
    Token.short_option b'r'
    ∷ (Token.word device ∷ (Token.long_option 1 ∷ (Token.word path ∷ write_params (q ∷ qs))))
write_line (Line.command passed device type message source id path q qs) =
    Token.long_option 0
    ∷ (passed
        ++ (Token.word device
            ∷ (Token.word type
                ∷ (Token.word message
                    ∷ (Token.word source
                        ∷ (Token.word id
                            ∷ (Token.long_option 1
                                ∷ (Token.word path ∷ write_params (q ∷ qs)))))))))

-- What is passed over holds no word behind -cmd, and no -a behind a value.
abbrev pub IsParam : Param → Type 0
IsParam q = NoA q.passed

abbrev pub IsLine : Line → Type 0
IsLine Line.info = Unit
IsLine Line.additional = Unit
IsLine Line.exit = Unit
IsLine (Line.devices qs) = All IsParam qs
IsLine (Line.commands passed) = NoWords passed
IsLine (Line.test q qs) = All IsParam (q ∷ qs)
IsLine (Line.measure device path q qs) = All IsParam (q ∷ qs)
IsLine (Line.command passed device type message source id path q qs) =
    NoWords passed × All IsParam (q ∷ qs)

unfoldable pub with_params : List Param → CmdLineCommand → CmdLineCommand
with_params [] c = c
with_params (q ∷ qs) c = with_params qs (add_parameter q.name q.value c)

unfoldable pub command_of : Line → CmdLineCommand
command_of Line.info = record new_command { command_type = CommandType.show_info }
command_of Line.additional = record new_command {
  command_type = CommandType.get_additional_parameter_list;
}
command_of Line.exit = record new_command { command_type = CommandType.exit }
command_of (Line.devices qs) =
    with_params qs (record new_command { command_type = CommandType.get_connected_device_info })
command_of (Line.commands passed) = record new_command { command_type = CommandType.list_commands }
command_of (Line.test q qs) =
    with_params (q ∷ qs) (record new_command { command_type = CommandType.test_device })
command_of (Line.measure device path q qs) = with_params (q ∷ qs) (record new_command {
  command_type = CommandType.get_mesurements;
  device_id_raw = device;
  script_path_raw = path;
})
command_of (Line.command passed device type message source id path q qs) =
    with_params (q ∷ qs) (record new_command {
      command_type = CommandType.command;
      device_id_raw = device;
      cmd_type_raw = type;
      message_raw = message;
      source_raw = source;
      cmd_id_raw = id;
      script_path_raw = path;
    })
