-- ===== src/CmdLine/Parser.antt =====
-- `Parse` of src/CmdLineParser.cpp: a state machine on what `getopt_long_only` tells of the command
-- line, one function for each state that takes an option.
pub mod Laws
pub mod Grammar
pub mod RoundTrip
pub mod Params
pub mod Words
pub mod Complete
use ritex.Base.{
  ℕ, zero, suc, Bool, true, false, Option, none, some, List, [], ◌∷◌, ◌==◌, if◌then◌else◌,
}
use ritex.CmdLine.Words.{Word}
use ritex.CmdLine.Command.{
  CommandType, CmdLineCommand, new_command, add_parameter, set_cmd_line_cmd_type, set_device_id,
}

-- What a call of `getopt_long_only` gives: 0 with the index of a long option, the letter of a short one
-- (`?` for one that is not known), or 1 with a word that is no option in `optarg`. The end of the line,
-- -1, is `none` below.
pub data Token : Type 0 where
  long_option : ℕ → Token
  short_option : ℕ → Token
  word : Word → Token

abbrev pub opt_index_cmd : ℕ
opt_index_cmd = 0

abbrev pub opt_index_sp : ℕ
opt_index_sp = 1

abbrev pub opt_index_exit : ℕ
opt_index_exit = 2

pub data State : Type 0 where
  first : State
  a_first : State
  a_list : State
  a_name : State
  a_value : State
  p : State
  d : State
  r : State
  r_devid : State
  t : State
  cmd : State
  cmd_devid : State
  cmd_type : State
  cmd_msg : State
  cmd_src : State
  cmd_id : State
  sp : State
  sp_path : State
  on_exit : State

pub record Parser : Type 0 where
  pub state : State
  pub last_arg_name : Word
  pub command : CmdLineCommand

-- A pass through the body of the loop: the next one, `return true`, or an error.
pub data Pass : Type 0 where
  next : Parser → Pass
  accept : CmdLineCommand → Pass
  reject : CmdLineCommand → Pass

-- The next state.
abbrev pub to : State → Parser → Pass
to state m = Pass.next (record m { state = state })

-- The next state, with what the word did to the command.
abbrev pub to_with : State → CmdLineCommand → Parser → Pass
to_with state command m = Pass.next (record m { state = state; command = command })

abbrev pub error : Parser → Pass
error m = Pass.reject m.command

-- `return true`, after the type of the command is set.
abbrev pub done_as : CommandType → Parser → Pass
done_as type m = Pass.accept (set_cmd_line_cmd_type type m.command)

abbrev pub letter_first : ℕ → Parser → Pass
letter_first c m =
    if c == b'p'
    then to State.p m
    else if c == b'a'
    then to State.a_first m
    else if c == b'd'
    then to State.d m
    else if c == b'r'
    then to State.r m
    else if c == b't'
    then to State.t m
    else error m

abbrev pub long_first : ℕ → Parser → Pass
long_first i m =
    if i == opt_index_cmd
    then to State.cmd m
    else if i == opt_index_exit
    then to State.on_exit m
    else error m

abbrev pub on_first : Option Token → Parser → Pass
on_first (some (Token.long_option i)) m = long_first i m
on_first (some (Token.short_option c)) m = letter_first c m
on_first (some (Token.word w)) m = error m
on_first none m = error m

-- The options that stand alone: the end of the line is expected.
abbrev pub on_alone : CommandType → Option Token → Parser → Pass
on_alone type none m = done_as type m
on_alone type (some token) m = error m

-- Only the end and a word are handled here: after any other option the state stays.
abbrev pub on_cmd : Option Token → Parser → Pass
on_cmd none m = done_as CommandType.list_commands m
on_cmd (some (Token.word w)) m =
    to_with State.cmd_devid (set_device_id w (set_cmd_line_cmd_type CommandType.command m.command))
      m
on_cmd (some (Token.long_option i)) m = Pass.next m
on_cmd (some (Token.short_option c)) m = Pass.next m

-- The states that take one word: `store` puts it into the command.
abbrev pub on_word : State → (Word → CmdLineCommand) → Option Token → Parser → Pass
on_word state store (some (Token.word w)) m = to_with state (store w) m
on_word state store (some (Token.long_option i)) m = error m
on_word state store (some (Token.short_option c)) m = error m
on_word state store none m = error m

-- The states that take -sp.
abbrev pub on_expect_sp : Option Token → Parser → Pass
on_expect_sp (some (Token.long_option i)) m = if i == opt_index_sp then to State.sp m else error m
on_expect_sp (some (Token.short_option c)) m = error m
on_expect_sp (some (Token.word w)) m = error m
on_expect_sp none m = error m

-- The states that take -a and nothing else.
abbrev pub on_expect_a : Option Token → Parser → Pass
on_expect_a (some (Token.short_option c)) m = if c == b'a' then to State.a_name m else error m
on_expect_a (some (Token.long_option i)) m = error m
on_expect_a (some (Token.word w)) m = error m
on_expect_a none m = error m

abbrev pub typed : CommandType → Parser → Parser
typed type m = record m { command = set_cmd_line_cmd_type type m.command }

-- -d sets the type of the command before it looks at the option; its list may be left out.
abbrev pub on_d : Option Token → Parser → Pass
on_d none m = Pass.accept m.command
on_d (some token) m = on_expect_a (some token) m

-- After a value: one more -a, or the end. Any other option is passed over.
abbrev pub on_a_list : Option Token → Parser → Pass
on_a_list none m = Pass.accept m.command
on_a_list (some (Token.short_option c)) m = if c == b'a' then to State.a_name m else Pass.next m
on_a_list (some (Token.long_option i)) m = Pass.next m
on_a_list (some (Token.word w)) m = Pass.next m

abbrev pub on_a_name : Option Token → Parser → Pass
on_a_name (some (Token.word w)) m =
    Pass.next (record m { state = State.a_value; last_arg_name = w })
on_a_name (some (Token.long_option i)) m = error m
on_a_name (some (Token.short_option c)) m = error m
on_a_name none m = error m

abbrev pub step_in : State → Option Token → Parser → Pass
step_in State.first c m = on_first c m
step_in State.a_first c m = on_alone CommandType.get_additional_parameter_list c m
step_in State.p c m = on_alone CommandType.show_info c m
step_in State.cmd c m = on_cmd c m
step_in State.cmd_devid c m =
    on_word State.cmd_type (λ w. record m.command { cmd_type_raw = w }) c m
step_in State.cmd_type c m = on_word State.cmd_msg (λ w. record m.command { message_raw = w }) c m
step_in State.cmd_msg c m = on_word State.cmd_src (λ w. record m.command { source_raw = w }) c m
step_in State.cmd_src c m = on_word State.cmd_id (λ w. record m.command { cmd_id_raw = w }) c m
step_in State.cmd_id c m = on_expect_sp c m
step_in State.t c m = on_expect_a c (typed CommandType.test_device m)
step_in State.d c m = on_d c (typed CommandType.get_connected_device_info m)
step_in State.a_list c m = on_a_list c m
step_in State.a_name c m = on_a_name c m
step_in State.a_value c m =
    on_word State.a_list (λ w. add_parameter m.last_arg_name w m.command) c m
step_in State.r c m =
    on_word State.r_devid
      (λ w. set_device_id w (set_cmd_line_cmd_type CommandType.get_mesurements m.command)) c m
step_in State.r_devid c m = on_expect_sp c m
step_in State.sp c m = on_word State.sp_path (λ w. record m.command { script_path_raw = w }) c m
step_in State.sp_path c m = on_expect_a c m
step_in State.on_exit c m = on_alone CommandType.exit c m

unfoldable pub step : Option Token → Parser → Pass
step c m = step_in m.state c m

-- What `Parse` returns, and the command that it leaves.
pub data Result : Type 0 where
  accepted : CmdLineCommand → Result
  rejected : CmdLineCommand → Result

-- The loop: each round takes one call of `getopt_long_only`, which tells the end again and again once it
-- is reached. `none`: the rounds did not suffice.
unfoldable pub parse_loop : ℕ → List Token → Parser → Option Result
parse_loop zero tokens m = none
parse_loop (suc rounds) [] m = elim (step none m) [
  | Pass.next m' ↦ parse_loop rounds [] m'
  | Pass.accept c ↦ some (accepted c)
  | Pass.reject c ↦ some (rejected c)
]
parse_loop (suc rounds) (token ∷ tokens) m = elim (step (some token) m) [
  | Pass.next m' ↦ parse_loop rounds tokens m'
  | Pass.accept c ↦ some (accepted c)
  | Pass.reject c ↦ some (rejected c)
]

abbrev pub start : Parser
start = record { state = State.first; last_arg_name = []; command = new_command }

unfoldable pub parse : ℕ → List Token → Option Result
parse rounds tokens = parse_loop rounds tokens start
