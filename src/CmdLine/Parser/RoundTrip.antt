-- ===== src/CmdLine/Parser/RoundTrip.antt =====
-- Every line of the grammar is read back as the command that it stands for.
use ritex.Base.{
  ℕ, ◌<◌, ◌≡◌, refl, sym, ap, ◌∙◌, false, some, List, [], ◌∷◌, ◌++◌, All, length, append-nil,
}
use ritex.CmdLine.Words.{Word}
use ritex.CmdLine.Command.{CmdLineCommand, new_command, add_parameter}
use ritex.CmdLine.Parser.{Token, State, Parser, Result, accepted, step, start, parse}
use ritex.CmdLine.Parser.Laws.{outcome, parse-outcome}
use ritex.CmdLine.Parser.Grammar.{
  is_a, is_word, NoWords, NoA, Param, Line, write_params, write_line, IsParam, IsLine, with_params,
  command_of,
}

abbrev pub at : State → Word → CmdLineCommand → Parser
at state name c = record { state = state; last_arg_name = name; command = c }

-- One option that is passed over in a list of parameters.
pub pass_list :
    (token : Token) (tokens : List Token) (name : Word) (c : CmdLineCommand)
    → is_a token ≡ false
    → outcome (token ∷ tokens) (at State.a_list name c) ≡ outcome tokens (at State.a_list name c)
unfolding outcome step
pass_list (Token.long_option i) tokens name c h = refl
pass_list (Token.short_option x) tokens name c h = rw h refl
pass_list (Token.word w) tokens name c h = refl

pub pass_cmd :
    (token : Token) (tokens : List Token) (name : Word) (c : CmdLineCommand)
    → is_word token ≡ false
    → outcome (token ∷ tokens) (at State.cmd name c) ≡ outcome tokens (at State.cmd name c)
unfolding outcome step
pass_cmd (Token.long_option i) tokens name c h = refl
pass_cmd (Token.short_option x) tokens name c h = refl
pass_cmd (Token.word w) tokens name c h = absurd (cc h)

passed_list :
    (passed tokens : List Token) (name : Word) (c : CmdLineCommand)
    → NoA passed
    → outcome (passed ++ tokens) (at State.a_list name c) ≡ outcome tokens (at State.a_list name c)
passed_list [] tokens name c h = refl
passed_list (token ∷ passed) tokens name c (h, hs) =
    pass_list token (passed ++ tokens) name c h ∙ passed_list passed tokens name c hs

passed_cmd :
    (passed tokens : List Token) (name : Word) (c : CmdLineCommand)
    → NoWords passed
    → outcome (passed ++ tokens) (at State.cmd name c) ≡ outcome tokens (at State.cmd name c)
passed_cmd [] tokens name c h = refl
passed_cmd (token ∷ passed) tokens name c (h, hs) =
    pass_cmd token (passed ++ tokens) name c h ∙ passed_cmd passed tokens name c hs

-- A list of parameters, behind a value.
params_read :
    (qs : List Param) (name : Word) (c : CmdLineCommand)
    → All IsParam qs
    → outcome (write_params qs) (at State.a_list name c) ≡ accepted (with_params qs c)
unfolding outcome step write_params with_params
params_read [] name c h = refl
params_read (q ∷ qs) name c (h, hs) =
    passed_list q.passed (write_params qs) q.name (add_parameter q.name q.value c) h
    ∙ params_read qs q.name (add_parameter q.name q.value c) hs

outcome-write_line :
    (line : Line) → IsLine line → outcome (write_line line) start ≡ accepted (command_of line)
unfolding outcome step write_line write_params with_params command_of
outcome-write_line Line.info h = refl
outcome-write_line Line.additional h = refl
outcome-write_line Line.exit h = refl
outcome-write_line (Line.devices []) h = refl
outcome-write_line (Line.devices (q ∷ qs)) h = params_read (q ∷ qs) [] _ h
outcome-write_line (Line.commands passed) h =
    sym (ap (λ tokens. outcome tokens (at State.cmd [] new_command)) (append-nil passed))
    ∙ passed_cmd passed [] [] new_command h
outcome-write_line (Line.test q qs) h = params_read (q ∷ qs) [] _ h
outcome-write_line (Line.measure device path q qs) h = params_read (q ∷ qs) [] _ h
outcome-write_line (Line.command passed device type message source id path q qs) (h, hs) =
    passed_cmd passed _ [] new_command h ∙ params_read (q ∷ qs) [] _ hs

-- A line of the grammar, written as options, is accepted in more rounds than it has options, and
-- gives the command that it stands for.
pub parse-write_line :
    (line : Line) (rounds : ℕ)
    → IsLine line
    → length (write_line line) < rounds
    → parse rounds (write_line line) ≡ some (accepted (command_of line))
parse-write_line line rounds h enough =
    parse-outcome rounds (write_line line) enough
    ∙ ap (λ (r : Result). some r) (outcome-write_line line h)
