-- ===== src/CmdLine/Compile/Lines.antt =====
-- A line that is parsed and compiled: what its parameters are afterwards.
use ritex.Base.{ℕ, ◌<◌, ◌≡◌, refl, ap, ◌∙◌, Option, none, some, List, [], ◌∷◌, ◌>>=◌, length}
use ritex.CmdLine.Words.{Word}
use ritex.CmdLine.Command.{CmdLineCommand, find, found, order, add_parameter}
use ritex.CmdLine.Command.Laws.{find-assign, assign-IsSorted, IsSorted}
use ritex.CmdLine.Parser.{accepted, parse}
use ritex.CmdLine.Parser.Grammar.{Param, Line, write_line, IsLine, with_params, command_of}
use ritex.CmdLine.Parser.RoundTrip.{parse-write_line}
use ritex.CmdLine.Compile.{
  AdditionalParameter, Numbers, compile_known, Compiled, get_compiled_parameter, compile,
}
use ritex.CmdLine.Compile.Accepts.{get_compiled_parameter-compile}

abbrev pub params_of : Line → List Param
params_of Line.info = []
params_of Line.additional = []
params_of Line.exit = []
params_of (Line.devices qs) = qs
params_of (Line.commands passed) = []
params_of (Line.test q qs) = q ∷ qs
params_of (Line.measure device path q qs) = q ∷ qs
params_of (Line.command passed device type message source id path q qs) = q ∷ qs

-- The last value that a line gives to a name.
unfoldable pub last_given : List Param → Word → Option Word → Option Word
last_given [] name before = before
last_given (q ∷ qs) name before = last_given qs name (found (order name q.name) q.value before)

with_params-IsSorted :
    (qs : List Param) (c : CmdLineCommand)
    → IsSorted c.additional_parameters_raw
    → IsSorted (with_params qs c).additional_parameters_raw
unfolding with_params add_parameter
with_params-IsSorted [] c sorted = sorted
with_params-IsSorted (q ∷ qs) c sorted =
    with_params-IsSorted qs (add_parameter q.name q.value c)
      (assign-IsSorted q.name q.value c.additional_parameters_raw sorted)

find-with_params :
    (qs : List Param) (c : CmdLineCommand) (name : Word)
    → find (with_params qs c).additional_parameters_raw name
      ≡ last_given qs name (find c.additional_parameters_raw name)
unfolding with_params add_parameter last_given
find-with_params [] c name = refl
find-with_params (q ∷ qs) c name =
    find-with_params qs (add_parameter q.name q.value c) name
    ∙ ap (last_given qs name) (find-assign q.name q.value c.additional_parameters_raw name)

pub command_of-IsSorted : (line : Line) → IsSorted (command_of line).additional_parameters_raw
unfolding command_of
command_of-IsSorted Line.info = tt
command_of-IsSorted Line.additional = tt
command_of-IsSorted Line.exit = tt
command_of-IsSorted (Line.devices qs) = with_params-IsSorted qs _ tt
command_of-IsSorted (Line.commands passed) = tt
command_of-IsSorted (Line.test q qs) = with_params-IsSorted (q ∷ qs) _ tt
command_of-IsSorted (Line.measure device path q qs) = with_params-IsSorted (q ∷ qs) _ tt
command_of-IsSorted (Line.command passed device type message source id path q qs) =
    with_params-IsSorted (q ∷ qs) _ tt

find-command_of :
    (line : Line) (name : Word)
    → find (command_of line).additional_parameters_raw name ≡ last_given (params_of line) name none
unfolding command_of last_given find
find-command_of Line.info name = refl
find-command_of Line.additional name = refl
find-command_of Line.exit name = refl
find-command_of (Line.devices qs) name = find-with_params qs _ name
find-command_of (Line.commands passed) name = refl
find-command_of (Line.test q qs) name = find-with_params (q ∷ qs) _ name
find-command_of (Line.measure device path q qs) name = find-with_params (q ∷ qs) _ name
find-command_of (Line.command passed device type message source id path q qs) name =
    find-with_params (q ∷ qs) _ name

-- A line of the grammar that is parsed, in more rounds than it has options, and compiled: every
-- name has as its parameter the compiled last value that the line gives to it, and no parameter
-- where the line gives none.
pub get_compiled_parameter-parse :
    (n : Numbers) (random : ℕ) (map : List (Word × AdditionalParameter)) (line : Line) (rounds : ℕ)
    (c : CmdLineCommand) (d : Compiled) (name : Word)
    → IsLine line
    → length (write_line line) < rounds
    → parse rounds (write_line line) ≡ some (accepted c)
    → compile n random map c ≡ some d
    → get_compiled_parameter d name
      ≡ (last_given (params_of line) name none >>= λ value. compile_known n map name value)
get_compiled_parameter-parse n random map line rounds c d name well enough parsed compiled =
    let same : c ≡ command_of line = cc (parsed, parse-write_line line rounds well enough) in
    let sorted : IsSorted c.additional_parameters_raw = rw same (command_of-IsSorted line) in
    get_compiled_parameter-compile n random map c d name sorted compiled
    ∙ ap
        (λ (x : CmdLineCommand).
          find x.additional_parameters_raw name >>= λ value. compile_known n map name value)
        same
    ∙ ap (λ o. o >>= λ value. compile_known n map name value) (find-command_of line name)
