-- ===== src/Listings/Supported.antt =====
-- What a client reads back from the table of the supported commands.
use ritex.Base.{
  ℕ, ◌+◌, ◌≤◌, ◌≡◌, ◌≢◌, refl, List, [], ◌∷◌, ◌++◌, ◌==◌, false, All, map, append_assoc, append-nil,
  arith,
}
use ritex.Decimal.{itoa}
use ritex.Decimal.Laws.{itoa-IsPlain, itoa_some, All-append}
use ritex.CmdLine.Words.{Word}
use ritex.CmdLine.Words.Laws.{IsPlain, last_word}
use ritex.Daemon.Frame.{utf8}
use ritex.Listings.{newline, bar}
use ritex.Listings.Commands.{
  ArgParam, NamedArg, list_named, float_named, NamedCommand, tilde, print_params, print_type,
  print_args, get_supported_commands,
}
use ritex.Listings.Rows.{join, write_rows, read_rows, IsRow, read_rows-write_rows}
use ritex.Listings.Laws.{IsField, write_rows-append, rows-append}
use ritex.Listings.Parameters.{append_some}

-- The field of a choice: its number and its name.
abbrev pub choice : ArgParam → Word
choice p = itoa p.id ++ (tilde ∷ utf8 p.name)

abbrev arg_row : ℕ → NamedArg → List Word
arg_row j (list_named name ps) = (tilde ∷ itoa (j + 1)) ∷ utf8 name ∷ utf8 "list" ∷ map choice ps
arg_row j (float_named name) = (tilde ∷ itoa (j + 1)) ∷ utf8 name ∷ utf8 "float" ∷ []

abbrev arg_rows : ℕ → List NamedArg → List (List Word)
arg_rows j [] = []
arg_rows j (arg ∷ args) = arg_row j arg ∷ arg_rows (j + 1) args

-- A row for a command, and one for each of its arguments, from 1.
abbrev pub command_rows : List NamedCommand → List (List Word)
command_rows [] = []
command_rows (c ∷ cs) =
    (itoa c.cmd_type ∷ utf8 c.name ∷ utf8 c.description ∷ [])
    ∷ (arg_rows 0 c.args ++ command_rows cs)

abbrev pub ParamsAreFields : List ArgParam → Type 0
ParamsAreFields [] = Unit
ParamsAreFields (p ∷ ps) = IsField p.name × ParamsAreFields ps

abbrev ArgsAreFields : List NamedArg → Type 0
ArgsAreFields [] = Unit
ArgsAreFields (list_named name ps ∷ args) = (IsField name × ParamsAreFields ps) × ArgsAreFields args
ArgsAreFields (float_named name ∷ args) = IsField name × ArgsAreFields args

-- No name has a bar or the end of a line in it, and no description is empty.
abbrev pub CommandsAreFields : List NamedCommand → Type 0
CommandsAreFields [] = Unit
CommandsAreFields (c ∷ cs) =
    (IsField c.name × (IsField c.description × (utf8 c.description ≢ [])))
    × (ArgsAreFields c.args × CommandsAreFields cs)

join-choices : (w : Word) (ps : List ArgParam) → join bar (w ∷ map choice ps) ≡ w ++ print_params ps
unfolding print_params
join-choices w [] = simp append-nil refl
join-choices w (p ∷ ps) = rw (join-choices (choice p) ps) (simp append_assoc refl)

print_args-rows : (j : ℕ) (args : List NamedArg) → print_args j args ≡ write_rows (arg_rows j args)
unfolding print_args print_type
print_args-rows j [] = refl
print_args-rows j (list_named name ps ∷ args) =
    rw (print_args-rows (j + 1) args, join-choices (utf8 "list") ps) (simp append_assoc refl)
print_args-rows j (float_named name ∷ args) =
    rw (print_args-rows (j + 1) args) (simp append_assoc refl)

get_supported_commands-rows :
    (cs : List NamedCommand) → get_supported_commands cs ≡ write_rows (command_rows cs)
unfolding get_supported_commands
get_supported_commands-rows [] = refl
get_supported_commands-rows (c ∷ cs) =
    rw
      (
        print_args-rows 0 c.args,
        get_supported_commands-rows cs,
        write_rows-append (arg_rows 0 c.args) (command_rows cs),
      )
      (simp append_assoc refl)

number_plain :
    (delim n : ℕ)
    → ¬ ((48 ≤ delim) × (delim ≤ 57))
    → (tilde == delim) ≡ false
    → IsPlain delim (tilde ∷ itoa n)
number_plain delim n other h = (h, itoa-IsPlain delim n other)

choice-IsPlain :
    (delim : ℕ) (p : ArgParam)
    → ¬ ((48 ≤ delim) × (delim ≤ 57))
    → (tilde == delim) ≡ false
    → IsPlain delim (utf8 p.name)
    → IsPlain delim (choice p)
choice-IsPlain delim p other h k =
    All-append (λ (c : ℕ). (c == delim) ≡ false) (itoa p.id) _ (itoa-IsPlain delim p.id other)
      (h, k)

choices_plain :
    (ps : List ArgParam)
    → ParamsAreFields ps
    → All (IsPlain bar) (map choice ps) × All (IsPlain newline) (map choice ps)
choices_plain [] h = (tt, tt)
choices_plain (p ∷ ps) (h, hs) =
    let (bars, lines) = choices_plain ps hs in
    (
      (choice-IsPlain bar p (λ d. omega (arith, d)) refl h.0, bars),
      (choice-IsPlain newline p (λ d. omega (arith, d)) refl h.1, lines),
    )

last_choice : (w : Word) (ps : List ArgParam) → w ≢ [] → last_word (w ∷ map choice ps) ≢ []
last_choice w [] h = h
last_choice w (p ∷ ps) h =
    last_choice (choice p) ps (append_some (itoa p.id) (tilde ∷ utf8 p.name) (itoa_some p.id))

word_list : utf8 "list" ≢ []
word_list e = ground (arith, e)

arg_rows-IsRow : (j : ℕ) (args : List NamedArg) → ArgsAreFields args → All IsRow (arg_rows j args)
arg_rows-IsRow j [] h = tt
arg_rows-IsRow j (list_named name ps ∷ args) ((n, h), hs) =
    let (bars, lines) = choices_plain ps h in
    (
      record {
        no_bar = (
          number_plain bar (j + 1) (λ d. omega (arith, d)) refl,
          (n.0, ((refl, (refl, (refl, (refl, tt)))), bars)),
        );
        one_line = (
          number_plain newline (j + 1) (λ d. omega (arith, d)) refl,
          (n.1, ((refl, (refl, (refl, (refl, tt)))), lines)),
        );
        named = last_choice (utf8 "list") ps word_list;
      },
      arg_rows-IsRow (j + 1) args hs,
    )
arg_rows-IsRow j (float_named name ∷ args) (n, hs) = (
  record {
    no_bar = (
      number_plain bar (j + 1) (λ d. omega (arith, d)) refl,
      (n.0, ((refl, (refl, (refl, (refl, (refl, tt))))), tt)),
    );
    one_line = (
      number_plain newline (j + 1) (λ d. omega (arith, d)) refl,
      (n.1, ((refl, (refl, (refl, (refl, (refl, tt))))), tt)),
    );
    named = λ e. ground (arith, e);
  },
  arg_rows-IsRow (j + 1) args hs,
)

command_rows-IsRow : (cs : List NamedCommand) → CommandsAreFields cs → All IsRow (command_rows cs)
command_rows-IsRow [] h = tt
command_rows-IsRow (c ∷ cs) (h, (args, hs)) = (
  record {
    no_bar = (itoa-IsPlain bar c.cmd_type (λ d. omega (arith, d)), (h.0.0, (h.1.0.0, tt)));
    one_line = (itoa-IsPlain newline c.cmd_type (λ d. omega (arith, d)), (h.0.1, (h.1.0.1, tt)));
    named = h.1.1;
  },
  rows-append (arg_rows 0 c.args) (command_rows cs) (arg_rows-IsRow 0 c.args args)
      (command_rows-IsRow cs hs),
)

-- For commands whose names have no bar and no end of a line in them and whose descriptions are not
-- empty: the table of the supported commands, split into lines and these at the bars, is one row
-- for each command with its type, name and description, behind it one row for each of its arguments
-- with its number from 1, name and type, and for a list the number and name of each of its choices.
pub read_rows-get_supported_commands :
    (cs : List NamedCommand)
    → CommandsAreFields cs
    → read_rows (get_supported_commands cs) ≡ command_rows cs
read_rows-get_supported_commands cs h =
    rw (get_supported_commands-rows cs)
      (read_rows-write_rows (command_rows cs) (command_rows-IsRow cs h))
