-- ===== src/CmdLine/Parser/Complete.antt =====
-- Every line that is accepted is one of the grammar.
use ritex.Base.{
  ℕ, ◌<◌, ◌≡◌, refl, ap, false, some, List, [], ◌∷◌, ◌==◌, length, arith, eq_of_==, Bool-cases, inl,
  inr,
}
use ritex.CmdLine.Command.{
  CommandType, CmdLineCommand, new_command, set_cmd_line_cmd_type, set_device_id,
}
use ritex.CmdLine.Parser.{on_alone, Token, State, accepted, step, start, parse}
use ritex.CmdLine.Parser.Laws.{outcome, parse-outcome}
use ritex.CmdLine.Parser.Grammar.{Line, write_params, write_line, IsLine, with_params, command_of}
use ritex.CmdLine.Parser.RoundTrip.{at}
use ritex.CmdLine.Parser.Params.{read, as_read, takes_word, read_params, read_script}
use ritex.CmdLine.Parser.Words.{CmdRead, ended, went_on, read_cmd}

record LineRead (tokens : List Token) (c' : CmdLineCommand) : Type 0 where
  line : Line
  well : IsLine line
  same : write_line line ≡ tokens
  gives : command_of line ≡ c'

after_cmd :
    (tokens : List Token) (c' : CmdLineCommand)
    → CmdRead tokens new_command c'
    → LineRead (Token.long_option 0 ∷ tokens) c'
unfolding write_line command_of
after_cmd tokens c' (ended none_left same) = record {
  line = Line.commands tokens;
  well = none_left;
  same = refl;
  gives = same;
}
after_cmd tokens c' (went_on passed device rest none_left same r) = record {
  line =
      Line.command passed device r.type r.message r.source r.id r.script.path r.script.params.param
        r.script.params.params;
  well = (none_left, r.script.params.no_a);
  same = cc (same, r.same, r.script.same, r.script.params.same);
  gives = r.script.params.gives;
}

-- The options that stand alone.
alone :
    (type : CommandType) (tokens : List Token) (c' : CmdLineCommand)
    → read (λ o. on_alone type o start) tokens ≡ accepted c'
    → (tokens ≡ []) × (set_cmd_line_cmd_type type new_command ≡ c')
alone type [] c' h = (refl, cc h)
alone type (token ∷ tokens) c' h = absurd (cc h)

after_exit :
    (i : ℕ) (tokens : List Token) (c' : CmdLineCommand)
    → i ≡ 2
    → outcome tokens (at State.on_exit [] new_command) ≡ accepted c'
    → LineRead (Token.long_option i ∷ tokens) c'
unfolding step write_line command_of
after_exit i tokens c' two h =
    let (end, same) = alone CommandType.exit tokens c' (as_read tokens _ c' h) in
    record { line = Line.exit; well = tt; same = cc (two, end); gives = same }

after_p :
    (tokens : List Token) (c' : CmdLineCommand)
    → outcome tokens (at State.p [] new_command) ≡ accepted c'
    → LineRead (Token.short_option b'p' ∷ tokens) c'
unfolding step write_line command_of
after_p tokens c' h =
    let (end, same) = alone CommandType.show_info tokens c' (as_read tokens _ c' h) in
    record { line = Line.info; well = tt; same = cc end; gives = same }

after_a :
    (tokens : List Token) (c' : CmdLineCommand)
    → outcome tokens (at State.a_first [] new_command) ≡ accepted c'
    → LineRead (Token.short_option b'a' ∷ tokens) c'
unfolding step write_line command_of
after_a tokens c' h =
    let (end, same) =
      alone CommandType.get_additional_parameter_list tokens c' (as_read tokens _ c' h) in
    record { line = Line.additional; well = tt; same = cc end; gives = same }

after_t :
    (tokens : List Token) (c' : CmdLineCommand)
    → outcome tokens (at State.t [] new_command) ≡ accepted c'
    → LineRead (Token.short_option b't' ∷ tokens) c'
unfolding step write_line command_of
after_t tokens c' h =
    let r =
      read_params (at State.t [] (record new_command { command_type = CommandType.test_device }))
        tokens c' (as_read tokens _ c' h) in
    record { line = Line.test r.param r.params; well = r.no_a; same = cc (r.same); gives = r.gives }

after_d :
    (tokens : List Token) (c' : CmdLineCommand)
    → outcome tokens (at State.d [] new_command) ≡ accepted c'
    → LineRead (Token.short_option b'd' ∷ tokens) c'
unfolding outcome step write_line write_params command_of with_params
after_d [] c' h = record { line = Line.devices []; well = tt; same = refl; gives = cc h }
after_d (token ∷ tokens) c' h =
    let r =
      read_params
        (at State.d []
          (record new_command { command_type = CommandType.get_connected_device_info }))
        (token ∷ tokens) c' h in
    record {
      line = Line.devices (r.param ∷ r.params);
      well = r.no_a;
      same = ap (◌∷◌ (Token.short_option b'd')) r.same;
      gives = r.gives;
    }

after_r :
    (tokens : List Token) (c' : CmdLineCommand)
    → outcome tokens (at State.r [] new_command) ≡ accepted c'
    → LineRead (Token.short_option b'r' ∷ tokens) c'
unfolding step write_line command_of
after_r tokens c' h =
    let (device, rest, same, h1) =
      takes_word State.r_devid
        (λ w. set_device_id w (set_cmd_line_cmd_type CommandType.get_mesurements new_command))
        (at State.r [] new_command) tokens c' (as_read tokens _ c' h) in
    let r =
      read_script
        (at State.r_devid []
          (set_device_id device (set_cmd_line_cmd_type CommandType.get_mesurements new_command)))
        rest c' (as_read rest _ c' h1) in
    record {
      line = Line.measure device r.path r.params.param r.params.params;
      well = r.params.no_a;
      same = cc (same, r.same, r.params.same);
      gives = r.params.gives;
    }

only_t :
    (x : ℕ) (tokens : List Token) (c' : CmdLineCommand)
    → (x == b'p') ≡ false
    → (x == b'a') ≡ false
    → (x == b'd') ≡ false
    → (x == b'r') ≡ false
    → outcome (Token.short_option x ∷ tokens) start ≡ accepted c'
    → x ≡ b't'
unfolding outcome step
only_t x tokens c' e1 e2 e3 e4 h = ground (arith, h, e1, e2, e3, e4)

after_short :
    (x : ℕ) (tokens : List Token) (c' : CmdLineCommand)
    → outcome (Token.short_option x ∷ tokens) start ≡ accepted c'
    → LineRead (Token.short_option x ∷ tokens) c'
unfolding outcome step
after_short x tokens c' h = elim (Bool-cases (x == b'p')) [
  | inl e ↦ rw (eq_of_== x b'p' e) (after_p tokens c' (ground (arith, h, e)))
  | inr e1 ↦ elim (Bool-cases (x == b'a')) [
    | inl e ↦ rw (eq_of_== x b'a' e) (after_a tokens c' (ground (arith, h, e)))
    | inr e2 ↦ elim (Bool-cases (x == b'd')) [
      | inl e ↦ rw (eq_of_== x b'd' e) (after_d tokens c' (ground (arith, h, e)))
      | inr e3 ↦ elim (Bool-cases (x == b'r')) [
        | inl e ↦ rw (eq_of_== x b'r' e) (after_r tokens c' (ground (arith, h, e)))
        | inr e4 ↦
            rw (only_t x tokens c' e1 e2 e3 e4 h)
              (after_t tokens c' (ground (arith, h, e1, e2, e3, e4)))
      ]
    ]
  ]
]

after_long :
    (i : ℕ) (tokens : List Token) (c' : CmdLineCommand)
    → outcome (Token.long_option i ∷ tokens) start ≡ accepted c'
    → LineRead (Token.long_option i ∷ tokens) c'
unfolding outcome step
after_long i tokens c' h = elim (Bool-cases (i == 0)) [
  | inl e ↦
      rw (eq_of_== i 0 e)
        (after_cmd tokens c' (read_cmd [] new_command tokens c' (ground (arith, h, e))))
  | inr e ↦ after_exit i tokens c' (ground (arith, h, e)) (ground (arith, h, e))
]

line_of :
    (tokens : List Token) (c' : CmdLineCommand)
    → outcome tokens start ≡ accepted c'
    → LineRead tokens c'
unfolding outcome step
line_of [] c' h = absurd (cc h)
line_of (Token.word w ∷ tokens) c' h = absurd (cc h)
line_of (Token.long_option i ∷ tokens) c' h = after_long i tokens c' h
line_of (Token.short_option x ∷ tokens) c' h = after_short x tokens c' h

-- A list of options that Parse accepts in more rounds than it has options is the writing of a line
-- of the grammar, with what may be passed over behind -cmd and behind a value, and the command is
-- the one that the line stands for.
pub parse_accepts :
    (tokens : List Token) (rounds : ℕ) (c' : CmdLineCommand)
    → length tokens < rounds
    → parse rounds tokens ≡ some (accepted c')
    → (line : Line) × IsLine line × (write_line line ≡ tokens) × (command_of line ≡ c')
parse_accepts tokens rounds c' enough h =
    let r = line_of tokens c' (cc (parse-outcome rounds tokens enough, h)) in
    (r.line, r.well, r.same, r.gives)
