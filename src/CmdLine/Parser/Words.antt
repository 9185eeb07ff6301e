-- ===== src/CmdLine/Parser/Words.antt =====
-- What stands behind -cmd in an accepted line.
use ritex.Base.{◌≡◌, refl, ap, List, [], ◌∷◌, ◌++◌}
use ritex.CmdLine.Words.{Word}
use ritex.CmdLine.Command.{CommandType, CmdLineCommand, set_cmd_line_cmd_type, set_device_id}
use ritex.CmdLine.Parser.{Token, State, accepted, step}
use ritex.CmdLine.Parser.Laws.{outcome}
use ritex.CmdLine.Parser.Grammar.{NoWords}
use ritex.CmdLine.Parser.RoundTrip.{at}
use ritex.CmdLine.Parser.Params.{as_read, takes_word, ScriptRead, read_script}

-- The words behind -cmd, and its script.
pub record CommandRead (tokens : List Token) (c c' : CmdLineCommand) : Type 0 where
  pub type : Word
  pub message : Word
  pub source : Word
  pub id : Word
  pub rest : List Token
  pub same :
      Token.word type ∷ (Token.word message ∷ (Token.word source ∷ (Token.word id ∷ rest))) ≡ tokens
  pub script :
      ScriptRead rest
        (record c {
          cmd_type_raw = type;
          message_raw = message;
          source_raw = source;
          cmd_id_raw = id;
        })
        c'

read_command :
    (name : Word) (c : CmdLineCommand) (tokens : List Token) (c' : CmdLineCommand)
    → outcome tokens (at State.cmd_devid name c) ≡ accepted c'
    → CommandRead tokens c c'
unfolding step
read_command name c tokens c' h =
    let m0 = at State.cmd_devid name c in
    let (type, rest1, same1, h1) =
      takes_word State.cmd_type (λ w. record c { cmd_type_raw = w }) m0 tokens c'
        (as_read tokens m0 c' h) in
    let c1 : CmdLineCommand = record c { cmd_type_raw = type } in
    let m1 = at State.cmd_type name c1 in
    let (message, rest2, same2, h2) =
      takes_word State.cmd_msg (λ w. record c1 { message_raw = w }) m1 rest1 c'
        (as_read rest1 m1 c' h1) in
    let c2 : CmdLineCommand = record c1 { message_raw = message } in
    let m2 = at State.cmd_msg name c2 in
    let (source, rest3, same3, h3) =
      takes_word State.cmd_src (λ w. record c2 { source_raw = w }) m2 rest2 c'
        (as_read rest2 m2 c' h2) in
    let c3 : CmdLineCommand = record c2 { source_raw = source } in
    let m3 = at State.cmd_src name c3 in
    let (id, rest4, same4, h4) =
      takes_word State.cmd_id (λ w. record c3 { cmd_id_raw = w }) m3 rest3 c'
        (as_read rest3 m3 c' h3) in
    let m4 = at State.cmd_id name (record c3 { cmd_id_raw = id }) in
    record {
      type = type;
      message = message;
      source = source;
      id = id;
      rest = rest4;
      same = cc (same1, same2, same3, same4);
      script = read_script m4 rest4 c' (as_read rest4 m4 c' h4);
    }

-- Behind -cmd: what is passed over, then the end or a device.
pub data CmdRead (tokens : List Token) (c c' : CmdLineCommand) : Type 0 where
  ended :
      NoWords tokens → set_cmd_line_cmd_type CommandType.list_commands c ≡ c' → CmdRead tokens c c'
  went_on :
      (passed : List Token) (device : Word) (rest : List Token)
      → NoWords passed
      → passed ++ (Token.word device ∷ rest) ≡ tokens
      → CommandRead rest (set_device_id device (set_cmd_line_cmd_type CommandType.command c)) c'
      → CmdRead tokens c c'

pass_token :
    (token : Token) (tokens : List Token) (c c' : CmdLineCommand)
    → ((l : List Token) → NoWords l → NoWords (token ∷ l))
    → CmdRead tokens c c'
    → CmdRead (token ∷ tokens) c c'
pass_token token tokens c c' no_word (ended none_left same) = ended (no_word tokens none_left) same
pass_token token tokens c c' no_word (went_on passed device rest none_left same r) =
    went_on (token ∷ passed) device rest (no_word passed none_left) (ap (◌∷◌ token) same) r

pub read_cmd :
    (name : Word) (c : CmdLineCommand) (tokens : List Token) (c' : CmdLineCommand)
    → outcome tokens (at State.cmd name c) ≡ accepted c'
    → CmdRead tokens c c'
unfolding outcome step
read_cmd name c [] c' h = ended tt (cc h)
read_cmd name c (Token.word w ∷ tokens) c' h =
    went_on [] w tokens tt refl (
      read_command name (set_device_id w (set_cmd_line_cmd_type CommandType.command c)) tokens c' h)
read_cmd name c (Token.long_option i ∷ tokens) c' h =
    pass_token (Token.long_option i) tokens c c' (λ l all. (refl, all))
      (read_cmd name c tokens c' h)
read_cmd name c (Token.short_option x ∷ tokens) c' h =
    pass_token (Token.short_option x) tokens c c' (λ l all. (refl, all))
      (read_cmd name c tokens c' h)
