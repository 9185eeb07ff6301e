-- ===== src/Commands/Limit.antt =====
-- The limit of the deviation of the clocks, from the line of a client to the device.
use ritex.Base.{ℕ, ◌<◌, ◌≡◌, refl, sym, ap, ◌∙◌, false, none, some, length, ◌>>=◌}
use ritex.CmdLine.Words.{Word, bytes_of}
use ritex.CmdLine.Command.{CommandType, CmdLineCommand, find, order, assign}
use ritex.CmdLine.Parser.{accepted, parse}
use ritex.CmdLine.Parser.Grammar.{Line, write_line, IsLine}
use ritex.CmdLine.Compile.{
  int_value, param_type_int, Numbers, Compiled, get_compiled_parameter, compile, compile_int,
  compile_known, compile_parameter,
}
use ritex.CmdLine.Compile.Laws.{bind_some}
use ritex.CmdLine.Compile.Lines.{params_of, last_given, get_compiled_parameter-parse}
use ritex.CmdLine.Options.{
  adapter_options, add_int_parameter, add_string_parameter, add_list_parameter,
}
use ritex.Commands.Laws.{some_inj}
use ritex.Commands.Table.{Conversions}
use ritex.Commands.{
  Created, create_as, create_command, create_start_measurement, get_int_parameter,
  get_text_parameter, time_limit,
}

sync_time_option : find adapter_options (bytes_of "sync_time") ≡ some (param_type_int 0 60)
unfolding find order assign adapter_options add_int_parameter add_string_parameter
    add_list_parameter
sync_time_option = refl

known_sync_time :
    (n : Numbers) (value : Word) (minutes : ℕ)
    → compile_int n value ≡ some minutes
    → compile_known n adapter_options (bytes_of "sync_time") value ≡ some (int_value minutes)
unfolding compile_known compile_parameter
known_sync_time n value minutes h = rw (sync_time_option, h) refl

sync_time_value :
    (limit minutes : ℕ) (c : Compiled)
    → get_compiled_parameter c (bytes_of "sync_time") ≡ some (int_value minutes)
    → get_int_parameter c (bytes_of "sync_time") limit ≡ some (false, minutes)
unfolding get_int_parameter
sync_time_value limit minutes c given = rw given refl

-- The measurements take the number over as it is.
limit_taken :
    (unset limit minutes : ℕ) (c : Compiled) (r : Created)
    → get_compiled_parameter c (bytes_of "sync_time") ≡ some (int_value minutes)
    → create_start_measurement unset limit c ≡ some r
    → r.time_diviation ≡ minutes
unfolding create_start_measurement
limit_taken unset limit minutes c r given h =
    let ((found, comm), text, h1) = bind_some (get_text_parameter c (bytes_of "comdevice")) _ r h in
    let ((known, speed), number, h2) =
      bind_some (get_int_parameter c (bytes_of "baudrate") unset) _ r h1 in
    let (taken, e, made) = bind_some (get_int_parameter c (bytes_of "sync_time") limit) _ r h2 in
    let same : taken ≡ (false, minutes) =
      some_inj (sym e ∙ sync_time_value limit minutes c given) in
    sym (ap (λ (x : Created). x.time_diviation) (some_inj made)) ∙ ap time_limit same

-- A line of the grammar that is parsed, in more rounds than it has options, compiled with the
-- parameters of the adapter, and for which CreateCommand creates the command for the measurements:
-- where the last sync_time of the line is the int that strtol gives for it, the limit of the
-- deviation in seconds is that number, which is given in minutes.
pub create_command-sync_time :
    (n : Numbers) (k : Conversions) (random unset limit rounds minutes : ℕ) (line : Line)
    (c : CmdLineCommand) (d : Compiled) (value : Word) (r : Created)
    → IsLine line
    → length (write_line line) < rounds
    → parse rounds (write_line line) ≡ some (accepted c)
    → compile n random adapter_options c ≡ some d
    → d.command_type ≡ CommandType.get_mesurements
    → last_given (params_of line) (bytes_of "sync_time") none ≡ some value
    → compile_int n value ≡ some minutes
    → create_command k unset limit d ≡ some r
    → r.time_diviation ≡ minutes
unfolding create_command create_as
create_command-sync_time n k random unset limit rounds minutes line c d value r well enough parsed
      compiled type given number h =
    let kept =
      get_compiled_parameter-parse n random adapter_options line rounds c d (bytes_of "sync_time")
        well enough parsed compiled in
    let there : get_compiled_parameter d (bytes_of "sync_time") ≡ some (int_value minutes) =
      kept
      ∙ ap (λ o. o >>= λ v. compile_known n adapter_options (bytes_of "sync_time") v) given
      ∙ known_sync_time n value minutes number in
    limit_taken unset limit minutes d r there (ap (λ t. create_as k unset limit t d) (sym type) ∙ h)
