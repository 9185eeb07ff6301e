-- ===== src/CmdLine/Compile/Accepts.antt =====
-- Which commands `Compile` accepts, and what they hold afterwards.
use ritex.Base.{
  ℕ, ◌≡◌, refl, sym, ap, ◌∙◌, Bool, true, false, Option, none, some, List, [], if◌then◌else◌,
}
use ritex.CmdLine.Words.{Word, bytes_of}
use ritex.CmdLine.Command.{CommandType, CmdLineCommand, find}
use ritex.CmdLine.Command.Laws.{IsSorted}
use ritex.CmdLine.Compile.{
  AdditionalParameter, CompiledParameter, Numbers, compile_int, compile_parameters, Compiled,
  get_compiled_parameter, compile_values, compile, has_required_parameters, required,
}
use ritex.CmdLine.Compile.Laws.{bind_some, value_on, AllKnown, find-compiled}

abbrev pub Returns {ℓ} : {A : Type ℓ} → Option A → Type ℓ
Returns {A = A} o = (a : A) × (o ≡ some a)

required-some :
    (type : CommandType) (c d : Compiled)
    → required type c ≡ some d
    → (c ≡ d) × (has_required_parameters type c.additional_parameters ≡ true)
required-some type c d h = by_test (has_required_parameters type c.additional_parameters) h
  where
    by_test : (b : Bool) → (if b then some c else none) ≡ some d → (c ≡ d) × (b ≡ true)
    by_test true e = (cc e, refl)
    by_test false e = absurd (cc e)

kept_plain :
    (c d : Compiled)
    → ◌≡◌ {A = Option Compiled} (some c) (some d)
    → d.additional_parameters ≡ c.additional_parameters
kept_plain c d h =
    let same : c ≡ d = cc h in ap (λ (x : Compiled). x.additional_parameters) (sym same)

-- The parameters stay as they were compiled.
kept :
    (n : Numbers) (random : ℕ) (type : CommandType) (c : CmdLineCommand)
    (m : List (Word × CompiledParameter)) (d : Compiled)
    → compile_values n random type c m ≡ some d
    → d.additional_parameters ≡ m
unfolding compile_values
kept n random CommandType.exit c m d h = absurd (cc h)
kept n random CommandType.show_info c m d h = kept_plain _ d h
kept n random CommandType.list_commands c m d h = kept_plain _ d h
kept n random CommandType.get_connected_device_info c m d h = kept_plain _ d h
kept n random CommandType.get_additional_parameter_list c m d h = kept_plain _ d h
kept n random CommandType.get_mesurements c m d h =
    let (device, e, h1) = bind_some (compile_int n c.device_id_raw) _ d h in
    let (same, has) = required-some _ _ d h1 in
    ap (λ (x : Compiled). x.additional_parameters) (sym same)
kept n random CommandType.test_device c m d h =
    let (same, has) = required-some _ _ d h in
    ap (λ (x : Compiled). x.additional_parameters) (sym same)
kept n random CommandType.command c m d h =
    let (device, e, h1) = bind_some (compile_int n c.device_id_raw) _ d h in
    let (id, e1, h2) = bind_some (compile_int n c.cmd_id_raw) _ d h1 in
    let (type, e2, h3) = bind_some (compile_int n c.cmd_type_raw) _ d h2 in
    let (same, has) = required-some _ _ d h3 in
    ap (λ (x : Compiled). x.additional_parameters) (sym same)

pub get_compiled_parameter-compile :
    (n : Numbers) (random : ℕ) (map : List (Word × AdditionalParameter)) (c : CmdLineCommand)
    (d : Compiled) (name : Word)
    → IsSorted c.additional_parameters_raw
    → compile n random map c ≡ some d
    → get_compiled_parameter d name ≡ value_on n map c.additional_parameters_raw name
unfolding get_compiled_parameter compile
get_compiled_parameter-compile n random map c d name sorted h =
    let (m, compiled, values) =
      bind_some (compile_parameters n map c.additional_parameters_raw [])
        (compile_values n random c.command_type c) d h in
    ap (λ l. find l name) (kept n random c.command_type c m d values)
    ∙ find-compiled n map c.additional_parameters_raw m name sorted compiled

-- What a command for the measurements has to hold.
pub record CanMeasure (n : Numbers) (map : List (Word × AdditionalParameter)) (c : CmdLineCommand)
    : Type 0 where
  pub known : AllKnown n map c.additional_parameters_raw
  pub device : Returns (compile_int n c.device_id_raw)
  pub comdevice : Returns (value_on n map c.additional_parameters_raw (bytes_of "comdevice"))
  pub baudrate : Returns (value_on n map c.additional_parameters_raw (bytes_of "baudrate"))
