-- ===== src/CmdLine/Compile.antt =====
-- `Compile` of src/CmdLineCommand.cpp, with the descriptions of the parameters of src/IAdapter.h. An
-- int and a float are the numbers with their 32 bits. `strtol`, `strtod` and `itoa` are parameters, and
-- so is the number that `rand` gives.
pub mod Laws
pub mod Accepts
pub mod Lines
use ritex.Base.{
  ℕ, ◌%◌, ◌^◌, Bool, true, false, not, ◌&&◌, ◌||◌, Option, none, some, List, [], ◌∷◌, ◌==◌,
  if◌then◌else◌, ◌>>=◌,
}
use Prim.Native.Nat.{Ordering}
use ritex.Decimal.{itoa}
use ritex.CmdLine.Words.{Word, bytes_of}
use ritex.CmdLine.Command.{CommandType, CmdLineCommand, order, find, assign}

pub data ListValueType : Type 0 where
  list_value_int : ListValueType
  list_value_string : ListValueType

-- `additional_parameter_t`.
pub data AdditionalParameter : Type 0 where
  param_type_int : ℕ → ℕ → AdditionalParameter
  param_type_float : ℕ → ℕ → AdditionalParameter
  param_type_string : Word → AdditionalParameter
  param_type_list : List Word → ListValueType → AdditionalParameter

-- `compiled_parameter`.
pub data CompiledParameter : Type 0 where
  int_value : ℕ → CompiledParameter
  float_value : ℕ → CompiledParameter
  string_value : Word → CompiledParameter

-- The functions of the C library that turn a text into a number.
pub record Numbers : Type 0 where
  pub strtol : Word → ℕ
  pub strtod : Word → ℕ

-- `src[0] == '0'`; the byte behind an empty string is 0.
abbrev pub starts_with_0 : Word → Bool
starts_with_0 [] = false
starts_with_0 (c ∷ s) = c == b'0'

-- The comparison of two strings.
abbrev is_eq : Ordering → Bool
is_eq Ordering.lt = false
is_eq Ordering.eq = true
is_eq Ordering.gt = false

abbrev pub same_word : Word → Word → Bool
same_word a b = is_eq (order a b)

module _ (c_numbers : Numbers) where
  unfoldable pub compile_int : Word → Option ℕ
  compile_int src =
      let dst = c_numbers.strtol src in
      if dst == 0 && not (starts_with_0 src) then none else some dst

  -- Both zeros of a float equal 0.
  unfoldable pub compile_float : Word → Option ℕ
  compile_float src =
      let dst = c_numbers.strtod src in
      if dst % 2 ^ 31 == 0 && not (starts_with_0 src) then none else some dst

  abbrev pub as_int : Option ℕ → Option CompiledParameter
  as_int none = none
  as_int (some n) = some (int_value n)

  abbrev pub as_float : Option ℕ → Option CompiledParameter
  as_float none = none
  as_float (some n) = some (float_value n)

  abbrev pub list_value : ListValueType → Word → Option CompiledParameter
  list_value list_value_int src = as_int (compile_int src)
  list_value list_value_string src = some (string_value src)

  -- The search in the list of valid values.
  unfoldable pub in_list : ListValueType → List Word → Word → Option CompiledParameter
  in_list type [] src = none
  in_list type (word ∷ words) src =
      let later = in_list type words src in
      if same_word word src then list_value type src else later

  -- The value of one parameter.
  unfoldable pub compile_parameter : AdditionalParameter → Word → Option CompiledParameter
  compile_parameter (param_type_int min max) src = as_int (compile_int src)
  compile_parameter (param_type_float min max) src = as_float (compile_float src)
  compile_parameter (param_type_string str) src = some (string_value src)
  compile_parameter (param_type_list words type) src = in_list type words src

  -- One pair of the line: the name must be known.
  unfoldable pub compile_known :
      List (Word × AdditionalParameter) → Word → Word → Option CompiledParameter
  compile_known map name value = find map name >>= λ aparam. compile_parameter aparam value

  -- The loop over the parameters of the line, from the compiled ones that are there already.
  unfoldable pub compile_parameters :
      List (Word × AdditionalParameter)
      → List (Word × Word)
      → List (Word × CompiledParameter)
      → Option (List (Word × CompiledParameter))
  compile_parameters map [] compiled = some compiled
  compile_parameters map ((name, value) ∷ raw) compiled = compile_known map name value >>= λ param.
      compile_parameters map raw (assign name param compiled)

-- A command after `Compile` returned true. What was not compiled is 0.
pub record Compiled : Type 0 where
  pub command_type : CommandType
  pub device_id_raw : Word
  pub message_raw : Word
  pub additional_parameters : List (Word × CompiledParameter)
  pub device_id : ℕ
  pub cmd_id : ℕ
  pub cmd_type : ℕ

unfoldable pub get_compiled_parameter : Compiled → Word → Option CompiledParameter
get_compiled_parameter c name = find c.additional_parameters name

abbrev is_there : Option CompiledParameter → Bool
is_there none = false
is_there (some v) = true

unfoldable pub is_parameter_exists : List (Word × CompiledParameter) → Word → Bool
is_parameter_exists m name = is_there (find m name)

unfoldable pub has_required_parameters : CommandType → List (Word × CompiledParameter) → Bool
has_required_parameters CommandType.get_mesurements m =
    is_parameter_exists m (bytes_of "comdevice") && is_parameter_exists m (bytes_of "baudrate")
has_required_parameters CommandType.test_device m =
    is_parameter_exists m (bytes_of "comdevice") && is_parameter_exists m (bytes_of "baudrate")
has_required_parameters CommandType.command m = true
has_required_parameters CommandType.exit m = true
has_required_parameters CommandType.show_info m = true
has_required_parameters CommandType.list_commands m = true
has_required_parameters CommandType.get_connected_device_info m = true
has_required_parameters CommandType.get_additional_parameter_list m = true

abbrev pub compiled_as :
    CmdLineCommand → Word → List (Word × CompiledParameter) → ℕ → ℕ → ℕ → Compiled
compiled_as c device_raw m device id type = record {
  command_type = c.command_type;
  device_id_raw = device_raw;
  message_raw = c.message_raw;
  additional_parameters = m;
  device_id = device;
  cmd_id = id;
  cmd_type = type;
}

-- A command, where its required parameters are there.
abbrev pub required : CommandType → Compiled → Option Compiled
required type c = if has_required_parameters type c.additional_parameters then some c else none

-- The values of the command, after its parameters. `random` is what `rand` gives.
unfoldable pub compile_values :
    Numbers → ℕ → CommandType → CmdLineCommand → List (Word × CompiledParameter) → Option Compiled
compile_values n random CommandType.get_additional_parameter_list c m =
    some (compiled_as c c.device_id_raw m 0 0 0)
compile_values n random CommandType.list_commands c m = some (compiled_as c c.device_id_raw m 0 0 0)
compile_values n random CommandType.get_connected_device_info c m =
    some (compiled_as c c.device_id_raw m 0 0 0)
compile_values n random CommandType.show_info c m = some (compiled_as c c.device_id_raw m 0 0 0)
compile_values n random CommandType.get_mesurements c m =
    compile_int n c.device_id_raw >>= λ device.
    required CommandType.get_mesurements (compiled_as c c.device_id_raw m device 0 0)
compile_values n random CommandType.command c m = compile_int n c.device_id_raw >>= λ device.
    compile_int n c.cmd_id_raw >>= λ id. compile_int n c.cmd_type_raw >>= λ type.
    required CommandType.command (compiled_as c c.device_id_raw m device id type)
compile_values n random CommandType.test_device c m =
    required CommandType.test_device (compiled_as c (itoa random) m random 0 0)
compile_values n random CommandType.exit c m = none

unfoldable pub compile :
    Numbers → ℕ → List (Word × AdditionalParameter) → CmdLineCommand → Option Compiled
compile n random map c = compile_parameters n map c.additional_parameters_raw [] >>= λ m.
    compile_values n random c.command_type c m
