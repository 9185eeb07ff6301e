-- ===== src/CmdLine/Command.antt =====
-- `CmdLineCommand` of src/CmdLineCommand.h, before its values are compiled. A `std::map` from strings
-- is the list of its pairs, in the order of their keys.
pub mod Laws
use Prim.Native.Nat.{compare, Ordering}
use ritex.Base.{ℕ, Option, none, some, List, [], ◌∷◌}
use ritex.CmdLine.Words.{Word}

abbrev pub order_then : Ordering → Ordering → Ordering
order_then Ordering.lt later = Ordering.lt
order_then Ordering.eq later = later
order_then Ordering.gt later = Ordering.gt

-- The order of strings, byte by byte.
unfoldable pub order : Word → Word → Ordering
order [] [] = Ordering.eq
order [] (b ∷ bs) = Ordering.lt
order (a ∷ as_) [] = Ordering.gt
order (a ∷ as_) (b ∷ bs) = order_then (compare a b) (order as_ bs)

module _ {ℓ} {V : Type ℓ} where
  abbrev pub found : Ordering → V → Option V → Option V
  found Ordering.eq v later = some v
  found other v later = later

  unfoldable pub find : List (Word × V) → Word → Option V
  find [] name = none
  find ((key, v) ∷ m) name = found (order name key) v (find m name)

  abbrev pub put :
      Ordering → Word × V → Word × V → List (Word × V) → List (Word × V) → List (Word × V)
  put Ordering.lt entry first m later = entry ∷ (first ∷ m)
  put Ordering.eq entry first m later = entry ∷ m
  put Ordering.gt entry first m later = first ∷ later

  -- `m[name] = value`.
  unfoldable pub assign : Word → V → List (Word × V) → List (Word × V)
  assign name value [] = (name, value) ∷ []
  assign name value ((key, v) ∷ m) =
      put (order name key) (name, value) (key, v) m (assign name value m)

pub data CommandType : Type 0 where
  exit : CommandType
  show_info : CommandType
  list_commands : CommandType
  command : CommandType
  get_mesurements : CommandType
  get_connected_device_info : CommandType
  get_additional_parameter_list : CommandType
  test_device : CommandType

pub record CmdLineCommand : Type 0 where
  pub additional_parameters_raw : List (Word × Word)
  pub command_type : CommandType
  pub script_path_raw : Word
  pub device_id_raw : Word
  pub cmd_type_raw : Word
  pub message_raw : Word
  pub source_raw : Word
  pub cmd_id_raw : Word

-- `new CmdLineCommand()`: the type is the first of the enumeration, the strings are empty.
abbrev pub new_command : CmdLineCommand
new_command = record {
  additional_parameters_raw = [];
  command_type = CommandType.exit;
  script_path_raw = [];
  device_id_raw = [];
  cmd_type_raw = [];
  message_raw = [];
  source_raw = [];
  cmd_id_raw = [];
}

unfoldable pub add_parameter : Word → Word → CmdLineCommand → CmdLineCommand
add_parameter name value c = record c {
  additional_parameters_raw = assign name value c.additional_parameters_raw;
}

abbrev pub set_cmd_line_cmd_type : CommandType → CmdLineCommand → CmdLineCommand
set_cmd_line_cmd_type cmd c = record c { command_type = cmd }

abbrev pub set_device_id : Word → CmdLineCommand → CmdLineCommand
set_device_id id c = record c { device_id_raw = id }
