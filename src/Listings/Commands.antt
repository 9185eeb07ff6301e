-- ===== src/Listings/Commands.antt =====
-- The commands that the device supports, with their names, and the table of them that
-- `CmdGetSupportedCommands` prints: the constructor of RitexDevice in src/RitexDevice.cpp,
-- src/AdapterCommand.h, and src/CmdGetSupportedCommands.cpp.
use Prim.Native.String.{String}
use ritex.Base.{ℕ, ◌+◌, List, [], ◌∷◌, ◌++◌, map, ◌≡◌, refl}
use ritex.Decimal.{itoa}
use ritex.CmdLine.Words.{Word}
use ritex.Daemon.Frame.{utf8}
use ritex.Device.Table.{Setting, all_settings}
use ritex.Protocol.Req
use ritex.Commands.Table.{
  CmdTemplate, CommandArg, AdapterCommand, list_arg, float_arg, template, external_commands,
  vd_on_start, vd_on_reset, vd_on_tune, vd_rotate_left, vd_rotate_right,
}

-- `AdapterCommandArgParam`.
pub record ArgParam : Type 0 where
  pub name : String
  pub id : ℕ
  pub device_data : CmdTemplate

-- `AdapterCommandArg`; the device has no argument of another type.
pub data NamedArg : Type 0 where
  list_named : String → List ArgParam → NamedArg
  float_named : String → NamedArg

pub record NamedCommand : Type 0 where
  pub cmd_type : ℕ
  pub name : String
  pub description : String
  pub args : List NamedArg

abbrev pub setting_params : List Setting → List ArgParam
setting_params [] = []
setting_params (s ∷ ss) =
    record { name = s.name; id = s.id; device_data = template Req.setting_set s.id }
    ∷ setting_params ss

abbrev param : String → ℕ → CmdTemplate → ArgParam
param name id tm = record { name = name; id = id; device_data = tm }

abbrev pub motor_params : List ArgParam
motor_params =
    param "Включить ВД" 1 (template Req.vd_on vd_on_start)
    ∷ param "Выключить ВД" 2 (template Req.vd_off 0)
    ∷ param "Сброс" 3 (template Req.vd_on vd_on_reset)
    ∷ param "Начать тарировку" 4 (template Req.vd_on vd_on_tune)
    ∷ param "Левое вращение" 5 (template Req.vd_rotation vd_rotate_left)
    ∷ param "Правое вращение" 6 (template Req.vd_rotation vd_rotate_right)
    ∷ []

abbrev pub supported_commands : List NamedCommand
supported_commands =
    record {
      cmd_type = 24;
      name = "Изменить уставку";
      description = "Изменение уставок";
      args =
          list_named "уставка" (setting_params all_settings) ∷ float_named "значение уставки" ∷ [];
    }
    ∷ record {
      cmd_type = 2;
      name = "Управление ВД";
      description = "Команды управления ВД";
      args = list_named "Команда ВД" motor_params ∷ [];
    }
    ∷ []

abbrev pub tilde : ℕ
tilde = 126

unfoldable pub print_params : List ArgParam → Word
print_params [] = []
print_params (p ∷ ps) = 124 ∷ (itoa p.id ++ (tilde ∷ (utf8 p.name ++ print_params ps)))

-- The type of an argument, and the values that it may have.
unfoldable pub print_type : NamedArg → Word
print_type (list_named name ps) = utf8 name ++ (utf8 "|list" ++ print_params ps)
print_type (float_named name) = utf8 name ++ utf8 "|float"

-- The arguments, from the number `j`.
unfoldable pub print_args : ℕ → List NamedArg → Word
print_args j [] = []
print_args j (arg ∷ args) =
    tilde ∷ (itoa (j + 1) ++ (124 ∷ (print_type arg ++ (10 ∷ print_args (j + 1) args))))

unfoldable pub get_supported_commands : List NamedCommand → Word
get_supported_commands [] = []
get_supported_commands (c ∷ cs) =
    itoa c.cmd_type
    ++ (124
        ∷ (utf8 c.name
            ++ (124
                ∷ (utf8 c.description
                    ++ (10 ∷ (print_args 0 c.args ++ get_supported_commands cs))))))

-- A command without its names.
abbrev pub plain_params : List ArgParam → List (ℕ × CmdTemplate)
plain_params [] = []
plain_params (p ∷ ps) = (p.id, p.device_data) ∷ plain_params ps

abbrev pub plain_arg : NamedArg → CommandArg
plain_arg (list_named name ps) = list_arg (plain_params ps)
plain_arg (float_named name) = float_arg

abbrev pub plain_command : NamedCommand → AdapterCommand
plain_command c = record { cmd_type = c.cmd_type; args = map plain_arg c.args }

-- They are the commands that `CreateExternalCommand` searches.
pub plain_commands : map plain_command supported_commands ≡ external_commands
plain_commands = refl
