-- ===== src/Commands/Table.antt =====
-- The tables of commands that the constructor of RitexDevice in src/RitexDevice.cpp makes, and the search
-- of `CreateExternalCommand` in them. `none` is an assertion that fails, or a null pointer.
use ritex.Base.{
  ℕ, ◌%◌, ◌^◌, ◌&&◌, Option, none, some, List, [], ◌∷◌, ◌==◌, if◌then◌else◌, ltb, length, get_elem?,
  ◌>>=◌, get_or,
}
use ritex.Protocol.Req
use ritex.Device.Table.{Setting, all_settings}
use ritex.CmdLine.Words.{Word, split}

-- `cmd_template_t`.
pub record CmdTemplate : Type 0 where
  pub cmd : ℕ
  pub param : ℕ

abbrev pub template : ℕ → ℕ → CmdTemplate
template cmd param = record { cmd = cmd; param = param % 2 ^ 8 }

-- `AdapterCommandArg`: a list of the numbers that a client may give, or a number.
pub data CommandArg : Type 0 where
  list_arg : List (ℕ × CmdTemplate) → CommandArg
  float_arg : CommandArg

-- `AdapterCommand`.
pub record AdapterCommand : Type 0 where
  pub cmd_type : ℕ
  pub args : List CommandArg

abbrev pub setting_templates : List Setting → List (ℕ × CmdTemplate)
setting_templates [] = []
setting_templates (s ∷ ss) = (s.id, template Req.setting_set s.id) ∷ setting_templates ss

abbrev pub vd_on_start : ℕ
vd_on_start = 0

abbrev pub vd_on_reset : ℕ
vd_on_reset = 0x16

abbrev pub vd_on_tune : ℕ
vd_on_tune = 1

abbrev pub vd_rotate_left : ℕ
vd_rotate_left = 0

abbrev pub vd_rotate_right : ℕ
vd_rotate_right = 4

abbrev pub motor_templates : List (ℕ × CmdTemplate)
motor_templates =
    (1, template Req.vd_on vd_on_start)
    ∷ (2, template Req.vd_off 0)
    ∷ (3, template Req.vd_on vd_on_reset)
    ∷ (4, template Req.vd_on vd_on_tune)
    ∷ (5, template Req.vd_rotation vd_rotate_left)
    ∷ (6, template Req.vd_rotation vd_rotate_right)
    ∷ []

abbrev pub external_commands : List AdapterCommand
external_commands =
    record { cmd_type = 24; args = list_arg (setting_templates all_settings) ∷ float_arg ∷ [] }
    ∷ record { cmd_type = 2; args = list_arg motor_templates ∷ [] }
    ∷ []

unfoldable pub find_command : ℕ → List AdapterCommand → Option AdapterCommand
find_command type [] = none
find_command type (c ∷ cs) =
    let rest = find_command type cs in if c.cmd_type == type then some c else rest

unfoldable pub find_template : ℕ → List (ℕ × CmdTemplate) → Option CmdTemplate
find_template id [] = none
find_template id ((k, tm) ∷ tms) =
    let rest = find_template id tms in if k == id then some tm else rest

-- The list of the first argument; a number has an empty one.
abbrev pub list_val : Option CommandArg → List (ℕ × CmdTemplate)
list_val none = []
list_val (some (list_arg tms)) = tms
list_val (some float_arg) = []

-- `atoi`, and `(unsigned short)atof`.
pub record Conversions : Type 0 where
  pub atoi : Word → ℕ
  pub atof_ushort : Word → ℕ

-- `CmdExternal`: what it carries for the station.
pub record ExternalCommand : Type 0 where
  pub cmd_id : ℕ
  pub param1 : ℕ
  pub param2 : ℕ

-- The message of a command, split at `~`: as many parts as the command has arguments.
unfoldable pub read_message : Conversions → AdapterCommand → List Word → Option ExternalCommand
read_message n command params =
    if length command.args == length params
    then (do
      first ← get_elem? params 0
      tm ← find_template (n.atoi first) (list_val (get_elem? command.args 0))
      some (record {
        cmd_id = tm.cmd;
        param1 = tm.param;
        param2 = if ltb 1 (length command.args) then n.atof_ushort (get_or params 1 []) else 0;
      }))
    else none

-- The assertion on the type, as an int, and the search for it.
unfoldable pub external_of : Conversions → ℕ → Word → Option ExternalCommand
external_of n type message =
    if ltb 0 type && ltb type (2 ^ 31)
    then (do
      command ← find_command type external_commands
      read_message n command (split b'~' message))
    else none
