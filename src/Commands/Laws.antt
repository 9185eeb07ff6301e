-- ===== src/Commands/Laws.antt =====
-- What the creation of commands guarantees to the serial line, and what it makes of sync_time.
use ritex.Base.{
  ℕ, ◌+◌, ◌%◌, ◌^◌, ◌≡◌, refl, sym, ap, ◌∙◌, Bool, true, false, ◌&&◌, Option, none, some, List, [],
  ◌∷◌, ◌==◌, if◌then◌else◌, ltb, length, get_elem?,
}
use ritex.Protocol.{type_cmd, is_length_matches, scan}
use ritex.Protocol.Req
use ritex.Packet.{DataPacket, size}
use ritex.Device.Table.{Setting, all_settings}
use ritex.CmdLine.Words.{Word, bytes_of, split}
use ritex.CmdLine.Compile.{Compiled}
use ritex.CmdLine.Compile.Laws.{bind_some}
use ritex.Commands.Table.{
  CmdTemplate, list_arg, float_arg, AdapterCommand, setting_templates, motor_templates,
  external_commands, find_command, find_template, list_val, Conversions, ExternalCommand,
  read_message, external_of,
}
use ritex.Commands.{
  create_external_command, Created, external, custom_packet, get_int_parameter, get_text_parameter,
}

-- The commands that `ExecuteCustomCommand` makes a packet for.
data IsCustom : ℕ → Type 0 where
  setting_set : IsCustom Req.setting_set
  vd_on : IsCustom Req.vd_on
  vd_off : IsCustom Req.vd_off
  vd_rotation : IsCustom Req.vd_rotation

abbrev Accepts : ℕ → ℕ → ℕ → ℕ → Type 0
Accepts now cmd p1 p2 =
    (packet : DataPacket) × (custom_packet now cmd p1 p2 ≡ some packet)
    × (packet.cmd ≡ cmd)
    × (is_length_matches packet.cmd (size packet + 1) ≡ some type_cmd)

custom-Accepts : (now cmd p1 p2 : ℕ) → IsCustom cmd → Accepts now cmd p1 p2
unfolding custom_packet is_length_matches scan
custom-Accepts now cmd p1 p2 setting_set = (_, refl, refl, refl)
custom-Accepts now cmd p1 p2 vd_on = (_, refl, refl, refl)
custom-Accepts now cmd p1 p2 vd_off = (_, refl, refl, refl)
custom-Accepts now cmd p1 p2 vd_rotation = (_, refl, refl, refl)

pub some_inj : {A : Type 0} {a b : A} → ◌≡◌ {A = Option A} (some a) (some b) → a ≡ b
some_inj h = cc h

if_some :
    {A : Type 0} (b : Bool) (x : Option A) (a : A) → (if b then x else none) ≡ some a → x ≡ some a
if_some true x a h = h
if_some false x a h = absurd (cc h)

-- All commands of a list are such.
abbrev AllCustom : List (ℕ × CmdTemplate) → Type 0
AllCustom [] = Unit
AllCustom ((id, tm) ∷ tms) = IsCustom tm.cmd × AllCustom tms

settings-AllCustom : (ss : List Setting) → AllCustom (setting_templates ss)
settings-AllCustom [] = tt
settings-AllCustom (s ∷ ss) = (setting_set, settings-AllCustom ss)

motor-AllCustom : AllCustom motor_templates
motor-AllCustom = (vd_on, (vd_off, (vd_on, (vd_on, (vd_rotation, (vd_rotation, tt))))))

find_template-IsCustom :
    (id : ℕ) (tms : List (ℕ × CmdTemplate)) (tm : CmdTemplate)
    → AllCustom tms
    → find_template id tms ≡ some tm
    → IsCustom tm.cmd
unfolding find_template
find_template-IsCustom id [] tm all h = absurd (cc h)
find_template-IsCustom id ((k, t) ∷ tms) tm (first, all) h =
    here (k == id) h λ e. find_template-IsCustom id tms tm all e
  where
    here :
        (b : Bool)
        → (if b then some t else find_template id tms) ≡ some tm
        → (find_template id tms ≡ some tm → IsCustom tm.cmd)
        → IsCustom tm.cmd
    here true e later = let same : t ≡ tm = cc e in rw (sym same) first
    here false e later = later e

command_IsCustom :
    (type : ℕ) (command : AdapterCommand)
    → find_command type external_commands ≡ some command
    → AllCustom (list_val (get_elem? command.args 0))
unfolding find_command
command_IsCustom type command h = here (24 == type) (2 == type) h
  where
    settings : AdapterCommand
    settings = record {
      cmd_type = 24;
      args = list_arg (setting_templates all_settings) ∷ float_arg ∷ [];
    }

    motor : AdapterCommand
    motor = record { cmd_type = 2; args = list_arg motor_templates ∷ [] }

    here :
        (a b : Bool)
        → (if a then some settings else if b then some motor else none) ≡ some command
        → AllCustom (list_val (get_elem? command.args 0))
    here true b e =
        let same : settings ≡ command = cc e in rw (sym same) (settings-AllCustom all_settings)
    here false true e = let same : motor ≡ command = cc e in rw (sym same) motor-AllCustom
    here false false e = absurd (cc e)

read_message-IsCustom :
    (n : Conversions) (command : AdapterCommand) (params : List Word) (e : ExternalCommand)
    → AllCustom (list_val (get_elem? command.args 0))
    → read_message n command params ≡ some e
    → IsCustom e.cmd_id
unfolding read_message
read_message-IsCustom n command params e all h =
    let passed = if_some (length command.args == length params) _ e h in
    let (first, given, rest) = bind_some (get_elem? params 0) _ e passed in
    let (tm, found, made) =
      bind_some (find_template (n.atoi first) (list_val (get_elem? command.args 0))) _ e rest in
    let custom = find_template-IsCustom (n.atoi first) _ tm all found in
    let same : tm.cmd ≡ e.cmd_id = ap (λ (x : ExternalCommand). x.cmd_id) (some_inj made) in
    rw (sym same) custom

external_of-IsCustom :
    (n : Conversions) (type : ℕ) (message : Word) (e : ExternalCommand)
    → external_of n type message ≡ some e
    → IsCustom e.cmd_id
unfolding external_of
external_of-IsCustom n type message e h =
    let passed = if_some (ltb 0 type && ltb type (2 ^ 31)) _ e h in
    let (command, found, rest) = bind_some (find_command type external_commands) _ e passed in
    read_message-IsCustom n command (split b'~' message) e (command_IsCustom type command found)
      rest

custom_byte : (cmd : ℕ) → IsCustom cmd → cmd % 2 ^ 8 ≡ cmd
custom_byte cmd setting_set = refl
custom_byte cmd vd_on = refl
custom_byte cmd vd_off = refl
custom_byte cmd vd_rotation = refl

-- Every command for the station that CreateExternalCommand creates, whatever the client wrote, is
-- one that ExecuteCustomCommand makes a packet for, and the packet has a length that the table of
-- commands accepts.
pub create_external_command-is_length_matches :
    (n : Conversions) (unset limit now : ℕ) (c : Compiled) (r : Created)
    → create_external_command n unset limit c ≡ some r
    → (comm : Word) × (speed : ℕ) × (e : ExternalCommand) × (packet : DataPacket) × (r.command
        ≡ some (external comm speed e))
      × (custom_packet now (e.cmd_id % 2 ^ 8) e.param1 e.param2 ≡ some packet)
      × (is_length_matches packet.cmd (size packet + 1) ≡ some type_cmd)
unfolding create_external_command
create_external_command-is_length_matches n unset limit now c r h =
    let ((found, comm), text, h1) = bind_some (get_text_parameter c (bytes_of "comdevice")) _ r h in
    let ((known, speed), number, h2) =
      bind_some (get_int_parameter c (bytes_of "baudrate") unset) _ r h1 in
    let (e, of, made) = bind_some (external_of n c.cmd_type c.message_raw) _ r h2 in
    let custom = external_of-IsCustom n c.cmd_type c.message_raw e of in
    let (packet, written, same, accepted) = custom-Accepts now e.cmd_id e.param1 e.param2 custom in
    let command = ap (λ (x : Created). x.command) (some_inj made) in
    (
      comm,
      speed,
      e,
      packet,
      sym command,
      ap (λ k. custom_packet now k e.param1 e.param2) (custom_byte e.cmd_id custom) ∙ written,
      accepted,
    )
