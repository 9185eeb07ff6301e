-- ===== src/Listings/Examples.antt =====
-- The tables of the device, printed and read back.
use ritex.Base.{
  ℕ, ◌+◌, ◌-◌, ◌*◌, Bool, true, false, if◌then◌else◌, ◌==◌, ◌≡◌, ◌≢◌, refl, some, List, [], ◌∷◌,
  ◌++◌, inl, map, arith,
}
use Prim.Native.String.{String}
use ritex.CmdLine.Words.{Word, bytes_of}
use ritex.CmdLine.Words.Laws.{IsPlain}
use ritex.Daemon.Frame.{utf8}
use ritex.Protocol.Req
use ritex.Commands.Table.{Conversions, external_of, template}
use ritex.Decimal.{itoa, digits_in}
use ritex.Device.Channels.{Channel, device_channels, sensor_channels}
use ritex.Device.Table.{all_settings}
use ritex.Listings.{newline, bar, ritex_sensor, show_info, show_parameters}
use ritex.Listings.Commands.{
  supported_commands, get_supported_commands, ArgParam, setting_params, motor_params, tilde,
}
use ritex.Listings.Laws.{IsField, info_rows, AreFields, read_rows-show_info}
use ritex.Listings.Offers.{Chosen, external_of-offers}
use ritex.Listings.Parameters.{
  numbers, sensor_numbers, read_parameters, read_parameters-show_parameters,
}
use ritex.Listings.Rows.{read_rows}
use ritex.Listings.Supported.{
  ParamsAreFields, CommandsAreFields, command_rows, read_rows-get_supported_commands,
}

abbrev plain : ℕ → Word → Bool
plain delim [] = true
plain delim (c ∷ w) = if c == delim then false else plain delim w

plain_step :
    (delim c : ℕ) (w : Word) (same : Bool)
    → (c == delim) ≡ same
    → (if same then false else plain delim w) ≡ true
    → (plain delim w ≡ true → IsPlain delim w)
    → IsPlain delim (c ∷ w)
plain_step delim c w true e k ih = absurd (ground (arith, k))
plain_step delim c w false e k ih = (e, ih k)

plain-IsPlain : (delim : ℕ) (w : Word) → plain delim w ≡ true → IsPlain delim w
plain-IsPlain delim [] h = tt
plain-IsPlain delim (c ∷ w) h = plain_step delim c w (c == delim) refl h (plain-IsPlain delim w)

both : (a b : Bool) → (if a then b else false) ≡ true → (a ≡ true) × (b ≡ true)
both true b e = (refl, e)
both false b e = absurd (ground (arith, e))

abbrev is_field : String → Bool
is_field s = if plain bar (utf8 s) then plain newline (utf8 s) else false

is_field-IsField : (s : String) → is_field s ≡ true → IsField s
is_field-IsField s h =
    let (bars, lines) = both (plain bar (utf8 s)) (plain newline (utf8 s)) h in
    (plain-IsPlain bar (utf8 s) bars, plain-IsPlain newline (utf8 s) lines)

abbrev are_fields : List Channel → Bool
are_fields [] = true
are_fields (ch ∷ chs) = if is_field ch.parameter.name then are_fields chs else false

are_fields-AreFields : (chs : List Channel) → are_fields chs ≡ true → AreFields chs
are_fields-AreFields [] h = tt
are_fields-AreFields (ch ∷ chs) h =
    let (first, rest) = both (is_field ch.parameter.name) (are_fields chs) h in
    (is_field-IsField ch.parameter.name first, are_fields-AreFields chs rest)

abbrev params_fields : List ArgParam → Bool
params_fields [] = true
params_fields (p ∷ ps) = if is_field p.name then params_fields ps else false

params_fields-ParamsAreFields : (ps : List ArgParam) → params_fields ps ≡ true → ParamsAreFields ps
params_fields-ParamsAreFields [] h = tt
params_fields-ParamsAreFields (p ∷ ps) h =
    let (first, rest) = both (is_field p.name) (params_fields ps) h in
    (is_field-IsField p.name first, params_fields-ParamsAreFields ps rest)

-- The names of the device hold no bar and no end of a line.
read_rows-show_info_example :
    read_rows
      (show_info "Ritex" "v0.1.17 alpha" "Ritex adapter" device_channels (ritex_sensor ∷ []))
    ≡ info_rows "Ritex" "v0.1.17 alpha" "Ritex adapter" device_channels (ritex_sensor ∷ [])
read_rows-show_info_example =
    read_rows-show_info "Ritex" "v0.1.17 alpha" "Ritex adapter" device_channels (ritex_sensor ∷ [])
      (is_field-IsField "Ritex" refl) (is_field-IsField "v0.1.17 alpha" refl)
      (is_field-IsField "Ritex adapter" refl) (are_fields-AreFields device_channels refl)
      (are_fields-AreFields sensor_channels refl, tt)

supported_fields : CommandsAreFields supported_commands
supported_fields = (
  (
    is_field-IsField "Изменить уставку" refl,
    (is_field-IsField "Изменение уставок" refl, λ e. ground (arith, e)),
  ),
  (
    (
      (
        is_field-IsField "уставка" refl,
        params_fields-ParamsAreFields (setting_params all_settings) refl,
      ),
      (is_field-IsField "значение уставки" refl, tt),
    ),
    ((
      (
        is_field-IsField "Управление ВД" refl,
        (is_field-IsField "Команды управления ВД" refl, λ e. ground (arith, e)),
      ),
      (
        ((is_field-IsField "Команда ВД" refl, params_fields-ParamsAreFields motor_params refl), tt),
        tt,
      ),
    )),
  ),
)

read_rows-get_supported_commands_example :
    read_rows (get_supported_commands supported_commands) ≡ command_rows supported_commands
read_rows-get_supported_commands_example =
    read_rows-get_supported_commands supported_commands supported_fields

sensor_some : sensor_channels ≢ []
sensor_some e = ground (arith, e)

read_parameters-show_parameters_example :
    read_parameters (show_parameters device_channels (ritex_sensor ∷ []))
    ≡ (map numbers device_channels, map sensor_numbers (ritex_sensor ∷ []))
read_parameters-show_parameters_example =
    read_parameters-show_parameters device_channels (ritex_sensor ∷ []) (omega arith)
      (λ e. ground (arith, e)) ((omega arith, (omega arith, sensor_some)), tt)

-- Numbers of two digits.
abbrev two_digits : Word → ℕ
two_digits (a ∷ (b ∷ w)) = 10 * (a - 48) + (b - 48)
two_digits other = 0

abbrev conversions : Conversions
conversions = record { atoi = two_digits; atof_ushort = two_digits }

abbrev frequency : ArgParam
frequency = record { name = "Частота вращения"; id = 31; device_data = template Req.setting_set 31 }

external_of-offers_example :
    (Chosen frequency (setting_params all_settings)
      → external_of conversions 24 (itoa 31 ++ (tilde ∷ bytes_of "50"))
        ≡ some (record { cmd_id = Req.setting_set; param1 = 31; param2 = 50 }))
    × (Chosen frequency motor_params
        → external_of conversions 2 (itoa 31)
          ≡ some (record { cmd_id = Req.setting_set; param1 = 31; param2 = 0 }))
unfolding itoa digits_in
external_of-offers_example =
    external_of-offers conversions frequency (bytes_of "50") refl
      (plain-IsPlain tilde (bytes_of "50") refl) (λ e. ground (arith, e))

-- The frequency is a choice of the table.
frequency_offered : Chosen frequency (setting_params all_settings)
frequency_offered = inl refl
