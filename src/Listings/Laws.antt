-- ===== src/Listings/Laws.antt =====
-- What a client reads back from the tables of the channels.
use Prim.Native.String.{String}
use ritex.Base.{
  ℕ, ◌≡◌, refl, sym, Bool, true, false, List, [], ◌∷◌, ◌++◌, ◌==◌, All, map, append_assoc, arith,
  if◌then◌else◌,
}
use ritex.Decimal.{itoa}
use ritex.Decimal.Laws.{itoa-IsPlain, All-append}
use ritex.CmdLine.Words.{Word}
use ritex.CmdLine.Words.Laws.{IsPlain}
use ritex.Daemon.Frame.{utf8}
use ritex.Device.Channels.{Channel}
use ritex.Listings.{
  newline, bar, quote, Sensor, print_parameter, print_channels, print_sensors_info, show_info,
}
use ritex.Listings.Rows.{write_rows, read_rows, IsRow, read_rows-write_rows}

abbrev flag_row : Bool → Word
flag_row b = (if b then 49 else 48) ∷ []

-- The fields of one parameter.
abbrev pub parameter_row : Bool → Channel → List Word
parameter_row is_device_channel ch =
    itoa ch.parameter.id
    ∷ utf8 ch.parameter.name
    ∷ flag_row is_device_channel
    ∷ (49 ∷ [])
    ∷ utf8 "X:X:X:X"
    ∷ (48 ∷ [])
    ∷ []

abbrev pub sensor_rows : List Sensor → List (List Word)
sensor_rows [] = []
sensor_rows (sensor ∷ sensors) = map (parameter_row false) sensor.channels ++ sensor_rows sensors

abbrev quoted_word : String → Word
quoted_word s = quote ∷ (utf8 s ++ (quote ∷ []))

abbrev pub info_rows : String → String → String → List Channel → List Sensor → List (List Word)
info_rows name version description channels sensors =
    (quoted_word name ∷ quoted_word version ∷ quoted_word description ∷ [])
    ∷ (map (parameter_row true) channels ++ sensor_rows sensors)

-- A text of one field.
abbrev pub IsField : String → Type 0
IsField s = IsPlain bar (utf8 s) × IsPlain newline (utf8 s)

abbrev pub AreFields : List Channel → Type 0
AreFields [] = Unit
AreFields (ch ∷ chs) = IsField ch.parameter.name × AreFields chs

abbrev pub SensorsAreFields : List Sensor → Type 0
SensorsAreFields [] = Unit
SensorsAreFields (s ∷ ss) = AreFields s.channels × SensorsAreFields ss

pub write_rows-append :
    (a b : List (List Word)) → write_rows (a ++ b) ≡ write_rows a ++ write_rows b
write_rows-append [] b = refl
write_rows-append (row ∷ a) b = rw (write_rows-append a b, append_assoc) refl

print_channels-rows :
    (is_device : Bool) (chs : List Channel)
    → print_channels is_device chs ≡ write_rows (map (parameter_row is_device) chs)
unfolding print_channels print_parameter
print_channels-rows is_device [] = refl
print_channels-rows is_device (ch ∷ chs) =
    rw (print_channels-rows is_device chs) (simp append_assoc refl)

print_sensors_info-rows :
    (sensors : List Sensor) → print_sensors_info sensors ≡ write_rows (sensor_rows sensors)
unfolding print_sensors_info
print_sensors_info-rows [] = refl
print_sensors_info-rows (s ∷ ss) =
    rw (print_channels-rows false s.channels, print_sensors_info-rows ss)
      (sym (write_rows-append (map (parameter_row false) s.channels) (sensor_rows ss)))

show_info-rows :
    (name version description : String) (channels : List Channel) (sensors : List Sensor)
    → show_info name version description channels sensors
      ≡ write_rows (info_rows name version description channels sensors)
unfolding show_info
show_info-rows name version description channels sensors =
    rw
      (
        print_channels-rows true channels,
        print_sensors_info-rows sensors,
        write_rows-append (map (parameter_row true) channels) (sensor_rows sensors),
      )
      (simp append_assoc refl)

flag_plain :
    (delim : ℕ) (b : Bool)
    → (49 == delim) ≡ false
    → (48 == delim) ≡ false
    → IsPlain delim (flag_row b)
flag_plain delim true h k = (h, tt)
flag_plain delim false h k = (k, tt)

parameter_row-IsRow :
    (is_device : Bool) (ch : Channel)
    → IsField ch.parameter.name
    → IsRow (parameter_row is_device ch)
parameter_row-IsRow is_device ch h = record {
  no_bar = (
    itoa-IsPlain bar ch.parameter.id (λ d. omega (arith, d)),
    (
      h.0,
      (
        flag_plain bar is_device refl refl,
        (
          (refl, tt),
          ((refl, (refl, (refl, (refl, (refl, (refl, (refl, tt))))))), ((refl, tt), tt)),
        ),
      ),
    ),
  );
  one_line = (
    itoa-IsPlain newline ch.parameter.id (λ d. omega (arith, d)),
    (
      h.1,
      (
        flag_plain newline is_device refl refl,
        (
          (refl, tt),
          ((refl, (refl, (refl, (refl, (refl, (refl, (refl, tt))))))), ((refl, tt), tt)),
        ),
      ),
    ),
  );
  named = λ e. ground (arith, e);
}

channels-IsRow :
    (is_device : Bool) (chs : List Channel)
    → AreFields chs
    → All IsRow (map (parameter_row is_device) chs)
channels-IsRow is_device [] h = tt
channels-IsRow is_device (ch ∷ chs) (h, hs) =
    (parameter_row-IsRow is_device ch h, channels-IsRow is_device chs hs)

pub rows-append : (a b : List (List Word)) → All IsRow a → All IsRow b → All IsRow (a ++ b)
rows-append [] b h k = k
rows-append (row ∷ a) b (h, hs) k = (h, rows-append a b hs k)

sensors-IsRow : (sensors : List Sensor) → SensorsAreFields sensors → All IsRow (sensor_rows sensors)
sensors-IsRow [] h = tt
sensors-IsRow (s ∷ ss) (h, hs) =
    rows-append (map (parameter_row false) s.channels) (sensor_rows ss)
      (channels-IsRow false s.channels h) (sensors-IsRow ss hs)

quoted_plain :
    (delim : ℕ) (s : String)
    → (quote == delim) ≡ false
    → IsPlain delim (utf8 s)
    → IsPlain delim (quoted_word s)
quoted_plain delim s h k =
    (h, All-append (λ (c : ℕ). (c == delim) ≡ false) (utf8 s) (quote ∷ []) k (h, tt))

header-IsRow :
    (name version description : String)
    → IsField name
    → IsField version
    → IsField description
    → IsRow (quoted_word name ∷ quoted_word version ∷ quoted_word description ∷ [])
header-IsRow name version description n v d = record {
  no_bar = (
    quoted_plain bar name refl n.0,
    (quoted_plain bar version refl v.0, (quoted_plain bar description refl d.0, tt)),
  );
  one_line = (
    quoted_plain newline name refl n.1,
    (quoted_plain newline version refl v.1, (quoted_plain newline description refl d.1, tt)),
  );
  named = λ e. ground (arith, e);
}

-- For names that have no bar and no end of a line in them: what CmdShowInfo prints, split into
-- lines and these at the bars, is the row of the quoted name, version and description, and one row
-- for each channel of the device and then of the sensors, with the number of its parameter, its
-- name, and whether it is a channel of the device.
pub read_rows-show_info :
    (name version description : String) (channels : List Channel) (sensors : List Sensor)
    → IsField name
    → IsField version
    → IsField description
    → AreFields channels
    → SensorsAreFields sensors
    → read_rows (show_info name version description channels sensors)
      ≡ info_rows name version description channels sensors
read_rows-show_info name version description channels sensors n v d chs ss =
    rw (show_info-rows name version description channels sensors) (
      read_rows-write_rows (info_rows name version description channels sensors) (
        header-IsRow name version description n v d,
        rows-append (map (parameter_row true) channels) (sensor_rows sensors)
            (channels-IsRow true channels chs) (sensors-IsRow sensors ss),
      ))
