-- ===== src/Listings.antt =====
-- The commands that print a table on the output of the adapter: `Execute` of src/CmdShowInfo.cpp,
-- src/CmdShowParameters.cpp, src/CmdGetAdditionalParameters.cpp and src/CmdGetSupportedCommands.cpp. An
-- output is its bytes. No number of the tables is negative. `%g` of printf is a parameter.
pub mod Commands
pub mod Rows
pub mod Laws
pub mod Parameters
pub mod Offers
pub mod Supported
pub mod Examples
use Prim.Native.String.{String}
use ritex.Base.{ℕ, Bool, true, false, List, [], ◌∷◌, ◌++◌, if◌then◌else◌}
use ritex.Decimal.{itoa}
use ritex.CmdLine.Words.{Word}
use ritex.CmdLine.Compile.{
  AdditionalParameter, param_type_int, param_type_float, param_type_string, param_type_list,
}
use ritex.CmdLine.Options.{Options}
use ritex.Daemon.Frame.{utf8}
use ritex.Device.Channels.{Parameter, Channel, sensor_channels}

abbrev pub newline : ℕ
newline = 10

abbrev pub quote : ℕ
quote = 34

abbrev pub comma : ℕ
comma = 44

abbrev pub dash : ℕ
dash = 45

abbrev pub bar : ℕ
bar = 124

-- `Sensor`, and the one of the device.
pub record Sensor : Type 0 where
  pub id : ℕ
  pub channels : List Channel

abbrev pub ritex_sensor : Sensor
ritex_sensor = record { id = 1; channels = sensor_channels }

abbrev flag : Bool → ℕ
flag b = if b then 49 else 48

-- `printParameter`. Every parameter is overridable, has this argument, and is not driven by events.
unfoldable pub print_parameter : Bool → Parameter → Word
print_parameter is_device_channel p =
    itoa p.id
    ++ (bar
        ∷ (utf8 p.name
            ++ (bar
                ∷ flag is_device_channel
                ∷ bar
                ∷ 49
                ∷ bar
                ∷ (utf8 "X:X:X:X" ++ (bar ∷ 48 ∷ newline ∷ [])))))

unfoldable pub print_channels : Bool → List Channel → Word
print_channels is_device_channel [] = []
print_channels is_device_channel (ch ∷ chs) =
    print_parameter is_device_channel ch.parameter ++ print_channels is_device_channel chs

unfoldable pub print_sensors_info : List Sensor → Word
print_sensors_info [] = []
print_sensors_info (sensor ∷ sensors) =
    print_channels false sensor.channels ++ print_sensors_info sensors

abbrev quoted : String → Word → Word
quoted s rest = quote ∷ (utf8 s ++ (quote ∷ rest))

-- `CmdShowInfo`, with the name, the version and the description of the adapter.
unfoldable pub show_info : String → String → String → List Channel → List Sensor → Word
show_info name version description channels sensors =
    quoted name (bar ∷ quoted version (bar ∷ quoted description (newline ∷ [])))
    ++ (print_channels true channels ++ print_sensors_info sensors)

unfoldable pub print_pair : Channel → Word
print_pair ch = itoa ch.number ++ (dash ∷ itoa ch.parameter.id)

-- A comma follows every pair but the last.
unfoldable pub print_pairs : List Channel → Word
print_pairs [] = []
print_pairs (ch ∷ []) = print_pair ch
print_pairs (ch ∷ (next ∷ chs)) = print_pair ch ++ (comma ∷ print_pairs (next ∷ chs))

unfoldable pub print_sensors : List Sensor → Word
print_sensors [] = []
print_sensors (sensor ∷ sensors) =
    itoa sensor.id ++ (bar ∷ (print_pairs sensor.channels ++ (newline ∷ print_sensors sensors)))

-- `CmdShowParameters`.
unfoldable pub show_parameters : List Channel → List Sensor → Word
show_parameters channels sensors = print_pairs channels ++ (newline ∷ print_sensors sensors)

unfoldable pub print_words : List Word → Word
print_words [] = newline ∷ []
print_words (word ∷ words) = bar ∷ (word ++ print_words words)

module _ (show_float : ℕ → Word) where
  unfoldable pub print_value : AdditionalParameter → Word
  print_value (param_type_int min max) =
      utf8 "|int|" ++ (itoa min ++ (bar ∷ (itoa max ++ (newline ∷ []))))
  print_value (param_type_float min max) =
      utf8 "|float|" ++ (show_float min ++ (bar ∷ (show_float max ++ (newline ∷ []))))
  print_value (param_type_string str) = utf8 "|string|" ++ (str ++ (newline ∷ []))
  print_value (param_type_list words type) = utf8 "|list" ++ print_words words

  -- `CmdGetAdditionalParameters`: the map in the order of its keys.
  unfoldable pub get_additional_parameters : Options → Word
  get_additional_parameters [] = []
  get_additional_parameters ((name, parameter) ∷ options) =
      name ++ (print_value parameter ++ get_additional_parameters options)
