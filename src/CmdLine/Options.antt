-- ===== src/CmdLine/Options.antt =====
-- The parameters that the adapter knows: the constructor of `RitexAdapter` in src/RetexAdapter.cpp, and
-- `AddAdditionalParameter` of src/Adapter.cpp.
use ritex.Base.{ℕ, List, [], ◌∷◌}
use ritex.CmdLine.Words.{Word, bytes_of}
use ritex.CmdLine.Command.{assign}
use ritex.CmdLine.Compile.{
  ListValueType, list_value_int, list_value_string, AdditionalParameter, param_type_int,
  param_type_string, param_type_list,
}

-- The devices of the build for the station, without KSU_EMULATOR and RS485_ADAPTER.
abbrev pub comm_devices : List Word
comm_devices =
    bytes_of "/dev/ttySC0"
    ∷ bytes_of "/dev/ttySC1"
    ∷ bytes_of "/dev/ttySC2"
    ∷ bytes_of "/dev/ttySC3"
    ∷ bytes_of "/dev/ttySC4"
    ∷ []

abbrev pub comm_speed : List Word
comm_speed =
    bytes_of "75"
    ∷ bytes_of "110"
    ∷ bytes_of "300"
    ∷ bytes_of "1200"
    ∷ bytes_of "2400"
    ∷ bytes_of "4800"
    ∷ bytes_of "9600"
    ∷ bytes_of "19200"
    ∷ bytes_of "38400"
    ∷ bytes_of "57600"
    ∷ bytes_of "115200"
    ∷ []

abbrev pub Options : Type 0
Options = List (Word × AdditionalParameter)

unfoldable pub add_int_parameter : Word → ℕ → ℕ → Options → Options
add_int_parameter name min max options = assign name (param_type_int min max) options

unfoldable pub add_string_parameter : Word → Word → Options → Options
add_string_parameter name value options = assign name (param_type_string value) options

unfoldable pub add_list_parameter : Word → List Word → ListValueType → Options → Options
add_list_parameter name words type options = assign name (param_type_list words type) options

unfoldable pub adapter_options : Options
adapter_options = add_int_parameter (bytes_of "sync_time") 0 60 (
    add_string_parameter (bytes_of "address") (bytes_of "54") (
      add_int_parameter (bytes_of "debug") 0 5 (
        add_list_parameter (bytes_of "baudrate") comm_speed list_value_int
          (add_list_parameter (bytes_of "comdevice") comm_devices list_value_string []))))
