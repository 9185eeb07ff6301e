-- ===== src/Replies.antt =====
-- The replies to the commands of a client: `SetReply` of src/DeviceCommand.cpp, src/CmdTestDevice.cpp
-- and src/CmdExternal.cpp. A text is the list of its parts, since `itoa` writes the digits of a
-- number. The faults are those of src/ErrorsMsg.h, which repeats the table of the device and adds two
-- codes that no byte has.
pub mod Laws
pub mod Queue
pub mod Examples
use ritex.Base.{
  ℕ, ◌+◌, Bool, true, false, ◌||◌, Option, none, some, List, [], ◌∷◌, ◌==◌, if◌then◌else◌, get_or,
  get_elem?, ◌>>=◌,
}
use Prim.Native.String.{String}
use ritex.Protocol.Req
use ritex.Protocol.Ack
use ritex.Packet.{DataPacket, swap16, load16}
use ritex.Port.{Error, bad_crc, timeout, bad_packet, other, oom, unexpected_packet}
use ritex.Device.Table.{Setting}
use ritex.Device.Settings.{set_current_setting_value, get_setting_name}
use ritex.Device.Event.{DbEvent, Argument}
use ritex.Device.Event
use ritex.Device.Faults.{get_fault_text, report_station_state}
use ritex.Traffic.Motor.{Answer}

-- `status e` is the decimal number of an error.
pub data Part : Type 0 where
  text : String → Part
  number : ℕ → Part
  status : Error → Part

abbrev pub error_result : Error → List Part
error_result bad_crc = text "7;Ошибка в CRC\n" ∷ []
error_result timeout = text "7;Станция не отвечает\n" ∷ []
error_result e = text "7;Ошибка неизвестна: код " ∷ status e ∷ text "\n" ∷ []

abbrev pub fault_result : ℕ → List Part
fault_result code =
    text "7;Ошибка. Код " ∷ number code ∷ text ": " ∷ text (get_fault_text code) ∷ text "\n" ∷ []

-- `CmdTestDevice`: the hours of work are at byte 33 of a reply in mode 0. `none` is a read behind the
-- data, which the code does not guard against, or a call through a null pointer, for an answer that has
-- neither a packet nor an error.
unfoldable pub test_device_packet : DataPacket → Option (List Part)
test_device_packet packet =
    if packet.cmd == Ack.info_mode 0
    then (do
      high ← get_elem? packet.bytes 33
      low ← get_elem? packet.bytes 34
      some (
          text "8|Ответ получен. Наработка "
          ∷ number (swap16 (load16 high low))
          ∷ text " часов\n"
          ∷ []))
    else some (text "7|Получен неизвестный ответ\n" ∷ [])

unfoldable pub test_device_reply : Answer → Option (List Part)
test_device_reply answer = elim answer.error [
  | some e ↦ some (error_result e)
  | none ↦ elim answer.packet [ none ↦ none | some packet ↦ test_device_packet packet ]
]

-- An external command: `m_cmdId`, `m_param1` and `m_param2`, and the text that says who gave it.
pub record External : Type 0 where
  pub cmd_id : ℕ
  pub param1 : ℕ
  pub param2 : ℕ
  pub source : String

-- What a reply does: `m_rawResult`, the settings after it, and the events that were reported.
pub record Replied : Type 0 where
  pub raw_result : List Part
  pub settings : List Setting
  pub events : List DbEvent

-- The event about a setting that a client changed.
abbrev pub changed_event : Option ℕ → ℕ → External → ℕ → String → DbEvent
changed_event channel now command old name = record {
  type_id = 11;
  channel_id = channel;
  register_time = now;
  argument1 = Event.number command.param2;
  argument2 = Event.number old;
  argument3 = Event.text name;
  argument4 = Event.text command.source;
}

abbrev pub setting_changed : List Part
setting_changed = text "8;Уставка изменена\n" ∷ []

-- After `SetCurrentSettingValue`. `none` is the end of the program by an assertion.
abbrev pub reply_changed :
    Option ℕ → ℕ → External → Option (List Setting × Option ℕ) → Option Replied
reply_changed channel now command none = none
reply_changed channel now command (some (settings, none)) =
    some (record { raw_result = setting_changed; settings = settings; events = [] })
reply_changed channel now command (some (settings, some old)) =
    elim (get_setting_name command.param1 settings) [
      | none ↦ none
      | some name ↦ some (record {
        raw_result = setting_changed;
        settings = settings;
        events = changed_event channel now command old name ∷ [];
      })
    ]

abbrev pub says : List Part → List Setting → List DbEvent → Option Replied
says raw settings events = some (record { raw_result = raw; settings = settings; events = events })

unfoldable pub reply_setting_set :
    Option ℕ → ℕ → External → List Setting → DataPacket → Option Replied
reply_setting_set channel now command settings packet =
    if packet.cmd == Ack.ack
    then says (fault_result (get_or packet.bytes 0 0)) settings []
    else if packet.cmd == Ack.all_settings
    then reply_changed channel now command
        (set_current_setting_value command.param1 command.param2 settings)
    else says [] settings []

abbrev pub motor_events : Option ℕ → ℕ → External → List DbEvent
motor_events channel now command =
    if command.cmd_id == Req.vd_on
    then report_station_state channel 1 0 now command.source ∷ []
    else if command.cmd_id == Req.vd_off
    then report_station_state channel 0 1 now command.source ∷ []
    else []

abbrev pub unknown_reply : List Part
unknown_reply = text "7;Получен неизвестный ответ\n" ∷ []

unfoldable pub reply_motor : Option ℕ → ℕ → External → List Setting → DataPacket → Option Replied
reply_motor channel now command settings packet =
    if packet.cmd == Ack.ack
    then says (fault_result (get_or packet.bytes 0 0)) settings []
    else if packet.cmd == Ack.info
    then says (text "8;Прием без ошибок\n" ∷ []) settings (motor_events channel now command)
    else says unknown_reply settings []

abbrev pub is_motor : ℕ → Bool
is_motor cmd = cmd == Req.vd_off || (cmd == Req.vd_on || cmd == Req.vd_rotation)

unfoldable pub reply_to : Option ℕ → ℕ → External → List Setting → DataPacket → Option Replied
reply_to channel now command settings packet =
    if command.cmd_id == Req.setting_set
    then reply_setting_set channel now command settings packet
    else if is_motor command.cmd_id
    then reply_motor channel now command settings packet
    else says [] settings []

-- `SetReply` of `CmdExternal`. `none` is also a call through a null pointer, for an answer that has
-- neither a packet nor an error.
unfoldable pub external_reply : Option ℕ → ℕ → External → List Setting → Answer → Option Replied
external_reply channel now command settings answer = elim answer.error [
  | some e ↦ says (error_result e) settings []
  | none ↦ elim answer.packet [
    | none ↦ none
    | some packet ↦ reply_to channel now command settings packet
  ]
]
