-- ===== src/Traffic/Exchange.antt =====
-- Requests and their replies: `WaitForKsuActivity`, `ChangeMode`, `SetSetting`, `GetAllSettings`,
-- `GetPasswords`, `SetPassword`, `CaptureDevice` and `RequestCurrentData` of
-- src/ComTrafficProcessor.cpp, with `m_writeMode` as the argument `mode`. The length check makes the
-- bytes that they read those of the reply.
pub mod Laws
use ritex.Base.{
  ℕ, ◌+◌, ◌*◌, ◌^◌, ◌%◌, Bool, true, false, Option, none, some, List, [], ◌∷◌, ◌==◌, if◌then◌else◌,
  get_or,
}
use ritex.Protocol.{type_cmd, ksu_address, get_cmd}
use ritex.Protocol.Req
use ritex.Protocol.Ack
use ritex.Packet.{DataPacket, new_packet, fill, msb, lsb}
use ritex.Port.{
  Port, PortM, ◌>>=◌, ◌>>◌, return, Outcome, ok, err, stuck, Error, unexpected_packet, time,
  read_packet, write_packet,
}

-- What `WaitForKsuActivity` returns and its `error`.
pub data Reply : Type 0 where
  received : DataPacket → Reply
  failed : Error → Reply

unfoldable pub wait_for_ksu_activity : ℕ → PortM Reply
wait_for_ksu_activity mode p = elim (read_packet mode p) [
  | ok packet q ↦ ok (received packet) q
  | err e q ↦ ok (failed e) q
  | stuck ↦ stuck
]

-- A new command packet with its data, written.
unfoldable pub send : ℕ → List ℕ → PortM (Unit {0})
send cmd bytes = do now ← time; write_packet (fill (new_packet type_cmd ksu_address cmd now) bytes)

abbrev pub set_setting : ℕ → ℕ → PortM (Unit {0})
set_setting setting value = send Req.setting_set (setting ∷ msb value ∷ lsb value ∷ [])

abbrev pub get_all_settings : PortM (Unit {0})
get_all_settings = send Req.setting_all_get []

abbrev pub request_current_data : PortM (Unit {0})
request_current_data = send Req.info []

abbrev pub write_mode_offset : ℕ
write_mode_offset = 22

-- The results of the functions below stand with the value that `error` has after them, where `none`
-- is ERROR_READ_NO_ERROR.
abbrev pub change_mode_result : ℕ → Reply → Bool × Option Error
change_mode_result value (failed e) = (false, some e)
change_mode_result value (received packet) =
    if get_cmd packet.cmd == Ack.all_settings
    then (get_or packet.bytes write_mode_offset 0 == value, none)
    else if get_cmd packet.cmd == Ack.ack
    then (false, none)
    else (false, some unexpected_packet)

unfoldable pub change_mode : ℕ → ℕ → PortM (Bool × Option Error)
change_mode mode value = do
  set_setting 45 value
  reply ← wait_for_ksu_activity mode
  return (change_mode_result value reply)

-- The high and the low byte of the password.
abbrev pub get_passwords_result : Reply → Option (ℕ × ℕ) × Option Error
get_passwords_result (failed e) = (none, some e)
get_passwords_result (received packet) =
    if get_cmd packet.cmd == Ack.passwords
    then (some (get_or packet.bytes 2 0, get_or packet.bytes 3 0), none)
    else (none, some unexpected_packet)

unfoldable pub get_passwords : ℕ → PortM (Option (ℕ × ℕ) × Option Error)
get_passwords mode = do
  send Req.password_get []
  reply ← wait_for_ksu_activity mode
  return (get_passwords_result reply)

-- `settings`. The result of the function is true where there are some, and else not initialised;
-- its caller looks at the settings too.
abbrev pub set_password_result : Reply → Option DataPacket × Option Error
set_password_result (failed e) = (none, some e)
set_password_result (received packet) =
    if packet.cmd == Ack.ack
    then (none, none)
    else if packet.cmd == Ack.all_settings
    then (some packet, none)
    else (none, none)

unfoldable pub set_password : ℕ → ℕ → PortM (Option DataPacket × Option Error)
set_password mode password = do
  set_setting 44 password
  reply ← wait_for_ksu_activity mode
  return (set_password_result reply)

abbrev pub capture_device_result : Reply → Bool × Option Error
capture_device_result (failed e) = (false, some e)
capture_device_result (received packet) =
    if get_cmd packet.cmd == Ack.ack then (get_or packet.bytes 0 0 == 150, none) else (false, none)

unfoldable pub capture_device : ℕ → PortM (Bool × Option Error)
capture_device mode = do
  send Req.device_req []
  reply ← wait_for_ksu_activity mode
  return (capture_device_result reply)

-- The nested tests at the start of STATE_CAPTURE_DEVICE in `Run`: the settings of a device that was
-- captured and whose password was set.
unfoldable pub with_password : ℕ → Option (ℕ × ℕ) × Option Error → PortM (Option DataPacket)
with_password mode (none, error) = return none
with_password mode (some (hi, low), error) = do
  result ← set_password mode (hi * 2 ^ 8 + low)
  return result.0

unfoldable pub when_captured : ℕ → Bool × Option Error → PortM (Option DataPacket)
when_captured mode (false, error) = return none
when_captured mode (true, error) = do passwords ← get_passwords mode; with_password mode passwords

unfoldable pub capture : ℕ → PortM (Option DataPacket)
capture mode = do captured ← capture_device mode; when_captured mode captured
