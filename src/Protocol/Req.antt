-- ===== src/Protocol/Req.antt =====
-- The command codes `REQ_...` of src/RitexDevice.h.
use ritex.Base.{ℕ}

abbrev pub vd_on : ℕ
vd_on = 0x80

abbrev pub vd_off : ℕ
vd_off = 0x84

abbrev pub vd_rotation : ℕ
vd_rotation = 0x8c

abbrev pub setting_set : ℕ
setting_set = 0x90

abbrev pub device_req : ℕ
device_req = 0x88

abbrev pub info : ℕ
info = 0x94

abbrev pub stored_info_request : ℕ
stored_info_request = 0x98

abbrev pub setting_all_get : ℕ
setting_all_get = 0x9c

abbrev pub set_speed : ℕ
set_speed = 0xa0

abbrev pub password_get : ℕ
password_get = 0xa4
