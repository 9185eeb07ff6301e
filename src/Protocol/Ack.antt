-- ===== src/Protocol/Ack.antt =====
-- The reply codes `ACK_...` of src/RitexDevice.h.
use ritex.Base.{ℕ, ◌+◌, ◌*◌}

-- `WRITE_MODE_0` to `WRITE_MODE_6`.
abbrev pub write_mode : ℕ → ℕ
write_mode n = n * 0x100

abbrev pub info : ℕ
info = 0x64

-- `ACK_INFO_MODE_n` is `WRITE_MODE_n | ACK_INFO`; the two have no bit in common.
abbrev pub info_mode : ℕ → ℕ
info_mode n = write_mode n + 0x64

abbrev pub stored_info : ℕ
stored_info = 0x68

abbrev pub all_settings : ℕ
all_settings = 0x6c

abbrev pub ack : ℕ
ack = 0x0b

abbrev pub passwords : ℕ
passwords = 0x70
