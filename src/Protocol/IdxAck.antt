-- ===== src/Protocol/IdxAck.antt =====
-- The indices `IDX_ACK_...` at the top of src/ComTrafficProcessor.cpp.
use ritex.Base.{ℕ}

abbrev pub ack : ℕ
ack = 0

abbrev pub passwords : ℕ
passwords = 1

abbrev pub all_settings : ℕ
all_settings = 2

abbrev pub info : ℕ
info = 3

abbrev pub stored_info : ℕ
stored_info = 4
