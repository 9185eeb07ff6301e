-- ===== src/Protocol.antt =====
-- The telegrams of the control station (KSU): the constants of src/RitexDevice.h, the tables of
-- commands and replies at the top of src/ComTrafficProcessor.cpp, and the functions that look in
-- them. A mask of low bits is a remainder, and a shift to the right is a division.
pub mod Req
pub mod Ack
pub mod IdxAck
pub mod Laws
pub mod Examples
use ritex.Base.{
  ℕ, zero, suc, ◌+◌, ◌*◌, ◌/◌, ◌%◌, Bool, true, false, ◌&&◌, Option, none, some, List, [], ◌∷◌,
  ◌==◌, if◌then◌else◌, length, take, get_elem?, ◌>>=◌,
}

abbrev pub ksu_address : ℕ
ksu_address = 0x36

abbrev pub get_cmd : ℕ → ℕ
get_cmd x = x % 0x100

abbrev pub get_mode : ℕ → ℕ
get_mode x = x / 0x100 % 0x100

-- `TYPE_CMD` and `TYPE_ACK`.
pub data PacketType : Type 0 where
  type_cmd type_ack : PacketType

-- An index of -1, `IDX_ACK_NONE`, is `none`.
pub record CmdParams : Type 0 where
  pub cmd : ℕ
  pub length : ℕ
  pub ack : Option ℕ

abbrev entry : ℕ → ℕ → Option ℕ → CmdParams
entry c n i = record { cmd = c; length = n; ack = i }

abbrev pub cmd_params : List CmdParams
cmd_params =
    entry Req.vd_off 1 (some IdxAck.info)
    ∷ entry Req.info 1 (some IdxAck.info)
    ∷ entry Req.device_req 1 (some IdxAck.ack)
    ∷ entry Req.setting_all_get 1 (some IdxAck.all_settings)
    ∷ entry Req.password_get 1 (some IdxAck.passwords)
    ∷ entry Req.vd_rotation 2 (some IdxAck.info)
    ∷ entry Req.vd_on 2 (some IdxAck.info)
    ∷ entry Req.set_speed 2 (some IdxAck.ack)
    ∷ entry Req.setting_set 4 (some IdxAck.all_settings)
    ∷ entry Req.stored_info_request 7 (some IdxAck.stored_info)
    ∷ []

abbrev pub ack_params : List CmdParams
ack_params =
    entry Ack.ack 2 none
    ∷ entry Ack.passwords 5 none
    ∷ entry Ack.all_settings 0x30 (some IdxAck.ack)
    ∷ entry (Ack.info_mode 0) 0x28 none
    ∷ entry (Ack.info_mode 1) 0x05 none
    ∷ entry (Ack.info_mode 2) 0x20 none
    ∷ entry (Ack.info_mode 3) 0x12 none
    ∷ entry (Ack.info_mode 4) 0x0d none
    ∷ entry (Ack.info_mode 5) 0x12 none
    ∷ entry (Ack.info_mode 6) 0x13 none
    ∷ entry Ack.stored_info 0x213 none
    ∷ []

abbrev pub max_command_index : ℕ
max_command_index = length cmd_params

-- The macro measures `m_cmdParams` here too, as in the source.
abbrev pub max_ack_index : ℕ
max_ack_index = length cmd_params

-- The loop of `isLengthMatches` over one table.
unfoldable pub scan : List CmdParams → ℕ → ℕ → Bool
scan [] cmd len = false
scan (p ∷ ps) cmd len =
    let rest = scan ps cmd len in if get_cmd p.cmd == cmd && p.length == len then true else rest

-- `type` is the value, and `false` is `none`.
unfoldable pub is_length_matches : ℕ → ℕ → Option PacketType
is_length_matches cmd len =
    if scan (take max_command_index cmd_params) cmd len
    then some type_cmd
    else if scan (take max_ack_index ack_params) cmd len
    then some type_ack
    else none

-- The first loop of `GetAckForCmd` keeps the index of the last entry that fits.
pub ack_index : List CmdParams → ℕ → Option ℕ → Option ℕ
ack_index [] cmd index = index
ack_index (p ∷ ps) cmd index = ack_index ps cmd (if p.cmd == cmd then p.ack else index)

-- `-1` is `none`.
unfoldable pub get_ack_for_cmd : ℕ → Bool → Option ℕ
unfolding ack_index
get_ack_for_cmd cmd primary = do
  index ← ack_index (take max_command_index cmd_params) cmd none
  index ← if primary then some index else (do p ← get_elem? ack_params index; p.ack)
  p ← get_elem? ack_params index
  some p.cmd
