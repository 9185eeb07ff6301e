-- ===== src/Protocol/Laws.antt =====
-- What the length check of a telegram accepts.
use ritex.Base.{
  ℕ, true, ◌&&◌, none, some, List, [], ◌∷◌, ◌==◌, take, ◌≡◌, ◌⊎◌, inl, inr, refl, arith, ◌<◌, ◌≤◌,
  All, Bool-cases,
}
use ritex.Protocol.{
  CmdParams, cmd_params, ack_params, max_ack_index, get_cmd, is_length_matches, scan, PacketType,
  type_cmd, type_ack,
}
use ritex.Protocol.Ack
use mathlib.Core.Path.{subst₂}

both : (P : ℕ → ℕ → Type 0) (a b c d : ℕ) → P a b → (a == c && b == d) ≡ true → P c d
both P a b c d h e = subst₂ P (ground arith) (ground arith) h

abbrev Bounded : ℕ → ℕ → Type 0
Bounded cmd len = (0 < len) × (len ≤ 0x30) × (cmd < 0x100)

-- What holds of every entry of a table holds of what the scan of the table accepts.
scan_sound :
    (P : ℕ → ℕ → Type 0) (ps : List CmdParams) (cmd len : ℕ)
    → All (λ p. P (get_cmd p.cmd) p.length) ps
    → scan ps cmd len ≡ true
    → P cmd len
unfolding scan
scan_sound P [] cmd len all h = cc
scan_sound P (p ∷ ps) cmd len (here, rest) h =
    elim (Bool-cases (get_cmd p.cmd == cmd && p.length == len)) [
      | inl hit ↦ both P (get_cmd p.cmd) p.length cmd len here hit
      | inr miss ↦ scan_sound P ps cmd len rest (rw miss at h)
    ]

is_length_matches_cases :
    (cmd len : ℕ) {t : PacketType}
    → is_length_matches cmd len ≡ some t
    → (scan cmd_params cmd len ≡ true) ⊎ (scan (take max_ack_index ack_params) cmd len ≡ true)
unfolding is_length_matches
is_length_matches_cases cmd len h = ground arith

-- An accepted telegram has a length from 1 to 0x30 and a command of one byte.
pub is_length_matches_bounds :
    (cmd len : ℕ) {t : PacketType}
    → is_length_matches cmd len ≡ some t
    → (0 < len) × (len ≤ 0x30) × (cmd < 0x100)
is_length_matches_bounds cmd len h = elim (is_length_matches_cases cmd len h) [
  | inl e ↦ scan_sound Bounded cmd_params cmd len (omega arith) e
  | inr e ↦ scan_sound Bounded (take max_ack_index ack_params) cmd len (omega arith) e
]

-- A telegram with all settings is accepted at one length.
abbrev OnlyLength : ℕ → ℕ → Type 0
OnlyLength cmd len = cmd ≡ Ack.all_settings → len ≡ 0x30

pub is_length_matches_all :
    (len : ℕ) {t : PacketType} → is_length_matches Ack.all_settings len ≡ some t → len ≡ 0x30
is_length_matches_all len h = elim (is_length_matches_cases Ack.all_settings len h) [
  | inl e ↦ scan_sound OnlyLength cmd_params Ack.all_settings len (omega arith) e refl
  | inr e ↦
      scan_sound OnlyLength (take max_ack_index ack_params) Ack.all_settings len (omega arith) e
        refl
]

abbrev LargeCode : ℕ → ℕ → Type 0
LargeCode cmd len = 1 < cmd

-- No accepted command is 0 or 1.
pub is_length_matches_large :
    (cmd len : ℕ) {t : PacketType} → is_length_matches cmd len ≡ some t → 1 < cmd
is_length_matches_large cmd len h = elim (is_length_matches_cases cmd len h) [
  | inl e ↦ scan_sound LargeCode cmd_params cmd len (omega arith) e
  | inr e ↦ scan_sound LargeCode (take max_ack_index ack_params) cmd len (omega arith) e
]

-- A reply with stored information is refused at every length, also at the length of its own table
-- entry.
pub is_length_matches-stored_info : (len : ℕ) → is_length_matches Ack.stored_info len ≡ none
unfolding is_length_matches scan
is_length_matches-stored_info len = refl

-- Each entry of the command table is accepted as a command at its length, and each of the first ten
-- entries of the reply table as a reply.
is_length_matches_tables :
    All (λ p. is_length_matches (get_cmd p.cmd) p.length ≡ some type_cmd) cmd_params
    × All (λ p. is_length_matches (get_cmd p.cmd) p.length ≡ some type_ack) (take 10 ack_params)
unfolding is_length_matches scan
is_length_matches_tables = ground arith
