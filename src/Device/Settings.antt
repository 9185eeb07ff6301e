-- ===== src/Device/Settings.antt =====
-- The current settings: `GetSettingFromPacket`, `SetCurrentSettingValue`, `getSettingName`,
-- `CheckSettigsChanged` and the loops of `UpdateSettingsValues` of src/RitexDevice.cpp. `none` is
-- the end of the program by `assert`, or a read outside the data of a packet, which the program logs
-- and then does: its value is undefined.
pub mod Laws
pub mod Stored
use ritex.Base.{
  ℕ, ◌+◌, Bool, true, false, not, ◌&&◌, ◌||◌, Option, none, some, List, [], ◌∷◌, ◌++◌, ◌==◌,
  if◌then◌else◌, ltb, leb, length, get_or, ◌>>=◌, same_text,
}
use ritex.Protocol.Ack
use ritex.Packet.{DataPacket, swap16, load16}
use ritex.Device.Table.{Setting}
use ritex.Device.Event.{DbEvent, Argument, number, text}
use Prim.Native.String.{String}

unfoldable pub get_setting_from_packet : List ℕ → ℕ → ℕ → Option ℕ
get_setting_from_packet bytes offset size =
    if ltb (length bytes) (offset + size)
    then none
    else if size == 1
    then some (get_or bytes offset 0)
    else if size == 2
    then some (swap16 (load16 (get_or bytes offset 0) (get_or bytes (offset + 1) 0)))
    else none

-- `all_Settings` and `m_isFirstSettingsPacket`.
pub record Settings : Type 0 where
  pub table : List Setting
  pub is_first_settings_packet : Bool

-- The event about a setting: its new value, its old one, its name, and who changed it.
abbrev pub setting_event : Option ℕ → ℕ → ℕ → ℕ → String → String → DbEvent
setting_event channel now new old name source = record {
  type_id = 11;
  channel_id = channel;
  register_time = now;
  argument1 = number new;
  argument2 = number old;
  argument3 = text name;
  argument4 = text source;
}

abbrev pub source_of : Bool → String
source_of is_first = if is_first then "INIT" else "HND"

-- The test of the loop of `CheckSettigsChanged`, at a new value.
abbrev pub is_changed : Bool → ℕ → Setting → Bool
is_changed is_first new s = is_first && not s.is_value_set || not (new == s.value)

-- The body of the loop behind the test whether the setting is in the packet.
unfoldable pub check_value : Bool → Option ℕ → ℕ → Setting → ℕ → Setting × List DbEvent
check_value is_first channel now s new =
    if is_changed is_first new s
    then (
      record s { value = new },
      setting_event channel now new s.value s.name (source_of is_first) ∷ [],
    )
    else (s, [])

unfoldable pub check_offset :
    Bool → Option ℕ → ℕ → List ℕ → Setting → Option ℕ → Option (Setting × List DbEvent)
check_offset is_first channel now bytes s none = some (s, [])
check_offset is_first channel now bytes s (some offset) = do
  new ← get_setting_from_packet bytes offset s.size
  some (check_value is_first channel now s new)

unfoldable pub check_setting :
    Bool → Option ℕ → ℕ → List ℕ → Setting → Option (Setting × List DbEvent)
check_setting is_first channel now bytes s =
    if not s.is_visible then some (s, []) else check_offset is_first channel now bytes s s.offset

-- The loop: the settings after it, and the events that were reported.
unfoldable pub check_each :
    Bool → Option ℕ → ℕ → List ℕ → List Setting → Option (List Setting × List DbEvent)
check_each is_first channel now bytes [] = some ([], [])
check_each is_first channel now bytes (s ∷ ss) = do
  (s', es) ← check_setting is_first channel now bytes s
  (ss', fs) ← check_each is_first channel now bytes ss
  some (s' ∷ ss', es ++ fs)

unfoldable pub check_settigs_changed :
    Option ℕ → ℕ → DataPacket → Settings → Option (Settings × List DbEvent)
check_settigs_changed channel now packet st =
    if packet.cmd == Ack.all_settings
    then (do
      (ss, es) ← check_each st.is_first_settings_packet channel now packet.bytes st.table
      some (record { table = ss; is_first_settings_packet = false }, es))
    else none

-- The loop of `SetCurrentSettingValue`: the old value, when the new one differs.
unfoldable pub set_value : ℕ → ℕ → List Setting → List Setting × Option ℕ
set_value id new [] = ([], none)
set_value id new (s ∷ ss) =
    let rest = set_value id new ss in
    if s.id == id
    then (if s.value == new then (s ∷ ss, none) else (record s { value = new } ∷ ss, some s.value))
    else (s ∷ rest.0, rest.1)

abbrev pub first_id : List Setting → ℕ
first_id [] = 0
first_id (s ∷ ss) = s.id

abbrev pub last_id : List Setting → ℕ
last_id [] = 0
last_id (s ∷ []) = s.id
last_id (s ∷ s' ∷ ss) = last_id (s' ∷ ss)

-- The assertion on the number of a setting.
abbrev pub is_known : ℕ → List Setting → Bool
is_known id ss = leb (first_id ss) id && leb id (last_id ss)

unfoldable pub set_current_setting_value : ℕ → ℕ → List Setting → Option (List Setting × Option ℕ)
set_current_setting_value id new ss = if is_known id ss then some (set_value id new ss) else none

unfoldable pub find_name : ℕ → List Setting → String
find_name id [] = ""
find_name id (s ∷ ss) = let rest = find_name id ss in if s.id == id then s.name else rest

unfoldable pub get_setting_name : ℕ → List Setting → Option String
get_setting_name id ss = if is_known id ss then some (find_name id ss) else none

-- The inner loop of `UpdateSettingsValues`, over the settings, for one row of the data base.
unfoldable pub store_value : String → ℕ → List Setting → List Setting
store_value name value [] = []
store_value name value (s ∷ ss) =
    let rest = store_value name value ss in
    if same_text s.name name then record s { value = value; is_value_set = true } ∷ ss else s ∷ rest

-- The rows that the query yields, a name or NULL and a value that fits an unsigned short.
unfoldable pub store_rows : List (Option String × ℕ) → List Setting → List Setting
store_rows [] ss = ss
store_rows ((none, value) ∷ rows) ss = store_rows rows ss
store_rows ((some name, value) ∷ rows) ss = store_rows rows (store_value name value ss)
