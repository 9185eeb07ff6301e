-- ===== src/Device/Settings/Laws.antt =====
-- What a packet with all settings does to the current settings.
use ritex.Base.{
  ℕ, ◌+◌, ◌≡◌, refl, sym, ap, ◌∙◌, Bool, true, false, not, ◌&&◌, ◌||◌, Option, none, some, List, [],
  ◌∷◌, ◌++◌, ◌==◌, if◌then◌else◌, leb, length, get_or, All, map, arith, inl, inr, Bool-cases,
  ==_refl,
}
use ritex.Protocol.Ack
use ritex.Packet.{DataPacket, swap16, load16, size}
use ritex.Protocol.{PacketType, is_length_matches, get_cmd}
use ritex.Protocol.Laws.{is_length_matches_all}
use ritex.Device.Table.{Setting, all_settings}
use ritex.Device.Event.{DbEvent, number, text}
use ritex.Device.Settings.{
  get_setting_from_packet, Settings, is_changed, check_value, check_offset, check_setting,
  check_each, check_settigs_changed,
}

-- Where a setting stands in n bytes of data.
abbrev pub is_within : ℕ → Option ℕ → ℕ → Bool
is_within n none size = true
is_within n (some offset) size = (size == 1 || size == 2) && leb (offset + size) n

abbrev pub Within : ℕ → Setting → Type 0
Within n s = is_within n s.offset s.size ≡ true

-- The number that the data hold for a setting.
abbrev pub value_in : List ℕ → ℕ → ℕ → ℕ
value_in bytes offset size =
    if size == 1
    then get_or bytes offset 0
    else swap16 (load16 (get_or bytes offset 0) (get_or bytes (offset + 1) 0))

get_setting_from_packet-value_in :
    (bytes : List ℕ) (offset size : ℕ)
    → is_within (length bytes) (some offset) size ≡ true
    → get_setting_from_packet bytes offset size ≡ some (value_in bytes offset size)
unfolding get_setting_from_packet
get_setting_from_packet-value_in bytes offset size h = ground (arith, h)

-- What the data say about a setting, if it is one that the check looks at.
abbrev told_at : List ℕ → ℕ → Bool → Option ℕ → Option ℕ
told_at bytes size false o = none
told_at bytes size true none = none
told_at bytes size true (some offset) = some (value_in bytes offset size)

abbrev pub told : List ℕ → Setting → Option ℕ
told bytes s = told_at bytes s.size s.is_visible s.offset

abbrev take_over : Setting → Option ℕ → Setting
take_over s none = s
take_over s (some new) = record s { value = new }

abbrev pub after_check : List ℕ → Setting → Setting
after_check bytes s = take_over s (told bytes s)

-- Whether a new value is news: on the first packet a setting that the data base does not have, and else
-- a value that differs.
abbrev pub is_news : Bool → Bool → ℕ → ℕ → Bool
is_news true false old new = true
is_news true true old new = if old == new then false else true
is_news false is_value_set old new = if old == new then false else true

is_changed-is_news :
    (is_first : Bool) (new : ℕ) (s : Setting)
    → is_changed is_first new s ≡ is_news is_first s.is_value_set s.value new
is_changed-is_news is_first new s = news is_first s.is_value_set s.value
  where
    news :
        (is_first is_value_set : Bool) (old : ℕ)
        → is_first && not is_value_set || not (new == old) ≡ is_news is_first is_value_set old new
    news true false old = refl
    news true true old = ground arith
    news false is_value_set old = ground arith

-- The event of a change: the new value, the old one, the name, and who made the change.
abbrev pub change_event : Bool → Option ℕ → ℕ → ℕ → Setting → DbEvent
change_event is_first channel now new s = record {
  type_id = 11;
  channel_id = channel;
  register_time = now;
  argument1 = number new;
  argument2 = number s.value;
  argument3 = text s.name;
  argument4 = text (if is_first then "INIT" else "HND");
}

abbrev report_told : Bool → Option ℕ → ℕ → Setting → Option ℕ → List DbEvent
report_told is_first channel now s none = []
report_told is_first channel now s (some new) =
    if is_news is_first s.is_value_set s.value new
    then change_event is_first channel now new s ∷ []
    else []

-- The events that the check reports about a setting.
abbrev pub report : Bool → Option ℕ → ℕ → List ℕ → Setting → List DbEvent
report is_first channel now bytes s = report_told is_first channel now s (told bytes s)

abbrev pub reports : Bool → Option ℕ → ℕ → List ℕ → List Setting → List DbEvent
reports is_first channel now bytes [] = []
reports is_first channel now bytes (s ∷ ss) =
    report is_first channel now bytes s ++ reports is_first channel now bytes ss

-- A new value that is no change is the value that the setting has.
same_value :
    (is_first : Bool) (new : ℕ) (s : Setting)
    → is_changed is_first new s ≡ false
    → s ≡ record s { value = new }
same_value is_first new s h =
    let e : s.value ≡ new = ground (arith, h) in ap (λ v. record s { value = v }) e

check_value_lem :
    (is_first : Bool) (channel : Option ℕ) (now new : ℕ) (s : Setting)
    → check_value is_first channel now s new ≡ (
      record s { value = new },
      if is_news is_first s.is_value_set s.value new
          then change_event is_first channel now new s ∷ []
          else [],
    )
unfolding check_value
check_value_lem is_first channel now new s =
    let same = is_changed-is_news is_first new s in
    elim (Bool-cases (is_changed is_first new s)) [
      | inl e ↦ rw (sym same ∙ e, e) refl
      | inr e ↦ rw (sym same ∙ e, e) (ap (λ t. (t, [])) (same_value is_first new s e))
    ]

check_offset_lem :
    (is_first : Bool) (channel : Option ℕ) (now : ℕ) (bytes : List ℕ) (s : Setting) (o : Option ℕ)
    → is_within (length bytes) o s.size ≡ true
    → check_offset is_first channel now bytes s o ≡ elim o [
      | none ↦ some (s, [])
      | some offset ↦ some (check_value is_first channel now s (value_in bytes offset s.size))
    ]
unfolding check_offset
check_offset_lem is_first channel now bytes s none h = refl
check_offset_lem is_first channel now bytes s (some offset) h =
    rw (get_setting_from_packet-value_in bytes offset s.size h) refl

check_visible_lem :
    (is_first : Bool) (channel : Option ℕ) (now : ℕ) (bytes : List ℕ) (s : Setting) (visible : Bool)
    (o : Option ℕ)
    → is_within (length bytes) o s.size ≡ true
    → (if not visible then some (s, []) else check_offset is_first channel now bytes s o)
      ≡ some (
        take_over s (told_at bytes s.size visible o),
        report_told is_first channel now s (told_at bytes s.size visible o),
      )
check_visible_lem is_first channel now bytes s false o h = refl
check_visible_lem is_first channel now bytes s true none h =
    check_offset_lem is_first channel now bytes s none h
check_visible_lem is_first channel now bytes s true (some offset) h =
    check_offset_lem is_first channel now bytes s (some offset) h
    ∙ ap some (check_value_lem is_first channel now (value_in bytes offset s.size) s)

check_setting_lem :
    (is_first : Bool) (channel : Option ℕ) (now : ℕ) (bytes : List ℕ) (s : Setting)
    → Within (length bytes) s
    → check_setting is_first channel now bytes s
      ≡ some (after_check bytes s, report is_first channel now bytes s)
unfolding check_setting
check_setting_lem is_first channel now bytes s h =
    check_visible_lem is_first channel now bytes s s.is_visible s.offset h

check_each_lem :
    (is_first : Bool) (channel : Option ℕ) (now : ℕ) (bytes : List ℕ) (ss : List Setting)
    → All (Within (length bytes)) ss
    → check_each is_first channel now bytes ss
      ≡ some (map (after_check bytes) ss, reports is_first channel now bytes ss)
unfolding check_each
check_each_lem is_first channel now bytes [] h = refl
check_each_lem is_first channel now bytes (s ∷ ss) (h, hs) =
    rw
      (
        check_setting_lem is_first channel now bytes s h,
        check_each_lem is_first channel now bytes ss hs,
      )
      refl

-- The table has no setting outside the 47 bytes of data of a reply with all settings.
pub all_settings-Within : All (Within 47) all_settings
all_settings-Within = ground arith

-- A packet with all settings, on settings that all stand in its data: the check succeeds, every
-- setting that is visible and in the packet takes over the value there, and in the order of the
-- table one event is reported for each of these settings whose value differs (on the first packet
-- also for each that no value was stored for), with the new value, the old value, the name, and
-- INIT on the first packet or HND later.
pub check_settigs_changed_lem :
    (channel : Option ℕ) (now : ℕ) (packet : DataPacket) (st : Settings)
    → packet.cmd ≡ Ack.all_settings
    → All (Within (length packet.bytes)) st.table
    → check_settigs_changed channel now packet st
      ≡ some (
        record {
          table = map (after_check packet.bytes) st.table;
          is_first_settings_packet = false;
        },
        reports st.is_first_settings_packet channel now packet.bytes st.table,
      )
unfolding check_settigs_changed
check_settigs_changed_lem channel now packet st e h =
    rw (e, check_each_lem st.is_first_settings_packet channel now packet.bytes st.table h) refl

-- The check keeps where the settings stand.
after_check-Within :
    (n : ℕ) (bytes : List ℕ) (ss : List Setting)
    → All (Within n) ss
    → All (Within n) (map (after_check bytes) ss)
after_check-Within n bytes [] h = tt
after_check-Within n bytes (s ∷ ss) (h, hs) =
    (kept s (told bytes s) h, after_check-Within n bytes ss hs)
  where
    kept : (s : Setting) (o : Option ℕ) → Within n s → Within n (take_over s o)
    kept s none h = h
    kept s (some new) h = h

told-take_over :
    (bytes : List ℕ) (s : Setting) (o : Option ℕ) → told bytes (take_over s o) ≡ told bytes s
told-take_over bytes s none = refl
told-take_over bytes s (some new) = refl

take_over_twice : (s : Setting) (o : Option ℕ) → take_over (take_over s o) o ≡ take_over s o
take_over_twice s none = refl
take_over_twice s (some new) = refl

report_told_quiet :
    (channel : Option ℕ) (now : ℕ) (s : Setting) (o : Option ℕ)
    → report_told false channel now (take_over s o) o ≡ []
report_told_quiet channel now s none = refl
report_told_quiet channel now s (some new) = ground (arith, ==_refl new)

after_check_twice :
    (bytes : List ℕ) (ss : List Setting)
    → map (after_check bytes) (map (after_check bytes) ss) ≡ map (after_check bytes) ss
after_check_twice bytes [] = refl
after_check_twice bytes (s ∷ ss) = cc (
  ap (take_over (after_check bytes s)) (told-take_over bytes s (told bytes s)),
  take_over_twice s (told bytes s),
  after_check_twice bytes ss,
)

reports_quiet :
    (channel : Option ℕ) (now : ℕ) (bytes : List ℕ) (ss : List Setting)
    → reports false channel now bytes (map (after_check bytes) ss) ≡ []
reports_quiet channel now bytes [] = refl
reports_quiet channel now bytes (s ∷ ss) =
    rw (told-take_over bytes s (told bytes s), report_told_quiet channel now s (told bytes s))
      (reports_quiet channel now bytes ss)

-- On settings that all stand in the data of a packet with all settings, the check of the packet
-- succeeds, and a second check of the same packet changes nothing and reports nothing.
pub check_settigs_changed_twice :
    (channel : Option ℕ) (now later : ℕ) (packet : DataPacket) (st : Settings)
    → packet.cmd ≡ Ack.all_settings
    → All (Within (length packet.bytes)) st.table
    → (st' : Settings) × (es : List DbEvent) × (check_settigs_changed channel now packet st
        ≡ some (st', es))
      × (check_settigs_changed channel later packet st' ≡ some (st', []))
check_settigs_changed_twice channel now later packet st e h = (
  checked,
  reports st.is_first_settings_packet channel now packet.bytes st.table,
  check_settigs_changed_lem channel now packet st e h,
  check_settigs_changed_lem channel later packet checked e
        (after_check-Within (length packet.bytes) packet.bytes st.table h)
      ∙ rw
          (
            after_check_twice packet.bytes st.table,
            reports_quiet channel later packet.bytes st.table,
          )
          refl,
)
  where
    checked : Settings
    checked = record {
      table = map (after_check packet.bytes) st.table;
      is_first_settings_packet = false;
    }

accepted_size :
    (packet : DataPacket) {t : PacketType}
    → packet.cmd ≡ Ack.all_settings
    → is_length_matches (get_cmd packet.cmd) (size packet + 1) ≡ some t
    → length packet.bytes ≡ 47
accepted_size packet {t} e m =
    let accepted : is_length_matches Ack.all_settings (size packet + 1) ≡ some t = rw e at m in
    omega (arith, is_length_matches_all (size packet + 1) accepted)

-- A packet with all settings that passed the length check, on settings that stand in the first 47
-- bytes of the data as those of the table do: no read is outside the data, and the settings after
-- the check stand there too.
pub check_settigs_changed-is_length_matches :
    (channel : Option ℕ) (now : ℕ) (packet : DataPacket) (st : Settings) {t : PacketType}
    → packet.cmd ≡ Ack.all_settings
    → is_length_matches (get_cmd packet.cmd) (size packet + 1) ≡ some t
    → All (Within 47) st.table
    → (st' : Settings) × (es : List DbEvent) × (check_settigs_changed channel now packet st
        ≡ some (st', es))
      × All (Within 47) st'.table
check_settigs_changed-is_length_matches channel now packet st e m h = (
  record { table = map (after_check packet.bytes) st.table; is_first_settings_packet = false },
  reports st.is_first_settings_packet channel now packet.bytes st.table,
  check_settigs_changed_lem channel now packet st e (rw (accepted_size packet e m) h),
  after_check-Within 47 packet.bytes st.table h,
)
