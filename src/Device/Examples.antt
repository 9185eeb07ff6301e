-- ===== src/Device/Examples.antt =====
-- The device at concrete inputs.
use ritex.Base.{
  ◌*◌, ◌+◌, ℕ, ◌≡◌, refl, zero, suc, true, false, some, List, [], ◌∷◌, ◌++◌, map, arith,
}
use ritex.Protocol.{type_ack}
use ritex.Protocol.Ack
use ritex.Packet.{DataPacket}
use ritex.Device.Table.{Setting, all_settings}
use ritex.Device.Settings.{Settings, check_settigs_changed}
use ritex.Device.Settings.Laws.{
  after_check, reports, all_settings-Within, check_settigs_changed_lem,
}
use ritex.Device.Clock.{StationTime, station_time}
use ritex.Device.Clock.Laws.{Deviates}
use ritex.Device.Reports.{FilterItem, OffsetTableEntry, create_offset_table, report_data_packet}
use ritex.Device.Reports.Laws.{
  reply_length, reading, entries_of, report_data_packet-create_offset_table,
}

abbrev zeros : ℕ → List ℕ
zeros zero = []
zeros (suc n) = 0 ∷ zeros n

-- A reply with all settings, with 50 turns as its first.
abbrev settings_packet : DataPacket
settings_packet = record {
  address = 0x36;
  cmd = Ack.all_settings;
  type = type_ack;
  timestamp = 7;
  bytes = 0 ∷ 50 ∷ zeros 45;
}

abbrev at_start : Settings
at_start = record { table = all_settings; is_first_settings_packet = true }

check_settigs_changed_lem_example :
    check_settigs_changed (some 3) 9 settings_packet at_start
    ≡ some (
      record {
        table = map (after_check settings_packet.bytes) all_settings;
        is_first_settings_packet = false;
      },
      reports true (some 3) 9 settings_packet.bytes all_settings,
    )
check_settigs_changed_lem_example =
    check_settigs_changed_lem (some 3) 9 settings_packet at_start refl all_settings-Within

-- The setting "Куст", as the table has it at the start.
abbrev bush : Setting
bush = record {
  name = "Куст";
  id = 42;
  offset = some 16;
  size = 2;
  is_visible = true;
  value = 0;
  is_value_set = false;
}

-- The current of phase A, the insulation, and a parameter that is not known.
abbrev filter : List FilterItem
filter =
    record { channel_id = 30; param_id = 1050110050 }
    ∷ record { channel_id = 47; param_id = 1050117000 }
    ∷ record { channel_id = 1; param_id = 5 }
    ∷ []

abbrev info_packet : List ℕ → DataPacket
info_packet bytes = record {
  address = 0x36;
  cmd = Ack.info_mode 0;
  type = type_ack;
  timestamp = 7;
  bytes = bytes;
}

-- The bytes of a reply: some numbers, and zeros behind them.
abbrev counted : List ℕ
counted = 1 ∷ 2 ∷ 3 ∷ 4 ∷ 5 ∷ 6 ∷ 7 ∷ 8 ∷ 9 ∷ 10 ∷ 11 ∷ 12 ∷ 13 ∷ 14 ∷ zeros 25

report_data_packet-create_offset_table_example :
    report_data_packet (create_offset_table filter) (info_packet counted)
    ≡ some (
        map
          (reading (info_packet counted))
          (entries_of (Ack.info_mode 0) (create_offset_table filter)))
report_data_packet-create_offset_table_example =
    report_data_packet-create_offset_table filter (info_packet counted) (ground arith)
      (unfold reply_length in refl)

-- The insulation stands at bytes 11 and 12.
abbrev insulation : OffsetTableEntry
insulation = record {
  param_id = 1050117000;
  channel_id = 47;
  cmd = Ack.info_mode 0;
  offset = 11;
  size = 2;
}

-- The seconds of a day.
abbrev day_seconds : StationTime → ℕ
day_seconds told = told.hour * 3600 + told.minute * 60

-- A reply at one minute past midnight.
abbrev clock_packet : DataPacket
clock_packet = info_packet (zeros 24 ++ (1 ∷ zeros 14))

midnight : Deviates day_seconds 300 (some 3) (1000, clock_packet)
unfolding station_time
midnight = record {
  in_mode_0 = refl;
  told = record { year = 0; month = 0; day = 0; hour = 0; minute = 1 };
  tells = refl;
  far = omega arith;
}
