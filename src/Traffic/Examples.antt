-- ===== src/Traffic/Examples.antt =====
-- The traffic at concrete inputs.
use ritex.Base.{
  zero, suc, ◌+◌, map, length, get_or, All, IsByte, true, none, false, ℕ, ◌≡◌, refl, some, List, [],
  ◌∷◌, ◌++◌, arith, append-nil,
}
use ritex.Protocol.{type_ack, type_cmd, is_length_matches, scan}
use ritex.Protocol.Ack
use ritex.Protocol.Req
use ritex.Packet.{DataPacket, create_raw_packet, set_cmd_mode}
use ritex.Port.{Port, arrives}
use ritex.Traffic.Fault.{FaultState, initial}
use ritex.Traffic.Fault.Laws.{IsValid, changes, check_packets, check_packets-changes}
use ritex.Traffic.Exchange.{capture}
use ritex.Device.Channels.{sensor_channels}
use ritex.Device.Reports.{FilterItem, OffsetTableEntry, DbDataPacket, create_offset_table}
use ritex.Device.Reports.Laws.{reply_length, report_data_packet-create_offset_table}
use ritex.Traffic.Modes.{target, rounds, cycle_modes}
use ritex.Traffic.Modes.Laws.{Answers, AllAnswer, cycle_line, cycle_sent, cycle_modes_lem}
use ritex.Traffic.Motor.{is_refused, process_motor_cmd, process_command}
use ritex.Traffic.Motor.Laws.{by_hand, is_refused-is_length_matches, process_motor_cmd_lem}
use ritex.Traffic.Motor.Commands.{process_command_lem, process_command_motor}
use ritex.Traffic.Exchange.Laws.{
  raw_reply, Yields, raw_request, reply_as_read, capture_line, capture_lem,
}

abbrev info_packet : ℕ → ℕ → DataPacket
info_packet timestamp code = record {
  address = 0x36;
  cmd = Ack.info_mode 2;
  type = type_ack;
  timestamp = timestamp;
  bytes = 1 ∷ code ∷ 0 ∷ [];
}

-- An overload that lasts, and its end.
abbrev overload : List DataPacket
overload = info_packet 1 0 ∷ info_packet 2 56 ∷ info_packet 3 56 ∷ info_packet 4 0 ∷ []

check_packets-changes_example :
    (st : FaultState) × (check_packets (some 3) overload initial
      ≡ some (st, changes (some 3) 0 overload))
    × IsValid st
check_packets-changes_example =
    check_packets-changes (some 3) overload initial refl
      (omega arith, (omega arith, (omega arith, (omega arith, tt))))

abbrev some_settings : List ℕ
some_settings =
    0 ∷ 50 ∷ 1 ∷ 1 ∷ 0 ∷ 9 ∷ 1 ∷ 1 ∷ 0 ∷ 0 ∷ 1 ∷ 1 ∷ 0 ∷ 9 ∷ 0 ∷ 9 ∷ 0 ∷ 1 ∷ 0 ∷ 2 ∷ 0x12 ∷ 0x34 ∷ 3
    ∷ 0 ∷ 0 ∷ 0 ∷ 0 ∷ 0 ∷ 0 ∷ 0 ∷ 0 ∷ 0 ∷ 0 ∷ 0 ∷ 0 ∷ 0 ∷ 0 ∷ 0 ∷ 0 ∷ 0 ∷ 0 ∷ 0 ∷ 0 ∷ 0 ∷ 0 ∷ 0 ∷ 0
    ∷ []

-- The line of a capture, with the first echo held and the rest a second later.
abbrev capture_port : Port
capture_port = record {
  held = [];
  events =
      arrives 1 (capture_line (0x12 ∷ 0x34 ∷ []) (0 ∷ 0 ∷ 0x12 ∷ 0x34 ∷ []) some_settings []) ∷ [];
  echo_cancel_fifo = [];
  written = [];
  clock = 100;
}

capture_lem_example :
    (timestamp : ℕ) × Yields
      (some (reply_as_read 3 timestamp Ack.all_settings some_settings))
      (raw_request Req.device_req []
        ++ (raw_request Req.password_get [] ++ raw_request Req.setting_set (44 ∷ 0x12 ∷ 0x34 ∷ [])))
      []
      capture_port
      (capture 3 capture_port)
capture_lem_example =
    capture_lem 3 0 0 0x12 0x34 some_settings [] capture_port
      (omega arith, (omega arith, (omega arith, (omega arith, tt)))) (ground arith) refl
      (record { comes = append-nil _; quiet = refl })

-- A line that carries some bytes, a second after the start.
abbrev line_with : List ℕ → Port
line_with bytes = record {
  held = [];
  events = arrives 1 bytes ∷ [];
  echo_cancel_fifo = [];
  written = [];
  clock = 100;
}

-- The motor runs: the length is that of the short reply.
abbrev running : List ℕ
running = 1 ∷ 0 ∷ 0 ∷ 0 ∷ []

abbrev info_packet_of : List ℕ → DataPacket
info_packet_of bytes = record {
  address = 0x36;
  cmd = Ack.info;
  type = type_ack;
  timestamp = 7;
  bytes = bytes;
}

is_refused-is_length_matches_example : is_refused Req.set_speed (info_packet_of running) ≡ false
unfolding is_length_matches scan
is_refused-is_length_matches_example =
    is_refused-is_length_matches Req.set_speed (info_packet_of running) {t = type_ack} refl

process_motor_cmd_lem_example :
    (now : ℕ) × Yields
      (by_hand (some 3) 0 1 now)
      []
      []
      (line_with (
        raw_reply Ack.ack (0 ∷ [])
        ++ (raw_request Req.info [] ++ (raw_reply Ack.info running ++ []))))
      (process_motor_cmd (some 3) 2 0 (
        line_with (
          raw_reply Ack.ack (0 ∷ [])
          ++ (raw_request Req.info [] ++ (raw_reply Ack.info running ++ [])))))
unfolding is_length_matches scan
process_motor_cmd_lem_example =
    process_motor_cmd_lem (some 3) 2 0 running []
      (line_with (
        raw_reply Ack.ack (0 ∷ [])
        ++ (raw_request Req.info [] ++ (raw_reply Ack.info running ++ []))))
      (ground arith) refl (record { comes = append-nil _; quiet = refl })

abbrev set_frequency : DataPacket
set_frequency = record {
  address = 0x36;
  cmd = Req.setting_set;
  type = type_cmd;
  timestamp = 100;
  bytes = 31 ∷ 0 ∷ 50 ∷ [];
}

process_command_lem_example :
    (timestamp : ℕ) × Yields
      (record {
        packet = some (reply_as_read 0 timestamp Ack.ack (21 ∷ []));
        error = none;
        status = 1;
      })
      (create_raw_packet set_frequency)
      []
      (line_with (create_raw_packet set_frequency ++ (raw_reply Ack.ack (21 ∷ []) ++ [])))
      (process_command 0 1 set_frequency
        (line_with (create_raw_packet set_frequency ++ (raw_reply Ack.ack (21 ∷ []) ++ []))))
unfolding is_length_matches scan
process_command_lem_example =
    process_command_lem 0 1 Ack.ack set_frequency (21 ∷ []) []
      (line_with (create_raw_packet set_frequency ++ (raw_reply Ack.ack (21 ∷ []) ++ []))) refl
      (omega arith) (omega arith, tt) refl (record { comes = append-nil _; quiet = refl })

abbrev start : DataPacket
start = record { address = 0x36; cmd = Req.vd_on; type = type_cmd; timestamp = 100; bytes = 0 ∷ [] }

abbrev start_line : List ℕ
start_line =
    create_raw_packet start
    ++ (raw_reply Ack.ack (0 ∷ [])
        ++ (raw_request Req.info [] ++ (raw_reply Ack.info running ++ [])))

process_command_motor_example :
    (timestamp : ℕ) × Yields
      (record {
        packet = some (reply_as_read 0 timestamp Ack.info running);
        error = none;
        status = 1;
      })
      (create_raw_packet start ++ raw_request Req.info [])
      []
      (line_with start_line)
      (process_command 0 0 start (line_with start_line))
unfolding is_length_matches scan
process_command_motor_example =
    process_command_motor 0 0 start running [] (line_with start_line) refl (ground arith) refl
      (record { comes = append-nil _; quiet = refl })

abbrev zeros : ℕ → List ℕ
zeros zero = []
zeros (suc n) = 0 ∷ zeros n

-- The answers of a station in write mode 0 in round i of a cycle.
abbrev mode_settings : ℕ → List ℕ
mode_settings i = zeros 22 ++ (target 0 i ∷ zeros 24)

-- The data of a reply with information, by its mode.
abbrev info_sizes : List ℕ
info_sizes = 39 ∷ 4 ∷ 31 ∷ 17 ∷ 12 ∷ 17 ∷ 18 ∷ []

abbrev mode_info : ℕ → List ℕ
mode_info i = zeros (get_or info_sizes (target 0 i) 0)

-- The offset table of a filter with every parameter of the sensor.
abbrev all_parameters : List FilterItem
all_parameters = map (λ c. record { channel_id = 30; param_id = c.parameter.id }) sensor_channels

abbrev full_table : List OffsetTableEntry
full_table = create_offset_table all_parameters

mode-Answers :
    (i : ℕ)
    → All IsByte (mode_settings i)
    → All IsByte (mode_info i)
    → length (mode_settings i) ≡ 47
    → get_or (mode_settings i) 22 0 ≡ target 0 i
    → is_length_matches Ack.info (length (mode_info i) + 1) ≡ some type_ack
    → reply_length (set_cmd_mode (reply_as_read 0 0 Ack.info (mode_info i)) (target 0 i)).cmd
      ≡ some (length (mode_info i) + 1)
    → Answers full_table 0 mode_settings mode_info i
unfolding set_cmd_mode
mode-Answers i settings info whole in_mode accepted sized = record {
  settings_bytes = settings;
  settings_length = whole;
  in_target = in_mode;
  info_bytes = info;
  info_length = accepted;
  inside = λ timestamp. (
    _,
    report_data_packet-create_offset_table all_parameters
        (set_cmd_mode (reply_as_read 0 timestamp Ack.info (mode_info i)) (target 0 i)) info sized,
  );
}

abbrev cycle_port : Port
cycle_port = line_with (cycle_line full_table 0 mode_settings mode_info true rounds [])

-- The station is in automatic mode: the first round is skipped.
all_modes : AllAnswer full_table 0 mode_settings mode_info true rounds
unfolding is_length_matches scan reply_length set_cmd_mode
all_modes = (
  tt,
  (
    mode-Answers 2 (ground arith) (ground arith) refl refl refl refl,
    (
      mode-Answers 3 (ground arith) (ground arith) refl refl refl refl,
      (
        mode-Answers 4 (ground arith) (ground arith) refl refl refl refl,
        (
          mode-Answers 5 (ground arith) (ground arith) refl refl refl refl,
          (
            mode-Answers 6 (ground arith) (ground arith) refl refl refl refl,
            (mode-Answers 7 (ground arith) (ground arith) refl refl refl refl, tt),
          ),
        ),
      ),
    ),
  ),
)

cycle_modes_lem_example :
    (reports : List DbDataPacket) × Yields
      (some reports)
      (cycle_sent full_table 0 mode_settings mode_info true rounds)
      []
      cycle_port
      (cycle_modes full_table true 0 rounds cycle_port)
cycle_modes_lem_example =
    cycle_modes_lem full_table 0 mode_settings mode_info true rounds [] cycle_port all_modes
      (record { comes = append-nil _; quiet = refl })
