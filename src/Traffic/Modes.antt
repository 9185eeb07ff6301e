-- ===== src/Traffic/Modes.antt =====
-- The cycle through the write modes in STATE_CAPTURE_DEVICE of `Run` in
-- src/ComTrafficProcessor.cpp: each mode is set, its data are requested and reported. `mode` is
-- `m_writeMode`.
pub mod Laws
use ritex.Base.{
  ℕ, ◌+◌, ◌%◌, Bool, true, false, ◌&&◌, Option, none, some, List, [], ◌∷◌, ◌++◌, ◌==◌,
  if◌then◌else◌, ltb,
}
use ritex.Packet.{DataPacket, set_cmd_mode}
use ritex.Port.{PortM, ◌>>=◌, ◌>>◌, return, Error}
use ritex.Device.Reports.{OffsetTableEntry, DbDataPacket, report_data_packet}
use ritex.Traffic.Exchange.{
  Reply, received, failed, wait_for_ksu_activity, request_current_data, change_mode,
}

abbrev pub target : ℕ → ℕ → ℕ
target mode i = (mode + i) % 7

-- The values of `i`.
abbrev pub rounds : List ℕ
rounds = 1 ∷ 2 ∷ 3 ∷ 4 ∷ 5 ∷ 6 ∷ 7 ∷ []

abbrev pub is_skipped : Bool → ℕ → ℕ → Bool
is_skipped is_auto mode i = is_auto && target mode i == 1

-- The reports of a cycle. `none` is the end of the program: a call through a null pointer after a wait
-- that failed, or a read behind the data of a packet.
abbrev pub Reports : Type 0
Reports = Option (List DbDataPacket)

abbrev pub and_reports : Reports → Reports → Reports
and_reports none rest = none
and_reports (some reports) none = none
and_reports (some reports) (some more) = some (reports ++ more)

-- What follows a report: the rest of the cycle, unless the program ended.
abbrev pub go_on : Reports → PortM Reports → PortM Reports
go_on none rest = return none
go_on (some reports) rest = do more ← rest; return (and_reports (some reports) more)

-- The reply in the mode `target`, whose command is marked with the mode. The rest of the cycle
-- follows it.
abbrev pub report_mode : List OffsetTableEntry → ℕ → PortM Reports → Reply → PortM Reports
report_mode table value rest (failed e) = return none
report_mode table value rest (received packet) =
    go_on (report_data_packet table (set_cmd_mode packet value)) rest

-- What follows `ChangeMode`: where it fails, the cycle ends.
abbrev pub in_mode :
    List OffsetTableEntry → ℕ → ℕ → PortM Reports → Bool × Option Error → PortM Reports
in_mode table mode value rest (false, error) = return (some [])
in_mode table mode value rest (true, error) = do
  request_current_data
  reply ← wait_for_ksu_activity mode
  report_mode table value rest reply

unfoldable pub cycle_modes : List OffsetTableEntry → Bool → ℕ → List ℕ → PortM Reports
cycle_modes table is_auto mode [] = return (some [])
cycle_modes table is_auto mode (i ∷ is) =
    let rest = cycle_modes table is_auto mode is in
    if is_skipped is_auto mode i then rest else (do
      changed ← change_mode mode (target mode i)
      in_mode table mode (target mode i) rest changed)

-- `NeedCapture`: a command is waiting, or the time of the next cycle has passed.
abbrev pub need_capture : Bool → ℕ → ℕ → Bool
need_capture is_waiting next_mode_loop_cycle now =
    if is_waiting then true else ltb next_mode_loop_cycle now
