-- ===== src/Device/Clock.antt =====
-- The deviation of the station's clock: `CheckAndReportTimeDiviation` of src/RitexDevice.cpp. `none` is
-- a read behind the data of a packet.
pub mod Laws
use ritex.Base.{
  ℕ, ◌+◌, ◌-◌, ◌*◌, ◌/◌, ◌^◌, Bool, true, false, Option, none, some, List, [], ◌∷◌, ◌==◌,
  if◌then◌else◌, ltb, get_elem?, ◌>>=◌,
}
use ritex.Protocol.Ack
use ritex.Packet.{DataPacket}
use ritex.Device.Event.{DbEvent, Argument, empty, number}

-- The time that the station tells. The source takes 1900 off the year and 1 off the month for `mktime`.
pub record StationTime : Type 0 where
  pub year : ℕ
  pub month : ℕ
  pub day : ℕ
  pub hour : ℕ
  pub minute : ℕ

unfoldable pub station_time : List ℕ → Option StationTime
station_time bytes = do
  day ← get_elem? bytes 19
  month ← get_elem? bytes 20
  year_high ← get_elem? bytes 21
  year_low ← get_elem? bytes 22
  hour ← get_elem? bytes 23
  minute ← get_elem? bytes 24
  some (record {
    year = year_high * 2 ^ 8 + year_low;
    month = month;
    day = day;
    hour = hour;
    minute = minute;
  })

abbrev pub distance : ℕ → ℕ → ℕ
distance a b = a - b + (b - a)

abbrev pub clock_event : Option ℕ → ℕ → ℕ → DbEvent
clock_event channel now seconds = record {
  type_id = 6;
  channel_id = channel;
  register_time = now;
  argument1 = number (seconds / 60);
  argument2 = empty;
  argument3 = empty;
  argument4 = empty;
}

-- `mktime` is the library's, on a time after 1970; `limit` is `m_timeDiviation`. The state is
-- `m_isDiviationReported`.
module _ (mktime : StationTime → ℕ) (limit : ℕ) (channel : Option ℕ) where
  unfoldable pub check_time : ℕ → StationTime → Bool → Bool × List DbEvent
  check_time now told is_reported =
      if ltb limit (distance now (mktime told))
      then (if is_reported
          then (true, [])
          else (true, clock_event channel now (distance now (mktime told)) ∷ []))
      else (false, [])

  unfoldable pub check_and_report_time_diviation :
      ℕ → DataPacket → Bool → Option (Bool × List DbEvent)
  check_and_report_time_diviation now packet is_reported =
      if packet.cmd == Ack.info_mode 0
      then (do told ← station_time packet.bytes; some (check_time now told is_reported))
      else some (is_reported, [])
