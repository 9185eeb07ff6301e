-- ===== src/Logger/Examples.antt =====
-- A logger at concrete inputs.
use ritex.Base.{ℕ, ◌≡◌, refl, some, [], ◌∷◌, length, arith}
use ritex.CmdLine.Words.{bytes_of}
use ritex.Decimal.{itoa, digits_in}
use ritex.Device.Event.{DbEvent, Argument, number, text}
use ritex.Device.Reports.{DbDataPacket}
use ritex.Logger.Records.{Tm, Sample, Event, zeros, padded, time_to_string, sample_of, event_of}
use ritex.Logger.Dates.{IsTime, read_date, records_of}
use ritex.Logger.{Logger, waiting, empty, enque_data, go, Reach, start, enqued, went}
use ritex.Logger.Laws.{IsKept, Reach-IsKept}

-- An item that comes in the middle of a transaction waits for the next one.
abbrev late : Logger ℕ
late = go (go (enque_data 2 (go (enque_data 1 empty))))

late_waits : late ≡ record { phase = waiting; queue = 2 ∷ []; pushed = 1 ∷ [] }
unfolding go enque_data
late_waits = refl

abbrev late_reached : Reach (1 ∷ 2 ∷ []) late
late_reached = went (went (enqued 2 (went (enqued 1 start))))

Reach-IsKept_example : IsKept (1 ∷ 2 ∷ []) late
Reach-IsKept_example = Reach-IsKept late_reached

-- The 6th of May 2013.
abbrev in_may : Tm
in_may = record { year = 113; mon = 4; mday = 6; hour = 9; min = 30; sec = 5 }

abbrev speed : DbDataPacket
speed = record { channel_id = 48; param_id = 1050109010; register_date = 100; value = some 2900 }

abbrev started : DbEvent
started = record {
  type_id = 2;
  channel_id = some 1;
  register_time = 100;
  argument1 = number 1;
  argument2 = number 0;
  argument3 = text "ВД включен";
  argument4 = Argument.empty;
}

records_of_example :
    ((s : Sample) × ((sample_of (λ t. in_may) 20 speed ≡ some s)
        × ((s.id ≡ speed.param_id)
            × ((s.channel ≡ speed.channel_id)
                × ((s.value ≡ speed.value)
                    × ((length s.date ≡ 20) × (read_date s.date ≡ in_may)))))))
    × ((r : Event) × ((event_of (λ t. in_may) 20 started ≡ some r)
          × ((r.id ≡ started.type_id)
              × ((r.channel ≡ started.channel_id)
                  × ((length r.date ≡ 20) × (read_date r.date ≡ in_may))))))
records_of_example = records_of (λ t. in_may) speed started may_IsTime may_IsTime
  where
    may_IsTime : IsTime in_may
    may_IsTime = omega arith

may_text : time_to_string in_may ≡ bytes_of "2013-05-06 09:30:05"
unfolding time_to_string padded zeros itoa digits_in
may_text = refl
