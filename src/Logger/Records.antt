-- ===== src/Logger/Records.antt =====
-- What a logger hands to the gateway: `TimeToString` of src/Utils.cpp, and `BindParams` of
-- src/DataLoggerThread.cpp and src/EventLoggerThread.cpp up to the call of the gateway. `localtime` is a
-- parameter, and so is the size of a date of the gateway.
use ritex.Base.{
  ℕ, zero, suc, ◌+◌, ◌-◌, Option, none, some, [], ◌∷◌, ◌++◌, if◌then◌else◌, leb, length, take,
}
use ritex.Decimal.{itoa}
use ritex.CmdLine.Words.{Word}
use ritex.Daemon.Frame.{utf8}
use ritex.Device.Event.{DbEvent, Argument, empty, number, text, error_number}
use ritex.Device.Reports.{DbDataPacket}

-- `struct tm`, with the year from 1900 on and the month from 0 on.
pub record Tm : Type 0 where
  pub year : ℕ
  pub mon : ℕ
  pub mday : ℕ
  pub hour : ℕ
  pub min : ℕ
  pub sec : ℕ

unfoldable pub zeros : ℕ → Word
zeros zero = []
zeros (suc n) = 48 ∷ zeros n

-- `%0wd`.
unfoldable pub padded : ℕ → ℕ → Word
padded width n = zeros (width - length (itoa n)) ++ itoa n

-- Into a buffer of 32 bytes.
unfoldable pub time_to_string : Tm → Word
time_to_string tm = take 31 (
    padded 4 (tm.year + 1900)
    ++ (45
        ∷ (padded 2 (tm.mon + 1)
            ++ (45
                ∷ (padded 2 tm.mday
                    ++ (32
                        ∷ (padded 2 tm.hour
                            ++ (58 ∷ (padded 2 tm.min ++ (58 ∷ padded 2 tm.sec))))))))))

-- The loop over the date: a byte of the text for each, the zero byte at its end included. `none` is a
-- read behind it.
unfoldable pub copy_date : ℕ → Word → Option Word
copy_date size written =
    if leb size (length written + 1) then some (take size (written ++ (0 ∷ []))) else none

-- `sample_t`.
pub record Sample : Type 0 where
  pub id : ℕ
  pub channel : ℕ
  pub date : Word
  pub value : Option ℕ

-- `event_t`; a channel of -1 is `none`.
pub record Event : Type 0 where
  pub id : ℕ
  pub channel : Option ℕ
  pub date : Word
  pub arg1 : Word
  pub arg2 : Word
  pub arg3 : Word
  pub arg4 : Word

-- The text of an argument; one that was not set is an X.
unfoldable pub argument_text : Argument → Word
argument_text empty = utf8 "X"
argument_text (number n) = itoa n
argument_text (text s) = utf8 s
argument_text (error_number n) = utf8 "E-" ++ itoa n

module _ (localtime : ℕ → Tm) (date_size : ℕ) where
  abbrev pub sample_at : DbDataPacket → Option Word → Option Sample
  sample_at p none = none
  sample_at p (some date) =
      some (record { id = p.param_id; channel = p.channel_id; date = date; value = p.value })

  -- The sample of a value.
  unfoldable pub sample_of : DbDataPacket → Option Sample
  sample_of p = sample_at p (copy_date date_size (time_to_string (localtime p.register_date)))

  abbrev pub event_at : DbEvent → Option Word → Option Event
  event_at e none = none
  event_at e (some date) = some (record {
    id = e.type_id;
    channel = e.channel_id;
    date = date;
    arg1 = argument_text e.argument1;
    arg2 = argument_text e.argument2;
    arg3 = argument_text e.argument3;
    arg4 = argument_text e.argument4;
  })

  unfoldable pub event_of : DbEvent → Option Event
  event_of e = event_at e (copy_date date_size (time_to_string (localtime e.register_time)))
