-- ===== src/Logger/Dates.antt =====
-- The date of a record, read back.
use ritex.Base.{
  ℕ, zero, suc, ◌+◌, ◌-◌, ◌*◌, ◌/◌, ◌%◌, ◌≤◌, ◌<◌, ◌≡◌, refl, sym, ap, ◌∙◌, true, some, [], ◌∷◌,
  ◌++◌, ltb, leb, length, length-append, take, take_all, drop, take_length-append, append_assoc,
  append-nil, arith,
}
use ritex.Decimal.{digits_in, itoa, number_from, number_of}
use ritex.Decimal.Laws.{number_of-itoa}
use ritex.CmdLine.Words.{Word}
use ritex.Device.Event.{DbEvent}
use ritex.Device.Reports.{DbDataPacket}
use ritex.Logger.Records.{
  Tm, zeros, padded, time_to_string, copy_date, Sample, Event, sample_at, event_at, sample_of,
  event_of,
}

-- Ten to one more than a number.
abbrev ten_times : ℕ → ℕ
ten_times zero = 10
ten_times (suc w) = 10 * ten_times w

length-digits_in_lt : (rounds w n : ℕ) → n < ten_times w → length (digits_in rounds n) ≤ suc w
unfolding digits_in
length-digits_in_lt zero w n h = omega arith
length-digits_in_lt (suc rounds) zero n h =
    let small : ltb n 10 ≡ true = ground (arith, h) in rw small (omega arith)
length-digits_in_lt (suc rounds) (suc w) n h = ground (
  arith,
  length-digits_in_lt rounds w (n / 10) (omega arith),
  length-append (digits_in rounds (n / 10)) ((48 + n % 10) ∷ []),
)

length-zeros : (n : ℕ) → length (zeros n) ≡ n
unfolding zeros
length-zeros zero = refl
length-zeros (suc n) = omega (arith, length-zeros n)

length-padded : (w n : ℕ) → n < ten_times w → length (padded (suc w) n) ≡ suc w
unfolding padded itoa
length-padded w n h = omega (
  arith,
  length-append (zeros (suc w - length (itoa n))) (itoa n),
  length-zeros (suc w - length (itoa n)),
  length-digits_in_lt 10 w n h,
)

number_from-zeros :
    (k : ℕ) (digits : Word) → number_from 0 (zeros k ++ digits) ≡ number_from 0 digits
unfolding number_from zeros
number_from-zeros zero digits = refl
number_from-zeros (suc k) digits = number_from-zeros k digits

number_of-padded : (w n : ℕ) → n < 10000 → number_of (padded w n) ≡ n
unfolding padded number_of
number_of-padded w n h =
    number_from-zeros (w - length (itoa n)) (itoa n) ∙ number_of-itoa n (omega arith)

-- The first field of a text, and what is behind its delimiter.
take_field : (n : ℕ) (a rest : Word) → length a ≡ n → take n (a ++ rest) ≡ a
take_field n a rest h = rw (sym h) (take_length-append a rest)

drop_field : (n c : ℕ) (a rest : Word) → length a ≡ n → drop (suc n) (a ++ (c ∷ rest)) ≡ rest
drop_field n c [] rest h = rw (sym h) refl
drop_field zero c (x ∷ a) rest h = absurd (omega arith)
drop_field (suc n) c (x ∷ a) rest h = drop_field n c a rest (omega arith)

-- The fields of a date by their places.
abbrev pub read_date : Word → Tm
read_date w =
    let month = drop 5 w in
    let day = drop 3 month in
    let hour = drop 3 day in
    let minute = drop 3 hour in
    let second = drop 3 minute in
    record {
      year = number_of (take 4 w) - 1900;
      mon = number_of (take 2 month) - 1;
      mday = number_of (take 2 day);
      hour = number_of (take 2 hour);
      min = number_of (take 2 minute);
      sec = number_of (take 2 second);
    }

-- The fields that `localtime` gives up to the year 9999.
pub record IsTime (tm : Tm) : Type 0 where
  pub year : tm.year + 1900 < 10000
  pub mon : tm.mon < 12
  pub mday : tm.mday < 32
  pub hour : tm.hour < 24
  pub min : tm.min < 60
  pub sec : tm.sec < 61

abbrev seconds : Tm → Word → Word
seconds tm rest = padded 2 tm.sec ++ rest

abbrev minutes : Tm → Word → Word
minutes tm rest = padded 2 tm.min ++ (58 ∷ seconds tm rest)

abbrev hours : Tm → Word → Word
hours tm rest = padded 2 tm.hour ++ (58 ∷ minutes tm rest)

abbrev days : Tm → Word → Word
days tm rest = padded 2 tm.mday ++ (32 ∷ hours tm rest)

abbrev months : Tm → Word → Word
months tm rest = padded 2 (tm.mon + 1) ++ (45 ∷ days tm rest)

abbrev years : Tm → Word → Word
years tm rest = padded 4 (tm.year + 1900) ++ (45 ∷ months tm rest)

length-years : (tm : Tm) → IsTime tm → length (years tm []) ≡ 19
length-years tm h = omega (
  arith,
  length-append (padded 4 (tm.year + 1900)) (45 ∷ months tm []),
  length-append (padded 2 (tm.mon + 1)) (45 ∷ days tm []),
  length-append (padded 2 tm.mday) (32 ∷ hours tm []),
  length-append (padded 2 tm.hour) (58 ∷ minutes tm []),
  length-append (padded 2 tm.min) (58 ∷ seconds tm []),
  length-append (padded 2 tm.sec) [],
  length-padded 3 (tm.year + 1900) h.year,
  length-padded 1 (tm.mon + 1) (omega (arith, h.mon)),
  length-padded 1 tm.mday (omega (arith, h.mday)),
  length-padded 1 tm.hour (omega (arith, h.hour)),
  length-padded 1 tm.min (omega (arith, h.min)),
  length-padded 1 tm.sec (omega (arith, h.sec)),
)

time_to_string-years : (tm : Tm) → IsTime tm → time_to_string tm ≡ years tm []
unfolding time_to_string
time_to_string-years tm h =
    let whole : time_to_string tm ≡ take 31 (years tm []) =
      rw (append-nil (padded 2 tm.sec)) refl in
    whole ∙ take_all 31 (years tm []) (omega (arith, length-years tm h))

years-append : (tm : Tm) (rest : Word) → years tm [] ++ rest ≡ years tm rest
years-append tm rest = simp (append_assoc, append-nil) refl

tm_of :
    {a b c d e f a' b' c' d' e' f' : ℕ}
    → a ≡ a'
    → b ≡ b'
    → c ≡ c'
    → d ≡ d'
    → e ≡ e'
    → f ≡ f'
    → ◌≡◌ {A = Tm}
        (record { year = a; mon = b; mday = c; hour = d; min = e; sec = f })
        (record { year = a'; mon = b'; mday = c'; hour = d'; min = e'; sec = f' })
tm_of a b c d e f = rw (a, b, c, d, e, f) refl

read_date-years : (tm : Tm) (rest : Word) → IsTime tm → read_date (years tm rest) ≡ tm
read_date-years tm rest h =
    let y = length-padded 3 (tm.year + 1900) h.year in
    let mo = length-padded 1 (tm.mon + 1) (omega (arith, h.mon)) in
    let d = length-padded 1 tm.mday (omega (arith, h.mday)) in
    let ho = length-padded 1 tm.hour (omega (arith, h.hour)) in
    let mi = length-padded 1 tm.min (omega (arith, h.min)) in
    let s = length-padded 1 tm.sec (omega (arith, h.sec)) in
    rw
      (
        take_field 4 (padded 4 (tm.year + 1900)) (45 ∷ months tm rest) y,
        drop_field 4 45 (padded 4 (tm.year + 1900)) (months tm rest) y,
        take_field 2 (padded 2 (tm.mon + 1)) (45 ∷ days tm rest) mo,
        drop_field 2 45 (padded 2 (tm.mon + 1)) (days tm rest) mo,
        take_field 2 (padded 2 tm.mday) (32 ∷ hours tm rest) d,
        drop_field 2 32 (padded 2 tm.mday) (hours tm rest) d,
        take_field 2 (padded 2 tm.hour) (58 ∷ minutes tm rest) ho,
        drop_field 2 58 (padded 2 tm.hour) (minutes tm rest) ho,
        take_field 2 (padded 2 tm.min) (58 ∷ seconds tm rest) mi,
        drop_field 2 58 (padded 2 tm.min) (seconds tm rest) mi,
        take_field 2 (padded 2 tm.sec) rest s,
      )
      (tm_of (omega (arith, number_of-padded 4 (tm.year + 1900) h.year))
        (omega (arith, number_of-padded 2 (tm.mon + 1) (omega (arith, h.mon))))
        (number_of-padded 2 tm.mday (omega (arith, h.mday)))
        (number_of-padded 2 tm.hour (omega (arith, h.hour)))
        (number_of-padded 2 tm.min (omega (arith, h.min)))
        (number_of-padded 2 tm.sec (omega (arith, h.sec))))

copy_date-time : (tm : Tm) → IsTime tm → copy_date 20 (time_to_string tm) ≡ some (years tm (0 ∷ []))
unfolding copy_date
copy_date-time tm h =
    let size = length-years tm h in
    let enough : leb 20 (length (years tm []) + 1) ≡ true = ground (arith, size) in
    let all =
      take_all 20 (years tm [] ++ (0 ∷ []))
        (omega (arith, size, length-append (years tm []) (0 ∷ []))) in
    rw (time_to_string-years tm h, enough) (ap (λ w. some w) (all ∙ years-append tm (0 ∷ [])))

length_dated : (tm : Tm) → IsTime tm → length (years tm (0 ∷ [])) ≡ 20
length_dated tm h = omega (
  arith,
  ap length (years-append tm (0 ∷ [])),
  length-append (years tm []) (0 ∷ []),
  length-years tm h,
)

-- For times up to the year 9999, and a date of the gateway of 20 bytes: the sample of a value and
-- the record of an event are made without a read behind the text of the time; their parameter or
-- type, channel and value are those that were reported; and the date has 20 bytes and is read back,
-- by the places of its fields, as the local time.
pub records_of :
    (localtime : ℕ → Tm) (p : DbDataPacket) (e : DbEvent)
    → IsTime (localtime p.register_date)
    → IsTime (localtime e.register_time)
    → ((s : Sample) × ((sample_of localtime 20 p ≡ some s)
          × ((s.id ≡ p.param_id)
              × ((s.channel ≡ p.channel_id)
                  × ((s.value ≡ p.value)
                      × ((length s.date ≡ 20) × (read_date s.date ≡ localtime p.register_date)))))))
      × ((r : Event) × ((event_of localtime 20 e ≡ some r)
            × ((r.id ≡ e.type_id)
                × ((r.channel ≡ e.channel_id)
                    × ((length r.date ≡ 20) × (read_date r.date ≡ localtime e.register_time))))))
unfolding sample_of event_of
records_of localtime p e h k =
    let sample = copy_date-time (localtime p.register_date) h in
    let event = copy_date-time (localtime e.register_time) k in
    (
      (
        _,
        (
          ap (sample_at localtime 20 p) sample,
          (
            refl,
            (
              refl,
              (
                refl,
                (
                  length_dated (localtime p.register_date) h,
                  read_date-years (localtime p.register_date) (0 ∷ []) h,
                ),
              ),
            ),
          ),
        ),
      ),
      (
        _,
        (
          ap (event_at localtime 20 e) event,
          (
            refl,
            (
              refl,
              (
                length_dated (localtime e.register_time) k,
                read_date-years (localtime e.register_time) (0 ∷ []) k,
              ),
            ),
          ),
        ),
      ),
    )
