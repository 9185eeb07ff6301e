-- ===== src/Listings/Parameters.antt =====
-- What a client reads back from the list of the channels and their parameters.
use ritex.Base.{
  ℕ, ◌^◌, ◌≤◌, ◌<◌, ◌≡◌, ◌≢◌, refl, sym, ap, ◌∙◌, List, [], ◌∷◌, ◌++◌, All, map, append_assoc,
  arith, ◌==◌, false,
}
use ritex.Decimal.{itoa, number_of}
use ritex.Decimal.Laws.{itoa-IsPlain, itoa_some, number_of-itoa, All-append}
use ritex.CmdLine.Words.{Word, split}
use ritex.CmdLine.Words.Laws.{IsPlain, last_word, split_word, split_last}
use ritex.Device.Channels.{Channel}
use ritex.Listings.{
  newline, bar, comma, dash, Sensor, print_pair, print_pairs, print_sensors, show_parameters,
}
use ritex.Listings.Rows.{join, split-join}

abbrev pair_of : List Word → ℕ × ℕ
pair_of (a ∷ (b ∷ rest)) = (number_of a, number_of b)
pair_of other = (0, 0)

abbrev read_pair : Word → ℕ × ℕ
read_pair w = pair_of (split dash w)

abbrev read_pairs : Word → List (ℕ × ℕ)
read_pairs w = map read_pair (split comma w)

abbrev sensor_of : List Word → ℕ × List (ℕ × ℕ)
sensor_of (a ∷ (b ∷ rest)) = (number_of a, read_pairs b)
sensor_of other = (0, [])

abbrev read_sensor : Word → ℕ × List (ℕ × ℕ)
read_sensor line = sensor_of (split bar line)

-- The first line is that of the device, the others those of the sensors.
abbrev lines_of : List Word → List (ℕ × ℕ) × List (ℕ × List (ℕ × ℕ))
lines_of [] = ([], [])
lines_of (line ∷ lines) = (read_pairs line, map read_sensor lines)

abbrev pub read_parameters : Word → List (ℕ × ℕ) × List (ℕ × List (ℕ × ℕ))
read_parameters output = lines_of (split newline output)

abbrev pub numbers : Channel → ℕ × ℕ
numbers ch = (ch.number, ch.parameter.id)

abbrev pub sensor_numbers : Sensor → ℕ × List (ℕ × ℕ)
sensor_numbers s = (s.id, map numbers s.channels)

-- Numbers that an int holds.
abbrev pub AreInts : List Channel → Type 0
AreInts = All (λ (ch : Channel). (ch.number < 2 ^ 31) × (ch.parameter.id < 2 ^ 31))

abbrev pub SensorsAreInts : List Sensor → Type 0
SensorsAreInts = All (λ (s : Sensor). (s.id < 2 ^ 31) × (AreInts s.channels × (s.channels ≢ [])))

read_pair-print_pair :
    (ch : Channel)
    → ch.number < 2 ^ 31
    → ch.parameter.id < 2 ^ 31
    → read_pair (print_pair ch) ≡ numbers ch
unfolding print_pair
read_pair-print_pair ch h k =
    let cut =
      split_word dash (itoa ch.number) (itoa ch.parameter.id)
        (itoa-IsPlain dash ch.number (λ d. omega (arith, d))) in
    let last =
      split_last dash (itoa ch.parameter.id)
        (itoa-IsPlain dash ch.parameter.id (λ d. omega (arith, d))) (itoa_some ch.parameter.id) in
    rw (cut, last, number_of-itoa ch.number h, number_of-itoa ch.parameter.id k) refl

print_pair-IsPlain :
    (delim : ℕ) (ch : Channel)
    → ¬ ((48 ≤ delim) × (delim ≤ 57))
    → (dash == delim) ≡ false
    → IsPlain delim (print_pair ch)
unfolding print_pair
print_pair-IsPlain delim ch other h =
    All-append (λ (c : ℕ). (c == delim) ≡ false) (itoa ch.number) _
      (itoa-IsPlain delim ch.number other) (h, itoa-IsPlain delim ch.parameter.id other)

pub append_some : (a b : Word) → a ≢ [] → a ++ b ≢ []
append_some [] b h e = h refl
append_some (c ∷ a) b h e = absurd (ground (arith, e))

print_pair_some : (ch : Channel) → print_pair ch ≢ []
unfolding print_pair
print_pair_some ch =
    append_some (itoa ch.number) (dash ∷ itoa ch.parameter.id) (itoa_some ch.number)

print_pairs-join : (chs : List Channel) → print_pairs chs ≡ join comma (map print_pair chs)
unfolding print_pairs
print_pairs-join [] = refl
print_pairs-join (ch ∷ []) = refl
print_pairs-join (ch ∷ (next ∷ chs)) =
    ap (λ rest. print_pair ch ++ (comma ∷ rest)) (print_pairs-join (next ∷ chs))

pairs_plain :
    (delim : ℕ) (chs : List Channel)
    → ¬ ((48 ≤ delim) × (delim ≤ 57))
    → (dash == delim) ≡ false
    → All (IsPlain delim) (map print_pair chs)
pairs_plain delim [] other h = tt
pairs_plain delim (ch ∷ chs) other h =
    (print_pair-IsPlain delim ch other h, pairs_plain delim chs other h)

last_pair_some : (ch : Channel) (chs : List Channel) → last_word (map print_pair (ch ∷ chs)) ≢ []
last_pair_some ch [] = print_pair_some ch
last_pair_some ch (next ∷ chs) = last_pair_some next chs

map-read_pair :
    (chs : List Channel) → AreInts chs → map read_pair (map print_pair chs) ≡ map numbers chs
map-read_pair [] h = refl
map-read_pair (ch ∷ chs) (h, hs) =
    rw (read_pair-print_pair ch h.0 h.1) (ap (◌∷◌ (numbers ch)) (map-read_pair chs hs))

read_pairs-print_pairs :
    (chs : List Channel) → AreInts chs → chs ≢ [] → read_pairs (print_pairs chs) ≡ map numbers chs
read_pairs-print_pairs [] h some_ch = absurd (some_ch refl)
read_pairs-print_pairs (ch ∷ chs) h some_ch =
    rw
      (
        print_pairs-join (ch ∷ chs),
        split-join comma (map print_pair (ch ∷ chs))
            (pairs_plain comma (ch ∷ chs) (λ d. omega (arith, d)) refl) (last_pair_some ch chs),
      )
      (map-read_pair (ch ∷ chs) h)

print_pairs-IsPlain :
    (delim : ℕ) (chs : List Channel)
    → ¬ ((48 ≤ delim) × (delim ≤ 57))
    → (dash == delim) ≡ false
    → (comma == delim) ≡ false
    → IsPlain delim (print_pairs chs)
unfolding print_pairs
print_pairs-IsPlain delim [] other h k = tt
print_pairs-IsPlain delim (ch ∷ []) other h k = print_pair-IsPlain delim ch other h
print_pairs-IsPlain delim (ch ∷ (next ∷ chs)) other h k =
    All-append (λ (c : ℕ). (c == delim) ≡ false) (print_pair ch) _
      (print_pair-IsPlain delim ch other h) (k, print_pairs-IsPlain delim (next ∷ chs) other h k)

print_pairs_some : (chs : List Channel) → chs ≢ [] → print_pairs chs ≢ []
unfolding print_pairs
print_pairs_some [] h = absurd (h refl)
print_pairs_some (ch ∷ []) h = print_pair_some ch
print_pairs_some (ch ∷ (next ∷ chs)) h =
    append_some (print_pair ch) (comma ∷ print_pairs (next ∷ chs)) (print_pair_some ch)

abbrev sensor_line : Sensor → Word
sensor_line s = itoa s.id ++ (bar ∷ print_pairs s.channels)

read_sensor-line :
    (s : Sensor)
    → s.id < 2 ^ 31
    → AreInts s.channels
    → s.channels ≢ []
    → read_sensor (sensor_line s) ≡ sensor_numbers s
read_sensor-line s small ints some_ch =
    let cut =
      split_word bar (itoa s.id) (print_pairs s.channels)
        (itoa-IsPlain bar s.id (λ d. omega (arith, d))) in
    let last =
      split_last bar (print_pairs s.channels)
        (print_pairs-IsPlain bar s.channels (λ d. omega (arith, d)) refl refl)
        (print_pairs_some s.channels some_ch) in
    rw (cut, last, number_of-itoa s.id small, read_pairs-print_pairs s.channels ints some_ch) refl

sensor_line-IsPlain : (s : Sensor) → IsPlain newline (sensor_line s)
sensor_line-IsPlain s =
    All-append (λ (c : ℕ). (c == newline) ≡ false) (itoa s.id) _
      (itoa-IsPlain newline s.id (λ d. omega (arith, d)))
      (refl, print_pairs-IsPlain newline s.channels (λ d. omega (arith, d)) refl refl)

split_end : split newline [] ≡ []
unfolding split
split_end = refl

split-print_sensors : (ss : List Sensor) → split newline (print_sensors ss) ≡ map sensor_line ss
unfolding print_sensors
split-print_sensors [] = split_end
split-print_sensors (s ∷ ss) =
    ap (split newline)
      (sym (append_assoc (itoa s.id) (bar ∷ print_pairs s.channels) (newline ∷ print_sensors ss)))
    ∙ split_word newline (sensor_line s) (print_sensors ss) (sensor_line-IsPlain s)
    ∙ ap (◌∷◌ (sensor_line s)) (split-print_sensors ss)

map-read_sensor :
    (ss : List Sensor)
    → SensorsAreInts ss
    → map read_sensor (map sensor_line ss) ≡ map sensor_numbers ss
map-read_sensor [] h = refl
map-read_sensor (s ∷ ss) (h, hs) =
    rw (read_sensor-line s h.0 h.1.0 h.1.1) (ap (◌∷◌ (sensor_numbers s)) (map-read_sensor ss hs))

-- For channels of the device, and sensors with channels, at least one each, whose numbers an int
-- holds: what CmdShowParameters prints is read back, line by line and at its delimiters, as the
-- numbers of all channels and parameters in their order.
pub read_parameters-show_parameters :
    (chs : List Channel) (ss : List Sensor)
    → AreInts chs
    → chs ≢ []
    → SensorsAreInts ss
    → read_parameters (show_parameters chs ss) ≡ (map numbers chs, map sensor_numbers ss)
unfolding show_parameters
read_parameters-show_parameters chs ss ints some_ch sensors =
    rw
      (
        split_word newline (print_pairs chs) (print_sensors ss)
            (print_pairs-IsPlain newline chs (λ d. omega (arith, d)) refl refl),
        read_pairs-print_pairs chs ints some_ch,
        split-print_sensors ss,
        map-read_sensor ss sensors,
      )
      refl
