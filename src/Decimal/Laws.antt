-- ===== src/Decimal/Laws.antt =====
-- The digits of a number are read back as the number.
use ritex.Base.{
  ℕ, zero, suc, ◌+◌, ◌-◌, ◌*◌, ◌/◌, ◌%◌, ◌^◌, ◌≤◌, ◌<◌, ◌≡◌, ◌≢◌, refl, Bool, true, false, List, [],
  ◌∷◌, ◌++◌, ◌==◌, ltb, if◌then◌else◌, All, length, length-append, arith,
}
use ritex.Decimal.{digits_in, itoa, number_from, number_of}

number_from-append :
    (n : ℕ) (digits : List ℕ) (c : ℕ)
    → number_from n (digits ++ (c ∷ [])) ≡ 10 * number_from n digits + (c - 48)
unfolding number_from
number_from-append n [] c = refl
number_from-append n (d ∷ digits) c = number_from-append (10 * n + (d - 48)) digits c

-- Ten to the number of rounds.
abbrev bound : ℕ → ℕ
bound zero = 1
bound (suc rounds) = 10 * bound rounds

number_of-digits_in : (rounds n : ℕ) → n < bound rounds → number_of (digits_in rounds n) ≡ n
unfolding number_of digits_in number_from
number_of-digits_in zero n h = omega arith
number_of-digits_in (suc rounds) n h = ground (
  arith,
  number_from-append 0 (digits_in rounds (n / 10)) (48 + n % 10),
  number_of-digits_in rounds (n / 10) (omega arith),
)

-- The number is below 2 ^ 31, as an int.
pub number_of-itoa : (n : ℕ) → n < 2 ^ 31 → number_of (itoa n) ≡ n
unfolding itoa
number_of-itoa n h = number_of-digits_in 10 n (omega arith)

abbrev IsDigit : ℕ → Type 0
IsDigit c = (48 ≤ c) × (c ≤ 57)

pub All-append : (P : ℕ → Type 0) (a b : List ℕ) → All P a → All P b → All P (a ++ b)
All-append P [] b h k = k
All-append P (x ∷ a) b (h, hs) k = (h, All-append P a b hs k)

digits_in-All : (rounds n : ℕ) → All IsDigit (digits_in rounds n)
unfolding digits_in
digits_in-All zero n = tt
digits_in-All (suc rounds) n = choose (ltb n 10) refl (digits_in-All rounds (n / 10))
  where
    choose :
        (small : Bool)
        → ltb n 10 ≡ small
        → All IsDigit (digits_in rounds (n / 10))
        → All IsDigit
            (if small then (48 + n) ∷ [] else digits_in rounds (n / 10) ++ ((48 + n % 10) ∷ []))
    choose true e ih = ((omega arith, ground (arith, e)), tt)
    choose false e ih =
        All-append IsDigit (digits_in rounds (n / 10)) _ ih ((omega arith, omega arith), tt)

plain_digits :
    (delim : ℕ) (digits : List ℕ)
    → ¬ IsDigit delim
    → All IsDigit digits
    → All (λ c. (c == delim) ≡ false) digits
plain_digits delim [] other h = tt
plain_digits delim (c ∷ digits) other (h, hs) =
    (differs (c == delim) refl, plain_digits delim digits other hs)
  where
    differs : (same : Bool) → (c == delim) ≡ same → same ≡ false
    differs false e = refl
    differs true e = absurd (other (ground (arith, e, h)))

-- No digit of a number is a delimiter that is no digit.
pub itoa-IsPlain :
    (delim n : ℕ) → ¬ ((48 ≤ delim) × (delim ≤ 57)) → All (λ c. (c == delim) ≡ false) (itoa n)
unfolding itoa
itoa-IsPlain delim n other = plain_digits delim (digits_in 10 n) other (digits_in-All 10 n)

append_some : (a : List ℕ) (c : ℕ) → a ++ (c ∷ []) ≢ []
append_some [] c e = absurd (ground (arith, e))
append_some (x ∷ a) c e = absurd (ground (arith, e))

-- A number has a digit.
pub itoa_some : (n : ℕ) → itoa n ≢ []
unfolding itoa digits_in
itoa_some n = choose (ltb n 10)
  where
    choose :
        (small : Bool)
        → (if small then (48 + n) ∷ [] else digits_in 9 (n / 10) ++ ((48 + n % 10) ∷ [])) ≢ []
    choose true e = absurd (ground (arith, e))
    choose false e = append_some (digits_in 9 (n / 10)) (48 + n % 10) e

length-digits_in : (rounds n : ℕ) → length (digits_in rounds n) ≤ rounds
unfolding digits_in
length-digits_in zero n = omega arith
length-digits_in (suc rounds) n = ground (
  arith,
  length-digits_in rounds (n / 10),
  length-append (digits_in rounds (n / 10)) ((48 + n % 10) ∷ []),
)

pub length-itoa : (n : ℕ) → length (itoa n) ≤ 10
unfolding itoa
length-itoa n = length-digits_in 10 n
