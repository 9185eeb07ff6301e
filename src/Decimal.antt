-- ===== src/Decimal.antt =====
-- `itoa` of src/Utils.cpp, and `%d` of printf, for a number that an int holds and that is not negative.
pub mod Laws
use ritex.Base.{ℕ, zero, suc, ◌+◌, ◌-◌, ◌*◌, ◌/◌, ◌%◌, List, [], ◌∷◌, ◌++◌, if◌then◌else◌, ltb}

-- The digits of a number, a round for each; ten are enough for every int.
unfoldable pub digits_in : ℕ → ℕ → List ℕ
digits_in zero n = []
digits_in (suc rounds) n =
    let rest = digits_in rounds (n / 10) in
    if ltb n 10 then (48 + n) ∷ [] else rest ++ ((48 + n % 10) ∷ [])

unfoldable pub itoa : ℕ → List ℕ
itoa n = digits_in 10 n

-- The number that digits stand for.
unfoldable pub number_from : ℕ → List ℕ → ℕ
number_from n [] = n
number_from n (c ∷ digits) = number_from (10 * n + (c - 48)) digits

unfoldable pub number_of : List ℕ → ℕ
number_of digits = number_from 0 digits
