-- ===== src/Base/Xor.antt =====
-- Exclusive or at variables: its digits, its inverse, its width.
use Prim.Native.Nat.{
  ℕ, zero, suc, ◌+◌, ◌*◌, ◌/◌, ◌%◌, ◌^◌, ◌≤◌, ◌<◌, bit_xor, digits, differ, bit_xor-bitwise,
}
use mathlib.Core.Path.{◌≡◌, refl, ap}
use native.Mathlib.Omega.{arith}
use native.Mathlib.Nat.{pow-suc, le_refl}

-- Fuel from the number on makes no difference.
steady :
    (base : ℕ → ℕ) (op : ℕ → ℕ → ℕ) (x y i j : ℕ)
    → x ≤ i
    → x ≤ j
    → digits base op i x y ≡ digits base op j x y
steady base op zero y zero zero hi hj = refl
steady base op zero y (suc i) zero hi hj = refl
steady base op zero y zero (suc j) hi hj = refl
steady base op zero y (suc i) (suc j) hi hj = refl
steady base op (suc x) y zero j hi hj = absurd (omega arith)
steady base op (suc x) y (suc i) zero hi hj = absurd (omega arith)
steady base op (suc x) y (suc i) (suc j) hi hj =
    let halves = steady base op (suc x / 2) (y / 2) i j (omega arith) (omega arith) in rw halves

differ_digits : (m n : ℕ) → m < 2 → n < 2 → differ m n ≡ (m + n) % 2
differ_digits zero n hm hn = omega arith
differ_digits (suc zero) zero hm hn = refl
differ_digits (suc zero) (suc zero) hm hn = refl
differ_digits (suc zero) (suc (suc n)) hm hn = absurd (omega arith)
differ_digits (suc (suc m)) n hm hn = absurd (omega arith)

-- The lowest digit of an exclusive or.
pub bit_xor_step : (a b : ℕ) → bit_xor a b ≡ bit_xor (a / 2) (b / 2) * 2 + (a + b) % 2
bit_xor_step zero b = simp bit_xor-bitwise (omega arith)
bit_xor_step (suc a) b = omega (
  arith,
  bit_xor-bitwise (suc a) b,
  bit_xor-bitwise (suc a / 2) (b / 2),
  steady (λ y. y) differ (suc a / 2) (b / 2) a (suc a / 2) (omega arith) (le_refl _),
  differ_digits (suc a % 2) (b % 2) (omega arith) (omega arith),
)

xor_half : (a b : ℕ) → bit_xor a b / 2 ≡ bit_xor (a / 2) (b / 2)
xor_half a b = omega (arith, bit_xor_step a b)

xor_lift :
    (a b : ℕ) → bit_xor (bit_xor (a / 2) (b / 2)) (b / 2) ≡ a / 2 → bit_xor (bit_xor a b) b ≡ a
xor_lift a b h = omega (
  arith,
  bit_xor_step (bit_xor a b) b,
  ap (λ t. bit_xor t (b / 2)) (xor_half a b),
  bit_xor_step a b,
)

xor_twice : (n a b : ℕ) → a + b ≤ n → bit_xor (bit_xor a b) b ≡ a
xor_twice zero zero zero h = refl
xor_twice zero zero (suc b) h = absurd (omega arith)
xor_twice zero (suc a) b h = absurd (omega arith)
xor_twice (suc n) zero zero h = refl
xor_twice (suc n) zero (suc b) h =
    xor_lift 0 (suc b) (xor_twice n (0 / 2) (suc b / 2) (omega arith))
xor_twice (suc n) (suc a) b h = xor_lift (suc a) b (xor_twice n (suc a / 2) (b / 2) (omega arith))

-- A second exclusive or with the same number undoes the first.
pub bit_xor_cancel : (a b : ℕ) → bit_xor (bit_xor a b) b ≡ a
bit_xor_cancel a b = xor_twice (a + b) a b (le_refl _)

-- Numbers of k binary digits are closed under exclusive or.
pub bit_xor_lt : (k a b : ℕ) → a < 2 ^ k → b < 2 ^ k → bit_xor a b < 2 ^ k
bit_xor_lt zero zero zero ha hb = omega arith
bit_xor_lt zero zero (suc b) ha hb = absurd (omega arith)
bit_xor_lt zero (suc a) b ha hb = absurd (omega arith)
bit_xor_lt (suc k) a b ha hb = omega (
  arith,
  pow-suc 2 k,
  bit_xor_step a b,
  bit_xor_lt k (a / 2) (b / 2) (omega (arith, pow-suc 2 k)) (omega (arith, pow-suc 2 k)),
)

xor_zero : (n a : ℕ) → a ≤ n → bit_xor a 0 ≡ a
xor_zero n zero h = refl
xor_zero zero (suc a) h = absurd (omega arith)
xor_zero (suc n) (suc a) h =
    omega (arith, bit_xor_step (suc a) 0, xor_zero n (suc a / 2) (omega arith))

xor_comm : (n a b : ℕ) → a + b ≤ n → bit_xor a b ≡ bit_xor b a
xor_comm zero zero zero h = refl
xor_comm zero zero (suc b) h = absurd (omega arith)
xor_comm zero (suc a) b h = absurd (omega arith)
xor_comm (suc n) zero zero h = refl
xor_comm (suc n) zero (suc b) h = omega (
  arith,
  bit_xor_step 0 (suc b),
  bit_xor_step (suc b) 0,
  xor_comm n (0 / 2) (suc b / 2) (omega arith),
)
xor_comm (suc n) (suc a) b h = omega (
  arith,
  bit_xor_step (suc a) b,
  bit_xor_step b (suc a),
  xor_comm n (suc a / 2) (b / 2) (omega arith),
)

pub bit_xor_comm : (a b : ℕ) → bit_xor a b ≡ bit_xor b a
bit_xor_comm a b = xor_comm (a + b) a b (le_refl _)

-- One more digit below a field moves it up.
shift_up : (k q : ℕ) → 2 * (q * 2 ^ k) ≡ q * 2 ^ suc k
shift_up k q = let double = ap (λ (width : ℕ). q * width) (pow-suc 2 k) in omega (arith, double)

-- A number of k digits does not reach the digits above them.
pub bit_xor_fields :
    (k q r s : ℕ) → r < 2 ^ k → s < 2 ^ k → bit_xor (q * 2 ^ k + r) s ≡ q * 2 ^ k + bit_xor r s
bit_xor_fields zero q zero zero hr hs = ground (arith, xor_zero q q (le_refl _))
bit_xor_fields zero q (suc r) s hr hs = absurd (omega arith)
bit_xor_fields zero q zero (suc s) hr hs = absurd (omega arith)
bit_xor_fields (suc k) q r s hr hs = omega (
  arith,
  bit_xor_step (q * 2 ^ suc k + r) s,
  bit_xor_step r s,
  shift_up k q,
  pow-suc 2 k,
  ap (λ t. bit_xor t (s / 2)) (halved),
  bit_xor_fields k q (r / 2) (s / 2) (omega (arith, pow-suc 2 k)) (omega (arith, pow-suc 2 k)),
)
  where
    halved : (q * 2 ^ suc k + r) / 2 ≡ q * 2 ^ k + r / 2
    halved = omega (arith, shift_up k q)
