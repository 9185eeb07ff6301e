-- ===== src/Crc/Laws.antt =====
-- The check sum: its width, its composition, and buffers that differ in a byte.
use ritex.Base.{
  ℕ, zero, suc, ◌+◌, ◌*◌, ◌^◌, ◌≤◌, ◌-◌, ◌<◌, bit_xor, ◌≡◌, ◌∙◌, sym, ap, refl, List, [], ◌∷◌, ◌++◌,
  arith, bit_xor_step, bit_xor_cancel, bit_xor_comm, ◌≢◌, ◌*◌, ◌^◌, bit_xor_lt, All, inl, inr,
  IsByte, le_or_lt, bit_xor_fields,
}
use ritex.Crc.{crc_round, crc_rounds, crc16_byte, crc16}

pub crc16-append : (crc : ℕ) (xs ys : List ℕ) → crc16 crc (xs ++ ys) ≡ crc16 (crc16 crc xs) ys
unfolding crc16
crc16-append crc [] ys = refl
crc16-append crc (x ∷ xs) ys = crc16-append (crc16_byte crc x) xs ys

crc_round_lt : (crc : ℕ) → crc_round crc < 0x10000
unfolding crc_round
crc_round_lt crc = ground arith

crc_rounds_lt : (i crc : ℕ) → crc < 0x10000 → crc_rounds i crc < 0x10000
unfolding crc_rounds
crc_rounds_lt zero crc h = h
crc_rounds_lt (suc i) crc h = crc_rounds_lt i (crc_round crc) (crc_round_lt crc)

crc16_byte_lt : (crc byte : ℕ) → crc < 0x10000 → byte < 256 → crc16_byte crc byte < 0x10000
unfolding crc16_byte
crc16_byte_lt crc byte h hb = crc_rounds_lt 8 _ (bit_xor_lt 16 crc (byte * 2 ^ 8) h (omega arith))

pub crc16_lt :
    (crc : ℕ) (buffer : List ℕ) → crc < 0x10000 → All IsByte buffer → crc16 crc buffer < 0x10000
unfolding crc16
crc16_lt crc [] h hb = h
crc16_lt crc (b ∷ bs) h (hb, hbs) = crc16_lt (crc16_byte crc b) bs (crc16_byte_lt crc b h hb) hbs

-- A round doubles the value or folds the polynomial in, and the low digit tells which.
round_even : (c : ℕ) → c < 0x8000 → crc_round c ≡ 2 * c
unfolding crc_round
round_even c h = ground arith

round_odd : (c : ℕ) → 0x8000 ≤ c → c < 0x10000 → crc_round c ≡ bit_xor (2 * c - 0x10000) 0x8005
unfolding crc_round
round_odd c h hh = ground (
  arith,
  ap (λ t. bit_xor t 0x8005) top,
  bit_xor_fields 16 1 (2 * c - 0x10000) 0x8005 (omega arith) (omega arith),
  bit_xor_lt 16 (2 * c - 0x10000) 0x8005 (omega arith) (omega arith),
)
  where
    top : c * 2 ≡ 1 * 2 ^ 16 + (2 * c - 0x10000)
    top = omega arith

crc_round_injective : (c d : ℕ) → c < 0x10000 → d < 0x10000 → crc_round c ≡ crc_round d → c ≡ d
crc_round_injective c d hc hd e = elim (le_or_lt 0x8000 c) [
  | inl big ↦ elim (le_or_lt 0x8000 d) [
    | inl big' ↦ omega (
      arith,
      bit_xor_cancel (2 * c - 0x10000) 0x8005,
      bit_xor_cancel (2 * d - 0x10000) 0x8005,
      ap (λ t. bit_xor t 0x8005) (sym (round_odd c big hc) ∙ e ∙ round_odd d big' hd),
    )
    | inr small' ↦ absurd (
        omega (
          arith,
          e,
          round_odd c big hc,
          round_even d small',
          bit_xor_step (2 * c - 0x10000) 0x8005,
        ))
  ]
  | inr small ↦ elim (le_or_lt 0x8000 d) [
    | inl big' ↦ absurd (
        omega (
          arith,
          e,
          round_odd d big' hd,
          round_even c small,
          bit_xor_step (2 * d - 0x10000) 0x8005,
        ))
    | inr small' ↦ omega (arith, e, round_even c small, round_even d small')
  ]
]

crc_rounds_injective :
    (i c d : ℕ) → c < 0x10000 → d < 0x10000 → crc_rounds i c ≡ crc_rounds i d → c ≡ d
unfolding crc_rounds
crc_rounds_injective zero c d hc hd e = e
crc_rounds_injective (suc i) c d hc hd e =
    crc_round_injective c d hc hd
      (crc_rounds_injective i (crc_round c) (crc_round d) (crc_round_lt c) (crc_round_lt d) e)

crc16_byte_injective :
    (c d b : ℕ) → c < 0x10000 → d < 0x10000 → b < 256 → crc16_byte c b ≡ crc16_byte d b → c ≡ d
unfolding crc16_byte
crc16_byte_injective c d b hc hd hb e =
    sym (bit_xor_cancel c (b * 2 ^ 8))
    ∙ ap (λ t. bit_xor t (b * 2 ^ 8))
        (crc_rounds_injective 8 _ _ (bit_xor_lt 16 c (b * 2 ^ 8) hc (omega arith))
          (bit_xor_lt 16 d (b * 2 ^ 8) hd (omega arith)) e)
    ∙ bit_xor_cancel d (b * 2 ^ 8)

pub crc16_injective :
    (c d : ℕ) (buffer : List ℕ)
    → c < 0x10000
    → d < 0x10000
    → All IsByte buffer
    → crc16 c buffer ≡ crc16 d buffer
    → c ≡ d
unfolding crc16
crc16_injective c d [] hc hd hb e = e
crc16_injective c d (b ∷ bs) hc hd (hb, hbs) e = crc16_byte_injective c d b hc hd hb (
    crc16_injective (crc16_byte c b) (crc16_byte d b) bs (crc16_byte_lt c b hc hb)
      (crc16_byte_lt d b hd hb) hbs e)

xor_right_injective : (c a b : ℕ) → bit_xor c a ≡ bit_xor c b → a ≡ b
xor_right_injective c a b e =
    sym (bit_xor_cancel a c)
    ∙ ap (λ t. bit_xor t c) (bit_xor_comm a c ∙ e ∙ bit_xor_comm c b)
    ∙ bit_xor_cancel b c

crc16_byte_right_injective :
    (c a b : ℕ) → c < 0x10000 → a < 256 → b < 256 → crc16_byte c a ≡ crc16_byte c b → a ≡ b
unfolding crc16_byte
crc16_byte_right_injective c a b hc ha hb e =
    let same : a * 2 ^ 8 ≡ b * 2 ^ 8 = xor_right_injective c _ _ (
      crc_rounds_injective 8 _ _ (bit_xor_lt 16 c (a * 2 ^ 8) hc (omega arith))
        (bit_xor_lt 16 c (b * 2 ^ 8) hc (omega arith)) e) in
    omega arith

All-append : (xs ys : List ℕ) → All IsByte (xs ++ ys) → All IsByte xs × All IsByte ys
All-append [] ys h = (tt, h)
All-append (x ∷ xs) ys (h, hs) = let (l, r) = All-append xs ys hs in ((h, l), r)

-- Two buffers of bytes that differ in exactly one byte have different check sums, for every 16-bit
-- start value.
pub crc16_detects_byte :
    (crc x y : ℕ) (front back : List ℕ)
    → crc < 0x10000
    → All IsByte (front ++ (x ∷ back))
    → IsByte y
    → x ≢ y
    → crc16 crc (front ++ (x ∷ back)) ≢ crc16 crc (front ++ (y ∷ back))
unfolding crc16
crc16_detects_byte crc x y front back hc hb hy ne e = ne (
    crc16_byte_right_injective c x y lt hx hy (
      crc16_injective _ _ back (crc16_byte_lt c x lt hx) (crc16_byte_lt c y lt hy) hback
        (sym (crc16-append crc front (x ∷ back)) ∙ e ∙ crc16-append crc front (y ∷ back))))
  where
    c : ℕ
    c = crc16 crc front

    lt : c < 0x10000
    lt = crc16_lt crc front hc (All-append front (x ∷ back) hb).0

    hx : x < 256
    hx = (All-append front (x ∷ back) hb).1.0

    hback : All IsByte back
    hback = (All-append front (x ∷ back) hb).1.1
