-- ===== src/Float/Quarter.antt =====
-- A quarter of a float is the nearest one to it.
use linux.Base.{
  ℕ, zero, suc, ◌+◌, ◌-◌, ◌*◌, ◌/◌, ◌%◌, ◌^◌, ◌≤◌, ◌<◌, ◌≡◌, ◌≢◌, refl, ◌∙◌, arith, ltb, leb, ◌==◌,
  if◌then◌else◌, bit_and, bit_or, Bool, true, false,
}
use linux.Base.Digits.{bit_and_mask, bit_and-shl, bit_or_disjoint}
use linux.Base.Word.{u32}
use native.Mathlib.Nat.{pow-suc}
use linux.Float.{round_shift_right_even_u64, float_quarter, float_quarter_ref}
use linux.Float.Round.{IsNearestEven, round_shift-IsNearestEven}

-- What IEEE 754 gives the exponent and fraction fields of a finite float, as a multiple of the least
-- positive float: the exponent field 0 is for the subnormal numbers.
unfoldable pub scaled : (exp frac : ℕ) → ℕ
scaled exp frac = if exp == 0 then frac else (2 ^ 23 + frac) * 2 ^ (exp - 1)

unfoldable pub magnitude : ℕ → ℕ
magnitude w = scaled (w / 2 ^ 23 % 2 ^ 8) (w % 2 ^ 23)

-- The code by the fields of the float: its sign, exponent and fraction.
quarter_fields : (sign exp frac : ℕ) → ℕ
quarter_fields sign exp frac =
    if exp == 0xff
    then sign * 2 ^ 31 + exp * 2 ^ 23 + frac
    else if ltb 2 exp
    then (sign * 2 ^ 8 + (exp - 2)) * 2 ^ 23 + frac
    else if exp == 2
    then bit_or (sign * 2 ^ 31) (round_shift_right_even_u64 (2 ^ 23 + frac) 1)
    else if exp == 1
    then bit_or (sign * 2 ^ 31) (round_shift_right_even_u64 (2 ^ 23 + frac) 2)
    else bit_or (sign * 2 ^ 31) (round_shift_right_even_u64 frac 2)

replace_then : {x y : ℕ} (z : ℕ) (b : Bool) → x ≡ y → (if b then x else z) ≡ (if b then y else z)
replace_then z true e = e
replace_then z false e = refl

float_quarter_fields :
    (uf : ℕ)
    → uf < 2 ^ 32
    → float_quarter uf ≡ quarter_fields (uf / 2 ^ 31) (uf / 2 ^ 23 % 2 ^ 8) (uf % 2 ^ 23)
unfolding float_quarter quarter_fields
float_quarter_fields uf h =
    rw (sign_bit, exp_field, frac_field, implicit_one, exp_lowered, rejoined)
      (replace_then _ (exp == 0xff) whole)
  where
    exp : ℕ
    exp = uf / 2 ^ 23 % 2 ^ 8

    whole : uf ≡ uf / 2 ^ 31 * 2 ^ 31 + uf / 2 ^ 23 % 2 ^ 8 * 2 ^ 23 + uf % 2 ^ 23
    whole = omega arith

    exp_lowered :
        bit_or (uf / 2 ^ 31 * 2 ^ 31) (u32 ((exp - 2) * 2 ^ 23))
        ≡ (uf / 2 ^ 31 * 2 ^ 8 + (exp - 2)) * 2 ^ 23
    exp_lowered =
        bit_or_disjoint 31 (uf / 2 ^ 31) (u32 ((exp - 2) * 2 ^ 23)) (omega arith) ∙ omega arith

    rejoined :
        bit_or ((uf / 2 ^ 31 * 2 ^ 8 + (exp - 2)) * 2 ^ 23) (uf % 2 ^ 23)
        ≡ (uf / 2 ^ 31 * 2 ^ 8 + (exp - 2)) * 2 ^ 23 + uf % 2 ^ 23
    rejoined = bit_or_disjoint 23 (uf / 2 ^ 31 * 2 ^ 8 + (exp - 2)) (uf % 2 ^ 23) (omega arith)

    sign_bit : bit_and uf 0x80000000 ≡ uf / 2 ^ 31 * 2 ^ 31
    sign_bit = omega (arith, bit_and-shl 31 uf 1, bit_and_mask 1 (uf / 2 ^ 31))

    exp_field : bit_and (uf / 2 ^ 23) 0xff ≡ uf / 2 ^ 23 % 2 ^ 8
    exp_field = bit_and_mask 8 (uf / 2 ^ 23)

    frac_field : bit_and uf 0x7fffff ≡ uf % 2 ^ 23
    frac_field = bit_and_mask 23 uf

    implicit_one : bit_or 0x800000 (uf % 2 ^ 23) ≡ 2 ^ 23 + uf % 2 ^ 23
    implicit_one = bit_or_disjoint 23 1 (uf % 2 ^ 23) (omega arith)

-- A quarter keeps the sign and rounds the magnitude.
abbrev pub IsQuarter : (sign magn result : ℕ) → Type 0
IsQuarter sign magn result = (result / 2 ^ 31 ≡ sign) × IsNearestEven 4 magn (magnitude result)

-- Above a sign, a number of at most 2^23 is its own pattern: the last one is the first normal float.
small-IsQuarter :
    (sign magn r : ℕ)
    → sign < 2
    → r ≤ 2 ^ 23
    → IsNearestEven 4 magn r
    → IsQuarter sign magn (bit_or (sign * 2 ^ 31) r)
unfolding magnitude scaled
small-IsQuarter sign magn r l h n =
    rw (bit_or_disjoint 31 sign r (omega arith)) (omega arith, rw value n)
  where
    value : scaled ((sign * 2 ^ 31 + r) / 2 ^ 23 % 2 ^ 8) ((sign * 2 ^ 31 + r) % 2 ^ 23) ≡ r
    value = ground arith

-- Half of a number is a quarter of its double.
double-IsNearestEven : (n r : ℕ) → IsNearestEven 2 n r → IsNearestEven 4 (2 * n) r
double-IsNearestEven n r h = record {
  not_low = omega (arith, h.not_low);
  not_high = omega (arith, h.not_high);
  tie_below = λ e. h.tie_below (omega arith);
  tie_above = λ e. h.tie_above (omega arith);
}

exact-IsNearestEven : (r : ℕ) → IsNearestEven 4 (4 * r) r
exact-IsNearestEven r = record {
  not_low = omega arith;
  not_high = omega arith;
  tie_below = λ e. absurd (omega arith);
  tie_above = λ e. absurd (omega arith);
}

quarter_fields-IsQuarter :
    (sign exp frac : ℕ)
    → sign < 2
    → exp < 255
    → frac < 2 ^ 23
    → IsQuarter sign (scaled exp frac) (quarter_fields sign exp frac)
unfolding quarter_fields scaled magnitude
quarter_fields-IsQuarter sign zero frac l h k =
    let n = round_shift-IsNearestEven frac 1 (omega arith) (omega arith) in
    small-IsQuarter sign frac _ l (omega (arith, n.not_high)) n
quarter_fields-IsQuarter sign (suc zero) frac l h k =
    let n = round_shift-IsNearestEven (2 ^ 23 + frac) 1 (omega arith) (omega arith) in
    small-IsQuarter sign ((2 ^ 23 + frac) * 1) _ l (omega (arith, n.not_high))
      (rw (times_one (2 ^ 23 + frac)) n)
  where
    times_one : (t : ℕ) → t * 1 ≡ t
    times_one t = omega arith
quarter_fields-IsQuarter sign (suc (suc zero)) frac l h k =
    let n = round_shift-IsNearestEven (2 ^ 23 + frac) 0 (omega arith) (omega arith) in
    small-IsQuarter sign ((2 ^ 23 + frac) * 2) _ l (omega (arith, n.not_high))
      (rw (swap (2 ^ 23 + frac)) (double-IsNearestEven (2 ^ 23 + frac) _ n))
  where
    swap : (t : ℕ) → t * 2 ≡ 2 * t
    swap t = omega arith
quarter_fields-IsQuarter sign (suc (suc (suc e))) frac l h k =
    rw (shape, exp_field, frac_field, larger) (omega arith, exact-IsNearestEven _)
  where
    result : ℕ
    result = (sign * 2 ^ 8 + suc e) * 2 ^ 23 + frac

    shape : quarter_fields sign (suc (suc (suc e))) frac ≡ result
    shape = ground arith

    exp_field : result / 2 ^ 23 % 2 ^ 8 ≡ suc e
    exp_field = omega arith

    frac_field : result % 2 ^ 23 ≡ frac
    frac_field = omega arith

    four_times : (c p q r : ℕ) → q ≡ p * 2 → r ≡ q * 2 → c * r ≡ 4 * (c * p)
    four_times c p q r f g = rw (g, f) (grind arith)

    powers : (2 ^ 23 + frac) * 2 ^ suc (suc e) ≡ 4 * ((2 ^ 23 + frac) * 2 ^ e)
    powers = four_times (2 ^ 23 + frac) (2 ^ e) (2 ^ suc e) _ (pow-suc 2 e) (pow-suc 2 (suc e))

    predecessors : (suc (suc (suc e)) - 1 ≡ suc (suc e)) × (suc e - 1 ≡ e)
    predecessors = (omega arith, omega arith)

    larger : scaled (suc (suc (suc e))) frac ≡ 4 * scaled (suc e) frac
    larger = rw (predecessors.0, predecessors.1) (ground (arith, powers))

-- Of a pattern below 2^32 whose exponent field is not 255, `float_quarter` keeps the sign, and the
-- magnitude becomes a quarter of what it was, rounded to the nearest float, and to the even one of
-- two that are as near. With the exponent field 255 (infinities, NaN) the pattern is kept.
pub float_quarter-IsNearestEven :
    (uf : ℕ)
    → uf < 2 ^ 32
    → (uf / 2 ^ 23 % 2 ^ 8 ≡ 255 → float_quarter uf ≡ uf)
      × (uf / 2 ^ 23 % 2 ^ 8 ≢ 255 → IsQuarter (uf / 2 ^ 31) (magnitude uf) (float_quarter uf))
unfolding magnitude quarter_fields
float_quarter-IsNearestEven uf h = (
  λ e. kept e,
  λ ne. rw (float_quarter_fields uf h) (
      quarter_fields-IsQuarter (uf / 2 ^ 31) (uf / 2 ^ 23 % 2 ^ 8) (uf % 2 ^ 23) (omega arith)
        (omega arith) (omega arith)),
)
  where
    kept : uf / 2 ^ 23 % 2 ^ 8 ≡ 255 → float_quarter uf ≡ uf
    kept e = rw (float_quarter_fields uf h, e) (omega arith)

-- The code agrees with the file's reference on every input.
pub float_quarter-float_quarter_ref : (uf : ℕ) → float_quarter uf ≡ float_quarter_ref uf
unfolding float_quarter float_quarter_ref
float_quarter-float_quarter_ref uf = rw (same_test (bit_and (uf / 2 ^ 23) 0xff)) refl
  where
    same_test : (e : ℕ) → ltb 2 e ≡ leb 3 e
    same_test e = ground arith
