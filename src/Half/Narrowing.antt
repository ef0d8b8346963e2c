-- ===== src/Half/Narrowing.antt =====
-- Narrowing a finite float gives the nearest half.
use linux.Base.{
  ℕ, zero, suc, ◌+◌, ◌-◌, ◌*◌, ◌/◌, ◌%◌, ◌^◌, ◌≤◌, ◌<◌, ◌≡◌, ◌≢◌, refl, ap, sym, ◌∙◌, arith, dec_lt,
}
use linux.Base.Pow.{two_pow_pos, two_pow_add}
use linux.Base.Run.{Gives, gives}
use native.Mathlib.Nat.{pow-le-pow_right}
use linux.Float.{round_shift_right_even_u64}
use linux.Float.Quarter.{scaled, magnitude}
use linux.Float.Round.{IsNearestEven, round_shift-IsNearestEven}
use linux.Half.{float32_to_float16_full}
use linux.Half.Agree.{sign_of, exp_of, frac_of, full-finite}
use linux.Half.Narrow.{half_bits-small, half_bits-normal, half_bits-zero}
use linux.Half.Parts.{half_bits}
use linux.Half.Rounding.{round_13_bounds, round-le_1024}
use linux.Half.Nearest.{
  half_value, IsNearestHalf, step, half_value-at, value_after, value_before, half_value-before,
  step_pos, small-IsNearestHalf, round-IsNearestEven, scaled-IsNearestEven, scale-le,
}

-- In the range of one exponent: `q` steps, of 1024 or more.
module _ (k q m : ℕ) (low : 1024 ≤ q) (high : q ≤ 2048) (n : IsNearestEven (step k) m q) where
  next : (q + 1) * step k ≡ q * step k + step k
  next = grind arith

  middle_after : (2 * q + 1) * step k ≡ q * step k + q * step k + step k
  middle_after = grind arith

  twice : 2 * q * step k ≡ q * step k + q * step k
  twice = grind arith

  normal-IsNearestHalf : k ≤ 29 → 1024 * step k ≤ m → IsNearestHalf m (k * 1024 + q)
  normal-IsNearestHalf inside least = record {
    in_range = omega arith;
    not_low = λ _. omega (arith, at, after, next, middle_after, n.not_low);
    not_high = λ _. elim (dec_lt 1024 q) [
      | yes more ↦ omega (arith, at, value_before k q more high, twice, n.not_high)
      | no first ↦ omega (arith, at, first_before (omega arith))
    ];
    tie_below =
        λ _ e. omega (arith, n.tie_below (omega (arith, at, after, next, middle_after, n.not_low)));
    tie_above = λ _ e. elim (dec_lt 1024 q) [
      | yes more ↦ omega (arith, n.tie_above (omega (arith, at, value_before k q more high, twice)))
      | no first ↦ absurd (omega (arith, at, first_before (omega arith), step_pos k))
    ];
  }
    where
      at : half_value (k * 1024 + q) ≡ q * step k
      at = half_value-at k q low high

      after : (q + 1) * step k ≤ half_value (k * 1024 + q + 1)
      after = value_after k q low high

      first_before :
          q ≡ 1024
          → (2 * half_value (k * 1024 + q - 1) ≤ 2047 * step k) × (q * step k ≡ 1024 * step k)
      first_before e =
          let same : k * 1024 + 1024 - 1 ≡ k * 1024 + 1023 = omega arith in
          rw e (omega (arith, ap half_value same, half_value-before k), refl)

-- From the middle of the greatest half and the next power of 2 on, the result is infinity.
overflow-IsNearestHalf : (m : ℕ) → 2048 * step 29 ≤ m → IsNearestHalf m 0x7c00
overflow-IsNearestHalf m h = record {
  in_range = omega arith;
  not_low = λ l. absurd (omega arith);
  not_high = λ _. omega (arith, at, before, step_pos 29);
  tie_below = λ l e. absurd (omega arith);
  tie_above = λ _ e. refl;
}
  where
    at : half_value 0x7c00 ≡ 2048 * step 29
    at = half_value-at 29 2048 (omega arith) (omega arith)

    before : half_value (0x7c00 - 1) + step 29 ≡ 2048 * step 29
    before = value_before 29 2048 (omega arith) (omega arith)

scaled-normal : (exp frac : ℕ) → 0 < exp → scaled exp frac ≡ (2 ^ 23 + frac) * 2 ^ (exp - 1)
unfolding scaled
scaled-normal exp frac p = ground arith

scaled-zero : (frac : ℕ) → scaled 0 frac ≡ frac
unfolding scaled
scaled-zero frac = refl

below_all : (frac : ℕ) → frac < 2 ^ 23 → IsNearestEven (2 ^ 125) frac 0
below_all frac h = record {
  not_low = omega arith;
  not_high = omega arith;
  tie_below = λ e. absurd (omega arith);
  tie_above = λ e. absurd (omega arith);
}

-- One power of 2 written as a product in two ways.
powers : (i j k l : ℕ) → i + j ≡ k + l → 2 ^ i * 2 ^ j ≡ 2 ^ k * 2 ^ l
powers i j k l e = sym (two_pow_add i j) ∙ ap (λ (t : ℕ). 2 ^ t) e ∙ two_pow_add k l

small-exponents :
    (exp frac : ℕ)
    → 0 < exp
    → exp ≤ 112
    → frac < 2 ^ 23
    → IsNearestHalf (scaled exp frac) (half_bits exp frac)
small-exponents exp frac p h l =
    let places : 126 - exp ≡ suc (125 - exp) = omega arith in
    let product : 2 ^ suc (125 - exp) * 2 ^ (exp - 1) ≡ 2 ^ 125 * 2 ^ 0 =
      powers (suc (125 - exp)) (exp - 1) 125 0 (omega arith) in
    rw (half_bits-small exp frac p h, places)
      (small-IsNearestHalf (scaled exp frac) _
        (round-le_1024 (2 ^ 23 + frac) (suc (125 - exp)) (omega arith) (omega arith))
        (scaled-IsNearestEven (2 ^ suc (125 - exp)) (2 ^ 23 + frac) _ (2 ^ (exp - 1)) (2 ^ 125)
          (scaled exp frac) (two_pow_pos (exp - 1)) (omega (arith, product))
          (sym (scaled-normal exp frac p))
          (round-IsNearestEven (2 ^ 23 + frac) (125 - exp) (omega arith))))

module _ (exp frac : ℕ) (large : 112 < exp) (l : frac < 2 ^ 23) where
  abbrev significand_rounded : ℕ
  significand_rounded = round_shift_right_even_u64 (2 ^ 23 + frac) 13

  normal-step : 2 ^ 13 * 2 ^ (exp - 1) ≡ step (exp - 113)
  normal-step = powers 13 (exp - 1) (exp - 113) 125 (omega arith)

  magnitude-le : 1024 * step (exp - 113) ≤ scaled exp frac
  magnitude-le = omega (
    arith,
    normal-step,
    scaled-normal exp frac (omega arith),
    scale-le (2 ^ 23) (2 ^ 23 + frac) (2 ^ (exp - 1)) (omega arith),
  )

  normal-exponents : exp - 113 ≤ 29 → IsNearestHalf (scaled exp frac) (half_bits exp frac)
  normal-exponents inside =
      let (low, high) = round_13_bounds frac l in
      let bits : half_bits exp frac ≡ (exp - 113) * 1024 + significand_rounded =
        omega (arith, half_bits-normal exp frac large) in
      rw bits (
        normal-IsNearestHalf (exp - 113) significand_rounded (scaled exp frac) low high
          (scaled-IsNearestEven (2 ^ 13) (2 ^ 23 + frac) significand_rounded (2 ^ (exp - 1))
            (step (exp - 113)) (scaled exp frac) (two_pow_pos (exp - 1)) normal-step
            (sym (scaled-normal exp frac (omega arith)))
            (round_shift-IsNearestEven (2 ^ 23 + frac) 12 (omega arith) (omega arith)))
          inside magnitude-le)

  large-exponents : 29 < exp - 113 → IsNearestHalf (scaled exp frac) (half_bits exp frac)
  large-exponents beyond =
      let (low, high) = round_13_bounds frac l in
      let bits : half_bits exp frac ≡ 0x7c00 = omega (arith, half_bits-normal exp frac large) in
      let grown : 2 ^ 30 ≤ 2 ^ (exp - 113) =
        pow-le-pow_right (omega arith) {i = 30} (omega arith) in
      rw bits (
        overflow-IsNearestHalf (scaled exp frac)
          (omega (arith, magnitude-le, scale-le (2 ^ 30) (2 ^ (exp - 113)) (2 ^ 125) grown)))

half_bits-IsNearestHalf :
    (exp frac : ℕ)
    → exp < 255
    → frac < 2 ^ 23
    → IsNearestHalf (scaled exp frac) (half_bits exp frac)
half_bits-IsNearestHalf zero frac h l =
    rw (half_bits-zero frac, scaled-zero frac)
      (small-IsNearestHalf frac 0 (omega arith) (below_all frac l))
half_bits-IsNearestHalf (suc e) frac h l = elim (dec_lt 112 (suc e)) [
  | no small ↦ small-exponents (suc e) frac (omega arith) (omega arith) l
  | yes large ↦ elim (dec_lt 29 (suc e - 113)) [
    | no inside ↦ normal-exponents (suc e) frac large l (omega arith)
    | yes beyond ↦ large-exponents (suc e) frac large l beyond
  ]
]

-- The result has the sign of the float, and below the sign the nearest half of its magnitude.
abbrev pub IsNarrowed : (uf h : ℕ) → Type 0
IsNarrowed uf h = (h / 2 ^ 15 ≡ sign_of uf) × IsNearestHalf (magnitude uf) (h % 2 ^ 15)

-- On every pattern below 2^32 whose exponent field is not 255 the conversion ends, keeps the sign,
-- and gives the half that is nearest to the magnitude, the even pattern of two that are as near, and
-- infinity from the middle between the greatest half and the next power of 2 on.
pub float32_to_float16_full-IsNarrowed :
    (uf : ℕ) → uf < 2 ^ 32 → exp_of uf ≢ 255 → Gives (IsNarrowed uf) (float32_to_float16_full uf)
unfolding magnitude
float32_to_float16_full-IsNarrowed uf h ne =
    let n = half_bits-IsNearestHalf (exp_of uf) (frac_of uf) (omega arith) (omega arith) in
    let below : half_bits (exp_of uf) (frac_of uf) < 2 ^ 15 = omega (arith, n.in_range) in
    let bits : (sign_of uf * 2 ^ 15 + half_bits (exp_of uf) (frac_of uf)) % 2 ^ 15
        ≡ half_bits (exp_of uf) (frac_of uf) =
      omega arith in
    rw (full-finite uf h ne) (gives _ (omega arith, rw bits n))
