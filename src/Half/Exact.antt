-- ===== src/Half/Exact.antt =====
-- Widening keeps the value.
use linux.Base.{
  ℕ, ◌+◌, ◌-◌, ◌*◌, ◌^◌, ◌≤◌, ◌<◌, ◌≡◌, ◌≢◌, refl, ap, sym, ◌∙◌, arith, ◌==◌, if◌then◌else◌, false,
  ℕ_discrete,
}
use linux.Base.Run.{ok, Gives, gives, Gives-value}
use linux.Float.Quarter.{scaled, magnitude}
use linux.Half.{half_to_float32_bits}
use linux.Half.Agree.{sign_of, exp_of, frac_of}
use linux.Half.RoundTrip.{times_powers, float_of-fields}
use linux.Half.Widen.{
  float_of, half_sign, half_exp, half_frac, widen-special, widen-normal, widen-zero,
  widen-subnormal,
}

-- What IEEE 754 gives the exponent and fraction fields of a finite half, as a multiple of the least
-- positive one, 2^-24. The least positive float is 2^-149, so a half's unit is 2^125 of a float's.
unfoldable pub half_scaled : (exp frac : ℕ) → ℕ
half_scaled exp frac = if exp == 0 then frac else (2 ^ 10 + frac) * 2 ^ (exp - 1)

-- The float `w` has the sign and the value of the half `h`, or is its infinity or NaN.
abbrev pub IsWidened : (h w : ℕ) → Type 0
IsWidened h w =
    (w < 2 ^ 32)
    × (sign_of w ≡ half_sign h)
    × (half_exp h ≡ 31 → (exp_of w ≡ 255) × (frac_of w ≡ half_frac h * 2 ^ 13))
    × (half_exp h ≢ 31
        → (exp_of w ≢ 255) × (magnitude w ≡ half_scaled (half_exp h) (half_frac h) * 2 ^ 125))

magnitude-float_of :
    (sign exp frac : ℕ)
    → sign < 2
    → exp < 2 ^ 8
    → frac < 2 ^ 23
    → magnitude (float_of sign exp frac) ≡ scaled exp frac
unfolding magnitude
magnitude-float_of sign exp frac h k l =
    let (small, s, e, f) = float_of-fields sign exp frac h k l in rw (e, f) refl

finite-IsWidened :
    (h exp frac : ℕ)
    → h < 2 ^ 16
    → half_exp h ≢ 31
    → exp < 255
    → frac < 2 ^ 23
    → scaled exp frac ≡ half_scaled (half_exp h) (half_frac h) * 2 ^ 125
    → Gives (IsWidened h) (ok (float_of (half_sign h) exp frac))
finite-IsWidened h exp frac l ne k m value =
    let (small, s, e, f) = float_of-fields (half_sign h) exp frac (omega arith) (omega arith) m in
    gives _ (
      small,
      s,
      λ special. absurd (ne special),
      λ _. (
        λ special. absurd (omega arith),
        magnitude-float_of (half_sign h) exp frac (omega arith) (omega arith) m ∙ value,
      ),
    )

special-IsWidened :
    (h : ℕ)
    → h < 2 ^ 16
    → half_exp h ≡ 31
    → Gives (IsWidened h) (ok (float_of (half_sign h) 255 (half_frac h * 2 ^ 13)))
special-IsWidened h l special =
    let (small, s, e, f) =
      float_of-fields (half_sign h) 255 (half_frac h * 2 ^ 13) (omega arith) (omega arith)
        (omega arith) in
    gives _ (small, s, λ _. (e, f), λ ne. absurd (ne special))

half_scaled-zero : half_scaled 0 0 ≡ 0
unfolding half_scaled
half_scaled-zero = refl

scaled-zero : scaled 0 0 ≡ 0
unfolding scaled
scaled-zero = refl

scaled-normal :
    (exp frac : ℕ) → 0 < exp → scaled (exp + 112) (frac * 2 ^ 13) ≡ half_scaled exp frac * 2 ^ 125
unfolding scaled half_scaled
scaled-normal exp frac p =
    let subnormal : (exp == 0) ≡ false = ground arith in
    let widened : (exp + 112 == 0) ≡ false = ground arith in
    let whole : 2 ^ 23 + frac * 2 ^ 13 ≡ (1024 + frac) * 2 ^ 13 = omega arith in
    rw (subnormal, widened, whole)
      (times_powers (1024 + frac) 13 (exp + 112 - 1) (exp + 124) (omega arith)
        ∙ sym (times_powers (1024 + frac) (exp - 1) 125 (exp + 124) (omega arith)))

scaled-raised :
    (frac j : ℕ)
    → 1 ≤ j
    → j ≤ 10
    → 1024 ≤ frac * 2 ^ j
    → scaled (113 - j) ((frac * 2 ^ j - 1024) * 2 ^ 13) ≡ half_scaled 0 frac * 2 ^ 125
unfolding scaled half_scaled
scaled-raised frac j p h low =
    let widened : (113 - j == 0) ≡ false = ground arith in
    let whole : 2 ^ 23 + (frac * 2 ^ j - 1024) * 2 ^ 13 ≡ frac * 2 ^ j * 2 ^ 13 = omega arith in
    rw (widened, whole)
      (ap (λ (t : ℕ). t * 2 ^ (113 - j - 1)) (times_powers frac j 13 (j + 13) (omega arith))
        ∙ times_powers frac (j + 13) (113 - j - 1) 125 (omega arith))

-- Every 16-bit pattern is widened in finitely many rounds to the float with its sign and its value,
-- and an infinity or a NaN to the infinity or the NaN with its payload.
pub half_to_float32_bits-IsWidened :
    (h : ℕ) → h < 2 ^ 16 → Gives (IsWidened h) (half_to_float32_bits h)
half_to_float32_bits-IsWidened h l = elim (ℕ_discrete (half_exp h) 31) [
  | yes e ↦ rw (widen-special h l e) (special-IsWidened h l e)
  | no ne ↦ elim (ℕ_discrete (half_exp h) 0) [
    | no nz ↦ rw (widen-normal h l ne nz) (
        finite-IsWidened h (half_exp h + 112) (half_frac h * 2 ^ 13) l ne (omega arith)
          (omega arith) (scaled-normal (half_exp h) (half_frac h) (omega arith)))
    | yes e ↦ elim (ℕ_discrete (half_frac h) 0) [
      | yes z ↦ rw (widen-zero h l e z) (
          finite-IsWidened h 0 0 l ne (omega arith) (omega arith)
            (rw (e, z) (omega (arith, half_scaled-zero, scaled-zero))))
      | no nz ↦ subnormal e nz
    ]
  ]
]
  where
    subnormal : half_exp h ≡ 0 → half_frac h ≢ 0 → Gives (IsWidened h) (half_to_float32_bits h)
    subnormal e nz =
        let (w, run, (j, p, q, low, high, whole)) = Gives-value (widen-subnormal h l e nz) in
        rw (run, whole)
          (finite-IsWidened h (113 - j) ((half_frac h * 2 ^ j - 1024) * 2 ^ 13) l
            (λ special. absurd (omega arith)) (omega arith) (omega arith)
            (rw e (scaled-raised (half_frac h) j p q low)))
