-- ===== src/Half/RoundTrip.antt =====
-- Widening keeps the value, and narrowing brings the pattern back.
use linux.Base.{
  ℕ, suc, ◌+◌, ◌-◌, ◌*◌, ◌/◌, ◌^◌, ◌≤◌, ◌<◌, ◌≡◌, ◌≢◌, refl, ap, sym, ◌∙◌, arith, ◌==◌, false,
  ℕ_discrete,
}
use linux.Base.Pow.{two_pow_add}
use linux.Base.Run.{ok, ◌>>=◌, Gives-value}
use linux.Base.Word.{u16}
use linux.Half.{half_to_float32_bits, float32_to_float16_full, quiet_payload}
use linux.Half.Agree.{sign_of, exp_of, frac_of, full-finite, full-special}
use linux.Half.Parts.{half_bits}
use linux.Half.Narrow.{half_bits-small, half_bits-normal, half_bits-zero}
use linux.Half.Rounding.{round_exact, join_exponent}
use linux.Half.Widen.{
  float_of, half_sign, half_exp, half_frac, widen-special, widen-normal, widen-zero,
  widen-subnormal,
}

pub times_powers : (x j k s : ℕ) → j + k ≡ s → x * 2 ^ j * 2 ^ k ≡ x * 2 ^ s
times_powers x j k s e = rw (sym e, two_pow_add j k) (grind arith)

-- The fields of a float that is made of them.
pub float_of-fields :
    (sign exp frac : ℕ)
    → sign < 2
    → exp < 2 ^ 8
    → frac < 2 ^ 23
    → (float_of sign exp frac < 2 ^ 32)
      × (sign_of (float_of sign exp frac) ≡ sign)
      × (exp_of (float_of sign exp frac) ≡ exp)
      × (frac_of (float_of sign exp frac) ≡ frac)
float_of-fields sign exp frac h k l = (omega arith, omega arith, omega arith, omega arith)

full-float_of :
    (sign exp frac : ℕ)
    → sign < 2
    → exp < 255
    → frac < 2 ^ 23
    → float32_to_float16_full (float_of sign exp frac) ≡ ok (sign * 2 ^ 15 + half_bits exp frac)
full-float_of sign exp frac h k l =
    let (small, s, e, f) = float_of-fields sign exp frac h (omega arith) l in
    full-finite (float_of sign exp frac) small (omega arith) ∙ ap ok (rw (s, e, f) refl)

-- A normal half.
half_bits-widened :
    (exp frac : ℕ)
    → 0 < exp
    → exp < 31
    → frac < 1024
    → half_bits (exp + 112) (frac * 2 ^ 13) ≡ exp * 1024 + frac
half_bits-widened exp frac p h l =
    let whole : 2 ^ 23 + frac * 2 ^ 13 ≡ (1024 + frac) * 2 ^ 13 = omega arith in
    rw
      (
        half_bits-normal (exp + 112) (frac * 2 ^ 13) (omega arith),
        whole,
        round_exact (1024 + frac) 12 (omega arith) (omega arith),
      )
      (omega arith)

-- A subnormal one.
half_bits-raised :
    (frac j : ℕ)
    → 1 ≤ j
    → j ≤ 10
    → 1024 ≤ frac * 2 ^ j
    → frac * 2 ^ j < 2048
    → half_bits (113 - j) ((frac * 2 ^ j - 1024) * 2 ^ 13) ≡ frac
half_bits-raised frac j p h low high =
    let places : 126 - (113 - j) ≡ suc (j + 12) = omega arith in
    let powers : frac * 2 ^ j * 2 ^ 13 ≡ frac * 2 ^ suc (j + 12) =
      times_powers frac j 13 (suc (j + 12)) (omega arith) in
    let whole : 2 ^ 23 + (frac * 2 ^ j - 1024) * 2 ^ 13 ≡ frac * 2 ^ suc (j + 12) =
      omega (arith, powers) in
    rw
      (
        half_bits-small (113 - j) ((frac * 2 ^ j - 1024) * 2 ^ 13) (omega arith) (omega arith),
        places,
        whole,
      )
      (round_exact frac (j + 12) (omega arith) (omega arith))

-- A NaN of 16 bits: its payload is kept.
payload-kept :
    (sign frac : ℕ)
    → sign < 2
    → 0 < frac
    → frac < 1024
    → quiet_payload sign (frac * 2 ^ 13) ≡ sign * 2 ^ 15 + (31 * 1024 + frac)
unfolding quiet_payload
payload-kept sign frac h p l =
    let payload : u16 (frac * 2 ^ 13 / 2 ^ 13) ≡ frac = omega arith in
    let other : (frac == 0) ≡ false = ground arith in
    rw (payload, other) (join_exponent sign 31 frac h (omega arith) l)

special-back :
    (sign frac : ℕ)
    → sign < 2
    → frac < 1024
    → float32_to_float16_full (float_of sign 255 (frac * 2 ^ 13))
      ≡ ok (sign * 2 ^ 15 + (31 * 1024 + frac))
special-back sign frac h l =
    let (small, s, e, f) = float_of-fields sign 255 (frac * 2 ^ 13) h (omega arith) (omega arith) in
    full-special (float_of sign 255 (frac * 2 ^ 13)) small e
    ∙ ap ok (rw (s, f) (ground (arith, payload-kept sign frac h)))

-- Every 16-bit pattern, NaN included, is widened in finitely many rounds, and narrowing the result
-- gives the pattern back.
pub float32_to_float16_full-half_to_float32_bits :
    (h : ℕ) → h < 2 ^ 16 → (half_to_float32_bits h >>= float32_to_float16_full) ≡ ok h
float32_to_float16_full-half_to_float32_bits h l = elim (ℕ_discrete (half_exp h) 31) [
  | yes e ↦
      rw (widen-special h l e)
        (special-back (half_sign h) (half_frac h) (omega arith) (omega arith) ∙ ap ok (omega arith))
  | no ne ↦ elim (ℕ_discrete (half_exp h) 0) [
    | no nz ↦ rw (widen-normal h l ne nz) (
        full-float_of (half_sign h) (half_exp h + 112) (half_frac h * 2 ^ 13) (omega arith)
          (omega arith) (omega arith)
        ∙ ap ok (
            omega (
              arith,
              half_bits-widened (half_exp h) (half_frac h) (omega arith) (omega arith)
                  (omega arith),
            )))
    | yes e ↦ elim (ℕ_discrete (half_frac h) 0) [
      | yes z ↦ rw (widen-zero h l e z) (
          full-float_of (half_sign h) 0 0 (omega arith) (omega arith) (omega arith)
          ∙ ap ok (omega (arith, half_bits-zero 0)))
      | no nz ↦ subnormal-back e nz
    ]
  ]
]
  where
    subnormal-back :
        half_exp h ≡ 0
        → half_frac h ≢ 0
        → (half_to_float32_bits h >>= float32_to_float16_full) ≡ ok h
    subnormal-back e nz =
        let (w, run, (j, p, q, low, high, whole)) = Gives-value (widen-subnormal h l e nz) in
        rw (run, whole)
          (full-float_of (half_sign h) (113 - j) ((half_frac h * 2 ^ j - 1024) * 2 ^ 13)
              (omega arith) (omega arith) (omega arith)
            ∙ ap ok (omega (arith, half_bits-raised (half_frac h) j p q low high)))
