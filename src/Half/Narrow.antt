-- ===== src/Half/Narrow.antt =====
-- Narrowing ends with the same pattern in the reference and in the full conversion.
use linux.Base.{
  ℕ, zero, suc, ◌+◌, ◌-◌, ◌*◌, ◌^◌, ◌≤◌, ◌<◌, ◌≡◌, refl, ap, ◌∙◌, arith, ◌==◌, ◌&&◌, if◌then◌else◌,
  false, dec_lt, min,
}
use linux.Base.Digits.{bit_or_disjoint}
use linux.Base.Int.{ℤ, pos, negsuc, ◌+ℤ◌, ◌-ℤ◌}
use linux.Base.Run.{Run, ok, ◌>>=◌, Gives-value}
use linux.Base.Word.{u16, u32}
use native.Mathlib.Nat.{pow-le-pow_right}
use native.Mathlib.Nat.{pow-le-pow_right}
use linux.Float.{round_shift_right_even_u64}
use linux.Half.{significand, round_full}
use linux.Half.Normalize.{normalize_loop-IsNormalized}
use linux.Half.Parts.{half_bits, round_full-small, normal_full_lem}
use linux.Half.Rounding.{round_13_bounds, round_far, join_sign}

middle_exponent : (exp : ℕ) → 112 < exp → pos exp -ℤ pos 127 +ℤ pos 15 ≡ pos (exp - 112)
unfolding ◌+ℤ◌ ◌-ℤ◌
middle_exponent exp h = ground arith

small_exponent : (exp : ℕ) → 0 < exp → exp ≤ 112 → pos exp -ℤ pos 127 ≡ negsuc (126 - exp)
unfolding ◌-ℤ◌
small_exponent exp p h = ground arith

pub half_bits-zero : (frac : ℕ) → half_bits 0 frac ≡ 0
unfolding half_bits
half_bits-zero frac = refl

pub half_bits-small :
    (exp frac : ℕ)
    → 0 < exp
    → exp ≤ 112
    → half_bits exp frac ≡ round_shift_right_even_u64 (2 ^ 23 + frac) (126 - exp)
unfolding half_bits
half_bits-small exp frac p h = ground arith

pub half_bits-normal :
    (exp frac : ℕ)
    → 112 < exp
    → half_bits exp frac
      ≡ min 0x7c00 ((exp - 113) * 1024 + round_shift_right_even_u64 (2 ^ 23 + frac) 13)
unfolding half_bits
half_bits-normal exp frac h = ground arith

round_full-at :
    (sign sig n : ℕ) (e : ℤ)
    → sign < 2
    → 0 < n
    → 1024 ≤ round_shift_right_even_u64 sig 13
    → round_shift_right_even_u64 sig 13 ≤ 2048
    → e +ℤ pos 15 ≡ pos n
    → round_full sign sig e
      ≡ sign * 2 ^ 15 + min 0x7c00 ((n - 1) * 1024 + round_shift_right_even_u64 sig 13)
unfolding round_full
round_full-at sign sig n e h p low high exponent = rw exponent (
    ground (
      arith,
      join_sign sign 0x7c00 h (omega arith),
      normal_full_lem sign n (round_shift_right_even_u64 sig 13) h p,
    ))

-- A normal float, from its implicit one on.
round_full-normal :
    (sign exp frac : ℕ)
    → sign < 2
    → 0 < exp
    → exp < 2 ^ 8
    → frac < 2 ^ 23
    → round_full sign (2 ^ 23 + frac) (pos exp -ℤ pos 127) ≡ sign * 2 ^ 15 + half_bits exp frac
round_full-normal sign exp frac h p k l = elim (dec_lt 112 exp) [
  | no small ↦
      rw (small_exponent exp p (omega arith), half_bits-small exp frac p (omega arith))
        (round_full-small sign (2 ^ 23 + frac) (126 - exp) h (omega arith) (omega arith)
          (omega arith))
  | yes large ↦
      let (low, high) = round_13_bounds frac l in
      let place : exp - 112 - 1 ≡ exp - 113 = omega arith in
      rw (half_bits-normal exp frac large) (
        rw place at (
          round_full-at sign (2 ^ 23 + frac) (exp - 112) (pos exp -ℤ pos 127) h (omega arith) low
            high (middle_exponent exp large)))
]

lowered : (j : ℕ) → negsuc 125 -ℤ pos j ≡ negsuc (125 + j)
unfolding ◌-ℤ◌
lowered j = ground arith

-- A number of less than 24 bits is moved up by less than 24 places.
few_places : (x y j : ℕ) → 0 < x → y ≡ x * 2 ^ j → y < 2 ^ 24 → j < 24
few_places x y j p e h = elim (dec_lt j 24) [
  | yes few ↦ few
  | no many ↦
      let far : 2 ^ 24 ≤ 2 ^ j = pow-le-pow_right (omega arith) {i = 24} (omega arith) in
      absurd (grind arith)
]

module _ (word : ℕ → ℕ) (keep : (n : ℕ) → n < 2 ^ 24 → word n ≡ n) (sign : ℕ) (h : sign < 2) where
  abbrev pub narrowed : (exp frac : ℕ) → Run ℕ
  narrowed exp frac = do (sig, e) ← significand word exp frac; ok (round_full sign sig e)

  -- A subnormal float is below half of the least subnormal one of 16 bits.
  narrowed-subnormal : (frac : ℕ) → 0 < frac → frac < 2 ^ 23 → narrowed 0 frac ≡ ok (sign * 2 ^ 15)
  unfolding significand
  narrowed-subnormal frac p l =
      let ((y, e), run, (j, whole, exponent, high, low)) = Gives-value (
        normalize_loop-IsNormalized word 23 keep 23 frac (negsuc 125) (omega arith)
          (omega arith)) in
      rw
        (
          run,
          exponent,
          lowered j,
          round_full-small sign y (125 + j) h low (omega arith)
              (omega (arith, few_places frac y j p whole low)),
          round_far y (125 + j) low (omega arith),
        )
        (ap ok (omega arith))

  narrowed-normal :
      (exp frac : ℕ)
      → 0 < exp
      → exp < 2 ^ 8
      → frac < 2 ^ 23
      → narrowed exp frac ≡ ok (sign * 2 ^ 15 + half_bits exp frac)
  unfolding significand
  narrowed-normal exp frac p k l =
      let normal : (exp == 0) ≡ false = ground arith in
      rw (normal, bit_or_disjoint 23 1 frac l, round_full-normal sign exp frac h p k l) refl

  -- A float that is finite, with 0 apart as in the code.
  pub narrowed_lem :
      (exp frac : ℕ)
      → exp < 2 ^ 8
      → frac < 2 ^ 23
      → (if exp == 0 && frac == 0 then ok (u16 (u32 (sign * 2 ^ 15))) else narrowed exp frac)
        ≡ ok (sign * 2 ^ 15 + half_bits exp frac)
  narrowed_lem zero zero k l = ap ok (omega (arith, half_bits-zero 0))
  narrowed_lem zero (suc f) k l =
      let other : (suc f == 0) ≡ false = ground arith in
      rw other
        (narrowed-subnormal (suc f) (omega arith) l ∙ ap ok (omega (arith, half_bits-zero (suc f))))
  narrowed_lem (suc e) frac k l =
      let other : (suc e == 0) ≡ false = ground arith in
      rw other (narrowed-normal (suc e) frac (omega arith) k l)
