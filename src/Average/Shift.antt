-- ===== src/Average/Shift.antt =====
-- Which weights have a shift.
use linux.Base.{
  ℕ, zero, suc, ◌+◌, ◌/◌, ◌%◌, ◌^◌, ◌<◌, ◌≡◌, ◌≢◌, ◌⊎◌, inl, inr, refl, ap, ◌∙◌, arith, ltb, true,
  dec_lt, ℕ_discrete,
}
use linux.Base.Digits.{bit_and_mask}
use linux.Base.Int.{ℤ, pos, negsuc}
use linux.Base.Run.{Gives, gives, Gives-weaken}
use native.Mathlib.Nat.{pow-suc}
use linux.Average.{shift_loop, weight_shift_from_rcp}

-- The result for a number: the shift if it is a power of 2, and -1 if it is none.
abbrev pub IsShiftOf : (start x : ℕ) → ℤ → Type 0
IsShiftOf start x r =
    ((k : ℕ) × (x ≡ 2 ^ k) × (r ≡ pos (start + k))) ⊎ (((k : ℕ) → x ≢ 2 ^ k) × (r ≡ negsuc 0))

-- A round: the half of an even number.
IsShiftOf-half :
    (start x : ℕ) (r : ℤ)
    → x % 2 ≡ 0
    → 1 < x
    → IsShiftOf (start + 1) (x / 2) r
    → IsShiftOf start x r
IsShiftOf-half start x r even large (inl (k, half, e)) =
    inl (suc k, omega (arith, pow-suc 2 k), e ∙ ap pos (omega arith))
IsShiftOf-half start x r even large (inr (not_half, e)) = inr (no_power, e)
  where
    no_power : (k : ℕ) → x ≢ 2 ^ k
    no_power zero f = absurd (omega arith)
    no_power (suc k) f = not_half k (omega (arith, pow-suc 2 k))

odd-no_power : (x : ℕ) → 1 < x → x % 2 ≢ 0 → (k : ℕ) → x ≢ 2 ^ k
odd-no_power x large odd zero f = absurd (omega arith)
odd-no_power x large odd (suc k) f = absurd (omega (arith, pow-suc 2 k))

-- The rounds that end the loop, and the round that goes on.
module _ (fuel start : ℕ) where
  shift_loop-one : (x : ℕ) → x ≡ 1 → Gives (IsShiftOf start x) (shift_loop (suc fuel) start x)
  unfolding shift_loop
  shift_loop-one x e = rw e (gives (pos start) (inl (0, refl, ap pos (omega arith))))

  shift_loop-odd :
      (x : ℕ) → 1 < x → x % 2 ≢ 0 → Gives (IsShiftOf start x) (shift_loop (suc fuel) start x)
  unfolding shift_loop
  shift_loop-odd x large odd =
      let again : ltb 1 x ≡ true = ground arith in
      let digit : x % 2 ≡ 1 = omega arith in
      let none = odd-no_power x large odd in
      rw (again, bit_and_mask 1 x, digit) (gives (negsuc 0) (inr (none, refl)))

  shift_loop-even :
      (x : ℕ)
      → 1 < x
      → x % 2 ≡ 0
      → shift_loop (suc fuel) start x ≡ shift_loop fuel (start + 1) (x / 2)
  unfolding shift_loop
  shift_loop-even x large even =
      let again : ltb 1 x ≡ true = ground arith in rw (again, bit_and_mask 1 x, even) refl

shift_loop-IsShiftOf :
    (fuel start x : ℕ)
    → 0 < x
    → x < 2 ^ suc fuel
    → Gives (IsShiftOf start x) (shift_loop (suc fuel) start x)
shift_loop-IsShiftOf zero start x p h = shift_loop-one zero start x (omega arith)
shift_loop-IsShiftOf (suc fuel) start x p h = elim (dec_lt 1 x) [
  | no least ↦ shift_loop-one (suc fuel) start x (omega arith)
  | yes large ↦ elim (ℕ_discrete (x % 2) 0) [
    | no odd ↦ shift_loop-odd (suc fuel) start x large odd
    | yes even ↦ rw (shift_loop-even (suc fuel) start x large even) (
        Gives-weaken (λ r q. IsShiftOf-half start x r even large q)
          (shift_loop-IsShiftOf fuel (start + 1) (x / 2) (omega arith)
            (omega (arith, pow-suc 2 (suc fuel)))))
  ]
]

-- For a positive `int` the loop ends after at most 31 rounds, with the shift of a power of 2, and
-- with -1 for any other number.
pub weight_shift_from_rcp-IsShiftOf :
    (n : ℕ) → 0 < n → n < 2 ^ 31 → Gives (IsShiftOf 0 n) (weight_shift_from_rcp (pos n))
unfolding weight_shift_from_rcp
weight_shift_from_rcp-IsShiftOf n p h = shift_loop-IsShiftOf 30 0 n p h
