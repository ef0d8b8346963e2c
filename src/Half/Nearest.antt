-- ===== src/Half/Nearest.antt =====
-- Narrowing rounds to the nearest half, and to the even pattern of two that are as near.
use linux.Base.{
  ℕ, zero, suc, ◌+◌, ◌-◌, ◌*◌, ◌/◌, ◌%◌, ◌^◌, ◌≤◌, ◌<◌, ◌≡◌, refl, ap, sym, ◌∙◌, arith, ◌==◌, false,
  dec_lt,
}
use linux.Base.Pow.{two_pow_pos}
use native.Mathlib.Nat.{pow-le-pow_right, pow-suc}
use linux.Float.{round_shift_right_even_u64}
use linux.Float.Round.{IsNearestEven, round_shift-IsNearestEven}
use linux.Half.Exact.{half_scaled}
use linux.Half.Rounding.{round_far}

-- The value of the 15 bits below the sign, as a multiple of the least positive float. The pattern of
-- infinity counts as the power of 2 that follows the greatest half.
unfoldable pub half_value : ℕ → ℕ
half_value p = half_scaled (p / 2 ^ 10) (p % 2 ^ 10) * 2 ^ 125

-- `m` lies between the middle of the pattern `r` and the one before, and the middle of `r` and the
-- one after, and where it is a middle `r` is even.
pub record IsNearestHalf (m r : ℕ) : Type 0 where
  pub in_range : r ≤ 0x7c00
  pub not_low : r < 0x7c00 → 2 * m ≤ half_value r + half_value (r + 1)
  pub not_high : 0 < r → half_value (r - 1) + half_value r ≤ 2 * m
  pub tie_below : r < 0x7c00 → 2 * m ≡ half_value r + half_value (r + 1) → r % 2 ≡ 0
  pub tie_above : 0 < r → half_value (r - 1) + half_value r ≡ 2 * m → r % 2 ≡ 0

-- The rounding shift at every distance.
pub round-IsNearestEven :
    (value s : ℕ)
    → value < 2 ^ 24
    → IsNearestEven (2 ^ suc s) value (round_shift_right_even_u64 value (suc s))
round-IsNearestEven value s h = elim (dec_lt s 31) [
  | yes near ↦ round_shift-IsNearestEven value s (omega arith) near
  | no far ↦
      let large : 2 ^ 32 ≤ 2 ^ suc s = pow-le-pow_right (omega arith) {i = 32} (omega arith) in
      rw (round_far value (suc s) h (omega arith)) (record {
        not_low = omega arith;
        not_high = omega arith;
        tie_below = λ e. absurd (omega arith);
        tie_above = λ e. absurd (omega arith);
      })
]

pub scale-le : (a b c : ℕ) → a ≤ b → a * c ≤ b * c
scale-le a b c h = grind arith

cancel : (a b c : ℕ) → 0 < c → a * c ≡ b * c → a ≡ b
cancel a b c p e = elim (dec_lt a b) [
  | yes less ↦ absurd (omega (arith, scale-le (a + 1) b c (omega arith)))
  | no not_less ↦ elim (dec_lt b a) [
    | yes more ↦ absurd (omega (arith, scale-le (b + 1) a c (omega arith)))
    | no not_more ↦ omega arith
  ]
]

-- Both sides of a rounding are multiplied alike.
pub scaled-IsNearestEven :
    (d value r c e m : ℕ)
    → 0 < c
    → d * c ≡ e
    → value * c ≡ m
    → IsNearestEven d value r
    → IsNearestEven e m r
scaled-IsNearestEven d value r c e m p f g n = record {
  not_low = omega (arith, up, g, scale-le (2 * value) ((2 * r + 1) * d) c n.not_low);
  not_high = omega (arith, down, g, f, scale-le (2 * r * d) (2 * value + d) c n.not_high);
  tie_below = λ t. n.tie_below (cancel (2 * value) ((2 * r + 1) * d) c p (omega (arith, up, g)));
  tie_above = λ t. n.tie_above (cancel (2 * r * d) (2 * value + d) c p (omega (arith, down, f, g)));
}
  where
    up : (2 * r + 1) * d * c ≡ (2 * r + 1) * e
    up = rw (sym f) (grind arith)

    down : 2 * r * d * c ≡ 2 * r * e
    down = rw (sym f) (grind arith)

-- Up to twice the least normal half the patterns count units.
pub half_value-low : (p : ℕ) → p ≤ 2048 → half_value p ≡ p * 2 ^ 125
unfolding half_value half_scaled
half_value-low p h = elim (dec_lt p 1024) [
  | yes subnormal ↦
      let e : p / 2 ^ 10 ≡ 0 = omega arith in let f : p % 2 ^ 10 ≡ p = omega arith in rw (e, f) refl
  | no normal ↦ elim (dec_lt p 2048) [
    | yes least ↦
        let e : p / 2 ^ 10 ≡ 1 = omega arith in
        let f : p % 2 ^ 10 ≡ p - 1024 = omega arith in rw (e, f) (omega arith)
    | no next ↦
        let e : p / 2 ^ 10 ≡ 2 = omega arith in
        let f : p % 2 ^ 10 ≡ 0 = omega arith in rw (e, f) (omega arith)
  ]
]

pub small-IsNearestHalf : (m r : ℕ) → r ≤ 1024 → IsNearestEven (2 ^ 125) m r → IsNearestHalf m r
small-IsNearestHalf m r h n = record {
  in_range = omega arith;
  not_low = λ _. omega (arith, here, after, n.not_low);
  not_high = λ p. omega (arith, here, before p, n.not_high);
  tie_below = λ _ e. n.tie_below (omega (arith, here, after));
  tie_above = λ p e. n.tie_above (omega (arith, here, before p));
}
  where
    here : half_value r ≡ r * 2 ^ 125
    here = half_value-low r (omega arith)

    after : half_value (r + 1) ≡ (r + 1) * 2 ^ 125
    after = half_value-low (r + 1) (omega arith)

    before : 0 < r → half_value (r - 1) ≡ (r - 1) * 2 ^ 125
    before p = half_value-low (r - 1) (omega arith)

-- From the pattern of an exponent to that of the next one the values go up by equal steps.
module _ (k : ℕ) where
  abbrev pub step : ℕ
  step = 2 ^ k * 2 ^ 125

  half_value-normal : (q : ℕ) → 1024 ≤ q → q < 2048 → half_value (k * 1024 + q) ≡ q * step
  unfolding half_value half_scaled
  half_value-normal q h l =
      let e : (k * 1024 + q) / 2 ^ 10 ≡ suc k = omega arith in
      let f : (k * 1024 + q) % 2 ^ 10 ≡ q - 1024 = omega arith in
      let normal : (suc k == 0) ≡ false = ground arith in
      let whole : 2 ^ 10 + (q - 1024) ≡ q = omega arith in
      let before : suc k - 1 ≡ k = omega arith in rw (e, f, normal, whole, before) (grind arith)

  doubled_step : 2 ^ suc k * 2 ^ 125 ≡ 2 * step
  doubled_step = omega (arith, pow-suc 2 k)

pub half_value-before : (k : ℕ) → 2 * half_value (k * 1024 + 1023) ≤ 2047 * step k
half_value-before zero = omega (arith, half_value-low 1023 (omega arith))
half_value-before (suc k) =
    let same : k * 1024 + 2047 ≡ suc k * 1024 + 1023 = omega arith in
    omega (
      arith,
      ap half_value same,
      half_value-normal k 2047 (omega arith) (omega arith),
      doubled_step k,
    )

module _ (k : ℕ) where
  pub half_value-at : (q : ℕ) → 1024 ≤ q → q ≤ 2048 → half_value (k * 1024 + q) ≡ q * step k
  half_value-at q h l = elim (dec_lt q 2048) [
    | yes inside ↦ half_value-normal k q h inside
    | no last ↦
        let e : q ≡ 2048 = omega arith in
        let same : k * 1024 + 2048 ≡ suc k * 1024 + 1024 = omega arith in
        rw e (
          ap half_value same
          ∙ half_value-normal (suc k) 1024 (omega arith) (omega arith)
          ∙ omega (arith, doubled_step k))
  ]

  half_value-last : half_value (k * 1024 + 2048 + 1) ≡ 2050 * step k
  half_value-last =
      let same : k * 1024 + 2048 + 1 ≡ suc k * 1024 + 1025 = omega arith in
      ap half_value same
      ∙ half_value-normal (suc k) 1025 (omega arith) (omega arith)
      ∙ omega (arith, doubled_step k)

  pub step_pos : 0 < step k
  step_pos = omega (arith, scale-le 1 (2 ^ k) (2 ^ 125) (two_pow_pos k))

  -- The three values that matter, as multiples of the step.
  pub value_after : (q : ℕ) → 1024 ≤ q → q ≤ 2048 → (q + 1) * step k ≤ half_value (k * 1024 + q + 1)
  value_after q h l = elim (dec_lt q 2048) [
    | yes inside ↦
        let same : k * 1024 + (q + 1) ≡ k * 1024 + q + 1 = omega arith in
        omega (arith, ap half_value same, half_value-at (q + 1) (omega arith) (omega arith))
    | no last ↦ let e : q ≡ 2048 = omega arith in rw e (omega (arith, half_value-last, step_pos))
  ]

  pub value_before :
      (q : ℕ) → 1024 < q → q ≤ 2048 → half_value (k * 1024 + q - 1) + step k ≡ q * step k
  value_before q h l =
      let same : k * 1024 + q - 1 ≡ k * 1024 + (q - 1) = omega arith in
      omega (
        arith,
        ap half_value same,
        half_value-at (q - 1) (omega arith) (omega arith),
        ap (λ (t : ℕ). t * step k) before,
      )
    where
      before : q - 1 + 1 ≡ q
      before = omega arith
