-- ===== src/Half/Rounding.antt =====
-- The rounding shift of a significand of 24 bits, and how a sign, an exponent and a fraction are
-- joined into 16 bits.
use linux.Base.{
  dec_lt, ℕ, zero, suc, ◌+◌, ◌-◌, ◌*◌, ◌/◌, ◌%◌, ◌^◌, ◌≤◌, ◌<◌, ◌≡◌, ◌∙◌, arith, bit_and, bit_or,
}
use linux.Base.Digits.{bit_and_mask, bit_or_disjoint}
use linux.Base.Pow.{two_pow_pos}
use linux.Base.Word.{u16, u32, u64}
use native.Mathlib.Nat.{
  pow-suc, pow-le-pow_right, mod-eq_of_lt, div-eq_of_lt, div-lt_iff_lt-mul, mul-div_cancel,
  mul-mod_left,
}
use linux.Float.{round_shift_right_even_u64}
use linux.Float.Round.{rounded, shift-rounded, round_shift-IsNearestEven}

-- A significand of a normal float keeps 11 bits, or carries into the next power of 2.
pub round_13_bounds :
    (frac : ℕ)
    → frac < 2 ^ 23
    → (1024 ≤ round_shift_right_even_u64 (2 ^ 23 + frac) 13)
      × (round_shift_right_even_u64 (2 ^ 23 + frac) 13 ≤ 2048)
round_13_bounds frac h =
    let n = round_shift-IsNearestEven (2 ^ 23 + frac) 12 (omega arith) (omega arith) in
    (omega (arith, n.not_low), omega (arith, n.not_high))

rounded-le : (h q t : ℕ) → rounded h q t ≤ q + 1
unfolding rounded
rounded-le h q t = ground arith

pub quotient-lt : (value s : ℕ) → value < 2 ^ 24 → 14 ≤ s → value / 2 ^ s < 2 ^ 10
quotient-lt value s h l =
    (div-lt_iff_lt-mul (two_pow_pos s)).1 (omega (arith, pow-le-pow_right {n = 2} (omega arith) l))

-- Past the significand nothing is left, and no half to round up.
pub round_far : (value s : ℕ) → value < 2 ^ 24 → 25 ≤ s → round_shift_right_even_u64 value s ≡ 0
unfolding round_shift_right_even_u64
round_far value s h l = elim (dec_lt s 64) [
  | no far ↦ ground arith
  | yes near ↦
      let place : u64 (1 * 2 ^ s) ≡ 2 ^ s =
        omega (arith, pow-le-pow_right {n = 2} (omega arith) near, pow-suc 2 s) in
      let below : u64 (1 * 2 ^ (s - 1)) ≡ 2 ^ (s - 1) =
        omega (arith, pow-le-pow_right {n = 2} (omega arith) {i = s - 1} {j = 63} (omega arith)) in
      let half : 2 ^ 24 ≤ 2 ^ (s - 1) = pow-le-pow_right (omega arith) {i = 24} (omega arith) in
      let whole : 2 ^ 25 ≤ 2 ^ s = pow-le-pow_right (omega arith) l in
      let small : value < 2 ^ s = omega arith in
      let lower : bit_and value (2 ^ s - 1) ≡ value = bit_and_mask s value ∙ mod-eq_of_lt small in
      let upper : value / 2 ^ s ≡ 0 = div-eq_of_lt small in
      rw (place, below, lower, upper) (ground arith)
]

pub round-le_1024 :
    (value s : ℕ) → value < 2 ^ 24 → 14 ≤ s → round_shift_right_even_u64 value s ≤ 1024
round-le_1024 value zero h l = absurd (omega arith)
round-le_1024 value (suc s) h l = elim (dec_lt s 31) [
  | no far ↦ rw (round_far value (suc s) h (omega arith)) (omega arith)
  | yes near ↦ rw (shift-rounded value s (omega arith) near) (
      omega (
        arith,
        rounded-le (2 ^ s) (value / 2 ^ suc s) (value % 2 ^ suc s),
        quotient-lt value (suc s) h l,
      ))
]

-- A shift that loses no bit rounds nothing.
pub round_exact :
    (value s : ℕ)
    → value * 2 ^ suc s < 2 ^ 32
    → s < 31
    → round_shift_right_even_u64 (value * 2 ^ suc s) (suc s) ≡ value
unfolding rounded
round_exact value s h l =
    rw
      (
        shift-rounded (value * 2 ^ suc s) s h l,
        mul-div_cancel value (two_pow_pos (suc s)),
        mul-mod_left value (2 ^ suc s),
      )
      (ground (arith, two_pow_pos s))

pub join_sign :
    (sign r : ℕ) → sign < 2 → r < 2 ^ 15 → u16 (bit_or (u32 (sign * 2 ^ 15)) r) ≡ sign * 2 ^ 15 + r
join_sign sign r h l =
    let whole : u32 (sign * 2 ^ 15) ≡ sign * 2 ^ 15 = omega arith in
    rw (whole, bit_or_disjoint 15 sign r l) (omega arith)

pub join_exponent :
    (sign n r : ℕ)
    → sign < 2
    → n < 32
    → r < 2 ^ 10
    → u16 (bit_or (bit_or (u32 (sign * 2 ^ 15)) (u32 (n % 2 ^ 32 * 2 ^ 10))) r)
      ≡ sign * 2 ^ 15 + (n * 2 ^ 10 + r)
join_exponent sign n r h k l =
    let whole : u32 (sign * 2 ^ 15) ≡ sign * 2 ^ 15 = omega arith in
    let field : u32 (n % 2 ^ 32 * 2 ^ 10) ≡ n * 2 ^ 10 = omega arith in
    let upper : bit_or (sign * 2 ^ 15) (n * 2 ^ 10) ≡ (sign * 32 + n) * 2 ^ 10 =
      bit_or_disjoint 15 sign (n * 2 ^ 10) (omega arith) ∙ omega arith in
    rw (whole, field, upper, bit_or_disjoint 10 (sign * 32 + n) r l) (omega arith)
