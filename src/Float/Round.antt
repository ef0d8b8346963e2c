-- ===== src/Float/Round.antt =====
-- What rounding to nearest even means, and that the shift rounds so.
use linux.Base.{
  ℕ, suc, ◌+◌, ◌-◌, ◌*◌, ◌/◌, ◌%◌, ◌^◌, ◌≤◌, ◌<◌, ◌≡◌, ap, sym, ◌∙◌, arith, ltb, ◌==◌, ◌&&◌, ◌||◌,
  not, if◌then◌else◌, dec_lt, ℕ_discrete,
}
use linux.Base.Digits.{bit_and_mask}
use linux.Base.Pow.{two_pow_pos, shr_suc}
use linux.Base.Word.{u64}
use native.Mathlib.Nat.{pow-suc, div-add-mod, mod-lt, div-le_self, pow-le-pow_right}
use linux.Float.{round_shift_right_even_u64}

-- `r` is the number nearest to `value / d`, and the even one where two are as near.
pub record IsNearestEven (d value r : ℕ) : Type 0 where
  pub not_low : 2 * value ≤ (2 * r + 1) * d
  pub not_high : 2 * r * d ≤ 2 * value + d
  pub tie_below : 2 * value ≡ (2 * r + 1) * d → r % 2 ≡ 0
  pub tie_above : 2 * r * d ≡ 2 * value + d → r % 2 ≡ 0

nearest_down : (h q t : ℕ) → t ≤ h → (t ≡ h → q % 2 ≡ 0) → IsNearestEven (2 * h) (2 * h * q + t) q
nearest_down h q t p even = record {
  not_low = omega (arith, product);
  not_high = omega (arith, product);
  tie_below = λ e. even (omega (arith, product));
  tie_above = λ e. even (omega (arith, product));
}
  where
    product : 2 * q * (2 * h) ≡ 2 * (2 * h * q)
    product = grind arith

nearest_up :
    (h q t : ℕ)
    → h ≤ t
    → t < 2 * h
    → (t ≡ h → (q + 1) % 2 ≡ 0)
    → IsNearestEven (2 * h) (2 * h * q + t) (q + 1)
nearest_up h q t p l even = record {
  not_low = omega (arith, product);
  not_high = omega (arith, product);
  tie_below = λ e. even (omega (arith, product));
  tie_above = λ e. even (omega (arith, product));
}
  where
    product : 2 * (q + 1) * (2 * h) ≡ 2 * (2 * h * q) + 2 * (2 * h)
    product = grind arith

-- What the code chooses between, for the quotient `q`, the remainder `t` and half of the divisor.
unfoldable pub rounded : (h q t : ℕ) → ℕ
rounded h q t = if ltb h t || (t == h && not (q % 2 == 0)) then q + 1 else q

rounded_lem : (h q t : ℕ) → t < 2 * h → IsNearestEven (2 * h) (2 * h * q + t) (rounded h q t)
unfolding rounded
rounded_lem h q t l = elim (dec_lt h t) [
  | yes p ↦
      let up : rounded h q t ≡ q + 1 = ground arith in
      rw up (nearest_up h q t (omega arith) l λ e. absurd (omega arith))
  | no p ↦ elim (ℕ_discrete t h) [
    | yes e ↦ elim (ℕ_discrete (q % 2) 0) [
      | yes z ↦
          let down : rounded h q t ≡ q = ground arith in
          rw down (nearest_down h q t (omega arith) λ _. z)
      | no z ↦
          let up : rounded h q t ≡ q + 1 = ground arith in
          rw up (nearest_up h q t (omega arith) l λ _. omega arith)
    ]
    | no e ↦
        let down : rounded h q t ≡ q = ground arith in
        rw down (nearest_down h q t (omega arith) λ e'. absurd (e e'))
  ]
]

rounded-IsNearestEven :
    (d h value : ℕ) → d ≡ 2 * h → 0 < d → IsNearestEven d value (rounded h (value / d) (value % d))
rounded-IsNearestEven d h value e p =
    let step = rounded_lem h (value / d) (value % d) (omega (arith, mod-lt value p)) in
    let whole : 2 * h * (value / d) + value % d ≡ value =
      ap (λ (t : ℕ). t * (value / d) + value % d) (sym e) ∙ div-add-mod value d in
    rewrite_both step whole
  where
    rewrite_both : {r v w : ℕ} → IsNearestEven (2 * h) v r → v ≡ w → IsNearestEven d w r
    rewrite_both n f = rw (e, sym f) n

-- The code with the mask already read as a remainder, for a shift of at least 1.
pub shift-rounded :
    (value s : ℕ)
    → value < 2 ^ 32
    → s < 31
    → round_shift_right_even_u64 value (suc s)
      ≡ rounded (2 ^ s) (value / 2 ^ suc s) (value % 2 ^ suc s)
unfolding round_shift_right_even_u64 rounded
shift-rounded value s h k =
    rw
      (
        predecessor,
        one_bit (suc s) (omega arith),
        one_bit s (omega arith),
        bit_and_mask (suc s) value,
        bit_and_mask 1 (value / 2 ^ suc s),
      )
      (ground (arith, quotient_small))
  where
    predecessor : suc s - 1 ≡ s
    predecessor = omega arith

    one_bit : (n : ℕ) → n < 33 → u64 (1 * 2 ^ n) ≡ 2 ^ n
    one_bit n l = omega (arith, pow-le-pow_right {n = 2} (omega arith) l)

    quotient_small : value / 2 ^ suc s ≤ value / 2
    quotient_small = omega (arith, shr_suc s value, div-le_self (value / 2) (2 ^ s))

-- Where the result fits in 32 bits, the shift divides by `2^shift` and rounds to nearest even.
pub round_shift-IsNearestEven :
    (value s : ℕ)
    → value < 2 ^ 32
    → s < 31
    → IsNearestEven (2 ^ suc s) value (round_shift_right_even_u64 value (suc s))
round_shift-IsNearestEven value s h k = rw (shift-rounded value s h k) (
    rounded-IsNearestEven (2 ^ suc s) (2 ^ s) value (omega (arith, pow-suc 2 s))
      (two_pow_pos (suc s)))
