-- ===== src/MulHigh/High64.antt =====
-- The high half of a 64-bit unsigned product from that of the signed product.
use linux.Base.{
  ℕ, zero, suc, ◌+◌, ◌-◌, ◌*◌, ◌/◌, ◌%◌, ◌^◌, ◌≤◌, ◌<◌, ◌≡◌, ◌⊎◌, inl, inr, refl, ◌∙◌, arith,
  bit_and, ltb, if◌then◌else◌, true, false,
}
use linux.Base.Digits.{bit_and_mask, bit_and_comm, zero-bit_and}
use linux.Base.Int.{ℤ, pos, negsuc, ◌*ℤ◌}
use linux.Base.Word.{u64, to_u64, to_i64}
use linux.MulHigh.{asr, unsigned_high_prod_formula, unsigned_high_prod_oracle}
use linux.MulHigh.High.{
  neg_of, pos-pos, negsuc-pos, pos-negsuc, negsuc-negsuc, negated_times, both_negated,
}

signed64 :
    (x : ℕ)
    → x < 2 ^ 64
    → ((x < 2 ^ 63) × (to_i64 x ≡ pos x)) ⊎ ((2 ^ 63 ≤ x) × (to_i64 x ≡ negsuc (2 ^ 64 - 1 - x)))
signed64 x h = ground arith

to_u64-to_i64 : (w : ℕ) → w < 2 ^ 64 → to_u64 (to_i64 w) ≡ w
to_u64-to_i64 w h = ground arith

to_u64-lt : (z : ℤ) → to_u64 z < 2 ^ 64
to_u64-lt (pos n) = omega arith
to_u64-lt (negsuc n) = omega arith

-- The mask is all ones or zero by the top bit.
sign_mask64 :
    (x y : ℕ)
    → x < 2 ^ 64
    → y < 2 ^ 64
    → bit_and (u64 (2 ^ 64 - bit_and (x / 2 ^ 63) 1)) y ≡ (if ltb x (2 ^ 63) then 0 else y)
sign_mask64 x y hx hy = elim (signed64 x hx) [
  | inl (small, e) ↦
      let no_sign : u64 (2 ^ 64 - bit_and (x / 2 ^ 63) 1) ≡ 0 =
        omega (arith, bit_and_mask 1 (x / 2 ^ 63)) in
      let test : ltb x (2 ^ 63) ≡ true = ground arith in rw (no_sign, test) (zero-bit_and y)
  | inr (large, e) ↦
      let all_ones : u64 (2 ^ 64 - bit_and (x / 2 ^ 63) 1) ≡ 2 ^ 64 - 1 =
        omega (arith, bit_and_mask 1 (x / 2 ^ 63)) in
      let test : ltb x (2 ^ 63) ≡ false = ground arith in
      rw (all_ones, test) (bit_and_comm (2 ^ 64 - 1) y ∙ bit_and_mask 64 y ∙ omega arith)
]

high_of_neg64 :
    (q : ℕ) → to_u64 (asr (neg_of q) 64) ≡ (2 ^ 64 - (q + (2 ^ 64 - 1)) / 2 ^ 64 % 2 ^ 64) % 2 ^ 64
high_of_neg64 zero = refl
high_of_neg64 (suc q) = omega arith

formula_parts64 :
    (x y : ℕ)
    → x < 2 ^ 64
    → y < 2 ^ 64
    → unsigned_high_prod_formula x y
      ≡ u64 (
          to_u64 (asr (to_i64 x *ℤ to_i64 y) 64)
          + u64 ((if ltb x (2 ^ 63) then 0 else y) + (if ltb y (2 ^ 63) then 0 else x)))
unfolding unsigned_high_prod_formula
formula_parts64 x y hx hy = rw (
  to_u64-to_i64 (to_u64 (asr (to_i64 x *ℤ to_i64 y) 64)) (to_u64-lt _),
  sign_mask64 x y hx hy,
  sign_mask64 y x hy hx,
)

-- The formula with a signed 128-bit product computes the high 64 bits of the unsigned product.
pub unsigned_high_prod_lem :
    (x y : ℕ)
    → x < 2 ^ 64
    → y < 2 ^ 64
    → unsigned_high_prod_formula x y ≡ unsigned_high_prod_oracle x y
unfolding unsigned_high_prod_oracle
unsigned_high_prod_lem x y hx hy =
    rw (formula_parts64 x y hx hy) (cases (signed64 x hx) (signed64 y hy))
  where
    cases :
        ((x < 2 ^ 63) × (to_i64 x ≡ pos x)) ⊎ ((2 ^ 63 ≤ x) × (to_i64 x ≡ negsuc (2 ^ 64 - 1 - x)))
        → ((y < 2 ^ 63) × (to_i64 y ≡ pos y))
          ⊎ ((2 ^ 63 ≤ y) × (to_i64 y ≡ negsuc (2 ^ 64 - 1 - y)))
        → u64 (
            to_u64 (asr (to_i64 x *ℤ to_i64 y) 64)
            + u64 ((if ltb x (2 ^ 63) then 0 else y) + (if ltb y (2 ^ 63) then 0 else x)))
          ≡ u64 (x * y % 2 ^ 128 / 2 ^ 64)
    cases (inl (a, e)) (inl (b, f)) = rw (e, f, pos-pos x y) (ground arith)
    cases (inr (a, e)) (inl (b, f)) =
        rw (e, f, negsuc-pos _ y, high_of_neg64) (ground (arith, negated_times (2 ^ 64) x y))
    cases (inl (a, e)) (inr (b, f)) =
        rw (e, f, pos-negsuc x _, high_of_neg64) (ground (arith, negated_times (2 ^ 64) y x))
    cases (inr (a, e)) (inr (b, f)) =
        rw (e, f, negsuc-negsuc _ _)
          (ground (
            arith,
            both_negated (2 ^ 64) (suc (2 ^ 64 - 1 - x)) (suc (2 ^ 64 - 1 - y)) x y (omega arith)
                (omega arith),
          ))
