-- ===== src/MulHigh/High.antt =====
-- The high half of an unsigned product from that of the signed product.
use linux.Base.{
  ℕ, zero, suc, ◌+◌, ◌-◌, ◌*◌, ◌/◌, ◌%◌, ◌^◌, ◌≤◌, ◌<◌, ◌≡◌, ◌⊎◌, inl, inr, refl, ap, ◌∙◌, arith,
  bit_and, ltb, if◌then◌else◌, true, false,
}
use linux.Base.Digits.{bit_and_mask, bit_and_comm, zero-bit_and}
use linux.Base.Int.{ℤ, pos, negsuc, ◌*ℤ◌}
use linux.Base.Word.{u32, u64, to_u32, to_i32}
use linux.MulHigh.{asr, unsigned_high_prod32_formula, unsigned_high_prod32_oracle}

-- The negative of a number.
abbrev pub neg_of : ℕ → ℤ
neg_of zero = pos 0
neg_of (suc n) = negsuc n

pub pos-pos : (a b : ℕ) → pos a *ℤ pos b ≡ pos (a * b)
unfolding ◌*ℤ◌
pos-pos a b = ground arith

pub negsuc-pos : (a b : ℕ) → negsuc a *ℤ pos b ≡ neg_of (suc a * b)
unfolding ◌*ℤ◌
negsuc-pos a zero = ground arith
negsuc-pos a (suc b) = ground arith

pub pos-negsuc : (a b : ℕ) → pos a *ℤ negsuc b ≡ neg_of (a * suc b)
unfolding ◌*ℤ◌
pos-negsuc a b = ground arith

pub negsuc-negsuc : (a b : ℕ) → negsuc a *ℤ negsuc b ≡ pos (suc a * suc b)
unfolding ◌*ℤ◌
negsuc-negsuc a b = ground arith

signed32 :
    (x : ℕ)
    → x < 2 ^ 32
    → ((x < 2 ^ 31) × (to_i32 x ≡ pos x)) ⊎ ((2 ^ 31 ≤ x) × (to_i32 x ≡ negsuc (2 ^ 32 - 1 - x)))
signed32 x h = ground arith

-- Casting to `int32_t` and back keeps the pattern.
to_u32-to_i32 : (w : ℕ) → w < 2 ^ 32 → to_u32 (to_i32 w) ≡ w
to_u32-to_i32 w h = ground arith

to_u32-lt : (z : ℤ) → to_u32 z < 2 ^ 32
to_u32-lt (pos n) = omega arith
to_u32-lt (negsuc n) = omega arith

ones-bit_and32 : (y : ℕ) → y < 2 ^ 32 → bit_and (2 ^ 32 - 1) y ≡ y
ones-bit_and32 y h = bit_and_comm (2 ^ 32 - 1) y ∙ bit_and_mask 32 y ∙ omega arith

sign_mask32 :
    (x y : ℕ)
    → x < 2 ^ 32
    → y < 2 ^ 32
    → bit_and (to_u32 (asr (to_i32 x) 31)) y ≡ (if ltb x (2 ^ 31) then 0 else y)
sign_mask32 x y hx hy = elim (signed32 x hx) [
  | inl (small, e) ↦
      let zero_mask : x / 2 ^ 31 ≡ 0 = omega arith in
      let test : ltb x (2 ^ 31) ≡ true = ground arith in rw (e, zero_mask, test) (zero-bit_and y)
  | inr (large, e) ↦
      let zero_rest : (2 ^ 32 - 1 - x) / 2 ^ 31 ≡ 0 = omega arith in
      let test : ltb x (2 ^ 31) ≡ false = ground arith in
      rw (e, zero_rest, test) (ones-bit_and32 y hy)
]

high_of_neg32 :
    (q : ℕ) → to_u32 (asr (neg_of q) 32) ≡ (2 ^ 32 - (q + (2 ^ 32 - 1)) / 2 ^ 32 % 2 ^ 32) % 2 ^ 32
high_of_neg32 zero = refl
high_of_neg32 (suc q) = omega arith

formula_parts32 :
    (x y : ℕ)
    → x < 2 ^ 32
    → y < 2 ^ 32
    → unsigned_high_prod32_formula x y
      ≡ u32 (
          u32 (to_u32 (asr (to_i32 x *ℤ to_i32 y) 32) + (if ltb x (2 ^ 31) then 0 else y))
          + (if ltb y (2 ^ 31) then 0 else x))
unfolding unsigned_high_prod32_formula
formula_parts32 x y hx hy = rw (
  to_u32-to_i32 (to_u32 (asr (to_i32 x *ℤ to_i32 y) 32)) (to_u32-lt _),
  sign_mask32 x y hx hy,
  sign_mask32 y x hy hx,
)

pub negated_times : (w x y : ℕ) → x ≤ w → (w - x) * y + x * y ≡ w * y
negated_times w x y h = grind arith

pub both_negated : (w m n x y : ℕ) → m + x ≡ w → n + y ≡ w → m * n + w * (x + y) ≡ w * w + x * y
both_negated w m n x y p q =
    omega (arith, ap (λ (t : ℕ). t * n) p, ap (λ (t : ℕ). t * x) q, ap (λ (t : ℕ). w * t) q)

-- The formula with signed multiplication computes the high 32 bits of the unsigned product.
pub unsigned_high_prod32_lem :
    (x y : ℕ)
    → x < 2 ^ 32
    → y < 2 ^ 32
    → unsigned_high_prod32_formula x y ≡ unsigned_high_prod32_oracle x y
unfolding unsigned_high_prod32_oracle
unsigned_high_prod32_lem x y hx hy =
    rw (formula_parts32 x y hx hy) (cases (signed32 x hx) (signed32 y hy))
  where
    cases :
        ((x < 2 ^ 31) × (to_i32 x ≡ pos x)) ⊎ ((2 ^ 31 ≤ x) × (to_i32 x ≡ negsuc (2 ^ 32 - 1 - x)))
        → ((y < 2 ^ 31) × (to_i32 y ≡ pos y))
          ⊎ ((2 ^ 31 ≤ y) × (to_i32 y ≡ negsuc (2 ^ 32 - 1 - y)))
        → u32 (
            u32 (to_u32 (asr (to_i32 x *ℤ to_i32 y) 32) + (if ltb x (2 ^ 31) then 0 else y))
            + (if ltb y (2 ^ 31) then 0 else x))
          ≡ u32 (u64 (x * y) / 2 ^ 32)
    cases (inl (a, e)) (inl (b, f)) = rw (e, f, pos-pos x y) (ground arith)
    cases (inr (a, e)) (inl (b, f)) =
        rw (e, f, negsuc-pos _ y, high_of_neg32) (ground (arith, negated_times (2 ^ 32) x y))
    cases (inl (a, e)) (inr (b, f)) =
        rw (e, f, pos-negsuc x _, high_of_neg32) (ground (arith, negated_times (2 ^ 32) y x))
    cases (inr (a, e)) (inr (b, f)) =
        rw (e, f, negsuc-negsuc _ _)
          (ground (
            arith,
            both_negated (2 ^ 32) (suc (2 ^ 32 - 1 - x)) (suc (2 ^ 32 - 1 - y)) x y (omega arith)
                (omega arith),
          ))
