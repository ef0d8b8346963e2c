-- ===== src/MulHigh/Shr.antt =====
-- The 64 by 32 bit product with a shift, without a 128-bit type, and the saturating product.
use linux.Base.{
  ℕ, zero, suc, ◌+◌, ◌-◌, ◌*◌, ◌/◌, ◌%◌, ◌^◌, ◌<◌, ◌≡◌, ap, sym, ◌∙◌, arith, ltb, ◌==◌, min,
  if◌then◌else◌, bit_and, bit_or, true, false, dec_lt,
}
use linux.Base.Digits.{bit_and_mask, bit_or_disjoint}
use linux.Base.Word.{u64}
use linux.MulHigh.{mul_u64_u32_shr_fallback, mul_u64_u32_shr_oracle, size_mul_like}
use native.Mathlib.Nat.{
  div-div-eq-div-mul, div-lt_iff_lt-mul, div-add-mod, mod-eq_of_lt, div-le_self,
}
use linux.Base.Pow.{two_pow_pos, two_pow_add, shr_fields, fields_truncated, shr-lt}
use mathlib.Core.Path.{subst}

-- The saturating product is the true product where it fits in `size_t`, and else `SIZE_MAX`.
pub size_mul_like_lem :
    (a b : ℕ) → a < 2 ^ 64 → b < 2 ^ 64 → size_mul_like a b ≡ min (a * b) (2 ^ 64 - 1)
unfolding size_mul_like
size_mul_like_lem a zero ha hb = ground arith
size_mul_like_lem zero (suc b) ha hb = ground arith
size_mul_like_lem (suc a) (suc b) ha hb =
    let test = div-lt_iff_lt-mul {k = suc b} {x = 2 ^ 64 - 1} {y = suc a} (omega arith) in
    ground (arith, test.0, test.1)

module _ (a b : ℕ) (ha : a < 2 ^ 64) (hb : b < 2 ^ 32) where
  abbrev low : ℕ
  low = a % 2 ^ 32 * b

  abbrev middle : ℕ
  middle = a / 2 ^ 32 * b + low / 2 ^ 32

  low-lt : low < 2 ^ 64
  low-lt = grind arith

  middle-lt : middle < 2 ^ 64
  middle-lt = grind (arith, low-lt)

  -- The two partial products make up the product.
  product_split : a * b ≡ middle * 2 ^ 32 + low % 2 ^ 32
  product_split = omega (arith, ap (λ (t : ℕ). t * b) (div-add-mod a (2 ^ 32)))

  -- The fields that the function computes.
  fields :
      (shift : ℕ)
      → let r = mul_u64_u32_shr_fallback a b shift in
        (r.p0 ≡ low) × (r.p1 ≡ a / 2 ^ 32 * b) × (r.carry ≡ low / 2 ^ 32) × (r.mid ≡ middle)
  unfolding mul_u64_u32_shr_fallback
  fields shift = (
    omega (arith, low-lt),
    omega (arith, middle-lt),
    omega (arith, low-lt),
    omega (arith, low-lt, middle-lt),
  )

  oracle_of_parts :
      (s : ℕ) → mul_u64_u32_shr_oracle a b s ≡ u64 ((middle * 2 ^ 32 + low % 2 ^ 32) / 2 ^ s)
  unfolding mul_u64_u32_shr_oracle
  oracle_of_parts s =
      let small : a * b % 2 ^ 128 ≡ a * b = omega (arith, product_split, middle-lt) in
      rw (small, product_split)

  fallback_short :
      (s k : ℕ)
      → s + k ≡ 32
      → 0 < k
      → (mul_u64_u32_shr_fallback a b s).result
        ≡ bit_or (u64 (middle * 2 ^ k)) (low % 2 ^ 32 / 2 ^ s)
  unfolding mul_u64_u32_shr_fallback
  fallback_short s k e pos =
      let test : ltb s 32 ≡ true = ground arith in
      let rest : 32 - s ≡ k = omega arith in
      let p0 : u64 (a % 2 ^ 32 * b) ≡ low = omega (arith, low-lt) in
      let p1 : u64 (u64 (a / 2 ^ 32 * b) + low / 2 ^ 32) ≡ middle = omega (arith, middle-lt) in
      rw (test, rest, p0, p1, bit_and_mask 32 low)

  short_shift :
      (s k : ℕ)
      → s + k ≡ 32
      → bit_or (u64 (middle * 2 ^ k)) (low % 2 ^ 32 / 2 ^ s)
        ≡ u64 ((middle * 2 ^ 32 + low % 2 ^ 32) / 2 ^ s)
  short_shift s k e =
      let j : ℕ = 64 - k in
      let word : j + k ≡ 64 = omega arith in
      let r : ℕ = low % 2 ^ 32 / 2 ^ s in
      let fits : r < 2 ^ k =
        shr-lt s k (low % 2 ^ 32) (subst (λ n. low % 2 ^ 32 < 2 ^ n) (sym e) (omega arith)) in
      let cut : u64 (middle * 2 ^ k) ≡ middle % 2 ^ j * 2 ^ k =
        omega (arith, whole j k word 0 (two_pow_pos k)) in
      let moved : (middle * 2 ^ 32 + low % 2 ^ 32) / 2 ^ s ≡ middle * 2 ^ k + r =
        subst (λ n. (middle * 2 ^ n + low % 2 ^ 32) / 2 ^ s ≡ middle * 2 ^ k + r) e
          (shr_fields s k middle (low % 2 ^ 32)) in
      ap (λ (t : ℕ). bit_or t r) cut
      ∙ bit_or_disjoint k (middle % 2 ^ j) r fits
      ∙ sym (ap u64 moved ∙ whole j k word r fits)
    where
      whole :
          (j k : ℕ)
          → j + k ≡ 64
          → (r : ℕ) → r < 2 ^ k
          → u64 (middle * 2 ^ k + r) ≡ middle % 2 ^ j * 2 ^ k + r
      whole j k word r h =
          subst (λ n. (middle * 2 ^ k + r) % 2 ^ n ≡ middle % 2 ^ j * 2 ^ k + r) word
            (fields_truncated j k middle r h)

  -- From 32 places on the lower half is shifted out.
  long_shift : (k : ℕ) → middle / 2 ^ k ≡ u64 ((middle * 2 ^ 32 + low % 2 ^ 32) / 2 ^ (32 + k))
  long_shift k = sym (
      ap u64 (
        ap (λ (t : ℕ). (middle * 2 ^ 32 + low % 2 ^ 32) / t) (two_pow_add 32 k)
        ∙ sym (div-div-eq-div-mul (middle * 2 ^ 32 + low % 2 ^ 32) (2 ^ 32) (2 ^ k))
        ∙ ap (λ (t : ℕ). t / 2 ^ k) (omega arith))
      ∙ mod-eq_of_lt small)
    where
      small : middle / 2 ^ k < 2 ^ 64
      small = omega (arith, middle-lt, div-le_self middle (2 ^ k))

  fallback_long : (k : ℕ) → (mul_u64_u32_shr_fallback a b (32 + k)).result ≡ middle / 2 ^ k
  unfolding mul_u64_u32_shr_fallback
  fallback_long k =
      let p0 : u64 (a % 2 ^ 32 * b) ≡ low = omega (arith, low-lt) in
      let p1 : u64 (u64 (a / 2 ^ 32 * b) + low / 2 ^ 32) ≡ middle = omega (arith, middle-lt) in
      rw (p0, p1) (tail k)
    where
      tail :
          (k : ℕ)
          → (if ltb (32 + k) 32
              then bit_or
                  (u64 (middle * 2 ^ (32 - (32 + k))))
                  (bit_and low 0xffffffff / 2 ^ (32 + k))
              else if 32 + k == 32
              then middle
              else middle / 2 ^ (32 + k - 32))
            ≡ middle / 2 ^ k
      tail zero = omega arith
      tail (suc k) =
          let not_short : ltb (32 + suc k) 32 ≡ false = ground arith in
          let not_32 : (32 + suc k == 32) ≡ false = ground arith in
          let rest : 32 + suc k - 32 ≡ suc k = omega arith in rw (not_short, not_32, rest)

-- For every 64-bit `a`, 32-bit `b` and shift below 96, past which C leaves the fallback's own shift
-- undefined, the fallback returns the low 64 bits of the full product shifted right, and what it
-- stores through its pointers are the partial products and their sum, with nothing cut off.
pub mul_u64_u32_shr_lem :
    (a b shift : ℕ)
    → a < 2 ^ 64
    → b < 2 ^ 32
    → shift < 96
    → ((mul_u64_u32_shr_fallback a b shift).result ≡ mul_u64_u32_shr_oracle a b shift)
      × ((mul_u64_u32_shr_fallback a b shift).p0 ≡ a % 2 ^ 32 * b)
      × ((mul_u64_u32_shr_fallback a b shift).p1 ≡ a / 2 ^ 32 * b)
      × ((mul_u64_u32_shr_fallback a b shift).mid ≡ a * b / 2 ^ 32)
mul_u64_u32_shr_lem a b shift ha hb hs = (
  elim (dec_lt shift 32) [
    | yes short ↦
        fallback_short a b ha hb shift (32 - shift) (omega arith) (omega arith)
        ∙ short_shift a b ha hb shift (32 - shift) (omega arith)
        ∙ sym (oracle_of_parts a b ha hb shift)
    | no long ↦
        let e : shift ≡ 32 + (shift - 32) = omega arith in
        subst (λ n. (mul_u64_u32_shr_fallback a b n).result ≡ mul_u64_u32_shr_oracle a b n) (sym e)
          (fallback_long a b ha hb (shift - 32)
            ∙ long_shift a b ha hb (shift - 32)
            ∙ sym (oracle_of_parts a b ha hb (32 + (shift - 32))))
  ],
  parts.0,
  parts.1,
  omega (arith, parts.3, product_split a b ha hb),
)
  where
    parts :
        let r = mul_u64_u32_shr_fallback a b shift in
        (r.p0 ≡ a % 2 ^ 32 * b)
        × (r.p1 ≡ a / 2 ^ 32 * b)
        × (r.carry ≡ a % 2 ^ 32 * b / 2 ^ 32)
        × (r.mid ≡ a / 2 ^ 32 * b + a % 2 ^ 32 * b / 2 ^ 32)
    parts = fields a b ha hb shift
