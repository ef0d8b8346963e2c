-- ===== src/Fields/Ranges.antt =====
-- The mask of a range of bits.
use linux.Base.{
  true, false, ℕ, suc, ◌+◌, ◌-◌, ◌*◌, ◌%◌, ◌^◌, ◌≤◌, ◌<◌, ◌≡◌, refl, ap, sym, ◌∙◌, bit_and, arith,
  ltb, leb, dec_lt,
}
use native.Mathlib.Nat.{mod-eq_of_lt, add-mul-mod_self_left, pow-le-pow_right}
use linux.Base.Pow.{two_pow_pos, two_pow_add}
use linux.Base.Word.{u32}
use linux.Base.Digits.{bit_and_mask, bit_and_comm}
use linux.Fields.{genmask_u32, not32}
use linux.Fields.Replace.{less_one}

-- The bits from `lo` on, cut off at `hi`; `rest` are the bits above.
range_mask :
    (hi lo rest : ℕ)
    → lo ≤ hi
    → hi + 1 + rest ≡ 32
    → bit_and (2 ^ (hi + 1) - 1) (not32 (2 ^ lo - 1)) ≡ 2 ^ (hi + 1) - 2 ^ lo
range_mask hi lo rest h e =
    bit_and_comm (2 ^ (hi + 1) - 1) (not32 (2 ^ lo - 1))
    ∙ bit_and_mask (hi + 1) (not32 (2 ^ lo - 1))
    ∙ ap (λ (t : ℕ). t % 2 ^ (hi + 1)) above
    ∙ add-mul-mod_self_left (2 ^ (hi + 1) - 2 ^ lo) (2 ^ (hi + 1)) (2 ^ rest - 1)
    ∙ mod-eq_of_lt (omega (arith, two_pow_pos lo, two_pow_pos (hi + 1)))
  where
    smaller : 2 ^ lo ≤ 2 ^ (hi + 1)
    smaller = pow-le-pow_right {n = 2} (omega arith) (omega arith)

    whole : 2 ^ (hi + 1) * 2 ^ rest ≡ 2 ^ 32
    whole = sym (two_pow_add (hi + 1) rest) ∙ ap (λ (t : ℕ). 2 ^ t) e

    above : not32 (2 ^ lo - 1) ≡ 2 ^ (hi + 1) - 2 ^ lo + 2 ^ (hi + 1) * (2 ^ rest - 1)
    above = omega (
      arith,
      less_one (2 ^ rest) (2 ^ (hi + 1)) (two_pow_pos rest),
      whole,
      smaller,
      two_pow_pos lo,
    )

-- For bits `lo` to `hi` of a word, the mask has exactly those bits: it is 2^(hi + 1) - 2^lo.
pub genmask_u32_lem : (hi lo : ℕ) → lo ≤ hi → hi < 32 → genmask_u32 hi lo ≡ 2 ^ (hi + 1) - 2 ^ lo
unfolding genmask_u32
genmask_u32_lem hi lo h l =
    let some_bits : ltb hi lo ≡ false = ground arith in
    rw (some_bits, one_bit lo (omega arith))
      (elim (dec_lt hi 31) [
        | yes below ↦
            let not_last : leb 31 hi ≡ false = ground arith in
            rw (not_last, one_bit (hi + 1) (omega arith))
              (range_mask hi lo (31 - hi) h (omega arith))
        | no above ↦
            let last : leb 31 hi ≡ true = ground arith in
            let top : hi ≡ 31 = omega arith in
            rw (last, top) (range_mask 31 lo 0 (omega arith) refl)
      ])
  where
    one_bit : (n : ℕ) → n < 32 → u32 (1 * 2 ^ n) ≡ 2 ^ n
    one_bit n k = omega (arith, pow-le-pow_right {n = 2} (omega arith) {i = suc n} {j = 32} k)
