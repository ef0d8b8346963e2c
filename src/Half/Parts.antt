-- ===== src/Half/Parts.antt =====
-- The three conversions by the fields of the float: its sign, its exponent and its fraction.
use linux.Base.{
  ℕ, ◌+◌, ◌-◌, ◌*◌, ◌%◌, ◌^◌, ◌≤◌, ◌<◌, ◌≡◌, refl, ap, sym, ◌∙◌, arith, leb, ◌==◌, if◌then◌else◌,
  bit_and, bit_or, min,
}
use linux.Base.Int.{pos_part, ℤ, pos, negsuc, ◌+ℤ◌, ◌-ℤ◌}
use linux.Base.Digits.{bit_and_mask}
use linux.Base.Word.{u16, u32, to_u32}
use linux.Float.{round_shift_right_even_u64}
use linux.Half.{pack_f16, normal_ref, round_ref, joined_full, normal_full, round_full}
use linux.Half.Rounding.{round-le_1024, join_sign, join_exponent}

-- The 15 bits below the sign for a finite float.
unfoldable pub half_bits : (exp frac : ℕ) → ℕ
half_bits exp frac =
    if exp == 0
    then 0
    else if leb exp 112
    then round_shift_right_even_u64 (2 ^ 23 + frac) (126 - exp)
    else min 0x7c00 ((exp - 113) * 1024 + round_shift_right_even_u64 (2 ^ 23 + frac) 13)

-- The reference and the full conversion round alike.
pub pack-infinity :
    (sign : ℕ) → sign < 2 → pack_f16 sign (pos 0x1f) 0 ≡ u16 (bit_or (u32 (sign * 2 ^ 15)) 0x7c00)
unfolding pack_f16
pack-infinity sign h =
    join_exponent sign 31 0 h (omega arith) (omega arith)
    ∙ sym (join_sign sign 0x7c00 h (omega arith))

pub pack-least_normal :
    (sign : ℕ) → sign < 2 → pack_f16 sign (pos 1) 0 ≡ u16 (bit_or (u32 (sign * 2 ^ 15)) 0x400)
unfolding pack_f16
pack-least_normal sign h =
    join_exponent sign 1 0 h (omega arith) (omega arith)
    ∙ sym (join_sign sign 0x400 h (omega arith))

pack-joined_full :
    (sign : ℕ) (exp : ℤ) (r : ℕ) → pack_f16 sign exp (bit_and r 0x3ff) ≡ joined_full sign exp r
unfolding pack_f16 joined_full
pack-joined_full sign exp r = ap (λ (t : ℕ). u16 (bit_or upper t)) (masked_twice r)
  where
    upper : ℕ
    upper = bit_or (u32 (sign * 2 ^ 15)) (u32 (to_u32 exp * 2 ^ 10))

    masked_twice : (r : ℕ) → bit_and (bit_and r 0x3ff) 0x3ff ≡ bit_and r 0x3ff
    masked_twice r = omega (arith, bit_and_mask 10 r, bit_and_mask 10 (bit_and r 0x3ff))

pub round_ref-round_full :
    (sign sig : ℕ) (e : ℤ) → sign < 2 → round_ref sign sig e ≡ round_full sign sig e
unfolding round_ref round_full normal_ref normal_full
round_ref-round_full sign sig e h =
    rw
      (
        pack-infinity sign h,
        pack-least_normal sign h,
        pack-joined_full sign (e +ℤ pos 15) (round_shift_right_even_u64 sig 13),
        pack-joined_full sign (e +ℤ pos 15 +ℤ pos 1) 0x400,
      )
      refl

-- The exponent of a result in the subnormal range.
small_exponent :
    (s : ℕ)
    → 14 ≤ s
    → (pos_part (negsuc s +ℤ pos 15) ≡ 0) × (pos 14 -ℤ (negsuc s +ℤ pos 15) ≡ pos s)
unfolding ◌+ℤ◌ ◌-ℤ◌
small_exponent s h = ground arith

-- A result in the subnormal range, or the first number above it.
pub round_full-small :
    (sign sig s : ℕ)
    → sign < 2
    → sig < 2 ^ 24
    → 14 ≤ s
    → s < 2 ^ 32
    → round_full sign sig (negsuc s) ≡ sign * 2 ^ 15 + round_shift_right_even_u64 sig s
unfolding round_full
round_full-small sign sig s h k l m =
    let (low, shift) = small_exponent s l in
    let places : s % 2 ^ 32 ≡ s = omega arith in
    let small = round-le_1024 sig s k l in
    rw (shift, places)
      (ground (
        arith,
        low,
        small,
        join_sign sign 0x400 h (omega arith),
        join_sign sign (round_shift_right_even_u64 sig s) h (omega arith),
      ))

joined_full_lem :
    (sign n r : ℕ)
    → sign < 2
    → n < 32
    → joined_full sign (pos n) r ≡ sign * 2 ^ 15 + (n * 1024 + r % 1024)
unfolding joined_full
joined_full_lem sign n r h k =
    rw (bit_and_mask 10 r) (join_exponent sign n (r % 1024) h k (omega arith))

next_exponent : (n : ℕ) → pos n +ℤ pos 1 ≡ pos (n + 1)
unfolding ◌+ℤ◌
next_exponent n = ground arith

-- The exponent `n` of a result in the normal range, and the significand rounded to 11 or 12 bits.
pub normal_full_lem :
    (sign n r : ℕ)
    → sign < 2
    → 0 < n
    → n < 31
    → 1024 ≤ r
    → r ≤ 2048
    → normal_full sign (pos n) r ≡ sign * 2 ^ 15 + ((n - 1) * 1024 + r)
unfolding normal_full
normal_full_lem sign n r h p k l m = rw (next_exponent n) (
    ground (
      arith,
      joined_full_lem sign (n + 1) 0x400 h (omega arith),
      joined_full_lem sign n r h (omega arith),
      join_sign sign 0x7c00 h (omega arith),
    ))
