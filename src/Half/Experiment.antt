-- ===== src/Half/Experiment.antt =====
-- The conversions of linux2026-quiz6-labs/linux2026-quiz6-lab/src/fp16_lab.c: its reference, which
-- takes the subnormal floats for 0 and forgets the payload of a NaN, and the student's experiment.
-- The file's rounding shift, packing and widening have the text of those in Half.
use linux.Base.{
  ℕ, ◌+◌, ◌*◌, ◌/◌, ◌^◌, ◌<◌, ◌≡◌, ◌≢◌, refl, ap, arith, leb, ◌==◌, ◌&&◌, if◌then◌else◌, bit_and,
  bit_or, false, ℕ_discrete,
}
use linux.Base.Digits.{bit_and_mask}
use linux.Base.Int.{ℤ, pos, ◌+ℤ◌, ◌-ℤ◌, ltb_ℤ, leb_ℤ}
use linux.Base.Run.{Run, ok, undefined, out_of_fuel, ◌>>=◌}
use linux.Base.Word.{u16, u32, u64, to_u32, ◌<<<◌, ◌>>>◌}
use native.Mathlib.Nat.{mod-eq_of_lt}
use linux.Float.{round_shift_right_even_u64}
use linux.Half.{
  pack_f16, significand, normal_ref, round_ref, quiz_subnormal, quiz_normal,
  float32_to_float16_quiz,
}
use linux.Half.Agree.{sign_of, exp_of, frac_of, ref-narrowed}
use linux.Half.Narrow.{narrowed_lem, half_bits-zero}
use linux.Half.Parts.{half_bits, pack-infinity, pack-least_normal}
use linux.Half.Quiz.{quiz-finite, quiz-special}
use linux.Half.Rounding.{join_sign}

-- The reference from the rounding on.
unfoldable pub round_lab : (sign sig : ℕ) (e : ℤ) → ℕ
round_lab sign sig e =
    let half_exp = e +ℤ pos 15 in
    if leb_ℤ (pos 31) half_exp
    then pack_f16 sign (pos 0x1f) 0
    else if ltb_ℤ (pos 0) half_exp
    then normal_ref sign half_exp (round_shift_right_even_u64 sig 13)
    else let shift = pos 14 -ℤ half_exp in
      let rounded = round_shift_right_even_u64 sig (to_u32 shift) in
      if leb 0x400 rounded
      then u16 (bit_or (u32 (sign <<< 15)) 0x400)
      else u16 (bit_or (u32 (sign <<< 15)) rounded)

unfoldable pub float32_to_float16_ref : ℕ → Run ℕ
float32_to_float16_ref uf =
    let sign = uf >>> 31 in
    let exp = bit_and (uf >>> 23) 0xff in
    let frac = bit_and uf 0x7fffff in
    if exp == 0xff
    then if frac == 0
      then ok (pack_f16 sign (pos 0x1f) 0)
      else ok (u16 (bit_or (u32 (sign <<< 15)) 0x7e00))
    else if exp == 0 && frac == 0
    then ok (u16 (u32 (sign <<< 15)))
    else if exp == 0
    then ok (u16 (u32 (sign <<< 15)))
    else do (sig, e) ← significand (λ x. u64 x) exp frac; ok (round_lab sign sig e)

unfoldable pub float32_to_float16_experiment_a : ℕ → ℕ
float32_to_float16_experiment_a uf =
    let sign = uf >>> 31 in
    let exp = bit_and (uf >>> 23) 0xff in
    let frac = bit_and uf 0x7fffff in
    let hsign = u32 (sign <<< 15) in
    if exp == 0xff
    then if frac == 0 then u16 (bit_or hsign 0x7c00) else u16 (bit_or hsign 0x7e00)
    else if exp == 0
    then u16 hsign
    else let hexp = pos exp -ℤ pos 112 in
      if leb_ℤ (pos 31) hexp
      then u16 (bit_or hsign 0x7c00)
      else if leb_ℤ hexp (pos 0)
      then quiz_subnormal hsign frac hexp
      else quiz_normal hsign frac hexp

-- The two answers for the least normal half are one.
round_lab-round_ref :
    (sign sig : ℕ) (e : ℤ) → sign < 2 → round_lab sign sig e ≡ round_ref sign sig e
unfolding round_lab round_ref
round_lab-round_ref sign sig e h = rw (pack-least_normal sign h) refl

lab-narrowed :
    (sign : ℕ) (m : Run (ℕ × ℤ))
    → sign < 2
    → (m >>= λ (sig, e). ok (round_lab sign sig e)) ≡ (m >>= λ (sig, e). ok (round_ref sign sig e))
lab-narrowed sign (ok (sig, e)) h = ap ok (round_lab-round_ref sign sig e h)
lab-narrowed sign (undefined f) h = refl
lab-narrowed sign out_of_fuel h = refl

experiment-quiz :
    (uf : ℕ) → uf < 2 ^ 32 → float32_to_float16_experiment_a uf ≡ float32_to_float16_quiz uf
unfolding float32_to_float16_experiment_a float32_to_float16_quiz
experiment-quiz uf h =
    let sign_bit : bit_and (uf / 2 ^ 31) 1 ≡ uf / 2 ^ 31 =
      omega (arith, bit_and_mask 1 (uf / 2 ^ 31)) in
    rw sign_bit refl

lab-finite :
    (uf : ℕ)
    → uf < 2 ^ 32
    → exp_of uf ≢ 255
    → float32_to_float16_ref uf ≡ ok (sign_of uf * 2 ^ 15 + half_bits (exp_of uf) (frac_of uf))
unfolding float32_to_float16_ref
lab-finite uf h ne =
    let finite : (exp_of uf == 255) ≡ false = ground arith in
    rw
      (
        bit_and_mask 8 (uf / 2 ^ 23),
        bit_and_mask 23 uf,
        finite,
        lab-narrowed (sign_of uf) (significand (λ x. u64 x) (exp_of uf) (frac_of uf)) (omega arith),
        ref-narrowed (sign_of uf) (significand (λ x. u64 x) (exp_of uf) (frac_of uf)) (omega arith),
      )
      (elim (ℕ_discrete (exp_of uf) 0) [
        | yes e ↦ rw e (ground (arith, half_bits-zero (frac_of uf)))
        | no nz ↦
            let normal : (exp_of uf == 0) ≡ false = ground arith in
            rw normal (
              rw normal at (
                narrowed_lem (λ x. u64 x) (λ n l. mod-eq_of_lt (omega arith)) (sign_of uf)
                  (omega arith) (exp_of uf) (frac_of uf) (omega arith) (omega arith)))
      ])

ref-special :
    (uf : ℕ)
    → uf < 2 ^ 32
    → exp_of uf ≡ 255
    → float32_to_float16_ref uf
      ≡ ok (sign_of uf * 2 ^ 15 + (if frac_of uf == 0 then 0x7c00 else 0x7e00))
unfolding float32_to_float16_ref
ref-special uf h e =
    rw
      (
        bit_and_mask 8 (uf / 2 ^ 23),
        bit_and_mask 23 uf,
        e,
        pack-infinity (sign_of uf) (omega arith),
        join_sign (sign_of uf) 0x7c00 (omega arith) (omega arith),
        join_sign (sign_of uf) 0x7e00 (omega arith) (omega arith),
      )
      (ground arith)

-- On every 32-bit pattern the reference ends, and the experiment gives what it gives.
pub float32_to_float16_experiment_a-float32_to_float16_ref :
    (uf : ℕ) → uf < 2 ^ 32 → float32_to_float16_ref uf ≡ ok (float32_to_float16_experiment_a uf)
float32_to_float16_experiment_a-float32_to_float16_ref uf h = elim (ℕ_discrete (exp_of uf) 255) [
  | yes e ↦ rw (ref-special uf h e, experiment-quiz uf h, quiz-special uf h e) refl
  | no ne ↦ rw (lab-finite uf h ne, experiment-quiz uf h, quiz-finite uf h ne) refl
]
