-- ===== src/Half/Agree.antt =====
-- The full conversion agrees with the file's reference, and ends.
use linux.Base.{
  ℕ, ◌+◌, ◌*◌, ◌/◌, ◌%◌, ◌^◌, ◌<◌, ◌≡◌, ◌≢◌, refl, ap, arith, ◌==◌, if◌then◌else◌, false,
  ℕ_discrete,
}
use linux.Base.Digits.{bit_and_mask}
use linux.Base.Int.{ℤ}
use linux.Base.Run.{Run, ok, undefined, out_of_fuel, ◌>>=◌, Gives, gives}
use linux.Base.Word.{u32, u64}
use native.Mathlib.Nat.{mod-eq_of_lt}
use linux.Half.{
  significand, quiet_payload, round_ref, float32_to_float16_ref, round_full,
  float32_to_float16_full,
}
use linux.Half.Narrow.{narrowed_lem}
use linux.Half.Parts.{half_bits, round_ref-round_full, pack-infinity}
use linux.Half.Rounding.{join_sign}

-- The fields of a float.
abbrev pub sign_of : ℕ → ℕ
sign_of uf = uf / 2 ^ 31

abbrev pub exp_of : ℕ → ℕ
exp_of uf = uf / 2 ^ 23 % 2 ^ 8

abbrev pub frac_of : ℕ → ℕ
frac_of uf = uf % 2 ^ 23

pub full-finite :
    (uf : ℕ)
    → uf < 2 ^ 32
    → exp_of uf ≢ 255
    → float32_to_float16_full uf ≡ ok (sign_of uf * 2 ^ 15 + half_bits (exp_of uf) (frac_of uf))
unfolding float32_to_float16_full
full-finite uf h ne =
    let finite : (exp_of uf == 255) ≡ false = ground arith in
    rw (bit_and_mask 8 (uf / 2 ^ 23), bit_and_mask 23 uf, finite)
      (narrowed_lem (λ x. u32 x) (λ n l. mod-eq_of_lt (omega arith)) (sign_of uf) (omega arith)
        (exp_of uf) (frac_of uf) (omega arith) (omega arith))

pub ref-narrowed :
    (sign : ℕ) (m : Run (ℕ × ℤ))
    → sign < 2
    → (m >>= λ (sig, e). ok (round_ref sign sig e)) ≡ (m >>= λ (sig, e). ok (round_full sign sig e))
ref-narrowed sign (ok (sig, e)) h = ap ok (round_ref-round_full sign sig e h)
ref-narrowed sign (undefined f) h = refl
ref-narrowed sign out_of_fuel h = refl

ref-finite :
    (uf : ℕ)
    → uf < 2 ^ 32
    → exp_of uf ≢ 255
    → float32_to_float16_ref uf ≡ ok (sign_of uf * 2 ^ 15 + half_bits (exp_of uf) (frac_of uf))
unfolding float32_to_float16_ref
ref-finite uf h ne =
    let finite : (exp_of uf == 255) ≡ false = ground arith in
    rw
      (
        bit_and_mask 8 (uf / 2 ^ 23),
        bit_and_mask 23 uf,
        finite,
        ref-narrowed (sign_of uf) (significand (λ x. u64 x) (exp_of uf) (frac_of uf)) (omega arith),
      )
      (narrowed_lem (λ x. u64 x) (λ n l. mod-eq_of_lt (omega arith)) (sign_of uf) (omega arith)
        (exp_of uf) (frac_of uf) (omega arith) (omega arith))

-- Infinities and NaN.
abbrev pub special_bits : (sign frac : ℕ) → ℕ
special_bits sign frac = if frac == 0 then sign * 2 ^ 15 + 0x7c00 else quiet_payload sign frac

pub full-special :
    (uf : ℕ)
    → uf < 2 ^ 32
    → exp_of uf ≡ 255
    → float32_to_float16_full uf ≡ ok (special_bits (sign_of uf) (frac_of uf))
unfolding float32_to_float16_full
full-special uf h e =
    rw
      (
        bit_and_mask 8 (uf / 2 ^ 23),
        bit_and_mask 23 uf,
        e,
        join_sign (sign_of uf) 0x7c00 (omega arith) (omega arith),
      )
      (ground arith)

ref-special :
    (uf : ℕ)
    → uf < 2 ^ 32
    → exp_of uf ≡ 255
    → float32_to_float16_ref uf ≡ ok (special_bits (sign_of uf) (frac_of uf))
unfolding float32_to_float16_ref
ref-special uf h e =
    rw
      (
        bit_and_mask 8 (uf / 2 ^ 23),
        bit_and_mask 23 uf,
        e,
        pack-infinity (sign_of uf) (omega arith),
        join_sign (sign_of uf) 0x7c00 (omega arith) (omega arith),
      )
      (ground arith)

-- On every 32-bit pattern the full conversion ends, and gives what the reference gives.
pub float32_to_float16_full-float32_to_float16_ref :
    (uf : ℕ)
    → uf < 2 ^ 32
    → Gives (λ (h : ℕ). float32_to_float16_ref uf ≡ ok h) (float32_to_float16_full uf)
float32_to_float16_full-float32_to_float16_ref uf h = elim (ℕ_discrete (exp_of uf) 255) [
  | yes e ↦ rw (full-special uf h e) (gives _ (ref-special uf h e))
  | no ne ↦ rw (full-finite uf h ne) (gives _ (ref-finite uf h ne))
]
