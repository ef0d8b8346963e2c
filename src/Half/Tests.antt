-- ===== src/Half/Tests.antt =====
-- Conversions at concrete patterns.
use linux.Base.{◌^◌, ◌+◌, ◌*◌, ◌≡◌, ◌≢◌, refl, arith}
use linux.Base.Int.{◌+ℤ◌, ◌-ℤ◌}
use linux.Base.Run.{ok, Gives, ◌>>=◌}
use linux.Half.{
  normalize_loop, widen_subnormal, half_to_float32_bits, float32_to_float16_full,
  float32_to_float16_ref, float32_to_float16_quiz, quiz_normal, joined_quiz,
}
use linux.Half.Agree.{exp_of, frac_of, sign_of, float32_to_float16_full-float32_to_float16_ref}
use linux.Half.Exact.{IsWidened, half_to_float32_bits-IsWidened}
use linux.Half.Experiment
use linux.Half.Experiment.{
  float32_to_float16_experiment_a, float32_to_float16_experiment_a-float32_to_float16_ref,
}
use linux.Half.Narrowing.{IsNarrowed, float32_to_float16_full-IsNarrowed}
use linux.Half.Quiz.{float32_to_float16_quiz-float32_to_float16_full}
use linux.Half.RoundTrip.{float32_to_float16_full-half_to_float32_bits}

-- The least positive half is 2^-24.
least_widened : half_to_float32_bits 1 ≡ ok 0x33800000
unfolding half_to_float32_bits widen_subnormal normalize_loop ◌+ℤ◌ ◌-ℤ◌
least_widened = refl

-- A tie between 1 and its successor goes to 1.
tie_of_one : float32_to_float16_quiz 0x3f801000 ≡ 0x3c00
unfolding float32_to_float16_quiz quiz_normal joined_quiz ◌-ℤ◌
tie_of_one = refl

float32_to_float16_full-float32_to_float16_ref_example :
    Gives (λ h. float32_to_float16_ref 0x00000001 ≡ ok h) (float32_to_float16_full 0x00000001)
float32_to_float16_full-float32_to_float16_ref_example =
    float32_to_float16_full-float32_to_float16_ref 0x00000001 (omega arith)

float32_to_float16_full-half_to_float32_bits_example :
    (half_to_float32_bits 0x8155 >>= float32_to_float16_full) ≡ ok 0x8155
float32_to_float16_full-half_to_float32_bits_example =
    float32_to_float16_full-half_to_float32_bits 0x8155 (omega arith)

half_to_float32_bits-IsWidened_example : Gives (IsWidened 0x8155) (half_to_float32_bits 0x8155)
half_to_float32_bits-IsWidened_example = half_to_float32_bits-IsWidened 0x8155 (omega arith)

float32_to_float16_full-IsNarrowed_example :
    Gives (IsNarrowed 0x387fefff) (float32_to_float16_full 0x387fefff)
float32_to_float16_full-IsNarrowed_example =
    float32_to_float16_full-IsNarrowed 0x387fefff (omega arith) (omega arith)

float32_to_float16_quiz-float32_to_float16_full_example :
    ((exp_of 0x7f800001 ≡ 255 → frac_of 0x7f800001 ≡ 0)
      → float32_to_float16_full 0x7f800001 ≡ ok (float32_to_float16_quiz 0x7f800001))
    × (exp_of 0x7f800001 ≡ 255
        → frac_of 0x7f800001 ≢ 0
        → float32_to_float16_quiz 0x7f800001 ≡ sign_of 0x7f800001 * 2 ^ 15 + 0x7e00)
float32_to_float16_quiz-float32_to_float16_full_example =
    float32_to_float16_quiz-float32_to_float16_full 0x7f800001 (omega arith)

float32_to_float16_experiment_a-float32_to_float16_ref_example :
    Experiment.float32_to_float16_ref 0x477fefff ≡ ok (float32_to_float16_experiment_a 0x477fefff)
float32_to_float16_experiment_a-float32_to_float16_ref_example =
    float32_to_float16_experiment_a-float32_to_float16_ref 0x477fefff (omega arith)
