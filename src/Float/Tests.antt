-- ===== src/Float/Tests.antt =====
-- Rounding and quarters at concrete patterns.
use linux.Base.{◌/◌, ◌%◌, ◌^◌, ◌≡◌, ◌≢◌, refl, arith}
use linux.Float.{round_shift_right_even_u64, float_quarter}
use linux.Float.Quarter.{magnitude, IsQuarter, float_quarter-IsNearestEven}

-- A tie goes to the even side.
tie_to_even : round_shift_right_even_u64 6 2 ≡ 2
unfolding round_shift_right_even_u64
tie_to_even = refl

-- A quarter of 1 is 0.25.
quarter_of_one : float_quarter 0x3f800000 ≡ 0x3e800000
unfolding float_quarter
quarter_of_one = refl

float_quarter-IsNearestEven_example :
    (0x80800003 / 2 ^ 23 % 2 ^ 8 ≡ 255 → float_quarter 0x80800003 ≡ 0x80800003)
    × (0x80800003 / 2 ^ 23 % 2 ^ 8 ≢ 255
        → IsQuarter (0x80800003 / 2 ^ 31) (magnitude 0x80800003) (float_quarter 0x80800003))
float_quarter-IsNearestEven_example = float_quarter-IsNearestEven 0x80800003 (omega arith)
