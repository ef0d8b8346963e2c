-- ===== src/Average/Tests.antt =====
-- The average at the weights and sequences of main.
use linux.Base.{ℕ, ◌+◌, ◌*◌, ◌^◌, ◌≤◌, ◌<◌, ◌≡◌, refl, arith, List, [], ◌∷◌, some, none}
use linux.Base.Int.{pos}
use linux.Base.Run.{ok, Gives}
use linux.Average.{
  shift_loop, weight_shift_from_rcp, sample_value, next_internal, internal_from, final_for, run_one,
}
use linux.Average.Shift.{IsShiftOf, weight_shift_from_rcp-IsShiftOf}
use linux.Average.Steady.{internal_from-le, internal_from-steady}

abbrev constant100 : List ℕ
constant100 = b'c' ∷ b'o' ∷ b'n' ∷ []

abbrev small1 : List ℕ
small1 = b's' ∷ b'm' ∷ []

-- In whole numbers an average of ones over 8 never leaves 0, and one of hundreds stops at 96.
lost_ones : run_one small1 0 (pos 8) ≡ ok (some 0)
unfolding run_one weight_shift_from_rcp shift_loop final_for internal_from next_internal
    sample_value
lost_ones = refl

stops_at_96 : run_one constant100 0 (pos 8) ≡ ok (some 96)
unfolding run_one weight_shift_from_rcp shift_loop final_for internal_from next_internal
    sample_value
stops_at_96 = refl

odd_weight : run_one small1 0 (pos 12) ≡ ok none
unfolding run_one weight_shift_from_rcp shift_loop final_for
odd_weight = refl

weight_shift_from_rcp-IsShiftOf_example : Gives (IsShiftOf 0 16) (weight_shift_from_rcp (pos 16))
weight_shift_from_rcp-IsShiftOf_example =
    weight_shift_from_rcp-IsShiftOf 16 (omega arith) (omega arith)

internal_from-le_example : internal_from 100 0 small1 4 10 0 ≤ 100 * 2 ^ 10
internal_from-le_example = internal_from-le 100 0 small1 4 10 0 (omega arith) (omega arith)

internal_from-steady_example :
    (100 * 2 ^ 3 < internal_from 800 0 constant100 4 3 0 + 2 ^ 4)
    × ((more next : ℕ)
        → internal_from more next constant100 4 3 (internal_from 800 0 constant100 4 3 0)
          ≡ internal_from 800 0 constant100 4 3 0)
internal_from-steady_example =
    internal_from-steady constant100 4 3 refl (omega arith) 800 0 (omega arith)
