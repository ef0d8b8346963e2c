-- ===== src/Average.antt =====
-- The fixed-point moving average of linux2026-quiz6-labs/linux2026-quiz6-lab/src/ewma_lab.c. The
-- floating-point average that it is compared with is not modelled.
pub mod Shift
pub mod Steady
mod Tests
use linux.Base.{
  ℕ, zero, suc, ◌+◌, ◌-◌, ◌*◌, ◌/◌, ◌%◌, ◌^◌, List, get_or, Option, none, some, true, false, ltb,
  ◌==◌, ◌&&◌, not, if◌then◌else◌, bit_and,
}
use linux.Base.Int.{ℤ, pos, negsuc}
use linux.Base.Run.{Run, ok, out_of_fuel, ◌>>=◌}
use linux.Base.Word.{u64, ◌<<<◌, ◌>>>◌}

abbrev pub steps : ℕ
steps = 100

unfoldable pub shift_loop : (fuel shift x : ℕ) → Run ℤ
shift_loop zero shift x = out_of_fuel
shift_loop (suc fuel) shift x =
    let rest = shift_loop fuel (shift + 1) (x >>> 1) in
    if not (ltb 1 x) then ok (pos shift) else if not (bit_and x 1 == 0) then ok (negsuc 0) else rest

-- The loop is not entered for a negative argument.
unfoldable pub weight_shift_from_rcp : ℤ → Run ℤ
weight_shift_from_rcp (pos n) = shift_loop 31 0 n
weight_shift_from_rcp (negsuc n) = ok (pos 0)

-- A name is the list of its bytes; past them is the terminator.
unfoldable pub sample_value : (name : List ℕ) (step : ℕ) → ℕ
sample_value name step =
    if get_or name 0 0 == b'c'
    then 100
    else if get_or name 0 0 == b's' && get_or name 1 0 == b't'
    then (if ltb step 50 then 0 else 100)
    else if get_or name 0 0 == b's' && get_or name 1 0 == b'm'
    then 1
    else if bit_and step 1 == 0
    then 0
    else 100

unfoldable pub next_internal : (weight_shift precision x fixed_internal : ℕ) → ℕ
next_internal weight_shift precision x fixed_internal = u64 (
    u64 (fixed_internal + 2 ^ 64 - (fixed_internal >>> weight_shift))
    + (u64 (x <<< precision) >>> weight_shift))

-- The loop over the steps, `left` of them to come.
unfoldable pub internal_from :
    (left step : ℕ) (sequence : List ℕ) (weight_shift precision fixed_internal : ℕ) → ℕ
internal_from zero step sequence weight_shift precision fixed_internal = fixed_internal
internal_from (suc left) step sequence weight_shift precision fixed_internal =
    internal_from left (step + 1) sequence weight_shift precision
      (next_internal weight_shift precision (sample_value sequence step) fixed_internal)

-- `none` is the exit for a weight that is no power of 2.
unfoldable pub final_for : (sequence : List ℕ) (precision : ℕ) → ℤ → Option ℕ
final_for sequence precision (pos shift) = some (internal_from steps 0 sequence shift precision 0)
final_for sequence precision (negsuc n) = none

unfoldable pub run_one : (sequence : List ℕ) (precision : ℕ) (weight_rcp : ℤ) → Run (Option ℕ)
run_one sequence precision weight_rcp = do
  weight_shift ← weight_shift_from_rcp weight_rcp
  ok (final_for sequence precision weight_shift)
