-- ===== src/Sort/Trace.antt =====
-- The columns of the trace of ch_sort_trace.c: the runs that a bottom-up merge sort has pending
-- after `count` entries, by the binary digits of `count`.
pub mod Powers
pub mod Runs
mod Tests
use linux.Base.{
  ℕ, zero, suc, ◌+◌, ◌*◌, ◌/◌, ◌%◌, ◌^◌, List, true, false, ltb, leb, ◌==◌, ◌||◌, not,
  if◌then◌else◌, bit_and,
}
use linux.Base.Arrays.{set_cell}
use linux.Base.Run.{Run, ok, out_of_fuel, ◌>>=◌}
use linux.Base.Word.{u64, ◌<<<◌, ◌>>>◌}

unfoldable pub trailing_loop : (fuel value count : ℕ) → Run ℕ
trailing_loop zero value count = out_of_fuel
trailing_loop (suc fuel) value count =
    let rest = trailing_loop fuel (value >>> 1) (u64 (count + 1)) in
    if bit_and value 1 == 0 then ok count else rest

unfoldable pub count_trailing_ones : (value : ℕ) → Run ℕ
count_trailing_ones value = trailing_loop 65 value 0

unfoldable pub power_loop : (fuel value bit : ℕ) → Run ℕ
power_loop zero value bit = out_of_fuel
power_loop (suc fuel) value bit =
    let rest = power_loop fuel value (u64 (bit <<< 1)) in
    if leb bit (value / 2) then rest else ok bit

unfoldable pub highest_power_of_two_le : (value : ℕ) → Run ℕ
highest_power_of_two_le value = if value == 0 then ok 0 else power_loop 64 value 1

-- The number of runs and the array that they are written to.
unfoldable pub runs_loop :
    (fuel count bit nruns : ℕ) (runs : List ℕ) (max_runs : ℕ) → Run (ℕ × List ℕ)
runs_loop zero count bit nruns runs max_runs = out_of_fuel
runs_loop (suc fuel) count bit nruns runs max_runs =
    let next = λ (n : ℕ) (written : List ℕ). runs_loop fuel count (bit >>> 1) n written max_runs in
    let found = set_cell runs nruns bit >>= next (u64 (nruns + 1)) in
    if bit == 0 || not (ltb nruns max_runs)
    then ok (nruns, runs)
    else if bit_and count bit == 0
    then next nruns runs
    else found

unfoldable pub runs_from_count : (count : ℕ) (runs : List ℕ) (max_runs : ℕ) → Run (ℕ × List ℕ)
runs_from_count count runs max_runs = do
  bit ← highest_power_of_two_le count
  runs_loop 65 count bit 0 runs max_runs
