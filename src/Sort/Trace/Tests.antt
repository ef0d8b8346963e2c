-- ===== src/Sort/Trace/Tests.antt =====
-- The columns of the trace at 13 entries.
use linux.Base.{ℕ, zero, suc, ◌≡◌, refl, arith, List, [], ◌∷◌}
use linux.Base.Run.{ok, Gives}
use linux.Sort.Trace.{
  trailing_loop, count_trailing_ones, power_loop, highest_power_of_two_le, runs_loop,
  runs_from_count,
}
use linux.Sort.Trace.Runs.{IsSplit, runs_from_count-IsSplit}

abbrev empty_runs : ℕ → List ℕ
empty_runs zero = []
empty_runs (suc n) = 0 ∷ empty_runs n

thirteen : runs_from_count 13 (empty_runs 4) 4 ≡ ok (3, 8 ∷ 4 ∷ 1 ∷ 0 ∷ [])
unfolding runs_from_count highest_power_of_two_le power_loop runs_loop
thirteen = refl

trailing_ones_of_eleven : count_trailing_ones 11 ≡ ok 2
unfolding count_trailing_ones trailing_loop
trailing_ones_of_eleven = refl

runs_from_count-IsSplit_example : Gives (IsSplit 13) (runs_from_count 13 (empty_runs 64) 64)
runs_from_count-IsSplit_example =
    runs_from_count-IsSplit 13 (empty_runs 64) 64 (omega arith) (omega arith) (omega arith)
      (omega arith)
