-- ===== src/Context/Tests.antt =====
-- A run of sixty-four bits.
use linux.Base.{◌+◌, ◌-◌, ◌/◌, ◌≡◌, refl, List, Bool, true, length, replicate}
use linux.Context.{fresh, run_bits, step_context, count_bit, halve}
use linux.Context.Counts.{observations_after, run_bits-observations}

abbrev ones : List Bool
ones = replicate 64 true

halved_once : (run_bits fresh ones).halving_count ≡ 1
unfolding run_bits step_context count_bit halve
halved_once = refl

run_bits-observations_example :
    ((run_bits fresh ones).observations ≡ observations_after (length ones))
    × ((run_bits fresh ones).c0 + (run_bits fresh ones).c1 + 2 ≡ (run_bits fresh ones).observations)
    × ((run_bits fresh ones).halving_count ≡ (length ones - 31) / 32)
run_bits-observations_example = run_bits-observations ones
