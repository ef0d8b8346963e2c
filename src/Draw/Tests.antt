-- ===== src/Draw/Tests.antt =====
-- Draws below a small bound.
use linux.Base.{◌/◌, ◌^◌, ◌≡◌, refl, none, arith}
use linux.Base.Run.{out_of_fuel}
use linux.Draw.{xorshift32, threshold_of, accept, lemire_loop, lemire_rejection}
use linux.Draw.Uniform.{count_draws, count_draws_uniform}

-- Below 6 the least draw is one of the four that are rejected.
least_rejected : accept 0 6 (threshold_of 6) ≡ none
unfolding accept threshold_of
least_rejected = refl

-- The state 0 is left by no draw, so a bound that rejects the draw 0 never ends there.
state_zero : lemire_rejection 50 0 6 ≡ out_of_fuel
unfolding lemire_rejection lemire_loop accept threshold_of xorshift32
state_zero = refl

count_draws_uniform_example : count_draws (2 ^ 32) 6 5 ≡ 2 ^ 32 / 6
count_draws_uniform_example = count_draws_uniform 6 5 (omega arith) (omega arith)
