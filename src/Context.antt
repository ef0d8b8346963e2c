-- ===== src/Context.antt =====
-- The adaptive bit model of simulate_context_model.c.
pub mod Counts
mod Tests
use linux.Base.{ℕ, ◌+◌, ◌/◌, List, [], ◌∷◌, Bool, true, false, ltb, if◌then◌else◌}

-- `ctx_t`. None of its numbers is ever negative.
pub record Context : Type 0 where
  pub c0 : ℕ
  pub c1 : ℕ
  pub observations : ℕ
  pub halving_count : ℕ

-- `if (bit) ctx->c1++; else ctx->c0++;`
unfoldable pub count_bit : Context → Bool → Context
count_bit ctx true = record ctx { c1 = ctx.c1 + 1 }
count_bit ctx false = record ctx { c0 = ctx.c0 + 1 }

unfoldable pub halve : Context → Context
halve ctx = record ctx { c0 = ctx.c0 / 2; c1 = ctx.c1 / 2; halving_count = ctx.halving_count + 1 }

unfoldable pub step_context : Context → Bool → Context
unfolding count_bit halve
step_context ctx bit =
    let observations_before = ctx.c0 + ctx.c1 + 2 in
    let counted = count_bit ctx bit in
    let aged = if ltb 63 observations_before then halve counted else counted in
    record aged { observations = aged.c0 + aged.c1 + 2 }

-- The context that `run_case` starts from.
abbrev pub fresh : Context
fresh = record { c0 = 0; c1 = 0; observations = 2; halving_count = 0 }

-- The loop of `run_case` over the bits, without what it prints.
unfoldable pub run_bits : Context → List Bool → Context
run_bits ctx [] = ctx
run_bits ctx (bit ∷ bits) = run_bits (step_context ctx bit) bits
