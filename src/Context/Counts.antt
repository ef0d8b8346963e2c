-- ===== src/Context/Counts.antt =====
-- When the counts are halved depends on the number of bits alone.
use linux.Base.{
  ℕ, suc, ◌+◌, ◌-◌, ◌/◌, ◌%◌, ◌≡◌, ◌∙◌, sym, refl, List, [], ◌∷◌, Bool, true, false, ltb,
  if◌then◌else◌, length, arith,
}
use linux.Context.{Context, count_bit, halve, step_context, fresh, run_bits}

-- The number of observations after `n` bits: from 2 up to 64, and then from 33 up to 64 again and
-- again.
abbrev pub observations_after : ℕ → ℕ
observations_after n = if ltb n 63 then n + 2 else 33 + (n - 63) % 32

-- The counts after `n` bits.
pub record IsAfter (n : ℕ) (ctx : Context) : Type 0 where
  pub total : ctx.c0 + ctx.c1 + 2 ≡ observations_after n
  pub current : ctx.observations ≡ ctx.c0 + ctx.c1 + 2
  pub halvings : ctx.halving_count ≡ (n - 31) / 32

step_context-IsAfter :
    (n : ℕ) (ctx : Context) (bit : Bool) → IsAfter n ctx → IsAfter (suc n) (step_context ctx bit)
unfolding step_context count_bit halve
step_context-IsAfter n ctx true h = record {
  total = ground (arith, h.total);
  current = ground arith;
  halvings = ground (arith, h.total, h.halvings);
}
step_context-IsAfter n ctx false h = record {
  total = ground (arith, h.total);
  current = ground arith;
  halvings = ground (arith, h.total, h.halvings);
}

run_bits-IsAfter :
    (n : ℕ) (ctx : Context) (bits : List Bool)
    → IsAfter n ctx
    → IsAfter (n + length bits) (run_bits ctx bits)
unfolding run_bits
run_bits-IsAfter n ctx [] h = let all_read : n + 0 ≡ n = omega arith in rw all_read h
run_bits-IsAfter n ctx (bit ∷ bits) h =
    let moved =
      run_bits-IsAfter (suc n) (step_context ctx bit) bits (step_context-IsAfter n ctx bit h) in
    let one_read : n + suc (length bits) ≡ suc n + length bits = omega arith in rw one_read moved

-- From the fresh context, and whatever the bits are: after `n` of them the observations are `n + 2`
-- below 63, and from there on go from 33 to 64 in periods of 32; the field `observations` is the sum
-- of the counts and 2; and the counts have been halved (n - 31) / 32 times, with `-` stopping at 0.
pub run_bits-observations :
    (bits : List Bool)
    → ((run_bits fresh bits).observations ≡ observations_after (length bits))
      × ((run_bits fresh bits).c0 + (run_bits fresh bits).c1 + 2
          ≡ (run_bits fresh bits).observations)
      × ((run_bits fresh bits).halving_count ≡ (length bits - 31) / 32)
run_bits-observations bits =
    let h =
      run_bits-IsAfter 0 fresh bits record { total = refl; current = refl; halvings = refl } in
    let from_zero : 0 + length bits ≡ length bits = omega arith in
    rw (← from_zero) (h.current ∙ h.total, sym h.current, h.halvings)
