-- ===== src/Draw.antt =====
-- Bounded random draws without bias: modulo_bias/main.c.
pub mod Uniform
mod Tests
use linux.Base.{
  ℕ, zero, suc, ◌+◌, ◌-◌, ◌*◌, ◌/◌, ◌%◌, ◌^◌, Option, none, some, ltb, ◌==◌, if◌then◌else◌, bit_xor,
}
use linux.Base.Run.{Run, ok, undefined, out_of_fuel, div_by_zero}
use linux.Base.Word.{u32, u64, ◌<<<◌, ◌>>>◌}

-- The new state, which is also the result.
unfoldable pub xorshift32 : ℕ → ℕ
xorshift32 state =
    let x = u32 state in
    let x1 = bit_xor x (u32 (x <<< 13)) in
    let x2 = bit_xor x1 (x1 >>> 17) in bit_xor x2 (u32 (x2 <<< 5))

unfoldable pub threshold_of : ℕ → ℕ
threshold_of n = u32 (2 ^ 32 - n) % n

-- The body of the loop after the draw `x`: what it returns, or `none` where it goes on.
unfoldable pub accept : (x n threshold : ℕ) → Option ℕ
accept x n threshold =
    let m = u64 (x * n) in let l = u32 m in if ltb l threshold then none else some (u32 (m >>> 32))

-- `for (;;)`, with the result and the state that the draws leave.
unfoldable pub lemire_loop : (fuel state n threshold : ℕ) → Run (ℕ × ℕ)
lemire_loop zero state n threshold = out_of_fuel
lemire_loop (suc fuel) state n threshold =
    let x = xorshift32 state in
    let again = lemire_loop fuel x n threshold in
    elim (accept x n threshold) [ none ↦ again | some r ↦ ok (r, x) ]

-- The remainder by a bound of 0 is undefined.
unfoldable pub lemire_rejection : (fuel state n : ℕ) → Run (ℕ × ℕ)
lemire_rejection fuel state n =
    let drawn = lemire_loop fuel state n (threshold_of n) in
    if n == 0 then undefined div_by_zero else drawn
