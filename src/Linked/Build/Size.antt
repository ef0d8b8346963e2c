-- ===== src/Linked/Build/Size.antt =====
-- The product of sizes that is checked for overflow.
use linux.Base.{ℕ, zero, suc, ◌-◌, ◌*◌, ◌^◌, ◌<◌, ◌≡◌, none, some, ltb, if◌then◌else◌, arith}
use native.Mathlib.Nat.{div-lt_iff_lt-mul}
use linux.Linked.Build.{checked_mul_size}

-- For two sizes, `checked_mul_size` stores the product where it fits in `size_t`, and refuses exactly
-- where it does not.
pub checked_mul_size_lem :
    (a b : ℕ)
    → a < 2 ^ 64
    → b < 2 ^ 64
    → checked_mul_size a b ≡ (if ltb (a * b) (2 ^ 64) then some (a * b) else none)
unfolding checked_mul_size
checked_mul_size_lem a zero ha hb = ground arith
checked_mul_size_lem zero (suc b) ha hb = ground arith
checked_mul_size_lem (suc a) (suc b) ha hb =
    let test = div-lt_iff_lt-mul {k = suc b} {x = 2 ^ 64 - 1} {y = suc a} (omega arith) in
    ground (arith, test.0, test.1)
