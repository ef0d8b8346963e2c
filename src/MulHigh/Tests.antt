-- ===== src/MulHigh/Tests.antt =====
-- High halves of products at concrete numbers.
use linux.Base.{◌+◌, ◌*◌, ◌/◌, ◌%◌, ◌^◌, ◌≡◌, refl, arith}
use linux.Base.Int.{◌*ℤ◌}
use linux.MulHigh.{
  unsigned_high_prod32_formula, unsigned_high_prod_formula, unsigned_high_prod_oracle,
  mul_u64_u32_shr_fallback, mul_u64_u32_shr_oracle,
}
use linux.MulHigh.High64.{unsigned_high_prod_lem}
use linux.MulHigh.Shr.{mul_u64_u32_shr_lem}

greatest_product : unsigned_high_prod32_formula 0xffffffff 0xffffffff ≡ 0xfffffffe
unfolding unsigned_high_prod32_formula ◌*ℤ◌
greatest_product = refl

unsigned_high_prod_lem_example :
    unsigned_high_prod_formula (2 ^ 63 + 1) 6 ≡ unsigned_high_prod_oracle (2 ^ 63 + 1) 6
unsigned_high_prod_lem_example = unsigned_high_prod_lem (2 ^ 63 + 1) 6 (omega arith) (omega arith)

mul_u64_u32_shr_lem_example :
    ((mul_u64_u32_shr_fallback (2 ^ 40 + 5) 77 7).result ≡ mul_u64_u32_shr_oracle (2 ^ 40 + 5) 77 7)
    × ((mul_u64_u32_shr_fallback (2 ^ 40 + 5) 77 7).p0 ≡ (2 ^ 40 + 5) % 2 ^ 32 * 77)
    × ((mul_u64_u32_shr_fallback (2 ^ 40 + 5) 77 7).p1 ≡ (2 ^ 40 + 5) / 2 ^ 32 * 77)
    × ((mul_u64_u32_shr_fallback (2 ^ 40 + 5) 77 7).mid ≡ (2 ^ 40 + 5) * 77 / 2 ^ 32)
mul_u64_u32_shr_lem_example =
    mul_u64_u32_shr_lem (2 ^ 40 + 5) 77 7 (omega arith) (omega arith) (omega arith)
