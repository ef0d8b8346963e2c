-- ===== src/MulHigh.antt =====
-- High halves of products and the saturating product of c_mul_high_lab.c.
pub mod High
pub mod High64
pub mod Shr
mod Tests
use linux.Base.{
  ℕ, ◌+◌, ◌-◌, ◌*◌, ◌/◌, ◌%◌, ◌^◌, ◌<◌, ltb, ◌==◌, ◌||◌, if◌then◌else◌, bit_and, bit_or,
}
use linux.Base.Int.{ℤ, pos, negsuc, ◌*ℤ◌}
use linux.Base.Word.{u32, u64, to_u32, to_u64, to_i32, to_i64, ◌<<<◌, ◌>>>◌}

-- `>>` on a signed number, which GCC and Clang round down.
abbrev pub asr : ℤ → ℕ → ℤ
asr (pos n) k = pos (n / 2 ^ k)
asr (negsuc n) k = negsuc (n / 2 ^ k)

-- The product of two `int64_t` fits in `__int128`.
unfoldable pub signed_high_prod : ℤ → ℤ → ℤ
signed_high_prod x y = to_i64 (to_u64 (asr (x *ℤ y) 64))

unfoldable pub signed_high_prod32 : ℤ → ℤ → ℤ
signed_high_prod32 x y = to_i32 (to_u32 (asr (x *ℤ y) 32))

unfoldable pub unsigned_high_prod32_formula : ℕ → ℕ → ℕ
unfolding signed_high_prod32
unsigned_high_prod32_formula x y =
    let sx = asr (to_i32 x) 31 in
    let sy = asr (to_i32 y) 31 in
    let signed_hi = signed_high_prod32 (to_i32 x) (to_i32 y) in
    u32 (u32 (to_u32 signed_hi + bit_and (to_u32 sx) y) + bit_and (to_u32 sy) x)

unfoldable pub unsigned_high_prod32_oracle : ℕ → ℕ → ℕ
unsigned_high_prod32_oracle x y = u32 (u64 (x * y) >>> 32)

unfoldable pub unsigned_high_prod_formula : ℕ → ℕ → ℕ
unfolding signed_high_prod
unsigned_high_prod_formula x y =
    let sign_mask_x = u64 (2 ^ 64 - bit_and (x >>> 63) 1) in
    let sign_mask_y = u64 (2 ^ 64 - bit_and (y >>> 63) 1) in
    let correction = u64 (bit_and sign_mask_x y + bit_and sign_mask_y x) in
    u64 (to_u64 (signed_high_prod (to_i64 x) (to_i64 y)) + correction)

unfoldable pub unsigned_high_prod_oracle : ℕ → ℕ → ℕ
unsigned_high_prod_oracle x y = u64 (((x * y) % 2 ^ 128) >>> 64)

unfoldable pub mul_u64_u32_shr_oracle : (a b shift : ℕ) → ℕ
mul_u64_u32_shr_oracle a b shift = u64 (((a * b) % 2 ^ 128) >>> shift)

-- What the function returns and stores through its four pointers.
pub record ShrParts : Type 0 where
  pub result : ℕ
  pub p0 : ℕ
  pub p1 : ℕ
  pub carry : ℕ
  pub mid : ℕ

-- From a shift of 96 on, C leaves the last shift undefined, and what stands here means nothing.
unfoldable pub mul_u64_u32_shr_fallback : (a b shift : ℕ) → ShrParts
mul_u64_u32_shr_fallback a b shift =
    let a_lo = u32 a in
    let a_hi = a >>> 32 in
    let p0 = u64 (a_lo * b) in
    let p1 = u64 (a_hi * b) in
    let carry = p0 >>> 32 in
    let lo32 = bit_and p0 0xffffffff in
    let mid = u64 (p1 + carry) in
    let result =
      if ltb shift 32
      then bit_or (u64 (mid <<< (32 - shift))) (lo32 >>> shift)
      else if shift == 32
      then mid
      else mid >>> (shift - 32) in
    record { result = result; p0 = p0; p1 = p1; carry = carry; mid = mid }

abbrev pub size_max : ℕ
size_max = 2 ^ 64 - 1

unfoldable pub size_mul_like : ℕ → ℕ → ℕ
size_mul_like a b =
    if a == 0 || b == 0 then 0 else if ltb (size_max / b) a then size_max else u64 (a * b)
