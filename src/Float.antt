-- ===== src/Float.antt =====
-- Conversions of IEEE 754 bit patterns: rounding, a quarter of a float, and half precision.
pub mod Round
pub mod Quarter
mod Tests
use linux.Base.{
  ℕ, zero, suc, ◌+◌, ◌-◌, ◌*◌, ◌/◌, ◌%◌, ◌^◌, Bool, true, false, ltb, leb, ◌==◌, ◌&&◌, ◌||◌, not,
  if◌then◌else◌, bit_and, bit_or,
}
use linux.Base.Word.{u16, u32, u64, ◌<<<◌, ◌>>>◌}

-- Shift right, rounding to the nearest and a tie to the even one.
unfoldable pub round_shift_right_even_u64 : (value shift : ℕ) → ℕ
round_shift_right_even_u64 value shift =
    if shift == 0
    then u32 value
    else if leb 64 shift
    then 0
    else let upper = value >>> shift in
      let lower_mask = u64 (1 <<< shift) - 1 in
      let lower = bit_and value lower_mask in
      let half = u64 (1 <<< (shift - 1)) in
      if ltb half lower || (lower == half && not (bit_and upper 1 == 0))
      then u32 (u64 (upper + 1))
      else u32 upper

unfoldable pub float_quarter : ℕ → ℕ
float_quarter uf =
    let sign = bit_and uf 0x80000000 in
    let exp = bit_and (uf >>> 23) 0xff in
    let frac = bit_and uf 0x7fffff in
    if exp == 0xff
    then uf
    else if ltb 2 exp
    then bit_or (bit_or sign (u32 ((exp - 2) <<< 23))) frac
    else if exp == 2
    then bit_or sign (round_shift_right_even_u64 (bit_or 0x800000 frac) 1)
    else if exp == 1
    then bit_or sign (round_shift_right_even_u64 (bit_or 0x800000 frac) 2)
    else bit_or sign (round_shift_right_even_u64 frac 2)

unfoldable pub float_quarter_ref : ℕ → ℕ
float_quarter_ref uf =
    let sign = bit_and uf 0x80000000 in
    let exp = bit_and (uf >>> 23) 0xff in
    let frac = bit_and uf 0x7fffff in
    if exp == 0xff
    then uf
    else if leb 3 exp
    then bit_or (bit_or sign (u32 ((exp - 2) <<< 23))) frac
    else if exp == 2
    then bit_or sign (round_shift_right_even_u64 (bit_or 0x800000 frac) 1)
    else if exp == 1
    then bit_or sign (round_shift_right_even_u64 (bit_or 0x800000 frac) 2)
    else bit_or sign (round_shift_right_even_u64 frac 2)
