-- ===== src/Half.antt =====
-- Half precision: 16-bit patterns of IEEE 754 widened to 32 bits and narrowed from them, of
-- linux2026-quiz5-labs/labs/d_fp16/float32_to_float16_lab.c. An `int` exponent is an integer; it
-- stays between -149 and 255, far from the bounds of `int`.
pub mod Rounding
pub mod Parts
pub mod Normalize
pub mod Narrow
pub mod Agree
pub mod Widen
pub mod RoundTrip
pub mod Exact
pub mod Quiz
pub mod Nearest
pub mod Narrowing
pub mod Experiment
mod Tests
use linux.Base.{
  ℕ, zero, suc, ◌+◌, ◌-◌, ◌*◌, ◌/◌, ◌%◌, ◌^◌, Bool, true, false, ltb, leb, ◌==◌, ◌&&◌, ◌||◌, not,
  if◌then◌else◌, bit_and, bit_or,
}
use linux.Base.Int.{ℤ, pos, negsuc, ◌+ℤ◌, ◌-ℤ◌, ltb_ℤ, leb_ℤ}
use linux.Base.Run.{Run, ok, out_of_fuel, ◌>>=◌}
use linux.Base.Word.{u16, u32, u64, to_u32, ◌<<<◌, ◌>>>◌}
use linux.Float.{round_shift_right_even_u64}

-- `while ((value & top) == 0) { value <<= 1; e--; }` in a word of the given wrap-around.
unfoldable pub normalize_loop : (word : ℕ → ℕ) (top fuel value : ℕ) (e : ℤ) → Run (ℕ × ℤ)
normalize_loop word top zero value e = out_of_fuel
normalize_loop word top (suc fuel) value e =
    let rest = normalize_loop word top fuel (word (value <<< 1)) (e -ℤ pos 1) in
    if bit_and value top == 0 then rest else ok (value, e)

unfoldable pub widen_subnormal : (sign frac : ℕ) → Run ℕ
widen_subnormal sign frac = do
  (frac, e) ← normalize_loop (λ x. u32 x) 0x400 11 frac (negsuc 13)
  let frac = bit_and frac 0x3ff
  ok (bit_or (bit_or sign (u32 (to_u32 (e +ℤ pos 127) <<< 23))) (u32 (frac <<< 13)))

unfoldable pub half_to_float32_bits : ℕ → Run ℕ
half_to_float32_bits h =
    let sign = u32 (bit_and h 0x8000 <<< 16) in
    let exp = bit_and (h >>> 10) 0x1f in
    let frac = bit_and h 0x3ff in
    if exp == 0x1f
    then ok (bit_or (bit_or sign 0x7f800000) (u32 (frac <<< 13)))
    else if exp == 0
    then if frac == 0 then ok sign else widen_subnormal sign frac
    else ok (bit_or (bit_or sign (u32 (u32 (exp + 112) <<< 23))) (u32 (frac <<< 13)))

unfoldable pub pack_f16 : (sign : ℕ) (exp : ℤ) (frac : ℕ) → ℕ
pack_f16 sign exp frac =
    u16 (bit_or (bit_or (u32 (sign <<< 15)) (u32 (to_u32 exp <<< 10))) (bit_and frac 0x3ff))

-- The NaN of the first bits of the fraction.
unfoldable pub quiet_payload : (sign frac : ℕ) → ℕ
quiet_payload sign frac =
    let payload = u16 (frac >>> 13) in
    let payload = if payload == 0 then 0x200 else payload in
    u16 (bit_or (bit_or (u32 (sign <<< 15)) 0x7c00) payload)

-- The significand and the exponent that it is scaled by.
unfoldable pub significand : (word : ℕ → ℕ) (exp frac : ℕ) → Run (ℕ × ℤ)
significand word exp frac =
    if exp == 0
    then normalize_loop word 0x800000 24 frac (negsuc 125)
    else ok (bit_or 0x800000 frac, pos exp -ℤ pos 127)

unfoldable pub normal_ref : (sign : ℕ) (half_exp : ℤ) (rounded : ℕ) → ℕ
normal_ref sign half_exp rounded =
    if rounded == 0x800
    then (if leb_ℤ (pos 31) (half_exp +ℤ pos 1)
        then pack_f16 sign (pos 0x1f) 0
        else pack_f16 sign (half_exp +ℤ pos 1) (bit_and 0x400 0x3ff))
    else pack_f16 sign half_exp (bit_and rounded 0x3ff)

-- The reference from the rounding on.
unfoldable pub round_ref : (sign sig : ℕ) (e : ℤ) → ℕ
round_ref sign sig e =
    let half_exp = e +ℤ pos 15 in
    if leb_ℤ (pos 31) half_exp
    then pack_f16 sign (pos 0x1f) 0
    else if ltb_ℤ (pos 0) half_exp
    then normal_ref sign half_exp (round_shift_right_even_u64 sig 13)
    else let shift = pos 14 -ℤ half_exp in
      let rounded = round_shift_right_even_u64 sig (to_u32 shift) in
      if leb 0x400 rounded
      then pack_f16 sign (pos 1) 0
      else u16 (bit_or (u32 (sign <<< 15)) rounded)

unfoldable pub float32_to_float16_ref : ℕ → Run ℕ
float32_to_float16_ref uf =
    let sign = uf >>> 31 in
    let exp = bit_and (uf >>> 23) 0xff in
    let frac = bit_and uf 0x7fffff in
    if exp == 0xff
    then if frac == 0 then ok (pack_f16 sign (pos 0x1f) 0) else ok (quiet_payload sign frac)
    else if exp == 0 && frac == 0
    then ok (u16 (u32 (sign <<< 15)))
    else do (sig, e) ← significand (λ x. u64 x) exp frac; ok (round_ref sign sig e)

unfoldable pub joined_full : (sign : ℕ) (half_exp : ℤ) (rounded : ℕ) → ℕ
joined_full sign half_exp rounded =
    u16 (bit_or (bit_or (u32 (sign <<< 15)) (u32 (to_u32 half_exp <<< 10))) (bit_and rounded 0x3ff))

unfoldable pub normal_full : (sign : ℕ) (half_exp : ℤ) (rounded : ℕ) → ℕ
normal_full sign half_exp rounded =
    if rounded == 0x800
    then (if leb_ℤ (pos 31) (half_exp +ℤ pos 1)
        then u16 (bit_or (u32 (sign <<< 15)) 0x7c00)
        else joined_full sign (half_exp +ℤ pos 1) 0x400)
    else joined_full sign half_exp rounded

-- The full conversion from the rounding on.
unfoldable pub round_full : (sign sig : ℕ) (e : ℤ) → ℕ
round_full sign sig e =
    let half_exp = e +ℤ pos 15 in
    if leb_ℤ (pos 31) half_exp
    then u16 (bit_or (u32 (sign <<< 15)) 0x7c00)
    else if ltb_ℤ (pos 0) half_exp
    then normal_full sign half_exp (round_shift_right_even_u64 sig 13)
    else let shift = pos 14 -ℤ half_exp in
      let rounded = round_shift_right_even_u64 sig (to_u32 shift) in
      if leb 0x400 rounded
      then u16 (bit_or (u32 (sign <<< 15)) 0x400)
      else u16 (bit_or (u32 (sign <<< 15)) rounded)

unfoldable pub float32_to_float16_full : ℕ → Run ℕ
float32_to_float16_full uf =
    let sign = uf >>> 31 in
    let exp = bit_and (uf >>> 23) 0xff in
    let frac = bit_and uf 0x7fffff in
    if exp == 0xff
    then if frac == 0
      then ok (u16 (bit_or (u32 (sign <<< 15)) 0x7c00))
      else ok (quiet_payload sign frac)
    else if exp == 0 && frac == 0
    then ok (u16 (u32 (sign <<< 15)))
    else do (sig, e) ← significand (λ x. u32 x) exp frac; ok (round_full sign sig e)

-- The quiz's answer for a result in the subnormal range, its exponent `hexp` not positive.
unfoldable pub quiz_subnormal : (hsign frac : ℕ) (hexp : ℤ) → ℕ
quiz_subnormal hsign frac hexp =
    let mant = bit_or frac 0x800000 in
    let shift = pos 14 -ℤ hexp in
    if ltb_ℤ (pos 24) shift
    then u16 hsign
    else let places = to_u32 shift in
      let val = mant >>> places in
      let lost = bit_and mant (u32 (1 <<< places) - 1) in
      let half = u32 (1 <<< (places - 1)) in
      if ltb half lost || (lost == half && not (bit_and val 1 == 0))
      then u16 (bit_or hsign (u32 (val + 1)))
      else u16 (bit_or hsign val)

unfoldable pub joined_quiz : (hsign : ℕ) (hexp : ℤ) (hfrac : ℕ) → ℕ
joined_quiz hsign hexp hfrac = u16 (bit_or (bit_or hsign (u32 (to_u32 hexp <<< 10))) hfrac)

-- The fraction one up, which may carry into the exponent.
unfoldable pub carried_quiz : (hsign : ℕ) (hexp : ℤ) (hfrac : ℕ) → ℕ
carried_quiz hsign hexp hfrac =
    if hfrac == 0x400
    then (if leb_ℤ (pos 31) (hexp +ℤ pos 1)
        then u16 (bit_or hsign 0x7c00)
        else joined_quiz hsign (hexp +ℤ pos 1) 0)
    else joined_quiz hsign hexp hfrac

-- And for one in the normal range.
unfoldable pub quiz_normal : (hsign frac : ℕ) (hexp : ℤ) → ℕ
quiz_normal hsign frac hexp =
    let hfrac = frac >>> 13 in
    let lost = bit_and frac 0x1fff in
    let half = u32 (1 <<< 12) in
    if ltb half lost || (lost == half && not (bit_and hfrac 1 == 0))
    then carried_quiz hsign hexp (u32 (hfrac + 1))
    else joined_quiz hsign hexp hfrac

unfoldable pub float32_to_float16_quiz : ℕ → ℕ
float32_to_float16_quiz f =
    let sign = bit_and (f >>> 31) 1 in
    let exp = bit_and (f >>> 23) 0xff in
    let frac = bit_and f 0x7fffff in
    let hsign = u32 (sign <<< 15) in
    if exp == 0xff
    then if frac == 0 then u16 (bit_or hsign 0x7c00) else u16 (bit_or hsign 0x7e00)
    else if exp == 0
    then u16 hsign
    else let hexp = pos exp -ℤ pos 112 in
      if leb_ℤ (pos 31) hexp
      then u16 (bit_or hsign 0x7c00)
      else if leb_ℤ hexp (pos 0)
      then quiz_subnormal hsign frac hexp
      else quiz_normal hsign frac hexp
