-- ===== src/Fields.antt =====
-- Replacing bytes of a word: bitfield_lab.c.
pub mod Masks
pub mod Replace
pub mod Ranges
mod Tests
use linux.Base.{ℕ, ◌+◌, ◌-◌, ◌*◌, ◌/◌, ◌%◌, ◌^◌, ltb, leb, ◌==◌, if◌then◌else◌, bit_and, bit_or}
use linux.Base.Word.{u32, ◌<<<◌, ◌>>>◌}

-- `~x` in 32 bits.
abbrev pub not32 : ℕ → ℕ
not32 x = 2 ^ 32 - 1 - x

unfoldable pub low_bytes_mask : (nbytes : ℕ) → ℕ
low_bytes_mask nbytes =
    if nbytes == 0 then 0 else if leb 4 nbytes then 0xffffffff else u32 (1 <<< (nbytes * 8)) - 1

-- `hi` and `lo` are below 32 where the shifts are defined.
unfoldable pub genmask_u32 : (hi lo : ℕ) → ℕ
genmask_u32 hi lo =
    if ltb hi lo
    then 0
    else if leb 31 hi
    then bit_and 0xffffffff (not32 (u32 (1 <<< lo) - 1))
    else bit_and (u32 (1 <<< (hi + 1)) - 1) (not32 (u32 (1 <<< lo) - 1))

unfoldable pub replace_low_nbytes : (dst src nbytes : ℕ) → ℕ
unfolding low_bytes_mask
replace_low_nbytes dst src nbytes =
    let mask = low_bytes_mask nbytes in bit_or (bit_and dst (not32 mask)) (bit_and src mask)

unfoldable pub replace_nbytes : (x i n y : ℕ) → ℕ
unfolding low_bytes_mask
replace_nbytes x i n y =
    let shift = u32 (i <<< 3) in
    let mask = low_bytes_mask n in
    let field_mask = u32 (mask <<< shift) in
    bit_or (bit_and x (not32 field_mask)) (u32 (bit_and y mask <<< shift))
