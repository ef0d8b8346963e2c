-- ===== src/Packing.antt =====
-- Bit packing: numbers of a few bits written one after the other into bytes, the lowest bit first,
-- of linux2026-quiz6-labs/linux2026-quiz6-lab/src/bitpack_lab.c. An array is a list with bounds, and
-- an `int` past its range is a signed overflow. A width is taken to be below 32, since C leaves a
-- longer shift undefined.
pub mod Stored
pub mod RoundTrip
mod Tests
use linux.Base.{
  ℕ, zero, suc, ◌+◌, ◌-◌, ◌*◌, ◌/◌, ◌%◌, ◌^◌, List, [], ◌∷◌, length, ltb, leb, if◌then◌else◌,
  bit_and, bit_or,
}
use linux.Base.Arrays.{cell, set_cell}
use linux.Base.Run.{Run, ok, undefined, out_of_bounds, signed_overflow, ◌>>=◌}
use linux.Base.Word.{u8, u32, ◌<<<◌, ◌>>>◌}

-- A result of `int` arithmetic.
abbrev pub int : ℕ → Run ℕ
int n = if ltb n (2 ^ 31) then ok n else undefined signed_overflow

unfoldable pub bytes_for : (n bits : ℕ) → Run ℕ
bytes_for n bits = do product ← int (n * bits); sum ← int (product + 7); ok (sum >>> 3)

unfoldable pub low_mask : (bits : ℕ) → ℕ
low_mask bits = u8 (u32 (1 <<< bits) - 1)

-- `memset(packed, 0, len)`
abbrev pub cleared : List ℕ → ℕ → List ℕ
cleared a zero = a
cleared [] (suc len) = []
cleared (x ∷ a) (suc len) = 0 ∷ cleared a len

abbrev pub clear : List ℕ → ℕ → Run (List ℕ)
clear packed len =
    if leb len (length packed) then ok (cleared packed len) else undefined out_of_bounds

-- The bits of one number, `left` of them to come.
unfoldable pub pack_bits : (left value bp : ℕ) → List ℕ → Run (List ℕ)
pack_bits zero value bp packed = ok packed
pack_bits (suc left) value bp packed = do
  let byte = bp >>> 3
  let b = bit_and bp 7
  let bit = u8 (bit_and value 1)
  old ← cell packed byte
  packed ← set_cell packed byte (u8 (bit_or old (u8 (bit <<< b))))
  bp ← int (bp + 1)
  pack_bits left (value >>> 1) bp packed

-- The numbers from the `i`-th on, `left` of them.
unfoldable pub pack_from : (left i : ℕ) (idx : List ℕ) (bits mask : ℕ) → List ℕ → Run (List ℕ)
pack_from zero i idx bits mask packed = ok packed
pack_from (suc left) i idx bits mask packed = do
  entry ← cell idx i
  bp ← int (i * bits)
  packed ← pack_bits bits (bit_and entry mask) bp packed
  pack_from left (i + 1) idx bits mask packed

unfoldable pub pack_indices : (idx packed : List ℕ) (n bits : ℕ) → Run (List ℕ)
pack_indices idx packed n bits = do
  packed_len ← bytes_for n bits
  let mask = u32 (1 <<< bits) - 1
  packed ← clear packed packed_len
  pack_from n 0 idx bits mask packed

-- The `j`-th bit of a number and those that follow.
unfoldable pub unpack_bits : (left j value bp : ℕ) → List ℕ → Run ℕ
unpack_bits zero j value bp packed = ok value
unpack_bits (suc left) j value bp packed = do
  let byte = bp >>> 3
  let b = bit_and bp 7
  entry ← cell packed byte
  let bit = bit_and (entry >>> b) 1
  bp ← int (bp + 1)
  unpack_bits left (j + 1) (bit_or value (u32 (bit <<< j))) bp packed

unfoldable pub unpack_from : (left i : ℕ) (packed : List ℕ) (bits mask : ℕ) → List ℕ → Run (List ℕ)
unpack_from zero i packed bits mask idx = ok idx
unpack_from (suc left) i packed bits mask idx = do
  bp ← int (i * bits)
  value ← unpack_bits bits 0 0 bp packed
  idx ← set_cell idx i (u8 (bit_and value mask))
  unpack_from left (i + 1) packed bits mask idx

unfoldable pub unpack_indices : (packed idx : List ℕ) (n bits : ℕ) → Run (List ℕ)
unpack_indices packed idx n bits =
    let mask = u32 (1 <<< bits) - 1 in unpack_from n 0 packed bits mask idx
