-- ===== src/Crc.antt =====
-- CRC-32 in its table, nibble and branchless forms: crc_nibble_vs_byte.c and side_channel/crc.c.
pub mod Linear
pub mod Tables
pub mod Checksum
mod Tests
use linux.Base.{
  ℕ, zero, suc, ◌+◌, ◌-◌, ◌*◌, ◌/◌, ◌%◌, ◌^◌, List, [], ◌∷◌, Bool, true, false, ◌==◌, if◌then◌else◌,
  bit_and, bit_xor, get_or, replicate,
}
use linux.Base.Word.{u8, u32, u64, ◌<<<◌, ◌>>>◌}

-- The reversed polynomial.
abbrev pub polynomial : ℕ
polynomial = 0xEDB88320

-- `if (crc & 1) crc = (crc >> 1) ^ 0xEDB88320; else crc >>= 1;`
unfoldable pub shift_bit : ℕ → ℕ
shift_bit crc = if bit_and crc 1 == 0 then crc >>> 1 else bit_xor (crc >>> 1) polynomial

-- The loop over the bits.
unfoldable pub shift_bits : ℕ → ℕ → ℕ
shift_bits zero crc = crc
shift_bits (suc left) crc = shift_bits left (shift_bit crc)

-- The loop over the entries from `i` on, with `left` to go.
unfoldable pub make_table : (bits left i : ℕ) → List ℕ
make_table bits zero i = []
make_table bits (suc left) i = shift_bits bits i ∷ make_table bits left (i + 1)

unfoldable pub make_byte_table : List ℕ
make_byte_table = make_table 8 256 0

unfoldable pub make_nibble_table : List ℕ
make_nibble_table = make_table 4 16 0

-- The index is below the number of entries, so the value for an index out of range is never read.
unfoldable pub update_byte : (crc byte : ℕ) → List ℕ → ℕ
update_byte crc byte table = bit_xor (get_or table (bit_and (bit_xor crc byte) 0xff) 0) (crc >>> 8)

unfoldable pub update_nibble : (crc nibble : ℕ) → List ℕ → ℕ
update_nibble crc nibble table =
    bit_xor (get_or table (bit_and (bit_xor crc nibble) 0x0f) 0) (crc >>> 4)

unfoldable pub update_byte_via_nibble : (crc byte : ℕ) → List ℕ → ℕ
unfolding update_nibble
update_byte_via_nibble crc byte table =
    let crc' = update_nibble crc (u8 (bit_and byte 0x0f)) table in
    update_nibble crc' (u8 (byte >>> 4)) table

-- `(uint32_t)-(int32_t)(crc & 1u)`
unfoldable pub low_bit_mask : ℕ → ℕ
low_bit_mask crc = u32 (2 ^ 32 - bit_and crc 1)

unfoldable pub branchless_bit : ℕ → ℕ
unfolding low_bit_mask
branchless_bit crc = bit_xor (crc >>> 1) (bit_and polynomial (low_bit_mask crc))

unfoldable pub branchless_bits : ℕ → ℕ → ℕ
branchless_bits zero crc = crc
branchless_bits (suc left) crc = branchless_bits left (branchless_bit crc)

unfoldable pub crc_step : (crc byte : ℕ) → ℕ
crc_step crc byte = branchless_bits 8 (bit_xor crc byte)

-- The file's static variables.
pub record CrcState : Type 0 where
  pub crc_table : List ℕ
  pub crc_table_ready : Bool

-- Static storage starts out as zeros.
abbrev pub static_state : CrcState
static_state = record { crc_table = replicate 256 0; crc_table_ready = false }

unfoldable pub table_entries : (left i : ℕ) → List ℕ
table_entries zero i = []
table_entries (suc left) i = branchless_bits 8 i ∷ table_entries left (i + 1)

unfoldable pub crc_init_table : CrcState → CrcState
crc_init_table s =
    if s.crc_table_ready
    then s
    else record { crc_table = table_entries 256 0; crc_table_ready = true }

unfoldable pub table_loop : CrcState → ℕ → List ℕ → ℕ
table_loop s crc [] = crc
table_loop s crc (byte ∷ bytes) =
    table_loop s (bit_xor (get_or s.crc_table (bit_and (bit_xor crc byte) 0xff) 0) (crc >>> 8))
      bytes

-- `~crc` in 32 bits.
abbrev pub complement : ℕ → ℕ
complement crc = 2 ^ 32 - 1 - crc

unfoldable pub crc32_table : CrcState → List ℕ → ℕ
crc32_table s bytes = complement (table_loop s 0xffffffff bytes)

unfoldable pub branchless_loop : ℕ → List ℕ → ℕ
branchless_loop crc [] = crc
branchless_loop crc (byte ∷ bytes) = branchless_loop (crc_step crc byte) bytes

unfoldable pub crc32_branchless : List ℕ → ℕ
crc32_branchless bytes = complement (branchless_loop 0xffffffff bytes)
