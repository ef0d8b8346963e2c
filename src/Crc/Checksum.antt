-- ===== src/Crc/Checksum.antt =====
-- The checksum by table and the branchless checksum are one.
use linux.Base.{
  ℕ, zero, suc, ◌+◌, ◌/◌, ◌<◌, ◌^◌, ◌≡◌, refl, ap, sym, ◌∙◌, List, [], ◌∷◌, get_or, bit_xor,
  bit_and, arith,
}
use linux.Base.All.{All}
use linux.Crc.{
  CrcState, static_state, make_table, make_byte_table, update_byte, branchless_bits, crc_step,
  table_entries, crc_init_table, table_loop, crc32_table, branchless_loop, crc32_branchless,
  complement,
}
use linux.Crc.Linear.{branchless_bits_lem}
use linux.Crc.Tables.{update_byte-shift_bits}

abbrev pub IsByte : ℕ → Type 0
IsByte b = b < 256

table_entries-make_table : (left i : ℕ) → table_entries left i ≡ make_table 8 left i
unfolding table_entries make_table
table_entries-make_table zero i = refl
table_entries-make_table (suc left) i =
    rw (branchless_bits_lem 8 i, table_entries-make_table left (i + 1))

init_table : (crc_init_table static_state).crc_table ≡ make_byte_table
unfolding crc_init_table make_byte_table
init_table = table_entries-make_table 256 0

-- From the static zeros `crc_init_table` fills in the same table as `make_byte_table` of the other
-- file, and from any state a second call changes nothing.
pub crc_init_table_lem :
    (s : CrcState)
    → ((crc_init_table static_state).crc_table ≡ make_byte_table)
      × (crc_init_table (crc_init_table s) ≡ crc_init_table s)
unfolding crc_init_table
crc_init_table_lem s = (init_table, ground arith)

table_loop-branchless_loop :
    (s : CrcState) (crc : ℕ) (bytes : List ℕ)
    → s.crc_table ≡ make_byte_table
    → All IsByte bytes
    → table_loop s crc bytes ≡ branchless_loop crc bytes
unfolding table_loop branchless_loop crc_step update_byte
table_loop-branchless_loop s crc [] e h = refl
table_loop-branchless_loop s crc (byte ∷ bytes) e (small, rest) = rw e (
    ap (λ (c : ℕ). table_loop s c bytes) one
    ∙ table_loop-branchless_loop s (crc_step crc byte) bytes e rest)
  where
    one :
        bit_xor (get_or make_byte_table (bit_and (bit_xor crc byte) 0xff) 0) (crc / 2 ^ 8)
        ≡ branchless_bits 8 (bit_xor crc byte)
    one = update_byte-shift_bits crc byte small ∙ sym (branchless_bits_lem 8 (bit_xor crc byte))

-- After the table is filled, from the static zeros, the checksum by table of any bytes is the
-- branchless one.
pub crc32_table-crc32_branchless :
    (bytes : List ℕ)
    → All IsByte bytes
    → crc32_table (crc_init_table static_state) bytes ≡ crc32_branchless bytes
unfolding crc32_table crc32_branchless
crc32_table-crc32_branchless bytes h =
    ap complement (table_loop-branchless_loop _ 0xffffffff bytes init_table h)
