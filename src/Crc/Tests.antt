-- ===== src/Crc/Tests.antt =====
-- The checksums at concrete bytes.
use linux.Base.{ℕ, ◌≡◌, refl, List, [], ◌∷◌, arith}
use linux.Crc.{
  update_byte, update_byte_via_nibble, make_byte_table, make_nibble_table, crc_init_table,
  static_state, crc32_table, crc32_branchless, branchless_loop, crc_step, branchless_bits,
  branchless_bit,
}
use linux.Crc.Tables.{update_byte_via_nibble_lem}
use linux.Crc.Checksum.{crc32_table-crc32_branchless}

-- The check value of CRC-32: the digits 1 to 9 in ASCII.
abbrev digits : List ℕ
digits = 49 ∷ 50 ∷ 51 ∷ 52 ∷ 53 ∷ 54 ∷ 55 ∷ 56 ∷ 57 ∷ []

check_value : crc32_branchless digits ≡ 0xcbf43926
unfolding crc32_branchless branchless_loop crc_step branchless_bits branchless_bit
check_value = refl

update_byte_via_nibble_lem_example :
    update_byte_via_nibble 0xffffffff 49 make_nibble_table
    ≡ update_byte 0xffffffff 49 make_byte_table
update_byte_via_nibble_lem_example = update_byte_via_nibble_lem 0xffffffff 49 (omega arith)

crc32_table-crc32_branchless_example :
    crc32_table (crc_init_table static_state) (49 ∷ 50 ∷ []) ≡ crc32_branchless (49 ∷ 50 ∷ [])
crc32_table-crc32_branchless_example =
    crc32_table-crc32_branchless (49 ∷ 50 ∷ []) (omega arith, (omega arith, tt))
