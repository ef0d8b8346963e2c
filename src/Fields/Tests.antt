-- ===== src/Fields/Tests.antt =====
-- The words that bitfield_lab.c checks.
use linux.Base.{◌+◌, ◌*◌, ◌/◌, ◌%◌, ◌^◌, ◌≡◌, refl, arith}
use linux.Fields.{replace_nbytes}
use linux.Fields.Replace.{replace_nbytes_lem}

middle_bytes : replace_nbytes 0x12345678 1 2 0xABCD ≡ 0x12ABCD78
unfolding replace_nbytes
middle_bytes = refl

replace_nbytes_lem_example :
    replace_nbytes 0x12345678 1 2 0xABCD
    ≡ 0x12345678 / 2 ^ 24 * 2 ^ 24 + 0xABCD % 2 ^ 16 * 2 ^ 8 + 0x12345678 % 2 ^ 8
replace_nbytes_lem_example =
    replace_nbytes_lem 0x12345678 1 2 0xABCD (omega arith) (omega arith) (omega arith)
