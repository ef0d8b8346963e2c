-- ===== src/Crc/Tables.antt =====
-- The tables hold the bit loop's results, so an update by a table is the bit loop.
use linux.Base.{
  ℕ, zero, suc, ◌+◌, ◌*◌, ◌/◌, ◌%◌, ◌^◌, ◌<◌, ◌≡◌, ap, ap₂, sym, ◌∙◌, arith, get_or, bit_and,
  bit_xor,
}
use linux.Base.Digits.{bit_and_mask}
use linux.Base.Xor.{xor-shr, xor-zero, xor_assoc, xor_comm, xor_disjoint}
use linux.Base.Word.{u8}
use linux.Crc.{
  shift_bits, make_table, make_byte_table, make_nibble_table, update_byte, update_nibble,
  update_byte_via_nibble,
}
use linux.Crc.Linear.{shift_bits_split, shift_bits-xor, shift_bits-shl, shift_bits-add}

make_table-get_or :
    (bits left i j : ℕ) → j < left → get_or (make_table bits left i) j 0 ≡ shift_bits bits (i + j)
unfolding make_table
make_table-get_or bits zero i j h = absurd (omega arith)
make_table-get_or bits (suc left) i zero h = ap (shift_bits bits) (omega arith)
make_table-get_or bits (suc left) i (suc j) h =
    make_table-get_or bits left (i + 1) j (omega arith) ∙ ap (shift_bits bits) (omega arith)

-- A byte or nibble stands in the low bits alone.
xor_shr_small : (k c b : ℕ) → b / 2 ^ k ≡ 0 → bit_xor c b / 2 ^ k ≡ c / 2 ^ k
xor_shr_small k c b h = xor-shr k c b ∙ ap (bit_xor (c / 2 ^ k)) h ∙ xor-zero (c / 2 ^ k)

-- Updating by the table of 256 entries is eight rounds of the bit loop.
pub update_byte-shift_bits :
    (crc byte : ℕ)
    → byte < 256
    → update_byte crc byte make_byte_table ≡ shift_bits 8 (bit_xor crc byte)
unfolding update_byte make_byte_table
update_byte-shift_bits crc byte h =
    ap₂ bit_xor
      (ap (λ (t : ℕ). get_or (make_table 8 256 0) t 0) (bit_and_mask 8 c)
        ∙ make_table-get_or 8 256 0 (c % 2 ^ 8) (omega arith)
        ∙ ap (shift_bits 8) (omega arith))
      (sym (xor_shr_small 8 crc byte (omega arith)))
    ∙ sym (shift_bits_split 8 c)
  where
    c : ℕ
    c = bit_xor crc byte

update_nibble-shift_bits :
    (crc nibble : ℕ)
    → nibble < 16
    → update_nibble crc nibble make_nibble_table ≡ shift_bits 4 (bit_xor crc nibble)
unfolding update_nibble make_nibble_table
update_nibble-shift_bits crc nibble h =
    ap₂ bit_xor
      (ap (λ (t : ℕ). get_or (make_table 4 16 0) t 0) (bit_and_mask 4 c)
        ∙ make_table-get_or 4 16 0 (c % 2 ^ 4) (omega arith)
        ∙ ap (shift_bits 4) (omega arith))
      (sym (xor_shr_small 4 crc nibble (omega arith)))
    ∙ sym (shift_bits_split 4 c)
  where
    c : ℕ
    c = bit_xor crc nibble

-- Two updates by the table of 16 entries, low nibble first, do what one by the table of 256 does.
pub update_byte_via_nibble_lem :
    (crc byte : ℕ)
    → byte < 256
    → update_byte_via_nibble crc byte make_nibble_table ≡ update_byte crc byte make_byte_table
unfolding update_byte_via_nibble
update_byte_via_nibble_lem crc byte h =
    rw (low_nibble, high_nibble)
      (update_nibble-shift_bits (update_nibble crc lo make_nibble_table) hi (omega arith)
        ∙ ap (λ (t : ℕ). shift_bits 4 (bit_xor t hi))
            (update_nibble-shift_bits crc lo (omega arith))
        ∙ ap (shift_bits 4) (sym pushed)
        ∙ sym (shift_bits-add 4 4 (bit_xor crc byte))
        ∙ sym (update_byte-shift_bits crc byte h))
  where
    lo : ℕ
    lo = byte % 16

    hi : ℕ
    hi = byte / 16

    low_nibble : u8 (bit_and byte 0x0f) ≡ byte % 16
    low_nibble = omega (arith, bit_and_mask 4 byte)

    high_nibble : u8 (byte / 2 ^ 4) ≡ byte / 16
    high_nibble = omega arith

    joined : bit_xor lo (hi * 2 ^ 4) ≡ byte
    joined = xor_comm lo (hi * 2 ^ 4) ∙ xor_disjoint 4 hi lo (omega arith) ∙ omega arith

    pushed : shift_bits 4 (bit_xor crc byte) ≡ bit_xor (shift_bits 4 (bit_xor crc lo)) hi
    pushed =
        ap (λ (t : ℕ). shift_bits 4 (bit_xor crc t)) (sym joined)
        ∙ ap (shift_bits 4) (sym (xor_assoc crc lo (hi * 2 ^ 4)))
        ∙ shift_bits-xor 4 (bit_xor crc lo) (hi * 2 ^ 4)
        ∙ ap (bit_xor (shift_bits 4 (bit_xor crc lo))) (shift_bits-shl 4 hi)
