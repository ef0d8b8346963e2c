-- ===== src/Crc/Linear.antt =====
-- One bit of the CRC is linear, and shifting in zeros undoes a shift: so tables may be used.
use linux.Base.{
  ℕ, zero, suc, ◌+◌, ◌*◌, ◌/◌, ◌%◌, ◌^◌, ◌≡◌, refl, ap, ap₂, sym, ◌∙◌, arith, ◌==◌, if◌then◌else◌,
  bit_and, bit_xor, ℕ_discrete,
}
use linux.Base.Digits.{bit_and_mask}
use linux.Base.Xor.{
  xor_half, xor_parity, xor-zero, zero-xor, xor_self, xor_comm, xor_swap_middle, xor_disjoint,
}
use native.Mathlib.Nat.{pow-suc, div-add-mod, mod-lt}
use linux.Base.Pow.{two_pow_pos}
use linux.Crc.{polynomial, shift_bit, shift_bits, branchless_bit, branchless_bits}

abbrev feedback : ℕ → ℕ
feedback c = if c % 2 == 0 then 0 else polynomial

pub shift_bit_lem : (c : ℕ) → shift_bit c ≡ bit_xor (c / 2) (feedback c)
unfolding shift_bit
shift_bit_lem c = ground (arith, bit_and_mask 1 c, xor-zero (c / 2))

feedback-xor : (a b : ℕ) → feedback (bit_xor a b) ≡ bit_xor (feedback a) (feedback b)
feedback-xor a b = ground (
  arith,
  xor_parity a b,
  xor-zero polynomial,
  zero-xor polynomial,
  xor_self polynomial,
  xor_self 0,
)

shift_bit-xor : (a b : ℕ) → shift_bit (bit_xor a b) ≡ bit_xor (shift_bit a) (shift_bit b)
shift_bit-xor a b =
    shift_bit_lem (bit_xor a b)
    ∙ ap₂ bit_xor (xor_half a b) (feedback-xor a b)
    ∙ xor_swap_middle (a / 2) (b / 2) (feedback a) (feedback b)
    ∙ sym (ap₂ bit_xor (shift_bit_lem a) (shift_bit_lem b))

pub shift_bits-xor :
    (n a b : ℕ) → shift_bits n (bit_xor a b) ≡ bit_xor (shift_bits n a) (shift_bits n b)
unfolding shift_bits
shift_bits-xor zero a b = refl
shift_bits-xor (suc n) a b = rw (shift_bit-xor a b) (shift_bits-xor n (shift_bit a) (shift_bit b))

pub shift_bits-shl : (n h : ℕ) → shift_bits n (h * 2 ^ n) ≡ h
unfolding shift_bits
shift_bits-shl zero h = omega arith
shift_bits-shl (suc n) h =
    ap (shift_bits n) (shift_bit_lem (h * 2 ^ suc n) ∙ halved) ∙ shift_bits-shl n h
  where
    double : h * 2 ^ suc n ≡ 2 * (h * 2 ^ n)
    double = omega (arith, ap (λ (t : ℕ). h * t) (pow-suc 2 n))

    halved : bit_xor (h * 2 ^ suc n / 2) (feedback (h * 2 ^ suc n)) ≡ h * 2 ^ n
    halved =
        let even : h * 2 ^ suc n % 2 ≡ 0 = omega (arith, double) in
        let half : h * 2 ^ suc n / 2 ≡ h * 2 ^ n = omega (arith, double) in
        rw (even, half) (xor-zero (h * 2 ^ n))

pub shift_bits-add : (m n c : ℕ) → shift_bits (m + n) c ≡ shift_bits n (shift_bits m c)
unfolding shift_bits
shift_bits-add zero n c = let e : 0 + n ≡ n = omega arith in rw e
shift_bits-add (suc m) n c =
    let e : suc m + n ≡ suc (m + n) = omega arith in rw e (shift_bits-add m n (shift_bit c))

-- The high part of a number is only shifted, and its low part passes through the table.
pub shift_bits_split : (n c : ℕ) → shift_bits n c ≡ bit_xor (shift_bits n (c % 2 ^ n)) (c / 2 ^ n)
shift_bits_split n c =
    ap (shift_bits n) (sym whole)
    ∙ shift_bits-xor n (c / 2 ^ n * 2 ^ n) (c % 2 ^ n)
    ∙ ap (λ (t : ℕ). bit_xor t (shift_bits n (c % 2 ^ n))) (shift_bits-shl n (c / 2 ^ n))
    ∙ xor_comm (c / 2 ^ n) (shift_bits n (c % 2 ^ n))
  where
    whole : bit_xor (c / 2 ^ n * 2 ^ n) (c % 2 ^ n) ≡ c
    whole =
        xor_disjoint n (c / 2 ^ n) (c % 2 ^ n) (mod-lt c (two_pow_pos n))
        ∙ omega (arith, div-add-mod c (2 ^ n))

-- Masking instead of branching changes nothing.
pub branchless_bit_lem : (c : ℕ) → branchless_bit c ≡ shift_bit c
unfolding branchless_bit shift_bit
branchless_bit_lem c = elim (ℕ_discrete (bit_and c 1) 0) [
  | yes e ↦ rw e (xor-zero (c / 2))
  | no ne ↦ let e : bit_and c 1 ≡ 1 = omega (arith, bit_and_mask 1 c) in rw e
]

pub branchless_bits_lem : (n c : ℕ) → branchless_bits n c ≡ shift_bits n c
unfolding branchless_bits shift_bits
branchless_bits_lem zero c = refl
branchless_bits_lem (suc n) c = rw (branchless_bit_lem c) (branchless_bits_lem n (shift_bit c))
