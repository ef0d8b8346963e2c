-- ===== src/Base/Bits.antt =====
-- The bit of a number at a place.
use Prim.Native.Nat.{ℕ, zero, suc, ◌+◌, ◌*◌, ◌/◌, ◌%◌, ◌^◌, ◌<◌, max, bit_or}
use mathlib.Core.Path.{◌≡◌, sym, ap, ◌∙◌}
use native.Mathlib.Nat.{pow-suc, div-add-mod', mod-lt}
use native.Mathlib.Omega.{arith}
use linux.Base.Digits.{bit_or_step}
use linux.Base.Pow.{shr_suc, shr_zero, two_pow_pos, fields_truncated}
use linux.Base.Tests.{◌==◌, if◌then◌else◌}

abbrev pub bit_at : (x k : ℕ) → ℕ
bit_at x k = x / 2 ^ k % 2

pub bit_at-zero : (x : ℕ) → bit_at x 0 ≡ x % 2
bit_at-zero x = ap (λ (t : ℕ). t % 2) (shr_zero x)

pub bit_at-suc : (x k : ℕ) → bit_at x (suc k) ≡ bit_at (x / 2) k
bit_at-suc x k = ap (λ (t : ℕ). t % 2) (shr_suc k x)

pub bit_at-none : (k : ℕ) → bit_at 0 k ≡ 0
bit_at-none zero = omega (arith, bit_at-zero 0)
bit_at-none (suc k) = omega (arith, bit_at-suc 0 k, bit_at-none k)

pub bit_at-bit_or : (k x y : ℕ) → bit_at (bit_or x y) k ≡ max (bit_at x k) (bit_at y k)
bit_at-bit_or zero x y =
    omega (arith, bit_at-zero x, bit_at-zero y, bit_at-zero (bit_or x y), bit_or_step x y)
bit_at-bit_or (suc k) x y =
    let half : bit_or x y / 2 ≡ bit_or (x / 2) (y / 2) = omega (arith, bit_or_step x y) in
    omega (
      arith,
      bit_at-suc x k,
      bit_at-suc y k,
      bit_at-suc (bit_or x y) k,
      ap (λ (t : ℕ). bit_at t k) half,
      bit_at-bit_or k (x / 2) (y / 2),
    )

-- A digit that is shifted up.
pub bit_at-shl : (j k b : ℕ) → b < 2 → bit_at (b * 2 ^ j) k ≡ (if j == k then b else 0)
bit_at-shl zero zero b h = omega (arith, bit_at-zero (b * 2 ^ 0))
bit_at-shl zero (suc k) b h =
    let half : b * 2 ^ 0 / 2 ≡ 0 = omega arith in
    ground (arith, bit_at-suc (b * 2 ^ 0) k, ap (λ (t : ℕ). bit_at t k) half, bit_at-none k)
bit_at-shl (suc j) zero b h = ground (arith, bit_at-zero (b * 2 ^ suc j), even)
  where
    even : b * 2 ^ suc j % 2 ≡ 0
    even = omega (arith, ap (λ (t : ℕ). b * t) (pow-suc 2 j))
bit_at-shl (suc j) (suc k) b h =
    ground
      (arith, bit_at-suc (b * 2 ^ suc j) k, ap (λ (t : ℕ). bit_at t k) half, bit_at-shl j k b h)
  where
    half : b * 2 ^ suc j / 2 ≡ b * 2 ^ j
    half = omega (arith, ap (λ (t : ℕ). b * t) (pow-suc 2 j))

mod-fields : (j k x : ℕ) → x % 2 ^ (j + k) ≡ x / 2 ^ k % 2 ^ j * 2 ^ k + x % 2 ^ k
mod-fields j k x =
    ap (λ (t : ℕ). t % 2 ^ (j + k)) (sym (div-add-mod' x (2 ^ k)))
    ∙ fields_truncated j k (x / 2 ^ k) (x % 2 ^ k) (mod-lt x (two_pow_pos k))

mod_step : (w x : ℕ) → x % 2 ^ suc w ≡ x / 2 % 2 ^ w * 2 + x % 2
mod_step w x = let e : suc w ≡ w + 1 = omega arith in ap (λ (t : ℕ). x % 2 ^ t) e ∙ mod-fields w 1 x

-- The bits that a width keeps.
pub bit_at-mod : (w k x : ℕ) → k < w → bit_at (x % 2 ^ w) k ≡ bit_at x k
bit_at-mod zero k x h = absurd (omega arith)
bit_at-mod (suc w) zero x h =
    omega (arith, mod_step w x, bit_at-zero x, bit_at-zero (x % 2 ^ suc w))
bit_at-mod (suc w) (suc k) x h =
    let half : x % 2 ^ suc w / 2 ≡ x / 2 % 2 ^ w = omega (arith, mod_step w x) in
    omega (
      arith,
      bit_at-suc x k,
      bit_at-suc (x % 2 ^ suc w) k,
      ap (λ (t : ℕ). bit_at t k) half,
      bit_at-mod w k (x / 2) (omega arith),
    )

-- One more digit.
pub mod-suc_bit : (k x : ℕ) → x % 2 ^ suc k ≡ bit_at x k * 2 ^ k + x % 2 ^ k
mod-suc_bit k x =
    let e : suc k ≡ 1 + k = omega arith in ap (λ (t : ℕ). x % 2 ^ t) e ∙ mod-fields 1 k x
