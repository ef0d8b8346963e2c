-- ===== src/Base/Pow.antt =====
-- Shifts by a variable number of places.
use Prim.Native.Nat.{ℕ, zero, suc, ◌+◌, ◌*◌, ◌/◌, ◌%◌, ◌^◌, ◌≤◌, ◌<◌}
use mathlib.Core.Path.{◌≡◌, ap, sym, ◌∙◌}
use native.Mathlib.Nat.{
  div-div-eq-div-mul, pow-suc, one-le-pow, add-mul-div_left, add-mul-mod_self_left, mod-eq_of_lt,
  mod-lt, div-add-mod, div-lt_iff_lt-mul,
}
use native.Mathlib.Omega.{arith}

pub two_pow_pos : (k : ℕ) → 0 < 2 ^ k
two_pow_pos k = one-le-pow k 2 (omega arith)

pub two_pow_add : (j k : ℕ) → 2 ^ (j + k) ≡ 2 ^ j * 2 ^ k
two_pow_add j zero = let e : j + 0 ≡ j = omega arith in rw e (omega arith)
two_pow_add j (suc k) =
    let e : j + suc k ≡ suc (j + k) = omega arith in
    rw (e, pow-suc 2 (j + k), pow-suc 2 k, two_pow_add j k) (omega arith)

-- A sum of two fields, shifted right inside the lower one.
pub shr_fields : (s k m r : ℕ) → (m * 2 ^ (s + k) + r) / 2 ^ s ≡ m * 2 ^ k + r / 2 ^ s
shr_fields s k m r =
    ap (λ (t : ℕ). t / 2 ^ s) regroup ∙ add-mul-div_left r (m * 2 ^ k) (two_pow_pos s) ∙ omega arith
  where
    regroup : m * 2 ^ (s + k) + r ≡ r + 2 ^ s * (m * 2 ^ k)
    regroup = omega (arith, ap (λ (t : ℕ). m * t) (two_pow_add s k))

-- What `j + k` bits keep of a sum of two fields, the lower of `k` bits.
pub fields_truncated :
    (j k m r : ℕ) → r < 2 ^ k → (m * 2 ^ k + r) % 2 ^ (j + k) ≡ m % 2 ^ j * 2 ^ k + r
fields_truncated j k m r h =
    ap (λ (t : ℕ). t % 2 ^ (j + k)) regroup
    ∙ add-mul-mod_self_left _ (2 ^ (j + k)) (m / 2 ^ j)
    ∙ mod-eq_of_lt fits
  where
    regroup : m * 2 ^ k + r ≡ m % 2 ^ j * 2 ^ k + r + 2 ^ (j + k) * (m / 2 ^ j)
    regroup = omega (
      arith,
      ap (λ (t : ℕ). t * (m / 2 ^ j)) (two_pow_add j k),
      ap (λ (t : ℕ). t * 2 ^ k) (div-add-mod m (2 ^ j)),
    )

    below : suc (m % 2 ^ j) * 2 ^ k ≤ 2 ^ j * 2 ^ k
    below = grind (arith, mod-lt m (two_pow_pos j))

    fits : m % 2 ^ j * 2 ^ k + r < 2 ^ (j + k)
    fits = omega (arith, two_pow_add j k, below)

-- What is left of a number of `s + k` bits after a shift by `s`.
pub shr-lt : (s k r : ℕ) → r < 2 ^ (s + k) → r / 2 ^ s < 2 ^ k
shr-lt s k r h = (div-lt_iff_lt-mul (two_pow_pos s)).1 (omega (arith, two_pow_add s k))

pub shr_zero : (a : ℕ) → a / 2 ^ 0 ≡ a
shr_zero a = omega arith

-- One place more is half of the number, moved by the places before.
pub shr_suc : (k a : ℕ) → a / 2 ^ suc k ≡ a / 2 / 2 ^ k
shr_suc k a =
    ap (λ (t : ℕ). a / t) (omega (arith, pow-suc 2 k)) ∙ sym (div-div-eq-div-mul a 2 (2 ^ k))
