-- ===== src/Base/Digits.antt =====
-- Laws of `&` and `|` at variables, and one equation for the lowest digit of each operation.
use Prim.Native.Nat.{digits, bitwise, bit_and-bitwise, bit_or-bitwise, bit_xor-bitwise, differ}
use Prim.Native.Nat.{ℕ, zero, suc, ◌+◌, ◌-◌, ◌*◌, ◌/◌, ◌%◌, ◌^◌, ◌≤◌, ◌<◌, min, max}
use Prim.Native.Nat.{bit_and, bit_or, bit_xor}
use mathlib.Core.Path.{◌≡◌, refl, ap, ap₂, sym, ◌∙◌}
use native.Mathlib.Nat.{le_refl, pow-suc, one-le-pow, mod-lt}
use native.Mathlib.Omega.{arith}
use linux.Base.Pow.{shr_suc, shr_zero}

module _ (z : ℕ → ℕ) (f : ℕ → ℕ → ℕ) where
  -- One more unit of fuel than the first number changes no digit, and so any number of units.
  one_spare : (n a b : ℕ) → a ≤ n → digits z f (suc n) a b ≡ digits z f n a b
  one_spare zero zero b h = refl
  one_spare (suc n) zero b h = refl
  one_spare zero (suc a) b h = absurd (omega arith)
  one_spare (suc n) (suc a) b h = rw (one_spare n (suc a / 2) (b / 2) (omega arith))

  many_spare : (k n a b : ℕ) → a ≤ n → digits z f (n + k) a b ≡ digits z f n a b
  many_spare zero n a b h = ap (λ (t : ℕ). digits z f t a b) (omega arith)
  many_spare (suc k) n a b h =
      ap (λ (t : ℕ). digits z f t a b) one_more
      ∙ one_spare (n + k) a b (omega arith)
      ∙ many_spare k n a b h
    where
      one_more : n + suc k ≡ suc (n + k)
      one_more = omega arith

  lowest_digit :
      (a b : ℕ)
      → bitwise z f (suc a) b ≡ f (suc a % 2) (b % 2) + 2 * bitwise z f (suc a / 2) (b / 2)
  lowest_digit a b =
      let half = suc a / 2 in
      let all_of_it : half + (a - half) ≡ a = omega arith in
      let fewer = many_spare (a - half) half half (b / 2) (le_refl half) in
      omega (arith, fewer, ap (λ (t : ℕ). digits z f t half (b / 2)) all_of_it)

-- The lowest digit of `&` is the lesser of the two digits, that of `|` the greater.
pub bit_and_step : (a b : ℕ) → bit_and a b ≡ min (a % 2) (b % 2) + 2 * bit_and (a / 2) (b / 2)
bit_and_step zero b = simp bit_and-bitwise (omega arith)
bit_and_step (suc a) b = omega (
  arith,
  bit_and-bitwise (suc a) b,
  bit_and-bitwise (suc a / 2) (b / 2),
  lowest_digit (λ y. 0) min a b,
)

pub bit_or_step : (a b : ℕ) → bit_or a b ≡ max (a % 2) (b % 2) + 2 * bit_or (a / 2) (b / 2)
bit_or_step zero b = simp bit_or-bitwise (omega arith)
bit_or_step (suc a) b = omega (
  arith,
  bit_or-bitwise (suc a) b,
  bit_or-bitwise (suc a / 2) (b / 2),
  lowest_digit (λ y. y) max a b,
)

differ_digits : (x y : ℕ) → x < 2 → y < 2 → differ x y ≡ (x + y) % 2
differ_digits zero zero p q = refl
differ_digits zero (suc zero) p q = refl
differ_digits (suc zero) zero p q = refl
differ_digits (suc zero) (suc zero) p q = refl
differ_digits zero (suc (suc y)) p q = absurd (omega arith)
differ_digits (suc zero) (suc (suc y)) p q = absurd (omega arith)
differ_digits (suc (suc x)) y p q = absurd (omega arith)

pub bit_xor_step : (a b : ℕ) → bit_xor a b ≡ bit_xor (a / 2) (b / 2) * 2 + (a % 2 + b % 2) % 2
bit_xor_step zero b = simp bit_xor-bitwise (omega arith)
bit_xor_step (suc a) b = omega (
  arith,
  bit_xor-bitwise (suc a) b,
  bit_xor-bitwise (suc a / 2) (b / 2),
  lowest_digit (λ y. y) differ a b,
  differ_digits (suc a % 2) (b % 2) (omega arith) (omega arith),
)

-- Each law is proved for the numbers up to a bound, since the digits go from `a` to `a / 2`.
or_zero_upto : (n a : ℕ) → a ≤ n → bit_or a 0 ≡ a
or_zero_upto zero a h = let e : a ≡ 0 = omega arith in rw e
or_zero_upto (suc n) a h = omega (arith, bit_or_step a 0, or_zero_upto n (a / 2) (omega arith))

pub bit_or-zero : (a : ℕ) → bit_or a 0 ≡ a
bit_or-zero a = or_zero_upto a a (le_refl a)

pub zero-bit_or : (b : ℕ) → bit_or 0 b ≡ b
zero-bit_or b = bit_or-bitwise 0 b

pub zero-bit_and : (b : ℕ) → bit_and 0 b ≡ 0
zero-bit_and b = bit_and-bitwise 0 b

and_zero_upto : (n a : ℕ) → a ≤ n → bit_and a 0 ≡ 0
and_zero_upto zero a h = let e : a ≡ 0 = omega arith in rw e
and_zero_upto (suc n) a h = omega (arith, bit_and_step a 0, and_zero_upto n (a / 2) (omega arith))

pub bit_and-zero : (a : ℕ) → bit_and a 0 ≡ 0
bit_and-zero a = and_zero_upto a a (le_refl a)

double_pow : (q k : ℕ) → q * 2 ^ suc k ≡ 2 * (q * 2 ^ k)
double_pow q k = omega (arith, ap (λ (t : ℕ). q * t) (pow-suc 2 k))

-- `(q << k) | r` is a sum where `r` fits in `k` bits.
pub bit_or_disjoint : (k q r : ℕ) → r < 2 ^ k → bit_or (q * 2 ^ k) r ≡ q * 2 ^ k + r
bit_or_disjoint zero q r h =
    let e : r ≡ 0 = omega arith in rw e (omega (arith, bit_or-zero (q * 1)))
bit_or_disjoint (suc k) q r h = omega (
  arith,
  bit_or_step (q * 2 ^ suc k) r,
  double_pow q k,
  pow-suc 2 k,
  bit_or_disjoint k q (r / 2) (omega (arith, pow-suc 2 k)),
  ap (λ (t : ℕ). bit_or t (r / 2)) (halved q k),
)
  where
    halved : (q k : ℕ) → q * 2 ^ suc k / 2 ≡ q * 2 ^ k
    halved q k = omega (arith, double_pow q k)

mask_fields : (k q r : ℕ) → r < 2 ^ k → bit_and (q * 2 ^ k + r) (2 ^ k - 1) ≡ r
mask_fields zero q r h = omega (arith, bit_and-zero (q * 1 + r))
mask_fields (suc k) q r h = omega (
  arith,
  bit_and_step (q * 2 ^ suc k + r) (2 ^ suc k - 1),
  double_pow q k,
  pow-suc 2 k,
  mask_fields k q (r / 2) (omega (arith, pow-suc 2 k)),
  ap₂ bit_and high shorter,
)
  where
    shorter : (2 ^ suc k - 1) / 2 ≡ 2 ^ k - 1
    shorter = omega (arith, pow-suc 2 k, one-le-pow k 2)

    high : (q * 2 ^ suc k + r) / 2 ≡ q * 2 ^ k + r / 2
    high = omega (arith, double_pow q k)

-- `a & (2^k - 1)` is the remainder by `2^k`.
pub bit_and_mask : (k a : ℕ) → bit_and a (2 ^ k - 1) ≡ a % 2 ^ k
bit_and_mask k a =
    ap (λ (t : ℕ). bit_and t (2 ^ k - 1)) (split a (2 ^ k))
    ∙ mask_fields k (a / 2 ^ k) (a % 2 ^ k) (mod-lt a (one-le-pow k 2 (omega arith)))
  where
    split : (a m : ℕ) → a ≡ a / m * m + a % m
    split a m = grind arith

and_comm_upto : (n a b : ℕ) → a ≤ n → b ≤ n → bit_and a b ≡ bit_and b a
and_comm_upto zero a b h k = let e : a ≡ 0 = omega arith in let f : b ≡ 0 = omega arith in rw (e, f)
and_comm_upto (suc n) a b h k = omega (
  arith,
  bit_and_step a b,
  bit_and_step b a,
  and_comm_upto n (a / 2) (b / 2) (omega arith) (omega arith),
)

pub bit_and_comm : (a b : ℕ) → bit_and a b ≡ bit_and b a
bit_and_comm a b = and_comm_upto (a + b) a b (omega arith) (omega arith)

or_comm_upto : (n a b : ℕ) → a ≤ n → b ≤ n → bit_or a b ≡ bit_or b a
or_comm_upto zero a b h k = let e : a ≡ 0 = omega arith in let f : b ≡ 0 = omega arith in rw (e, f)
or_comm_upto (suc n) a b h k = omega (
  arith,
  bit_or_step a b,
  bit_or_step b a,
  or_comm_upto n (a / 2) (b / 2) (omega arith) (omega arith),
)

pub bit_or_comm : (a b : ℕ) → bit_or a b ≡ bit_or b a
bit_or_comm a b = or_comm_upto (a + b) a b (omega arith) (omega arith)

-- A mask whose `k` low bits are clear reads the number from bit `k` on.
pub bit_and-shl : (k a m : ℕ) → bit_and a (m * 2 ^ k) ≡ bit_and (a / 2 ^ k) m * 2 ^ k
bit_and-shl zero a m = ap₂ bit_and (sym (shr_zero a)) once ∙ sym (times_one (bit_and (a / 2 ^ 0) m))
  where
    times_one : (t : ℕ) → t * 2 ^ 0 ≡ t
    times_one t = omega arith

    once : m * 2 ^ 0 ≡ m
    once = times_one m
bit_and-shl (suc k) a m = omega (
  arith,
  bit_and_step a (m * 2 ^ suc k),
  double_pow m k,
  ap (bit_and (a / 2)) halved,
  bit_and-shl k (a / 2) m,
  double_pow (bit_and (a / 2 ^ suc k) m) k,
  ap (λ (t : ℕ). bit_and t m * 2 ^ k) (shr_suc k a),
)
  where
    halved : m * 2 ^ suc k / 2 ≡ m * 2 ^ k
    halved = omega (arith, double_pow m k)
