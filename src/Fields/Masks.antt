-- ===== src/Fields/Masks.antt =====
-- `&` and `|` work on two fields apart.
use linux.Base.{
  ℕ, zero, suc, ◌+◌, ◌*◌, ◌/◌, ◌%◌, ◌^◌, ◌<◌, ◌≡◌, refl, ap, bit_and, bit_or, min, max, arith,
}
use native.Mathlib.Nat.{pow-suc}
use linux.Base.Digits.{bit_and_step, bit_or_step}

fields_lowest :
    (k q r : ℕ)
    → r < 2 ^ suc k
    → ((q * 2 ^ suc k + r) / 2 ≡ q * 2 ^ k + r / 2)
      × ((q * 2 ^ suc k + r) % 2 ≡ r % 2)
      × (r / 2 < 2 ^ k)
fields_lowest k q r h = (omega (arith, doubled), omega (arith, doubled), omega (arith, pow-suc 2 k))
  where
    doubled : q * 2 ^ suc k ≡ 2 * (q * 2 ^ k)
    doubled = omega (arith, ap (λ (t : ℕ). q * t) (pow-suc 2 k))

module _ (f : ℕ → ℕ → ℕ) (g : ℕ → ℕ → ℕ)
    (step : (a b : ℕ) → f a b ≡ g (a % 2) (b % 2) + 2 * f (a / 2) (b / 2))
    (nothing : f 0 0 ≡ 0) where
  -- An operation that works digit by digit works on a high and a low field apart.
  on_fields :
      (k q q' r r' : ℕ)
      → r < 2 ^ k
      → r' < 2 ^ k
      → f (q * 2 ^ k + r) (q' * 2 ^ k + r') ≡ f q q' * 2 ^ k + f r r'
  on_fields zero q q' r r' h h' =
      let e : r ≡ 0 = omega arith in
      let e' : r' ≡ 0 = omega arith in
      let whole : q * 1 + 0 ≡ q = omega arith in
      let whole' : q' * 1 + 0 ≡ q' = omega arith in rw (e, e', whole, whole', nothing) (omega arith)
  on_fields (suc k) q q' r r' h h' =
      let (half, digit, below) = fields_lowest k q r h in
      let (half', digit', below') = fields_lowest k q' r' h' in
      let smaller = on_fields k q q' (r / 2) (r' / 2) below below' in
      let split =
        rw (half, half', digit, digit', smaller) at
          (step (q * 2 ^ suc k + r) (q' * 2 ^ suc k + r')) in
      omega (arith, split, step r r', ap (λ (t : ℕ). f q q' * t) (pow-suc 2 k))

pub and_fields :
    (k q q' r r' : ℕ)
    → r < 2 ^ k
    → r' < 2 ^ k
    → bit_and (q * 2 ^ k + r) (q' * 2 ^ k + r') ≡ bit_and q q' * 2 ^ k + bit_and r r'
and_fields k q q' r r' h h' = on_fields bit_and min bit_and_step refl k q q' r r' h h'

pub or_fields :
    (k q q' r r' : ℕ)
    → r < 2 ^ k
    → r' < 2 ^ k
    → bit_or (q * 2 ^ k + r) (q' * 2 ^ k + r') ≡ bit_or q q' * 2 ^ k + bit_or r r'
or_fields k q q' r r' h h' = on_fields bit_or max bit_or_step refl k q q' r r' h h'
