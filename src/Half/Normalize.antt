-- ===== src/Half/Normalize.antt =====
-- The loop that moves the first bit of a subnormal significand to its place.
use linux.Base.{
  ℕ, zero, suc, ◌*◌, ◌/◌, ◌^◌, ◌≤◌, ◌<◌, ◌≡◌, refl, ap, ◌∙◌, arith, ◌==◌, bit_and, false, dec_lt,
}
use linux.Base.Digits.{bit_and-shl}
use linux.Base.Int.{ℤ, pos, ◌-ℤ◌, int_laws}
use linux.Base.Pow.{two_pow_pos}
use linux.Base.Run.{Gives, gives, Gives-weaken}
use native.Mathlib.Nat.{pow-suc, div-eq_of_lt, div-eq_of_lt-le}
use linux.Half.{normalize_loop}

-- The bit that the loop waits for, of a number below its double.
top_bit :
    (t x : ℕ)
    → x < 2 ^ suc t
    → (x < 2 ^ t → bit_and x (2 ^ t) ≡ 0) × (2 ^ t ≤ x → bit_and x (2 ^ t) ≡ 2 ^ t)
top_bit t x h = (
  λ low. masked ∙ ap (λ (q : ℕ). bit_and q 1 * 2 ^ t) (div-eq_of_lt low) ∙ omega arith,
  λ high.
      masked
      ∙ ap (λ (q : ℕ). bit_and q 1 * 2 ^ t)
          (div-eq_of_lt-le {k = 1} (2 ^ t) (omega arith) (omega (arith, pow-suc 2 t)))
      ∙ omega arith,
)
  where
    masked : bit_and x (2 ^ t) ≡ bit_and (x / 2 ^ t) 1 * 2 ^ t
    masked = ap (bit_and x) (omega arith) ∙ bit_and-shl t x 1

-- What the loop gives: the significand `j` places up, and the exponent lowered as often.
abbrev pub IsNormalized : (t x : ℕ) (e : ℤ) → ℕ × ℤ → Type 0
IsNormalized t x e (y, f) =
    (j : ℕ) × (y ≡ x * 2 ^ j) × (f ≡ e -ℤ pos j) × (2 ^ t ≤ y) × (y < 2 ^ suc t)

module _ (word : ℕ → ℕ) (t : ℕ) (keep : (n : ℕ) → n < 2 ^ suc t → word n ≡ n) where
  -- A round that finds the bit.
  round-found :
      (fuel x : ℕ) (e : ℤ)
      → x < 2 ^ suc t
      → 2 ^ t ≤ x
      → Gives (IsNormalized t x e) (normalize_loop word (2 ^ t) (suc fuel) x e)
  unfolding normalize_loop
  round-found fuel x e h high =
      let found : (2 ^ t == 0) ≡ false = ground (arith, two_pow_pos t) in
      rw ((top_bit t x h).1 high, found) (gives (x, e) (0, omega arith, omega int_laws, high, h))

  doubled : (j x : ℕ) → x * 2 * 2 ^ j ≡ x * 2 ^ suc j
  doubled j x = grind (arith, pow-suc 2 j)

  lowered_again : (e : ℤ) (j : ℕ) → e -ℤ pos 1 -ℤ pos j ≡ e -ℤ pos (suc j)
  lowered_again e j = omega int_laws

  round-goes_on :
      (fuel x : ℕ) (e : ℤ)
      → x < 2 ^ t
      → normalize_loop word (2 ^ t) (suc fuel) x e
        ≡ normalize_loop word (2 ^ t) fuel (x * 2) (e -ℤ pos 1)
  unfolding normalize_loop
  round-goes_on fuel x e low =
      let in_word : word (x * 2) ≡ x * 2 = keep (x * 2) (omega (arith, pow-suc 2 t)) in
      rw ((top_bit t x (omega (arith, pow-suc 2 t))).0 low, in_word) refl

  -- What a round that goes on leaves to the next ones.
  round-moved :
      (x y : ℕ) (e f : ℤ) → IsNormalized t (x * 2) (e -ℤ pos 1) (y, f) → IsNormalized t x e (y, f)
  round-moved x y e f (j, whole, lowered, high, low) =
      (suc j, whole ∙ doubled j x, lowered ∙ lowered_again e j, high, low)

  -- The loop ends: a number that is not 0 reaches the bit before the fuel is used up.
  pub normalize_loop-IsNormalized :
      (fuel x : ℕ) (e : ℤ)
      → x < 2 ^ suc t
      → 2 ^ t ≤ x * 2 ^ fuel
      → Gives (IsNormalized t x e) (normalize_loop word (2 ^ t) (suc fuel) x e)
  normalize_loop-IsNormalized zero x e h enough = round-found zero x e h (omega arith)
  normalize_loop-IsNormalized (suc fuel) x e h enough = elim (dec_lt x (2 ^ t)) [
    | no high ↦ round-found (suc fuel) x e h (omega arith)
    | yes low ↦ rw (round-goes_on (suc fuel) x e low) (
        Gives-weaken (λ (y, f) p. round-moved x y e f p)
          (normalize_loop-IsNormalized fuel (x * 2) (e -ℤ pos 1) (omega (arith, pow-suc 2 t))
            (omega (arith, doubled fuel x))))
  ]
