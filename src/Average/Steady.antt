-- ===== src/Average/Steady.antt =====
-- Bounds of the average, and where it comes to rest.
use linux.Base.{
  ℕ, zero, suc, ◌+◌, ◌-◌, ◌*◌, ◌/◌, ◌^◌, ◌≤◌, ◌<◌, ◌≡◌, ◌≢◌, refl, ap, ◌∙◌, arith, ℕ_discrete, List,
  get_or,
}
use linux.Base.Pow.{two_pow_pos}
use linux.Base.Word.{u64}
use native.Mathlib.Nat.{
  div-add-mod', mod-lt, div-le_self, mod-eq_of_lt, div-mul-le_self, le-div_iff_mul-le,
  add-div_right, le_refl,
}
use linux.Average.{sample_value, next_internal, internal_from}

-- The step without the wrap-around, for a target `x << precision` of at most 63 bits.
plain : (d target f : ℕ) → ℕ
plain d target f = f - f / d + target / d

next_internal-plain :
    (s p x f : ℕ)
    → x * 2 ^ p < 2 ^ 63
    → f < 2 ^ 63
    → next_internal s p x f ≡ plain (2 ^ s) (x * 2 ^ p) f
unfolding next_internal plain
next_internal-plain s p x f h l =
    let word : u64 (x * 2 ^ p) ≡ x * 2 ^ p = mod-eq_of_lt (omega arith) in
    rw word (omega (arith, div-le_self f (2 ^ s), div-le_self (x * 2 ^ p) (2 ^ s)))

div_mono : (d a b : ℕ) → 0 < d → a ≤ b → a / d ≤ b / d
div_mono d a b p h = (le-div_iff_mul-le p).1 (omega (arith, div-mul-le_self a d))

-- A quotient grows by at most what the number grows by.
div-add-le : (d a k : ℕ) → 0 < d → (a + k) / d ≤ a / d + k
div-add-le d a zero p = omega (arith, ap (λ (t : ℕ). t / d) (add-zero a))
  where
    add-zero : (a : ℕ) → a + 0 ≡ a
    add-zero a = omega arith
div-add-le d a (suc k) p = omega (
  arith,
  div_mono d (a + suc k) (a + k + d) p (omega arith),
  add-div_right (a + k) p,
  div-add-le d a k p,
)

div-grows : (d a b : ℕ) → 0 < d → a ≤ b → b / d + a ≤ a / d + b
div-grows d a b p h =
    let whole : a + (b - a) ≡ b = omega arith in
    omega (arith, div-add-le d a (b - a) p, ap (λ (t : ℕ). t / d) whole)

-- The average of values up to a bound stays below it.
plain-le : (d target f m : ℕ) → 0 < d → target ≤ m → f ≤ m → plain d target f ≤ m
unfolding plain
plain-le d target f m p h l =
    omega (arith, div-grows d f m p l, div_mono d target m p h, div-le_self f d, div-le_self m d)

plain-rests : (d target f : ℕ) → f / d ≡ target / d → plain d target f ≡ f
unfolding plain
plain-rests d target f e = omega (arith, div-le_self f d)

plain-rises : (d target f : ℕ) → 0 < d → f ≤ target → f / d ≢ target / d → f + 1 ≤ plain d target f
unfolding plain
plain-rises d target f p h ne = omega (arith, div_mono d f target p h, div-le_self f d)

-- At rest the average is less than `d` below its target.
rest-near : (d target f : ℕ) → 0 < d → f / d ≡ target / d → target < f + d
rest-near d target f p e =
    omega
      (arith, div-add-mod' target d, mod-lt target p, div-mul-le_self f d, ap (λ (t : ℕ). t * d) e)

sample_value-le : (name : List ℕ) (step : ℕ) → sample_value name step ≤ 100
unfolding sample_value
sample_value-le name step = ground arith

scaled-le : (a b c : ℕ) → a ≤ b → a * c ≤ b * c
scaled-le a b c h = grind arith

-- For every sequence, weight and number of steps the internal value stays at most 100 in the given
-- precision, where that fits in 63 bits, so that no step wraps around.
pub internal_from-le :
    (left step : ℕ) (sequence : List ℕ) (weight_shift precision fixed_internal : ℕ)
    → 100 * 2 ^ precision < 2 ^ 63
    → fixed_internal ≤ 100 * 2 ^ precision
    → internal_from left step sequence weight_shift precision fixed_internal ≤ 100 * 2 ^ precision
unfolding internal_from
internal_from-le zero step sequence s p f h l = l
internal_from-le (suc left) step sequence s p f h l =
    let x = sample_value sequence step in
    let small =
      scaled-le (sample_value sequence step) 100 (2 ^ p) (sample_value-le sequence step) in
    internal_from-le left (step + 1) sequence s p (next_internal s p x f) h (
      rw (next_internal-plain s p x f (omega arith) (omega arith)) (
        plain-le (2 ^ s) (sample_value sequence step * 2 ^ p) f (100 * 2 ^ p) (two_pow_pos s) small
          l))

constant_sample : (name : List ℕ) (step : ℕ) → get_or name 0 0 ≡ b'c' → sample_value name step ≡ 100
unfolding sample_value
constant_sample name step e = rw e refl

module _ (sequence : List ℕ) (s p : ℕ) (constant : get_or sequence 0 0 ≡ b'c')
    (h : 100 * 2 ^ p < 2 ^ 63) where
  constant_step :
      (step f : ℕ)
      → f ≤ 100 * 2 ^ p
      → next_internal s p (sample_value sequence step) f ≡ plain (2 ^ s) (100 * 2 ^ p) f
  constant_step step f l =
      rw (constant_sample sequence step constant) (next_internal-plain s p 100 f h (omega arith))

  -- Once at rest, always at rest.
  stays :
      (left step f : ℕ)
      → f ≤ 100 * 2 ^ p
      → f / 2 ^ s ≡ 100 * 2 ^ p / 2 ^ s
      → internal_from left step sequence s p f ≡ f
  unfolding internal_from
  stays zero step f l e = refl
  stays (suc left) step f l e =
      rw (constant_step step f l, plain-rests (2 ^ s) (100 * 2 ^ p) f e)
        (stays left (step + 1) f l e)

  comes_to_rest :
      (left step f : ℕ)
      → f ≤ 100 * 2 ^ p
      → 100 * 2 ^ p ≤ f + left
      → internal_from left step sequence s p f / 2 ^ s ≡ 100 * 2 ^ p / 2 ^ s
  unfolding internal_from
  comes_to_rest zero step f l enough = ap (λ (t : ℕ). t / 2 ^ s) (omega arith)
  comes_to_rest (suc left) step f l enough = elim (ℕ_discrete (f / 2 ^ s) (100 * 2 ^ p / 2 ^ s)) [
    | yes e ↦
        rw (constant_step step f l, plain-rests (2 ^ s) (100 * 2 ^ p) f e)
          (ap (λ (t : ℕ). t / 2 ^ s) (stays left (step + 1) f l e) ∙ e)
    | no ne ↦ rw (constant_step step f l) (
        comes_to_rest left (step + 1) (plain (2 ^ s) (100 * 2 ^ p) f)
          (plain-le (2 ^ s) (100 * 2 ^ p) f (100 * 2 ^ p) (two_pow_pos s) (le_refl _) l)
          (omega (arith, plain-rises (2 ^ s) (100 * 2 ^ p) f (two_pow_pos s) l ne)))
  ]

  -- On the constant sequence the internal value, from 0 on, comes less than 2^weight_shift below 100
  -- in the given precision after at most as many steps as that number, and further steps keep it.
  pub internal_from-steady :
      (left step : ℕ)
      → 100 * 2 ^ p ≤ left
      → (100 * 2 ^ p < internal_from left step sequence s p 0 + 2 ^ s)
        × ((more next : ℕ)
            → internal_from more next sequence s p (internal_from left step sequence s p 0)
              ≡ internal_from left step sequence s p 0)
  internal_from-steady left step enough =
      let rest = comes_to_rest left step 0 (omega arith) (omega arith) in
      let low = internal_from-le left step sequence s p 0 h (omega arith) in
      (
        rest-near (2 ^ s) (100 * 2 ^ p) (internal_from left step sequence s p 0) (two_pow_pos s)
            rest,
        λ more next. stays more next (internal_from left step sequence s p 0) low rest,
      )
