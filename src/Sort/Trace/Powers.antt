-- ===== src/Sort/Trace/Powers.antt =====
-- The greatest power of 2 in a number, and the ones at its end.
use linux.Base.{
  ℕ, zero, suc, ◌+◌, ◌*◌, ◌/◌, ◌%◌, ◌^◌, ◌≤◌, ◌<◌, ◌≡◌, ◌≢◌, refl, ap, ◌∙◌, arith, leb, ◌==◌, true,
  false, dec_lt, ℕ_discrete,
}
use linux.Base.Bits.{bit_at, bit_at-zero, bit_at-suc}
use linux.Base.Digits.{bit_and_mask}
use linux.Base.Run.{ok, Gives, gives, Gives-weaken}
use linux.Base.Word.{u64}
use native.Mathlib.Nat.{pow-suc}
use linux.Sort.Trace.{trailing_loop, count_trailing_ones, power_loop, highest_power_of_two_le}

-- `b` is the greatest power of 2 that is not above the value.
abbrev pub IsHighestPower : (value b : ℕ) → Type 0
IsHighestPower value b = (k : ℕ) × (b ≡ 2 ^ k) × (2 ^ k ≤ value) × (value < 2 ^ suc k)

power_loop-IsHighestPower :
    (fuel k value : ℕ)
    → value < 2 ^ 64
    → 2 ^ k ≤ value
    → value < 2 ^ (k + fuel)
    → Gives (IsHighestPower value) (power_loop fuel value (2 ^ k))
unfolding power_loop
power_loop-IsHighestPower zero k value word low high =
    let e : k + 0 ≡ k = omega arith in absurd (omega (arith, ap (λ (t : ℕ). 2 ^ t) e))
power_loop-IsHighestPower (suc fuel) k value word low high = elim (dec_lt (value / 2) (2 ^ k)) [
  | yes found ↦
      let stop : leb (2 ^ k) (value / 2) ≡ false = ground arith in
      rw stop (gives (2 ^ k) (k, refl, low, omega (arith, pow-suc 2 k)))
  | no more ↦
      let again : leb (2 ^ k) (value / 2) ≡ true = ground arith in
      let next : u64 (2 ^ k * 2 ^ 1) ≡ 2 ^ suc k = omega (arith, pow-suc 2 k) in
      let e : k + suc fuel ≡ suc k + fuel = omega arith in
      rw (again, next)
        (power_loop-IsHighestPower fuel (suc k) value word (omega (arith, pow-suc 2 k))
          (omega (arith, ap (λ (t : ℕ). 2 ^ t) e)))
]

-- Of every 64-bit number that is not 0 the loop finds the greatest power of 2, after at most 64
-- rounds; of 0 it is 0.
pub highest_power_of_two_le-IsHighestPower :
    (value : ℕ)
    → value < 2 ^ 64
    → (value ≡ 0 → highest_power_of_two_le value ≡ ok 0)
      × (value ≢ 0 → Gives (IsHighestPower value) (highest_power_of_two_le value))
unfolding highest_power_of_two_le
highest_power_of_two_le-IsHighestPower value h = (
  λ e. rw e refl,
  λ ne.
      let other : (value == 0) ≡ false = ground arith in
      rw other (power_loop-IsHighestPower 64 0 value h (omega arith) h),
)

-- The value ends in `n` ones with a 0 before them.
abbrev pub EndsInOnes : (value n : ℕ) → Type 0
EndsInOnes value n = ((k : ℕ) → k < n → bit_at value k ≡ 1) × (bit_at value n ≡ 0)

-- What is known of the count that is returned.
abbrev Counts : (value count n : ℕ) → Type 0
Counts value count n = (m : ℕ) × (n ≡ count + m) × EndsInOnes value m

-- A one more at the end.
Counts-step :
    (value count n : ℕ) → value % 2 ≡ 1 → Counts (value / 2) (count + 1) n → Counts value count n
Counts-step value count n odd (m, e, (ones, end)) =
    (suc m, omega arith, (λ k l. one k l, bit_at-suc value m ∙ end))
  where
    one : (k : ℕ) → k < suc m → bit_at value k ≡ 1
    one zero l = bit_at-zero value ∙ odd
    one (suc k) l = bit_at-suc value k ∙ ones k (omega arith)

trailing-stops :
    (fuel value count : ℕ)
    → value % 2 ≡ 0
    → Gives (Counts value count) (trailing_loop (suc fuel) value count)
unfolding trailing_loop
trailing-stops fuel value count even =
    rw (bit_and_mask 1 value, even)
      (gives count (0, omega arith, (λ k l. absurd (omega arith), bit_at-zero value ∙ even)))

trailing-goes_on :
    (fuel value count : ℕ)
    → value % 2 ≡ 1
    → count < 2 ^ 63
    → trailing_loop (suc fuel) value count ≡ trailing_loop fuel (value / 2) (count + 1)
unfolding trailing_loop
trailing-goes_on fuel value count odd h =
    let word : u64 (count + 1) ≡ count + 1 = omega arith in
    rw (bit_and_mask 1 value, odd, word) refl

trailing_loop-Counts :
    (fuel value count : ℕ)
    → value < 2 ^ fuel
    → count + fuel ≤ 64
    → Gives (Counts value count) (trailing_loop (suc fuel) value count)
trailing_loop-Counts zero value count h l = trailing-stops zero value count (omega arith)
trailing_loop-Counts (suc fuel) value count h l = elim (ℕ_discrete (value % 2) 0) [
  | yes even ↦ trailing-stops (suc fuel) value count even
  | no odd ↦ rw (trailing-goes_on (suc fuel) value count (omega arith) (omega arith)) (
      Gives-weaken (λ n c. Counts-step value count n (omega arith) c)
        (trailing_loop-Counts fuel (value / 2) (count + 1) (omega (arith, pow-suc 2 fuel))
          (omega arith)))
]

-- Of every 64-bit number count_trailing_ones returns the number of ones at its end, after at most
-- 65 rounds.
pub count_trailing_ones-EndsInOnes :
    (value : ℕ) → value < 2 ^ 64 → Gives (EndsInOnes value) (count_trailing_ones value)
unfolding count_trailing_ones
count_trailing_ones-EndsInOnes value h =
    Gives-weaken (λ n (m, e, ones). whole n m e ones)
      (trailing_loop-Counts 64 value 0 h (omega arith))
  where
    whole : (n m : ℕ) → n ≡ 0 + m → EndsInOnes value m → EndsInOnes value n
    whole n m e ones = let f : n ≡ m = omega arith in rw f ones
