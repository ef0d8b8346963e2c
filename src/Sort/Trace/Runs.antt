-- ===== src/Sort/Trace/Runs.antt =====
-- The pending runs are the powers of 2 that make up the count, the greatest first.
use linux.Base.{
  ℕ, zero, suc, ◌+◌, ◌*◌, ◌/◌, ◌%◌, ◌^◌, ◌≤◌, ◌<◌, ◌≡◌, ◌≢◌, refl, ap, ◌∙◌, arith, ltb, ◌==◌,
  if◌then◌else◌, bit_and, true, false, ℕ_discrete, dec_lt, List, [], ◌∷◌, length, length-set,
  get_or, set,
}
use linux.Base.Arrays.{set_cell-lt, get_or-set}
use linux.Base.Bits.{bit_at, mod-suc_bit}
use linux.Base.Digits.{bit_and_mask, bit_and-shl}
use linux.Base.Pow.{two_pow_pos}
use linux.Base.Run.{Gives, gives, Gives-value}
use linux.Base.Word.{u64}
use native.Mathlib.Nat.{pow-suc, pow-le-pow_right, mod-eq_of_lt}
use linux.Sort.Trace.{runs_loop, runs_from_count}
use linux.Sort.Trace.Powers.{highest_power_of_two_le-IsHighestPower}

-- The sum of the first `n` entries.
abbrev pub sum_first : ℕ → List ℕ → ℕ
sum_first zero xs = 0
sum_first (suc n) [] = 0
sum_first (suc n) (x ∷ xs) = x + sum_first n xs

sum_first-set :
    (n : ℕ) (xs : List ℕ) (v : ℕ)
    → n < length xs
    → sum_first (suc n) (set xs n v) ≡ sum_first n xs + v
sum_first-set n [] v h = absurd (omega arith)
sum_first-set zero (x ∷ xs) v h = omega arith
sum_first-set (suc n) (x ∷ xs) v h = omega (arith, sum_first-set n xs v (omega arith))

-- The first `n` runs are powers of 2 of at least `2^k`, in descending order.
pub record IsPending (k n : ℕ) (runs : List ℕ) : Type 0 where
  pub power : (i : ℕ) → i < n → (j : ℕ) × (k ≤ j) × (get_or runs i 0 ≡ 2 ^ j)
  pub descending : (i : ℕ) → suc i < n → get_or runs (suc i) 0 < get_or runs i 0

-- The next power goes behind the others.
IsPending-set :
    (k n : ℕ) (runs : List ℕ)
    → n < length runs
    → IsPending (suc k) n runs
    → IsPending k (suc n) (set runs n (2 ^ k))
IsPending-set k n runs h w = record { power = power; descending = descending }
  where
    at : (i : ℕ) → get_or (set runs n (2 ^ k)) i 0 ≡ (if n == i then 2 ^ k else get_or runs i 0)
    at i = get_or-set runs n i (2 ^ k) 0 h

    power : (i : ℕ) → i < suc n → (j : ℕ) × (k ≤ j) × (get_or (set runs n (2 ^ k)) i 0 ≡ 2 ^ j)
    power i l = elim (ℕ_discrete n i) [
      | yes e ↦ let here : (n == i) ≡ true = ground arith in (k, omega arith, at i ∙ rw here refl)
      | no ne ↦
          let other : (n == i) ≡ false = ground arith in
          let (j, low, value) = w.power i (omega arith) in (j, omega arith, at i ∙ rw other value)
    ]

    descending :
        (i : ℕ)
        → suc i < suc n
        → get_or (set runs n (2 ^ k)) (suc i) 0 < get_or (set runs n (2 ^ k)) i 0
    descending i l = elim (ℕ_discrete n (suc i)) [
      | yes e ↦
          let (j, low, value) = w.power i (omega arith) in
          let larger : 2 ^ suc k ≤ 2 ^ j = pow-le-pow_right (omega arith) low in
          ground (arith, at i, at (suc i), pow-suc 2 k, two_pow_pos k)
      | no ne ↦ ground (arith, at i, at (suc i), w.descending i)
    ]

-- What the loop leaves.
abbrev pub IsSplit : (count : ℕ) → ℕ × List ℕ → Type 0
IsSplit count (n, runs) = (sum_first n runs ≡ count) × IsPending 0 n runs

bit_test : (k count : ℕ) → bit_and count (2 ^ k) ≡ bit_at count k * 2 ^ k
bit_test k count =
    ap (bit_and count) (omega arith)
    ∙ bit_and-shl k count 1
    ∙ ap (λ (t : ℕ). t * 2 ^ k) (bit_and_mask 1 (count / 2 ^ k))

-- The bit that the loop looks at when `left` bits are left.
abbrev bit_of : ℕ → ℕ
bit_of zero = 0
bit_of (suc k) = 2 ^ k

bit_of-half : (k : ℕ) → 2 ^ k / 2 ≡ bit_of k
bit_of-half zero = omega arith
bit_of-half (suc k) = omega (arith, pow-suc 2 k)

weaker : (k n : ℕ) (runs : List ℕ) → IsPending (suc k) n runs → IsPending k n runs
weaker k n runs w = record {
  power = λ i l. let (j, low, value) = w.power i l in (j, omega arith, value);
  descending = w.descending;
}

module _ (count max_runs : ℕ) (word : max_runs < 2 ^ 64) where
  -- The runs so far and the bits that are left make up the count.
  record Remains (left n : ℕ) (runs : List ℕ) : Type 0 where
    sum : sum_first n runs + count % 2 ^ left ≡ count
    pending : IsPending left n runs
    room : n + left ≤ max_runs
    inside : max_runs ≤ length runs

  module _ (left n : ℕ) (runs : List ℕ) (r : Remains (suc left) n runs) where
    Remains-found : bit_at count left ≡ 1 → Remains left (n + 1) (set runs n (2 ^ left))
    Remains-found one =
        let next : n + 1 ≡ suc n = omega arith in
        rw next (record {
          sum = omega (
            arith,
            sum_first-set n runs (2 ^ left) (omega (arith, r.room, r.inside)),
            mod-suc_bit left count,
            r.sum,
            ap (λ (t : ℕ). t * 2 ^ left) one,
          );
          pending = IsPending-set left n runs (omega (arith, r.room, r.inside)) r.pending;
          room = omega (arith, r.room);
          inside = omega (arith, r.inside, length-set runs n (2 ^ left));
        })

    Remains-passed : bit_at count left ≡ 0 → Remains left n runs
    Remains-passed none = record {
      sum = omega (arith, mod-suc_bit left count, r.sum, ap (λ (t : ℕ). t * 2 ^ left) none);
      pending = weaker left n runs r.pending;
      room = omega (arith, r.room);
      inside = r.inside;
    }

  runs_loop-IsSplit :
      (fuel left n : ℕ) (runs : List ℕ)
      → left < fuel
      → Remains left n runs
      → Gives (IsSplit count) (runs_loop fuel count (bit_of left) n runs max_runs)
  unfolding runs_loop
  runs_loop-IsSplit zero left n runs h r = absurd (omega arith)
  runs_loop-IsSplit (suc fuel) zero n runs h r = gives (n, runs) (omega (arith, r.sum), r.pending)
  runs_loop-IsSplit (suc fuel) (suc left) n runs h r =
      let bit : (2 ^ left == 0) ≡ false = ground (arith, two_pow_pos left) in
      let more : ltb n max_runs ≡ true = ground (arith, r.room) in
      rw (bit, more, bit_test left count, bit_of-half left)
        (elim (ℕ_discrete (bit_at count left) 0) [
          | yes none ↦
              let gone : (0 * 2 ^ left == 0) ≡ true = ground arith in
              rw (none, gone)
                (runs_loop-IsSplit fuel left n runs (omega arith)
                  (Remains-passed left n runs r none))
          | no ne ↦
              let one : bit_at count left ≡ 1 = omega arith in
              let found : (1 * 2 ^ left == 0) ≡ false = ground (arith, two_pow_pos left) in
              let next : u64 (n + 1) ≡ n + 1 = omega (arith, r.room) in
              rw (one, found, set_cell-lt runs n (2 ^ left) (omega (arith, r.room, r.inside)), next)
                (runs_loop-IsSplit fuel left (n + 1) (set runs n (2 ^ left)) (omega arith)
                  (Remains-found left n runs r one))
        ])

nothing-IsPending : (k : ℕ) (runs : List ℕ) → IsPending k 0 runs
nothing-IsPending k runs = record {
  power = λ i l. absurd (omega arith);
  descending = λ i l. absurd (omega arith);
}

short_power : (k count : ℕ) → 2 ^ k ≤ count → count < 2 ^ 64 → k < 64
short_power k count low high = elim (dec_lt k 64) [
  | yes h ↦ h
  | no far ↦
      let large : 2 ^ 64 ≤ 2 ^ k = pow-le-pow_right (omega arith) {i = 64} (omega arith) in
      absurd (omega arith)
]

-- With room for 64 runs the runs that runs_from_count writes are powers of 2 in descending order
-- whose sum is the count; it ends after at most 65 rounds and writes inside the array.
pub runs_from_count-IsSplit :
    (count : ℕ) (runs : List ℕ) (max_runs : ℕ)
    → count < 2 ^ 64
    → 64 ≤ max_runs
    → max_runs < 2 ^ 64
    → max_runs ≤ length runs
    → Gives (IsSplit count) (runs_from_count count runs max_runs)
unfolding runs_from_count
runs_from_count-IsSplit count runs max_runs h room word inside = elim (ℕ_discrete count 0) [
  | yes e ↦
      let zero_bit = (highest_power_of_two_le-IsHighestPower count h).0 e in
      rw zero_bit (
        runs_loop-IsSplit count max_runs word 65 0 0 runs (omega arith) (record {
          sum = omega arith;
          pending = nothing-IsPending 0 runs;
          room = omega arith;
          inside = inside;
        }))
  | no ne ↦ from_highest ne
]
  where
    from_highest : count ≢ 0 → Gives (IsSplit count) (runs_from_count count runs max_runs)
    from_highest ne =
        let (b, run, (k, e, low, high)) =
          Gives-value ((highest_power_of_two_le-IsHighestPower count h).1 ne) in
        let short = short_power k count low h in
        rw (run, e)
          (runs_loop-IsSplit count max_runs word 65 (suc k) 0 runs (omega arith) (record {
            sum = omega (arith, mod-eq_of_lt high);
            pending = nothing-IsPending (suc k) runs;
            room = omega arith;
            inside = inside;
          }))
