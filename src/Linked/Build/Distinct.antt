-- ===== src/Linked/Build/Distinct.antt =====
-- Exchanging entries keeps them distinct.
use linux.Base.{
  ℕ, zero, suc, ◌+◌, ◌-◌, ◌%◌, ◌<◌, ◌≡◌, ◌≢◌, refl, sym, ap, ◌∙◌, List, [], ◌∷◌, get_or, set,
  length, length-set, ◌==◌, if◌then◌else◌, ℕ_discrete, arith, true, false,
}
use native.Mathlib.Nat.{mod-lt}
use linux.Base.Run.{ok, Gives, gives}
use linux.Base.Arrays.{exchanged, swap_cells, swap_cells-lt}
use linux.Linked.Build.{
  swap, splitmix64_state, splitmix64_next, shuffle_loop, count_up, shuffle_indices,
}

pub get_or-set_self : (xs : List ℕ) (i v : ℕ) → i < length xs → get_or (set xs i v) i 0 ≡ v
get_or-set_self [] i v h = absurd (omega arith)
get_or-set_self (x ∷ xs) zero v h = refl
get_or-set_self (x ∷ xs) (suc i) v h = get_or-set_self xs i v (omega arith)

pub get_or-set_ne : (xs : List ℕ) (i j v : ℕ) → i ≢ j → get_or (set xs i v) j 0 ≡ get_or xs j 0
get_or-set_ne [] i j v h = refl
get_or-set_ne (x ∷ xs) zero zero v h = absurd (h refl)
get_or-set_ne (x ∷ xs) zero (suc j) v h = refl
get_or-set_ne (x ∷ xs) (suc i) zero v h = refl
get_or-set_ne (x ∷ xs) (suc i) (suc j) v h = get_or-set_ne xs i j v (λ e. h (ap suc e))

-- Where an exchange takes the entry at `k` from.
abbrev source : (p q k : ℕ) → ℕ
source p q k = if k == q then p else if k == p then q else k

exchanged-source :
    (xs : List ℕ) (p q k : ℕ)
    → p < length xs
    → q < length xs
    → get_or (exchanged xs p q 0) k 0 ≡ get_or xs (source p q k) 0
exchanged-source xs p q k hp hq = elim (ℕ_discrete k q) [
  | yes e ↦
      let test : (k == q) ≡ true = ground arith in
      rw test (
        ap (λ (t : ℕ). get_or (exchanged xs p q 0) t 0) e
        ∙ get_or-set_self (set xs p (get_or xs q 0)) q (get_or xs p 0)
            (omega (arith, length-set xs p (get_or xs q 0))))
  | no ne ↦
      let test : (k == q) ≡ false = ground arith in
      rw test (
        get_or-set_ne (set xs p (get_or xs q 0)) q k (get_or xs p 0) (λ e. ne (sym e))
        ∙ elim (ℕ_discrete k p) [
          | yes e ↦
              let test' : (k == p) ≡ true = ground arith in
              rw test' (
                ap (λ (t : ℕ). get_or (set xs p (get_or xs q 0)) t 0) e
                ∙ get_or-set_self xs p (get_or xs q 0) hp)
          | no ne' ↦
              let test' : (k == p) ≡ false = ground arith in
              rw test' (get_or-set_ne xs p k (get_or xs q 0) (λ e. ne' (sym e)))
        ])
]

-- The first `n` entries are the numbers below `n` in some order: each is below `n`, and no two are
-- equal.
pub record IsOrder (n : ℕ) (cells : List ℕ) : Type 0 where
  pub count : length cells ≡ n
  pub below : (i : ℕ) → i < n → get_or cells i 0 < n
  pub distinct : (i j : ℕ) → i < n → j < n → get_or cells i 0 ≡ get_or cells j 0 → i ≡ j

-- Inside the array, the exchange is defined.
swap-lt :
    (cells : List ℕ) (p q : ℕ)
    → p < length cells
    → q < length cells
    → swap cells p q ≡ ok (exchanged cells p q 0)
unfolding swap swap_cells
swap-lt cells p q hp hq = swap_cells-lt cells p q 0 hp hq

exchanged-IsOrder :
    (n : ℕ) (cells : List ℕ) (p q : ℕ)
    → p < n
    → q < n
    → IsOrder n cells
    → IsOrder n (exchanged cells p q 0)
exchanged-IsOrder n cells p q hp hq o = record {
  count =
      length-set (set cells p (get_or cells q 0)) q (get_or cells p 0)
      ∙ length-set cells p (get_or cells q 0)
      ∙ o.count;
  below = λ i h.
      rw (exchanged-source cells p q i (omega (arith, o.count)) (omega (arith, o.count)))
        (o.below (source p q i) (ground arith));
  distinct = λ i j hi hj e.
      let moved =
        sym (exchanged-source cells p q i (omega (arith, o.count)) (omega (arith, o.count)))
        ∙ e
        ∙ exchanged-source cells p q j (omega (arith, o.count)) (omega (arith, o.count)) in
      let same = o.distinct (source p q i) (source p q j) (ground arith) (ground arith) moved in
      ground (arith, same);
}

shuffle_loop-IsOrder :
    (left state n : ℕ) (cells : List ℕ)
    → left < n
    → IsOrder n cells
    → Gives (IsOrder n) (shuffle_loop left state cells)
unfolding shuffle_loop
shuffle_loop-IsOrder zero state n cells h o = gives cells o
shuffle_loop-IsOrder (suc left) state n cells h o =
    let j = splitmix64_next state % (left + 2) in
    let below : j < left + 2 = mod-lt (splitmix64_next state) {m = left + 2} (omega arith) in
    rw (swap-lt cells (left + 1) j (omega (arith, o.count)) (omega (arith, o.count))) (
      shuffle_loop-IsOrder left (splitmix64_state state) n (exchanged cells (left + 1) j 0)
        (omega arith) (exchanged-IsOrder n cells (left + 1) j (omega arith) (omega arith) o))

pub length-count_up : (left i : ℕ) → length (count_up left i) ≡ left
unfolding count_up
length-count_up zero i = refl
length-count_up (suc left) i = ap suc (length-count_up left (i + 1))

pub count_up-get_or : (left i j : ℕ) → j < left → get_or (count_up left i) j 0 ≡ i + j
unfolding count_up
count_up-get_or zero i j h = absurd (omega arith)
count_up-get_or (suc left) i zero h = omega arith
count_up-get_or (suc left) i (suc j) h = omega (arith, count_up-get_or left (i + 1) j (omega arith))

-- For every seed, the shuffle stays inside the array, and leaves the numbers below `n` in some order.
pub shuffle_indices-IsOrder : (n seed : ℕ) → 0 < n → Gives (IsOrder n) (shuffle_indices n seed)
unfolding shuffle_indices
shuffle_indices-IsOrder n seed h =
    shuffle_loop-IsOrder (n - 1) _ n (count_up n 0) (omega arith) record {
      count = length-count_up n 0;
      below = λ i l. omega (arith, count_up-get_or n 0 i l);
      distinct = λ i j l l' e. omega (arith, count_up-get_or n 0 i l, count_up-get_or n 0 j l');
    }
