-- ===== src/Trees/Bst/Shuffle.antt =====
-- The shuffled order has every index once.
use linux.Base.{
  ℕ, zero, suc, ◌+◌, ◌-◌, ◌%◌, ◌<◌, ◌≡◌, ◌∙◌, refl, ap, List, [], ◌∷◌, ltb, if◌then◌else◌, get_or,
  set, length, length-set, arith,
}
use native.Mathlib.Nat.{mod-lt}
use linux.Base.Run.{Gives, gives}
use linux.Base.Arrays.{exchanged, length-exchanged, swap_cells-lt, get_or-set}
use linux.Base.Memory.{count, one_if}
use linux.Trees.{next_rng}
use linux.Trees.Bst.{first_indices, perm_loop}

count-set :
    (a : List ℕ) (i v x : ℕ)
    → i < length a
    → count x (set a i v) + one_if x (get_or a i 0) ≡ count x a + one_if x v
count-set [] i v x h = absurd (omega arith)
count-set (y ∷ a) zero v x h = ground arith
count-set (y ∷ a) (suc i) v x h = omega (arith, count-set a i v x (omega arith))

count-exchanged :
    (a : List ℕ) (i j x : ℕ) → i < length a → j < length a → count x (exchanged a i j 0) ≡ count x a
count-exchanged a i j x hi hj =
    let same : get_or (set a i (get_or a j 0)) j 0 ≡ get_or a j 0 =
      ground (arith, get_or-set a i j (get_or a j 0) 0 hi) in
    let second = rw same at (
      count-set (set a i (get_or a j 0)) j (get_or a i 0) x
        (omega (arith, length-set a i (get_or a j 0)))) in
    omega (arith, second, count-set a i (get_or a j 0) x hi)

-- Of the indices from `i` on.
count-first_indices :
    (left i x : ℕ)
    → count x (first_indices left i) ≡ (if ltb x i then 0 else if ltb x (i + left) then 1 else 0)
unfolding first_indices
count-first_indices zero i x = ground arith
count-first_indices (suc left) i x = ground (arith, count-first_indices left (i + 1) x)

length-first_indices : (left i : ℕ) → length (first_indices left i) ≡ left
unfolding first_indices
length-first_indices zero i = refl
length-first_indices (suc left) i = ap suc (length-first_indices left (i + 1))

-- Each number below `n` once, and no other.
pub record IsOrder (n : ℕ) (perm : List ℕ) : Type 0 where
  pub size : length perm ≡ n
  pub once : (x : ℕ) → count x perm ≡ (if ltb x n then 1 else 0)

perm_loop-IsOrder :
    (left rng n : ℕ) (perm : List ℕ)
    → left < n
    → IsOrder n perm
    → Gives (IsOrder n) (perm_loop left rng perm)
unfolding perm_loop
perm_loop-IsOrder zero rng n perm h o = gives perm o
perm_loop-IsOrder (suc left) rng n perm h o =
    let j = next_rng rng % (left + 2) in
    let below : j < left + 2 = mod-lt (next_rng rng) {m = left + 2} (omega arith) in
    let inside : left + 1 < length perm = omega (arith, o.size) in
    rw (swap_cells-lt perm (left + 1) j 0 inside (omega arith)) (
      perm_loop-IsOrder left (next_rng rng) n (exchanged perm (left + 1) j 0) (omega arith) record {
        size = length-exchanged perm (left + 1) j 0 ∙ o.size;
        once = λ x. count-exchanged perm (left + 1) j x inside (omega arith) ∙ o.once x;
      })

pub shuffled-IsOrder :
    (n rng : ℕ) → 0 < n → Gives (IsOrder n) (perm_loop (n - 1) rng (first_indices n 0))
shuffled-IsOrder n rng h =
    perm_loop-IsOrder (n - 1) rng n (first_indices n 0) (omega arith) record {
      size = length-first_indices n 0;
      once = λ x. ground (arith, count-first_indices n 0 x);
    }
