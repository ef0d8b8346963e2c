-- ===== src/Trees/Bst/Nodes.antt =====
-- The loop over the shuffled order fills every place once, so no node is lost.
use linux.Base.{
  ℕ, zero, suc, ◌+◌, ◌≤◌, ◌<◌, ◌≡◌, ◌∙◌, refl, sym, ap, List, [], ◌∷◌, Option, none, some, Bool,
  true, false, ltb, ◌==◌, if◌then◌else◌, get_or, set, length, length-set, drop, arith, Option-cases,
  inl, inr, ℕ_discrete,
}
use linux.Base.Int.{ℤ, pos}
use linux.Base.Run.{Run, Gives, gives, Gives-then}
use linux.Base.Arrays.{cell-lt, set_cell-lt, get_or-set}
use linux.Base.Memory.{
  Memory, malloc, free, free_pointer, count, one_if, IsLive, free-IsLive, Denies, Malloced, refused,
  granted, malloc-Malloced,
}
use linux.Trees.Btree.Find.{entry}
use linux.Trees.Bst.{Nodes, block_of, free_nodes, place_node, nodes_loop}
use linux.Trees.Bst.Find.{IsFull}

-- How many nodes lie in block `x`.
unfoldable pub owns_nodes : Nodes → ℕ → ℕ
owns_nodes [] x = 0
owns_nodes (none ∷ ns) x = owns_nodes ns x
owns_nodes (some (block, key) ∷ ns) x = one_if x block + owns_nodes ns x

owns_nodes-set :
    (ns : Nodes) (i block : ℕ) (key : ℤ) (x : ℕ)
    → i < length ns
    → get_or ns i none ≡ none
    → owns_nodes (set ns i (some (block, key))) x ≡ one_if x block + owns_nodes ns x
unfolding owns_nodes
owns_nodes-set [] i block key x h e = absurd (omega arith)
owns_nodes-set (none ∷ ns) zero block key x h e = refl
owns_nodes-set (some n ∷ ns) zero block key x h e = cc
owns_nodes-set (none ∷ ns) (suc i) block key x h e = owns_nodes-set ns i block key x (omega arith) e
owns_nodes-set (some (b, k) ∷ ns) (suc i) block key x h e =
    omega (arith, owns_nodes-set ns i block key x (omega arith) e)

drop-get_or {ℓ} :
    {A : Type ℓ} (xs : List A) (i : ℕ) (d : A)
    → i < length xs
    → drop i xs ≡ get_or xs i d ∷ drop (suc i) xs
drop-get_or [] i d h = absurd (omega arith)
drop-get_or (x ∷ xs) zero d h = refl
drop-get_or (x ∷ xs) (suc i) d h = drop-get_or xs i d (omega arith)

drop-length {ℓ} : {A : Type ℓ} (xs : List A) → drop (length xs) xs ≡ []
drop-length [] = refl
drop-length (x ∷ xs) = drop-length xs

unfoldable owns_node : Option (ℕ × ℤ) → ℕ → ℕ
unfolding owns_nodes
owns_node n x = owns_nodes (n ∷ []) x

owns_nodes-cons :
    (n : Option (ℕ × ℤ)) (ns : Nodes) (x : ℕ)
    → owns_nodes (n ∷ ns) x ≡ owns_node n x + owns_nodes ns x
unfolding owns_nodes owns_node
owns_nodes-cons none ns x = omega arith
owns_nodes-cons (some (block, key)) ns x = omega arith

free_node-IsLive :
    (n : Option (ℕ × ℤ)) (m : Memory) (f : ℕ → ℕ)
    → IsLive m (λ x. owns_node n x + f x)
    → Gives (λ m'. IsLive m' f) (free_pointer (block_of n) m)
unfolding free_pointer owns_nodes owns_node
free_node-IsLive none m f h = gives m (λ x. omega (arith, h x))
free_node-IsLive (some (block, key)) m f h = free-IsLive block m f (λ x. omega (arith, h x))

-- The nodes from `i` on are freed.
pub free_nodes-IsLive :
    (left i : ℕ) (ns : Nodes) (m : Memory) (f : ℕ → ℕ)
    → i + left ≡ length ns
    → IsLive m (λ x. owns_nodes (drop i ns) x + f x)
    → Gives (λ m'. IsLive m' f) (free_nodes left i ns m)
unfolding free_nodes owns_nodes
free_nodes-IsLive zero i ns m f e h =
    let done : drop i ns ≡ [] =
      (let all : i ≡ length ns = omega arith in rw all (drop-length ns)) in
    gives m (λ x. h x ∙ ap (λ (l : Nodes). owns_nodes l x + f x) done ∙ omega arith)
free_nodes-IsLive (suc left) i ns m f e h =
    let one_more : i + 1 ≡ suc i = omega arith in
    rw (cell-lt ns i none (omega arith), one_more)
      (Gives-then (λ m' live. free_nodes-IsLive left (suc i) ns m' f (omega arith) live)
        (free_node-IsLive (get_or ns i none) m (λ x. owns_nodes (drop (suc i) ns) x + f x) split))
  where
    split : IsLive m (λ x. owns_node (get_or ns i none) x + (owns_nodes (drop (suc i) ns) x + f x))
    split x =
        h x
        ∙ ap (λ (l : Nodes). owns_nodes l x + f x) (drop-get_or ns i none (omega arith))
        ∙ omega (arith, owns_nodes-cons (get_or ns i none) (drop (suc i) ns) x)

abbrev pub filled : Option (ℕ × ℤ) → ℕ
filled none = 0
filled (some n) = 1

-- The places in `rest` are still NULL, and each other one has the node of its key.
pub record IsPlaced (a : List ℤ) (n : ℕ) (rest : List ℕ) (ns : Nodes) : Type 0 where
  pub size : length ns ≡ n
  pub once :
      (x : ℕ)
      → count x rest + (if ltb x n then filled (get_or ns x none) else 0)
        ≡ (if ltb x n then 1 else 0)
  pub keys : (x block : ℕ) (key : ℤ) → get_or ns x none ≡ some (block, key) → key ≡ entry a x

-- How the loop ends.
pub data Placed (grants : ℕ → Bool) (a : List ℤ) (n : ℕ) (f : ℕ → ℕ)
    : Bool × Nodes × Memory → Type 0 where
  stopped :
      (ns : Nodes) (m : Memory)
      → Denies grants
      → length ns ≡ n
      → IsLive m (λ x. owns_nodes ns x + f x)
      → Placed grants a n f (false, ns, m)
  placed :
      (ns : Nodes) (m : Memory)
      → IsFull a ns n
      → length ns ≡ n
      → IsLive m (λ x. owns_nodes ns x + f x)
      → Placed grants a n f (true, ns, m)

all_placed-IsFull : (a : List ℤ) (n : ℕ) (ns : Nodes) → IsPlaced a n [] ns → IsFull a ns n
all_placed-IsFull a n ns p x h = elim (Option-cases (get_or ns x none)) [
  | inl missing ↦ absurd (ground (arith, p.once x, ap filled missing))
  | inr ((block, key), there) ↦
      (block, there ∙ ap (λ (k : ℤ). some (block, k)) (p.keys x block key there))
]

filled-zero : (n : Option (ℕ × ℤ)) → filled n ≡ 0 → n ≡ none
filled-zero none e = refl
filled-zero (some n) e = absurd (omega arith)

-- The next place is one of the array, and still NULL.
next_place :
    (a : List ℤ) (n idx : ℕ) (rest : List ℕ) (ns : Nodes)
    → IsPlaced a n (idx ∷ rest) ns
    → (idx < n) × (get_or ns idx none ≡ none)
next_place a n idx rest ns p =
    let here : idx < n = ground (arith, p.once idx) in
    (here, filled-zero (get_or ns idx none) (ground (arith, p.once idx)))

abbrev key_or : ℤ → Option (ℕ × ℤ) → ℤ
key_or k none = k
key_or k (some (block, key)) = key

set-IsPlaced :
    (a : List ℤ) (n idx block : ℕ) (rest : List ℕ) (ns : Nodes)
    → IsPlaced a n (idx ∷ rest) ns
    → IsPlaced a n rest (set ns idx (some (block, entry a idx)))
set-IsPlaced a n idx block rest ns p =
    let (here, free) = next_place a n idx rest ns p in
    let inside : idx < length ns = omega (arith, p.size, here) in
    let at = λ (x : ℕ). get_or-set ns idx x (some (block, entry a idx)) none inside in
    record {
      size = length-set ns idx (some (block, entry a idx)) ∙ p.size;
      once = λ x. elim (ℕ_discrete idx x) [
        | yes e ↦
            let test : (idx == x) ≡ true = ground (arith, e) in
            let now : filled (get_or (set ns idx (some (block, entry a idx))) x none) ≡ 1 =
              ap filled (rw test at (at x)) in
            let was : filled (get_or ns x none) ≡ 0 =
              ap (λ (i : ℕ). filled (get_or ns i none)) (sym e) ∙ ap filled free in
            ground (arith, p.once x, now, was, e)
        | no ne ↦
            let test : (idx == x) ≡ false = ground (arith, ne) in
            let now : filled (get_or (set ns idx (some (block, entry a idx))) x none)
                ≡ filled (get_or ns x none) =
              ap filled (rw test at (at x)) in
            ground (arith, p.once x, now, ne)
      ];
      keys = λ x b k e. elim (ℕ_discrete idx x) [
        | yes e' ↦
            let test : (idx == x) ≡ true = ground (arith, e') in
            ap (key_or (pos 0)) (sym e ∙ rw test at (at x)) ∙ ap (entry a) e'
        | no ne ↦
            let other : (idx == x) ≡ false = ground (arith, ne) in
            p.keys x b k (sym (rw other at (at x)) ∙ e)
      ];
    }

place_node-Placed :
    (grants : ℕ → Bool) (a : List ℤ) (n idx : ℕ) (rest : List ℕ) (f : ℕ → ℕ) (ns : Nodes)
    (loop : Nodes → Memory → Run (Bool × Nodes × Memory))
    → n ≤ length a
    → IsPlaced a n (idx ∷ rest) ns
    → ((ns' : Nodes) (m : Memory)
        → IsPlaced a n rest ns'
        → IsLive m (λ x. owns_nodes ns' x + f x)
        → Gives (Placed grants a n f) (loop ns' m))
    → (r : Option ℕ × Memory) → Malloced grants (λ x. owns_nodes ns x + f x) r
    → Gives (Placed grants a n f) (place_node a idx ns loop r)
unfolding place_node
place_node-Placed grants a n idx rest f ns loop l p next r (refused m k live) =
    gives _ (stopped ns m k p.size live)
place_node-Placed grants a n idx rest f ns loop l p next r (granted block m live) =
    let (here, free) = next_place a n idx rest ns p in
    let inside : idx < length ns = omega (arith, p.size, here) in
    rw
      (
        cell-lt a idx (pos 0) (omega (arith, here)),
        set_cell-lt ns idx (some (block, entry a idx)) inside,
      )
      (next (set ns idx (some (block, entry a idx))) m (set-IsPlaced a n idx block rest ns p)
        (λ x. omega (arith, live x, owns_nodes-set ns idx block (entry a idx) x inside free)))

pub nodes_loop-Placed :
    (grants : ℕ → Bool) (a : List ℤ) (n : ℕ) (perm : List ℕ) (f : ℕ → ℕ) (left i : ℕ) (ns : Nodes)
    (m : Memory)
    → n ≤ length a
    → i + left ≡ length perm
    → IsPlaced a n (drop i perm) ns
    → IsLive m (λ x. owns_nodes ns x + f x)
    → Gives (Placed grants a n f) (nodes_loop grants a perm left i ns m)
unfolding nodes_loop
nodes_loop-Placed grants a n perm f zero i ns m l e p live =
    let all : i ≡ length perm = omega arith in
    let done : drop i perm ≡ [] = rw all (drop-length perm) in
    gives _ (placed ns m (all_placed-IsFull a n ns (rw done at p)) p.size live)
nodes_loop-Placed grants a n perm f (suc left) i ns m l e p live =
    let one_more : i + 1 ≡ suc i = omega arith in
    rw (cell-lt perm i 0 (omega arith), one_more)
      (place_node-Placed grants a n (get_or perm i 0) (drop (suc i) perm) f ns
        (nodes_loop grants a perm left (suc i)) l (rw (drop-get_or perm i 0 (omega arith)) at p)
        (λ ns' m' q live'.
          nodes_loop-Placed grants a n perm f left (suc i) ns' m' l (omega arith) q live')
        (malloc grants m) (malloc-Malloced grants m (λ x. owns_nodes ns x + f x) live))
