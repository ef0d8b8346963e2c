-- ===== src/Trees/Bst/Init.antt =====
-- The whole binary search tree: built, searched and destroyed.
use linux.Base.{
  ℕ, zero, suc, ◌+◌, ◌≤◌, ◌<◌, ◌≡◌, ◌∙◌, refl, sym, ap, List, Option, none, some, Bool, true, false,
  ◌==◌, if◌then◌else◌, get_or, length, replicate, length-replicate, arith, inl, inr, ◌⊎◌,
}
use linux.Base.Int.{ℤ}
use linux.Base.Run.{Gives, gives, Gives-then, Gives-if}
use linux.Base.Memory.{
  Memory, malloc, count, one_if, IsLive, free-IsLive, Denies, Malloced, refused, granted,
  malloc-Malloced,
}
use linux.Trees.Btree.Find.{Answer, IsAscending}
use linux.Trees.Bst.{
  Bst, null, Nodes, BstTree, bst_tree_destroy, bst_tree_finish, bst_tree_fill, bst_tree_alloc,
  bst_tree_init, bst_lookup_from, bst_tree_lookup,
}
use linux.Trees.Bst.Find.{build-Spans, lookup_from-Answer}
use linux.Trees.Bst.Shuffle.{IsOrder, shuffled-IsOrder}
use linux.Trees.Bst.Nodes.{
  owns_nodes, free_nodes-IsLive, IsPlaced, Placed, stopped, placed, nodes_loop-Placed, filled,
}

-- What `bst_tree_init` promises: without a tree, no block stays; with one, every lookup has the right
-- answer, and to destroy it leaves the blocks of before.
pub data Opened (grants : ℕ → Bool) (keys : List ℤ) (n : ℕ) (f : ℕ → ℕ)
    : Bool × BstTree × Memory → Type 0 where
  not_opened :
      (tree : BstTree) (m : Memory)
      → (n ≡ 0) ⊎ Denies grants
      → IsLive m f
      → Opened grants keys n f (false, tree, m)
  opened :
      (tree : BstTree) (m : Memory)
      → ((key : ℤ) → Answer keys 0 n key (bst_tree_lookup tree key))
      → Gives (λ (t, m'). IsLive m' f) (bst_tree_destroy tree m)
      → Opened grants keys n f (true, tree, m)

-- The nodes are freed, and then the array of them.
destroy-IsLive :
    (root : Bst) (block n : ℕ) (ns : Nodes) (m : Memory) (f : ℕ → ℕ)
    → length ns ≡ n
    → IsLive m (λ x. owns_nodes ns x + (one_if x block + f x))
    → Gives
        (λ (t, m'). IsLive m' f)
        (bst_tree_destroy record { root = root; nodes = some (block, ns); node_count = n } m)
unfolding bst_tree_destroy
destroy-IsLive root block n ns m f size live =
    Gives-then (λ m1 live1. Gives-then (λ m2 live2. gives _ live2) (free-IsLive block m1 f live1))
      (free_nodes-IsLive n 0 ns m (λ x. one_if x block + f x) (omega arith) live)

finish-Opened :
    (grants : ℕ → Bool) (keys : List ℤ) (n block p : ℕ) (f : ℕ → ℕ)
    → IsAscending keys n
    → (r : Bool × Nodes × Memory)
    → Placed grants keys n (λ x. one_if x p + (one_if x block + f x)) r
    → Gives (Opened grants keys n f) (bst_tree_finish block p n r)
unfolding bst_tree_finish bst_tree_lookup bst_lookup_from
finish-Opened grants keys n block p f s r (stopped ns m k size live) =
    Gives-then
      (λ m1 live1.
        Gives-then (λ (tree, m2) live2. gives _ (not_opened tree m2 (inr k) live2))
          (destroy-IsLive null block n ns m1 f size live1))
      (free-IsLive p m (λ x. owns_nodes ns x + (one_if x block + f x)) (λ x. omega (arith, live x)))
finish-Opened grants keys n block p f s r (placed ns m full size live) =
    Gives-then
      (λ m1 live1.
        Gives-then
          (λ root spans. gives _ (
            opened _ m1 (λ key. lookup_from-Answer s key (omega arith) spans)
              (destroy-IsLive root block n ns m1 f size live1)))
          (build-Spans keys ns n (n + 1) 0 n full (omega arith) (omega arith) (omega arith)
            (omega arith)))
      (free-IsLive p m (λ x. owns_nodes ns x + (one_if x block + f x)) (λ x. omega (arith, live x)))

get_or-replicate : (n x : ℕ) → get_or {A = Option (ℕ × ℤ)} (replicate n none) x none ≡ none
get_or-replicate zero x = refl
get_or-replicate (suc n) zero = refl
get_or-replicate (suc n) (suc x) = get_or-replicate n x

owns_nodes-replicate : (n x : ℕ) → owns_nodes (replicate n none) x ≡ 0
unfolding owns_nodes
owns_nodes-replicate zero x = refl
owns_nodes-replicate (suc n) x = owns_nodes-replicate n x

-- Before the loop every place is NULL.
start-IsPlaced :
    (keys : List ℤ) (n : ℕ) (perm : List ℕ)
    → IsOrder n perm
    → IsPlaced keys n perm (replicate n none)
start-IsPlaced keys n perm o = record {
  size = length-replicate n none;
  once = λ x. ground (arith, o.once x, ap filled (get_or-replicate n x));
  keys = λ x block key e.
      let contra : 0 ≡ 1 = ap filled (sym (get_or-replicate n x) ∙ e) in
      absurd (omega (arith, contra));
}

fill-Opened :
    (grants : ℕ → Bool) (keys : List ℤ) (n seed block : ℕ) (f : ℕ → ℕ)
    → 0 < n
    → n ≤ length keys
    → IsAscending keys n
    → (r : Option ℕ × Memory) → Malloced grants (λ x. one_if x block + f x) r
    → Gives (Opened grants keys n f) (bst_tree_fill grants keys n seed block r)
unfolding bst_tree_fill
fill-Opened grants keys n seed block f h l s r (refused m k live) =
    Gives-then (λ (tree, m2) live2. gives _ (not_opened tree m2 (inr k) live2))
      (destroy-IsLive null block n (replicate n none) m f (length-replicate n none)
        (λ x. omega (arith, live x, owns_nodes-replicate n x)))
fill-Opened grants keys n seed block f h l s r (granted p m live) =
    Gives-then
      (λ perm o. Gives-then (finish-Opened grants keys n block p f s) (
        nodes_loop-Placed grants keys n perm (λ x. one_if x p + (one_if x block + f x)) n 0
          (replicate n none) m l (omega (arith, o.size)) (start-IsPlaced keys n perm o)
          (λ x. omega (arith, live x, owns_nodes-replicate n x))))
      (shuffled-IsOrder n (if seed == 0 then 0x9e3779b97f4a7c15 else seed) h)

alloc-Opened :
    (grants : ℕ → Bool) (keys : List ℤ) (n seed : ℕ) (f : ℕ → ℕ)
    → 0 < n
    → n ≤ length keys
    → IsAscending keys n
    → (r : Option ℕ × Memory) → Malloced grants f r
    → Gives (Opened grants keys n f) (bst_tree_alloc grants keys n seed r)
unfolding bst_tree_alloc
alloc-Opened grants keys n seed f h l s r (refused m k live) = gives _ (not_opened _ m (inr k) live)
alloc-Opened grants keys n seed f h l s r (granted block m live) =
    fill-Opened grants keys n seed block f h l s (malloc grants m)
      (malloc-Malloced grants m (λ x. one_if x block + f x) live)

-- Whichever calls of the allocator succeed, for every seed and for ascending keys: `bst_tree_init`
-- reads and writes inside its arrays, follows no NULL and frees only what is live. It returns -1 only
-- if there are no keys or the allocator refuses a call, and then no block of its own stays live; else
-- every lookup in the tree returns the key if it is there and -1 if it is not, and `bst_tree_destroy`
-- frees each block of the tree once.
pub bst_tree_init-Opened :
    (grants : ℕ → Bool) (keys : List ℤ) (n seed : ℕ) (m : Memory)
    → n ≤ length keys
    → IsAscending keys n
    → Gives (Opened grants keys n (λ x. count x m.live)) (bst_tree_init grants keys n seed m)
unfolding bst_tree_init
bst_tree_init-Opened grants keys n seed m l s =
    Gives-if (n == 0) (λ none_there. gives _ (not_opened _ m (inl (ground arith)) (λ x. refl)))
      (λ some_there.
        alloc-Opened grants keys n seed (λ x. count x m.live) (ground arith) l s (malloc grants m)
          (malloc-Malloced grants m (λ x. count x m.live) (λ x. refl)))
