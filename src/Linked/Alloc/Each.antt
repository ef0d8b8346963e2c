-- ===== src/Linked/Alloc/Each.antt =====
-- The ways of `list_build` with a block for each node.
use mathlib.Core.Path.{fun_ext}
use linux.Base.{
  ℕ, zero, suc, ◌+◌, ◌≡◌, ◌∙◌, refl, sym, ap, List, [], ◌∷◌, ◌++◌, Option, none, some, Bool, true,
  false, length, length-append, arith, bit_xor,
}
use linux.Base.Run.{Run, ◌>>=◌, Gives, gives, Gives-then}
use linux.Base.Memory.{
  Memory, malloc, free, count, one_if, IsLive, free-IsLive, Denies, Malloced, refused, granted,
  malloc-Malloced,
}
use linux.Linked.{Store}
use linux.Linked.Middle.{Chain}
use linux.Linked.Build.{count_up, entry}
use linux.Linked.Build.Distinct.{length-count_up}
use linux.Linked.Handle.{Heap, zero_node}
use linux.Linked.EachNode.{
  free_all, free_entries, give_up, new_node, nodes_loop, link_by_indices, link_nodes,
}
use linux.Linked.Alloc.Nodes.{link_sequential-fresh, link_shuffled-fresh}

pub free_all-IsLive :
    (blocks : List ℕ) (m : Memory) (f : ℕ → ℕ)
    → IsLive m (λ x. count x blocks + f x)
    → Gives (λ m'. IsLive m' f) (free_all blocks m)
unfolding free_all
free_all-IsLive [] m f live = gives m (λ x. omega (arith, live x))
free_all-IsLive (block ∷ blocks) m f live =
    Gives-then (λ m' live'. free_all-IsLive blocks m' f live')
      (free-IsLive block m (λ x. count x blocks + f x) (λ x. omega (arith, live x)))

free_entries-shift :
    (left i block : ℕ) (blocks : List ℕ) (m : Memory)
    → free_entries left (suc i) (block ∷ blocks) m ≡ free_entries left i blocks m
unfolding free_entries
free_entries-shift zero i block blocks m = refl
free_entries-shift (suc left) i block blocks m =
    ap (λ (rest : Memory → Run Memory). entry blocks i >>= λ first. free first m >>= rest)
      (fun_ext (λ m'.
        ap (λ (t : ℕ). free_entries left t (block ∷ blocks) m') one_on
        ∙ free_entries-shift left (i + 1) block blocks m'))
  where
    one_on : suc i + 1 ≡ suc (i + 1)
    one_on = omega arith

free_entries-free_all :
    (blocks : List ℕ) (m : Memory) → free_entries (length blocks) 0 blocks m ≡ free_all blocks m
unfolding free_entries free_all
free_entries-free_all [] m = refl
free_entries-free_all (block ∷ blocks) m =
    ap (λ (rest : Memory → Run Memory). free block m >>= rest)
      (fun_ext (λ m'.
        free_entries-shift (length blocks) 0 block blocks m' ∙ free_entries-free_all blocks m'))

-- Freeing as many entries as there are frees each block.
pub free_entries-IsLive :
    (n : ℕ) (blocks : List ℕ) (m : Memory) (f : ℕ → ℕ)
    → length blocks ≡ n
    → IsLive m (λ x. count x blocks + f x)
    → Gives (λ m'. IsLive m' f) (free_entries n 0 blocks m)
free_entries-IsLive n blocks m f size live =
    rw (sym size, free_entries-free_all blocks m) (free_all-IsLive blocks m f live)

give_up-IsLive {ℓ} :
    {A : Type ℓ} (Q : Option A × Heap → Type 0) (blocks : List ℕ) (table : ℕ) (store : Store)
    (m : Memory) (f : ℕ → ℕ)
    → ((m' : Memory) → IsLive m' f → Q (none, record { store = store; memory = m' }))
    → IsLive m (λ x. count x blocks + (one_if x table + f x))
    → Gives Q (give_up blocks table store m)
unfolding give_up
give_up-IsLive Q blocks table store m f q live =
    Gives-then
      (λ m1 live1. Gives-then (λ m2 live2. gives _ (q m2 live2)) (free-IsLive table m1 f live1))
      (free_all-IsLive blocks m (λ x. one_if x table + f x) live)

-- The nodes with the addresses from `base` on, in blocks of their own, and the table of them.
pub data Allocated (grants : ℕ → Bool) (base n table : ℕ) (f : ℕ → ℕ)
    : Option (List ℕ × List ℕ) × Heap → Type 0 where
  not_allocated :
      (heap : Heap)
      → Denies grants
      → IsLive heap.memory f
      → Allocated grants base n table f (none, heap)
  allocated :
      (blocks : List ℕ) (heap : Heap)
      → base + n ≡ length heap.store
      → length blocks ≡ n
      → IsLive heap.memory (λ x. count x blocks + (one_if x table + f x))
      → Allocated grants base n table f (some (count_up n base, blocks), heap)

count_up-append : (k base : ℕ) → count_up k base ++ ((base + k) ∷ []) ≡ count_up (suc k) base
unfolding count_up
count_up-append zero base = let same : base + 0 ≡ base = omega arith in ap (λ (b : ℕ). b ∷ []) same
count_up-append (suc k) base =
    let moved : base + suc k ≡ base + 1 + k = omega arith in
    ap (λ (l : List ℕ). base ∷ l)
      (ap (λ (b : ℕ). count_up k (base + 1) ++ (b ∷ [])) moved ∙ count_up-append k (base + 1))

count-append : (xs : List ℕ) (y x : ℕ) → count x (xs ++ (y ∷ [])) ≡ one_if x y + count x xs
count-append [] y x = refl
count-append (z ∷ xs) y x = omega (arith, count-append xs y x)

module _ (grants : ℕ → Bool) (base n table : ℕ) (f : ℕ → ℕ) where
  new_node-Allocated :
      (left done : ℕ) (blocks : List ℕ) (store : Store) (r : Option ℕ × Memory)
      → base + done ≡ length store
      → length blocks ≡ done
      → ((blocks' : List ℕ) (store' : Store) (m : Memory)
          → base + suc done ≡ length store'
          → length blocks' ≡ suc done
          → IsLive m (λ x. count x blocks' + (one_if x table + f x))
          → Gives
              (Allocated grants base n table f)
              (nodes_loop grants table left (count_up (suc done) base) blocks' store' m))
      → Malloced grants (λ x. count x blocks + (one_if x table + f x)) r
      → Gives
          (Allocated grants base n table f)
          (new_node table (count_up done base) blocks store (nodes_loop grants table left) r)
  unfolding new_node
  new_node-Allocated left done blocks store r e l next (refused m denied live) =
      give_up-IsLive _ blocks table store m f (λ m' live'. not_allocated _ denied live') live
  new_node-Allocated left done blocks store r e l next (granted block m live) =
      rw (sym e, count_up-append done base)
        (next (blocks ++ (block ∷ [])) (store ++ (zero_node ∷ [])) m
          (omega (arith, e, length-append store (zero_node ∷ [])))
          (omega (arith, l, length-append blocks (block ∷ [])))
          (λ x. omega (arith, live x, count-append blocks block x)))

  pub nodes_loop-Allocated :
      (left done : ℕ) (blocks : List ℕ) (store : Store) (m : Memory)
      → done + left ≡ n
      → base + done ≡ length store
      → length blocks ≡ done
      → IsLive m (λ x. count x blocks + (one_if x table + f x))
      → Gives
          (Allocated grants base n table f)
          (nodes_loop grants table left (count_up done base) blocks store m)
  unfolding nodes_loop
  nodes_loop-Allocated zero done blocks store m e e' l live =
      let all : done ≡ n = omega arith in
      rw all (gives _ (allocated blocks _ (omega (arith, all)) (omega (arith, all)) live))
  nodes_loop-Allocated (suc left) done blocks store m e e' l live =
      new_node-Allocated left done blocks store (malloc grants m) e' l
        (λ blocks' store' m' e'' l' live'.
          nodes_loop-Allocated left (suc done) blocks' store' m' (omega arith) e'' l' live')
        (malloc-Malloced grants m (λ x. count x blocks + (one_if x table + f x)) live)

-- The nodes are linked, or given up.
pub data IsLinked (grants : ℕ → Bool) (n table : ℕ) (blocks : List ℕ) (f : ℕ → ℕ)
    : Option ℕ × Heap → Type 0 where
  not_linked :
      (heap : Heap)
      → Denies grants
      → IsLive heap.memory f
      → IsLinked grants n table blocks f (none, heap)
  is_linked :
      (head : ℕ) (heap : Heap) (order : List ℕ)
      → Chain heap.store (some head) order
      → length order ≡ n
      → IsLive heap.memory (λ x. count x blocks + (one_if x table + f x))
      → IsLinked grants n table blocks f (some head, heap)

module _ (grants : ℕ → Bool) (k seed table base : ℕ) (blocks : List ℕ) (f : ℕ → ℕ) where
  link_by_indices-IsLinked :
      (store : Store) (r : Option ℕ × Memory)
      → base + suc k ≡ length store
      → Malloced grants (λ x. count x blocks + (one_if x table + f x)) r
      → Gives
          (IsLinked grants (suc k) table blocks f)
          (link_by_indices (suc k) seed table (count_up (suc k) base) blocks store r)
  unfolding link_by_indices
  link_by_indices-IsLinked store r e (refused m denied live) =
      give_up-IsLive _ blocks table store m f (λ m' live'. not_linked _ denied live') live
  link_by_indices-IsLinked store r e (granted indices m live) =
      let (order', drawn, store', head, order, run, chain, size) =
        link_shuffled-fresh k base (bit_xor seed 0xa5a5a5a5a5a5a5a5) store (omega arith) in
      rw (drawn, run)
        (Gives-then (λ m' live'. gives _ (is_linked head _ order chain size live'))
          (free-IsLive indices m (λ x. count x blocks + (one_if x table + f x)) live))

  pub link_nodes-IsLinked :
      (shuffle_links : Bool) (store : Store) (m : Memory)
      → base + suc k ≡ length store
      → IsLive m (λ x. count x blocks + (one_if x table + f x))
      → Gives (IsLinked grants (suc k) table blocks f) (
          link_nodes grants shuffle_links (suc k) seed table (count_up (suc k) base) blocks store m)
  unfolding link_nodes count_up
  link_nodes-IsLinked false store m e live =
      let (store', run, chain) = link_sequential-fresh k base store (omega arith) in
      rw run (
        gives _
          (is_linked base _ (count_up (suc k) base) chain (length-count_up (suc k) base) live))
  link_nodes-IsLinked true store m e live =
      link_by_indices-IsLinked store (malloc grants m) e
        (malloc-Malloced grants m (λ x. count x blocks + (one_if x table + f x)) live)
