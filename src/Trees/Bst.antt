-- ===== src/Trees/Bst.antt =====
-- The binary search tree: its nodes are allocated in a shuffled order, linked by halving the sorted
-- array of them, searched, and freed.
pub mod Find
pub mod Shuffle
pub mod Nodes
pub mod Init
use linux.Base.{
  ℕ, zero, suc, ◌+◌, ◌-◌, ◌/◌, ◌%◌, List, [], ◌∷◌, Option, none, some, Bool, true, false, ltb, leb,
  ◌==◌, if◌then◌else◌, replicate,
}
use linux.Base.Int.{ℤ, negsuc, ltb_ℤ}
use linux.Base.Run.{Run, ok, out_of_fuel, null_pointer, or_undefined, ◌>>=◌}
use linux.Base.Arrays.{cell, set_cell, swap_cells}
use linux.Base.Memory.{Memory, malloc, free, free_pointer}
use linux.Trees.{next_rng}

-- `struct bst_node` with what its pointers lead to, and the block that it lies in.
pub data Bst : Type 0 where
  null : Bst
  node : (block : ℕ) → (key : ℤ) → (left right : Bst) → Bst

-- The entries of `nodes` before the nodes are linked: NULL, or a block with the key in it.
abbrev pub Nodes : Type 0
Nodes = List (Option (ℕ × ℤ))

-- The block of `nodes` stands with the entries of it.
pub record BstTree : Type 0 where
  pub root : Bst
  pub nodes : Option (ℕ × Nodes)
  pub node_count : ℕ

abbrev pub empty_bst : BstTree
empty_bst = record { root = null; nodes = none; node_count = 0 }

-- The fuel bounds the depth of the tree.
unfoldable pub build_bst_from_sorted_nodes : (fuel : ℕ) → Nodes → (lo hi : ℕ) → Run Bst
build_bst_from_sorted_nodes zero nodes lo hi = out_of_fuel
build_bst_from_sorted_nodes (suc fuel) nodes lo hi =
    let mid = lo + (hi - lo) / 2 in
    let linked : Run Bst = cell nodes mid >>= λ n. or_undefined null_pointer n >>= λ (block, key).
    build_bst_from_sorted_nodes fuel nodes lo mid >>= λ left.
    build_bst_from_sorted_nodes fuel nodes (mid + 1) hi >>= λ right.
    ok (node block key left right) in
    if leb hi lo then ok null else linked

abbrev pub block_of : Option (ℕ × ℤ) → Option ℕ
block_of none = none
block_of (some (block, key)) = some block

-- The loop that frees the nodes, from `i` on.
unfoldable pub free_nodes : (left i : ℕ) → Nodes → Memory → Run Memory
free_nodes zero i nodes m = ok m
free_nodes (suc left) i nodes m =
    cell nodes i >>= λ n. free_pointer (block_of n) m >>= free_nodes left (i + 1) nodes

unfoldable pub bst_tree_destroy : BstTree → Memory → Run (BstTree × Memory)
bst_tree_destroy tree m = elim tree.nodes [
  | none ↦ ok (empty_bst, m)
  | some (block, nodes) ↦
      free_nodes tree.node_count 0 nodes m >>= λ m1. free block m1 >>= λ m2. ok (empty_bst, m2)
]

-- `perm[i] = i`, with `left` entries to go.
unfoldable pub first_indices : (left i : ℕ) → List ℕ
first_indices zero i = []
first_indices (suc left) i = i ∷ first_indices left (i + 1)

-- The rounds of the shuffle with `i` from `left + 1` down to 2.
unfoldable pub perm_loop : (left rng : ℕ) → List ℕ → Run (List ℕ)
perm_loop zero rng perm = ok perm
perm_loop (suc left) rng perm =
    swap_cells perm (left + 1) (next_rng rng % (left + 2)) >>= perm_loop left (next_rng rng)

-- A round of the loop over `perm` once `malloc` has returned; `rest` is the rounds that follow.
unfoldable pub place_node :
    List ℤ
    → (idx : ℕ) → Nodes
    → (rest : Nodes → Memory → Run (Bool × Nodes × Memory)) → Option ℕ × Memory
    → Run (Bool × Nodes × Memory)
place_node keys idx nodes rest (none, m) = ok (false, nodes, m)
place_node keys idx nodes rest (some block, m) =
    cell keys idx >>= λ key. set_cell nodes idx (some (block, key)) >>= λ nodes'. rest nodes' m

-- The loop from `i` on, and whether all of its nodes were allocated. The padding of a node only
-- changes the size that `malloc` is asked for, and is left out with the numbers drawn for it.
unfoldable pub nodes_loop :
    (grants : ℕ → Bool)
    → List ℤ
    → (perm : List ℕ) → (left i : ℕ) → Nodes
    → Memory
    → Run (Bool × Nodes × Memory)
nodes_loop grants keys perm zero i nodes m = ok (true, nodes, m)
nodes_loop grants keys perm (suc left) i nodes m = cell perm i >>= λ idx.
    place_node keys idx nodes (nodes_loop grants keys perm left (i + 1)) (malloc grants m)

-- After the loop: whether the result is 0 (it is -1 otherwise), the tree and the memory. The fuel is
-- `key_count + 1`.
unfoldable pub bst_tree_finish :
    (block perm key_count : ℕ) → Bool × Nodes × Memory → Run (Bool × BstTree × Memory)
bst_tree_finish block perm key_count (done, nodes, m) = free perm m >>= λ m1.
    if done
    then (build_bst_from_sorted_nodes (key_count + 1) nodes 0 key_count >>= λ root.
        ok (true, record { root = root; nodes = some (block, nodes); node_count = key_count }, m1))
    else (bst_tree_destroy
          record { root = null; nodes = some (block, nodes); node_count = key_count } m1
        >>= λ (tree, m2). ok (false, tree, m2))

-- From what `malloc` returned for `perm` on; `block` is that of the nodes.
unfoldable pub bst_tree_fill :
    (grants : ℕ → Bool)
    → List ℤ
    → (key_count seed block : ℕ) → Option ℕ × Memory
    → Run (Bool × BstTree × Memory)
bst_tree_fill grants keys key_count seed block (none, m) =
    bst_tree_destroy
      record { root = null; nodes = some (block, replicate key_count none); node_count = key_count }
      m
    >>= λ (tree, m'). ok (false, tree, m')
bst_tree_fill grants keys key_count seed block (some p, m) =
    let rng = if seed == 0 then 0x9e3779b97f4a7c15 else seed in
    perm_loop (key_count - 1) rng (first_indices key_count 0) >>= λ perm.
    nodes_loop grants keys perm key_count 0 (replicate key_count none) m
    >>= bst_tree_finish block p key_count

-- From what `calloc` returned for the nodes on.
unfoldable pub bst_tree_alloc :
    (grants : ℕ → Bool)
    → List ℤ
    → (key_count seed : ℕ) → Option ℕ × Memory
    → Run (Bool × BstTree × Memory)
bst_tree_alloc grants keys key_count seed (none, m) = ok (false, empty_bst, m)
bst_tree_alloc grants keys key_count seed (some block, m) =
    bst_tree_fill grants keys key_count seed block (malloc grants m)

unfoldable pub bst_tree_init :
    (grants : ℕ → Bool) → List ℤ → (key_count seed : ℕ) → Memory → Run (Bool × BstTree × Memory)
bst_tree_init grants keys key_count seed m =
    if key_count == 0
    then ok (false, empty_bst, m)
    else bst_tree_alloc grants keys key_count seed (malloc grants m)

-- The rounds of `while (node != NULL)`.
unfoldable pub bst_lookup_from : Bst → ℤ → ℤ
bst_lookup_from null key = negsuc 0
bst_lookup_from (node block k left right) key =
    let l = bst_lookup_from left key in
    let r = bst_lookup_from right key in if ltb_ℤ key k then l else if ltb_ℤ k key then r else k

unfoldable pub bst_tree_lookup : BstTree → ℤ → ℤ
bst_tree_lookup tree key = bst_lookup_from tree.root key
