-- ===== src/Trees/Btree.antt =====
-- The B-tree: built over a sorted array that it keeps a copy of, searched, and freed.
pub mod Find
pub mod Build
pub mod Init
use linux.Base.{
  ℕ, zero, suc, ◌+◌, ◌-◌, ◌*◌, ◌/◌, ◌%◌, ◌^◌, List, [], ◌∷◌, ◌++◌, Option, none, some, Bool, true,
  false, ltb, leb, ◌==◌, if◌then◌else◌, get_or, take,
}
use linux.Base.Int.{ℤ, pos, negsuc, ltb_ℤ, eqb_ℤ}
use linux.Base.Word.{u8}
use linux.Base.Run.{Run, ok, undefined, out_of_fuel, out_of_bounds, ◌>>=◌}
use linux.Base.Arrays.{cell}
use linux.Base.Memory.{Memory, malloc, free, free_pointer}

abbrev pub btree_fanout : ℕ
btree_fanout = 16

abbrev pub btree_leaf_cap : ℕ
btree_leaf_cap = 32

-- `struct btree_node`, whose field `leaf` says which it is, with the fields that are read there. The
-- first is the block that the node lies in.
mutual
  pub data Btree : Type 0 where
    leaf : (block start count : ℕ) → Btree
    branch : (block key_count child_count : ℕ) → (keys : List ℤ) → Children → Btree

  -- `children`, up to the first NULL.
  pub data Children : Type 0 where
    no_child : Children
    child : Btree → Children → Children

unfoldable pub add_child : Children → Btree → Children
add_child no_child t = child t no_child
add_child (child s cs) t = child s (add_child cs t)

-- The loop goes through `child_count` entries of `children`; to free NULL does nothing.
unfoldable mutual
  pub destroy_btree_rec : Btree → Memory → Run Memory
  destroy_btree_rec (leaf block start count) m = free block m
  destroy_btree_rec (branch block key_count child_count keys cs) m =
      destroy_children child_count cs m >>= free block

  pub destroy_children : (left : ℕ) → Children → Memory → Run Memory
  destroy_children zero cs m = ok m
  destroy_children (suc left) no_child m = ok m
  destroy_children (suc left) (child t cs) m = destroy_btree_rec t m >>= destroy_children left cs

unfoldable pub child_count_of : ℕ → ℕ
child_count_of count =
    let child_count = if ltb count btree_fanout then count else btree_fanout in
    if ltb child_count 2 then 2 else child_count

-- `keys[child_hi - 1]`, unless the child is the last; `left` children follow.
unfoldable pub separator : List ℤ → (left child_hi : ℕ) → Run (List ℤ)
separator keys zero child_hi = ok []
separator keys (suc left) child_hi = cell keys (child_hi - 1) >>= λ k. ok (k ∷ [])

-- The loop over the children from `i` on, with `left` to go: `done` are those before, which are freed
-- where one cannot be built, and `build` is the recursive call.
unfoldable pub children_loop :
    (build : (lo hi : ℕ) → Memory → Run (Option Btree × Memory))
    → List ℤ
    → (block base rem left i cursor : ℕ) → Children
    → Memory
    → Run (Option (List ℤ × Children) × Memory)
children_loop build keys block base rem zero i cursor done m = ok (some ([], no_child), m)
children_loop build keys block base rem (suc left) i cursor done m =
    let child_hi = cursor + (base + (if ltb i rem then 1 else 0)) in
    build cursor child_hi m >>= λ (built, m'). elim built [
      | none ↦ destroy_children i done m' >>= λ m1. free block m1 >>= λ m2. ok (none, m2)
      | some t ↦ separator keys left child_hi >>= λ key.
          children_loop build keys block base rem left (i + 1) child_hi (add_child done t) m'
          >>= λ (rest, m''). elim rest [
            | none ↦ ok (none, m'')
            | some (ks, cs) ↦ ok (some (key ++ ks, child t cs), m'')
          ]
    ]

-- The body of `build_btree_rec` from what `calloc` returned on; `build` is the recursive call.
unfoldable pub build_node :
    (build : (lo hi : ℕ) → Memory → Run (Option Btree × Memory))
    → List ℤ
    → (lo hi : ℕ) → Option ℕ × Memory
    → Run (Option Btree × Memory)
build_node build keys lo hi (none, m) = ok (none, m)
build_node build keys lo hi (some block, m) =
    let count = hi - lo in
    let child_count = child_count_of count in
    if leb count btree_leaf_cap
    then ok (some (leaf block lo count), m)
    else (children_loop build keys block (count / child_count) (count % child_count) child_count 0
          lo no_child m
        >>= λ (built, m'). elim built [
          | none ↦ ok (none, m')
          | some (ks, cs) ↦
              ok (some (branch block (u8 (child_count - 1)) (u8 child_count) ks cs), m')
        ])

-- Whether calls of the allocator are granted is `grants`; `lo` is at most `hi`. The fuel bounds the
-- depth of the tree.
unfoldable pub build_btree_rec :
    (fuel : ℕ) → (grants : ℕ → Bool) → List ℤ → (lo hi : ℕ) → Memory → Run (Option Btree × Memory)
build_btree_rec zero grants keys lo hi m = out_of_fuel
build_btree_rec (suc fuel) grants keys lo hi m =
    build_node (build_btree_rec fuel grants keys) keys lo hi (malloc grants m)

-- `keys` is the block of the copy with the entries of it.
pub record BtreeTree : Type 0 where
  pub root : Option Btree
  pub keys : Option (ℕ × List ℤ)
  pub key_count : ℕ

abbrev pub empty_btree : BtreeTree
empty_btree = record { root = none; keys = none; key_count = 0 }

unfoldable pub destroy_root : Option Btree → Memory → Run Memory
unfolding destroy_btree_rec
destroy_root none m = ok m
destroy_root (some t) m = destroy_btree_rec t m

unfoldable pub btree_tree_destroy : BtreeTree → Memory → Run (BtreeTree × Memory)
unfolding destroy_root
btree_tree_destroy tree m = destroy_root tree.root m >>= λ m1.
    free_pointer (elim tree.keys [ none ↦ none | some (block, keys) ↦ some block ]) m1 >>= λ m2.
    ok (empty_btree, m2)

-- The end of `btree_tree_init`, from what the tree was built to on.
unfoldable pub btree_tree_finish :
    (block : ℕ) → List ℤ → (key_count : ℕ) → Option Btree × Memory → Run (Bool × BtreeTree × Memory)
unfolding btree_tree_destroy destroy_root
btree_tree_finish block keys key_count (none, m) =
    btree_tree_destroy record { root = none; keys = some (block, keys); key_count = key_count } m
    >>= λ (tree, m'). ok (false, tree, m')
btree_tree_finish block keys key_count (some t, m) =
    ok (true, record { root = some t; keys = some (block, keys); key_count = key_count }, m)

-- From what `malloc` returned for the copy of the keys on. The fuel is `key_count + 1`.
unfoldable pub btree_tree_fill :
    (grants : ℕ → Bool)
    → List ℤ
    → (key_count : ℕ) → Option ℕ × Memory
    → Run (Bool × BtreeTree × Memory)
btree_tree_fill grants keys key_count (none, m) = ok (false, empty_btree, m)
btree_tree_fill grants keys key_count (some block, m) =
    build_btree_rec (key_count + 1) grants (take key_count keys) 0 key_count m
    >>= btree_tree_finish block (take key_count keys) key_count

-- Whether the result is 0 (it is -1 otherwise), the tree and the memory.
unfoldable pub btree_tree_init :
    (grants : ℕ → Bool) → List ℤ → (key_count : ℕ) → Memory → Run (Bool × BtreeTree × Memory)
btree_tree_init grants keys key_count m =
    if key_count == 0
    then ok (false, empty_btree, m)
    else btree_tree_fill grants keys key_count (malloc grants m)

-- The loop from `start` on, with `left` entries to go; -1 says that the key is not there.
unfoldable pub btree_leaf_lookup : List ℤ → (left start : ℕ) → ℤ → Run ℤ
btree_leaf_lookup keys zero start key = ok (negsuc 0)
btree_leaf_lookup keys (suc left) start key =
    let rest = btree_leaf_lookup keys left (start + 1) key in
    cell keys start >>= λ k. if eqb_ℤ k key then ok key else rest

-- `while (i < node->key_count && key > node->keys[i])`, with `left` keys to go.
unfoldable pub child_index_loop : (left : ℕ) → List ℤ → ℤ → (i : ℕ) → Run ℕ
child_index_loop zero keys key i = ok i
child_index_loop (suc left) keys key i =
    let rest = child_index_loop left keys key (i + 1) in
    cell keys i >>= λ k. if ltb_ℤ k key then rest else ok i

-- The rounds of `while (node != NULL)` from a node, and from child `i` of one.
unfoldable mutual
  pub lookup_from : List ℤ → Btree → ℤ → Run ℤ
  lookup_from keys (leaf block start count) key = btree_leaf_lookup keys count start key
  lookup_from keys (branch block key_count child_count ks cs) key =
      child_index_loop key_count ks key 0 >>= λ i. lookup_child keys cs i key

  pub lookup_child : List ℤ → Children → (i : ℕ) → ℤ → Run ℤ
  lookup_child keys no_child i key = ok (negsuc 0)
  lookup_child keys (child t cs) zero key = lookup_from keys t key
  lookup_child keys (child t cs) (suc i) key = lookup_child keys cs i key

unfoldable pub btree_tree_lookup : BtreeTree → ℤ → Run ℤ
unfolding lookup_from
btree_tree_lookup tree key =
    let keys : List ℤ = elim tree.keys [ none ↦ [] | some (block, keys) ↦ keys ] in
    elim tree.root [ none ↦ ok (negsuc 0) | some t ↦ lookup_from keys t key ]
