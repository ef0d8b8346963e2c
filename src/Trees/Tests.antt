-- ===== src/Trees/Tests.antt =====
-- Both trees over a few keys.
use linux.Base.{
  ℕ, zero, suc, ◌+◌, ◌<◌, ◌≡◌, refl, List, [], ◌∷◌, some, none, Bool, true, false, ltb, length,
  arith,
}
use linux.Base.Int.{ℤ, pos}
use linux.Base.Run.{ok, Gives}
use linux.Base.Memory.{Memory, malloc, free, free_pointer, count}
use linux.Base.Arrays.{swap_cells}
use linux.Trees.{next_rng}
use linux.Trees.Btree.{
  leaf, BtreeTree, add_child, child_count_of, separator, children_loop, build_node, build_btree_rec,
  btree_tree_init, btree_tree_fill, btree_tree_finish, lookup_from, btree_leaf_lookup,
  btree_tree_lookup, btree_tree_destroy, destroy_root, destroy_btree_rec,
}
use linux.Trees.Btree.Find.{IsAscending, entry}
use linux.Trees.Btree.Init as Wide
use linux.Trees.Bst.{
  BstTree, bst_tree_init, bst_tree_alloc, bst_tree_fill, bst_tree_finish, perm_loop, first_indices,
  nodes_loop, place_node, build_bst_from_sorted_nodes, bst_tree_lookup,
}
use linux.Trees.Bst.Init as Binary
use linux.Trees.Agree.{btree_tree_lookup-bst_tree_lookup}

-- `left` keys from `i` on.
unfoldable keys_from : (left i : ℕ) → List ℤ
keys_from zero i = []
keys_from (suc left) i = pos i ∷ keys_from left (i + 1)

length-keys_from : (left i : ℕ) → length (keys_from left i) ≡ left
unfolding keys_from
length-keys_from zero i = refl
length-keys_from (suc left) i = omega (arith, length-keys_from left (i + 1))

entry-keys_from : (left i j : ℕ) → j < left → entry (keys_from left i) j ≡ pos (i + j)
unfolding keys_from
entry-keys_from zero i j h = absurd (omega arith)
entry-keys_from (suc left) i zero h = ground arith
entry-keys_from (suc left) i (suc j) h =
    ground (arith, entry-keys_from left (i + 1) j (omega arith))

keys_from-IsAscending : (n : ℕ) → IsAscending (keys_from n 0) n
keys_from-IsAscending n i j p q =
    rw (entry-keys_from n 0 i (omega arith), entry-keys_from n 0 j q) (omega arith)

abbrev always : ℕ → Bool
always k = true

abbrev no_memory : Memory
no_memory = record { calls = 0; live = [] }

-- The third call of the allocator is refused.
abbrev twice : ℕ → Bool
twice k = ltb k 2

btree_tree_init-Opened_example :
    Gives
      (Wide.Opened twice (keys_from 40 0) 40 (λ x. count x []))
      (btree_tree_init twice (keys_from 40 0) 40 no_memory)
btree_tree_init-Opened_example =
    Wide.btree_tree_init-Opened twice (keys_from 40 0) 40 no_memory
      (omega (arith, length-keys_from 40 0)) (keys_from-IsAscending 40)

bst_tree_init-Opened_example :
    Gives
      (Binary.Opened always (keys_from 3 0) 3 (λ x. count x []))
      (bst_tree_init always (keys_from 3 0) 3 7 no_memory)
bst_tree_init-Opened_example =
    Binary.bst_tree_init-Opened always (keys_from 3 0) 3 7 no_memory
      (omega (arith, length-keys_from 3 0)) (keys_from-IsAscending 3)

abbrev wide : BtreeTree
wide = record { root = some (leaf 1 0 2); keys = some (0, pos 0 ∷ pos 1 ∷ []); key_count = 2 }

wide_built :
    btree_tree_init always (keys_from 2 0) 2 no_memory
    ≡ ok (true, wide, record { calls = 2; live = 1 ∷ 0 ∷ [] })
unfolding btree_tree_init btree_tree_fill btree_tree_finish build_btree_rec build_node malloc
    keys_from
wide_built = refl

refused_built :
    btree_tree_init twice (keys_from 40 0) 40 no_memory
    ≡ ok
        (false, record { root = none; keys = none; key_count = 0 }, record { calls = 3; live = [] })
unfolding btree_tree_init btree_tree_fill btree_tree_finish build_btree_rec build_node children_loop
    child_count_of separator add_child malloc free free_pointer btree_tree_destroy destroy_root
    destroy_btree_rec keys_from
refused_built = refl

binary_built :
    (binary : BstTree) × (b : Memory) × (bst_tree_init always (keys_from 2 0) 2 7 no_memory
      ≡ ok (true, binary, b))
unfolding bst_tree_init bst_tree_alloc bst_tree_fill bst_tree_finish perm_loop first_indices
    nodes_loop place_node build_bst_from_sorted_nodes malloc free keys_from swap_cells next_rng
binary_built = (_, _, refl)

btree_tree_lookup-bst_tree_lookup_example :
    btree_tree_lookup wide (pos 1) ≡ ok (bst_tree_lookup binary_built.0 (pos 1))
btree_tree_lookup-bst_tree_lookup_example =
    btree_tree_lookup-bst_tree_lookup (keys_from 2 0) 2 7 always always no_memory no_memory wide _
      binary_built.0 binary_built.1 (omega (arith, length-keys_from 2 0)) (keys_from-IsAscending 2)
      wide_built binary_built.2 (pos 1)

found_one : btree_tree_lookup wide (pos 1) ≡ ok (pos 1)
unfolding btree_tree_lookup lookup_from btree_leaf_lookup
found_one = refl
