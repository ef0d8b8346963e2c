-- ===== src/Linked/Alloc/Tests.antt =====
-- Lists that are built on an empty heap.
use linux.Base.{
  ℕ, ◌/◌, ◌≡◌, refl, List, [], ◌∷◌, none, some, Bool, true, false, ltb, get_elem?, length, arith,
}
use linux.Base.Run.{ok, undefined, misaligned}
use linux.Base.Memory.{malloc, free}
use linux.Linked.{middle_fast_slow, middle_two_pass}
use linux.Linked.Modes.{alloc_shuffle, alloc_page_spread}
use linux.Linked.Middle.{Chain}
use linux.Linked.Build.{
  init_payloads, init_loop, link_loop, count_up, shuffle_indices, link_shuffled, checked_mul_size,
  splitmix64_next, shuffle_loop, swap,
}
use linux.Linked.Handle.{ListHandle, Heap}
use linux.Linked.EachNode.{
  build_malloc_nodes, malloc_nodes_from, nodes_loop, new_node, link_allocated, link_nodes,
  link_by_indices, linked_handle, free_all, give_up,
}
use linux.Linked.Alloc.{
  list_build, build_by_mode, build_page_spread, spread_from, spread_views, stride_of,
}
use linux.Linked.Alloc.Whole.{list_build-middle}

abbrev empty_heap : Heap
empty_heap = record { store = []; memory = record { calls = 0; live = [] } }

abbrev always : ℕ → Bool
always k = true

-- The fourth call of the allocator is refused.
abbrev thrice : ℕ → Bool
thrice k = ltb k 3

-- Nodes that are 20 bytes apart are not all aligned.
unaligned : list_build always (some 4096) 2 alloc_page_spread 5 20 empty_heap ≡ undefined misaligned
unfolding list_build build_by_mode build_page_spread spread_from spread_views stride_of
    checked_mul_size malloc
unaligned = refl

given_up :
    list_build thrice none 3 alloc_shuffle 5 0 empty_heap
    ≡ ok (
      false,
      record {
        head = none;
        n = 3;
        mode = alloc_shuffle;
        spread_bytes = 0;
        storage = none;
        indirect = none;
        node_blocks = [];
        storage_len = 0;
      },
      record {
        store = record { next = none; payload = 0 } ∷ record { next = none; payload = 0 } ∷ [];
        memory = record { calls = 4; live = [] };
      },
    )
unfolding list_build build_by_mode build_malloc_nodes malloc_nodes_from nodes_loop new_node
    link_allocated give_up free_all free malloc
given_up = refl

shuffled_built :
    (handle : ListHandle) × (heap : Heap) × (list_build always none 3 alloc_shuffle 5 0 empty_heap
      ≡ ok (true, handle, heap))
unfolding list_build build_by_mode build_malloc_nodes malloc_nodes_from nodes_loop new_node
    link_allocated link_nodes link_by_indices linked_handle free malloc init_payloads init_loop
    count_up shuffle_indices shuffle_loop swap link_shuffled link_loop splitmix64_next
shuffled_built = (_, _, refl)

list_build-middle_example :
    (order : List ℕ) × Chain shuffled_built.1.store shuffled_built.0.head order
    × (length order ≡ 3)
    × (middle_fast_slow shuffled_built.1.store 4 shuffled_built.0.head
        ≡ ok (get_elem? order (3 / 2)))
    × (middle_two_pass shuffled_built.1.store 4 shuffled_built.0.head
        ≡ ok (get_elem? order (3 / 2)))
list_build-middle_example =
    list_build-middle always none 3 alloc_shuffle 5 0 empty_heap shuffled_built.0 shuffled_built.1 4
      (λ p e. absurd (no_page p e)) (λ e. refl) shuffled_built.2 (omega arith) (omega arith)
  where
    no_page : (p : ℕ) → none ≡ some p → ⊥
    no_page p e = cc
