-- ===== src/Linked/EachNode.antt =====
-- `build_malloc_nodes` of alloc.c: a block for each node, linked in order or shuffled.
use linux.Base.{
  ℕ, zero, suc, ◌+◌, ◌*◌, List, [], ◌∷◌, ◌++◌, Option, none, some, Bool, true, false, bit_xor,
  length,
}
use linux.Base.Run.{Run, ok, ◌>>=◌}
use linux.Base.Word.{u64}
use linux.Base.Memory.{Memory, malloc, free}
use linux.Linked.{Store}
use linux.Linked.Build.{init_payloads, link_sequential, shuffle_indices, link_shuffled, entry}
use linux.Linked.Handle.{ListHandle, Heap, BuildResult, zero_node}

-- The loops `free(nodes[j])`.
unfoldable pub free_all : (blocks : List ℕ) → Memory → Run Memory
free_all [] m = ok m
free_all (block ∷ blocks) m = free block m >>= free_all blocks

-- The loop of `list_destroy` from index `i` on, with `left` to go: `free(list->indirect[i])`.
unfoldable pub free_entries : (left i : ℕ) → (blocks : List ℕ) → Memory → Run Memory
free_entries zero i blocks m = ok m
free_entries (suc left) i blocks m =
    entry blocks i >>= λ block. free block m >>= free_entries left (i + 1) blocks

-- Nodes that are to be freed, and the table of them.
unfoldable pub give_up {ℓ} :
    {A : Type ℓ} → (blocks : List ℕ) → (table : ℕ) → Store → Memory → Run (Option A × Heap)
give_up blocks table store m = free_all blocks m >>= λ m1.
    free table m1 >>= λ m2. ok (none, record { store = store; memory = m2 })

-- A round of the loop that allocates the nodes, once `malloc` has returned; `rest` is the others.
-- `init_payloads` writes a node before it is read, so what it holds before does not matter.
unfoldable pub new_node :
    (table : ℕ)
    → (addresses blocks : List ℕ) → Store
    → (rest : List ℕ → List ℕ → Store → Memory → Run (Option (List ℕ × List ℕ) × Heap))
    → Option ℕ × Memory
    → Run (Option (List ℕ × List ℕ) × Heap)
new_node table addresses blocks store rest (none, m) = give_up blocks table store m
new_node table addresses blocks store rest (some block, m) =
    rest (addresses ++ (length store ∷ [])) (blocks ++ (block ∷ [])) (store ++ (zero_node ∷ [])) m

unfoldable pub nodes_loop :
    (grants : ℕ → Bool)
    → (table left : ℕ) → (addresses blocks : List ℕ) → Store
    → Memory
    → Run (Option (List ℕ × List ℕ) × Heap)
nodes_loop grants table zero addresses blocks store m =
    ok (some (addresses, blocks), record { store = store; memory = m })
nodes_loop grants table (suc left) addresses blocks store m =
    new_node table addresses blocks store (nodes_loop grants table left) (malloc grants m)

-- The shuffled linking once `calloc` has returned: the head, or `none` where the result is -1.
unfoldable pub link_by_indices :
    (n seed table : ℕ)
    → (addresses blocks : List ℕ) → Store
    → Option ℕ × Memory
    → Run (Option ℕ × Heap)
link_by_indices n seed table addresses blocks store (none, m) = give_up blocks table store m
link_by_indices n seed table addresses blocks store (some indices, m) =
    shuffle_indices n (bit_xor seed 0xa5a5a5a5a5a5a5a5) >>= λ order.
    link_shuffled addresses order n store >>= λ (store', head).
    free indices m >>= λ m'. ok (some head, record { store = store'; memory = m' })

-- Either way to link the nodes.
unfoldable pub link_nodes :
    (grants : ℕ → Bool)
    → (shuffle_links : Bool) → (n seed table : ℕ) → (addresses blocks : List ℕ) → Store
    → Memory
    → Run (Option ℕ × Heap)
link_nodes grants false n seed table addresses blocks store m =
    link_sequential addresses n store >>= λ store'.
    entry addresses 0 >>= λ head. ok (some head, record { store = store'; memory = m })
link_nodes grants true n seed table addresses blocks store m =
    link_by_indices n seed table addresses blocks store (malloc grants m)

-- The end of `build_malloc_nodes`.
unfoldable pub linked_handle :
    ListHandle → (n table : ℕ) → (blocks : List ℕ) → Option ℕ × Heap → BuildResult
linked_handle handle n table blocks (none, heap) = ok (false, handle, heap)
linked_handle handle n table blocks (some head, heap) = ok (
  true,
  record handle {
    head = some head;
    storage = some table;
    indirect = some table;
    node_blocks = blocks;
    storage_len = u64 (n * 8);
  },
  heap,
)

-- Once the nodes are allocated, or not.
unfoldable pub link_allocated :
    (grants : ℕ → Bool)
    → ListHandle
    → (shuffle_links : Bool) → (n seed table : ℕ) → Option (List ℕ × List ℕ) × Heap
    → BuildResult
link_allocated grants handle shuffle_links n seed table (none, heap) = ok (false, handle, heap)
link_allocated grants handle shuffle_links n seed table (some (addresses, blocks), heap) =
    init_payloads addresses n seed heap.store >>= λ store.
    link_nodes grants shuffle_links n seed table addresses blocks store heap.memory
    >>= linked_handle handle n table blocks

-- Once `calloc` has returned for the table of the nodes.
unfoldable pub malloc_nodes_from :
    (grants : ℕ → Bool)
    → ListHandle
    → (shuffle_links : Bool) → (n seed : ℕ) → Store
    → Option ℕ × Memory
    → BuildResult
malloc_nodes_from grants handle shuffle_links n seed store (none, m) =
    ok (false, handle, record { store = store; memory = m })
malloc_nodes_from grants handle shuffle_links n seed store (some table, m) =
    nodes_loop grants table n [] [] store m
    >>= link_allocated grants handle shuffle_links n seed table

unfoldable pub build_malloc_nodes :
    (grants : ℕ → Bool) → ListHandle → (n seed : ℕ) → (shuffle_links : Bool) → Heap → BuildResult
build_malloc_nodes grants handle n seed shuffle_links heap =
    malloc_nodes_from grants handle shuffle_links n seed heap.store (malloc grants heap.memory)
