-- ===== src/Linked/Alloc.antt =====
-- Building and destroying a list: `list_build` and `list_destroy` of alloc.c, on every outcome of the
-- allocator.
pub mod Nodes
pub mod Outcome
pub mod Each
pub mod Whole
mod Tests
use linux.Base.{
  ℕ, zero, suc, ◌+◌, ◌*◌, ◌%◌, List, [], ◌∷◌, ◌++◌, Option, none, some, Bool, true, false, ltb, leb,
  ◌==◌, ◌||◌, if◌then◌else◌, bit_xor, length, replicate,
}
use linux.Base.Run.{Run, ok, undefined, misaligned, ◌>>=◌}
use linux.Base.Word.{u64}
use linux.Base.Memory.{Memory, malloc, free, free_pointer}
use linux.Linked.{Node, Store}
use linux.Linked.Modes.{AllocMode, alloc_contiguous, alloc_malloc, alloc_shuffle, alloc_page_spread}
use linux.Linked.Build.{
  checked_mul_size, init_payloads, link_sequential, count_up, shuffle_indices, link_shuffled, entry,
}
use linux.Linked.Handle.{
  ListHandle, fresh_handle, empty_handle, Heap, BuildResult, zero_node, node_size,
}
use linux.Linked.EachNode.{free_entries, build_malloc_nodes}

-- What `build_contiguous` and `build_page_spread` have in common, once their two blocks are there.
unfoldable pub fill_views : ListHandle → (n seed storage table : ℕ) → Store → Memory → BuildResult
fill_views handle n seed storage table store m =
    let views = count_up n (length store) in
    init_payloads views n seed (store ++ replicate n zero_node) >>= λ store1.
    link_sequential views n store1 >>= λ store2. ok (
      true,
      record handle { head = some (length store); storage = some storage; indirect = some table },
      record { store = store2; memory = m },
    )

-- From what both calls of `calloc` returned on.
unfoldable pub contiguous_from :
    ListHandle → (n seed : ℕ) → (nodes views : Option ℕ) → Store → Memory → BuildResult
contiguous_from handle n seed (some nodes) (some views) store m =
    fill_views (record handle { storage_len = u64 (n * node_size) }) n seed nodes views store m
contiguous_from handle n seed nodes views store m = free_pointer nodes m >>= λ m1.
    free_pointer views m1 >>= λ m2. ok (false, handle, record { store = store; memory = m2 })

unfoldable pub build_contiguous :
    (grants : ℕ → Bool) → ListHandle → (n seed : ℕ) → Heap → BuildResult
build_contiguous grants handle n seed heap =
    let (nodes, m1) = malloc grants heap.memory in
    let (views, m2) = malloc grants m1 in contiguous_from handle n seed nodes views heap.store m2

-- The distance of the nodes that is used in place of `spread_bytes`.
unfoldable pub stride_of : (page_size spread_bytes : ℕ) → ℕ
stride_of page_size spread_bytes =
    let chosen = if spread_bytes == 0 then page_size else spread_bytes in
    if ltb chosen node_size then node_size else chosen

-- Once `calloc` has returned for the views. The nodes lie `stride` bytes apart, which is undefined
-- where one of them is not aligned to 8 bytes.
unfoldable pub spread_views :
    ListHandle → (n seed stride region_len region : ℕ) → Store → Option ℕ × Memory → BuildResult
spread_views handle n seed stride region_len region store (none, m) =
    free region m >>= λ m'. ok (false, handle, record { store = store; memory = m' })
spread_views handle n seed stride region_len region store (some views, m) =
    if leb n 1 || stride % 8 == 0
    then fill_views (record handle { storage_len = region_len; spread_bytes = stride }) n seed
        region views store m
    else undefined misaligned

-- Once `posix_memalign` has returned.
unfoldable pub spread_from :
    (grants : ℕ → Bool)
    → ListHandle
    → (n seed stride region_len : ℕ) → Store
    → Option ℕ × Memory
    → BuildResult
spread_from grants handle n seed stride region_len store (none, m) =
    ok (false, handle, record { store = store; memory = m })
spread_from grants handle n seed stride region_len store (some region, m) =
    spread_views handle n seed stride region_len region store (malloc grants m)

-- `page_size` is what `sysconf` returns, `none` where that is not positive.
unfoldable pub build_page_spread :
    (grants : ℕ → Bool)
    → (page_size : Option ℕ) → ListHandle
    → (n seed spread_bytes : ℕ) → Heap
    → BuildResult
build_page_spread grants none handle n seed spread_bytes heap = ok (false, handle, heap)
build_page_spread grants (some page_size) handle n seed spread_bytes heap =
    let stride = stride_of page_size spread_bytes in
    elim (checked_mul_size n stride) [
      | none ↦ ok (false, handle, heap)
      | some region_len ↦
          spread_from grants handle n seed stride region_len heap.store (malloc grants heap.memory)
    ]

unfoldable pub build_by_mode :
    (grants : ℕ → Bool)
    → (page_size : Option ℕ) → (n : ℕ) → AllocMode
    → (seed spread_bytes : ℕ) → Heap
    → BuildResult
build_by_mode grants page_size n alloc_contiguous seed spread_bytes heap =
    build_contiguous grants (fresh_handle n alloc_contiguous spread_bytes) n seed heap
build_by_mode grants page_size n alloc_malloc seed spread_bytes heap =
    build_malloc_nodes grants (fresh_handle n alloc_malloc spread_bytes) n seed false heap
build_by_mode grants page_size n alloc_shuffle seed spread_bytes heap =
    build_malloc_nodes grants (fresh_handle n alloc_shuffle spread_bytes) n seed true heap
build_by_mode grants page_size n alloc_page_spread seed spread_bytes heap =
    build_page_spread grants page_size (fresh_handle n alloc_page_spread spread_bytes) n seed
      spread_bytes heap

unfoldable pub list_build :
    (grants : ℕ → Bool)
    → (page_size : Option ℕ) → (n : ℕ) → AllocMode
    → (seed spread_bytes : ℕ) → Heap
    → BuildResult
list_build grants page_size n mode seed spread_bytes heap =
    if n == 0
    then ok (false, empty_handle, heap)
    else build_by_mode grants page_size n mode seed spread_bytes heap

-- The nodes of a list that has its own block for each, as many as its `n` says, and their table.
unfoldable pub destroy_nodes :
    (indirect : Option ℕ) → (n : ℕ) → (blocks : List ℕ) → Memory → Run Memory
destroy_nodes none n blocks m = ok m
destroy_nodes (some table) n blocks m = free_entries n 0 blocks m >>= free table

unfoldable pub destroy_by_mode : AllocMode → ListHandle → Memory → Run Memory
destroy_by_mode alloc_contiguous list m = free_pointer list.storage m >>= free_pointer list.indirect
destroy_by_mode alloc_malloc list m = destroy_nodes list.indirect list.n list.node_blocks m
destroy_by_mode alloc_shuffle list m = destroy_nodes list.indirect list.n list.node_blocks m
destroy_by_mode alloc_page_spread list m =
    free_pointer list.storage m >>= free_pointer list.indirect

-- `list` is not NULL.
unfoldable pub list_destroy : ListHandle → Memory → Run (ListHandle × Memory)
list_destroy list m = destroy_by_mode list.mode list m >>= λ m'. ok (empty_handle, m')
