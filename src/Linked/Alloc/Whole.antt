-- ===== src/Linked/Alloc/Whole.antt =====
-- The whole of `list_build`, with `list_destroy` and the searches of the middle after it.
use linux.Base.{
  ℕ, zero, suc, ◌+◌, ◌/◌, ◌%◌, ◌^◌, ◌<◌, ◌≡◌, refl, List, [], Option, none, some, Bool, true, false,
  ◌==◌, length, get_elem?, arith, Option-cases, inl, inr,
}
use linux.Base.Run.{ok, Gives, gives, Gives-then, Gives-at}
use linux.Base.Memory.{
  Memory, malloc, count, one_if, IsLive, free-IsLive, Denies, Malloced, refused, granted,
  malloc-Malloced,
}
use linux.Linked.{Store, middle_fast_slow, middle_two_pass}
use linux.Linked.Modes.{AllocMode, alloc_contiguous, alloc_malloc, alloc_shuffle, alloc_page_spread}
use linux.Linked.Middle.{Chain, middle_fast_slow-middle_two_pass}
use linux.Linked.Build.{count_up, checked_mul_size}
use linux.Linked.Build.Distinct.{length-count_up}
use linux.Linked.Handle.{ListHandle, Heap, fresh_handle, empty_handle}
use linux.Linked.EachNode.{linked_handle, link_allocated, malloc_nodes_from, build_malloc_nodes}
use linux.Linked.Alloc.{
  destroy_by_mode, destroy_nodes, list_destroy, stride_of, build_page_spread, build_by_mode,
  list_build,
}
use linux.Linked.Alloc.Nodes.{count_up-IsNodes, init_payloads-length}
use linux.Linked.Alloc.Outcome.{
  Built, is_built, not_built, Refusal, no_nodes, no_memory, no_page_size, too_large, Releases,
  build_contiguous-Built, refused_spread, spread_from-Built, one_block-Releases, contiguous,
  stride_of-aligned,
}
use linux.Linked.Alloc.Each.{
  Allocated, not_allocated, allocated, IsLinked, not_linked, is_linked, nodes_loop-Allocated,
  link_nodes-IsLinked, free_entries-IsLive,
}

-- The two ways that have a block for each node.
data HasOwnBlocks : AllocMode → Type 0 where
  each : HasOwnBlocks alloc_malloc
  each_shuffled : HasOwnBlocks alloc_shuffle

destroy_by_mode-own :
    (mode : AllocMode) (handle : ListHandle) (m : Memory)
    → HasOwnBlocks mode
    → handle.mode ≡ mode
    → destroy_by_mode handle.mode handle m
      ≡ destroy_nodes handle.indirect handle.n handle.node_blocks m
unfolding destroy_by_mode
destroy_by_mode-own mode handle m each e = rw e refl
destroy_by_mode-own mode handle m each_shuffled e = rw e refl

own-Releases :
    (mode : AllocMode) (handle : ListHandle) (table : ℕ) (m : Memory) (f : ℕ → ℕ)
    → HasOwnBlocks mode
    → handle.mode ≡ mode
    → handle.indirect ≡ some table
    → length handle.node_blocks ≡ handle.n
    → IsLive m (λ x. count x handle.node_blocks + (one_if x table + f x))
    → Releases handle m f
unfolding list_destroy destroy_nodes
own-Releases mode handle table m f own e e' size live =
    rw (destroy_by_mode-own mode handle m own e, e')
      (Gives-then (λ m' live'. gives _ live')
        (Gives-then (λ m1 live1. free-IsLive table m1 f live1)
          (free_entries-IsLive handle.n handle.node_blocks m (λ x. one_if x table + f x) size
            live)))

module _ (grants : ℕ → Bool) (page_size : Option ℕ) (mode : AllocMode) (own : HasOwnBlocks mode)
    (shuffle_links : Bool) (k seed spread_bytes : ℕ) (f : ℕ → ℕ) where
  abbrev Promise : Bool × ListHandle × Heap → Type 0
  Promise = Built (Refusal grants page_size (suc k) spread_bytes) (suc k) f

  -- A fresh handle has nothing to free.
  refused_each :
      (heap : Heap)
      → Denies grants
      → IsLive heap.memory f
      → Promise (false, fresh_handle (suc k) mode spread_bytes, heap)
  unfolding list_destroy destroy_nodes
  refused_each heap denied live = not_built _ heap (no_memory denied) live (
      rw (destroy_by_mode-own mode (fresh_handle (suc k) mode spread_bytes) heap.memory own refl)
        (gives _ live))

  linked_handle-Built :
      (table : ℕ) (blocks : List ℕ) (r : Option ℕ × Heap)
      → length blocks ≡ suc k
      → IsLinked grants (suc k) table blocks f r
      → Gives Promise
          (linked_handle (fresh_handle (suc k) mode spread_bytes) (suc k) table blocks r)
  unfolding linked_handle
  linked_handle-Built table blocks r all (not_linked heap denied live) =
      gives _ (refused_each heap denied live)
  linked_handle-Built table blocks r all (is_linked head heap order chain size live) = gives _ (
      is_built _ heap order chain size
        (own-Releases mode _ table heap.memory f own refl refl all live))

  link_allocated-Built :
      (base table : ℕ) (r : Option (List ℕ × List ℕ) × Heap)
      → Allocated grants base (suc k) table f r
      → Gives Promise (
          link_allocated grants
            (fresh_handle (suc k) mode spread_bytes)
            shuffle_links
            (suc k)
            seed
            table
            r)
  unfolding link_allocated
  link_allocated-Built base table r (not_allocated heap denied live) =
      gives _ (refused_each heap denied live)
  link_allocated-Built base table r (allocated blocks heap e all live) =
      Gives-then
        (λ store same.
          Gives-then (λ r'. linked_handle-Built table blocks r' all)
            (link_nodes-IsLinked grants k seed table base blocks f shuffle_links store heap.memory
              (omega (arith, e, same)) live))
        (init_payloads-length (count_up (suc k) base) (suc k) seed heap.store
          (omega (arith, length-count_up (suc k) base))
          (count_up-IsNodes (suc k) base heap.store (omega (arith, e))))

  malloc_nodes_from-Built :
      (store : Store) (r : Option ℕ × Memory)
      → Malloced grants f r
      → Gives Promise (
          malloc_nodes_from grants
            (fresh_handle (suc k) mode spread_bytes)
            shuffle_links
            (suc k)
            seed
            store
            r)
  unfolding malloc_nodes_from count_up
  malloc_nodes_from-Built store r (refused m denied live) = gives _ (refused_each _ denied live)
  malloc_nodes_from-Built store r (granted table m live) =
      Gives-then (link_allocated-Built (length store) table) (
        nodes_loop-Allocated grants (length store) (suc k) table f (suc k) 0 [] store m
          (omega arith) (omega arith) refl (λ x. omega (arith, live x)))

  build_malloc_nodes-Built :
      (heap : Heap)
      → IsLive heap.memory f
      → Gives Promise (
          build_malloc_nodes grants
            (fresh_handle (suc k) mode spread_bytes)
            (suc k)
            seed
            shuffle_links
            heap)
  unfolding build_malloc_nodes
  build_malloc_nodes-Built heap live =
      malloc_nodes_from-Built heap.store (malloc grants heap.memory)
        (malloc-Malloced grants heap.memory f live)

build_page_spread-Built :
    (grants : ℕ → Bool) (page_size : Option ℕ) (k seed spread_bytes : ℕ) (f : ℕ → ℕ) (heap : Heap)
    → ((p : ℕ) → page_size ≡ some p → p % 8 ≡ 0)
    → spread_bytes % 8 ≡ 0
    → IsLive heap.memory f
    → Gives (Built (Refusal grants page_size (suc k) spread_bytes) (suc k) f) (
        build_page_spread grants page_size
          (fresh_handle (suc k) alloc_page_spread spread_bytes)
          (suc k)
          seed
          spread_bytes
          heap)
unfolding build_page_spread
build_page_spread-Built grants none k seed spread_bytes f heap whole aligned live =
    refused_spread grants none k seed spread_bytes f heap.store heap.memory (no_page_size refl) live
build_page_spread-Built grants (some p) k seed spread_bytes f heap whole aligned live =
    elim (Option-cases (checked_mul_size (suc k) (stride_of p spread_bytes))) [
      | inl large ↦
          rw (large, build_page_spread)
            (refused_spread grants (some p) k seed spread_bytes f heap.store heap.memory
              (too_large p refl large) live)
      | inr (region_len, fits) ↦
          rw (fits, build_page_spread)
            (spread_from-Built grants (some p) k seed spread_bytes f (stride_of p spread_bytes)
              region_len heap.store (malloc grants heap.memory)
              (stride_of-aligned grants (some p) k seed spread_bytes f p (whole p refl) aligned)
              (malloc-Malloced grants heap.memory f live))
    ]

build_by_mode-Built :
    (grants : ℕ → Bool) (page_size : Option ℕ) (k : ℕ) (mode : AllocMode) (seed spread_bytes : ℕ)
    (heap : Heap)
    → ((p : ℕ) → page_size ≡ some p → p % 8 ≡ 0)
    → (mode ≡ alloc_page_spread → spread_bytes % 8 ≡ 0)
    → Gives
        (Built
          (Refusal grants page_size (suc k) spread_bytes)
          (suc k)
          (λ x. count x heap.memory.live))
        (build_by_mode grants page_size (suc k) mode seed spread_bytes heap)
unfolding build_by_mode
build_by_mode-Built grants page_size k alloc_contiguous seed spread_bytes heap whole aligned =
    build_contiguous-Built grants page_size k seed spread_bytes (λ x. count x heap.memory.live) heap
      (λ x. refl)
build_by_mode-Built grants page_size k alloc_malloc seed spread_bytes heap whole aligned =
    build_malloc_nodes-Built grants page_size alloc_malloc each false k seed spread_bytes
      (λ x. count x heap.memory.live) heap (λ x. refl)
build_by_mode-Built grants page_size k alloc_shuffle seed spread_bytes heap whole aligned =
    build_malloc_nodes-Built grants page_size alloc_shuffle each_shuffled true k seed spread_bytes
      (λ x. count x heap.memory.live) heap (λ x. refl)
build_by_mode-Built grants page_size k alloc_page_spread seed spread_bytes heap whole aligned =
    build_page_spread-Built grants page_size k seed spread_bytes (λ x. count x heap.memory.live)
      heap whole (aligned refl) (λ x. refl)

pub list_build-Built :
    (grants : ℕ → Bool) (page_size : Option ℕ) (n : ℕ) (mode : AllocMode) (seed spread_bytes : ℕ)
    (heap : Heap)
    → ((p : ℕ) → page_size ≡ some p → p % 8 ≡ 0)
    → (mode ≡ alloc_page_spread → spread_bytes % 8 ≡ 0)
    → Gives
        (Built (Refusal grants page_size n spread_bytes) n (λ x. count x heap.memory.live))
        (list_build grants page_size n mode seed spread_bytes heap)
unfolding list_build
list_build-Built grants page_size zero mode seed spread_bytes heap whole aligned = gives _ (
    not_built empty_handle heap (no_nodes refl) (λ x. refl)
      (one_block-Releases alloc_contiguous empty_handle heap.memory (λ x. count x heap.memory.live)
        contiguous refl (λ x. omega arith)))
list_build-Built grants page_size (suc k) mode seed spread_bytes heap whole aligned =
    let some_nodes : (suc k == 0) ≡ false = ground arith in
    rw some_nodes (build_by_mode-Built grants page_size k mode seed spread_bytes heap whole aligned)

Built-Chain :
    {reason : Type 0} {n : ℕ} {f : ℕ → ℕ} {handle : ListHandle} {heap : Heap}
    → Built reason n f (true, handle, heap)
    → (order : List ℕ) × Chain heap.store handle.head order × (length order ≡ n)
Built-Chain (is_built handle heap order chain size releases) = (order, chain, size)

-- A list that `list_build` returns, under the same conditions and with fewer than 2^64 nodes, is a
-- chain of `n` nodes, of which both searches, with more fuel than nodes, return the one at half of the
-- length, rounded down.
pub list_build-middle :
    (grants : ℕ → Bool) (page_size : Option ℕ) (n : ℕ) (mode : AllocMode) (seed spread_bytes : ℕ)
    (heap : Heap) (handle : ListHandle) (heap' : Heap) (fuel : ℕ)
    → ((p : ℕ) → page_size ≡ some p → p % 8 ≡ 0)
    → (mode ≡ alloc_page_spread → spread_bytes % 8 ≡ 0)
    → list_build grants page_size n mode seed spread_bytes heap ≡ ok (true, handle, heap')
    → n < fuel
    → n < 2 ^ 64
    → (order : List ℕ) × Chain heap'.store handle.head order
      × (length order ≡ n)
      × (middle_fast_slow heap'.store fuel handle.head ≡ ok (get_elem? order (n / 2)))
      × (middle_two_pass heap'.store fuel handle.head ≡ ok (get_elem? order (n / 2)))
list_build-middle grants page_size n mode seed spread_bytes heap handle heap' fuel whole aligned e l
      l' =
    let (order, chain, size) = Built-Chain (
      Gives-at (true, handle, heap')
        (list_build-Built grants page_size n mode seed spread_bytes heap whole aligned) e) in
    let (fast, two) =
      middle_fast_slow-middle_two_pass heap'.store fuel handle.head order chain
        (omega (arith, size)) (omega (arith, size)) in
    (order, chain, size, rw size at fast, rw size at two)
