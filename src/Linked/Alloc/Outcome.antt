-- ===== src/Linked/Alloc/Outcome.antt =====
-- What `list_build` promises, and that the ways with one block for all nodes keep it.
use linux.Base.{
  ℕ, suc, ◌+◌, ◌%◌, ◌≡◌, refl, List, ◌++◌, Option, none, some, Bool, true, false, leb, ◌==◌, ◌||◌,
  length, length-append, length-replicate, replicate, arith,
}
use linux.Base.Run.{ok, ◌>>=◌, Gives, gives, Gives-then, Gives-if}
use linux.Base.Memory.{
  Memory, malloc, free_pointer, one_if, held, IsLive, free-IsLive, free_pointer-IsLive, Denies,
  Malloced, refused, granted, malloc-Malloced, Malloced-IsLive,
}
use linux.Linked.{Store}
use linux.Linked.Modes.{AllocMode, alloc_contiguous, alloc_page_spread}
use linux.Linked.Middle.{Chain}
use linux.Linked.Build.{count_up, checked_mul_size}
use linux.Linked.Build.Distinct.{length-count_up}
use linux.Linked.Handle.{ListHandle, Heap, fresh_handle, zero_node}
use linux.Linked.Alloc.{
  fill_views, contiguous_from, build_contiguous, stride_of, spread_views, spread_from,
  destroy_by_mode, list_destroy,
}
use linux.Linked.Alloc.Nodes.{count_up-IsNodes, init_payloads-length, link_sequential-fresh}

-- Why no list is built.
pub data Refusal (grants : ℕ → Bool) (page_size : Option ℕ) (n spread_bytes : ℕ) : Type 0 where
  no_nodes : n ≡ 0 → Refusal grants page_size n spread_bytes
  no_memory : Denies grants → Refusal grants page_size n spread_bytes
  no_page_size : page_size ≡ none → Refusal grants page_size n spread_bytes
  too_large :
      (p : ℕ)
      → page_size ≡ some p
      → checked_mul_size n (stride_of p spread_bytes) ≡ none
      → Refusal grants page_size n spread_bytes

-- `list_destroy` leaves the blocks that `f` counts.
abbrev pub Releases : ListHandle → Memory → (ℕ → ℕ) → Type 0
Releases handle m f = Gives (λ (h, m'). IsLive m' f) (list_destroy handle m)

-- A chain of `n` nodes in blocks that `list_destroy` frees; or the reason why there is none, and no
-- block more than before.
pub data Built (reason : Type 0) (n : ℕ) (f : ℕ → ℕ) : Bool × ListHandle × Heap → Type 0 where
  not_built :
      (handle : ListHandle) (heap : Heap)
      → reason
      → IsLive heap.memory f
      → Releases handle heap.memory f
      → Built reason n f (false, handle, heap)
  is_built :
      (handle : ListHandle) (heap : Heap) (order : List ℕ)
      → Chain heap.store handle.head order
      → length order ≡ n
      → Releases handle heap.memory f
      → Built reason n f (true, handle, heap)

-- The two ways that have one block for all nodes.
pub data HasOneBlock : AllocMode → Type 0 where
  contiguous : HasOneBlock alloc_contiguous
  spread : HasOneBlock alloc_page_spread

pub one_block-Releases :
    (mode : AllocMode) (handle : ListHandle) (m : Memory) (f : ℕ → ℕ)
    → HasOneBlock mode
    → handle.mode ≡ mode
    → IsLive m (λ x. held handle.storage x + (held handle.indirect x + f x))
    → Releases handle m f
unfolding list_destroy destroy_by_mode
one_block-Releases mode handle m f contiguous e live = rw e (
    Gives-then (λ m2 live2. gives _ live2)
      (Gives-then (λ m1 live1. free_pointer-IsLive handle.indirect m1 f live1)
        (free_pointer-IsLive handle.storage m (λ x. held handle.indirect x + f x) live)))
one_block-Releases mode handle m f spread e live = rw e (
    Gives-then (λ m2 live2. gives _ live2)
      (Gives-then (λ m1 live1. free_pointer-IsLive handle.indirect m1 f live1)
        (free_pointer-IsLive handle.storage m (λ x. held handle.indirect x + f x) live)))

module _ (reason : Type 0) (mode : AllocMode) (one_block : HasOneBlock mode) (f : ℕ → ℕ) where
  fill_views-Built :
      (handle : ListHandle) (k seed storage table : ℕ) (store : Store) (m : Memory)
      → handle.mode ≡ mode
      → IsLive m (λ x. one_if x table + (one_if x storage + f x))
      → Gives (Built reason (suc k) f) (fill_views handle (suc k) seed storage table store m)
  unfolding fill_views
  fill_views-Built handle k seed storage table store m e live =
      let views = count_up (suc k) (length store) in
      let size : length views ≡ suc k = length-count_up (suc k) (length store) in
      let grown : length (store ++ replicate (suc k) zero_node) ≡ length store + suc k = omega (
        arith,
        length-append store (replicate (suc k) zero_node),
        length-replicate (suc k) zero_node,
      ) in
      Gives-then
        (λ s same.
          let (s', run, chain) =
            link_sequential-fresh k (length store) s (omega (arith, same, grown)) in
          rw run (
            gives _ (
              is_built _ _ views chain size
                (one_block-Releases mode _ m f one_block e (λ x. omega (arith, live x))))))
        (init_payloads-length views (suc k) seed (store ++ replicate (suc k) zero_node)
          (omega (arith, size))
          (count_up-IsNodes (suc k) (length store) (store ++ replicate (suc k) zero_node)
            (omega (arith, grown))))

-- After a refused allocation both pointers are freed, whichever of them is NULL.
undo :
    (reason : Type 0) (k spread_bytes : ℕ) (store : Store) (f : ℕ → ℕ) (p q : Option ℕ) (m : Memory)
    → reason
    → IsLive m (λ x. held p x + (held q x + f x))
    → Gives (Built reason k f) (
        free_pointer p m >>= λ m1. free_pointer q m1 >>= λ m2. ok (
          false,
          fresh_handle k alloc_contiguous spread_bytes,
          record { store = store; memory = m2 },
        ))
undo reason k spread_bytes store f p q m why live =
    Gives-then
      (λ m1 live1.
        Gives-then
          (λ m2 live2. gives _ (
            not_built _ _ why live2 (
              one_block-Releases alloc_contiguous _ m2 f contiguous refl
                (λ x. omega (arith, live2 x)))))
          (free_pointer-IsLive q m1 f live1))
      (free_pointer-IsLive p m (λ x. held q x + f x) live)

contiguous_from-Built :
    (grants : ℕ → Bool) (page_size : Option ℕ) (k seed spread_bytes : ℕ) (store : Store) (f : ℕ → ℕ)
    (r r' : Option ℕ × Memory)
    → Malloced grants f r
    → Malloced grants (λ x. held r.0 x + f x) r'
    → Gives (Built (Refusal grants page_size (suc k) spread_bytes) (suc k) f) (
        contiguous_from
          (fresh_handle (suc k) alloc_contiguous spread_bytes)
          (suc k)
          seed
          r.0
          r'.0
          store
          r'.1)
unfolding contiguous_from
contiguous_from-Built grants page_size k seed spread_bytes store f r r' (granted nodes m live)
      (granted views m' live') =
    fill_views-Built _ alloc_contiguous contiguous f _ k seed nodes views store m' refl
      (λ x. omega (arith, live' x))
contiguous_from-Built grants page_size k seed spread_bytes store f r r' (granted nodes m live)
      (refused m' denied live') =
    undo _ (suc k) spread_bytes store f (some nodes) none m' (no_memory denied)
      (λ x. omega (arith, live' x))
contiguous_from-Built grants page_size k seed spread_bytes store f r r' (refused m denied live)
      (granted views m' live') =
    undo _ (suc k) spread_bytes store f none (some views) m' (no_memory denied)
      (λ x. omega (arith, live' x))
contiguous_from-Built grants page_size k seed spread_bytes store f r r' (refused m denied live)
      (refused m' denied' live') =
    undo _ (suc k) spread_bytes store f none none m' (no_memory denied)
      (λ x. omega (arith, live' x))

module _ (grants : ℕ → Bool) (page_size : Option ℕ) (k seed spread_bytes : ℕ) (f : ℕ → ℕ) where
  pub build_contiguous-Built :
      (heap : Heap)
      → IsLive heap.memory f
      → Gives (Built (Refusal grants page_size (suc k) spread_bytes) (suc k) f) (
          build_contiguous grants
            (fresh_handle (suc k) alloc_contiguous spread_bytes)
            (suc k)
            seed
            heap)
  unfolding build_contiguous
  build_contiguous-Built heap live =
      let first = malloc-Malloced grants heap.memory f live in
      contiguous_from-Built grants page_size k seed spread_bytes heap.store f
        (malloc grants heap.memory) _ first
        (malloc-Malloced grants (malloc grants heap.memory).1
          (λ x. held (malloc grants heap.memory).0 x + f x)
          (Malloced-IsLive (malloc grants heap.memory) first))

  -- A fresh handle has nothing to free.
  pub refused_spread :
      (store : Store) (m : Memory)
      → Refusal grants page_size (suc k) spread_bytes
      → IsLive m f
      → Gives (Built (Refusal grants page_size (suc k) spread_bytes) (suc k) f) (
          ok (
            false,
            fresh_handle (suc k) alloc_page_spread spread_bytes,
            record { store = store; memory = m },
          ))
  refused_spread store m why live = gives _ (
      not_built _ _ why live
        (one_block-Releases alloc_page_spread _ m f spread refl (λ x. omega (arith, live x))))

  spread_views-Built :
      (stride region_len region : ℕ) (store : Store) (r : Option ℕ × Memory)
      → stride % 8 ≡ 0
      → Malloced grants (λ x. one_if x region + f x) r
      → Gives (Built (Refusal grants page_size (suc k) spread_bytes) (suc k) f) (
          spread_views
            (fresh_handle (suc k) alloc_page_spread spread_bytes)
            (suc k)
            seed
            stride
            region_len
            region
            store
            r)
  unfolding spread_views
  spread_views-Built stride region_len region store r aligned (refused m denied live) =
      Gives-then (λ m' live'. refused_spread store m' (no_memory denied) live')
        (free-IsLive region m f live)
  spread_views-Built stride region_len region store r aligned (granted views m live) =
      Gives-if (leb (suc k) 1 || stride % 8 == 0)
        (λ e. fill_views-Built _ alloc_page_spread spread f _ k seed region views store m refl live)
        (λ e. absurd (ground (arith, e)))

  pub spread_from-Built :
      (stride region_len : ℕ) (store : Store) (r : Option ℕ × Memory)
      → stride % 8 ≡ 0
      → Malloced grants f r
      → Gives (Built (Refusal grants page_size (suc k) spread_bytes) (suc k) f) (
          spread_from grants
            (fresh_handle (suc k) alloc_page_spread spread_bytes)
            (suc k)
            seed
            stride
            region_len
            store
            r)
  unfolding spread_from
  spread_from-Built stride region_len store r aligned (refused m denied live) =
      refused_spread store m (no_memory denied) live
  spread_from-Built stride region_len store r aligned (granted region m live) =
      spread_views-Built stride region_len region store (malloc grants m) aligned
        (malloc-Malloced grants m (λ x. one_if x region + f x) live)

  pub stride_of-aligned :
      (p : ℕ) → p % 8 ≡ 0 → spread_bytes % 8 ≡ 0 → stride_of p spread_bytes % 8 ≡ 0
  unfolding stride_of
  stride_of-aligned p a b = ground arith
