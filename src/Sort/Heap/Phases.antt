-- ===== src/Sort/Heap/Phases.antt =====
-- The heap is built, and then its greatest entry moves to the end of it again and again.
use mathlib.Core.List.{Perm}
use mathlib.Core.List.Perm
use linux.Base.{ℕ, zero, suc, ◌+◌, ◌-◌, ◌/◌, ◌≤◌, ◌<◌, ◌≡◌, ◌∙◌, refl, List, ltb, length, arith}
use linux.Base.Int.{ℤ, pos, ◌≤ℤ◌}
use linux.Base.Run.{Gives, gives, Gives-then, Gives-if, Gives-weaken}
use linux.Base.Arrays.{exchanged, length-exchanged, get_or-exchanged, Perm-exchanged, swap_cells-lt}
use linux.Sort.{Sift, build_loop, extract_loop, heapsort, heapsort_standard, sift_down_standard}
use linux.Sort.Heap.{key, parent, IsHeapFrom, IsLoose, Sifted, IsSift, sift_down_standard-IsSift}

-- From `k` to before `n` the entries ascend, and none of them is less than one before `k`.
record IsTail (k n : ℕ) (a : List ℤ) : Type 0 where
  ascending : (i j : ℕ) → k ≤ i → i ≤ j → j < n → key a i ≤ℤ key a j
  over : (i j : ℕ) → i < k → k ≤ j → j < n → key a i ≤ℤ key a j

-- The root of a heap is its greatest entry.
root_greatest :
    (fuel end : ℕ) (a : List ℤ) (i : ℕ)
    → IsHeapFrom 0 end a
    → i < fuel
    → i < end
    → key a i ≤ℤ key a 0
root_greatest zero end a i h f l = absurd (omega arith)
root_greatest (suc fuel) end a zero h f l = omega arith
root_greatest (suc fuel) end a (suc i) h f l = ground (
  arith,
  h (suc i) (omega arith) l (omega arith),
  root_greatest fuel end a (parent (suc i)) h (omega arith) (omega arith),
)

-- What the first phase leaves: a heap of the same entries.
record IsBuilt (n : ℕ) (a b : List ℤ) : Type 0 where
  heap : IsHeapFrom 0 n b
  same : Perm a b
  size : length b ≡ length a
  beyond : (j : ℕ) → n ≤ j → key b j ≡ key a j

-- What the second leaves, and the whole sort.
pub record IsSortOf (n : ℕ) (a b : List ℤ) : Type 0 where
  pub ascending : (i j : ℕ) → i ≤ j → j < n → key b i ≤ℤ key b j
  pub same : Perm a b
  pub beyond : (j : ℕ) → n ≤ j → key b j ≡ key a j

-- The exchange of the root and the last entry of the heap: the root alone may be out of place.
moved-IsLoose :
    (left n : ℕ) (a : List ℤ)
    → n ≤ length a
    → suc left < n
    → IsHeapFrom 0 (suc (suc left)) a
    → IsLoose 0 (suc left) (exchanged a 0 (suc left) (pos 0)) 0
moved-IsLoose left n a l q h =
    let at = get_or-exchanged a 0 (suc left) (pos 0) (omega arith) (omega arith) in
    record {
      others = λ c p r t u. ground (arith, at c, at (parent c), h c);
      across = λ c p r e z t. absurd (omega arith);
    }

-- The old root belongs before the entries that are in place.
moved-IsTail :
    (left n : ℕ) (a c : List ℤ)
    → n ≤ length a
    → suc left < n
    → IsHeapFrom 0 (suc (suc left)) a
    → IsTail (suc (suc left)) n a
    → Sifted 0 (suc left) (exchanged a 0 (suc left) (pos 0)) c
    → IsTail (suc left) n c
moved-IsTail left n a c l q h t s =
    let at = get_or-exchanged a 0 (suc left) (pos 0) (omega arith) (omega arith) in
    record {
      ascending = λ i j p r u.
          ground (arith, at i, at j, s.beyond i p, s.beyond j, t.over 0 j, t.ascending i j);
      over = λ i j p r u. rw (s.beyond j r) (
          s.bounded (key (exchanged a 0 (suc left) (pos 0)) j)
            (λ k v. ground (
              arith,
              at k,
              at j,
              t.over k j,
              t.over (suc left) j,
              root_greatest (suc n) (suc (suc left)) a k h,
              root_greatest (suc n) (suc (suc left)) a (suc left) h,
            ))
            i p);
    }

module _ (sift : Sift) (sifts : IsSift sift) where
  build_loop-IsBuilt :
      (left : ℕ) (a : List ℤ) (n comparisons : ℕ)
      → n ≤ length a
      → left ≤ n
      → IsHeapFrom left n a
      → Gives (λ (b, comparisons'). IsBuilt n a b) (build_loop sift left a n comparisons)
  unfolding build_loop
  build_loop-IsBuilt zero a n comparisons l q h =
      gives _ record { heap = h; same = Perm.rfl; size = refl; beyond = λ j p. refl }
  build_loop-IsBuilt (suc left) a n comparisons l q h =
      Gives-then
        (λ (b, comparisons') s.
          Gives-weaken
            (λ (c, _) t. record {
              heap = t.heap;
              same = Perm.trans s.same t.same;
              size = omega (arith, s.size, t.size);
              beyond = λ j p. t.beyond j p ∙ s.beyond j p;
            })
            (build_loop-IsBuilt left b n comparisons' (omega (arith, s.size)) (omega arith) s.heap))
        (sifts left a n comparisons l (omega arith) loose)
    where
      loose : IsLoose left n a left
      loose = record {
        others = λ c p r t u. h c p r (omega arith);
        across = λ c p r e z t. absurd (omega arith);
      }

  extract_loop-IsSortOf :
      (left : ℕ) (a : List ℤ) (n comparisons : ℕ)
      → n ≤ length a
      → left < n
      → IsHeapFrom 0 (suc left) a
      → IsTail (suc left) n a
      → Gives (λ (b, comparisons'). IsSortOf n a b) (extract_loop sift left a comparisons)
  unfolding extract_loop
  extract_loop-IsSortOf zero a n comparisons l q h t = gives _ record {
    ascending = λ i j p r. ground (arith, t.over i j, t.ascending i j);
    same = Perm.rfl;
    beyond = λ j p. refl;
  }
  extract_loop-IsSortOf (suc left) a n comparisons l q h t =
      let one_more : left + 1 ≡ suc left = omega arith in
      rw (one_more, swap_cells-lt a 0 (suc left) (pos 0) (omega arith) (omega arith))
        (Gives-then
          (λ (c, comparisons') s.
            Gives-weaken
              (λ (d, _) done. record {
                ascending = done.ascending;
                same =
                    Perm.trans (Perm-exchanged a 0 (suc left) (pos 0) (omega arith) (omega arith))
                      (Perm.trans s.same done.same);
                beyond = λ j p. ground (
                  arith,
                  done.beyond j p,
                  s.beyond j,
                  get_or-exchanged a 0 (suc left) (pos 0) (omega arith) (omega arith) j,
                );
              })
              (extract_loop-IsSortOf left c n comparisons'
                (omega (arith, s.size, length-exchanged a 0 (suc left) (pos 0))) (omega arith)
                s.heap (moved-IsTail left n a c l q h t s)))
          (sifts 0 (exchanged a 0 (suc left) (pos 0)) (suc left) comparisons
            (omega (arith, length-exchanged a 0 (suc left) (pos 0))) (omega arith)
            (moved-IsLoose left n a l q h)))

  -- Whatever the sift: if it keeps its promise, the array is sorted.
  heapsort-IsSortOf :
      (a : List ℤ) (n : ℕ)
      → n ≤ length a
      → Gives (λ (b, comparisons). IsSortOf n a b) (heapsort sift a n)
  unfolding heapsort
  heapsort-IsSortOf a n l =
      Gives-if (ltb n 2)
        (λ e.
          gives _
            record { ascending = λ i j p r. ground arith; same = Perm.rfl; beyond = λ j p. refl })
        (λ e.
          Gives-then
            (λ (b, comparisons) built.
              Gives-weaken
                (λ (c, _) done. record {
                  ascending = done.ascending;
                  same = Perm.trans built.same done.same;
                  beyond = λ j p. done.beyond j p ∙ built.beyond j p;
                })
                (extract_loop-IsSortOf (n - 1) b n comparisons (omega (arith, built.size))
                  (ground arith) (λ c p q r. built.heap c p (ground arith) r)
                  record {
                    ascending = λ i j p r u. absurd (ground arith);
                    over = λ i j p r u. absurd (ground arith);
                  }))
            (build_loop-IsBuilt (n / 2) a n 0 l (omega arith) (λ c p q r. absurd (omega arith))))

-- For any array of at least `n` entries, `heapsort_standard` reads and writes inside the array, has
-- enough fuel, and leaves the same entries, the first `n` in ascending order and the others where
-- they were.
pub heapsort_standard-IsSortOf :
    (a : List ℤ) (n : ℕ)
    → n ≤ length a
    → Gives (λ (b, comparisons). IsSortOf n a b) (heapsort_standard a n)
unfolding heapsort_standard
heapsort_standard-IsSortOf a n l =
    heapsort-IsSortOf sift_down_standard sift_down_standard-IsSift a n l
