-- ===== src/Sort/Lossy.antt =====
-- The bottom-up sift forgets the entry that it is to put in its place: it reads `a[start]` after the
-- way down has overwritten it.
use linux.Base.{
  ℕ, zero, suc, ◌+◌, ◌-◌, ◌*◌, ◌/◌, ◌≤◌, ◌<◌, ◌≡◌, ◌≢◌, ◌∙◌, List, false, ltb, leb, ◌==◌, set,
  length, length-set, arith, if-holds,
}
use linux.Base.Int.{ℤ, pos, ltb_ℤ}
use linux.Base.Run.{ok, ◌>>=◌, Gives, gives, Gives-then, Gives-if, Gives-weaken}
use linux.Base.Arrays.{cell-lt, set_cell, set_cell-lt, get_or-set, exchanged, swap_cells-lt}
use linux.Sort.{
  key_less, descend_loop, ascend_loop, sift_down_bottom_up, build_loop, extract_loop, heapsort,
  heapsort_bottom_up,
}
use linux.Sort.Heap.{key, choose_child-IsLargest}

module _ (P : ℤ → Type 0) where
  -- An array of `n` entries that `P` holds of.
  record IsKept (n : ℕ) (b : List ℤ) : Type 0 where
    size : length b ≡ n
    every : (j : ℕ) → j < n → P (key b j)

  set-IsKept :
      (n i : ℕ) (b : List ℤ) (v : ℤ)
      → i < n
      → length b ≡ n
      → ((j : ℕ) → j < n → j ≢ i → P (key b j))
      → P v
      → IsKept n (set b i v)
  set-IsKept n i b v h l others p = record {
    size = length-set b i v ∙ l;
    every = λ j q.
        rw (get_or-set b i j v (pos 0) (omega (arith, l)))
          (if-holds P (i == j) (λ e. p) (λ e. others j q (ground arith)));
  }

  descend_loop-IsKept :
      (fuel n : ℕ) (b : List ℤ) (root end comparisons : ℕ)
      → end ≤ n
      → root < end
      → end < fuel + root
      → IsKept n b
      → Gives
          (λ (c, leaf, comparisons'). IsKept n c × (leaf < n))
          (descend_loop fuel b root end comparisons)
  unfolding descend_loop
  descend_loop-IsKept zero n b root end comparisons l r f k = absurd (omega arith)
  descend_loop-IsKept (suc fuel) n b root end comparisons l r f k =
      Gives-if (leb end (root * 2 + 1)) (λ e. gives _ (k, omega arith))
        (λ e.
          Gives-then
            (λ (m, comparisons') s.
              rw
                (
                  cell-lt b m (pos 0) (omega (arith, s.inside, k.size)),
                  set_cell-lt b root (key b m) (omega (arith, k.size)),
                )
                (descend_loop-IsKept fuel n (set b root (key b m)) m end comparisons' l s.inside
                  (ground (arith, s.child))
                  (set-IsKept n root b (key b m) (omega arith) k.size (λ j q _. k.every j q)
                    (k.every m (omega (arith, s.inside))))))
            (choose_child-IsLargest b root end comparisons (ground arith) (omega (arith, k.size))))

  ascend_loop-IsKept :
      (fuel n : ℕ) (b : List ℤ) (root start : ℕ) (value : ℤ) (comparisons : ℕ)
      → root < n
      → root < fuel
      → IsKept n b
      → Gives
          (λ (c, top, comparisons'). IsKept n c × (top < n))
          (ascend_loop fuel b root start value comparisons)
  unfolding ascend_loop key_less
  ascend_loop-IsKept zero n b root start value comparisons l f k = absurd (omega arith)
  ascend_loop-IsKept (suc fuel) n b root start value comparisons l f k =
      Gives-if (ltb start root)
        (λ e. rw (cell-lt b ((root - 1) / 2) (pos 0) (omega (arith, k.size))) (
          Gives-if (ltb_ℤ (key b ((root - 1) / 2)) value)
            (λ less. rw (set_cell-lt b root (key b ((root - 1) / 2)) (omega (arith, k.size))) (
              ascend_loop-IsKept fuel n (set b root (key b ((root - 1) / 2))) ((root - 1) / 2) start
                value _ (omega arith) (ground arith)
                (set-IsKept n root b _ l k.size (λ j q _. k.every j q)
                  (k.every ((root - 1) / 2) (omega arith)))))
            (λ settled. gives _ (k, l))))
        (λ e. gives _ (k, l))

  -- What a sift does after the way down.
  rest_of_sift :
      (n : ℕ) (c : List ℤ) (leaf start comparisons : ℕ)
      → start < n
      → leaf < n
      → IsKept n c
      → Gives
          (λ (d, comparisons'). IsKept n d)
          (ascend_loop (leaf + 1) c leaf start (key c start) comparisons
            >>= λ (d, root, comparisons').
                set_cell d root (key c start) >>= λ e. ok (e, comparisons'))
  rest_of_sift n c leaf start comparisons h l k =
      Gives-then
        (λ (d, root, comparisons') (kept, in_d).
          rw (set_cell-lt d root (key c start) (omega (arith, kept.size))) (
            gives _ (
              set-IsKept n root d (key c start) in_d kept.size (λ j q _. kept.every j q)
                (k.every start h))))
        (ascend_loop-IsKept (leaf + 1) n c leaf start (key c start) comparisons l (omega arith) k)

  sift_down_bottom_up-IsKept :
      (n : ℕ) (b : List ℤ) (start end comparisons : ℕ)
      → end ≤ n
      → start < end
      → IsKept n b
      → Gives (λ (c, comparisons'). IsKept n c) (sift_down_bottom_up b start end comparisons)
  unfolding sift_down_bottom_up
  sift_down_bottom_up-IsKept n b start end comparisons l h k =
      Gives-then
        (λ (c, leaf, comparisons') (kept, in_c).
          rw (cell-lt c start (pos 0) (omega (arith, kept.size)))
            (rest_of_sift n c leaf start comparisons' (omega arith) in_c kept))
        (descend_loop-IsKept (end + 1) n b start end comparisons l h (omega arith) k)

  -- The entry at `start` need not satisfy `P`: a child of it overwrites it.
  first_sift-IsKept :
      (n : ℕ) (b : List ℤ) (start end comparisons : ℕ)
      → length b ≡ n
      → end ≤ n
      → start * 2 + 1 < end
      → ((j : ℕ) → j < n → j ≢ start → P (key b j))
      → Gives (λ (c, comparisons'). IsKept n c) (sift_down_bottom_up b start end comparisons)
  unfolding sift_down_bottom_up descend_loop
  first_sift-IsKept n b start end comparisons size l h others =
      let inner : leb end (start * 2 + 1) ≡ false = ground arith in
      let one_more : end + 1 ≡ suc end = omega arith in
      rw (one_more, inner)
        (Gives-then {P = λ (c, leaf, comparisons'). IsKept n c × (leaf < n)}
          (λ (c, leaf, comparisons') (kept, in_c).
            rw (cell-lt c start (pos 0) (omega (arith, kept.size)))
              (rest_of_sift n c leaf start comparisons' (omega arith) in_c kept))
          (Gives-then
            (λ (m, comparisons') s.
              rw
                (
                  cell-lt b m (pos 0) (omega (arith, s.inside)),
                  set_cell-lt b start (key b m) (omega arith),
                )
                (descend_loop-IsKept end n (set b start (key b m)) m end comparisons' l s.inside
                  (ground (arith, s.child))
                  (set-IsKept n start b (key b m) (omega arith) size others
                    (others m (omega (arith, s.inside)) (ground (arith, s.child))))))
            (choose_child-IsLargest b start end comparisons h (omega arith))))

  build_loop-IsKept :
      (left n : ℕ) (b : List ℤ) (comparisons : ℕ)
      → left ≤ n
      → IsKept n b
      → Gives
          (λ (c, comparisons'). IsKept n c)
          (build_loop sift_down_bottom_up left b n comparisons)
  unfolding build_loop
  build_loop-IsKept zero n b comparisons l k = gives _ k
  build_loop-IsKept (suc left) n b comparisons l k =
      Gives-then
        (λ (c, comparisons') kept. build_loop-IsKept left n c comparisons' (omega arith) kept)
        (sift_down_bottom_up-IsKept n b left n comparisons (omega arith) (omega arith) k)

  extract_loop-IsKept :
      (left n : ℕ) (b : List ℤ) (comparisons : ℕ)
      → left < n
      → IsKept n b
      → Gives
          (λ (c, comparisons'). IsKept n c)
          (extract_loop sift_down_bottom_up left b comparisons)
  unfolding extract_loop
  extract_loop-IsKept zero n b comparisons l k = gives _ k
  extract_loop-IsKept (suc left) n b comparisons l k =
      rw (swap_cells-lt b 0 (left + 1) (pos 0) (omega (arith, k.size)) (omega (arith, k.size))) (
        Gives-then
          (λ (c, comparisons') kept. extract_loop-IsKept left n c comparisons' (omega arith) kept)
          (sift_down_bottom_up-IsKept n (exchanged b 0 (left + 1) (pos 0)) 0 (left + 1) comparisons
            (omega arith) (omega arith)
            (set-IsKept n (left + 1) (set b 0 (key b (left + 1))) (key b 0) (omega arith)
              (length-set b 0 (key b (left + 1)) ∙ k.size)
              (λ j q _.
                (set-IsKept n 0 b (key b (left + 1)) (omega arith) k.size (λ i r _. k.every i r)
                    (k.every (left + 1) (omega arith))).every
                  j q)
              (k.every 0 (omega arith)))))

  -- Whatever all entries but the last inner node have in common, all entries have in common after it.
  heapsort_bottom_up-IsKept :
      (n : ℕ) (b : List ℤ)
      → 2 ≤ n
      → length b ≡ n
      → ((j : ℕ) → j < n → j ≢ n / 2 - 1 → P (key b j))
      → Gives (λ (c, comparisons). IsKept n c) (heapsort_bottom_up b n)
  unfolding heapsort_bottom_up heapsort build_loop
  heapsort_bottom_up-IsKept n b h size others =
      let long : ltb n 2 ≡ false = ground arith in
      let half : n / 2 ≡ suc (n / 2 - 1) = omega arith in
      rw (long, half)
        (Gives-then
          (λ (c, comparisons) kept. extract_loop-IsKept (n - 1) n c comparisons (omega arith) kept)
          (Gives-then
            (λ (c, comparisons) kept.
              build_loop-IsKept (n / 2 - 1) n c comparisons (omega arith) kept)
            (first_sift-IsKept n b (n / 2 - 1) n 0 size (omega arith) (omega arith) others)))

-- For an array of `n` entries, two at least, in which the entry at `n / 2 - 1` occurs once:
-- `heapsort_bottom_up` reads and writes inside the array, has enough fuel, and leaves an array in
-- which that entry does not occur, so not the entries that it was given.
pub heapsort_bottom_up_loses :
    (n : ℕ) (b : List ℤ)
    → 2 ≤ n
    → length b ≡ n
    → ((j : ℕ) → j < n → j ≢ n / 2 - 1 → key b j ≢ key b (n / 2 - 1))
    → Gives
        (λ (c, comparisons). (j : ℕ) → j < n → key c j ≢ key b (n / 2 - 1))
        (heapsort_bottom_up b n)
heapsort_bottom_up_loses n b h size once =
    Gives-weaken (λ (c, comparisons) kept. kept.every)
      (heapsort_bottom_up-IsKept (λ x. x ≢ key b (n / 2 - 1)) n b h size once)
