-- ===== src/Sort/Tests.antt =====
-- The two heapsorts on three entries.
use linux.Base.{ℕ, zero, suc, ◌<◌, ◌≡◌, ◌≢◌, refl, List, [], ◌∷◌, true, arith}
use linux.Base.Int.{ℤ, pos}
use linux.Base.Run.{ok, Gives}
use linux.Base.Arrays.{swap_cells}
use linux.Sort.{
  key_less, choose_child, sift_loop, sift_down_standard, build_loop, extract_loop, heapsort,
  heapsort_standard, descend_loop, ascend_loop, sift_down_bottom_up, heapsort_bottom_up, is_sorted,
  is_sorted_loop,
}
use linux.Sort.Heap.{key}
use linux.Sort.Heap.Phases.{IsSortOf, heapsort_standard-IsSortOf}
use linux.Sort.Lossy.{heapsort_bottom_up_loses}

abbrev three : List ℤ
three = pos 3 ∷ pos 1 ∷ pos 2 ∷ []

standard_three : heapsort_standard three 3 ≡ ok (pos 1 ∷ pos 2 ∷ pos 3 ∷ [], 3)
unfolding heapsort_standard heapsort build_loop extract_loop sift_down_standard sift_loop
    choose_child key_less swap_cells
standard_three = refl

-- The 3 is lost, and the result passes the test that the benchmark makes.
bottom_up_three : heapsort_bottom_up three 3 ≡ ok (pos 1 ∷ pos 1 ∷ pos 2 ∷ [], 3)
unfolding heapsort_bottom_up heapsort build_loop extract_loop sift_down_bottom_up descend_loop
    ascend_loop choose_child key_less swap_cells
bottom_up_three = refl

passes : is_sorted (pos 1 ∷ pos 1 ∷ pos 2 ∷ []) 3 ≡ ok true
unfolding is_sorted is_sorted_loop
passes = refl

heapsort_standard-IsSortOf_example :
    Gives (λ (b, comparisons). IsSortOf 3 three b) (heapsort_standard three 3)
heapsort_standard-IsSortOf_example = heapsort_standard-IsSortOf three 3 (omega arith)

once : (j : ℕ) → j < 3 → j ≢ 0 → key three j ≢ pos 3
once zero h p = absurd (p refl)
once (suc zero) h p = λ e. ground (arith, e)
once (suc (suc zero)) h p = λ e. ground (arith, e)
once (suc (suc (suc j))) h p = absurd (omega arith)

heapsort_bottom_up_loses_example :
    Gives (λ (c, comparisons). (j : ℕ) → j < 3 → key c j ≢ pos 3) (heapsort_bottom_up three 3)
heapsort_bottom_up_loses_example = heapsort_bottom_up_loses 3 three (omega arith) refl once
