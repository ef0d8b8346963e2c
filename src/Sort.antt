-- ===== src/Sort.antt =====
-- The two heapsorts of ch_sort_trace.c, and the runs that its trace of a merge sort counts.
pub mod Heap
pub mod Lossy
pub mod Trace
mod Tests
use linux.Base.{
  ℕ, zero, suc, ◌+◌, ◌-◌, ◌*◌, ◌/◌, ◌%◌, ◌^◌, List, [], ◌∷◌, Bool, true, false, ltb, leb, ◌==◌,
  ◌&&◌, if◌then◌else◌, bit_xor, get_or,
}
use linux.Base.Int.{ℤ, pos, ltb_ℤ}
use linux.Base.Word.{u64, ◌<<<◌, ◌>>>◌}
use linux.Base.Run.{Run, ok, out_of_fuel, ◌>>=◌}
use linux.Base.Arrays.{cell, set_cell, swap_cells}

unfoldable pub xorshift64star_state : ℕ → ℕ
xorshift64star_state state =
    let x1 = bit_xor state (state >>> 12) in
    let x2 = bit_xor x1 (u64 (x1 <<< 25)) in bit_xor x2 (x2 >>> 27)

-- The result for the state that the call leaves, `xorshift64star_state state`.
unfoldable pub xorshift64star : ℕ → ℕ
unfolding xorshift64star_state
xorshift64star state = u64 (xorshift64star_state state * 2685821657736338717)

-- The result, and the state that the call leaves.
unfoldable pub random_below : (state bound : ℕ) → ℕ × ℕ
random_below state bound =
    if bound == 0 then (0, state) else (xorshift64star state % bound, xorshift64star_state state)

-- The first loop of `fill_permutation` from `i` on; the values fit in an `int`.
unfoldable pub fill_loop : (left i : ℕ) → List ℤ → Run (List ℤ)
fill_loop zero i a = ok a
fill_loop (suc left) i a = set_cell a i (pos i) >>= fill_loop left (i + 1)

-- The rounds of the second loop with `i` from `left + 1` down to 2.
unfoldable pub shuffle_loop : (left state : ℕ) → List ℤ → Run (List ℤ)
shuffle_loop zero state a = ok a
shuffle_loop (suc left) state a =
    let (j, state') = random_below state (left + 2) in
    swap_cells a (left + 1) j >>= shuffle_loop left state'

unfoldable pub fill_permutation : List ℤ → (n seed : ℕ) → Run (List ℤ)
fill_permutation a n seed = fill_loop n 0 a >>= shuffle_loop (n - 1) seed

-- The loop from `i` on, with `left` rounds to go.
unfoldable pub is_sorted_loop : (left i : ℕ) → List ℤ → Run Bool
is_sorted_loop zero i a = ok true
is_sorted_loop (suc left) i a =
    let rest = is_sorted_loop left (i + 1) a in
    cell a (i - 1) >>= λ x. cell a i >>= λ y. if ltb_ℤ y x then ok false else rest

unfoldable pub is_sorted : List ℤ → (n : ℕ) → Run Bool
is_sorted a n = is_sorted_loop (n - 1) 1 a

-- The answer, and the count of comparisons after it.
unfoldable pub key_less : ℤ → ℤ → (comparisons : ℕ) → Bool × ℕ
key_less x y comparisons = (ltb_ℤ x y, u64 (comparisons + 1))

-- The choice between the children of `root`, which both sifts make; `left` is inside.
unfoldable pub choose_child : List ℤ → (left end comparisons : ℕ) → Run (ℕ × ℕ)
unfolding key_less
choose_child a left end comparisons =
    let right = left + 1 in
    if ltb right end
    then (cell a left >>= λ x. cell a right >>= λ y.
        let (less, comparisons') = key_less x y comparisons in
        ok (if less then right else left, comparisons'))
    else ok (left, comparisons)

-- `for (;;)`, whose root moves down.
unfoldable pub sift_loop : (fuel : ℕ) → List ℤ → (root end comparisons : ℕ) → Run (List ℤ × ℕ)
unfolding choose_child key_less
sift_loop zero a root end comparisons = out_of_fuel
sift_loop (suc fuel) a root end comparisons =
    let step : Run (List ℤ × ℕ) =
      choose_child a (root * 2 + 1) end comparisons >>= λ (child, comparisons').
      cell a root >>= λ x. cell a child >>= λ y.
      let (less, comparisons'') = key_less x y comparisons' in
      let sink = swap_cells a root child >>= λ b. sift_loop fuel b child end comparisons'' in
      if less then sink else ok (a, comparisons'') in
    if leb end (root * 2 + 1) then ok (a, comparisons) else step

-- The fuel is `end`, and one more for an empty range.
unfoldable pub sift_down_standard : List ℤ → (start end comparisons : ℕ) → Run (List ℤ × ℕ)
sift_down_standard a start end comparisons = sift_loop (end + 1) a start end comparisons

-- The array from `start` on to before `end`, with the count of comparisons.
abbrev pub Sift : Type 0
Sift = List ℤ → (start end comparisons : ℕ) → Run (List ℤ × ℕ)

-- The rounds with `start` from `left` down to 1.
unfoldable pub build_loop : Sift → (left : ℕ) → List ℤ → (n comparisons : ℕ) → Run (List ℤ × ℕ)
build_loop sift zero a n comparisons = ok (a, comparisons)
build_loop sift (suc left) a n comparisons =
    sift a left n comparisons >>= λ (b, comparisons'). build_loop sift left b n comparisons'

-- The rounds with `end` from `left + 1` down to 2.
unfoldable pub extract_loop : Sift → (left : ℕ) → List ℤ → (comparisons : ℕ) → Run (List ℤ × ℕ)
extract_loop sift zero a comparisons = ok (a, comparisons)
extract_loop sift (suc left) a comparisons = swap_cells a 0 (left + 1) >>= λ b.
    sift b 0 (left + 1) comparisons >>= λ (c, comparisons'). extract_loop sift left c comparisons'

-- What the two sorts have in common: the array that is left, and the comparisons returned.
unfoldable pub heapsort : Sift → List ℤ → (n : ℕ) → Run (List ℤ × ℕ)
heapsort sift a n =
    if ltb n 2
    then ok (a, 0)
    else (build_loop sift (n / 2) a n 0 >>= λ (b, comparisons).
        extract_loop sift (n - 1) b comparisons)

unfoldable pub heapsort_standard : List ℤ → (n : ℕ) → Run (List ℤ × ℕ)
heapsort_standard = heapsort sift_down_standard

-- The first loop: from `root` down to a leaf, each larger child moves up. The result is the leaf.
unfoldable pub descend_loop :
    (fuel : ℕ) → List ℤ → (root end comparisons : ℕ) → Run (List ℤ × ℕ × ℕ)
unfolding choose_child
descend_loop zero a root end comparisons = out_of_fuel
descend_loop (suc fuel) a root end comparisons =
    let step : Run (List ℤ × ℕ × ℕ) =
      choose_child a (root * 2 + 1) end comparisons >>= λ (child, comparisons').
      cell a child >>= λ y. set_cell a root y >>= λ b. descend_loop fuel b child end comparisons' in
    if leb end (root * 2 + 1) then ok (a, root, comparisons) else step

-- `while (root > start)`: the parents of the leaf move down again while they are less than `value`.
unfoldable pub ascend_loop :
    (fuel : ℕ) → List ℤ → (root start : ℕ) → (value : ℤ) → (comparisons : ℕ) → Run (List ℤ × ℕ × ℕ)
unfolding key_less
ascend_loop zero a root start value comparisons = out_of_fuel
ascend_loop (suc fuel) a root start value comparisons =
    let parent = (root - 1) / 2 in
    let step : Run (List ℤ × ℕ × ℕ) = cell a parent >>= λ x.
    let (less, comparisons') = key_less x value comparisons in
    let rise = set_cell a root x >>= λ b. ascend_loop fuel b parent start value comparisons' in
    if less then rise else ok (a, root, comparisons') in
    if ltb start root then step else ok (a, root, comparisons)

-- `a[start]` is read after the first loop.
unfoldable pub sift_down_bottom_up : List ℤ → (start end comparisons : ℕ) → Run (List ℤ × ℕ)
sift_down_bottom_up a start end comparisons =
    descend_loop (end + 1) a start end comparisons >>= λ (b, leaf, comparisons').
    cell b start >>= λ value.
    ascend_loop (leaf + 1) b leaf start value comparisons' >>= λ (c, root, comparisons'').
    set_cell c root value >>= λ d. ok (d, comparisons'')

unfoldable pub heapsort_bottom_up : List ℤ → (n : ℕ) → Run (List ℤ × ℕ)
heapsort_bottom_up = heapsort sift_down_bottom_up
