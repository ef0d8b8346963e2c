-- ===== src/Trees/Bst/Find.antt =====
-- The linked tree spans its range of the array, and so it is searched.
use linux.Base.{
  ℕ, zero, suc, ◌+◌, ◌-◌, ◌/◌, ◌≤◌, ◌<◌, ◌≡◌, ◌≢◌, List, none, some, leb, get_or, length, arith,
  dec_lt, if-holds,
}
use linux.Base.Int.{ℤ, ltb_ℤ, eq_of_parts}
use linux.Base.Run.{Gives, gives, Gives-then, Gives-if}
use linux.Base.Arrays.{cell-lt}
use linux.Trees.Btree.Find.{entry, Answer, found, absent, IsAscending}
use linux.Trees.Bst.{Bst, null, node, Nodes, build_bst_from_sorted_nodes, bst_lookup_from}

-- The tree has the entries from `lo` to before `hi`, in order.
pub data Spans (a : List ℤ) : Bst → (lo hi : ℕ) → Type 0 where
  spans_null : {lo hi : ℕ} → hi ≤ lo → Spans a null lo hi
  spans_node :
      {block lo hi : ℕ} {left right : Bst} (mid : ℕ)
      → lo ≤ mid
      → mid < hi
      → Spans a left lo mid
      → Spans a right (mid + 1) hi
      → Spans a (node block (entry a mid) left right) lo hi

-- Every entry below `n` is a node with the key of that place.
abbrev pub IsFull : List ℤ → Nodes → (n : ℕ) → Type 0
IsFull a nodes n = (i : ℕ) → i < n → (block : ℕ) × (get_or nodes i none ≡ some (block, entry a i))

pub build-Spans :
    (a : List ℤ) (nodes : Nodes) (n fuel lo hi : ℕ)
    → IsFull a nodes n
    → n ≤ length nodes
    → hi ≤ n
    → lo ≤ hi
    → hi < lo + fuel
    → Gives (λ t. Spans a t lo hi) (build_bst_from_sorted_nodes fuel nodes lo hi)
unfolding build_bst_from_sorted_nodes
build-Spans a nodes n zero lo hi full l h p f = absurd (omega arith)
build-Spans a nodes n (suc fuel) lo hi full l h p f =
    Gives-if (leb hi lo) (λ e. gives _ (spans_null (ground arith)))
      (λ e.
        let mid = lo + (hi - lo) / 2 in
        let (block, there) = full mid (ground arith) in
        rw (cell-lt nodes mid none (ground arith), there)
          (Gives-then
            (λ left s.
              Gives-then (λ right s'. gives _ (spans_node mid (omega arith) (ground arith) s s'))
                (build-Spans a nodes n fuel (mid + 1) hi full l h (ground arith) (ground arith)))
            (build-Spans a nodes n fuel lo mid full l (ground arith) (omega arith) (ground arith))))

-- An answer for a part is one for the whole, where the key is not among the others.
part-Answer :
    (a : List ℤ) (lo lo' hi' hi : ℕ) (key r : ℤ)
    → lo ≤ lo'
    → hi' ≤ hi
    → ((i : ℕ) → lo ≤ i → i < lo' → entry a i ≢ key)
    → ((i : ℕ) → hi' ≤ i → i < hi → entry a i ≢ key)
    → Answer a lo' hi' key r
    → Answer a lo hi key r
part-Answer a lo lo' hi' hi key r l h before after (found i p q e) =
    found i (omega arith) (omega arith) e
part-Answer a lo lo' hi' hi key r l h before after (absent f) = absent λ i p q.
    elim (dec_lt i lo') [
      | yes b ↦ before i p b
      | no nb ↦ elim (dec_lt i hi') [
        | yes b ↦ f i (omega arith) b
        | no na ↦ after i (omega arith) q
      ]
    ]

pub lookup_from-Answer :
    {a : List ℤ} {n : ℕ} {t : Bst} {lo hi : ℕ}
    → IsAscending a n
    → (key : ℤ) → hi ≤ n
    → Spans a t lo hi
    → Answer a lo hi key (bst_lookup_from t key)
unfolding bst_lookup_from
lookup_from-Answer s key h (spans_null l) = absent λ i p q. absurd (omega arith)
lookup_from-Answer {a = a} {lo = lo} {hi = hi} s key h
      (spans_node {left = left} {right = right} mid p q d d') =
    if-holds (Answer a lo hi key) (ltb_ℤ key (entry a mid))
      (λ less.
        part-Answer a lo lo mid hi key _ (omega arith) (omega arith) (λ i u v. absurd (omega arith))
          (λ i u v e. ground (arith, e, s mid i u (omega arith)))
          (lookup_from-Answer s key (omega arith) d))
      (λ not_less.
        if-holds (Answer a lo hi key) (ltb_ℤ (entry a mid) key)
          (λ more.
            part-Answer a lo (mid + 1) hi hi key _ (omega arith) (omega arith)
              (λ i u v e. ground (arith, e, s i mid (omega arith) (omega arith)))
              (λ i u v. absurd (omega arith)) (lookup_from-Answer s key h d'))
          (λ not_more.
            let same : entry a mid ≡ key = eq_of_parts _ _ (ground (arith, not_less, not_more)) in
            rw same (found mid p q same)))
