-- ===== src/Trees/Btree/Find.antt =====
-- The search of a B-tree that covers a range of the array.
use linux.Base.{
  ℕ, zero, suc, ◌+◌, ◌-◌, ◌≤◌, ◌<◌, ◌≡◌, ◌≢◌, refl, sym, List, [], ◌∷◌, get_or, get_elem?, length,
  arith, Option-cases, Bool-cases, inl, inr, dec_lt,
}
use linux.Base.Int.{ℤ, pos, negsuc, ltb_ℤ, eqb_ℤ, ◌≤ℤ◌, eq_of_parts}
use linux.Base.Run.{ok, ◌>>=◌, Gives, gives, Gives-if, Gives-weaken, Gives-branch, bind_through}
use linux.Base.Arrays.{cell-lt}
use linux.Trees.Btree.{
  Btree, leaf, branch, Children, no_child, child, btree_leaf_lookup, child_index_loop, lookup_from,
  lookup_child,
}

abbrev pub entry : List ℤ → ℕ → ℤ
entry a i = get_or a i (pos 0)

-- The answer of a search of the entries from `lo` to before `hi`: the key, or -1 where it is not
-- among them.
pub data Answer (a : List ℤ) (lo hi : ℕ) (key : ℤ) : ℤ → Type 0 where
  found : (i : ℕ) → lo ≤ i → i < hi → entry a i ≡ key → Answer a lo hi key key
  absent : ((i : ℕ) → lo ≤ i → i < hi → entry a i ≢ key) → Answer a lo hi key (negsuc 0)

-- The tree is over the entries from `lo` to before `hi`: the children follow each other, and a key is
-- the last entry before the next child.
mutual
  pub data Covers (a : List ℤ) : Btree → (lo hi : ℕ) → Type 0 where
    at_leaf : {block lo hi : ℕ} → lo ≤ hi → Covers a (leaf block lo (hi - lo)) lo hi
    at_branch :
        {block child_count lo hi : ℕ} {ks : List ℤ} {cs : Children}
        → CoversAll a cs ks lo hi
        → Covers a (branch block (length ks) child_count ks cs) lo hi

  pub data CoversAll (a : List ℤ) : Children → List ℤ → (lo hi : ℕ) → Type 0 where
    last : {t : Btree} {lo hi : ℕ} → Covers a t lo hi → CoversAll a (child t no_child) [] lo hi
    next :
        {t : Btree} {cs : Children} {ks : List ℤ} {lo hi : ℕ} (mid : ℕ)
        → lo < mid
        → Covers a t lo mid
        → CoversAll a cs ks mid hi
        → CoversAll a (child t cs) (entry a (mid - 1) ∷ ks) lo hi

child_index_loop-shift :
    (left : ℕ) (k : ℤ) (ks : List ℤ) (key : ℤ) (i : ℕ)
    → child_index_loop left (k ∷ ks) key (suc i)
      ≡ (child_index_loop left ks key i >>= λ j. ok (suc j))
unfolding child_index_loop
child_index_loop-shift zero k ks key i = refl
child_index_loop-shift (suc left) k ks key i = elim (Option-cases (get_elem? ks i)) [
  | inl outside ↦ rw outside refl
  | inr (k', inside) ↦
      let next_i : suc i + 1 ≡ suc (i + 1) = omega arith in
      rw (inside, next_i)
        (elim (Bool-cases (ltb_ℤ k' key)) [
          | inl less ↦ rw less (child_index_loop-shift left k ks key (i + 1))
          | inr more ↦ rw more refl
        ])
]

-- An answer for the entries from `mid` on is one from `lo` on, where none before `mid` is the key.
skip-Answer :
    (a : List ℤ) (lo mid hi : ℕ) (key r : ℤ)
    → lo ≤ mid
    → ((i : ℕ) → lo ≤ i → i < mid → entry a i ≢ key)
    → Answer a mid hi key r
    → Answer a lo hi key r
skip-Answer a lo mid hi key r l none_before (found i p q e) = found i (omega arith) q e
skip-Answer a lo mid hi key r l none_before (absent f) = absent λ i p q. elim (dec_lt i mid) [
  | yes before ↦ none_before i p before
  | no after ↦ f i (omega arith) q
]

-- An answer for the entries before `mid` is one for all, where the last of them is not less than the key.
first-Answer :
    (a : List ℤ) (lo mid hi : ℕ) (key r : ℤ)
    → lo < mid
    → mid ≤ hi
    → ((i : ℕ) → mid ≤ i → i < hi → entry a (mid - 1) ≤ℤ entry a i)
    → key ≤ℤ entry a (mid - 1)
    → Answer a lo mid key r
    → Answer a lo hi key r
first-Answer a lo mid hi key r l l' ascend bound (found i p q e) = found i p (omega arith) e
first-Answer a lo mid hi key r l l' ascend bound (absent f) = absent λ i p q. elim (dec_lt i mid) [
  | yes before ↦ f i p before
  | no after ↦ λ e.
      f (mid - 1) (omega arith) (omega arith)
        (eq_of_parts _ _ (ground (arith, e, ascend i (omega arith) q)))
]

btree_leaf_lookup-Answer :
    (a : List ℤ) (left lo hi : ℕ) (key : ℤ)
    → lo + left ≡ hi
    → hi ≤ length a
    → Gives (Answer a lo hi key) (btree_leaf_lookup a left lo key)
unfolding btree_leaf_lookup
btree_leaf_lookup-Answer a zero lo hi key e l = gives _ (absent λ i p q. absurd (omega arith))
btree_leaf_lookup-Answer a (suc left) lo hi key e l = rw (cell-lt a lo (pos 0) (omega arith)) (
    Gives-if (eqb_ℤ (entry a lo) key)
      (λ same. gives _ (found lo (omega arith) (omega arith) (eq_of_parts _ _ (ground arith))))
      (λ other.
        Gives-weaken
          (λ r. skip-Answer a lo (lo + 1) hi key r (omega arith) λ i p q same. ground (arith, same))
          (btree_leaf_lookup-Answer a left (lo + 1) hi key (omega arith) l)))

mutual
  lo-le-hi : {a : List ℤ} {t : Btree} {lo hi : ℕ} → Covers a t lo hi → lo ≤ hi
  lo-le-hi (at_leaf l) = l
  lo-le-hi (at_branch d) = all-lo-le-hi d

  all-lo-le-hi :
      {a : List ℤ} {cs : Children} {ks : List ℤ} {lo hi : ℕ} → CoversAll a cs ks lo hi → lo ≤ hi
  all-lo-le-hi (last d) = lo-le-hi d
  all-lo-le-hi (next mid l d ds) = omega (arith, all-lo-le-hi ds)

abbrev pub IsAscending : List ℤ → (n : ℕ) → Type 0
IsAscending a n = (i j : ℕ) → i ≤ j → j < n → entry a i ≤ℤ entry a j

mutual
  unfolding lookup_from child_index_loop

  pub lookup_from-Answer :
      {a : List ℤ} {n : ℕ} {t : Btree} {lo hi : ℕ}
      → IsAscending a n
      → n ≤ length a
      → (key : ℤ) → hi ≤ n
      → Covers a t lo hi
      → Gives (Answer a lo hi key) (lookup_from a t key)
  lookup_from-Answer {a = a} {lo = lo} {hi = hi} s l key h (at_leaf p) =
      btree_leaf_lookup-Answer a (hi - lo) lo hi key (omega arith) (omega arith)
  lookup_from-Answer s l key h (at_branch d) = lookup_child-Answer s l key h d

  lookup_child-Answer :
      {a : List ℤ} {n : ℕ} {cs : Children} {ks : List ℤ} {lo hi : ℕ}
      → IsAscending a n
      → n ≤ length a
      → (key : ℤ) → hi ≤ n
      → CoversAll a cs ks lo hi
      → Gives
          (Answer a lo hi key)
          (child_index_loop (length ks) ks key 0 >>= λ i. lookup_child a cs i key)
  lookup_child-Answer s l key h (last d) = lookup_from-Answer s l key h d
  lookup_child-Answer {a = a} {lo = lo} {hi = hi} s l key h
        (next {t = t} {cs = cs} {ks = ks} mid p d ds) =
      Gives-branch (ltb_ℤ (entry a (mid - 1)) key) _ _ (λ i. lookup_child a (child t cs) i key)
        (λ less.
          rw
            (
              child_index_loop-shift (length ks) (entry a (mid - 1)) ks key 0,
              sym (
                  bind_through (child_index_loop (length ks) ks key 0)
                    (λ i. lookup_child a cs i key) (λ j. ok (suc j))
                    (λ i. lookup_child a (child t cs) i key) (λ j. refl)),
            )
            (Gives-weaken
              (λ r. skip-Answer a lo mid hi key r (omega arith) λ i q q' e.
                ground (arith, e, s i (mid - 1) (omega arith) (omega (arith, all-lo-le-hi ds))))
              (lookup_child-Answer s l key h ds)))
        (λ more.
          Gives-weaken
            (λ r.
              first-Answer a lo mid hi key r p (all-lo-le-hi ds)
                (λ i q q'. s (mid - 1) i (omega arith) (omega arith)) (ground (arith, more)))
            (lookup_from-Answer s l key (omega (arith, all-lo-le-hi ds)) d))
