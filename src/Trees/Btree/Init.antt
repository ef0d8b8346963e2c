-- ===== src/Trees/Btree/Init.antt =====
-- The whole B-tree: built, searched and destroyed.
use linux.Base.{
  ℕ, zero, suc, ◌+◌, ◌-◌, ◌/◌, ◌%◌, ◌≤◌, ◌<◌, ◌≡◌, ◌∙◌, refl, sym, List, [], ◌∷◌, Option, Bool,
  true, false, leb, ◌==◌, length, take, arith, length-take, inl, inr, ◌⊎◌,
}
use linux.Base.Int.{ℤ}
use linux.Base.Word.{u8}
use linux.Base.Run.{Run, Gives, gives, Gives-then, Gives-if, Gives-weaken}
use linux.Base.Memory.{
  Memory, malloc, free_pointer, count, one_if, IsLive, free-IsLive, Denies, Malloced, refused,
  granted, malloc-Malloced,
}
use linux.Trees.Btree.{
  Btree, no_child, child_count_of, build_node, build_btree_rec, BtreeTree, btree_tree_fill,
  btree_tree_finish, btree_tree_init, btree_tree_destroy, destroy_root, btree_tree_lookup,
  lookup_from,
}
use linux.Trees.Btree.Find.{
  at_leaf, at_branch, IsAscending, Answer, found, absent, entry, lookup_from-Answer,
}
use linux.Trees.Btree.Build.{
  owns, destroy-IsLive, Built, failed, built, BuiltAll-elim, sum_of_parts, sum_of_parts_lem,
  children_loop-BuiltAll,
}

child_count_of-over : (n : ℕ) → 32 < n → child_count_of n ≡ 16
unfolding child_count_of
child_count_of-over n h = ground arith

-- The parts of sixteen children are all of the range.
parts_of_sixteen : (n : ℕ) → sum_of_parts 16 0 (n / 16) (n % 16) ≡ n
parts_of_sixteen n = omega (arith, sum_of_parts_lem 16 0 (n / 16) (n % 16))

build_node-Built :
    (grants : ℕ → Bool) (a : List ℤ) (build : (lo hi : ℕ) → Memory → Run (Option Btree × Memory))
    (lo hi : ℕ) (g : ℕ → ℕ)
    → lo ≤ hi
    → hi ≤ length a
    → ((lo' hi' : ℕ) (m : Memory) (g' : ℕ → ℕ)
        → lo' < hi'
        → hi' < lo' + (hi - lo)
        → hi' ≤ hi
        → IsLive m g'
        → Gives (Built grants a lo' hi' g') (build lo' hi' m))
    → (r : Option ℕ × Memory) → Malloced grants g r
    → Gives (Built grants a lo hi g) (build_node build a lo hi r)
unfolding build_node owns
build_node-Built grants a build lo hi g l b builds r (refused m k live) = gives _ (failed m k live)
build_node-Built grants a build lo hi g l b builds r (granted block m live) =
    Gives-if (leb (hi - lo) 32) (λ small. gives _ (built _ m (at_leaf l) live))
      (λ large.
        let sixteen : child_count_of (hi - lo) ≡ 16 =
          child_count_of-over (hi - lo) (ground arith) in
        rw sixteen (
          Gives-then
            (BuiltAll-elim _ (λ m' k live'. gives _ (failed m' k live'))
              (λ ks cs m' covers size live'.
                let fifteen : u8 (child_count_of (hi - lo) - 1) ≡ length ks =
                  omega (arith, sixteen, size) in
                let all : u8 (child_count_of (hi - lo)) ≡ 16 = omega (arith, sixteen) in
                gives _ (
                  built _ m' (rw fifteen (at_branch covers))
                    (rw all (λ x. omega (arith, live' x))))))
            (children_loop-BuiltAll grants a build block ((hi - lo) / 16) ((hi - lo) % 16) hi g
              (λ lo' hi' m' g' p q r'. builds lo' hi' m' g' p (ground arith) r') 15 0 lo hi no_child
              m (λ x. one_if x block + g x) (ground arith)
              (omega (arith, parts_of_sixteen (hi - lo))) (omega arith) b refl
              (λ x. omega (arith, live x)) live)))

build_btree_rec-Built :
    (grants : ℕ → Bool) (a : List ℤ) (fuel lo hi : ℕ) (m : Memory) (g : ℕ → ℕ)
    → lo ≤ hi
    → hi < lo + fuel
    → hi ≤ length a
    → IsLive m g
    → Gives (Built grants a lo hi g) (build_btree_rec fuel grants a lo hi m)
unfolding build_btree_rec
build_btree_rec-Built grants a zero lo hi m g l f b live = absurd (omega arith)
build_btree_rec-Built grants a (suc fuel) lo hi m g l f b live =
    build_node-Built grants a (build_btree_rec fuel grants a) lo hi g l b
      (λ lo' hi' m' g' p q r.
        build_btree_rec-Built grants a fuel lo' hi' m' g' (omega arith) (omega arith) (omega arith))
      (malloc grants m) (malloc-Malloced grants m g live)

-- What `btree_tree_init` promises: without a tree, no block stays; with one, every lookup has the
-- right answer, and to destroy it leaves the blocks of before.
pub data Opened (grants : ℕ → Bool) (keys : List ℤ) (n : ℕ) (f : ℕ → ℕ)
    : Bool × BtreeTree × Memory → Type 0 where
  not_opened :
      (tree : BtreeTree) (m : Memory)
      → (n ≡ 0) ⊎ Denies grants
      → IsLive m f
      → Opened grants keys n f (false, tree, m)
  opened :
      (tree : BtreeTree) (m : Memory)
      → ((key : ℤ) → Gives (Answer keys 0 n key) (btree_tree_lookup tree key))
      → Gives (λ (t, m'). IsLive m' f) (btree_tree_destroy tree m)
      → Opened grants keys n f (true, tree, m)

entry-take : (keys : List ℤ) (n i : ℕ) → i < n → entry (take n keys) i ≡ entry keys i
entry-take keys zero i h = absurd (omega arith)
entry-take [] (suc n) i h = refl
entry-take (x ∷ keys) (suc n) zero h = refl
entry-take (x ∷ keys) (suc n) (suc i) h = entry-take keys n i (omega arith)

-- An answer for the copy is one for the keys.
copied-Answer :
    (keys : List ℤ) (n : ℕ) (key r : ℤ) → Answer (take n keys) 0 n key r → Answer keys 0 n key r
copied-Answer keys n key r (found i p q e) = found i p q (sym (entry-take keys n i q) ∙ e)
copied-Answer keys n key r (absent f) = absent λ i p q. rw (sym (entry-take keys n i q)) (f i p q)

finish-Opened :
    (grants : ℕ → Bool) (keys : List ℤ) (n block : ℕ) (f : ℕ → ℕ)
    → n ≤ length keys
    → IsAscending keys n
    → (r : Option Btree × Memory) → Built grants (take n keys) 0 n (λ x. one_if x block + f x) r
    → Gives (Opened grants keys n f) (btree_tree_finish block (take n keys) n r)
unfolding btree_tree_finish btree_tree_destroy destroy_root free_pointer btree_tree_lookup
    lookup_from
finish-Opened grants keys n block f l s r (failed m k live) =
    Gives-then (λ (tree, m') live'. gives _ (not_opened tree m' (inr k) live'))
      (Gives-then {Q = λ (tree, m'). IsLive m' f} (λ m' live'. gives _ live')
        (free-IsLive block m f live))
finish-Opened grants keys n block f l s r (built t m covers live) = gives _ (
    opened _ m
      (λ key.
        Gives-weaken (λ r. copied-Answer keys n key r)
          (lookup_from-Answer ascending (omega (arith, length-take n keys)) key (omega arith)
            covers))
      (Gives-then
        (λ m' live'. Gives-then (λ m'' live''. gives _ live'') (free-IsLive block m' f live'))
        (destroy-IsLive t m (λ x. one_if x block + f x) live)))
  where
    ascending : IsAscending (take n keys) n
    ascending i j p q = rw (entry-take keys n i (omega arith), entry-take keys n j q) (s i j p q)

fill-Opened :
    (grants : ℕ → Bool) (keys : List ℤ) (n : ℕ) (f : ℕ → ℕ)
    → n ≤ length keys
    → IsAscending keys n
    → (r : Option ℕ × Memory) → Malloced grants f r
    → Gives (Opened grants keys n f) (btree_tree_fill grants keys n r)
unfolding btree_tree_fill
fill-Opened grants keys n f l s r (refused m k live) = gives _ (not_opened _ m (inr k) live)
fill-Opened grants keys n f l s r (granted block m live) =
    Gives-then (finish-Opened grants keys n block f l s) (
      build_btree_rec-Built grants (take n keys) (n + 1) 0 n m (λ x. one_if x block + f x)
        (omega arith) (omega arith) (omega (arith, length-take n keys)) live)

-- Whichever calls of the allocator succeed, and for ascending keys: `btree_tree_init` reads inside
-- the array of the keys and frees only what is live. It returns -1 only if there are no keys or the
-- allocator refuses a call, and then no block of its own stays live; else every lookup in the tree
-- returns the key if it is there and -1 if it is not, and `btree_tree_destroy` frees each block of
-- the tree once.
pub btree_tree_init-Opened :
    (grants : ℕ → Bool) (keys : List ℤ) (n : ℕ) (m : Memory)
    → n ≤ length keys
    → IsAscending keys n
    → Gives (Opened grants keys n (λ x. count x m.live)) (btree_tree_init grants keys n m)
unfolding btree_tree_init
btree_tree_init-Opened grants keys n m l s =
    Gives-if (n == 0) (λ none_there. gives _ (not_opened _ m (inl (ground arith)) (λ x. refl)))
      (λ some_there.
        fill-Opened grants keys n (λ x. count x m.live) l s (malloc grants m)
          (malloc-Malloced grants m (λ x. count x m.live) (λ x. refl)))
