-- ===== src/Trees/Btree/Build.antt =====
-- Building a B-tree: the tree covers its range, and an allocation that fails leaves no block behind.
use linux.Base.{
  ℕ, zero, suc, ◌+◌, ◌-◌, ◌*◌, ◌≤◌, ◌<◌, ◌≡◌, refl, sym, List, [], ◌∷◌, Option, none, some, Bool,
  ltb, if◌then◌else◌, length, arith, min,
}
use linux.Base.Int.{ℤ, pos}
use linux.Base.Run.{Run, ok, ◌>>=◌, Gives, gives, Gives-then}
use linux.Base.Arrays.{cell-lt}
use linux.Base.Memory.{Memory, free, one_if, IsLive, free-IsLive, Denies}
use linux.Trees.Btree.{
  Btree, leaf, branch, Children, no_child, child, add_child, destroy_btree_rec, destroy_children,
  separator, children_loop,
}
use linux.Trees.Btree.Find.{entry, Covers, CoversAll, last, next}

-- How many nodes of the tree lie in block `x`, with as many children of a node as it counts.
unfoldable mutual
  pub owns : Btree → ℕ → ℕ
  owns (leaf block start n) x = one_if x block
  owns (branch block key_count child_count ks cs) x = one_if x block + owns_all child_count cs x

  pub owns_all : (left : ℕ) → Children → ℕ → ℕ
  owns_all zero cs x = 0
  owns_all (suc left) no_child x = 0
  owns_all (suc left) (child t cs) x = owns t x + owns_all left cs x

mutual
  unfolding destroy_btree_rec owns

  pub destroy-IsLive :
      (t : Btree) (m : Memory) (f : ℕ → ℕ)
      → IsLive m (λ x. owns t x + f x)
      → Gives (λ m'. IsLive m' f) (destroy_btree_rec t m)
  destroy-IsLive (leaf block start n) m f h = free-IsLive block m f h
  destroy-IsLive (branch block key_count child_count ks cs) m f h =
      Gives-then (λ m' live. free-IsLive block m' f live)
        (destroy_children-IsLive child_count cs m (λ x. one_if x block + f x)
          (λ x. omega (arith, h x)))

  destroy_children-IsLive :
      (left : ℕ) (cs : Children) (m : Memory) (f : ℕ → ℕ)
      → IsLive m (λ x. owns_all left cs x + f x)
      → Gives (λ m'. IsLive m' f) (destroy_children left cs m)
  destroy_children-IsLive zero cs m f h = gives m (λ x. omega (arith, h x))
  destroy_children-IsLive (suc left) no_child m f h = gives m (λ x. omega (arith, h x))
  destroy_children-IsLive (suc left) (child t cs) m f h =
      Gives-then (λ m' live. destroy_children-IsLive left cs m' f live)
        (destroy-IsLive t m (λ x. owns_all left cs x + f x) (λ x. omega (arith, h x)))

-- There are `n` children.
abbrev pub HasChildren : ℕ → Children → Type 0
HasChildren n no_child = n ≡ 0
HasChildren n (child t cs) = (k : ℕ) × (n ≡ suc k) × HasChildren k cs

HasChildren-add_child :
    (n : ℕ) (cs : Children) (t : Btree) → HasChildren n cs → HasChildren (n + 1) (add_child cs t)
unfolding add_child
HasChildren-add_child n no_child t e = (0, omega (arith, e), refl)
HasChildren-add_child n (child s cs) t (k, e, rest) =
    (k + 1, omega (arith, e), HasChildren-add_child k cs t rest)

owns_all-add_child :
    (n : ℕ) (cs : Children) (t : Btree) (x : ℕ)
    → HasChildren n cs
    → owns_all (n + 1) (add_child cs t) x ≡ owns_all n cs x + owns t x
unfolding owns add_child
owns_all-add_child n no_child t x e = rw e (omega arith)
owns_all-add_child n (child s cs) t x (k, e, rest) =
    let one_more : n + 1 ≡ suc (k + 1) = omega (arith, e) in
    rw (one_more, e) (omega (arith, owns_all-add_child k cs t x rest))

-- How building ends: with no tree and the blocks of before, or with a tree in blocks of its own.
pub data Built (grants : ℕ → Bool) (a : List ℤ) (lo hi : ℕ) (f : ℕ → ℕ)
    : Option Btree × Memory → Type 0 where
  failed : (m : Memory) → Denies grants → IsLive m f → Built grants a lo hi f (none, m)
  built :
      (t : Btree) (m : Memory)
      → Covers a t lo hi
      → IsLive m (λ x. owns t x + f x)
      → Built grants a lo hi f (some t, m)

-- The same for the children from `lo` on; `g` is live before them, and `f` before the parent.
pub data BuiltAll (grants : ℕ → Bool) (a : List ℤ) (left lo hi : ℕ) (f g : ℕ → ℕ)
    : Option (List ℤ × Children) × Memory → Type 0 where
  all_failed :
      (m : Memory) → Denies grants → IsLive m f → BuiltAll grants a left lo hi f g (none, m)
  all_built :
      (ks : List ℤ) (cs : Children) (m : Memory)
      → CoversAll a cs ks lo hi
      → length ks + 1 ≡ left
      → IsLive m (λ x. owns_all left cs x + g x)
      → BuiltAll grants a left lo hi f g (some (ks, cs), m)

pub Built-elim :
    {grants : ℕ → Bool} {a : List ℤ} {lo hi : ℕ} {f : ℕ → ℕ} (Q : Option Btree × Memory → Type 0)
    → ((m : Memory) → Denies grants → IsLive m f → Q (none, m))
    → ((t : Btree) (m : Memory) → Covers a t lo hi → IsLive m (λ x. owns t x + f x) → Q (some t, m))
    → (r : Option Btree × Memory) → Built grants a lo hi f r
    → Q r
Built-elim Q p q r (failed m k live) = p m k live
Built-elim Q p q r (built t m covers live) = q t m covers live

pub BuiltAll-elim :
    {grants : ℕ → Bool} {a : List ℤ} {left lo hi : ℕ} {f g : ℕ → ℕ}
    (Q : Option (List ℤ × Children) × Memory → Type 0)
    → ((m : Memory) → Denies grants → IsLive m f → Q (none, m))
    → ((ks : List ℤ) (cs : Children) (m : Memory)
        → CoversAll a cs ks lo hi
        → length ks + 1 ≡ left
        → IsLive m (λ x. owns_all left cs x + g x)
        → Q (some (ks, cs), m))
    → (r : Option (List ℤ × Children) × Memory) → BuiltAll grants a left lo hi f g r
    → Q r
BuiltAll-elim Q p q r (all_failed m k live) = p m k live
BuiltAll-elim Q p q r (all_built ks cs m covers size live) = q ks cs m covers size live

-- What the children from `i` on have together.
unfoldable pub sum_of_parts : (left i base rem : ℕ) → ℕ
sum_of_parts zero i base rem = 0
sum_of_parts (suc left) i base rem =
    base + (if ltb i rem then 1 else 0) + sum_of_parts left (i + 1) base rem

pub sum_of_parts_lem :
    (left i base rem : ℕ) → sum_of_parts left i base rem ≡ left * base + min left (rem - i)
unfolding sum_of_parts
sum_of_parts_lem zero i base rem = ground arith
sum_of_parts_lem (suc left) i base rem = ground (arith, sum_of_parts_lem left (i + 1) base rem)

module _ (grants : ℕ → Bool) (a : List ℤ)
    (build : (lo hi : ℕ) → Memory → Run (Option Btree × Memory)) (block base rem bound : ℕ)
    (f : ℕ → ℕ)
    (builds : (lo hi : ℕ) (m : Memory) (g : ℕ → ℕ)
      → lo < hi
      → hi ≤ lo + base + 1
      → hi ≤ bound
      → IsLive m g
      → Gives (Built grants a lo hi g) (build lo hi m)) where
  -- After a child that could not be built: those before it and the node are freed.
  clean_up :
      (left i lo hi : ℕ) (done : Children) (m : Memory) (g : ℕ → ℕ)
      → Denies grants
      → IsLive m (λ x. owns_all i done x + (one_if x block + f x))
      → Gives
          (BuiltAll grants a left lo hi f g)
          (destroy_children i done m >>= λ m1. free block m1 >>= λ m2. ok (none, m2))
  clean_up left i lo hi done m g k h =
      Gives-then
        (λ m1 live.
          Gives-then (λ m2 live'. gives _ (all_failed m2 k live')) (free-IsLive block m1 f live))
        (destroy_children-IsLive i done m (λ x. one_if x block + f x) h)

  pub children_loop-BuiltAll :
      (left i cursor hi : ℕ) (done : Children) (m : Memory) (g : ℕ → ℕ)
      → 0 < base
      → cursor + sum_of_parts (suc left) i base rem ≡ hi
      → hi ≤ bound
      → bound ≤ length a
      → HasChildren i done
      → IsLive m (λ x. owns_all i done x + (one_if x block + f x))
      → IsLive m g
      → Gives
          (BuiltAll grants a (suc left) cursor hi f g)
          (children_loop build a block base rem (suc left) i cursor done m)
  unfolding children_loop separator sum_of_parts owns
  children_loop-BuiltAll zero i cursor hi done m g pb e l l' all h live =
      Gives-then
        (Built-elim _
          (λ m' k live'.
            clean_up 1 i cursor hi done m' g k (λ x. omega (arith, live' x, live x, h x)))
          (λ t m' covers live'.
            let whole : cursor + (base + (if ltb i rem then 1 else 0)) ≡ hi = omega (arith, e) in
            gives _ (
              all_built [] (child t no_child) m' (last (rw (sym whole) covers)) refl
                (λ x. omega (arith, live' x)))))
        (builds cursor (cursor + (base + (if ltb i rem then 1 else 0))) m g (ground arith)
          (ground arith) (ground arith) live)
  children_loop-BuiltAll (suc left) i cursor hi done m g pb e l l' all h live =
      Gives-then
        (Built-elim _
          (λ m' k live'.
            clean_up (suc (suc left)) i cursor hi done m' g k
              (λ x. omega (arith, live' x, live x, h x)))
          (λ t m' covers live'.
            let mid = cursor + (base + (if ltb i rem then 1 else 0)) in
            let inside : mid ≤ hi = omega (arith, e) in
            rw (cell-lt a (mid - 1) (pos 0) (omega arith)) (
              Gives-then
                (BuiltAll-elim _ (λ m'' k live''. gives _ (all_failed m'' k live''))
                  (λ ks cs m'' covers' size live''. gives _ (
                    all_built (entry a (mid - 1) ∷ ks) (child t cs) m''
                      (next mid (omega arith) covers covers') (omega (arith, size))
                      (λ x. omega (arith, live'' x)))))
                (children_loop-BuiltAll left (i + 1) mid hi (add_child done t) m'
                  (λ x. owns t x + g x) pb (omega (arith, e)) l l'
                  (HasChildren-add_child i done t all)
                  (λ x. omega (arith, live' x, live x, h x, owns_all-add_child i done t x all))
                  live'))))
        (builds cursor (cursor + (base + (if ltb i rem then 1 else 0))) m g (ground arith)
          (ground arith) (ground arith) live)
