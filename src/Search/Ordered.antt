-- ===== src/Search/Ordered.antt =====
-- The binary tree stays ordered, and lookups see insertions.
use linux.Base.{ℕ, ◌<◌, ◌≡◌, refl, some, true, false, ltb, ◌==◌, if◌then◌else◌, arith, dec_lt}
use linux.Search.{Tree, leaf, node, node_insert, node_lookup}

abbrev pub AllKeys : (ℕ → Type 0) → Tree → Type 0
AllKeys P leaf = Unit {0}
AllKeys P (node k v l r) = P k × AllKeys P l × AllKeys P r

-- The keys to the left of a node are less, those to the right greater.
abbrev pub IsOrdered : Tree → Type 0
IsOrdered leaf = Unit {0}
IsOrdered (node k v l r) =
    AllKeys (λ j. j < k) l × AllKeys (λ j. k < j) r × IsOrdered l × IsOrdered r

-- The tree after an insertion: it is ordered, and it has the keys of before and the new one.
pub record IsInserted (t : Tree) (key value : ℕ) (t' : Tree) : Type 1 where
  pub ordered : IsOrdered t'
  pub keys : (P : ℕ → Type 0) → AllKeys P t → P key → AllKeys P t'
  pub lookups : (q : ℕ) → node_lookup t' q ≡ (if q == key then value else node_lookup t q)

-- Where `malloc` succeeds, an insertion into an ordered tree ends with an ordered tree that has no
-- other keys than those of before and the new one, in which a lookup of the key returns the new value
-- and every other lookup what it did before.
pub node_insert-IsInserted :
    (t : Tree) (key value : ℕ)
    → IsOrdered t
    → (t' : Tree) × (node_insert true t key value ≡ some t') × IsInserted t key value t'
unfolding node_insert node_lookup
node_insert-IsInserted leaf key value o = (
  _,
  refl,
  record { ordered = (tt, tt, tt, tt); keys = λ P h p. (p, tt, tt); lookups = λ q. ground arith },
)
node_insert-IsInserted (node k v l r) key value (below, above, ol, or) = elim (dec_lt key k) [
  | yes less ↦
      let test : ltb key k ≡ true = ground arith in
      let (l', built, done) = node_insert-IsInserted l key value ol in
      rw (test, built)
        (
          node k v l' r,
          refl,
          record {
            ordered = (done.keys (λ j. j < k) below less, above, done.ordered, or);
            keys = λ P (pk, pl, pr) p. (pk, done.keys P pl p, pr);
            lookups = λ q. ground (arith, done.lookups q);
          },
        )
  | no not_less ↦
      let test : ltb key k ≡ false = ground arith in
      rw test (elim (dec_lt k key) [
        | yes greater ↦
            let test' : ltb k key ≡ true = ground arith in
            let (r', built, done) = node_insert-IsInserted r key value or in
            rw (test', built)
              (
                node k v l r',
                refl,
                record {
                  ordered = (below, done.keys (λ j. k < j) above greater, ol, done.ordered);
                  keys = λ P (pk, pl, pr) p. (pk, pl, done.keys P pr p);
                  lookups = λ q. ground (arith, done.lookups q);
                },
              )
        | no not_greater ↦
            let test' : ltb k key ≡ false = ground arith in
            rw test' (
              node k value l r,
              refl,
              record {
                ordered = (below, above, ol, or);
                keys = λ P h p. h;
                lookups = λ q. ground arith;
              },
            )
      ])
]
