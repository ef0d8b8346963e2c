-- ===== src/Linked/Build/Chained.antt =====
-- Both ways to link the nodes make a chain of them all.
use linux.Base.{
  ℕ, zero, suc, ◌+◌, ◌-◌, ◌<◌, ◌≡◌, refl, sym, ◌∙◌, List, [], ◌∷◌, map, none, some, get_or, length,
  length-map, ◌==◌, false, arith,
}
use mathlib.Core.Path.{subst}
use linux.Base.Run.{Run, ok, Gives-value}
use linux.Linked.{Store}
use linux.Linked.Middle.{Chain}
use linux.Linked.Build.{
  entry, entry_by, set_next, link_loop, link_sequential, link_shuffled, shuffle_indices,
}
use linux.Linked.Build.Distinct.{IsOrder, shuffle_indices-IsOrder}
use linux.Linked.Build.Links.{HasNext, set_next-IsPointed, IsPlaced, link_loop_lem, links-Chain}

-- The whole of either way: the links one after the other, and then the end.
link_all :
    (at : ℕ → Run ℕ) (store : Store) (a : ℕ) (xs : List ℕ)
    → IsPlaced at (a ∷ xs) (length store)
    → (linked store' : Store) × (link_loop (length xs) 0 at store ≡ ok linked)
      × (set_next linked (get_or (a ∷ xs) (length xs) 0) none ≡ ok store')
      × Chain store' (some a) (a ∷ xs)
link_all at store a xs placed =
    let (linked, run, count, links) =
      link_loop_lem at (a ∷ xs) (length xs) 0 store placed (omega arith)
        (λ j l. absurd (omega arith)) in
    let (store', written, done) =
      set_next-IsPointed linked (get_or (a ∷ xs) (length xs) 0) none
        (omega (arith, placed.inside (length xs) (omega arith))) in
    (
      linked,
      store',
      run,
      written,
      links-Chain store' a xs
          (λ i h.
            done.others _ _
              (λ e.
                absurd (omega (arith, placed.distinct (length xs) i (omega arith) (omega arith) e)))
              (to_next linked i (links i (omega arith))))
          done.points,
    )
  where
    to_next :
        (s : Store) (i : ℕ)
        → HasNext s (get_or (a ∷ xs) i 0) (some (get_or (a ∷ xs) (i + 1) 0))
        → HasNext s (get_or (a ∷ xs) i 0) (some (get_or xs i 0))
    to_next s i h =
        let one_on : i + 1 ≡ suc i = omega arith in
        subst (λ t. HasNext s (get_or (a ∷ xs) i 0) (some (get_or (a ∷ xs) t 0))) one_on h

pub entry-lt : (cells : List ℕ) (i : ℕ) → i < length cells → entry cells i ≡ ok (get_or cells i 0)
entry-lt [] i h = absurd (omega arith)
entry-lt (x ∷ xs) zero h = refl
entry-lt (x ∷ xs) (suc i) h = entry-lt xs i (omega arith)

-- An array of different nodes that are all in the store.
pub record IsNodes (nodes : List ℕ) (store : Store) : Type 0 where
  pub inside : (i : ℕ) → i < length nodes → get_or nodes i 0 < length store
  pub distinct :
      (i j : ℕ) → i < length nodes → j < length nodes → get_or nodes i 0 ≡ get_or nodes j 0 → i ≡ j

-- Linking an array of one or more different nodes in its own order leaves the chain of the array.
pub link_sequential-Chain :
    (a : ℕ) (rest : List ℕ) (store : Store)
    → IsNodes (a ∷ rest) store
    → (store' : Store) × (link_sequential (a ∷ rest) (length (a ∷ rest)) store ≡ ok store')
      × Chain store' (some a) (a ∷ rest)
unfolding link_sequential
link_sequential-Chain a rest store good =
    let placed : IsPlaced (entry (a ∷ rest)) (a ∷ rest) (length store) = record {
      reads = λ i h. entry-lt (a ∷ rest) i h;
      inside = good.inside;
      distinct = good.distinct;
    } in
    let (linked, store', run, written, chain) = link_all (entry (a ∷ rest)) store a rest placed in
    let last : suc (length rest) - 1 ≡ length rest = omega arith in
    let some_left : (suc (length rest) == 0) ≡ false = ground arith in
    rw (last, run, some_left, entry-lt (a ∷ rest) (length rest) (omega arith))
      (store', written, chain)

map-get_or :
    (f : ℕ → ℕ) (xs : List ℕ) (i : ℕ) → i < length xs → get_or (map f xs) i 0 ≡ f (get_or xs i 0)
map-get_or f [] i h = absurd (omega arith)
map-get_or f (x ∷ xs) zero h = refl
map-get_or f (x ∷ xs) (suc i) h = map-get_or f xs i (omega arith)

-- The nodes in the order of the indices.
abbrev pub reordered : (nodes indices : List ℕ) → List ℕ
reordered nodes indices = map (λ (j : ℕ). get_or nodes j 0) indices

reordered-IsPlaced :
    (nodes indices : List ℕ) (store : Store)
    → IsNodes nodes store
    → IsOrder (length nodes) indices
    → IsPlaced (entry_by nodes indices) (reordered nodes indices) (length store)
reordered-IsPlaced nodes indices store good order = record {
  reads = λ i h.
      rw (entry-lt indices i (omega (arith, count)), at i h)
        (entry-lt nodes (get_or indices i 0) (order.below i (omega (arith, count, order.count))));
  inside = λ i h.
      rw (at i h)
        (good.inside (get_or indices i 0) (order.below i (omega (arith, count, order.count))));
  distinct = λ i j h l e.
      order.distinct i j (omega (arith, count, order.count)) (omega (arith, count, order.count)) (
        good.distinct (get_or indices i 0) (get_or indices j 0)
          (order.below i (omega (arith, count, order.count)))
          (order.below j (omega (arith, count, order.count))) (sym (at i h) ∙ e ∙ at j l));
}
  where
    count : length (reordered nodes indices) ≡ length indices
    count = length-map indices (λ (j : ℕ). get_or nodes j 0)

    at :
        (i : ℕ)
        → i < length (reordered nodes indices)
        → get_or (reordered nodes indices) i 0 ≡ get_or nodes (get_or indices i 0) 0
    at i h = map-get_or (λ (j : ℕ). get_or nodes j 0) indices i (omega (arith, count))

-- For every seed, shuffling the indices of an array of one or more different nodes and linking the
-- nodes in their order read and write only what exists. The indices are the numbers below the length,
-- each once, and from the returned head on there is a chain through the nodes in that order, so the
-- chain has every node of the array once.
pub link_shuffled-Chain :
    (nodes : List ℕ) (seed : ℕ) (store : Store)
    → 0 < length nodes
    → IsNodes nodes store
    → (indices : List ℕ) × (shuffle_indices (length nodes) seed ≡ ok indices)
      × IsOrder (length nodes) indices
      × (store' : Store) × (head : ℕ) × (link_shuffled nodes indices (length nodes) store
          ≡ ok (store', head))
      × Chain store' (some head) (reordered nodes indices)
unfolding link_shuffled
link_shuffled-Chain nodes seed store some_node good =
    let (indices, drawn, order) =
      Gives-value (shuffle_indices-IsOrder (length nodes) seed some_node) in
    let (store', head, run, chain) = shuffled indices order in
    (indices, drawn, order, store', head, run, chain)
  where
    shuffled :
        (indices : List ℕ)
        → IsOrder (length nodes) indices
        → (store' : Store) × (head : ℕ) × (link_shuffled nodes indices (length nodes) store
            ≡ ok (store', head))
          × Chain store' (some head) (reordered nodes indices)
    shuffled [] order = absurd (omega (arith, order.count))
    shuffled (j ∷ rest) order =
        let placed = reordered-IsPlaced nodes (j ∷ rest) store good order in
        let others = map (λ (i : ℕ). get_or nodes i 0) rest in
        let (linked, store', run, written, chain) =
          link_all (entry_by nodes (j ∷ rest)) store (get_or nodes j 0) others placed in
        let count = length-map rest (λ (i : ℕ). get_or nodes i 0) in
        let last : length nodes - 1 ≡ length others = omega (arith, order.count, count) in
        rw
          (
            last,
            run,
            placed.reads (length others) (omega arith),
            written,
            placed.reads 0 (omega arith),
          )
          (store', get_or nodes j 0, refl, chain)
