-- ===== src/Linked/Build/Links.antt =====
-- The nodes linked in an order form the chain of that order.
use linux.Base.{
  ℕ, zero, suc, ◌+◌, ◌<◌, ◌≡◌, ◌≢◌, refl, ◌∙◌, List, [], ◌∷◌, Option, none, some, get_elem?, get_or,
  length, length-set, get_elem?-lt, get_elem?-set_self, get_elem?-set_ne, ℕ_discrete, arith,
}
use mathlib.Core.Path.{subst}
use linux.Base.Run.{Run, ok}
use linux.Linked.{Node, Store}
use linux.Linked.Middle.{Chain}
use linux.Linked.Build.{set_next, link_loop}

abbrev pub HasNext : Store → (address : ℕ) → Option ℕ → Type 0
HasNext store address p = (n : Node) × (get_elem? store address ≡ some n) × (n.next ≡ p)

-- A write to a node that exists succeeds, and changes the pointer of that node alone.
pub record IsPointed (store : Store) (address : ℕ) (p : Option ℕ) (store' : Store) : Type 0 where
  pub count : length store' ≡ length store
  pub points : HasNext store' address p
  pub others : (b : ℕ) (q : Option ℕ) → address ≢ b → HasNext store b q → HasNext store' b q

pub set_next-IsPointed :
    (store : Store) (address : ℕ) (p : Option ℕ)
    → address < length store
    → (store' : Store) × (set_next store address p ≡ ok store') × IsPointed store address p store'
set_next-IsPointed store address p h =
    let (n, at) = get_elem?-lt store address h in
    rw at (
      _,
      refl,
      record {
        count = length-set store address _;
        points = (_, get_elem?-set_self store address _ h, refl);
        others = λ b q ne (m, at', e). (m, get_elem?-set_ne store _ ne ∙ at', e);
      },
    )

-- Addresses that `at` gives, all different and all in the store.
pub record IsPlaced (at : ℕ → Run ℕ) (order : List ℕ) (size : ℕ) : Type 0 where
  pub reads : (i : ℕ) → i < length order → at i ≡ ok (get_or order i 0)
  pub inside : (i : ℕ) → i < length order → get_or order i 0 < size
  pub distinct :
      (i j : ℕ) → i < length order → j < length order → get_or order i 0 ≡ get_or order j 0 → i ≡ j

module _ (at : ℕ → Run ℕ) (order : List ℕ) where
  abbrev pub LinkedUpto : Store → ℕ → Type 0
  LinkedUpto store k =
      (i : ℕ) → i < k → HasNext store (get_or order i 0) (some (get_or order (i + 1) 0))

  pub link_loop_lem :
      (left i : ℕ) (store : Store)
      → IsPlaced at order (length store)
      → i + left < length order
      → LinkedUpto store i
      → (store' : Store) × (link_loop left i at store ≡ ok store')
        × (length store' ≡ length store)
        × LinkedUpto store' (i + left)
  unfolding link_loop
  link_loop_lem zero i store placed h links = (store, refl, refl, λ j l. links j (omega arith))
  link_loop_lem (suc left) i store placed h links =
      let (store', written, done) =
        set_next-IsPointed store (get_or order i 0) (some (get_or order (i + 1) 0))
          (placed.inside i (omega arith)) in
      let (store'', rest, count, linked) =
        link_loop_lem left (i + 1) store' (rw done.count placed) (omega arith)
          (extended store' done) in
      rw (placed.reads i (omega arith), placed.reads (i + 1) (omega arith), written)
        (store'', rest, count ∙ done.count, λ j l. linked j (omega arith))
    where
      extended :
          (store' : Store)
          → IsPointed store (get_or order i 0) (some (get_or order (i + 1) 0)) store'
          → LinkedUpto store' (i + 1)
      extended store' done j l = elim (ℕ_discrete i j) [
        | yes e ↦
            subst (λ t. HasNext store' (get_or order t 0) (some (get_or order (t + 1) 0))) e
              done.points
        | no ne ↦
            done.others (get_or order j 0) _
              (λ e. ne (placed.distinct i j (omega arith) (omega arith) e)) (links j (omega arith))
      ]

-- Links from each node to the next, and from the last to NULL, are a chain.
pub links-Chain :
    (store : Store) (a : ℕ) (xs : List ℕ)
    → ((i : ℕ) → i < length xs → HasNext store (get_or (a ∷ xs) i 0) (some (get_or xs i 0)))
    → HasNext store (get_or (a ∷ xs) (length xs) 0) none
    → Chain store (some a) (a ∷ xs)
unfolding Chain
links-Chain store a [] links (n, at, e) = (refl, n, at, e)
links-Chain store a (x ∷ xs) links last =
    let (n, at, e) = links 0 (omega arith) in
    (refl, n, at, rw e (links-Chain store x xs (λ i h. links (suc i) (omega arith)) last))
