-- ===== src/Linked/Tests.antt =====
-- The middle searches on concrete lists.
use linux.Base.{
  ℕ, zero, suc, ◌/◌, ◌<◌, ◌≡◌, refl, List, [], ◌∷◌, none, some, get_elem?, get_or, length, arith,
}
use linux.Base.Run.{ok}
use linux.Linked.{Store, middle_fast_slow, middle_two_pass}
use linux.Linked.Middle.{Chain, middle_fast_slow-middle_two_pass}
use linux.Linked.Build.{shuffle_indices, link_shuffled}
use linux.Linked.Build.Distinct.{IsOrder}
use linux.Linked.Build.Chained.{IsNodes, reordered, link_shuffled-Chain}

-- Nodes 1, 0 and 2, linked in that order.
abbrev three_nodes : Store
three_nodes =
    record { next = some 2; payload = 10 }
    ∷ record { next = some 0; payload = 11 }
    ∷ record { next = none; payload = 12 }
    ∷ []

abbrev visited : List ℕ
visited = 1 ∷ 0 ∷ 2 ∷ []

middle_fast_slow-middle_two_pass_example :
    (middle_fast_slow three_nodes 4 (some 1) ≡ ok (get_elem? visited (length visited / 2)))
    × (middle_two_pass three_nodes 4 (some 1) ≡ ok (get_elem? visited (length visited / 2)))
middle_fast_slow-middle_two_pass_example =
    middle_fast_slow-middle_two_pass three_nodes 4 (some 1) visited
      (unfold Chain in (refl, _, refl, (refl, _, refl, (refl, _, refl, refl)))) (omega arith)
      (omega arith)

abbrev some_nodes : List ℕ
some_nodes = 2 ∷ 0 ∷ 1 ∷ []

some_nodes-IsNodes : IsNodes some_nodes three_nodes
some_nodes-IsNodes = record { inside = all_inside; distinct = all_distinct }
  where
    all_inside : (i : ℕ) → i < 3 → get_or some_nodes i 0 < 3
    all_inside zero h = omega arith
    all_inside (suc zero) h = omega arith
    all_inside (suc (suc zero)) h = omega arith
    all_inside (suc (suc (suc i))) h = absurd (omega arith)

    all_distinct : (i j : ℕ) → i < 3 → j < 3 → get_or some_nodes i 0 ≡ get_or some_nodes j 0 → i ≡ j
    all_distinct zero zero h l e = refl
    all_distinct (suc zero) (suc zero) h l e = refl
    all_distinct (suc (suc zero)) (suc (suc zero)) h l e = refl
    all_distinct zero (suc zero) h l e = absurd (omega arith)
    all_distinct zero (suc (suc zero)) h l e = absurd (omega arith)
    all_distinct (suc zero) zero h l e = absurd (omega arith)
    all_distinct (suc zero) (suc (suc zero)) h l e = absurd (omega arith)
    all_distinct (suc (suc zero)) zero h l e = absurd (omega arith)
    all_distinct (suc (suc zero)) (suc zero) h l e = absurd (omega arith)
    all_distinct (suc (suc (suc i))) j h l e = absurd (omega arith)
    all_distinct i (suc (suc (suc j))) h l e = absurd (omega arith)

link_shuffled-Chain_example :
    (indices : List ℕ) × (shuffle_indices 3 7 ≡ ok indices)
    × IsOrder 3 indices
    × (store' : Store) × (head : ℕ) × (link_shuffled some_nodes indices 3 three_nodes
        ≡ ok (store', head))
    × Chain store' (some head) (reordered some_nodes indices)
link_shuffled-Chain_example =
    link_shuffled-Chain some_nodes 7 three_nodes (omega arith) some_nodes-IsNodes
