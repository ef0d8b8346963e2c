-- ===== src/Linked/Alloc/Nodes.antt =====
-- Fresh nodes: their addresses are different and in the store, and they can be filled.
use linux.Base.{
  ℕ, zero, suc, ◌+◌, ◌≤◌, ◌≡◌, ◌∙◌, refl, List, none, some, get_or, set, length, length-set,
  length-map, get_elem?-lt, bit_xor, arith,
}
use linux.Base.Run.{ok, Gives, gives, Gives-weaken}
use linux.Linked.{Store}
use linux.Linked.Build.{
  init_loop, init_payloads, splitmix64_state, splitmix64_next, count_up, link_sequential,
  link_shuffled, shuffle_indices,
}
use linux.Linked.Build.Distinct.{length-count_up, count_up-get_or}
use linux.Linked.Build.Chained.{
  IsNodes, entry-lt, link_sequential-Chain, link_shuffled-Chain, reordered,
}
use linux.Linked.Middle.{Chain}

pub count_up-IsNodes :
    (n base : ℕ) (store : Store) → base + n ≤ length store → IsNodes (count_up n base) store
count_up-IsNodes n base store h = record {
  inside = λ i p. omega (
    arith,
    length-count_up n base,
    count_up-get_or n base i (omega (arith, length-count_up n base)),
  );
  distinct = λ i j p q e. omega (
    arith,
    e,
    length-count_up n base,
    count_up-get_or n base i (omega (arith, length-count_up n base)),
    count_up-get_or n base j (omega (arith, length-count_up n base)),
  );
}

init_loop-length :
    (left i state : ℕ) (nodes : List ℕ) (store : Store)
    → i + left ≤ length nodes
    → IsNodes nodes store
    → Gives (λ s. length s ≡ length store) (init_loop left i state nodes store)
unfolding init_loop
init_loop-length zero i state nodes store h good = gives store refl
init_loop-length (suc left) i state nodes store h good =
    let (node, at) = get_elem?-lt store (get_or nodes i 0) (good.inside i (omega arith)) in
    let same : (payload : ℕ)
        → length (set store (get_or nodes i 0) record { next = none; payload = payload })
          ≡ length store =
      λ payload. length-set store (get_or nodes i 0) record { next = none; payload = payload } in
    rw (entry-lt nodes i (omega arith), at)
      (Gives-weaken (λ s e. e ∙ same _)
        (init_loop-length left (i + 1) (splitmix64_state state) nodes _ (omega arith) record {
          inside = λ j p. omega (arith, good.inside j p, same (bit_xor (splitmix64_next state) i));
          distinct = good.distinct;
        }))

-- The payloads of different nodes of the store can be written, which moves none.
pub init_payloads-length :
    (nodes : List ℕ) (n seed : ℕ) (store : Store)
    → n ≤ length nodes
    → IsNodes nodes store
    → Gives (λ s. length s ≡ length store) (init_payloads nodes n seed store)
unfolding init_payloads
init_payloads-length nodes n seed store h good =
    init_loop-length n 0 _ nodes store (omega arith) good

-- Linked in their own order, fresh nodes are a chain.
pub link_sequential-fresh :
    (k base : ℕ) (store : Store)
    → base + suc k ≤ length store
    → (store' : Store) × (link_sequential (count_up (suc k) base) (suc k) store ≡ ok store')
      × Chain store' (some base) (count_up (suc k) base)
unfolding count_up
link_sequential-fresh k base store h =
    let (store', run, chain) =
      link_sequential-Chain base (count_up k (base + 1)) store
        (count_up-IsNodes (suc k) base store h) in
    (store', rw (length-count_up k (base + 1)) at run, chain)

-- Linked in a shuffled order, they are a chain too.
pub link_shuffled-fresh :
    (k base seed : ℕ) (store : Store)
    → base + suc k ≤ length store
    → (indices : List ℕ) × (shuffle_indices (suc k) seed ≡ ok indices)
      × (store' : Store) × (head : ℕ) × (order : List ℕ) × (link_shuffled
            (count_up (suc k) base)
            indices
            (suc k)
            store
          ≡ ok (store', head))
      × Chain store' (some head) order
      × (length order ≡ suc k)
link_shuffled-fresh k base seed store h =
    let nodes = count_up (suc k) base in
    let size : length nodes ≡ suc k = length-count_up (suc k) base in
    let (indices, drawn, is_order, store', head, run, chain) =
      link_shuffled-Chain nodes seed store (omega (arith, size))
        (count_up-IsNodes (suc k) base store h) in
    (
      indices,
      rw size at drawn,
      store',
      head,
      reordered nodes indices,
      rw size at run,
      chain,
      omega (arith, length-map indices (λ (j : ℕ). get_or nodes j 0), is_order.count, size),
    )
