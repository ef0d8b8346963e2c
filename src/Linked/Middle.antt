-- ===== src/Linked/Middle.antt =====
-- On a chain of nodes both searches find the same node.
use linux.Base.{
  ℕ, zero, suc, ◌+◌, ◌/◌, ◌%◌, ◌^◌, ◌≤◌, ◌<◌, ◌≡◌, ap, ◌∙◌, List, [], ◌∷◌, Option, none, some,
  get_elem?, length, arith,
}
use linux.Base.Run.{ok}
use linux.Linked.{
  Node, Store, fast_slow_loop, middle_fast_slow, count_loop, advance_loop, middle_two_pass,
}

-- From `p` on, the `next` pointers lead through the nodes at `addresses`, in order, to NULL.
unfoldable pub Chain : Store → Option ℕ → List ℕ → Type 0
Chain store p [] = p ≡ none
Chain store p (a ∷ addresses) =
    (p ≡ some a) × (n : Node) × (get_elem? store a ≡ some n) × Chain store n.next addresses

module _ (store : Store) where
  Chain-head : (p : Option ℕ) (xs : List ℕ) → Chain store p xs → p ≡ get_elem? xs 0
  unfolding Chain
  Chain-head p [] c = c
  Chain-head p (a ∷ xs) c = c.0

  fast_slow_loop_lem :
      (fuel : ℕ) (slow fast : Option ℕ) (ss fs : List ℕ)
      → Chain store slow ss
      → Chain store fast fs
      → length fs ≤ length ss
      → length fs / 2 < fuel
      → fast_slow_loop store fuel slow fast ≡ ok (get_elem? ss (length fs / 2))
  unfolding fast_slow_loop Chain
  fast_slow_loop_lem zero slow fast ss fs c d h k = absurd (omega arith)
  fast_slow_loop_lem (suc fuel) slow fast ss [] c d h k = rw d (ap ok (Chain-head slow ss c))
  fast_slow_loop_lem (suc fuel) slow fast ss (f ∷ []) c (e, n, at, d) h k =
      rw (e, at, d) (ap ok (Chain-head slow ss c))
  fast_slow_loop_lem (suc fuel) slow fast [] (f ∷ g ∷ fs) c d h k = absurd (omega arith)
  fast_slow_loop_lem (suc fuel) slow fast (s ∷ ss) (f ∷ g ∷ fs) (e0, v, at0, c)
        (e, n, at, (e', m, at', d)) h k =
      rw (e, at, e', e0, at0, at')
        (fast_slow_loop_lem fuel v.next m.next ss fs c d (omega arith) (omega arith)
          ∙ ap (λ (t : ℕ). ok (get_elem? (s ∷ ss) t)) halved)
    where
      halved : suc (length fs / 2) ≡ suc (suc (length fs)) / 2
      halved = omega arith

  count_loop_lem :
      (fuel : ℕ) (cursor : Option ℕ) (xs : List ℕ) (count : ℕ)
      → Chain store cursor xs
      → length xs < fuel
      → count + length xs < 2 ^ 64
      → count_loop store fuel cursor count ≡ ok (count + length xs)
  unfolding count_loop Chain
  count_loop_lem zero cursor xs count c h k = absurd (omega arith)
  count_loop_lem (suc fuel) cursor [] count c h k = rw c (ap ok (omega arith))
  count_loop_lem (suc fuel) cursor (a ∷ xs) count (e, n, at, c) h k =
      rw (e, at, no_wrap)
        (count_loop_lem fuel n.next xs (count + 1) c (omega arith) (omega arith)
          ∙ ap ok (omega arith))
    where
      no_wrap : (count + 1) % 2 ^ 64 ≡ count + 1
      no_wrap = omega arith

  advance_loop_lem :
      (left : ℕ) (p : Option ℕ) (xs : List ℕ)
      → Chain store p xs
      → left ≤ length xs
      → advance_loop store left p ≡ ok (get_elem? xs left)
  unfolding advance_loop Chain
  advance_loop_lem zero p xs c h = ap ok (Chain-head p xs c)
  advance_loop_lem (suc left) p [] c h = absurd (omega arith)
  advance_loop_lem (suc left) p (a ∷ xs) (e, n, at, c) h =
      rw (e, at) (advance_loop_lem left n.next xs c (omega arith))

-- On a chain of fewer than 2^64 nodes, with more fuel than nodes, both searches return the node at
-- half of the length, rounded down (NULL for the empty chain), and dereference no NULL or wild
-- pointer on the way.
pub middle_fast_slow-middle_two_pass :
    (store : Store) (fuel : ℕ) (head : Option ℕ) (xs : List ℕ)
    → Chain store head xs
    → length xs < fuel
    → length xs < 2 ^ 64
    → (middle_fast_slow store fuel head ≡ ok (get_elem? xs (length xs / 2)))
      × (middle_two_pass store fuel head ≡ ok (get_elem? xs (length xs / 2)))
unfolding middle_fast_slow middle_two_pass
middle_fast_slow-middle_two_pass store fuel head xs c h k = (
  fast_slow_loop_lem store fuel head head xs xs c c (omega arith) (omega arith),
  rw (count_loop_lem store fuel head xs 0 c h (omega arith), from_zero)
      (advance_loop_lem store (length xs / 2) head xs c (omega arith)),
)
  where
    from_zero : 0 + length xs ≡ length xs
    from_zero = omega arith
