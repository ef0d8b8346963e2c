-- ===== src/Queue/Seed.antt =====
-- The seeded queue, and all that safe mode makes of it.
use linux.Base.{
  ℕ, zero, suc, ◌+◌, ◌≤◌, ◌<◌, ◌≡◌, ◌∙◌, refl, sym, ap, List, [], ◌∷◌, ◌++◌, none, true, false,
  if◌then◌else◌, length, arith, ltb, length-append, length-set, set, dec_lt,
}
use mathlib.Core.Path.{subst}
use linux.Base.Run.{◌>>=◌, Gives, gives, Gives-then, Gives-weaken}
use linux.Base.Arrays.{set_cell-lt}
use linux.Base.Memory.{count}
use linux.Queue.{ListNode, Queue, Nodes, list_init, seed_loop, runqueue_seed, Event, safe_run}
use linux.Queue.Links.{at, no_node, NotIn, Dll-set, at-set_ne, at-set_self}
use linux.Queue.Add.{NotIn-snoc, IsQueue, list_add_back-Leaves}
use linux.Queue.Rounds.{Abstract, abstract_run, Refines, safe_run-Refines, count-snoc}

-- The numbers below `n`.
abbrev pub numbers : ℕ → List ℕ
numbers zero = []
numbers (suc n) = numbers n ++ (n ∷ [])

length-numbers : (n : ℕ) → length (numbers n) ≡ n
length-numbers zero = refl
length-numbers (suc n) = omega (arith, length-append (numbers n) (n ∷ []), length-numbers n)

count-numbers : (n x : ℕ) → count x (numbers n) ≡ (if ltb x n then 1 else 0)
count-numbers zero x = ground arith
count-numbers (suc n) x = count-snoc (numbers n) n x ∙ ground (arith, count-numbers n x)

NotIn-numbers : (n a : ℕ) → n ≤ a → NotIn a (numbers n)
NotIn-numbers zero a h = tt
NotIn-numbers (suc n) a h =
    NotIn-snoc a n (numbers n) (NotIn-numbers n a (omega arith)) (λ e. omega (arith, e))

-- The queue of the first `i` nodes, whose values are their numbers.
record IsSeeded (i : ℕ) (list : Queue) (s : Nodes) : Type 0 where
  queue : IsQueue list s (numbers i)
  values : (a : ℕ) → a < i → (at s a).value ≡ a
  size : length s ≡ 32

seed_loop-IsSeeded :
    (left i : ℕ) (list : Queue) (s : Nodes)
    → i + left ≡ 32
    → IsSeeded i list s
    → Gives (λ (list', s'). IsSeeded 32 list' s') (seed_loop left i list s)
unfolding seed_loop
seed_loop-IsSeeded zero i list s e v =
    let all : i ≡ 32 = omega arith in gives _ (subst (λ k. IsSeeded k list s) all v)
seed_loop-IsSeeded (suc left) i list s e v =
    let n : ListNode = record { prev = none; next = none; value = i } in
    let inside : i < length s = omega (arith, v.size) in
    let one_more : i + 1 ≡ suc i = omega arith in
    rw (set_cell-lt s i n inside, one_more)
      (Gives-then
        (λ (list1, s2) added. seed_loop-IsSeeded left (suc i) list1 s2 (omega arith) record {
          queue = added.queue;
          values = λ a h. added.values a ∙ elim (dec_lt a i) [
            | yes lt ↦
                ap (λ (m : ListNode). m.value) (at-set_ne s i a n inside (λ e. omega (arith, e)))
                ∙ v.values a lt
            | no ge ↦
                let same : i ≡ a = omega (arith, ge) in
                ap (λ (c : ℕ). (at (set s i n) c).value) (sym same)
                ∙ ap (λ (m : ListNode). m.value) (at-set_self s i n inside)
                ∙ same
          ];
          size = added.size ∙ length-set s i n ∙ v.size;
        })
        (list_add_back-Leaves list (set s i n) i (numbers i)
          record {
            links =
                Dll-set s i n none (numbers i) inside (NotIn-numbers i i (omega arith))
                  v.queue.links;
            distinct = v.queue.distinct;
            head_first = v.queue.head_first;
            tail_last = v.queue.tail_last;
          }
          (omega (arith, inside, length-set s i n)) (NotIn-numbers i i (omega arith))))

-- The values at the start; there is no node from 32 on.
abbrev pub first_values : ℕ → ℕ
first_values a = if ltb a 32 then a else 0

at-out : (s : Nodes) (a : ℕ) → length s ≤ a → at s a ≡ no_node
at-out [] a h = refl
at-out (n ∷ s) zero h = absurd (omega arith)
at-out (n ∷ s) (suc a) h = at-out s a (omega arith)

abbrev pub at_start : Abstract
at_start = (0, numbers 32, first_values)

runqueue_seed-Refines :
    (s : Nodes)
    → length s ≡ 32
    → Gives (λ (list, s'). Refines (0, list, s') at_start) (runqueue_seed s)
unfolding runqueue_seed list_init
runqueue_seed-Refines s size =
    Gives-weaken
      (λ (list, s') v. record {
        iter_same = refl;
        queue = v.queue;
        values = λ a. elim (dec_lt a 32) [
          | yes lt ↦ let test : ltb a 32 ≡ true = ground arith in rw test (v.values a lt)
          | no ge ↦
              let test : ltb a 32 ≡ false = ground arith in
              rw test (ap (λ (m : ListNode). m.value) (at-out s' a (omega (arith, v.size, ge))))
        ];
        size = v.size;
        order_size = length-numbers 32;
        once = count-numbers 32;
      })
      (seed_loop-IsSeeded 32 0 list_init s (omega arith) record {
        queue = record { links = tt; distinct = tt; head_first = refl; tail_last = refl };
        values = λ a h. absurd (omega arith);
        size = size;
      })

-- From the seeded queue, and whichever ticks and rounds follow in safe mode: every step reads and
-- writes only nodes of the array and ends, and what it leaves refines the abstract queue. So the
-- links always hold each of the 32 nodes once, in the abstract order, and the values are those of the
-- abstract table.
pub seeded_run-Refines :
    (events : List Event) (s : Nodes)
    → length s ≡ 32
    → Gives
        (λ t. Refines t (abstract_run events at_start))
        (runqueue_seed s >>= λ (list, s'). safe_run events (0, list, s'))
seeded_run-Refines events s size =
    Gives-then (λ (list, s') v. safe_run-Refines events (0, list, s') at_start v)
      (runqueue_seed-Refines s size)
