-- ===== src/Queue/Rounds.antt =====
-- The scheduler in safe mode against a list of numbers and a table of values.
use linux.Base.{
  ℕ, suc, ◌+◌, ◌%◌, ◌<◌, ◌≡◌, ◌∙◌, refl, sym, ap, List, [], ◌∷◌, ◌++◌, none, true, false, ◌==◌,
  if◌then◌else◌, length, arith, ℕ_discrete, ltb, lt→ltb, length-append,
}
use mathlib.Core.Path.{subst}
use linux.Base.Word.{u64}
use linux.Base.Run.{ok, ◌>>=◌, Gives, gives, Gives-then, Gives-weaken}
use linux.Base.Memory.{count, one_if}
use linux.Queue.{
  Queue, Nodes, simulate_context_switch, switch_at, node_count, Event, tick, round, State,
  safe_step, safe_run,
}
use linux.Queue.Links.{at, NotIn}
use linux.Queue.Add.{IsQueue, list_add_front-Leaves, list_add_back-Leaves}
use linux.Queue.Remove.{NotIn-both, IsDistinct-middle, list_remove-Leaves}
use linux.Queue.Values.{
  flip, flip_all, IsFlipped, flip_value-IsFlipped, Dll-IsFlipped, touch_runqueue-IsFlipped,
}

-- The list without its first `i`.
abbrev pub without : ℕ → List ℕ → List ℕ
without i [] = []
without i (x ∷ xs) = if i == x then xs else x ∷ without i xs

-- `iter`, the order of the queue, and the value of each node.
abbrev pub Abstract : Type 0
Abstract = ℕ × List ℕ × (ℕ → ℕ)

-- A tick moves the first to the end and flips its value; a round moves its node to the front and flips
-- the others.
unfoldable pub abstract_step : Event → Abstract → Abstract
abstract_step tick (iter, [], f) = (iter, [], f)
abstract_step tick (iter, x ∷ xs, f) = (iter, xs ++ (x ∷ []), flip x f)
abstract_step round (iter, xs, f) =
    let rest = without (iter % node_count) xs in
    (u64 (iter + 1), iter % node_count ∷ rest, flip_all rest f)

unfoldable pub abstract_run : List Event → Abstract → Abstract
abstract_run [] a = a
abstract_run (event ∷ events) a = abstract_run events (abstract_step event a)

-- The order has each of the nodes once, the links follow it both ways, and the values are those of
-- the table.
pub record Refines (state : State) (a : Abstract) : Type 0 where
  pub iter_same : state.0 ≡ a.0
  pub queue : IsQueue state.1 state.2 a.1
  pub values : (x : ℕ) → (at state.2 x).value ≡ a.2 x
  pub size : length state.2 ≡ 32
  pub order_size : length a.1 ≡ 32
  pub once : (x : ℕ) → count x a.1 ≡ (if ltb x 32 then 1 else 0)

pub count-snoc : (xs : List ℕ) (y x : ℕ) → count x (xs ++ (y ∷ [])) ≡ one_if x y + count x xs
count-snoc [] y x = refl
count-snoc (z ∷ xs) y x = omega (arith, count-snoc xs y x)

-- Where an entry stands.
split :
    (i : ℕ) (xs : List ℕ)
    → 0 < count i xs
    → (l r : List ℕ) × (xs ≡ l ++ (i ∷ r))
      × (without i xs ≡ l ++ r)
      × ((x : ℕ) → count x xs ≡ one_if x i + count x (without i xs))
      × (length xs ≡ suc (length (without i xs)))
split i [] h = absurd (omega arith)
split i (x ∷ xs) h = elim (ℕ_discrete i x) [
  | yes e ↦
      let test : (i == x) ≡ true = ground (arith, e) in
      rw test ([], xs, ap (λ (y : ℕ). y ∷ xs) (sym e), refl, (λ y. ground (arith, e)), refl)
  | no ne ↦
      let test : (i == x) ≡ false = ground (arith, ne) in
      let (l, r, whole, rest, counts, size) = split i xs (ground (arith, ne)) in
      rw test (
        x ∷ l,
        r,
        ap (λ (ys : List ℕ). x ∷ ys) whole,
        ap (λ (ys : List ℕ). x ∷ ys) rest,
        (λ y. omega (arith, counts y)),
        ap suc size,
      )
]

Queue-IsFlipped :
    (list : Queue) (s s' : Nodes) (ys xs : List ℕ)
    → IsFlipped s ys s'
    → IsQueue list s xs
    → IsQueue list s' xs
Queue-IsFlipped list s s' ys xs w q = record {
  links = Dll-IsFlipped s s' ys none xs w q.links;
  distinct = q.distinct;
  head_first = q.head_first;
  tail_last = q.tail_last;
}

tick-Refines :
    (iter : ℕ) (list : Queue) (s : Nodes) (a : Abstract)
    → Refines (iter, list, s) a
    → Gives (λ t. Refines t (abstract_step tick a)) (safe_step tick (iter, list, s))
unfolding safe_step abstract_step simulate_context_switch switch_at
tick-Refines iter list s (iter', [], f) v = absurd (omega (arith, v.order_size))
tick-Refines iter list s (iter', x ∷ r, f) v =
    subst
      (λ h.
        Gives (λ t. Refines t (iter', r ++ (x ∷ []), flip x f))
          (switch_at h list s >>= λ (l, n). ok (iter, l, n)))
      (sym v.queue.head_first)
      (Gives-then {P = λ t. Refines (iter, t.0, t.1) (iter', r ++ (x ∷ []), flip x f)}
        (λ t w. gives _ w)
        (Gives-then
          (λ (list1, s1) removed.
            Gives-then
              (λ s2 flipped.
                Gives-weaken
                  (λ (list3, s3) added. record {
                    iter_same = v.iter_same;
                    queue = added.queue;
                    values = λ b.
                        added.values b ∙ flipped.flipped f (λ c. removed.values c ∙ v.values c) b;
                    size = added.size ∙ flipped.size ∙ removed.size ∙ v.size;
                    order_size = omega (arith, v.order_size, length-append r (x ∷ []));
                    once = λ b. count-snoc r x b ∙ v.once b;
                  })
                  (list_add_back-Leaves list1 s2 x r
                    (Queue-IsFlipped list1 s1 s2 (x ∷ []) r flipped removed.queue)
                    (omega (arith, v.queue.links.0, removed.size, flipped.size))
                    v.queue.distinct.0))
              (flip_value-IsFlipped s1 x (omega (arith, v.queue.links.0, removed.size))))
          (list_remove-Leaves list s [] x r v.queue)))

round-Refines :
    (iter : ℕ) (list : Queue) (s : Nodes) (a : Abstract)
    → Refines (iter, list, s) a
    → Gives (λ t. Refines t (abstract_step round a)) (safe_step round (iter, list, s))
unfolding safe_step abstract_step
round-Refines iter list s (iter', xs, f) v =
    let i = iter' % 32 in
    let below : i < 32 = omega arith in
    let test : ltb i 32 ≡ true = lt→ltb i 32 below in
    let once_i : count i xs ≡ 1 = rw test at (v.once i) in
    let (l, r, whole, rest, counts, size) = split i xs (omega (arith, once_i)) in
    let q = subst (λ ys. IsQueue list s ys) whole v.queue in
    let (apart, left, right) = IsDistinct-middle l i r q.distinct in
    let out = subst (λ ys. NotIn i ys) (sym rest) (NotIn-both i l r left right) in
    rw (v.iter_same) (
      Gives-then
        (λ (list1, s1) removed.
          let removed' = subst (λ ys. IsQueue list1 s1 ys) (sym rest) removed.queue in
          Gives-then
            (λ s2 flipped.
              Gives-then
                (λ (list3, s3) added. gives _ record {
                  iter_same = refl;
                  queue = added.queue;
                  values = λ b.
                      added.values b ∙ flipped.flipped f (λ c. removed.values c ∙ v.values c) b;
                  size = added.size ∙ flipped.size ∙ removed.size ∙ v.size;
                  order_size = sym size ∙ v.order_size;
                  once = λ b. sym (counts b) ∙ v.once b;
                })
                (list_add_front-Leaves list1 s2 i (without i xs)
                  (Queue-IsFlipped list1 s1 s2 (without i xs) (without i xs) flipped removed')
                  (omega (arith, below, v.size, removed.size, flipped.size)) out))
            (touch_runqueue-IsFlipped list1 s1 (without i xs) removed'
              (omega (arith, size, v.order_size, v.size, removed.size))))
        (list_remove-Leaves list s l i r q))

step-Refines :
    (event : Event) (state : State) (a : Abstract)
    → Refines state a
    → Gives (λ t. Refines t (abstract_step event a)) (safe_step event state)
step-Refines tick (iter, list, s) a v = tick-Refines iter list s a v
step-Refines round (iter, list, s) a v = round-Refines iter list s a v

pub safe_run-Refines :
    (events : List Event) (state : State) (a : Abstract)
    → Refines state a
    → Gives (λ t. Refines t (abstract_run events a)) (safe_run events state)
unfolding safe_run abstract_run
safe_run-Refines [] state a v = gives state v
safe_run-Refines (event ∷ events) state a v =
    Gives-then (λ t w. safe_run-Refines events t (abstract_step event a) w)
      (step-Refines event state a v)
