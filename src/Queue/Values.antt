-- ===== src/Queue/Values.antt =====
-- What the queue does as a list of node numbers and a table of values, and that flipping values does
-- that.
use linux.Base.{
  ℕ, zero, suc, ◌+◌, ◌≤◌, ◌<◌, ◌≡◌, ◌∙◌, refl, sym, ap, List, [], ◌∷◌, Option, none, some, true,
  false, ◌==◌, if◌then◌else◌, length, arith, ℕ_discrete, bit_xor, set, length-set,
}
use linux.Base.Run.{Gives, gives, Gives-then, Gives-weaken}
use linux.Base.Arrays.{cell-lt, set_cell-lt}
use linux.Queue.{ListNode, Queue, Nodes, flip_value, touch_loop, touch_runqueue}
use linux.Queue.Links.{
  All, at, no_node, first, Dll, SameLinks, Dll-SameLinks, at-set_ne, at-set_self,
}
use linux.Queue.Add.{IsQueue}

-- The table with the value of `x` flipped.
abbrev pub flip : ℕ → (ℕ → ℕ) → ℕ → ℕ
flip x f a = if x == a then bit_xor (f a) 1 else f a

abbrev pub flip_all : List ℕ → (ℕ → ℕ) → ℕ → ℕ
flip_all [] f = f
flip_all (x ∷ xs) f = flip_all xs (flip x f)

-- The queue of `xs`, with the values of the table.
pub record Represents (xs : List ℕ) (f : ℕ → ℕ) (list : Queue) (s : Nodes) : Type 0 where
  pub queue : IsQueue list s xs
  pub values : (a : ℕ) → (at s a).value ≡ f a

-- After a write of values only.
pub record IsFlipped (s : Nodes) (xs : List ℕ) (s' : Nodes) : Type 0 where
  pub size : length s' ≡ length s
  pub links : (a : ℕ) → SameLinks s s' a
  pub flipped :
      (f : ℕ → ℕ) → ((a : ℕ) → (at s a).value ≡ f a) → (a : ℕ) → (at s' a).value ≡ flip_all xs f a

pub flip_value-IsFlipped :
    (s : Nodes) (x : ℕ) → x < length s → Gives (IsFlipped s (x ∷ [])) (flip_value s x)
unfolding flip_value
flip_value-IsFlipped s x h =
    let n : ListNode = record (at s x) { value = bit_xor (at s x).value 1 } in
    rw (cell-lt s x no_node h, set_cell-lt s x n h)
      (gives _ record {
        size = length-set s x n;
        links = λ a. elim (ℕ_discrete x a) [
          | yes e ↦
              let self = at-set_self s x n h in
              record {
                same_prev =
                    ap (λ (c : ℕ). (at (set s x n) c).prev) (sym e)
                    ∙ ap (λ (m : ListNode). m.prev) self
                    ∙ ap (λ (c : ℕ). (at s c).prev) e;
                same_next =
                    ap (λ (c : ℕ). (at (set s x n) c).next) (sym e)
                    ∙ ap (λ (m : ListNode). m.next) self
                    ∙ ap (λ (c : ℕ). (at s c).next) e;
              }
          | no ne ↦
              let other = at-set_ne s x a n h ne in
              record {
                same_prev = ap (λ (m : ListNode). m.prev) other;
                same_next = ap (λ (m : ListNode). m.next) other;
              }
        ];
        flipped = λ f v a. elim (ℕ_discrete x a) [
          | yes e ↦
              let test : (x == a) ≡ true = ground (arith, e) in
              rw test (
                ap (λ (c : ℕ). (at (set s x n) c).value) (sym e)
                ∙ ap (λ (m : ListNode). m.value) (at-set_self s x n h)
                ∙ ap (λ (c : ℕ). bit_xor c 1) (v x)
                ∙ ap (λ (c : ℕ). bit_xor (f c) 1) e)
          | no ne ↦
              let test : (x == a) ≡ false = ground (arith, ne) in
              rw test (ap (λ (m : ListNode). m.value) (at-set_ne s x a n h ne) ∙ v a)
        ];
      })

every : {P : ℕ → Type 0} (xs : List ℕ) → ((a : ℕ) → P a) → All P xs
every [] h = tt
every (x ∷ xs) h = (h x, every xs h)

pub Dll-IsFlipped :
    (s s' : Nodes) (ys : List ℕ) (p : Option ℕ) (xs : List ℕ)
    → IsFlipped s ys s'
    → Dll s p xs
    → Dll s' p xs
Dll-IsFlipped s s' ys p xs w d = Dll-SameLinks s s' p xs w.size (every xs w.links) d

touch_loop-IsFlipped :
    (fuel : ℕ) (s : Nodes) (p : Option ℕ) (xs : List ℕ)
    → length xs < fuel
    → Dll s p xs
    → Gives (IsFlipped s xs) (touch_loop fuel (first xs) s)
unfolding touch_loop
touch_loop-IsFlipped zero s p xs h d = absurd (omega arith)
touch_loop-IsFlipped (suc fuel) s p [] h d = gives s record {
  size = refl;
  links = λ a. record { same_prev = refl; same_next = refl };
  flipped = λ f v a. v a;
}
touch_loop-IsFlipped (suc fuel) s p (x ∷ xs) h (inside, before, after, rest) =
    Gives-then
      (λ s1 w.
        let next : (at s1 x).next ≡ first xs = (w.links x).same_next ∙ after in
        let here : x < length s1 = omega (arith, inside, w.size) in
        rw (cell-lt s1 x no_node here, next)
          (Gives-weaken
            (λ s2 v. record {
              size = v.size ∙ w.size;
              links = λ a. record {
                same_prev = (v.links a).same_prev ∙ (w.links a).same_prev;
                same_next = (v.links a).same_next ∙ (w.links a).same_next;
              };
              flipped = λ f g a. v.flipped (flip x f) (w.flipped f g) a;
            })
            (touch_loop-IsFlipped fuel s1 (some x) xs (omega arith)
              (Dll-IsFlipped s s1 (x ∷ []) (some x) xs w rest))))
      (flip_value-IsFlipped s x inside)

-- No more distinct nodes than the array has.
pub touch_runqueue-IsFlipped :
    (list : Queue) (s : Nodes) (xs : List ℕ)
    → IsQueue list s xs
    → length xs ≤ length s
    → Gives (IsFlipped s xs) (touch_runqueue list s)
unfolding touch_runqueue
touch_runqueue-IsFlipped list s xs q h =
    rw (q.head_first) (touch_loop-IsFlipped (length s + 1) s none xs (omega arith) q.links)
