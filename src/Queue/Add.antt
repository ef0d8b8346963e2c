-- ===== src/Queue/Add.antt =====
-- Adding a node at either end.
use linux.Base.{
  ℕ, ◌<◌, ◌≡◌, ◌≢◌, ◌∙◌, refl, sym, ap, List, [], ◌∷◌, ◌++◌, Option, none, some, set, length,
  length-set, arith, ℕ_discrete,
}
use mathlib.Core.Path.{subst}
use linux.Base.Run.{Gives, gives, Gives-then}
use linux.Queue.{ListNode, Queue, Nodes, set_prev, set_next, list_add_front, list_add_back}
use linux.Queue.Links.{
  at, NotIn, IsDistinct, first, last, Dll, at-set_ne, at-set_self, set_prev-lt, set_next-lt,
}

-- `s'` is `s` but for the links of `a`, which are `p` and `q`.
pub record IsWritten (s : Nodes) (a : ℕ) (p q : Option ℕ) (s' : Nodes) : Type 0 where
  pub size : length s' ≡ length s
  pub prev_there : (at s' a).prev ≡ p
  pub next_there : (at s' a).next ≡ q
  pub elsewhere : (b : ℕ) → a ≢ b → at s' b ≡ at s b
  pub values : (b : ℕ) → (at s' b).value ≡ (at s b).value

set-IsWritten :
    (s : Nodes) (a : ℕ) (n : ListNode)
    → a < length s
    → n.value ≡ (at s a).value
    → IsWritten s a n.prev n.next (set s a n)
set-IsWritten s a n h v = record {
  size = length-set s a n;
  prev_there = ap (λ (m : ListNode). m.prev) (at-set_self s a n h);
  next_there = ap (λ (m : ListNode). m.next) (at-set_self s a n h);
  elsewhere = λ b ne. at-set_ne s a b n h ne;
  values = λ b. elim (ℕ_discrete a b) [
    | yes e ↦
        ap (λ (c : ℕ). (at (set s a n) c).value) (sym e)
        ∙ ap (λ (m : ListNode). m.value) (at-set_self s a n h)
        ∙ v
        ∙ ap (λ (c : ℕ). (at s c).value) e
    | no ne ↦ ap (λ (m : ListNode). m.value) (at-set_ne s a b n h ne)
  ];
}

pub set_prev-IsWritten :
    (s : Nodes) (a : ℕ) (p : Option ℕ)
    → a < length s
    → Gives (IsWritten s a p (at s a).next) (set_prev s a p)
set_prev-IsWritten s a p h = rw (set_prev-lt s a p h) (gives _ (set-IsWritten s a _ h refl))

pub set_next-IsWritten :
    (s : Nodes) (a : ℕ) (q : Option ℕ)
    → a < length s
    → Gives (IsWritten s a (at s a).prev q) (set_next s a q)
set_next-IsWritten s a q h = rw (set_next-lt s a q h) (gives _ (set-IsWritten s a _ h refl))

-- Two writes to one node.
pub IsWritten-twice :
    {s s1 s2 : Nodes} {a : ℕ} {p q p' q' : Option ℕ}
    → IsWritten s a p q s1
    → IsWritten s1 a p' q' s2
    → IsWritten s a p' q' s2
IsWritten-twice w v = record {
  size = v.size ∙ w.size;
  prev_there = v.prev_there;
  next_there = v.next_there;
  elsewhere = λ b ne. v.elsewhere b ne ∙ w.elsewhere b ne;
  values = λ b. v.values b ∙ w.values b;
}

IsWritten-next :
    {s s' : Nodes} {a : ℕ} {p q q' : Option ℕ}
    → IsWritten s a p q s'
    → q ≡ q'
    → IsWritten s a p q' s'
IsWritten-next {s = s} {s' = s'} {a = a} {p = p} w e = subst (λ q. IsWritten s a p q s') e w

pub Dll-IsWritten :
    {s s' : Nodes} {a : ℕ} {p q : Option ℕ} (r : Option ℕ) (xs : List ℕ)
    → IsWritten s a p q s'
    → NotIn a xs
    → Dll s r xs
    → Dll s' r xs
Dll-IsWritten r [] w out d = d
Dll-IsWritten r (x ∷ xs) w (ne, out) (inside, before, after, rest) = (
  omega (arith, w.size),
  ap (λ (m : ListNode). m.prev) (w.elsewhere x ne) ∙ before,
  ap (λ (m : ListNode). m.next) (w.elsewhere x ne) ∙ after,
  Dll-IsWritten (some x) xs w out rest,
)

-- The list is the queue of `xs`, from its head to its tail.
pub record IsQueue (list : Queue) (s : Nodes) (xs : List ℕ) : Type 0 where
  pub links : Dll s none xs
  pub distinct : IsDistinct xs
  pub head_first : list.head ≡ first xs
  pub tail_last : list.tail ≡ last none xs

-- What an operation leaves: the queue of `xs`, and the values of all nodes.
pub record Leaves (s : Nodes) (xs : List ℕ) (r : Queue × Nodes) : Type 0 where
  pub queue : IsQueue r.0 r.1 xs
  pub size : length r.1 ≡ length s
  pub values : (a : ℕ) → (at r.1 a).value ≡ (at s a).value

pub list_add_front-Leaves :
    (list : Queue) (s : Nodes) (x : ℕ) (xs : List ℕ)
    → IsQueue list s xs
    → x < length s
    → NotIn x xs
    → Gives (Leaves s (x ∷ xs)) (list_add_front list x s)
unfolding list_add_front
list_add_front-Leaves list s x [] q h out = rw (q.head_first) (
    Gives-then
      (λ s1 w1.
        Gives-then
          (λ s2 w2.
            let w = IsWritten-twice w1 w2 in
            gives _ record {
              queue = record {
                links = (omega (arith, w.size), w.prev_there ∙ w1.prev_there, w.next_there, tt);
                distinct = (tt, tt);
                head_first = refl;
                tail_last = refl;
              };
              size = w.size;
              values = w.values;
            })
          (set_next-IsWritten s1 x none (omega (arith, w1.size))))
      (set_prev-IsWritten s x none h))
list_add_front-Leaves list s x (y ∷ ys) q h out =
    let (inside, before, after, rest) = q.links in
    let (fresh, apart) = q.distinct in
    rw (q.head_first) (
      Gives-then
        (λ s1 w1.
          Gives-then
            (λ s2 w2.
              let w = IsWritten-twice w1 w2 in
              Gives-then
                (λ s3 w3. gives _ record {
                  queue = record {
                    links = (
                      omega (arith, w.size, w3.size),
                      ap (λ (m : ListNode). m.prev) (w3.elsewhere x (λ e. out.0 (sym e)))
                          ∙ w.prev_there
                          ∙ w1.prev_there,
                      ap (λ (m : ListNode). m.next) (w3.elsewhere x (λ e. out.0 (sym e)))
                          ∙ w.next_there,
                      (
                        omega (arith, w.size, w3.size, inside),
                        w3.prev_there,
                        w3.next_there ∙ ap (λ (m : ListNode). m.next) (w.elsewhere y out.0) ∙ after,
                        Dll-IsWritten (some y) ys w3 fresh (Dll-IsWritten (some y) ys w out.1 rest),
                      ),
                    );
                    distinct = (out, q.distinct);
                    head_first = refl;
                    tail_last = q.tail_last;
                  };
                  size = w3.size ∙ w.size;
                  values = λ b. w3.values b ∙ w.values b;
                })
                (set_prev-IsWritten s2 y (some x) (omega (arith, w.size, inside))))
            (set_next-IsWritten s1 x (some y) (omega (arith, w1.size))))
        (set_prev-IsWritten s x none h))

-- The last of one or more nodes.
abbrev pub last_of : ℕ → List ℕ → ℕ
last_of y [] = y
last_of y (z ∷ zs) = last_of z zs

pub last-last_of : (p : Option ℕ) (y : ℕ) (ys : List ℕ) → last p (y ∷ ys) ≡ some (last_of y ys)
last-last_of p y [] = refl
last-last_of p y (z ∷ zs) = last-last_of (some y) z zs

pub NotIn-last_of : (x y : ℕ) (ys : List ℕ) → NotIn x (y ∷ ys) → x ≢ last_of y ys
NotIn-last_of x y [] out = out.0
NotIn-last_of x y (z ∷ zs) out = NotIn-last_of x z zs out.1

pub last_of-lt :
    (s : Nodes) (p : Option ℕ) (y : ℕ) (ys : List ℕ) → Dll s p (y ∷ ys) → last_of y ys < length s
last_of-lt s p y [] d = d.0
last_of-lt s p y (z ∷ zs) d = last_of-lt s (some y) z zs d.3

-- The nodes with `x` after the last of them.
snoc-Dll :
    {s s' s'' : Nodes} {p r : Option ℕ} (x y : ℕ) (ys : List ℕ)
    → IsWritten s x (some (last_of y ys)) none s'
    → IsWritten s' (last_of y ys) r (some x) s''
    → r ≡ (at s' (last_of y ys)).prev
    → x < length s
    → NotIn x (y ∷ ys)
    → IsDistinct (y ∷ ys)
    → Dll s p (y ∷ ys)
    → Dll s'' p (y ∷ (ys ++ (x ∷ [])))
snoc-Dll x y [] w w' e h out apart (inside, before, after, rest) = (
  omega (arith, inside, w.size, w'.size),
  w'.prev_there ∙ e ∙ ap (λ (m : ListNode). m.prev) (w.elsewhere y out.0) ∙ before,
  w'.next_there,
  (
    omega (arith, h, w.size, w'.size),
    ap (λ (m : ListNode). m.prev) (w'.elsewhere x (λ e. out.0 (sym e))) ∙ w.prev_there,
    ap (λ (m : ListNode). m.next) (w'.elsewhere x (λ e. out.0 (sym e))) ∙ w.next_there,
    tt,
  ),
)
snoc-Dll x y (z ∷ zs) w w' e h out apart (inside, before, after, rest) =
    let same = w'.elsewhere y (λ e. NotIn-last_of y z zs apart.0 (sym e)) ∙ w.elsewhere y out.0 in
    (
      omega (arith, inside, w.size, w'.size),
      ap (λ (m : ListNode). m.prev) same ∙ before,
      ap (λ (m : ListNode). m.next) same ∙ after,
      snoc-Dll x z zs w w' e h out.1 apart.1 rest,
    )

pub NotIn-snoc : (y x : ℕ) (ys : List ℕ) → NotIn y ys → y ≢ x → NotIn y (ys ++ (x ∷ []))
NotIn-snoc y x [] out ne = (ne, tt)
NotIn-snoc y x (z ∷ zs) out ne = (out.0, NotIn-snoc y x zs out.1 ne)

IsDistinct-snoc : (x : ℕ) (xs : List ℕ) → NotIn x xs → IsDistinct xs → IsDistinct (xs ++ (x ∷ []))
IsDistinct-snoc x [] out apart = (tt, tt)
IsDistinct-snoc x (y ∷ ys) out apart =
    (NotIn-snoc y x ys apart.0 (λ e. out.0 (sym e)), IsDistinct-snoc x ys out.1 apart.1)

last-snoc : (p : Option ℕ) (xs : List ℕ) (x : ℕ) → last p (xs ++ (x ∷ [])) ≡ some x
last-snoc p [] x = refl
last-snoc p (y ∷ ys) x = last-snoc (some y) ys x

pub list_add_back-Leaves :
    (list : Queue) (s : Nodes) (x : ℕ) (xs : List ℕ)
    → IsQueue list s xs
    → x < length s
    → NotIn x xs
    → Gives (Leaves s (xs ++ (x ∷ []))) (list_add_back list x s)
unfolding list_add_back
list_add_back-Leaves list s x [] q h out = rw (q.tail_last) (
    Gives-then
      (λ s1 w1.
        Gives-then
          (λ s2 w2.
            let w = IsWritten-twice w1 w2 in
            gives _ record {
              queue = record {
                links = (omega (arith, w.size), w.prev_there, w.next_there ∙ w1.next_there, tt);
                distinct = (tt, tt);
                head_first = refl;
                tail_last = refl;
              };
              size = w.size;
              values = w.values;
            })
          (set_prev-IsWritten s1 x none (omega (arith, w1.size))))
      (set_next-IsWritten s x none h))
list_add_back-Leaves list s x (y ∷ ys) q h out =
    let tail : list.tail ≡ some (last_of y ys) = q.tail_last ∙ last-last_of none y ys in
    rw tail (
      Gives-then
        (λ s1 w1.
          Gives-then
            (λ s2 w2.
              let w = IsWritten-next (IsWritten-twice w1 w2) w1.next_there in
              Gives-then
                (λ s3 w3. gives _ record {
                  queue = record {
                    links = snoc-Dll x y ys w w3 refl h out q.distinct q.links;
                    distinct = IsDistinct-snoc x (y ∷ ys) out q.distinct;
                    head_first = q.head_first;
                    tail_last = sym (last-snoc none (y ∷ ys) x);
                  };
                  size = w3.size ∙ w.size;
                  values = λ b. w3.values b ∙ w.values b;
                })
                (set_next-IsWritten s2 (last_of y ys) (some x)
                  (omega (arith, w.size, last_of-lt s none y ys q.links))))
            (set_prev-IsWritten s1 x (some (last_of y ys)) (omega (arith, w1.size))))
        (set_next-IsWritten s x none h))
