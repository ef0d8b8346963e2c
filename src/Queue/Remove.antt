-- ===== src/Queue/Remove.antt =====
-- Removing a node from anywhere.
use mathlib.Core.Path.{subst}
use linux.Base.{
  ℕ, ◌<◌, ◌≡◌, ◌∙◌, refl, sym, ap, List, [], ◌∷◌, ◌++◌, Option, none, some, length, arith,
}
use linux.Base.Run.{Gives, gives, Gives-then}
use linux.Base.Arrays.{cell-lt}
use linux.Queue.{ListNode, Queue, Nodes, unlink_next, unlink_prev, list_remove}
use linux.Queue.Links.{All, at, no_node, NotIn, IsDistinct, first, last, Dll}
use linux.Queue.Add.{
  IsWritten, IsWritten-twice, set_prev-IsWritten, set_next-IsWritten, Dll-IsWritten, IsQueue,
  Leaves, last_of, last-last_of, NotIn-last_of,
}

-- The links of a node in the middle.
Dll-middle :
    (s : Nodes) (p : Option ℕ) (l : List ℕ) (x : ℕ) (r : List ℕ)
    → Dll s p (l ++ (x ∷ r))
    → (x < length s) × ((at s x).prev ≡ last p l) × ((at s x).next ≡ first r)
Dll-middle s p [] x r d = (d.0, d.1, d.2)
Dll-middle s p (y ∷ l) x r d = Dll-middle s (some y) l x r d.3

NotIn-append : (a : ℕ) (l r : List ℕ) → NotIn a (l ++ r) → NotIn a l × NotIn a r
NotIn-append a [] r out = (tt, out)
NotIn-append a (y ∷ l) r (ne, out) =
    let (left, right) = NotIn-append a l r out in ((ne, left), right)

pub NotIn-both : (a : ℕ) (l r : List ℕ) → NotIn a l → NotIn a r → NotIn a (l ++ r)
NotIn-both a [] r out out' = out'
NotIn-both a (y ∷ l) r (ne, out) out' = (ne, NotIn-both a l r out out')

-- A node that is left out of a list of distinct ones.
pub IsDistinct-middle :
    (l : List ℕ) (x : ℕ) (r : List ℕ)
    → IsDistinct (l ++ (x ∷ r))
    → IsDistinct (l ++ r) × NotIn x l × NotIn x r
IsDistinct-middle [] x r (out, apart) = (apart, tt, out)
IsDistinct-middle (y ∷ l) x r (out, apart) =
    let (rest, left, right) = IsDistinct-middle l x r apart in
    let (outl, outr) = NotIn-append y l (x ∷ r) out in
    ((NotIn-both y l r outl outr.1, rest), ((λ e. outr.0 (sym e)), left), right)

last-append :
    (p : Option ℕ) (l : List ℕ) (z : ℕ) (zs : List ℕ) → last p (l ++ (z ∷ zs)) ≡ last (some z) zs
last-append p [] z zs = refl
last-append p (y ∷ l) z zs = last-append (some y) l z zs

last-nil : (p : Option ℕ) (l : List ℕ) → last p (l ++ []) ≡ last p l
last-nil p [] = refl
last-nil p (y ∷ l) = last-nil (some y) l

-- The last of `l` points to `q` instead; without one, nothing changes.
abbrev Before : Nodes → Option ℕ → List ℕ → Nodes → Type 0
Before s q [] s' = s' ≡ s
Before s q (y ∷ ys) s' = IsWritten s (last_of y ys) (at s (last_of y ys)).prev q s'

-- The first of `r` points back to `q` instead.
abbrev After : Nodes → Option ℕ → List ℕ → Nodes → Type 0
After s q [] s' = s' ≡ s
After s q (z ∷ zs) s' = IsWritten s z q (at s z).next s'

-- What a write to another node leaves of `b`.
record Keeps (s s' : Nodes) (P : ℕ → Type 0) : Type 0 where
  size : length s' ≡ length s
  kept : (b : ℕ) → P b → at s' b ≡ at s b
  values : (b : ℕ) → (at s' b).value ≡ (at s b).value

Before-Keeps :
    (s : Nodes) (q : Option ℕ) (l : List ℕ) (s' : Nodes)
    → Before s q l s'
    → Keeps s s' (λ b. NotIn b l)
Before-Keeps s q [] s' e = record {
  size = ap length e;
  kept = λ b out. ap (λ (t : Nodes). at t b) e;
  values = λ b. ap (λ (t : Nodes). (at t b).value) e;
}
Before-Keeps s q (y ∷ ys) s' w = record {
  size = w.size;
  kept = λ b out. w.elsewhere b (λ e. NotIn-last_of b y ys out (sym e));
  values = w.values;
}

After-Keeps :
    (s : Nodes) (q : Option ℕ) (r : List ℕ) (s' : Nodes)
    → After s q r s'
    → Keeps s s' (λ b. NotIn b r)
After-Keeps s q [] s' e = record {
  size = ap length e;
  kept = λ b out. ap (λ (t : Nodes). at t b) e;
  values = λ b. ap (λ (t : Nodes). (at t b).value) e;
}
After-Keeps s q (z ∷ zs) s' w = record {
  size = w.size;
  kept = λ b out. w.elsewhere b (λ e. out.0 (sym e));
  values = w.values;
}

-- The rest of the list with the node before it pointed to.
After-Dll :
    (s s' : Nodes) (q : Option ℕ) (x : ℕ) (r : List ℕ)
    → After s q r s'
    → IsDistinct r
    → Dll s (some x) r
    → Dll s' q r
After-Dll s s' q x [] w apart d = tt
After-Dll s s' q x (z ∷ zs) w (out, apart) (inside, before, after, rest) = (
  omega (arith, inside, w.size),
  w.prev_there,
  w.next_there ∙ after,
  Dll-IsWritten (some z) zs w out rest,
)

unlink-Dll :
    (s s1 s2 : Nodes) (p : Option ℕ) (y : ℕ) (ys : List ℕ) (x : ℕ) (r : List ℕ)
    → Before s (first r) (y ∷ ys) s1
    → After s1 (some (last_of y ys)) r s2
    → IsDistinct (y ∷ (ys ++ (x ∷ r)))
    → Dll s p (y ∷ (ys ++ (x ∷ r)))
    → Dll s2 p (y ∷ (ys ++ r))
unlink-Dll s s1 s2 p y [] x r w v (out, (out', apart)) (inside, before, after, (_, _, _, rest)) =
    let k = After-Keeps s1 (some y) r s2 v in
    (
      omega (arith, inside, w.size, k.size),
      ap (λ (m : ListNode). m.prev) (k.kept y out.1) ∙ w.prev_there ∙ before,
      ap (λ (m : ListNode). m.next) (k.kept y out.1) ∙ w.next_there,
      After-Dll s1 s2 (some y) x r v apart (Dll-IsWritten (some x) r w out.1 rest),
    )
unlink-Dll s s1 s2 p y (z ∷ zs) x r w v (out, apart) (inside, before, after, rest) =
    let k = After-Keeps s1 (some (last_of z zs)) r s2 v in
    let (left, right) = NotIn-append y (z ∷ zs) (x ∷ r) out in
    let same = k.kept y right.1 ∙ w.elsewhere y (λ e. NotIn-last_of y z zs left (sym e)) in
    (
      omega (arith, inside, w.size, k.size),
      ap (λ (m : ListNode). m.prev) same ∙ before,
      ap (λ (m : ListNode). m.next) same ∙ after,
      unlink-Dll s s1 s2 (some y) z zs x r w v apart rest,
    )

whole-Dll :
    (s s1 s2 : Nodes) (l : List ℕ) (x : ℕ) (r : List ℕ)
    → Before s (first r) l s1
    → After s1 (last none l) r s2
    → IsDistinct (l ++ (x ∷ r))
    → Dll s none (l ++ (x ∷ r))
    → Dll s2 none (l ++ r)
whole-Dll s s1 s2 [] x r e v apart d =
    After-Dll s1 s2 none x r v apart.1 (subst (λ t. Dll t (some x) r) (sym e) d.3)
whole-Dll s s1 s2 (y ∷ ys) x r w v apart d =
    unlink-Dll s s1 s2 none y ys x r w (subst (λ q. After s1 q r s2) (last-last_of none y ys) v)
      apart d

unlink_next-Before :
    (list : Queue) (s : Nodes) (l : List ℕ) (x : ℕ) (r : List ℕ)
    → Dll s none (l ++ (x ∷ r))
    → list.head ≡ first (l ++ (x ∷ r))
    → Gives
        (λ (list1, s1).
          Before s (first r) l s1 × (list1.head ≡ first (l ++ r)) × (list1.tail ≡ list.tail))
        (unlink_next list (last none l) (first r) s)
unfolding unlink_next
unlink_next-Before list s [] x r d h = gives _ (refl, refl, refl)
unlink_next-Before list s (y ∷ ys) x r d h = rw (last-last_of none y ys) (
    Gives-then (λ s1 w. gives _ (w, h, refl))
      (set_next-IsWritten s (last_of y ys) (first r) (last_inside s none y ys x r d)))
  where
    last_inside :
        (s : Nodes) (p : Option ℕ) (y : ℕ) (ys : List ℕ) (x : ℕ) (r : List ℕ)
        → Dll s p (y ∷ (ys ++ (x ∷ r)))
        → last_of y ys < length s
    last_inside s p y [] x r d = d.0
    last_inside s p y (z ∷ zs) x r d = last_inside s (some y) z zs x r d.3

All-inside :
    (s s1 : Nodes) (p : Option ℕ) (r : List ℕ)
    → length s1 ≡ length s
    → Dll s p r
    → All (λ z. z < length s1) r
All-inside s s1 p [] e d = tt
All-inside s s1 p (z ∷ zs) e d = (omega (arith, d.0), All-inside s s1 (some z) zs e d.3)

right_inside :
    (s s1 : Nodes) (p : Option ℕ) (l : List ℕ) (x : ℕ) (r : List ℕ)
    → length s1 ≡ length s
    → Dll s p (l ++ (x ∷ r))
    → All (λ z. z < length s1) r
right_inside s s1 p [] x r e d = All-inside s s1 (some x) r e d.3
right_inside s s1 p (y ∷ l) x r e d = right_inside s s1 (some y) l x r e d.3

unlink_prev-After :
    (list : Queue) (s : Nodes) (l : List ℕ) (x : ℕ) (r : List ℕ)
    → All (λ z. z < length s) r
    → list.tail ≡ last none (l ++ (x ∷ r))
    → Gives
        (λ (list1, s1).
          After s (last none l) r s1 × (list1.head ≡ list.head) × (list1.tail ≡ last none (l ++ r)))
        (unlink_prev list (last none l) (first r) s)
unfolding unlink_prev
unlink_prev-After list s l x [] inside t = gives _ (refl, refl, sym (last-nil none l))
unlink_prev-After list s l x (z ∷ zs) inside t =
    Gives-then
      (λ s1 w. gives _ (w, refl, t ∙ last-append none l x (z ∷ zs) ∙ sym (last-append none l z zs)))
      (set_prev-IsWritten s z (last none l) inside.0)

pub list_remove-Leaves :
    (list : Queue) (s : Nodes) (l : List ℕ) (x : ℕ) (r : List ℕ)
    → IsQueue list s (l ++ (x ∷ r))
    → Gives (Leaves s (l ++ r)) (list_remove list x s)
unfolding list_remove
list_remove-Leaves list s l x r q =
    let (here, before, after) = Dll-middle s none l x r q.links in
    let (apart, left, right) = IsDistinct-middle l x r q.distinct in
    rw (cell-lt s x no_node here, before, after)
      (Gives-then
        (λ (list1, s1) (w, head1, tail1).
          let k1 = Before-Keeps s (first r) l s1 w in
          let before1 = ap (λ (m : ListNode). m.prev) (k1.kept x left) ∙ before in
          let after1 = ap (λ (m : ListNode). m.next) (k1.kept x left) ∙ after in
          rw (cell-lt s1 x no_node (omega (arith, here, k1.size)), before1, after1)
            (Gives-then
              (λ (list2, s2) (v, head2, tail2).
                let k2 = After-Keeps s1 (last none l) r s2 v in
                Gives-then
                  (λ s3 w3.
                    Gives-then
                      (λ s4 w4.
                        let w' = IsWritten-twice w3 w4 in
                        gives _ record {
                          queue = record {
                            links =
                                Dll-IsWritten none (l ++ r) w' (NotIn-both x l r left right)
                                  (whole-Dll s s1 s2 l x r w v q.distinct q.links);
                            distinct = apart;
                            head_first = head2 ∙ head1;
                            tail_last = tail2;
                          };
                          size = w'.size ∙ k2.size ∙ k1.size;
                          values = λ b. w'.values b ∙ k2.values b ∙ k1.values b;
                        })
                      (set_next-IsWritten s3 x none
                        (omega (arith, here, k1.size, k2.size, w3.size))))
                  (set_prev-IsWritten s2 x none (omega (arith, here, k1.size, k2.size))))
              (unlink_prev-After list1 s1 l x r (right_inside s s1 none l x r k1.size q.links)
                (tail1 ∙ q.tail_last))))
        (unlink_next-Before list s l x r q.links q.head_first))
