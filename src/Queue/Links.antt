-- ===== src/Queue/Links.antt =====
-- A doubly linked list in an array of nodes, and which writes leave it.
use linux.Base.{
  ℕ, ◌<◌, ◌≡◌, ◌≢◌, ◌∙◌, ap, List, [], ◌∷◌, Option, none, some, true, false, ◌==◌, if◌then◌else◌,
  get_or, set, length, length-set, arith,
}
use linux.Base.Run.{ok}
use linux.Base.Arrays.{cell-lt, set_cell-lt, get_or-set}
use linux.Queue.{ListNode, Nodes, set_prev, set_next}

abbrev pub no_node : ListNode
no_node = record { prev = none; next = none; value = 0 }

abbrev pub at : Nodes → ℕ → ListNode
at s a = get_or s a no_node

abbrev pub All {ℓ κ} : {A : Type ℓ} → (A → Type κ) → List A → Type κ
All P [] = Unit
All P (x ∷ xs) = P x × All P xs

abbrev pub NotIn : ℕ → List ℕ → Type 0
NotIn a xs = All (λ x. a ≢ x) xs

-- No entry occurs twice.
abbrev pub IsDistinct : List ℕ → Type 0
IsDistinct [] = Unit
IsDistinct (x ∷ xs) = NotIn x xs × IsDistinct xs

abbrev pub first : List ℕ → Option ℕ
first [] = none
first (x ∷ xs) = some x

abbrev pub last : Option ℕ → List ℕ → Option ℕ
last p [] = p
last p (x ∷ xs) = last (some x) xs

-- The nodes `xs` are linked both ways in this order; `p` is before them.
abbrev pub Dll : Nodes → Option ℕ → List ℕ → Type 0
Dll s p [] = Unit
Dll s p (x ∷ xs) =
    (x < length s) × ((at s x).prev ≡ p) × ((at s x).next ≡ first xs) × Dll s (some x) xs

-- The links of `a` are the same in both arrays.
pub record SameLinks (s s' : Nodes) (a : ℕ) : Type 0 where
  pub same_prev : (at s' a).prev ≡ (at s a).prev
  pub same_next : (at s' a).next ≡ (at s a).next

pub Dll-SameLinks :
    (s s' : Nodes) (p : Option ℕ) (xs : List ℕ)
    → length s' ≡ length s
    → All (SameLinks s s') xs
    → Dll s p xs
    → Dll s' p xs
Dll-SameLinks s s' p [] e same d = d
Dll-SameLinks s s' p (x ∷ xs) e (here, there) (inside, before, after, rest) = (
  omega arith,
  here.same_prev ∙ before,
  here.same_next ∙ after,
  Dll-SameLinks s s' (some x) xs e there rest,
)

pub at-set :
    (s : Nodes) (a b : ℕ) (n : ListNode)
    → a < length s
    → at (set s a n) b ≡ (if a == b then n else at s b)
at-set s a b n h = get_or-set s a b n no_node h

pub at-set_ne :
    (s : Nodes) (a b : ℕ) (n : ListNode) → a < length s → a ≢ b → at (set s a n) b ≡ at s b
at-set_ne s a b n h ne =
    let other : (a == b) ≡ false = ground (arith, ne) in rw other at (at-set s a b n h)

pub at-set_self : (s : Nodes) (a : ℕ) (n : ListNode) → a < length s → at (set s a n) a ≡ n
at-set_self s a n h = let self : (a == a) ≡ true = ground arith in rw self at (at-set s a a n h)

-- A write to a node that is not among them leaves their links.
pub NotIn-SameLinks :
    (s : Nodes) (a : ℕ) (n : ListNode) (xs : List ℕ)
    → a < length s
    → NotIn a xs
    → All (SameLinks s (set s a n)) xs
NotIn-SameLinks s a n [] h out = out
NotIn-SameLinks s a n (x ∷ xs) h (ne, out) =
    let same = at-set_ne s a x n h ne in
    (
      record {
        same_prev = ap (λ (m : ListNode). m.prev) same;
        same_next = ap (λ (m : ListNode). m.next) same;
      },
      NotIn-SameLinks s a n xs h out,
    )

pub Dll-set :
    (s : Nodes) (a : ℕ) (n : ListNode) (p : Option ℕ) (xs : List ℕ)
    → a < length s
    → NotIn a xs
    → Dll s p xs
    → Dll (set s a n) p xs
Dll-set s a n p xs h out d =
    Dll-SameLinks s (set s a n) p xs (length-set s a n) (NotIn-SameLinks s a n xs h out) d

pub set_prev-lt :
    (s : Nodes) (a : ℕ) (p : Option ℕ)
    → a < length s
    → set_prev s a p ≡ ok (set s a (record (at s a) { prev = p }))
unfolding set_prev
set_prev-lt s a p h = rw (cell-lt s a no_node h) (set_cell-lt s a _ h)

pub set_next-lt :
    (s : Nodes) (a : ℕ) (p : Option ℕ)
    → a < length s
    → set_next s a p ≡ ok (set s a (record (at s a) { next = p }))
unfolding set_next
set_next-lt s a p h = rw (cell-lt s a no_node h) (set_cell-lt s a _ h)
