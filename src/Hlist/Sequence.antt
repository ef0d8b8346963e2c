-- ===== src/Hlist/Sequence.antt =====
-- Any sequence of calls, against a list of node numbers.
use mathlib.Core.Path.{subst}
use linux.Base.{ℕ, ◌≡◌, ◌∙◌, refl, ap, List, [], ◌∷◌, ◌++◌}
use linux.Base.Run.{Run, ok, undefined, wild_pointer, ◌>>=◌, Gives, gives, Gives-then}
use linux.Hlist.{
  Pointer, PlacePointer, no_place, poison_place, Hlist, init_hlist_head, init_hlist_node, set_back,
  hlist_add_head, del_linked, del_hashed, hlist_del,
}
use linux.Hlist.Change.{hlist_add_head-IsHlist, update-here}
use linux.Hlist.Delete.{IsDeleted, hlist_del-IsDeleted}
use linux.Hlist.Linked.{NotIn, IsHlist}

-- A call of `hlist_add_head` or of `hlist_del`.
pub data Call : Type 0 where
  add del : ℕ → Call

pub calls : List Call → Hlist → Run Hlist
calls [] s = ok s
calls (add n ∷ rest) s = hlist_add_head n s >>= calls rest
calls (del n ∷ rest) s = hlist_del n s >>= calls rest

-- What the calls do to the list `xs`: a node that is added is not in it, and goes to the front; one
-- that is deleted is in it, and the rest stays in its order.
pub data Follows : List Call → List ℕ → List ℕ → Type 0 where
  finished : {xs : List ℕ} → Follows [] xs xs
  adds :
      {n : ℕ} {rest : List Call} {xs ys : List ℕ}
      → NotIn n xs
      → Follows rest (n ∷ xs) ys
      → Follows (add n ∷ rest) xs ys
  deletes :
      {n : ℕ} {rest : List Call} {xs ys : List ℕ} (l r : List ℕ)
      → xs ≡ l ++ (n ∷ r)
      → Follows rest (l ++ r) ys
      → Follows (del n ∷ rest) xs ys

-- A head on which calls have been made refines the list of numbers: where the list allows the calls,
-- they end without following a wrong pointer, and the head then has the nodes of the new list in
-- its order, each pointing back to the pointer that leads to it.
pub calls-Refines :
    (s : Hlist) (requests : List Call) (xs ys : List ℕ)
    → IsHlist s xs
    → Follows requests xs ys
    → Gives (λ t. IsHlist t ys) (calls requests s)
unfolding calls
calls-Refines s requests xs ys h finished = gives s h
calls-Refines s requests xs ys h (adds {n = n} {rest = rest} out f) =
    Gives-then {P = λ t. IsHlist t (n ∷ xs)} (λ t i. calls-Refines t rest (n ∷ xs) ys i f)
      (hlist_add_head-IsHlist n xs s h out)
calls-Refines s requests xs ys h (deletes {n = n} {rest = rest} l r e f) =
    Gives-then {P = IsDeleted n (l ++ r)} (λ t i. calls-Refines t rest (l ++ r) ys i.0 f)
      (hlist_del-IsDeleted s l n r (subst (IsHlist s) e h))

-- A head that is initialised has the empty list.
pub init_hlist_head-IsHlist : (s : Hlist) → IsHlist (init_hlist_head s) []
unfolding init_hlist_head
init_hlist_head-IsHlist s = (refl, tt)

-- Deleting a node that has only been initialised changes nothing; deleting a node again after its
-- deletion follows the poison and is undefined.
pub hlist_del_outside :
    (n : ℕ) (s : Hlist)
    → (hlist_del n (init_hlist_node n s) ≡ ok (init_hlist_node n s))
      × ((xs : List ℕ) → IsDeleted n xs s → hlist_del n s ≡ undefined wild_pointer)
unfolding hlist_del del_hashed del_linked set_back init_hlist_node
hlist_del_outside n s = (
  ap (λ (b : PlacePointer). del_hashed b n (init_hlist_node n s)) (update-here s.pprev n no_place),
  λ xs d.
      ap (λ (b : PlacePointer). del_hashed b n s) d.2
      ∙ ap (λ (p : Pointer). del_linked poison_place p n s) d.1,
)
