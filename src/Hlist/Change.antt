-- ===== src/Hlist/Change.antt =====
-- What adding and deleting do to the list.
use linux.Base.{ℕ, ◌≡◌, ◌≢◌, ◌∙◌, refl, ap, arith, List, [], ◌∷◌, ◌==◌, true, false}
use linux.Base.Run.{ok, Gives, gives}
use linux.Hlist.{
  Pointer, null, node_at, head_first, next_of, place, Hlist, update, set_back, add_before,
  hlist_add_head,
}
use linux.Hlist.Linked.{NotIn, Linked, IsHlist, SameNodes, Linked-SameNodes}

pub update-here {ℓ} : {A : Type ℓ} (f : ℕ → A) (i : ℕ) (v : A) → update f i v i ≡ v
update-here f i v = let here : (i == i) ≡ true = ground arith in rw here refl

pub update-other {ℓ} : {A : Type ℓ} (f : ℕ → A) (i j : ℕ) (v : A) → i ≢ j → update f i v j ≡ f j
update-other f i j v ne = let other : (i == j) ≡ false = ground arith in rw other refl

-- Two states in which all nodes but those of a list are alike.
pub record Elsewhere (s t : Hlist) (xs : List ℕ) : Type 0 where
  pub same_next : (j : ℕ) → NotIn j xs → t.next j ≡ s.next j
  pub same_pprev : (j : ℕ) → NotIn j xs → t.pprev j ≡ s.pprev j

-- A list without the two nodes that differ.
SameNodes-others :
    (s t : Hlist) (a b : ℕ) (xs : List ℕ)
    → ((j : ℕ) → a ≢ j → b ≢ j → (t.next j ≡ s.next j) × (t.pprev j ≡ s.pprev j))
    → NotIn a xs
    → NotIn b xs
    → SameNodes s t xs
SameNodes-others s t a b [] same outa outb = tt
SameNodes-others s t a b (x ∷ xs) same (nea, outa) (neb, outb) =
    ((same x nea neb).0, (same x nea neb).1, SameNodes-others s t a b xs same outa outb)

module _ (n : ℕ) (s : Hlist) where
  -- The states that an addition to an empty list and to one with a first node leave.
  abbrev alone : Hlist
  alone = record {
    first = node_at n;
    next = update s.next n null;
    pprev = update s.pprev n (place head_first);
  }

  abbrev in_front : ℕ → Hlist
  in_front x = record {
    first = node_at n;
    next = update s.next n (node_at x);
    pprev = update (update s.pprev x (place (next_of n))) n (place head_first);
  }

  add_before-alone : s.first ≡ null → hlist_add_head n s ≡ ok alone
  unfolding hlist_add_head add_before set_back
  add_before-alone e = ap (λ (p : Pointer). add_before p n s) e

  add_before-in_front : (x : ℕ) → s.first ≡ node_at x → hlist_add_head n s ≡ ok (in_front x)
  unfolding hlist_add_head add_before set_back
  add_before-in_front x e = ap (λ (p : Pointer). add_before p n s) e

  in_front-Linked :
      (x : ℕ) (xs : List ℕ)
      → n ≢ x
      → NotIn n xs
      → NotIn x xs
      → Linked s (next_of x) xs
      → Linked (in_front x) head_first (n ∷ (x ∷ xs))
  in_front-Linked x xs ne outn outx rest = (
    refl,
    update-here (update s.pprev x (place (next_of n))) n (place head_first),
    (
      update-here s.next n (node_at x),
      update-other (update s.pprev x (place (next_of n))) n x (place head_first) ne
          ∙ update-here s.pprev x (place (next_of n)),
      Linked-SameNodes s (in_front x) (next_of x) xs (update-other s.next n x (node_at x) ne)
          (SameNodes-others s (in_front x) n x xs
            (λ j nen nex. (
              update-other s.next n j (node_at x) nen,
              update-other (update s.pprev x (place (next_of n))) n j (place head_first) nen
                  ∙ update-other s.pprev x j (place (next_of n)) nex,
            ))
            outn outx)
          rest,
    ),
  )

  alone-Linked : Linked alone head_first (n ∷ [])
  alone-Linked = (refl, update-here s.pprev n (place head_first), update-here s.next n null)

-- A node that is not in the list becomes its first one.
pub hlist_add_head-IsHlist :
    (n : ℕ) (xs : List ℕ) (s : Hlist)
    → IsHlist s xs
    → NotIn n xs
    → Gives (λ t. IsHlist t (n ∷ xs)) (hlist_add_head n s)
hlist_add_head-IsHlist n [] s (l, apart) out =
    rw (add_before-alone n s l) (gives _ (alone-Linked n s, (tt, tt)))
hlist_add_head-IsHlist n (x ∷ xs) s ((lead, back, rest), (outx, apart)) (ne, out) =
    rw (add_before-in_front n s x lead)
      (gives _ (in_front-Linked n s x xs ne out outx rest, ((ne, out), (outx, apart))))
