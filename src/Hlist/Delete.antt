-- ===== src/Hlist/Delete.antt =====
-- Deleting a node from anywhere, without a walk through the list.
use mathlib.Core.Path.{subst}
use linux.Base.{ℕ, ◌≡◌, ◌≢◌, ◌∙◌, sym, refl, ap, ap₂, List, [], ◌∷◌, ◌++◌}
use linux.Base.Run.{ok, Gives, gives}
use linux.Hlist.{
  Pointer, null, node_at, poison, Place, head_first, next_of, PlacePointer, place, poison_place,
  Hlist, update, load_at, store_at, set_back, store_through, poisoned, unlink, del_linked,
  del_hashed, hlist_del,
}
use linux.Hlist.Change.{update-here, update-other}
use linux.Hlist.Linked.{
  NotIn, IsDistinct, Linked, IsHlist, SameNodes, Linked-SameNodes, spot, Linked-middle, Apart,
  Apart-spot,
}

load-stored : (s : Hlist) (q : Place) (p : Pointer) → load_at (store_at s q p) q ≡ p
load-stored s head_first p = refl
load-stored s (next_of i) p = update-here s.next i p

load-others :
    (s : Hlist) (q r : Place) (p : Pointer) → q ≢ r → load_at (store_at s q p) r ≡ load_at s r
load-others s head_first head_first p ne = absurd (ne refl)
load-others s head_first (next_of j) p ne = refl
load-others s (next_of i) head_first p ne = refl
load-others s (next_of i) (next_of j) p ne = update-other s.next i j p (λ e. ne (ap next_of e))

pprev-stored : (s : Hlist) (q : Place) (p : Pointer) → (store_at s q p).pprev ≡ s.pprev
pprev-stored s head_first p = refl
pprev-stored s (next_of i) p = refl

load-poisoned :
    (s : Hlist) (n : ℕ) (q : Place) → q ≢ next_of n → load_at (poisoned n s) q ≡ load_at s q
load-poisoned s n head_first ne = refl
load-poisoned s n (next_of j) ne = update-other s.next n j poison (λ e. ne (ap next_of (sym e)))

next-of-eq : (i j : ℕ) → next_of i ≡ next_of j → i ≡ j
next-of-eq i j e = cc

-- The place before a node is the `next` of no node after it.
Apart-cons : (q : Place) (x : ℕ) (xs : List ℕ) → Apart q (x ∷ xs) → (q ≢ next_of x) × Apart q xs
Apart-cons head_first x xs out = (λ e. cc, tt)
Apart-cons (next_of w) x xs (ne, out) = (λ e. ne (next-of-eq w x e), out)

Apart-rest :
    (q : Place) (l : List ℕ) (x : ℕ) (r : List ℕ) → Apart q (l ++ (x ∷ r)) → Apart q (x ∷ r)
Apart-rest q [] x r out = out
Apart-rest q (y ∷ l) x r out = Apart-rest q l x r (Apart-cons q y (l ++ (x ∷ r)) out).1

spot-Apart :
    (q : Place) (l : List ℕ) (x : ℕ) (r : List ℕ)
    → Apart q (l ++ (x ∷ r))
    → IsDistinct (l ++ (x ∷ r))
    → Apart (spot q l) (x ∷ r)
spot-Apart q [] x r out apart = out
spot-Apart q (y ∷ l) x r out (outy, apart) = spot-Apart (next_of y) l x r outy apart

middle-apart :
    (l : List ℕ) (x : ℕ) (r : List ℕ) → IsDistinct (l ++ (x ∷ r)) → NotIn x r × IsDistinct r
middle-apart [] x r d = d
middle-apart (y ∷ l) x r (out, d) = middle-apart l x r d

NotIn-parts :
    (a : ℕ) (l : List ℕ) (x : ℕ) (r : List ℕ) → NotIn a (l ++ (x ∷ r)) → (a ≢ x) × NotIn a r
NotIn-parts a [] x r out = out
NotIn-parts a (y ∷ l) x r (ne, out) = NotIn-parts a l x r out

NotIn-without :
    (a : ℕ) (l : List ℕ) (x : ℕ) (r : List ℕ) → NotIn a (l ++ (x ∷ r)) → NotIn a (l ++ r)
NotIn-without a [] x r (ne, out) = out
NotIn-without a (y ∷ l) x r (ne, out) = (ne, NotIn-without a l x r out)

IsDistinct-without :
    (l : List ℕ) (x : ℕ) (r : List ℕ) → IsDistinct (l ++ (x ∷ r)) → IsDistinct (l ++ r)
IsDistinct-without [] x r (out, d) = d
IsDistinct-without (y ∷ l) x r (out, d) = (NotIn-without y l x r out, IsDistinct-without l x r d)

-- A state `v` in which the place `q` no longer leads to `x`.
module _ (s v : Hlist) (q : Place) (x : ℕ) (r : List ℕ) where
  record IsBypassed : Type 0 where
    others : (p : Place) → q ≢ p → p ≢ next_of x → load_at v p ≡ load_at s p
    backs : (j : ℕ) → j ≢ x → NotIn j r → v.pprev j ≡ s.pprev j

  Linked-without :
      (pl : Place) (l : List ℕ)
      → IsBypassed
      → q ≡ spot pl l
      → Linked v q r
      → Apart pl (l ++ (x ∷ r))
      → IsDistinct (l ++ (x ∷ r))
      → Linked s pl (l ++ (x ∷ r))
      → Linked v pl (l ++ r)
  Linked-without pl [] b e tail out d h = subst (λ (p : Place). Linked v p r) e tail
  Linked-without pl (y ∷ l) b e tail out (outy, d) (lead, back, rest) =
      let (nex, outr) = NotIn-parts y l x r outy in
      (
        b.others pl (λ f. Apart-spot pl y l (x ∷ r) out (sym f ∙ e))
              (Apart-cons pl x r (Apart-rest pl (y ∷ l) x r out)).0
            ∙ lead,
        b.backs y nex outr ∙ back,
        Linked-without (next_of y) l b e tail outy d rest,
      )

-- The nodes behind the one that is deleted keep their links.
SameNodes-behind :
    (s v : Hlist) (q : Place) (x z : ℕ) (xs : List ℕ)
    → ((j : ℕ) → q ≢ next_of j → j ≢ x → v.next j ≡ s.next j)
    → ((j : ℕ) → j ≢ x → z ≢ j → v.pprev j ≡ s.pprev j)
    → Apart q xs
    → NotIn x xs
    → NotIn z xs
    → SameNodes s v xs
SameNodes-behind s v q x z [] f g out outx outz = tt
SameNodes-behind s v q x z (y ∷ xs) f g out (nex, outx) (nez, outz) =
    let (ne, rest) = Apart-cons q y xs out in
    (
      f y ne (λ e. nex (sym e)),
      g y (λ e. nex (sym e)) nez,
      SameNodes-behind s v q x z xs f g rest outx outz,
    )

-- The states that a deletion leaves: of the last node, and of one with a node behind it.
abbrev cut : Hlist → Place → (x : ℕ) → Hlist
cut s q x = poisoned x (store_at s q null)

abbrev rejoined : Hlist → Place → (x z : ℕ) → Hlist
rejoined s q x z =
    poisoned x (store_at (record s { pprev = update s.pprev z (place q) }) q (node_at z))

module _ (s : Hlist) (q : Place) (x : ℕ) (back : s.pprev x ≡ place q) where
  hlist_del-cut : s.next x ≡ null → hlist_del x s ≡ ok (cut s q x)
  unfolding hlist_del del_hashed del_linked unlink set_back store_through
  hlist_del-cut e =
      ap (λ (b : PlacePointer). del_hashed b x s) back
      ∙ ap (λ (p : Pointer). del_linked (place q) p x s) e
      ∙ ap₂ (λ (b : PlacePointer) (p : Pointer). unlink b p x s) back e

  hlist_del-rejoined :
      (z : ℕ) → s.next x ≡ node_at z → z ≢ x → hlist_del x s ≡ ok (rejoined s q x z)
  unfolding hlist_del del_hashed del_linked unlink set_back store_through
  hlist_del-rejoined z e ne =
      ap (λ (b : PlacePointer). del_hashed b x s) back
      ∙ ap (λ (p : Pointer). del_linked (place q) p x s) e
      ∙ ap₂
          (λ (b : PlacePointer) (p : Pointer).
            unlink b p x (record s { pprev = update s.pprev z (place q) }))
          (update-other s.pprev z x (place q) ne ∙ back) e

  -- What both states leave alone.
  cut-IsBypassed : (r : List ℕ) → IsBypassed s (cut s q x) q x r
  cut-IsBypassed r = record {
    others = λ p ne nex. load-poisoned (store_at s q null) x p nex ∙ load-others s q p null ne;
    backs = λ j ne out.
        update-other (store_at s q null).pprev x j poison_place (λ e. ne (sym e))
        ∙ ap (λ (f : ℕ → PlacePointer). f j) (pprev-stored s q null);
  }

  module _ (z : ℕ) where
    abbrev turned : Hlist
    turned = record s { pprev = update s.pprev z (place q) }

    rejoined-pprev : (j : ℕ) → j ≢ x → (rejoined s q x z).pprev j ≡ update s.pprev z (place q) j
    rejoined-pprev j ne =
        update-other (store_at turned q (node_at z)).pprev x j poison_place (λ e. ne (sym e))
        ∙ ap (λ (f : ℕ → PlacePointer). f j) (pprev-stored turned q (node_at z))

    load-turned : (p : Place) → load_at turned p ≡ load_at s p
    load-turned head_first = refl
    load-turned (next_of i) = refl

    rejoined-load : (p : Place) → q ≢ p → p ≢ next_of x → load_at (rejoined s q x z) p ≡ load_at s p
    rejoined-load p ne nex =
        load-poisoned (store_at turned q (node_at z)) x p nex
        ∙ load-others turned q p (node_at z) ne
        ∙ load-turned p

    rejoined-IsBypassed : (zs : List ℕ) → IsBypassed s (rejoined s q x z) q x (z ∷ zs)
    rejoined-IsBypassed zs = record {
      others = rejoined-load;
      backs =
          λ j ne out. rejoined-pprev j ne ∙ update-other s.pprev z j (place q) (λ e. out.0 (sym e));
    }

    rejoined-Linked :
        (zs : List ℕ)
        → Apart q (x ∷ (z ∷ zs))
        → z ≢ x
        → NotIn x zs
        → NotIn z zs
        → Linked s (next_of z) zs
        → Linked (rejoined s q x z) q (z ∷ zs)
    rejoined-Linked zs out ne outx outz rest =
        let (nex, behind) = Apart-cons q x (z ∷ zs) out in
        let (nez, apart) = Apart-cons q z zs behind in
        (
          load-poisoned (store_at turned q (node_at z)) x q nex ∙ load-stored turned q (node_at z),
          rejoined-pprev z ne ∙ update-here s.pprev z (place q),
          Linked-SameNodes s (rejoined s q x z) (next_of z) zs
              (rejoined-load (next_of z) nez (λ e. ne (next-of-eq z x e)))
              (SameNodes-behind s (rejoined s q x z) q x z zs
                (λ j nej nx. rejoined-load (next_of j) nej (λ e. nx (next-of-eq j x e)))
                (λ j nx nz. rejoined-pprev j nx ∙ update-other s.pprev z j (place q) nz) apart outx
                outz)
              rest,
        )

-- After the deletion the list lacks the node, and the node's two pointers are poison.
abbrev pub IsDeleted : (x : ℕ) → List ℕ → Hlist → Type 0
IsDeleted x xs t = IsHlist t xs × (t.next x ≡ poison) × (t.pprev x ≡ poison_place)

delete_at :
    (s : Hlist) (l : List ℕ) (x : ℕ) (r : List ℕ)
    → IsHlist s (l ++ (x ∷ r))
    → Apart (spot head_first l) (x ∷ r)
    → Linked s (next_of x) r
    → s.pprev x ≡ place (spot head_first l)
    → NotIn x r × IsDistinct r
    → Gives (IsDeleted x (l ++ r)) (hlist_del x s)
delete_at s l x [] (h, d) out next back (outx, apart) =
    let q = spot head_first l in
    rw (hlist_del-cut s q x back next) (
      gives _ (
        (
          Linked-without s (cut s q x) q x [] head_first l (cut-IsBypassed s q x back []) refl
              (load-poisoned (store_at s q null) x q (Apart-cons q x [] out).0
                ∙ load-stored s q null)
              tt d h,
          IsDistinct-without l x [] d,
        ),
        update-here (store_at s q null).next x poison,
        update-here (store_at s q null).pprev x poison_place,
      ))
delete_at s l x (z ∷ zs) (h, d) out (next, returns, rest) back ((ne, outx), (outz, apart)) =
    let q = spot head_first l in
    let other : z ≢ x = λ e. ne (sym e) in
    rw (hlist_del-rejoined s q x back z next other) (
      gives _ (
        (
          Linked-without s (rejoined s q x z) q x (z ∷ zs) head_first l
              (rejoined-IsBypassed s q x back z zs) refl
              (rejoined-Linked s q x back z zs out other outx outz rest) tt d h,
          IsDistinct-without l x (z ∷ zs) d,
        ),
        update-here (store_at (turned s q x back z) q (node_at z)).next x poison,
        update-here (store_at (turned s q x back z) q (node_at z)).pprev x poison_place,
      ))

-- A node of the list, at whatever place, is taken out of it; the others keep their order.
pub hlist_del-IsDeleted :
    (s : Hlist) (l : List ℕ) (x : ℕ) (r : List ℕ)
    → IsHlist s (l ++ (x ∷ r))
    → Gives (IsDeleted x (l ++ r)) (hlist_del x s)
hlist_del-IsDeleted s l x r (h, d) =
    let (lead, back, rest) = Linked-middle s head_first l x r h in
    delete_at s l x r (h, d) (spot-Apart head_first l x r tt d) rest back (middle-apart l x r d)
