-- ===== src/Hlist/Linked.antt =====
-- The nodes of a hash list in their order, each with the place that leads to it.
use linux.Base.{ℕ, ◌≡◌, ◌≢◌, ◌∙◌, ap, List, [], ◌∷◌, ◌++◌}
use linux.Hlist.{null, node_at, Place, head_first, next_of, place, Hlist, load_at}

abbrev pub NotIn : ℕ → List ℕ → Type 0
NotIn a [] = Unit
NotIn a (x ∷ xs) = (a ≢ x) × NotIn a xs

-- No entry occurs twice.
abbrev pub IsDistinct : List ℕ → Type 0
IsDistinct [] = Unit
IsDistinct (x ∷ xs) = NotIn x xs × IsDistinct xs

abbrev pub Linked : Hlist → Place → List ℕ → Type 0
Linked s pl [] = load_at s pl ≡ null
Linked s pl (x ∷ xs) = (load_at s pl ≡ node_at x) × (s.pprev x ≡ place pl) × Linked s (next_of x) xs

-- The list of the head.
abbrev pub IsHlist : Hlist → List ℕ → Type 0
IsHlist s xs = Linked s head_first xs × IsDistinct xs

-- What the nodes of a list keep.
abbrev pub SameNodes : Hlist → Hlist → List ℕ → Type 0
SameNodes s t [] = Unit
SameNodes s t (x ∷ xs) = (t.next x ≡ s.next x) × (t.pprev x ≡ s.pprev x) × SameNodes s t xs

pub Linked-SameNodes :
    (s t : Hlist) (pl : Place) (xs : List ℕ)
    → load_at t pl ≡ load_at s pl
    → SameNodes s t xs
    → Linked s pl xs
    → Linked t pl xs
Linked-SameNodes s t pl [] e same l = e ∙ l
Linked-SameNodes s t pl (x ∷ xs) e (here, back, same) (lead, returns, rest) =
    (e ∙ lead, back ∙ returns, Linked-SameNodes s t (next_of x) xs here same rest)

-- The place that leads to what follows `l`.
abbrev pub spot : Place → List ℕ → Place
spot pl [] = pl
spot pl (y ∷ l) = spot (next_of y) l

pub Linked-middle :
    (s : Hlist) (pl : Place) (l : List ℕ) (x : ℕ) (r : List ℕ)
    → Linked s pl (l ++ (x ∷ r))
    → (load_at s (spot pl l) ≡ node_at x) × (s.pprev x ≡ place (spot pl l)) × Linked s (next_of x) r
Linked-middle s pl [] x r h = h
Linked-middle s pl (y ∷ l) x r h = Linked-middle s (next_of y) l x r h.2

-- A place that is no `next` of the nodes of a list.
abbrev pub Apart : Place → List ℕ → Type 0
Apart head_first xs = Unit
Apart (next_of w) xs = NotIn w xs

pub Apart-spot :
    (pl : Place) (y : ℕ) (l r : List ℕ) → Apart pl (y ∷ (l ++ r)) → pl ≢ spot (next_of y) l
Apart-spot head_first y [] r out e = cc
Apart-spot (next_of w) y [] r out e = out.0 (next-of-eq e)
  where
    place_name : Place → ℕ
    place_name head_first = 0
    place_name (next_of i) = i

    next-of-eq : next_of w ≡ next_of y → w ≡ y
    next-of-eq e = ap place_name e
Apart-spot head_first y (z ∷ l) r out e = Apart-spot head_first z l r tt e
Apart-spot (next_of w) y (z ∷ l) r out e = Apart-spot (next_of w) z l r out.1 e
