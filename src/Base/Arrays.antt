-- ===== src/Base/Arrays.antt =====
-- Arrays with bounds: a read or a write outside of one is undefined.
use mathlib.Core.List.{List, [], ◌∷◌, Perm}
use mathlib.Core.List.Perm
use mathlib.Core.Path.{◌≡◌, refl, ◌∙◌}
use Prim.Native.Nat.{ℕ, zero, suc, ◌<◌}
use native.Mathlib.Omega.{arith}
use linux.Base.Tests.{ltb, ◌==◌, if◌then◌else◌}
use linux.Base.Lists.{length, get_elem?, get_or, set, length-set}
use linux.Base.Run.{Run, ok, undefined, out_of_bounds, or_undefined, ◌>>=◌}

module _ {ℓ} {A : Type ℓ} where
  abbrev pub cell : List A → ℕ → Run A
  cell a i = or_undefined out_of_bounds (get_elem? a i)

  abbrev pub set_cell : List A → ℕ → A → Run (List A)
  set_cell a i v = if ltb i (length a) then ok (set a i v) else undefined out_of_bounds

  pub cell-lt : (a : List A) (i : ℕ) (d : A) → i < length a → cell a i ≡ ok (get_or a i d)
  cell-lt [] i d h = absurd (omega arith)
  cell-lt (x ∷ a) zero d h = refl
  cell-lt (x ∷ a) (suc i) d h = cell-lt a i d (omega arith)

  pub set_cell-lt : (a : List A) (i : ℕ) (v : A) → i < length a → set_cell a i v ≡ ok (set a i v)
  set_cell-lt a i v h = ground arith

  pub get_or-set :
      (a : List A) (i j : ℕ) (v d : A)
      → i < length a
      → get_or (set a i v) j d ≡ (if i == j then v else get_or a j d)
  get_or-set [] i j v d h = absurd (omega arith)
  get_or-set (x ∷ a) zero zero v d h = refl
  get_or-set (x ∷ a) zero (suc j) v d h = ground arith
  get_or-set (x ∷ a) (suc i) zero v d h = ground arith
  get_or-set (x ∷ a) (suc i) (suc j) v d h = ground (arith, get_or-set a i j v d)

  -- A write puts `v` in the place of the old entry.
  Perm-set : (a : List A) (i : ℕ) (v d : A) → i < length a → Perm (v ∷ a) (get_or a i d ∷ set a i v)
  Perm-set [] i v d h = absurd (omega arith)
  Perm-set (x ∷ a) zero v d h = Perm.swap x v a
  Perm-set (x ∷ a) (suc i) v d h = Perm.trans (Perm.swap x v a) (
      Perm.trans (Perm.cons x (Perm-set a i v d (omega arith)))
        (Perm.swap (get_or a i d) x (set a i v)))

  -- The exchange of two entries.
  abbrev pub exchanged : List A → (i j : ℕ) → (d : A) → List A
  exchanged a i j d = set (set a i (get_or a j d)) j (get_or a i d)

  pub length-exchanged : (a : List A) (i j : ℕ) (d : A) → length (exchanged a i j d) ≡ length a
  length-exchanged a i j d =
      length-set (set a i (get_or a j d)) j (get_or a i d) ∙ length-set a i (get_or a j d)

  module _ (a : List A) (i j : ℕ) (d : A) (hi : i < length a) (hj : j < length a) where
    pub get_or-exchanged :
        (k : ℕ)
        → get_or (exchanged a i j d) k d
          ≡ (if j == k then get_or a i d else if i == k then get_or a j d else get_or a k d)
    get_or-exchanged k = rw (
      get_or-set (set a i (get_or a j d)) j k (get_or a i d) d
          (omega (arith, length-set a i (get_or a j d))),
      get_or-set a i k (get_or a j d) d hi,
    )

    pub Perm-exchanged : Perm a (exchanged a i j d)
    Perm-exchanged =
        let same : get_or (set a i (get_or a j d)) j d ≡ get_or a j d =
          ground (arith, get_or-set a i j (get_or a j d) d hi) in
        let second = rw same at (
          Perm-set (set a i (get_or a j d)) j (get_or a i d) d
            (omega (arith, length-set a i (get_or a j d)))) in
        Perm.cons_inv (Perm.trans (Perm-set a i (get_or a j d) d hi) second)

  -- `swap(&a[i], &a[j])`
  unfoldable pub swap_cells : List A → (i j : ℕ) → Run (List A)
  swap_cells a i j = cell a i >>= λ x. cell a j >>= λ y. set_cell a i y >>= λ b. set_cell b j x

  pub swap_cells-lt :
      (a : List A) (i j : ℕ) (d : A)
      → i < length a
      → j < length a
      → swap_cells a i j ≡ ok (exchanged a i j d)
  unfolding swap_cells
  swap_cells-lt a i j d hi hj = rw (
    cell-lt a i d hi,
    cell-lt a j d hj,
    set_cell-lt a i (get_or a j d) hi,
    set_cell-lt (set a i (get_or a j d)) j (get_or a i d)
        (omega (arith, length-set a i (get_or a j d))),
  )
