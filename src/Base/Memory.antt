-- ===== src/Base/Memory.antt =====
-- The allocator: which calls it grants, and which blocks are live.
use mathlib.Core.Path.{◌≡◌, refl}
use mathlib.Core.Bool.{Bool, true, false}
use mathlib.Core.Option.{Option, none, some}
use mathlib.Core.List.{List, [], ◌∷◌}
use Prim.Native.Nat.{ℕ, ◌+◌, ◌<◌}
use native.Mathlib.Omega.{arith}
use native.Mathlib.Decide.{ℕ_discrete}
use mathlib.Core.Logic.{inl, inr}
use linux.Base.Tests.{Bool-cases, ◌==◌, if◌then◌else◌}
use linux.Base.Run.{Run, ok, wild_pointer, or_undefined, ◌>>=◌, Gives, gives, Gives-weaken}

-- The blocks are named by the calls that returned them; `calls` counts the calls.
pub record Memory : Type 0 where
  pub calls : ℕ
  pub live : List ℕ

-- How often `x` occurs.
abbrev pub count : ℕ → List ℕ → ℕ
count x [] = 0
count x (y ∷ ys) = (if x == y then 1 else 0) + count x ys

-- The list without the first `x`.
abbrev pub remove : ℕ → List ℕ → Option (List ℕ)
remove x [] = none
remove x (y ∷ ys) =
    let rest = remove x ys in
    if x == y then some ys else elim rest [ none ↦ none | some zs ↦ some (y ∷ zs) ]

-- `grants` says of each call whether it gives a block; `calloc` does the same.
unfoldable pub malloc : (grants : ℕ → Bool) → Memory → Option ℕ × Memory
malloc grants m =
    if grants m.calls
    then (some m.calls, record { calls = m.calls + 1; live = m.calls ∷ m.live })
    else (none, record { calls = m.calls + 1; live = m.live })

-- To free what is not live is undefined.
unfoldable pub free : ℕ → Memory → Run Memory
free x m = or_undefined wild_pointer (remove x m.live) >>= λ live.
    ok record { calls = m.calls; live = live }

-- `free(NULL)` does nothing.
unfoldable pub free_pointer : Option ℕ → Memory → Run Memory
free_pointer none m = ok m
free_pointer (some x) m = free x m

remove-count :
    (x : ℕ) (ys : List ℕ)
    → 0 < count x ys
    → (zs : List ℕ) × (remove x ys ≡ some zs)
      × ((y : ℕ) → count y ys ≡ (if y == x then 1 else 0) + count y zs)
remove-count x [] h = absurd (omega arith)
remove-count x (y ∷ ys) h = elim (ℕ_discrete x y) [
  | yes e ↦
      let here : (x == y) ≡ true = ground (arith, e) in rw here (ys, refl, λ z. ground (arith, e))
  | no ne ↦
      let there : (x == y) ≡ false = ground (arith, ne) in
      let (zs, e, counts) = remove-count x ys (ground (arith, ne)) in
      rw (there, e) (y ∷ zs, refl, λ z. omega (arith, counts z))
]

-- A live block can be freed, and no other is.
pub free-count :
    (x : ℕ) (m : Memory)
    → 0 < count x m.live
    → Gives
        (λ m'. (y : ℕ) → count y m.live ≡ (if y == x then 1 else 0) + count y m'.live)
        (free x m)
unfolding free
free-count x m h = let (live, e, counts) = remove-count x m.live h in rw e (gives _ counts)

abbrev pub one_if : ℕ → ℕ → ℕ
one_if x y = if x == y then 1 else 0

-- The blocks that are live, with how often.
abbrev pub IsLive : Memory → (ℕ → ℕ) → Type 0
IsLive m f = (x : ℕ) → count x m.live ≡ f x

pub free-IsLive :
    (block : ℕ) (m : Memory) (f : ℕ → ℕ)
    → IsLive m (λ x. one_if x block + f x)
    → Gives (λ m'. IsLive m' f) (free block m)
free-IsLive block m f h =
    Gives-weaken (λ m' counts x. omega (arith, counts x, h x))
      (free-count block m (ground (arith, h block)))

-- A call is refused.
abbrev pub Denies : (ℕ → Bool) → Type 0
Denies grants = (k : ℕ) × (grants k ≡ false)

-- What `malloc` returns where `f` is live: no block, or one more.
pub data Malloced (grants : ℕ → Bool) (f : ℕ → ℕ) : Option ℕ × Memory → Type 0 where
  refused : (m : Memory) → Denies grants → IsLive m f → Malloced grants f (none, m)
  granted :
      (block : ℕ) (m : Memory)
      → IsLive m (λ x. one_if x block + f x)
      → Malloced grants f (some block, m)

pub malloc-Malloced :
    (grants : ℕ → Bool) (m : Memory) (f : ℕ → ℕ) → IsLive m f → Malloced grants f (malloc grants m)
unfolding malloc
malloc-Malloced grants m f h = elim (Bool-cases (grants m.calls)) [
  | inl given ↦ rw given (granted _ _ (λ x. omega (arith, h x)))
  | inr denied ↦ rw denied (refused _ (m.calls, denied) h)
]

-- How often a pointer is `x`: NULL never is.
abbrev pub held : Option ℕ → ℕ → ℕ
held none x = 0
held (some block) x = one_if x block

pub free_pointer-IsLive :
    (p : Option ℕ) (m : Memory) (f : ℕ → ℕ)
    → IsLive m (λ x. held p x + f x)
    → Gives (λ m'. IsLive m' f) (free_pointer p m)
unfolding free_pointer
free_pointer-IsLive none m f h = gives m (λ x. omega (arith, h x))
free_pointer-IsLive (some block) m f h = free-IsLive block m f h

pub Malloced-IsLive :
    {grants : ℕ → Bool} {f : ℕ → ℕ} (r : Option ℕ × Memory)
    → Malloced grants f r
    → IsLive r.1 (λ x. held r.0 x + f x)
Malloced-IsLive r (refused m k live) = λ x. omega (arith, live x)
Malloced-IsLive r (granted block m live) = live
