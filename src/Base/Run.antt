-- ===== src/Base/Run.antt =====
-- How a run of C code ends: with a value, in behaviour that C leaves undefined, or with the
-- model's fuel used up.
use mathlib.Core.Path.{◌≡◌, refl, ap, subst}
use mathlib.Core.Option.{Option, none, some}
use mathlib.Core.Bool.{Bool, true, false}
use linux.Base.Tests.{if◌then◌else◌}

pub data Fault : Type 0 where
  out_of_bounds bad_label div_by_zero signed_overflow null_pointer wild_pointer misaligned : Fault

pub data Run {ℓ} (A : Type ℓ) : Type ℓ where
  ok : A → Run A
  undefined : Fault → Run A
  out_of_fuel : Run A

-- `abbrev`, so that `ok a >>= f` computes wherever it stands.
infixl 5 ◌>>=◌ ◌>>◌
abbrev pub ◌>>=◌ {ℓ κ} : {A : Type ℓ} {B : Type κ} → Run A → (A → Run B) → Run B
ok a >>= f = f a
undefined e >>= f = undefined e
out_of_fuel >>= f = out_of_fuel

abbrev pub ◌>>◌ {ℓ κ} : {A : Type ℓ} {B : Type κ} → Run A → Run B → Run B
m >> k = m >>= λ _. k

abbrev pub or_undefined {ℓ} : {A : Type ℓ} → Fault → Option A → Run A
or_undefined e none = undefined e
or_undefined e (some a) = ok a

module _ {ℓ κ μ} {A : Type ℓ} {B : Type κ} {C : Type μ} where
  -- A run that does `g` and then `k` after `m`, against one that does both in `f`.
  pub bind_through :
      (m : Run A) (f : A → Run B) (g : A → Run C) (k : C → Run B)
      → ((a : A) → f a ≡ (g a >>= k))
      → (m >>= f) ≡ ((m >>= g) >>= k)
  bind_through (ok a) f g k h = h a
  bind_through (undefined e) f g k h = refl
  bind_through out_of_fuel f g k h = refl

-- The run ends with a value that satisfies `P`: no undefined behaviour, and fuel to spare.
pub data Gives {ℓ κ} {A : Type ℓ} (P : A → Type κ) : Run A → Type (ℓ ⊔ κ) where
  gives : (a : A) → P a → Gives P (ok a)

-- The value and what is known of it.
pub Gives-value {ℓ κ} :
    {A : Type ℓ} {P : A → Type κ} {m : Run A} → Gives P m → (a : A) × (m ≡ ok a) × P a
Gives-value (gives a p) = (a, refl, p)

unfoldable value_or {ℓ} : {A : Type ℓ} → A → Run A → A
value_or a (ok b) = b
value_or a (undefined e) = a
value_or a out_of_fuel = a

-- What is known of the value that a run ends with.
pub Gives-at {ℓ κ} : {A : Type ℓ} {P : A → Type κ} {m : Run A} (a : A) → Gives P m → m ≡ ok a → P a
unfolding value_or
Gives-at {P = P} a (gives b p) e = subst P (ap (value_or a) e) p

pub Gives-weaken {ℓ κ μ} :
    {A : Type ℓ} {P : A → Type κ} {Q : A → Type μ} {m : Run A}
    → ((a : A) → P a → Q a)
    → Gives P m
    → Gives Q m
Gives-weaken k (gives a p) = gives a (k a p)

-- A run that goes on with the value of another.
pub Gives-then {ℓ κ μ ν} :
    {A : Type ℓ} {P : A → Type κ} {B : Type μ} {Q : B → Type ν} {m : Run A} {f : A → Run B}
    → ((a : A) → P a → Gives Q (f a))
    → Gives P m
    → Gives Q (m >>= f)
Gives-then k (gives a p) = k a p

pub Gives-if {ℓ κ} :
    {A : Type ℓ} {P : A → Type κ} (b : Bool) {m n : Run A}
    → (b ≡ true → Gives P m)
    → (b ≡ false → Gives P n)
    → Gives P (if b then m else n)
Gives-if true k l = k refl
Gives-if false k l = l refl

-- A run that goes on with the value of one of two.
pub Gives-branch {ℓ κ μ} :
    {A : Type ℓ} {B : Type κ} {P : B → Type μ} (b : Bool) (m n : Run A) (f : A → Run B)
    → (b ≡ true → Gives P (m >>= f))
    → (b ≡ false → Gives P (n >>= f))
    → Gives P ((if b then m else n) >>= f)
Gives-branch true m n f k l = k refl
Gives-branch false m n f k l = l refl
