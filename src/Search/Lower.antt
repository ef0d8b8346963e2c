-- ===== src/Search/Lower.antt =====
-- What the search by halving finds in sorted cells.
use linux.Base.{
  ℕ, zero, suc, ◌+◌, ◌-◌, ◌/◌, ◌≤◌, ◌<◌, ◌≡◌, refl, List, [], ◌∷◌, get_or, length, true, false, ltb,
  dec_lt, arith,
}
use linux.Base.Run.{ok}
use linux.Search.{halving_loop, read}

-- An index below the length reads the cell.
pub read-lt : (cells : List ℕ) (i : ℕ) → i < length cells → read cells i ≡ ok (get_or cells i 0)
read-lt [] i h = absurd (omega arith)
read-lt (x ∷ xs) zero h = refl
read-lt (x ∷ xs) (suc i) h = read-lt xs i (omega arith)

abbrev pub IsSorted : List ℕ → Type 0
IsSorted cells = (i j : ℕ) → i ≤ j → j < length cells → get_or cells i 0 ≤ get_or cells j 0

-- Of the cells below `r` all are less than the key, of those from `r` on none is.
pub record IsLowerBound (cells : List ℕ) (key r : ℕ) : Type 0 where
  pub inside : r ≤ length cells
  pub less : (j : ℕ) → j < r → get_or cells j 0 < key
  pub at_least : (j : ℕ) → r ≤ j → j < length cells → key ≤ get_or cells j 0

-- With as much fuel as cells between the bounds, the loop ends at the lower bound.
pub halving_loop_lem :
    (fuel : ℕ) (cells : List ℕ) (key lo hi : ℕ)
    → IsSorted cells
    → lo ≤ hi
    → hi ≤ length cells
    → hi ≤ lo + fuel
    → ((j : ℕ) → j < lo → get_or cells j 0 < key)
    → ((j : ℕ) → hi ≤ j → j < length cells → key ≤ get_or cells j 0)
    → (r : ℕ) × (halving_loop fuel cells key lo hi ≡ ok r) × IsLowerBound cells key r
unfolding halving_loop
halving_loop_lem zero cells key lo hi sorted p q f below above =
    let done : ltb lo hi ≡ false = ground arith in
    let met : lo ≡ hi = omega arith in
    rw done (
      lo,
      refl,
      record { inside = omega arith; less = below; at_least = λ j h l. above j (omega arith) l },
    )
halving_loop_lem (suc fuel) cells key lo hi sorted p q f below above = elim (dec_lt lo hi) [
  | no done ↦
      let stops : ltb lo hi ≡ false = ground arith in
      rw stops (
        lo,
        refl,
        record { inside = omega arith; less = below; at_least = λ j h l. above j (omega arith) l },
      )
  | yes more ↦
      let goes : ltb lo hi ≡ true = ground arith in
      rw (goes, read-lt cells (lo + (hi - lo) / 2) (omega arith))
        (elim (dec_lt (get_or cells (lo + (hi - lo) / 2) 0) key) [
          | yes small ↦
              let right : ltb (get_or cells (lo + (hi - lo) / 2) 0) key ≡ true = ground arith in
              rw right (
                halving_loop_lem fuel cells key (lo + (hi - lo) / 2 + 1) hi sorted (omega arith) q
                  (omega arith)
                  (λ j h. omega (arith, sorted j (lo + (hi - lo) / 2) (omega arith) (omega arith)))
                  above)
          | no large ↦
              let left : ltb (get_or cells (lo + (hi - lo) / 2) 0) key ≡ false = ground arith in
              rw left (
                halving_loop_lem fuel cells key lo (lo + (hi - lo) / 2) sorted (omega arith)
                  (omega arith) (omega arith) below
                  (λ j h l. omega (arith, sorted (lo + (hi - lo) / 2) j h l)))
        ])
]
