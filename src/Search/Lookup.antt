-- ===== src/Search/Lookup.antt =====
-- The array and the blocks give the value at the first place of the key.
use linux.Base.{
  ℕ, ◌≤◌, ◌<◌, ◌≡◌, ◌≢◌, ◌⊎◌, inl, inr, refl, List, get_or, length, true, false, ltb, ◌==◌, dec_lt,
  ℕ_discrete, arith,
}
use linux.Base.Run.{ok}
use linux.Search.{array_lookup}
use linux.Search.Lower.{read-lt, IsSorted, IsLowerBound, halving_loop_lem}

-- `value` is the value at the first of the places with the key, or 0 where there is none.
unfoldable pub Finds : (keys values : List ℕ) → (key value : ℕ) → Type 0
Finds keys values key value =
    ((i : ℕ) × (i < length keys)
      × (get_or keys i 0 ≡ key)
      × ((j : ℕ) → j < i → get_or keys j 0 ≢ key)
      × (value ≡ get_or values i 0))
    ⊎ (((j : ℕ) → j < length keys → get_or keys j 0 ≢ key) × (value ≡ 0))

-- Where the lower bound does not hold the key, no place does.
absent_beside :
    (keys : List ℕ) (key lo : ℕ)
    → IsSorted keys
    → IsLowerBound keys key lo
    → lo < length keys
    → get_or keys lo 0 ≢ key
    → (j : ℕ) → j < length keys
    → get_or keys j 0 ≢ key
absent_beside keys key lo sorted bound h ne j l = elim (dec_lt j lo) [
  | yes before ↦ omega (arith, bound.less j before)
  | no after ↦ omega (arith, sorted lo j (omega arith) l, bound.at_least lo (omega arith) h)
]

-- For sorted keys, and a value for each, the lookup in the array reads only inside both arrays, has
-- enough fuel, and returns the value at the first place of the key, or 0 where there is none.
pub array_lookup-Finds :
    (keys values : List ℕ) (key : ℕ)
    → IsSorted keys
    → length keys ≤ length values
    → (value : ℕ) × (array_lookup keys values (length keys) key ≡ ok value)
      × Finds keys values key value
unfolding array_lookup Finds
array_lookup-Finds keys values key sorted enough =
    let (lo, found, bound) =
      halving_loop_lem (length keys) keys key 0 (length keys) sorted (omega arith) (omega arith)
        (omega arith) (λ j h. absurd (omega arith)) (λ j h l. absurd (omega arith)) in
    rw found (elim (dec_lt lo (length keys)) [
      | yes h ↦
          let inside : ltb lo (length keys) ≡ true = ground arith in
          rw (inside, read-lt keys lo h)
            (elim (ℕ_discrete (get_or keys lo 0) key) [
              | yes e ↦
                  let same : (get_or keys lo 0 == key) ≡ true = ground arith in
                  rw (same, read-lt values lo (omega arith))
                    (_, refl, inl (lo, h, e, λ j l. omega (arith, bound.less j l), refl))
              | no ne ↦
                  let other : (get_or keys lo 0 == key) ≡ false = ground arith in
                  rw other (_, refl, inr (absent_beside keys key lo sorted bound h ne, refl))
            ])
      | no h ↦
          let outside : ltb lo (length keys) ≡ false = ground arith in
          rw outside (_, refl, inr (λ j l. omega (arith, bound.less j (omega arith)), refl))
    ])
