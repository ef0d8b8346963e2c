-- ===== src/Search/Parts.antt =====
-- The parts of a lookup in the blocks: the scan of one block, its last place, and the greatest keys.
use linux.Base.{
  ℕ, zero, suc, ◌+◌, ◌-◌, ◌*◌, ◌^◌, ◌≤◌, ◌<◌, ◌≡◌, ◌≢◌, ◌⊎◌, inl, inr, refl, ap, ◌∙◌, List, [], ◌∷◌,
  get_or, length, take, true, false, ltb, leb, ◌==◌, if◌then◌else◌, ℕ_discrete, arith,
}
use mathlib.Core.Path.{subst}
use linux.Base.Run.{ok}
use linux.Base.Word.{u64}
use linux.Search.{last_of_block, max_keys_loop, copied, scan_loop}
use linux.Search.Lower.{read-lt}

take-length : (xs : List ℕ) → take (length xs) xs ≡ xs
take-length [] = refl
take-length (x ∷ xs) = ap (λ (t : List ℕ). x ∷ t) (take-length xs)

-- What holds at `i` and from `i + 1` on holds from `i` on.
from_next :
    (keys : List ℕ) (key : ℕ) {i j : ℕ}
    → get_or keys i 0 ≢ key
    → (i + 1 ≤ j → get_or keys j 0 ≢ key)
    → i ≤ j
    → get_or keys j 0 ≢ key
from_next keys key {i} {j} here next h = elim (ℕ_discrete i j) [
  | yes e ↦ subst (λ t. get_or keys t 0 ≢ key) e here
  | no ne ↦ next (omega arith)
]

-- The scan finds the first place of the key among the places that it visits.
pub scan_loop_lem :
    (left : ℕ) (keys values : List ℕ) (i key : ℕ)
    → i + left ≤ length keys
    → length keys ≤ length values
    → ((m : ℕ) × (i ≤ m)
        × (m < i + left)
        × (get_or keys m 0 ≡ key)
        × ((j : ℕ) → i ≤ j → j < m → get_or keys j 0 ≢ key)
        × (scan_loop left keys values i key ≡ ok (get_or values m 0)))
      ⊎ (((j : ℕ) → i ≤ j → j < i + left → get_or keys j 0 ≢ key)
          × (scan_loop left keys values i key ≡ ok 0))
unfolding scan_loop
scan_loop_lem zero keys values i key h l = inr (λ j p q. absurd (omega arith), refl)
scan_loop_lem (suc left) keys values i key h l =
    rw (read-lt keys i (omega arith), read-lt values i (omega arith))
      (elim (ℕ_discrete (get_or keys i 0) key) [
        | yes e ↦
            let same : (get_or keys i 0 == key) ≡ true = ground arith in
            rw same (inl (i, omega arith, omega arith, e, λ j p q. absurd (omega arith), refl))
        | no ne ↦
            let other : (get_or keys i 0 == key) ≡ false = ground arith in
            rw other (elim (scan_loop_lem left keys values (i + 1) key (omega arith) l) [
              | inl (m, p, q, e, first, value) ↦ inl (
                m,
                omega arith,
                omega arith,
                e,
                λ j p' q'. from_next keys key ne (λ r. first j r q') p',
                value,
              )
              | inr (absent, value) ↦
                  inr (λ j p q. from_next keys key ne (λ r. absent j r (omega arith)) p, value)
            ])
      ])

pub last_of_block_lem :
    (b n : ℕ)
    → b * 32 < n
    → n < 2 ^ 63
    → (b * 32 ≤ last_of_block b n)
      × (last_of_block b n < n)
      × (last_of_block b n < (b + 1) * 32)
      × ((j : ℕ) → j < n → j < (b + 1) * 32 → j ≤ last_of_block b n)
unfolding last_of_block
last_of_block_lem b n h k = (ground arith, ground arith, ground arith, λ j p q. ground arith)

-- How many places the scan of block `b` visits.
abbrev pub visits : (b n : ℕ) → ℕ
visits b n = let stop = u64 (b * 32 + 32) in (if ltb n stop then n else stop) - b * 32

pub visits_lem :
    (b n : ℕ)
    → b * 32 < n
    → n < 2 ^ 63
    → (b * 32 + visits b n ≤ n)
      × (last_of_block b n < b * 32 + visits b n)
      × ((j : ℕ) → j < n → b * 32 + visits b n ≤ j → (b + 1) * 32 ≤ j)
unfolding last_of_block
visits_lem b n h k = (ground arith, ground arith, λ j p q. ground arith)

-- The last entries of the blocks.
abbrev pub maxima : (left b : ℕ) → (keys : List ℕ) → (n : ℕ) → List ℕ
maxima zero b keys n = []
maxima (suc left) b keys n = get_or keys (last_of_block b n) 0 ∷ maxima left (b + 1) keys n

-- Where the blocks have last places, these are what the loop stores.
pub max_keys_loop-maxima :
    (left b : ℕ) (keys : List ℕ) (n : ℕ)
    → ((c : ℕ) → c < b + left → last_of_block c n < length keys)
    → max_keys_loop left b keys n ≡ ok (maxima left b keys n)
unfolding max_keys_loop
max_keys_loop-maxima zero b keys n inside = refl
max_keys_loop-maxima (suc left) b keys n inside =
    rw
      (
        read-lt keys (last_of_block b n) (inside b (omega arith)),
        max_keys_loop-maxima left (b + 1) keys n (λ c h. inside c (omega arith)),
      )
      refl

pub copied-length : (cells : List ℕ) → copied (length cells) cells ≡ ok cells
unfolding copied
copied-length cells =
    let whole : leb (length cells) (length cells) ≡ true = ground arith in
    rw (whole, take-length cells) refl

pub length-maxima : (left b : ℕ) (keys : List ℕ) (n : ℕ) → length (maxima left b keys n) ≡ left
length-maxima zero b keys n = refl
length-maxima (suc left) b keys n = ap suc (length-maxima left (b + 1) keys n)

pub maxima-get_or :
    (left b : ℕ) (keys : List ℕ) (n j : ℕ)
    → j < left
    → get_or (maxima left b keys n) j 0 ≡ get_or keys (last_of_block (b + j) n) 0
maxima-get_or zero b keys n j h = absurd (omega arith)
maxima-get_or (suc left) b keys n zero h =
    ap (λ (t : ℕ). get_or keys (last_of_block t n) 0) (omega arith)
maxima-get_or (suc left) b keys n (suc j) h =
    maxima-get_or left (b + 1) keys n j (omega arith)
    ∙ ap (λ (t : ℕ). get_or keys (last_of_block t n) 0) (omega arith)
