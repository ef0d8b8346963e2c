-- ===== src/Search/Blocks.antt =====
-- The blocks find what the array finds.
use linux.Base.{
  ℕ, ◌+◌, ◌-◌, ◌*◌, ◌/◌, ◌^◌, ◌≤◌, ◌<◌, ◌≡◌, ◌≢◌, inl, inr, refl, sym, ap, ◌∙◌, List, some, get_or,
  length, true, false, ◌==◌, dec_lt, ℕ_discrete, arith,
}
use linux.Base.Run.{ok}
use linux.Base.Word.{u64}
use linux.Search.{
  array_lookup, BlockIndex, last_of_block, max_keys_loop, copied, block_build, scan_loop,
  block_lookup,
}
use linux.Search.Lower.{IsSorted, IsLowerBound, halving_loop_lem}
use linux.Search.Parts.{
  copied-length, scan_loop_lem, last_of_block_lem, visits, visits_lem, maxima, max_keys_loop-maxima,
  length-maxima, maxima-get_or,
}
use linux.Search.Lookup.{Finds, array_lookup-Finds}

module _ (keys values : List ℕ) (key : ℕ) (sorted : IsSorted keys)
    (enough : length keys ≡ length values) (small : length keys < 2 ^ 63) where
  abbrev n : ℕ
  n = length keys

  abbrev blocks : ℕ
  blocks = u64 (n + 32 - 1) / 32

  abbrev maxes : List ℕ
  maxes = maxima blocks 0 keys n

  max_of : (b : ℕ) → b < blocks → get_or maxes b 0 ≡ get_or keys (last_of_block b n) 0
  max_of b h =
      maxima-get_or blocks 0 keys n b h
      ∙ ap (λ (t : ℕ). get_or keys (last_of_block t n) 0) (omega arith)

  last_lt : (b : ℕ) → b < blocks → last_of_block b n < n
  last_lt b h = let (_, inside, _, _) = last_of_block_lem b n (omega arith) small in inside

  length-maxes : length maxes ≡ blocks
  length-maxes = length-maxima blocks 0 keys n

  maxes-IsSorted : IsSorted maxes
  maxes-IsSorted i j h l =
      let in_range : j < blocks = omega (arith, length-maxes) in
      let (_, inside, below, _) = last_of_block_lem i n (omega arith) small in
      let (_, inside', _, covers) = last_of_block_lem j n (omega arith) small in
      let later : last_of_block i n ≤ last_of_block j n =
        covers (last_of_block i n) inside (omega arith) in
      omega (
        arith,
        max_of i (omega arith),
        max_of j in_range,
        sorted (last_of_block i n) (last_of_block j n) later inside',
      )

  -- Before the block that the halving finds, no place has the key.
  before_block :
      (lo : ℕ) → IsLowerBound maxes key lo → (j : ℕ) → j < n → j / 32 < lo → get_or keys j 0 ≢ key
  before_block lo bound j h l =
      let in_range : j / 32 < blocks = omega arith in
      let (_, inside, _, covers) = last_of_block_lem (j / 32) n (omega arith) small in
      omega (
        arith,
        bound.less (j / 32) l,
        max_of (j / 32) in_range,
        sorted j (last_of_block (j / 32) n) (covers j h (omega arith)) inside,
      )

  -- After it, none has where its last place has not.
  after_block :
      (lo : ℕ)
      → IsLowerBound maxes key lo
      → lo < blocks
      → get_or keys (last_of_block lo n) 0 ≢ key
      → (j : ℕ) → j < n
      → (lo + 1) * 32 ≤ j
      → get_or keys j 0 ≢ key
  after_block lo bound h ne j l p =
      let (_, inside, below, _) = last_of_block_lem lo n (omega arith) small in
      omega (
        arith,
        bound.at_least lo (omega arith) (omega (arith, length-maxes)),
        max_of lo h,
        sorted (last_of_block lo n) j (omega arith) l,
      )

  -- In a block that exists, the scan finds what the whole array has.
  scan_loop-Finds :
      (lo left : ℕ)
      → IsLowerBound maxes key lo
      → lo < blocks
      → lo * 32 + left ≤ n
      → last_of_block lo n < lo * 32 + left
      → ((j : ℕ) → j < n → lo * 32 + left ≤ j → (lo + 1) * 32 ≤ j)
      → (value : ℕ) × (scan_loop left keys values (lo * 32) key ≡ ok value)
        × Finds keys values key value
  unfolding Finds
  scan_loop-Finds lo left bound h fits holds_last rest =
      elim (scan_loop_lem left keys values (lo * 32) key fits (omega arith)) [
        | inl (m, p, q, e, first, value) ↦
            (_, value, inl (m, omega arith, e, λ j l. first_in j m first l p q, refl))
        | inr (absent, value) ↦ (_, value, inr (λ j l. nowhere absent j l, refl))
      ]
    where
      first_in :
          (j m : ℕ)
          → ((i : ℕ) → lo * 32 ≤ i → i < m → get_or keys i 0 ≢ key)
          → j < m
          → lo * 32 ≤ m
          → m < lo * 32 + left
          → get_or keys j 0 ≢ key
      first_in j m first l p q = elim (dec_lt j (lo * 32)) [
        | yes before ↦ before_block lo bound j (omega arith) (omega arith)
        | no after ↦ first j (omega arith) l
      ]

      nowhere :
          ((i : ℕ) → lo * 32 ≤ i → i < lo * 32 + left → get_or keys i 0 ≢ key)
          → (j : ℕ) → j < n
          → get_or keys j 0 ≢ key
      nowhere absent j l = elim (dec_lt j (lo * 32)) [
        | yes before ↦ before_block lo bound j l (omega arith)
        | no from ↦ elim (dec_lt j (lo * 32 + left)) [
          | yes inside ↦ absent j (omega arith) inside
          | no after ↦
              let (starts, _, _, _) = last_of_block_lem lo n (omega arith) small in
              after_block lo bound h (absent (last_of_block lo n) starts holds_last) j l
                (rest j l (omega arith))
        ]
      ]

  abbrev index : BlockIndex
  index = record { nblocks = blocks; max_keys = maxes; keys = keys; values = values }

  block_lookup-Finds :
      (value : ℕ) × (block_lookup index n key ≡ ok value) × Finds keys values key value
  unfolding block_lookup Finds
  block_lookup-Finds =
      let (lo, found, bound) =
        halving_loop_lem blocks maxes key 0 blocks maxes-IsSorted (omega arith)
          (omega (arith, length-maxes)) (omega arith) (λ j h. absurd (omega arith))
          (λ j h l. absurd (omega (arith, length-maxes))) in
      rw found (elim (ℕ_discrete lo blocks) [
        | yes e ↦
            let past : (lo == blocks) ≡ true = ground arith in
            rw past (_, refl, inr (λ j h. before_block lo bound j h (omega arith), refl))
        | no ne ↦
            let here : (lo == blocks) ≡ false = ground arith in
            let in_range : lo < blocks = omega (arith, bound.inside, length-maxes) in
            let start : u64 (lo * 32) ≡ lo * 32 = omega arith in
            let (fits, holds_last, rest) = visits_lem lo n (omega arith) small in
            rw (here, start) (scan_loop-Finds lo (visits lo n) bound in_range fits holds_last rest)
      ])

Finds-unique :
    (keys values : List ℕ) (key : ℕ) {v w : ℕ}
    → Finds keys values key v
    → Finds keys values key w
    → v ≡ w
unfolding Finds
Finds-unique keys values key (inl (i, h, e, first, p)) (inl (j, l, f, first', q)) =
    p ∙ ap (λ (t : ℕ). get_or values t 0) same ∙ sym q
  where
    same : i ≡ j
    same = elim (dec_lt i j) [
      | yes less ↦ absurd (first' i less e)
      | no not_less ↦ elim (dec_lt j i) [
        | yes less ↦ absurd (first j less f)
        | no not_greater ↦ omega arith
      ]
    ]
Finds-unique keys values key (inl (i, h, e, first, p)) (inr (absent, q)) = absurd (absent i h e)
Finds-unique keys values key (inr (absent, p)) (inl (i, h, e, first, q)) = absurd (absent i h e)
Finds-unique keys values key (inr (absent, p)) (inr (absent', q)) = p ∙ sym q

-- For fewer than 2^63 sorted keys, with a value for each, `block_build` makes an index of them,
-- where its allocations succeed. The lookup in the index returns the value at the first place of the
-- key, or 0 where there is none, and so does the lookup in the array. None of the three reads or
-- writes outside its arrays.
pub block_lookup-array_lookup :
    (keys values : List ℕ) (key : ℕ)
    → IsSorted keys
    → length keys ≡ length values
    → length keys < 2 ^ 63
    → (idx : BlockIndex) × (block_build true keys values (length keys) ≡ ok (some idx))
      × (value : ℕ) × (block_lookup idx (length keys) key ≡ ok value)
      × (array_lookup keys values (length keys) key ≡ ok value)
      × Finds keys values key value
unfolding block_build
block_lookup-array_lookup keys values key sorted enough small =
    let (v, in_blocks, finds) = block_lookup-Finds keys values key sorted enough small in
    let (w, in_array, finds') = array_lookup-Finds keys values key sorted (omega arith) in
    (
      index keys values key sorted enough small,
      rw (copied-length keys, values_copied, maxes_stored) refl,
      v,
      in_blocks,
      rw (Finds-unique keys values key finds finds') in_array,
      finds,
    )
  where
    values_copied : copied (length keys) values ≡ ok values
    values_copied = rw enough (copied-length values)

    maxes_stored :
        max_keys_loop (blocks keys values key sorted enough small) 0 keys (length keys)
        ≡ ok (maxes keys values key sorted enough small)
    maxes_stored =
        max_keys_loop-maxima (blocks keys values key sorted enough small) 0 keys (length keys)
          (λ c h. last_lt keys values key sorted enough small c (omega arith))
