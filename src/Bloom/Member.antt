-- ===== src/Bloom/Member.antt =====
-- The hashes end, and the filter holds the probes of its keys and nothing else.
use linux.Base.{
  ℕ, zero, suc, ◌+◌, ◌*◌, ◌/◌, ◌%◌, ◌^◌, ◌≤◌, ◌<◌, ◌≡◌, ◌⊎◌, inl, inr, refl, ap, ap₂, ◌∙◌, arith,
  List, length, bit_xor, ℕ_discrete,
}
use linux.Base.Arrays.{cell-lt}
use linux.Base.Digits.{bit_and_mask}
use linux.Base.Run.{Run, ok, Gives, gives, Gives-then, Gives-value, Gives-weaken}
use linux.Base.Word.{u32}
use linux.Base.Xor.{xor-lt}
use native.Mathlib.Nat.{mod-lt}
use linux.Bloom.{
  bitset_words, hash_probes, derive_index, strong_hash, key_text, insert_loop, insert_keys,
}
use linux.Bloom.Hash.{
  simple_sum_hash, blocks_loop, tail_one, tail_two, tail_three, mix_tail, finish, murmurhash3_32,
}
use linux.Bloom.Set.{Grown, Grown-then, Grown-none, Probes, probe_loop-Grown}

-- A run that ends, inside its arrays.
abbrev Ends : Run ℕ → Type 0
Ends m = Gives (λ (h : ℕ). h ≡ h) m

blocks_loop-Ends :
    (left i h1 : ℕ) (bytes : List ℕ)
    → (i + left) * 4 ≤ length bytes
    → Ends (blocks_loop left i h1 bytes)
unfolding blocks_loop
blocks_loop-Ends zero i h1 bytes fits = gives h1 refl
blocks_loop-Ends (suc left) i h1 bytes fits =
    rw
      (
        cell-lt bytes (i * 4 + 0) 0 (omega arith),
        cell-lt bytes (i * 4 + 1) 0 (omega arith),
        cell-lt bytes (i * 4 + 2) 0 (omega arith),
        cell-lt bytes (i * 4 + 3) 0 (omega arith),
      )
      (blocks_loop-Ends left (i + 1) _ bytes (omega arith))

mix_tail-Ends :
    (rest start h1 : ℕ) (bytes : List ℕ)
    → rest < 4
    → start + rest ≤ length bytes
    → Ends (mix_tail rest start h1 bytes)
unfolding mix_tail tail_three tail_two tail_one
mix_tail-Ends zero start h1 bytes short fits = gives h1 refl
mix_tail-Ends (suc zero) start h1 bytes short fits =
    rw (cell-lt bytes (start + 0) 0 (omega arith)) (gives _ refl)
mix_tail-Ends (suc (suc zero)) start h1 bytes short fits =
    rw (cell-lt bytes (start + 1) 0 (omega arith), cell-lt bytes (start + 0) 0 (omega arith))
      (gives _ refl)
mix_tail-Ends (suc (suc (suc zero))) start h1 bytes short fits =
    rw
      (
        cell-lt bytes (start + 2) 0 (omega arith),
        cell-lt bytes (start + 1) 0 (omega arith),
        cell-lt bytes (start + 0) 0 (omega arith),
      )
      (gives _ refl)
mix_tail-Ends (suc (suc (suc (suc rest)))) start h1 bytes short fits = absurd (omega arith)

finish-lt : (h : ℕ) → finish h < 2 ^ 32
unfolding finish
finish-lt h = xor-lt 32 _ _ (mod-lt _ (omega arith)) (omega arith)

-- On every string murmurhash3_32 reads only its bytes, and returns 32 bits.
pub murmurhash3_32-lt :
    (key : List ℕ) (seed : ℕ) → Gives (λ h. h < 2 ^ 32) (murmurhash3_32 key seed)
unfolding murmurhash3_32
murmurhash3_32-lt key seed =
    let whole : length key / 4 * 4 + length key % 4 ≡ length key = omega arith in
    rw (bit_and_mask 2 (length key)) (
      Gives-then {P = λ h. h ≡ h}
        (λ h1 _.
          Gives-then {P = λ h. h ≡ h} (λ h2 _. gives _ (finish-lt (bit_xor h2 (u32 (length key)))))
            (mix_tail-Ends (length key % 4) (length key / 4 * 4) h1 key (omega arith)
              (omega arith)))
        (blocks_loop-Ends (length key / 4) 0 seed key (omega arith)))

strong_hash-Gives : (s : List ℕ) → Gives (λ h. h < 2 ^ 32) (strong_hash s)
unfolding strong_hash
strong_hash-Gives s = murmurhash3_32-lt s 0x9747b28c

pub simple_sum_hash-Gives : (s : List ℕ) → Gives (λ (h : ℕ). h ≡ h) (simple_sum_hash s)
unfolding simple_sum_hash
simple_sum_hash-Gives s = gives _ refl

same_value : (m : Run ℕ) (a b : ℕ) → m ≡ ok a → m ≡ ok b → a ≡ b
same_value m a b e f = cc

Probes-moved :
    (a b c d p : ℕ) → a ≡ c → b ≡ d → Probes a b 0 hash_probes p → Probes c d 0 hash_probes p
Probes-moved a b c d p e f (t, low, high, g) =
    (t, low, high, g ∙ ap₂ (λ (x y : ℕ). derive_index x y t) e f)

module _ (hash_fn : List ℕ → Run ℕ) (label : List ℕ) where
  -- An index that a key probes, of the keys from `i` on.
  pub record Probed (i left p : ℕ) : Type 0 where
    pub key : ℕ
    pub from : i ≤ key
    pub below : key < i + left
    pub first_hash : ℕ
    pub second_hash : ℕ
    pub first_run : hash_fn (key_text label key) ≡ ok first_hash
    pub second_run : strong_hash (key_text label key) ≡ ok second_hash
    pub probed : Probes first_hash second_hash 0 hash_probes p

  first-or_rest :
      (i left h1 h2 : ℕ)
      → hash_fn (key_text label i) ≡ ok h1
      → strong_hash (key_text label i) ≡ ok h2
      → (p : ℕ) → Probed i (suc left) p
      → Probes h1 h2 0 hash_probes p ⊎ Probed (i + 1) left p
  first-or_rest i left h1 h2 e f p r = elim (ℕ_discrete r.key i) [
    | yes same ↦ inl (
        Probes-moved r.first_hash r.second_hash h1 h2 p
          (same_value (hash_fn (key_text label r.key)) r.first_hash h1 r.first_run
            (ap (λ (k : ℕ). hash_fn (key_text label k)) same ∙ e))
          (same_value (strong_hash (key_text label r.key)) r.second_hash h2 r.second_run
            (ap (λ (k : ℕ). strong_hash (key_text label k)) same ∙ f))
          r.probed)
    | no other ↦ inr (record {
      key = r.key;
      from = omega (arith, r.from);
      below = omega (arith, r.below);
      first_hash = r.first_hash;
      second_hash = r.second_hash;
      first_run = r.first_run;
      second_run = r.second_run;
      probed = r.probed;
    })
  ]

  first-Probed :
      (i left h1 h2 : ℕ)
      → hash_fn (key_text label i) ≡ ok h1
      → strong_hash (key_text label i) ≡ ok h2
      → (p : ℕ) → Probes h1 h2 0 hash_probes p
      → Probed i (suc left) p
  first-Probed i left h1 h2 e f p probes = record {
    key = i;
    from = omega arith;
    below = omega arith;
    first_hash = h1;
    second_hash = h2;
    first_run = e;
    second_run = f;
    probed = probes;
  }

  rest-Probed : (i left p : ℕ) → Probed (i + 1) left p → Probed i (suc left) p
  rest-Probed i left p r = record {
    key = r.key;
    from = omega (arith, r.from);
    below = omega (arith, r.below);
    first_hash = r.first_hash;
    second_hash = r.second_hash;
    first_run = r.first_run;
    second_run = r.second_run;
    probed = r.probed;
  }

  module _ (total : (s : List ℕ) → Gives (λ (h : ℕ). h ≡ h) (hash_fn s)) where
    insert_loop-Grown :
        (left i : ℕ) (bits : List ℕ)
        → length bits ≡ bitset_words
        → Gives (Grown (Probed i left) bits) (insert_loop hash_fn label left i bits)
    unfolding insert_loop
    insert_loop-Grown zero i bits l =
        gives bits (Grown-none _ bits (λ p r. absurd (omega (arith, r.from, r.below))))
    insert_loop-Grown (suc left) i bits l =
        let (h1, e, _) = Gives-value (total (key_text label i)) in
        let (h2, f, _) = Gives-value (strong_hash-Gives (key_text label i)) in
        rw (e, f)
          (Gives-then {P = Grown (Probes h1 h2 0 hash_probes) bits}
            (λ b s.
              Gives-weaken
                (λ c t.
                  Grown-then (Probes h1 h2 0 hash_probes) (Probed (i + 1) left)
                    (Probed i (suc left)) bits b c (first-Probed i left h1 h2 e f)
                    (rest-Probed i left) (first-or_rest i left h1 h2 e f) s t)
                (insert_loop-Grown left (i + 1) b (s.same_length ∙ l)))
            (probe_loop-Grown hash_probes 0 h1 h2 bits l))

    -- Inserting the keys keeps the bits that were set, sets every index that one of the 500 keys
    -- probes, so that no inserted key is missed, and sets no other; no write is outside the array.
    pub insert_keys-Grown :
        (bits : List ℕ)
        → length bits ≡ bitset_words
        → Gives (Grown (Probed 0 500) bits) (insert_keys bits hash_fn label)
    unfolding insert_keys
    insert_keys-Grown bits l = insert_loop-Grown 500 0 bits l
