-- ===== src/Bloom/Set.antt =====
-- Setting bits, and the probes of one key.
use linux.Base.{
  ℕ, zero, suc, ◌+◌, ◌*◌, ◌/◌, ◌%◌, ◌^◌, ◌≤◌, ◌<◌, ◌≡◌, ◌⊎◌, inl, inr, refl, ap, ◌∙◌, arith, max,
  List, length, length-set, get_or, set, ◌==◌, if◌then◌else◌, bit_or, true, false, ℕ_discrete,
}
use linux.Base.Arrays.{cell-lt, set_cell-lt, get_or-set}
use linux.Base.Bits.{bit_at, bit_at-bit_or, bit_at-shl, bit_at-mod}
use linux.Base.Run.{Gives, gives, Gives-then, Gives-weaken}
use linux.Base.Word.{u32}
use native.Mathlib.Nat.{mod-lt}
use linux.Bloom.{bitset_set, derive_index, probe_loop, bitset_words, bitset_bits}

-- The bit at an index of the set.
abbrev pub stored : List ℕ → ℕ → ℕ
stored bits p = bit_at (get_or bits (p / 32) 0) (p % 32)

-- `q` has the bits of `bits` and those in `P`, and no other.
pub record Grown (P : ℕ → Type 0) (bits q : List ℕ) : Type 0 where
  pub same_length : length q ≡ length bits
  pub kept : (p : ℕ) → stored bits p ≡ 1 → stored q p ≡ 1
  pub hit : (p : ℕ) → P p → stored q p ≡ 1
  pub only : (p : ℕ) → stored q p ≡ 1 → (stored bits p ≡ 1) ⊎ P p

-- Two additions after each other.
pub Grown-then :
    (P Q R : ℕ → Type 0) (a b c : List ℕ)
    → ((p : ℕ) → P p → R p)
    → ((p : ℕ) → Q p → R p)
    → ((p : ℕ) → R p → P p ⊎ Q p)
    → Grown P a b
    → Grown Q b c
    → Grown R a c
Grown-then P Q R a b c f g h s t = record {
  same_length = t.same_length ∙ s.same_length;
  kept = λ p e. t.kept p (s.kept p e);
  hit = λ p r. either p (h p r);
  only = λ p e. earlier p (t.only p e);
}
  where
    either : (p : ℕ) → P p ⊎ Q p → stored c p ≡ 1
    either p (inl x) = t.kept p (s.hit p x)
    either p (inr y) = t.hit p y

    first : (p : ℕ) → (stored a p ≡ 1) ⊎ P p → (stored a p ≡ 1) ⊎ R p
    first p (inl e) = inl e
    first p (inr x) = inr (f p x)

    earlier : (p : ℕ) → (stored b p ≡ 1) ⊎ Q p → (stored a p ≡ 1) ⊎ R p
    earlier p (inl e) = first p (s.only p e)
    earlier p (inr y) = inr (g p y)

pub Grown-none :
    (P : ℕ → Type 0) (bits : List ℕ) → ((p : ℕ) → P p → stored bits p ≡ 1) → Grown P bits bits
Grown-none P bits h = record { same_length = refl; kept = λ p e. e; hit = h; only = λ p e. inl e }

abbrev word_with : List ℕ → ℕ → ℕ
word_with bits index = bit_or (get_or bits (index / 32) 0) (u32 (1 * 2 ^ (index % 32)))

module _ (bits : List ℕ) (index : ℕ) (h : index / 32 < length bits) where
  abbrev with_bit : List ℕ
  with_bit = set bits (index / 32) (word_with bits index)

  word_bit :
      (k : ℕ)
      → k < 32
      → bit_at (word_with bits index) k
        ≡ max (bit_at (get_or bits (index / 32) 0) k) (if index % 32 == k then 1 else 0)
  word_bit k l =
      bit_at-bit_or k (get_or bits (index / 32) 0) (u32 (1 * 2 ^ (index % 32)))
      ∙ ap (max (bit_at (get_or bits (index / 32) 0) k))
          (bit_at-mod 32 k (1 * 2 ^ (index % 32)) l ∙ bit_at-shl (index % 32) k 1 (omega arith))

  stored-with_bit : (p : ℕ) → stored with_bit p ≡ max (stored bits p) (if index == p then 1 else 0)
  stored-with_bit p = elim (ℕ_discrete (index / 32) (p / 32)) [
    | yes e ↦
        let here : (index / 32 == p / 32) ≡ true = ground arith in
        let same : get_or bits (index / 32) 0 ≡ get_or bits (p / 32) 0 =
          ap (λ (t : ℕ). get_or bits t 0) e in
        rw (get_or-set bits (index / 32) (p / 32) (word_with bits index) 0 h, here)
          (word_bit (p % 32) (omega arith) ∙ rw same (ground arith))
    | no ne ↦
        let elsewhere : (index / 32 == p / 32) ≡ false = ground arith in
        let other : (index == p) ≡ false = ground arith in
        rw (get_or-set bits (index / 32) (p / 32) (word_with bits index) 0 h, elsewhere, other)
          (omega arith)
  ]

  bitset_set-Grown : Gives (Grown (λ p. p ≡ index) bits) (bitset_set bits index)
  unfolding bitset_set
  bitset_set-Grown =
      rw (cell-lt bits (index / 32) 0 h, set_cell-lt bits (index / 32) (word_with bits index) h)
        (gives with_bit (record {
          same_length = length-set bits (index / 32) (word_with bits index);
          kept = λ p e. ground (arith, stored-with_bit p);
          hit = λ p e. ground (
            arith,
            stored-with_bit p,
            mod-lt (get_or bits (p / 32) 0 / 2 ^ (p % 32)) {m = 2} (omega arith),
          );
          only = λ p e. which p e;
        }))
    where
      which : (p : ℕ) → stored with_bit p ≡ 1 → (stored bits p ≡ 1) ⊎ (p ≡ index)
      which p e = elim (ℕ_discrete p index) [
        | yes f ↦ inr f
        | no ne ↦ inl (ground (arith, stored-with_bit p))
      ]

derive_index-lt : (h1 h2 probe : ℕ) → derive_index h1 h2 probe < bitset_bits
unfolding derive_index
derive_index-lt h1 h2 probe = omega arith

-- The indices of the probes from one on.
abbrev pub Probes : (h1 h2 probe left : ℕ) → ℕ → Type 0
Probes h1 h2 probe left p = (t : ℕ) × (probe ≤ t) × (t < probe + left) × (p ≡ derive_index h1 h2 t)

pub probe_loop-Grown :
    (left probe h1 h2 : ℕ) (bits : List ℕ)
    → length bits ≡ bitset_words
    → Gives (Grown (Probes h1 h2 probe left) bits) (probe_loop left probe h1 h2 bits)
unfolding probe_loop
probe_loop-Grown zero probe h1 h2 bits l =
    gives bits (Grown-none _ bits (λ p (t, low, high, e). absurd (omega arith)))
probe_loop-Grown (suc left) probe h1 h2 bits l =
    Gives-then {P = Grown (λ p. p ≡ derive_index h1 h2 probe) bits}
      (λ b s.
        Gives-weaken
          (λ c t.
            Grown-then (λ p. p ≡ derive_index h1 h2 probe) (Probes h1 h2 (probe + 1) left)
              (Probes h1 h2 probe (suc left)) bits b c (λ p e. (probe, omega arith, omega arith, e))
              (λ p (t, low, high, e). (t, omega arith, omega arith, e)) (λ p r. which p r) s t)
          (probe_loop-Grown left (probe + 1) h1 h2 b (s.same_length ∙ l)))
      (bitset_set-Grown bits (derive_index h1 h2 probe)
        (omega (arith, derive_index-lt h1 h2 probe)))
  where
    which :
        (p : ℕ)
        → Probes h1 h2 probe (suc left) p
        → (p ≡ derive_index h1 h2 probe) ⊎ Probes h1 h2 (probe + 1) left p
    which p (t, low, high, e) = elim (ℕ_discrete t probe) [
      | yes f ↦ inl (e ∙ ap (derive_index h1 h2) f)
      | no ne ↦ inr (t, omega arith, omega arith, e)
    ]
