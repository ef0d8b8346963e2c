-- ===== src/Packing/Stored.antt =====
-- The bits of an array, one place after the other, and the two inner loops.
use linux.Base.{
  ℕ, zero, suc, ◌+◌, ◌*◌, ◌/◌, ◌%◌, ◌^◌, ◌≤◌, ◌<◌, ◌≡◌, ◌≢◌, refl, ap, sym, ◌∙◌, arith, max, List,
  length, length-set, get_or, set, ltb, ◌==◌, if◌then◌else◌, bit_and, bit_or, true, false,
  ℕ_discrete,
}
use linux.Base.Arrays.{cell-lt, set_cell-lt, get_or-set}
use linux.Base.Bits.{
  bit_at, bit_at-zero, bit_at-suc, bit_at-bit_or, bit_at-shl, bit_at-mod, mod-suc_bit,
}
use linux.Base.Digits.{bit_and_mask, bit_or_comm, bit_or_disjoint}
use linux.Base.Run.{ok, Gives, gives, Gives-weaken}
use linux.Base.Word.{u8, u32}
use linux.Base.Pow.{two_pow_pos}
use native.Mathlib.Nat.{mod-lt, mod-eq_of_lt, pow-le-pow_right}
use linux.Packing.{pack_bits, unpack_bits}

-- The bit at a place of an array of bytes.
abbrev pub stored : List ℕ → ℕ → ℕ
stored packed p = bit_at (get_or packed (p / 8) 0) (p % 8)

-- What one round writes.
abbrev written_byte : List ℕ → (bp value : ℕ) → ℕ
written_byte packed bp value =
    u8 (bit_or (get_or packed (bp / 8) 0) (u8 (value % 2 * 2 ^ (bp % 8))))

abbrev written : List ℕ → (bp value : ℕ) → List ℕ
written packed bp value = set packed (bp / 8) (written_byte packed bp value)

module _ (packed : List ℕ) (bp value : ℕ) (h : bp / 8 < length packed) where
  byte_bit :
      (k : ℕ)
      → k < 8
      → bit_at (u8 (bit_or (get_or packed (bp / 8) 0) (u8 (value % 2 * 2 ^ (bp % 8))))) k
        ≡ max (bit_at (get_or packed (bp / 8) 0) k) (if bp % 8 == k then value % 2 else 0)
  byte_bit k l =
      bit_at-mod 8 k _ l
      ∙ bit_at-bit_or k (get_or packed (bp / 8) 0) (u8 (value % 2 * 2 ^ (bp % 8)))
      ∙ ap (max (bit_at (get_or packed (bp / 8) 0) k))
          (bit_at-mod 8 k _ l ∙ bit_at-shl (bp % 8) k (value % 2) (omega arith))

  stored-written :
      (p : ℕ)
      → stored (written packed bp value) p
        ≡ max (stored packed p) (if bp == p then value % 2 else 0)
  stored-written p = elim (ℕ_discrete (bp / 8) (p / 8)) [
    | yes e ↦
        let here : (bp / 8 == p / 8) ≡ true = ground arith in
        let same : get_or packed (bp / 8) 0 ≡ get_or packed (p / 8) 0 =
          ap (λ (t : ℕ). get_or packed t 0) e in
        rw (get_or-set packed (bp / 8) (p / 8) _ 0 h, here)
          (byte_bit (p % 8) (omega arith) ∙ rw same (ground arith))
    | no ne ↦
        let elsewhere : (bp / 8 == p / 8) ≡ false = ground arith in
        let other : (bp == p) ≡ false = ground arith in
        rw (get_or-set packed (bp / 8) (p / 8) _ 0 h, elsewhere, other) (omega arith)
  ]

-- `left` bits of the number are stored from the place `bp` on, and the others are kept.
pub record IsWritten (packed : List ℕ) (left value bp : ℕ) (q : List ℕ) : Type 0 where
  pub same_length : length q ≡ length packed
  pub before : (p : ℕ) → p < bp → stored q p ≡ stored packed p
  pub after : (p : ℕ) → bp + left ≤ p → stored q p ≡ stored packed p
  pub bits : (j : ℕ) → j < left → stored q (bp + j) ≡ bit_at value j

module _ (packed : List ℕ) (bp value : ℕ) (inside : bp / 8 < length packed) where
  stored-others : (p : ℕ) → bp ≢ p → stored (written packed bp value) p ≡ stored packed p
  stored-others p ne = ground (arith, stored-written packed bp value inside p)

  stored-here : stored packed bp ≡ 0 → stored (written packed bp value) bp ≡ value % 2
  stored-here clear = ground (arith, stored-written packed bp value inside bp)

  -- A round and the rounds that follow it.
  IsWritten-step :
      (left : ℕ) (q : List ℕ)
      → stored packed bp ≡ 0
      → IsWritten (written packed bp value) left (value / 2) (bp + 1) q
      → IsWritten packed (suc left) value bp q
  IsWritten-step left q clear w = record {
    same_length = w.same_length ∙ length-set packed (bp / 8) _;
    before = λ p l. w.before p (omega arith) ∙ stored-others p (λ e. absurd (omega arith));
    after = λ p l. w.after p (omega arith) ∙ stored-others p (λ e. absurd (omega arith));
    bits = bit;
  }
    where
      bit : (j : ℕ) → j < suc left → stored q (bp + j) ≡ bit_at value j
      bit zero l =
          let here : bp + 0 ≡ bp = omega arith in
          ap (stored q) here
          ∙ w.before bp (omega arith)
          ∙ stored-here clear
          ∙ sym (bit_at-zero value)
      bit (suc j) l =
          let moved : bp + suc j ≡ bp + 1 + j = omega arith in
          ap (stored q) moved ∙ w.bits j (omega arith) ∙ sym (bit_at-suc value j)

pub pack_bits-IsWritten :
    (left value bp : ℕ) (packed : List ℕ)
    → bp + left < 2 ^ 31
    → bp + left ≤ 8 * length packed
    → ((p : ℕ) → bp ≤ p → p < bp + left → stored packed p ≡ 0)
    → Gives (IsWritten packed left value bp) (pack_bits left value bp packed)
unfolding pack_bits
pack_bits-IsWritten zero value bp packed small fits clear = gives packed (record {
  same_length = refl;
  before = λ p l. refl;
  after = λ p l. refl;
  bits = λ j l. absurd (omega arith);
})
pack_bits-IsWritten (suc left) value bp packed small fits clear =
    let inside : bp / 8 < length packed = omega arith in
    let next : ltb (bp + 1) (2 ^ 31) ≡ true = ground arith in
    let bit : u8 (value % 2) ≡ value % 2 = omega arith in
    rw
      (
        bit_and_mask 1 value,
        bit_and_mask 3 bp,
        bit,
        cell-lt packed (bp / 8) 0 inside,
        set_cell-lt packed (bp / 8) (written_byte packed bp value) inside,
        next,
      )
      (Gives-weaken
        (λ q w.
          IsWritten-step packed bp value inside left q (clear bp (omega arith) (omega arith)) w)
        (pack_bits-IsWritten left (value / 2) (bp + 1) (written packed bp value) (omega arith)
          (omega (arith, length-set packed (bp / 8) (written_byte packed bp value)))
          (λ p l m.
            stored-others packed bp value inside p (λ e. absurd (omega arith))
            ∙ clear p (omega arith) (omega arith))))

-- The next bit in its place above the first `j` ones.
next_bit :
    (j w byte b : ℕ)
    → j < 31
    → bit_at byte b ≡ bit_at w j
    → bit_or (w % 2 ^ j) (u32 (bit_and (byte / 2 ^ b) 1 * 2 ^ j)) ≡ w % 2 ^ (j + 1)
next_bit j w byte b h e =
    let digit : bit_and (byte / 2 ^ b) 1 ≡ bit_at w j = bit_and_mask 1 (byte / 2 ^ b) ∙ e in
    let next : j + 1 ≡ suc j = omega arith in
    let low : w % 2 ^ j < 2 ^ j = mod-lt w (two_pow_pos j) in
    let short : 2 ^ j ≤ 2 ^ 31 = pow-le-pow_right (omega arith) {j = 31} (omega arith) in
    let word : u32 (bit_at w j * 2 ^ j) ≡ bit_at w j * 2 ^ j =
      mod-eq_of_lt (grind (arith, mod-lt (w / 2 ^ j) {m = 2} (omega arith))) in
    rw (digit, word, next, mod-suc_bit j w)
      (bit_or_comm (w % 2 ^ j) (bit_at w j * 2 ^ j)
        ∙ bit_or_disjoint j (bit_at w j) (w % 2 ^ j) low)

-- Reading: `value` has the first `j` bits of `w` already.
pub unpack_bits_lem :
    (left j w bp : ℕ) (packed : List ℕ)
    → j + left ≤ 31
    → bp + left < 2 ^ 31
    → bp + left ≤ 8 * length packed
    → ((k : ℕ) → k < left → stored packed (bp + k) ≡ bit_at w (j + k))
    → unpack_bits left j (w % 2 ^ j) bp packed ≡ ok (w % 2 ^ (j + left))
unfolding unpack_bits
unpack_bits_lem zero j w bp packed short small fits is =
    ap (λ (t : ℕ). ok (w % 2 ^ t)) (omega arith)
unpack_bits_lem (suc left) j w bp packed short small fits is =
    let inside : bp / 8 < length packed = omega arith in
    let next : ltb (bp + 1) (2 ^ 31) ≡ true = ground arith in
    rw
      (
        bit_and_mask 3 bp,
        cell-lt packed (bp / 8) 0 inside,
        next,
        next_bit j w (get_or packed (bp / 8) 0) (bp % 8) (omega arith) here,
      )
      (unpack_bits_lem left (j + 1) w (bp + 1) packed (omega arith) (omega arith) (omega arith)
          (λ k l. moved k l)
        ∙ ap (λ (t : ℕ). ok (w % 2 ^ t)) (omega arith))
  where
    here : stored packed bp ≡ bit_at w j
    here =
        let e : bp + 0 ≡ bp = omega arith in
        let f : j + 0 ≡ j = omega arith in
        sym (ap (stored packed) e) ∙ is 0 (omega arith) ∙ ap (bit_at w) f

    moved : (k : ℕ) → k < left → stored packed (bp + 1 + k) ≡ bit_at w (j + 1 + k)
    moved k l =
        let e : bp + suc k ≡ bp + 1 + k = omega arith in
        let f : j + suc k ≡ j + 1 + k = omega arith in
        sym (ap (stored packed) e) ∙ is (suc k) (omega arith) ∙ ap (bit_at w) f
