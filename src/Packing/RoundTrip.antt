-- ===== src/Packing/RoundTrip.antt =====
-- Unpacking gives the packed numbers back.
use linux.Base.{
  ℕ, zero, suc, ◌+◌, ◌-◌, ◌*◌, ◌/◌, ◌%◌, ◌^◌, ◌≤◌, ◌<◌, ◌≡◌, refl, ap, sym, ◌∙◌, arith, List, [],
  ◌∷◌, length, length-set, get_or, set, ltb, leb, ◌==◌, if◌then◌else◌, bit_and, true, false,
  ℕ_discrete,
}
use linux.Base.Arrays.{cell-lt, set_cell-lt, get_or-set}
use linux.Base.Bits.{bit_at, bit_at-mod, bit_at-none}
use linux.Base.Digits.{bit_and_mask}
use linux.Base.Pow.{two_pow_pos}
use linux.Base.Run.{ok, Gives, gives, Gives-then, Gives-weaken}
use linux.Base.Word.{u8, u32}
use native.Mathlib.Nat.{mod-lt, mod-eq_of_lt, mod-mod, mod-one, pow-le-pow_right}
use linux.Packing.{
  bytes_for, low_mask, cleared, clear, pack_from, pack_indices, unpack_bits, unpack_from,
  unpack_indices,
}
use linux.Packing.Stored.{stored, IsWritten, pack_bits-IsWritten, unpack_bits_lem}

-- The numbers from `i` on, `left` of them, stand in the array one after the other.
abbrev Holds : (idx : List ℕ) (bits i left : ℕ) → List ℕ → Type 0
Holds idx bits i left q =
    (k j : ℕ)
    → i ≤ k
    → k < i + left
    → j < bits
    → stored q (k * bits + j) ≡ bit_at (get_or idx k 0) j

products :
    (i left bits : ℕ)
    → ((i + suc left) * bits ≡ i * bits + bits + left * bits)
      × ((i + 1) * bits ≡ i * bits + bits)
      × ((i + 1 + left) * bits ≡ i * bits + bits + left * bits)
products i left bits = (grind arith, grind arith, grind arith)

module _ (idx : List ℕ) (bits : ℕ) where
  record IsPacked (packed : List ℕ) (i left : ℕ) (q : List ℕ) : Type 0 where
    same_length : length q ≡ length packed
    before : (p : ℕ) → p < i * bits → stored q p ≡ stored packed p
    holds : Holds idx bits i left q

  -- One number and those that follow it.
  IsPacked-step :
      (packed q r : List ℕ) (i left : ℕ)
      → IsWritten packed bits (get_or idx i 0 % 2 ^ bits) (i * bits) q
      → IsPacked q (i + 1) left r
      → IsPacked packed i (suc left) r
  IsPacked-step packed q r i left w h =
      let next = (products i left bits).1 in
      record {
        same_length = h.same_length ∙ w.same_length;
        before = λ p l. h.before p (omega arith) ∙ w.before p l;
        holds = holds;
      }
    where
      here : (j : ℕ) → j < bits → stored r (i * bits + j) ≡ bit_at (get_or idx i 0) j
      here j l =
          let next = (products i left bits).1 in
          h.before (i * bits + j) (omega arith) ∙ w.bits j l ∙ bit_at-mod bits j (get_or idx i 0) l

      holds : Holds idx bits i (suc left) r
      holds k j low high l = elim (ℕ_discrete i k) [
        | yes e ↦
            ap (λ (t : ℕ). stored r (t * bits + j)) (sym e)
            ∙ here j l
            ∙ ap (λ (t : ℕ). bit_at (get_or idx t 0) j) e
        | no ne ↦ h.holds k j (omega arith) (omega arith) l
      ]

  pack_from-IsPacked :
      (left i : ℕ) (packed : List ℕ)
      → i + left ≤ length idx
      → (i + left) * bits < 2 ^ 31
      → (i + left) * bits ≤ 8 * length packed
      → ((p : ℕ) → i * bits ≤ p → p < (i + left) * bits → stored packed p ≡ 0)
      → Gives (IsPacked packed i left) (pack_from left i idx bits (2 ^ bits - 1) packed)
  unfolding pack_from
  pack_from-IsPacked zero i packed inside small fits clear = gives packed (record {
    same_length = refl;
    before = λ p l. refl;
    holds = λ k j low high l. absurd (omega arith);
  })
  pack_from-IsPacked (suc left) i packed inside small fits clear =
      let (whole, next, rest) = products i left bits in
      let representable : ltb (i * bits) (2 ^ 31) ≡ true = ground arith in
      rw (cell-lt idx i 0 (omega arith), representable, bit_and_mask bits (get_or idx i 0))
        (Gives-then {P = IsWritten packed bits (get_or idx i 0 % 2 ^ bits) (i * bits)}
          (λ q w.
            Gives-weaken (λ r h. IsPacked-step packed q r i left w h)
              (pack_from-IsPacked left (i + 1) q (omega arith) (omega arith)
                (omega (arith, w.same_length))
                (λ p low high. w.after p (omega arith) ∙ clear p (omega arith) (omega arith))))
          (pack_bits-IsWritten bits (get_or idx i 0 % 2 ^ bits) (i * bits) packed (omega arith)
            (omega arith) (λ p low high. clear p low (omega arith))))

  -- The numbers read so far, each to its width; the other cells are kept.
  abbrev IsUnpacked : (out : List ℕ) (i left : ℕ) → List ℕ → Type 0
  IsUnpacked out i left r =
      (length r ≡ length out)
      × ((k : ℕ) → i ≤ k → k < i + left → get_or r k 0 ≡ get_or idx k 0 % 2 ^ bits)
      × ((k : ℕ) → k < i → get_or r k 0 ≡ get_or out k 0)
      × ((k : ℕ) → i + left ≤ k → get_or r k 0 ≡ get_or out k 0)

  value_byte : (w : ℕ) → bits ≤ 8 → u8 (bit_and (w % 2 ^ bits) (2 ^ bits - 1)) ≡ w % 2 ^ bits
  value_byte w h =
      let short : 2 ^ bits ≤ 2 ^ 8 = pow-le-pow_right (omega arith) {j = 8} h in
      let low : w % 2 ^ bits < 2 ^ bits = mod-lt w (two_pow_pos bits) in
      ap u8 (bit_and_mask bits (w % 2 ^ bits) ∙ mod-mod w (2 ^ bits)) ∙ mod-eq_of_lt (omega arith)

  unpack_one :
      (i : ℕ) (q : List ℕ)
      → bits ≤ 8
      → i * bits + bits < 2 ^ 31
      → i * bits + bits ≤ 8 * length q
      → Holds idx bits i 1 q
      → unpack_bits bits 0 0 (i * bits) q ≡ ok (get_or idx i 0 % 2 ^ bits)
  unpack_one i q h small fits holds =
      let start : get_or idx i 0 % 2 ^ 0 ≡ 0 = mod-one (get_or idx i 0) in
      ap (λ (t : ℕ). unpack_bits bits 0 t (i * bits) q) (sym start)
      ∙ unpack_bits_lem bits 0 (get_or idx i 0) (i * bits) q (omega arith) small fits
          (λ k l. bit k l)
      ∙ ap (λ (t : ℕ). ok (get_or idx i 0 % 2 ^ t)) (omega arith)
    where
      bit : (k : ℕ) → k < bits → stored q (i * bits + k) ≡ bit_at (get_or idx i 0) (0 + k)
      bit k l =
          let e : k ≡ 0 + k = omega arith in
          holds i k (omega arith) (omega arith) l ∙ ap (bit_at (get_or idx i 0)) e

  unpack_from-IsUnpacked :
      (left i : ℕ) (q out : List ℕ)
      → bits ≤ 8
      → i + left ≤ length out
      → (i + left) * bits < 2 ^ 31
      → (i + left) * bits ≤ 8 * length q
      → Holds idx bits i left q
      → Gives (IsUnpacked out i left) (unpack_from left i q bits (2 ^ bits - 1) out)
  unfolding unpack_from
  unpack_from-IsUnpacked zero i q out h room small fits holds =
      gives out (refl, λ k low high. absurd (omega arith), λ k l. refl, λ k l. refl)
  unpack_from-IsUnpacked (suc left) i q out h room small fits holds =
      let (whole, next, rest) = products i left bits in
      let representable : ltb (i * bits) (2 ^ 31) ≡ true = ground arith in
      let value = get_or idx i 0 % 2 ^ bits in
      rw
        (
          representable,
          unpack_one i q h (omega arith) (omega arith)
              (λ k j low high l. holds k j low (omega arith) l),
          value_byte (get_or idx i 0) h,
          set_cell-lt out i (get_or idx i 0 % 2 ^ bits) (omega arith),
        )
        (Gives-weaken (λ r p. IsUnpacked-step r p)
          (unpack_from-IsUnpacked left (i + 1) q (set out i (get_or idx i 0 % 2 ^ bits)) h
            (omega (arith, length-set out i (get_or idx i 0 % 2 ^ bits))) (omega arith)
            (omega arith) (λ k j low high l. holds k j (omega arith) (omega arith) l)))
    where
      kept :
          (k : ℕ)
          → get_or (set out i (get_or idx i 0 % 2 ^ bits)) k 0
            ≡ (if i == k then get_or idx i 0 % 2 ^ bits else get_or out k 0)
      kept k = get_or-set out i k (get_or idx i 0 % 2 ^ bits) 0 (omega arith)

      IsUnpacked-step :
          (r : List ℕ)
          → IsUnpacked (set out i (get_or idx i 0 % 2 ^ bits)) (i + 1) left r
          → IsUnpacked out i (suc left) r
      IsUnpacked-step r (same, read, before, after) = (
        same ∙ length-set out i (get_or idx i 0 % 2 ^ bits),
        λ k low high. elim (ℕ_discrete i k) [
          | yes e ↦
              let here : (i == k) ≡ true = ground arith in
              before k (omega arith)
              ∙ rw (kept k, here) (ap (λ (t : ℕ). get_or idx t 0 % 2 ^ bits) e)
          | no ne ↦ read k (omega arith) (omega arith)
        ],
        λ k l.
            let other : (i == k) ≡ false = ground arith in
            before k (omega arith) ∙ rw (kept k, other) refl,
        λ k l.
            let other : (i == k) ≡ false = ground arith in
            after k (omega arith) ∙ rw (kept k, other) refl,
      )

length-cleared : (a : List ℕ) (n : ℕ) → length (cleared a n) ≡ length a
length-cleared a zero = refl
length-cleared [] (suc n) = refl
length-cleared (x ∷ a) (suc n) = ap suc (length-cleared a n)

get_or-cleared : (a : List ℕ) (n k : ℕ) → k < n → get_or (cleared a n) k 0 ≡ 0
get_or-cleared a zero k h = absurd (omega arith)
get_or-cleared [] (suc n) k h = refl
get_or-cleared (x ∷ a) (suc n) zero h = refl
get_or-cleared (x ∷ a) (suc n) (suc k) h = get_or-cleared a n k (omega arith)

stored-cleared : (a : List ℕ) (n p : ℕ) → p < 8 * n → stored (cleared a n) p ≡ 0
stored-cleared a n p h =
    ap (λ (t : ℕ). bit_at t (p % 8)) (get_or-cleared a n (p / 8) (omega arith))
    ∙ bit_at-none (p % 8)

mask-value : (bits : ℕ) → bits ≤ 8 → u32 (1 * 2 ^ bits) - 1 ≡ 2 ^ bits - 1
mask-value bits h =
    let short : 2 ^ bits ≤ 2 ^ 8 = pow-le-pow_right (omega arith) {j = 8} h in omega arith

low_mask_lem : (bits x : ℕ) → bits ≤ 8 → bit_and x (low_mask bits) ≡ x % 2 ^ bits
unfolding low_mask
low_mask_lem bits x h =
    let short : 2 ^ bits ≤ 2 ^ 8 = pow-le-pow_right (omega arith) {j = 8} h in
    let byte : u8 (2 ^ bits - 1) ≡ 2 ^ bits - 1 = omega (arith, two_pow_pos bits) in
    rw (mask-value bits h, byte) (bit_and_mask bits x)

-- What the packing of `n` numbers leaves in the array.
packed_lem :
    (idx packed : List ℕ) (n bits : ℕ)
    → bits ≤ 8
    → n ≤ length idx
    → n * bits + 7 < 2 ^ 31
    → (n * bits + 7) / 8 ≤ length packed
    → Gives
        (IsPacked idx bits (cleared packed ((n * bits + 7) / 8)) 0 n)
        (pack_indices idx packed n bits)
unfolding pack_indices bytes_for
packed_lem idx packed n bits h inside small fits =
    let product : ltb (n * bits) (2 ^ 31) ≡ true = ground arith in
    let sum : ltb (n * bits + 7) (2 ^ 31) ≡ true = ground arith in
    let room : leb ((n * bits + 7) / 8) (length packed) ≡ true = ground arith in
    let same = length-cleared packed ((n * bits + 7) / 8) in
    rw (product, sum, room, mask-value bits h)
      (pack_from-IsPacked idx bits n 0 (cleared packed ((n * bits + 7) / 8)) (omega arith)
        (omega (arith, whole)) (omega (arith, whole, same))
        (λ p low high. stored-cleared packed ((n * bits + 7) / 8) p (omega (arith, whole))))
  where
    whole : (0 + n) * bits ≡ n * bits
    whole = ap (λ (t : ℕ). t * bits) (omega arith)

-- `n` numbers of at most 8 bits each: where the arrays are long enough and the count of bits fits in
-- an `int`, packing and unpacking read and write inside them, and the first `n` cells of the result
-- are the numbers cut to their low bits; the cells after them are kept.
pub unpack_indices-pack_indices :
    (idx packed out : List ℕ) (n bits : ℕ)
    → bits ≤ 8
    → n ≤ length idx
    → n ≤ length out
    → n * bits + 7 < 2 ^ 31
    → (n * bits + 7) / 8 ≤ length packed
    → Gives
        (λ q.
          Gives
            (λ r.
              (length r ≡ length out)
              × ((k : ℕ) → k < n → get_or r k 0 ≡ bit_and (get_or idx k 0) (low_mask bits))
              × ((k : ℕ) → n ≤ k → get_or r k 0 ≡ get_or out k 0))
            (unpack_indices q out n bits))
        (pack_indices idx packed n bits)
unfolding unpack_indices
unpack_indices-pack_indices idx packed out n bits h inside room small fits =
    Gives-weaken
      (λ q p. rw (mask-value bits h) (
        Gives-weaken
          (λ r (same, read, before, after). (
            same,
            λ k l. read k (omega arith) (omega arith) ∙ sym (low_mask_lem bits (get_or idx k 0) h),
            λ k l. after k (omega arith),
          ))
          (unpack_from-IsUnpacked idx bits n 0 q out h (omega arith) (omega (arith, whole))
            (omega (arith, whole, p.same_length, same_length)) p.holds)))
      (packed_lem idx packed n bits h inside small fits)
  where
    whole : (0 + n) * bits ≡ n * bits
    whole = ap (λ (t : ℕ). t * bits) (omega arith)

    same_length : length (cleared packed ((n * bits + 7) / 8)) ≡ length packed
    same_length = length-cleared packed ((n * bits + 7) / 8)
