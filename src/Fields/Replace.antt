-- ===== src/Fields/Replace.antt =====
-- The bytes of the result, each from the word that the code means.
use linux.Base.{
  ℕ, zero, suc, ◌+◌, ◌-◌, ◌*◌, ◌/◌, ◌%◌, ◌^◌, ◌≤◌, ◌<◌, ◌≡◌, refl, ap, ap₂, sym, ◌∙◌, bit_and,
  bit_or, arith,
}
use native.Mathlib.Nat.{
  mod-lt, mod-eq_of_lt, mul-le-mul_right, add-mul-mod_self_left, pow-le-pow_right,
}
use linux.Base.Pow.{two_pow_pos, two_pow_add, shr-lt}
use linux.Base.Word.{u32}
use linux.Base.Digits.{bit_and_mask, bit_or-zero, bit_or_disjoint}
use linux.Fields.{low_bytes_mask, not32, replace_low_nbytes, replace_nbytes}
use linux.Fields.Masks.{and_fields, or_fields}

low_bytes_mask_lem : (n : ℕ) → n ≤ 4 → low_bytes_mask n ≡ 2 ^ (n * 8) - 1
unfolding low_bytes_mask
low_bytes_mask_lem zero h = refl
low_bytes_mask_lem (suc zero) h = refl
low_bytes_mask_lem (suc (suc zero)) h = refl
low_bytes_mask_lem (suc (suc (suc zero))) h = refl
low_bytes_mask_lem (suc (suc (suc (suc zero)))) h = refl
low_bytes_mask_lem (suc (suc (suc (suc (suc n))))) h = absurd (omega arith)

pub less_one : (a b : ℕ) → 0 < a → (a - 1) * b + b ≡ a * b
less_one zero b l = absurd (omega arith)
less_one (suc a) b l = let before : suc a - 1 ≡ a = omega arith in rw before (omega arith)

-- `x & ~(((1 << w) - 1) << s)` clears the field of `w` bits at bit `s`; `rest` are the bits above it.
clear_field :
    (s w rest x : ℕ)
    → s + w + rest ≡ 32
    → x < 2 ^ 32
    → bit_and x (not32 ((2 ^ w - 1) * 2 ^ s)) ≡ x / 2 ^ (s + w) * 2 ^ (s + w) + x % 2 ^ s
clear_field s w rest x e h =
    ap₂ bit_and (sym (split x k)) mask
    ∙ and_fields k (x / 2 ^ k) (2 ^ rest - 1) (x % 2 ^ k) (2 ^ s - 1) (mod-lt x (two_pow_pos k))
        (omega (arith, two_pow_pos s, smaller))
    ∙ ap₂ (λ (a b : ℕ). a * 2 ^ k + b)
        (bit_and_mask rest (x / 2 ^ k)
          ∙ mod-eq_of_lt (shr-lt k rest x (omega (arith, ap (λ (t : ℕ). 2 ^ t) e))))
        (bit_and_mask s (x % 2 ^ k) ∙ low_bits)
  where
    k : ℕ
    k = s + w

    split : (a b : ℕ) → a / 2 ^ b * 2 ^ b + a % 2 ^ b ≡ a
    split a b = grind arith

    smaller : 2 ^ s ≤ 2 ^ k
    smaller = pow-le-pow_right {n = 2} (omega arith) (omega arith)

    whole : 2 ^ k * 2 ^ rest ≡ 2 ^ 32
    whole = sym (two_pow_add k rest) ∙ ap (λ (t : ℕ). 2 ^ t) e

    mask : not32 ((2 ^ w - 1) * 2 ^ s) ≡ (2 ^ rest - 1) * 2 ^ k + (2 ^ s - 1)
    mask = omega (
      arith,
      less_one (2 ^ w) (2 ^ s) (two_pow_pos w),
      less_one (2 ^ rest) (2 ^ k) (two_pow_pos rest),
      two_pow_add s w,
      whole,
      two_pow_pos s,
      two_pow_pos k,
      smaller,
    )

    regroup : (q r c : ℕ) → c ≡ 2 ^ s * 2 ^ w → r + 2 ^ s * (2 ^ w * q) ≡ q * c + r
    regroup q r c f = rw f (grind arith)

    low_bits : x % 2 ^ k % 2 ^ s ≡ x % 2 ^ s
    low_bits =
        sym (add-mul-mod_self_left (x % 2 ^ k) (2 ^ s) (2 ^ w * (x / 2 ^ k)))
        ∙ ap (λ (t : ℕ). t % 2 ^ s)
            (regroup (x / 2 ^ k) (x % 2 ^ k) (2 ^ k) (two_pow_add s w) ∙ split x k)

-- What the code computes for a field of `w` bits at bit `s`.
set_field :
    (s w rest x y : ℕ)
    → s + w + rest ≡ 32
    → x < 2 ^ 32
    → bit_or (bit_and x (not32 (u32 ((2 ^ w - 1) * 2 ^ s)))) (u32 (bit_and y (2 ^ w - 1) * 2 ^ s))
      ≡ x / 2 ^ (s + w) * 2 ^ (s + w) + y % 2 ^ w * 2 ^ s + x % 2 ^ s
set_field s w rest x y e h =
    rw
      (
        bit_and_mask w y,
        fits (2 ^ w - 1) (omega (arith, two_pow_pos w)),
        fits (y % 2 ^ w) below,
        clear_field s w rest x e h,
      )
      (ap₂ bit_or high (omega arith)
        ∙ or_fields s (x / 2 ^ (s + w) * 2 ^ w) (y % 2 ^ w) (x % 2 ^ s) 0 (mod-lt x (two_pow_pos s))
            (two_pow_pos s)
        ∙ rw (bit_or_disjoint w (x / 2 ^ (s + w)) (y % 2 ^ w) below, bit_or-zero (x % 2 ^ s))
            joined)
  where
    below : y % 2 ^ w < 2 ^ w
    below = mod-lt y (two_pow_pos w)

    below_word : 2 ^ (s + w) ≤ 2 ^ 32
    below_word = pow-le-pow_right {n = 2} (omega arith) {j = 32} (omega arith)

    fits : (m : ℕ) → m < 2 ^ w → u32 (m * 2 ^ s) ≡ m * 2 ^ s
    fits m l = omega (
      arith,
      mul-le-mul_right {m = suc m} {n = 2 ^ w} (2 ^ s) l,
      two_pow_add s w,
      below_word,
      two_pow_pos s,
    )

    times : (q a b c : ℕ) → c ≡ a * b → q * c ≡ q * b * a
    times q a b c f = rw f (grind arith)

    moved : x / 2 ^ (s + w) * 2 ^ (s + w) ≡ x / 2 ^ (s + w) * 2 ^ w * 2 ^ s
    moved = times (x / 2 ^ (s + w)) (2 ^ s) (2 ^ w) (2 ^ (s + w)) (two_pow_add s w)

    high : x / 2 ^ (s + w) * 2 ^ (s + w) + x % 2 ^ s ≡ x / 2 ^ (s + w) * 2 ^ w * 2 ^ s + x % 2 ^ s
    high = ap (λ (t : ℕ). t + x % 2 ^ s) moved

    spread : (a b c : ℕ) → (a + b) * c ≡ a * c + b * c
    spread a b c = grind arith

    joined :
        (x / 2 ^ (s + w) * 2 ^ w + y % 2 ^ w) * 2 ^ s + x % 2 ^ s
        ≡ x / 2 ^ (s + w) * 2 ^ (s + w) + y % 2 ^ w * 2 ^ s + x % 2 ^ s
    joined = omega (arith, moved, spread (x / 2 ^ (s + w) * 2 ^ w) (y % 2 ^ w) (2 ^ s))

-- For `n` bytes at byte `i` that lie inside the word, `replace_nbytes` keeps the bytes of `x` above
-- and below them and puts the `n` low bytes of `y` in their place.
pub replace_nbytes_lem :
    (x i n y : ℕ)
    → x < 2 ^ 32
    → i < 4
    → i + n ≤ 4
    → replace_nbytes x i n y
      ≡ x / 2 ^ ((i + n) * 8) * 2 ^ ((i + n) * 8) + y % 2 ^ (n * 8) * 2 ^ (i * 8) + x % 2 ^ (i * 8)
unfolding replace_nbytes
replace_nbytes_lem x i n y hx hi h =
    rw (low_bytes_mask_lem n (omega arith), shift, bytes)
      (set_field (i * 8) (n * 8) (32 - (i * 8 + n * 8)) x y (omega arith) hx)
  where
    shift : u32 (i * 2 ^ 3) ≡ i * 8
    shift = omega arith

    bytes : (i + n) * 8 ≡ i * 8 + n * 8
    bytes = omega arith

-- For up to four low bytes, `replace_low_nbytes` is `replace_nbytes` at byte 0.
pub replace_low_nbytes-replace_nbytes :
    (dst src n : ℕ) → n ≤ 4 → replace_low_nbytes dst src n ≡ replace_nbytes dst 0 n src
unfolding replace_low_nbytes replace_nbytes
replace_low_nbytes-replace_nbytes dst src n h = rw (low_bytes_mask_lem n h) (
    ap₂ (λ (a b : ℕ). bit_or (bit_and dst (not32 a)) b)
      (sym (unmoved (2 ^ (n * 8) - 1) (omega (arith, fits))))
      (sym (unmoved (bit_and src (2 ^ (n * 8) - 1)) masked)))
  where
    fits : 2 ^ (n * 8) ≤ 2 ^ 32
    fits = pow-le-pow_right {n = 2} (omega arith) {j = 32} (omega arith)

    masked : bit_and src (2 ^ (n * 8) - 1) < 2 ^ 32
    masked = omega (arith, fits, bit_and_mask (n * 8) src, mod-lt src (two_pow_pos (n * 8)))

    unmoved : (m : ℕ) → m < 2 ^ 32 → u32 (m * 2 ^ 0) ≡ m
    unmoved m l = omega arith
