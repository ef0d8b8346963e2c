-- ===== src/Half/Widen.antt =====
-- Widening by the fields of the half: its sign, its exponent and its fraction.
use linux.Base.{
  ℕ, zero, suc, ◌+◌, ◌-◌, ◌*◌, ◌/◌, ◌%◌, ◌^◌, ◌≤◌, ◌<◌, ◌≡◌, ◌≢◌, ap, ◌∙◌, arith, ◌==◌, bit_and,
  bit_or, false, dec_lt,
}
use linux.Base.Digits.{bit_and_mask, bit_and-shl, bit_or_disjoint}
use linux.Base.Int.{pos, negsuc, ◌+ℤ◌, ◌-ℤ◌}
use linux.Base.Run.{ok, Gives, gives, Gives-value}
use linux.Base.Word.{u32, to_u32}
use native.Mathlib.Nat.{mod-eq_of_lt, pow-le-pow_right}
use linux.Half.{widen_subnormal, half_to_float32_bits}
use linux.Half.Normalize.{normalize_loop-IsNormalized}

-- A float by its fields.
abbrev pub float_of : (sign exp frac : ℕ) → ℕ
float_of sign exp frac = sign * 2 ^ 31 + (exp * 2 ^ 23 + frac)

abbrev pub half_sign : ℕ → ℕ
half_sign h = h / 2 ^ 15

abbrev pub half_exp : ℕ → ℕ
half_exp h = h / 2 ^ 10 % 2 ^ 5

abbrev pub half_frac : ℕ → ℕ
half_frac h = h % 2 ^ 10

sign_field : (h : ℕ) → h < 2 ^ 16 → u32 (bit_and h 0x8000 * 2 ^ 16) ≡ h / 2 ^ 15 * 2 ^ 31
sign_field h l = omega (arith, bit_and-shl 15 h 1, bit_and_mask 1 (h / 2 ^ 15))

join_float :
    (sign exp frac : ℕ)
    → sign < 2
    → exp < 2 ^ 8
    → frac < 2 ^ 10
    → bit_or (bit_or (sign * 2 ^ 31) (exp * 2 ^ 23)) (frac * 2 ^ 13)
      ≡ float_of sign exp (frac * 2 ^ 13)
join_float sign exp frac h k l =
    let upper : bit_or (sign * 2 ^ 31) (exp * 2 ^ 23) ≡ (sign * 2 ^ 8 + exp) * 2 ^ 23 =
      bit_or_disjoint 31 sign (exp * 2 ^ 23) (omega arith) ∙ omega arith in
    rw (upper, bit_or_disjoint 23 (sign * 2 ^ 8 + exp) (frac * 2 ^ 13) (omega arith)) (omega arith)

raised_exponent : (j : ℕ) → j ≤ 13 → to_u32 (negsuc 13 -ℤ pos j +ℤ pos 127) ≡ 113 - j
unfolding ◌+ℤ◌ ◌-ℤ◌
raised_exponent j h = ground arith

-- The places that a fraction below the first bit is moved by.
places_bounds :
    (x y j : ℕ) → 0 < x → x < 1024 → y ≡ x * 2 ^ j → 1024 ≤ y → y < 2048 → (1 ≤ j) × (j ≤ 10)
places_bounds x y zero p h e low high = absurd (omega arith)
places_bounds x y (suc j) p h e low high = elim (dec_lt (suc j) 11) [
  | yes few ↦ (omega arith, omega arith)
  | no many ↦
      let far : 2 ^ 11 ≤ 2 ^ suc j = pow-le-pow_right (omega arith) {i = 11} (omega arith) in
      absurd (grind arith)
]

-- What widening makes of a subnormal half: `j` places up, its first bit becomes the implicit one.
abbrev pub IsRaised : (sign frac : ℕ) → ℕ → Type 0
IsRaised sign frac w =
    (j : ℕ) × (1 ≤ j)
    × (j ≤ 10)
    × (1024 ≤ frac * 2 ^ j)
    × (frac * 2 ^ j < 2048)
    × (w ≡ float_of sign (113 - j) ((frac * 2 ^ j - 1024) * 2 ^ 13))

widen_subnormal-IsRaised :
    (sign frac : ℕ)
    → sign < 2
    → 0 < frac
    → frac < 1024
    → Gives (IsRaised sign frac) (widen_subnormal (sign * 2 ^ 31) frac)
unfolding widen_subnormal
widen_subnormal-IsRaised sign frac h p l =
    let ((y, e), run, (j, whole, exponent, high, low)) = Gives-value (
      normalize_loop-IsNormalized (λ x. u32 x) 10 (λ n k. mod-eq_of_lt (omega arith)) 10 frac
        (negsuc 13) (omega arith) (omega arith)) in
    let (some_places, few_places) = places_bounds frac y j p l whole high low in
    let masked : bit_and y 0x3ff ≡ y - 1024 = omega (arith, bit_and_mask 10 y) in
    let field : u32 ((113 - j) * 2 ^ 23) ≡ (113 - j) * 2 ^ 23 = omega arith in
    let fraction : u32 ((y - 1024) * 2 ^ 13) ≡ (y - 1024) * 2 ^ 13 = omega arith in
    rw (run, exponent, raised_exponent j (omega arith), masked, field, fraction)
      (gives _ (
        j,
        some_places,
        few_places,
        omega arith,
        omega arith,
        join_float sign (113 - j) (y - 1024) h (omega arith) (omega arith)
            ∙ ap (λ (t : ℕ). float_of sign (113 - j) ((t - 1024) * 2 ^ 13)) whole,
      ))

-- The other three cases.
module _ (h : ℕ) (l : h < 2 ^ 16) where
  pub widen-special :
      half_exp h ≡ 31
      → half_to_float32_bits h ≡ ok (float_of (half_sign h) 255 (half_frac h * 2 ^ 13))
  unfolding half_to_float32_bits
  widen-special e =
      let fraction : u32 (half_frac h * 2 ^ 13) ≡ half_frac h * 2 ^ 13 = omega arith in
      rw (sign_field h l, bit_and_mask 5 (h / 2 ^ 10), e, bit_and_mask 10 h, fraction)
        (ap ok
          (join_float (half_sign h) 255 (half_frac h) (omega arith) (omega arith) (omega arith)))

  pub widen-normal :
      half_exp h ≢ 31
      → half_exp h ≢ 0
      → half_to_float32_bits h
        ≡ ok (float_of (half_sign h) (half_exp h + 112) (half_frac h * 2 ^ 13))
  unfolding half_to_float32_bits
  widen-normal ne nz =
      let fraction : u32 (half_frac h * 2 ^ 13) ≡ half_frac h * 2 ^ 13 = omega arith in
      let field : u32 (u32 (half_exp h + 112) * 2 ^ 23) ≡ (half_exp h + 112) * 2 ^ 23 =
        omega arith in
      let finite : (half_exp h == 31) ≡ false = ground arith in
      let normal : (half_exp h == 0) ≡ false = ground arith in
      rw
        (
          sign_field h l,
          bit_and_mask 5 (h / 2 ^ 10),
          bit_and_mask 10 h,
          finite,
          normal,
          fraction,
          field,
        )
        (ap ok (
          join_float (half_sign h) (half_exp h + 112) (half_frac h) (omega arith) (omega arith)
            (omega arith)))

  pub widen-zero :
      half_exp h ≡ 0 → half_frac h ≡ 0 → half_to_float32_bits h ≡ ok (float_of (half_sign h) 0 0)
  unfolding half_to_float32_bits
  widen-zero e f =
      rw (sign_field h l, bit_and_mask 5 (h / 2 ^ 10), e, bit_and_mask 10 h, f)
        (ap ok (omega arith))

  pub widen-subnormal :
      half_exp h ≡ 0
      → half_frac h ≢ 0
      → Gives (IsRaised (half_sign h) (half_frac h)) (half_to_float32_bits h)
  unfolding half_to_float32_bits
  widen-subnormal e ne =
      let other : (half_frac h == 0) ≡ false = ground arith in
      rw (sign_field h l, bit_and_mask 5 (h / 2 ^ 10), e, bit_and_mask 10 h, other)
        (widen_subnormal-IsRaised (half_sign h) (half_frac h) (omega arith) (omega arith)
          (omega arith))
