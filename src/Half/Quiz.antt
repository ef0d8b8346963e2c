-- ===== src/Half/Quiz.antt =====
-- The quiz's conversion, which rounds in two places, against the full one.
use linux.Base.{
  ℕ, zero, suc, ◌+◌, ◌-◌, ◌*◌, ◌/◌, ◌%◌, ◌^◌, ◌≤◌, ◌<◌, ◌≡◌, ◌≢◌, refl, ◌∙◌, arith, leb, ◌==◌,
  if◌then◌else◌, bit_and, bit_or, true, false, ℕ_discrete, dec_lt,
}
use linux.Base.Digits.{bit_and_mask, bit_or_disjoint, bit_or_comm}
use linux.Base.Int.{ℤ, pos, ◌+ℤ◌, ◌-ℤ◌, ltb_ℤ, leb_ℤ}
use linux.Base.Run.{ok}
use linux.Base.Word.{u16, u32}
use native.Mathlib.Nat.{pow-le-pow_right}
use linux.Float.{round_shift_right_even_u64}
use linux.Float.Round.{rounded, shift-rounded}
use linux.Half.{
  joined_quiz, carried_quiz, quiz_subnormal, quiz_normal, float32_to_float16_quiz,
  float32_to_float16_full,
}
use linux.Half.Agree.{sign_of, exp_of, frac_of, full-finite, full-special}
use linux.Half.Parts.{half_bits}
use linux.Half.Narrow.{half_bits-small, half_bits-normal, half_bits-zero}
use linux.Half.Rounding.{round_13_bounds, round_far, quotient-lt, join_sign, join_exponent}

one_place : (s : ℕ) → s < 32 → u32 (1 * 2 ^ s) ≡ 2 ^ s
one_place s h = omega (arith, pow-le-pow_right {n = 2} (omega arith) {i = s} {j = 31} (omega arith))

-- A shift of 14 to 24 places is the rounding shift, written out.
quiz_subnormal-near :
    (sign frac s : ℕ) (hexp : ℤ)
    → sign < 2
    → frac < 2 ^ 23
    → 13 ≤ s
    → s < 24
    → pos 14 -ℤ hexp ≡ pos (suc s)
    → quiz_subnormal (u32 (sign * 2 ^ 15)) frac hexp
      ≡ sign * 2 ^ 15 + round_shift_right_even_u64 (2 ^ 23 + frac) (suc s)
unfolding quiz_subnormal rounded
quiz_subnormal-near sign frac s hexp h k l m places =
    let mant : bit_or frac 0x800000 ≡ 2 ^ 23 + frac =
      bit_or_comm frac 0x800000 ∙ bit_or_disjoint 23 1 frac k in
    let word : suc s % 2 ^ 32 ≡ suc s = omega arith in
    let before : suc s - 1 ≡ s = omega arith in
    let place : u32 (1 * 2 ^ suc s) ≡ 2 ^ suc s = one_place (suc s) (omega arith) in
    let half : u32 (1 * 2 ^ s) ≡ 2 ^ s = one_place s (omega arith) in
    let few = quotient-lt (2 ^ 23 + frac) (suc s) (omega arith) (omega arith) in
    let upper = (2 ^ 23 + frac) / 2 ^ suc s in
    rw
      (
        places,
        mant,
        word,
        before,
        place,
        half,
        bit_and_mask (suc s) (2 ^ 23 + frac),
        bit_and_mask 1 ((2 ^ 23 + frac) / 2 ^ suc s),
        shift-rounded (2 ^ 23 + frac) s (omega arith) (omega arith),
      )
      (ground (arith, join_sign sign upper h, join_sign sign (upper + 1) h))

quiz_subnormal-far :
    (sign frac s : ℕ) (hexp : ℤ)
    → sign < 2
    → 24 < s
    → pos 14 -ℤ hexp ≡ pos s
    → quiz_subnormal (u32 (sign * 2 ^ 15)) frac hexp ≡ sign * 2 ^ 15
unfolding quiz_subnormal
quiz_subnormal-far sign frac s hexp h far places =
    let beyond : ltb_ℤ (pos 24) (pos s) ≡ true = ground arith in rw (places, beyond) (omega arith)

quiz_subnormal_lem :
    (sign frac s : ℕ) (hexp : ℤ)
    → sign < 2
    → frac < 2 ^ 23
    → 14 ≤ s
    → pos 14 -ℤ hexp ≡ pos s
    → quiz_subnormal (u32 (sign * 2 ^ 15)) frac hexp
      ≡ sign * 2 ^ 15 + round_shift_right_even_u64 (2 ^ 23 + frac) s
quiz_subnormal_lem sign frac zero hexp h k l places = absurd (omega arith)
quiz_subnormal_lem sign frac (suc s) hexp h k l places = elim (dec_lt s 24) [
  | yes near ↦ quiz_subnormal-near sign frac s hexp h k (omega arith) near places
  | no far ↦
      quiz_subnormal-far sign frac (suc s) hexp h (omega arith) places
      ∙ omega (arith, round_far (2 ^ 23 + frac) (suc s) (omega arith) (omega arith))
]

next_exponent : (n : ℕ) → pos n +ℤ pos 1 ≡ pos (n + 1)
unfolding ◌+ℤ◌
next_exponent n = ground arith

joined_quiz_lem :
    (sign n r : ℕ)
    → sign < 2
    → n < 32
    → r < 1024
    → joined_quiz (u32 (sign * 2 ^ 15)) (pos n) r ≡ sign * 2 ^ 15 + (n * 1024 + r)
unfolding joined_quiz
joined_quiz_lem sign n r h k l = join_exponent sign n r h k l

carried_quiz_lem :
    (sign n q : ℕ)
    → sign < 2
    → n < 31
    → q ≤ 1024
    → carried_quiz (u32 (sign * 2 ^ 15)) (pos n) q ≡ sign * 2 ^ 15 + (n * 1024 + q)
unfolding carried_quiz
carried_quiz_lem sign n q h k l = rw (next_exponent n) (
    ground (
      arith,
      joined_quiz_lem sign n q h,
      joined_quiz_lem sign (n + 1) 0 h,
      join_sign sign 0x7c00 h (omega arith),
    ))

-- The fraction of a normal float is rounded as its significand, whose first bit has weight 1024.
quiz_normal_lem :
    (sign frac n : ℕ)
    → sign < 2
    → frac < 2 ^ 23
    → 0 < n
    → n < 31
    → quiz_normal (u32 (sign * 2 ^ 15)) frac (pos n)
      ≡ sign * 2 ^ 15 + ((n - 1) * 1024 + round_shift_right_even_u64 (2 ^ 23 + frac) 13)
unfolding quiz_normal rounded
quiz_normal_lem sign frac n h k p l =
    let quotient : (2 ^ 23 + frac) / 2 ^ 13 ≡ 1024 + frac / 2 ^ 13 = omega arith in
    let remainder : (2 ^ 23 + frac) % 2 ^ 13 ≡ frac % 2 ^ 13 = omega arith in
    let word : u32 (frac / 2 ^ 13 + 1) ≡ frac / 2 ^ 13 + 1 = omega arith in
    rw
      (
        bit_and_mask 13 frac,
        bit_and_mask 1 (frac / 2 ^ 13),
        shift-rounded (2 ^ 23 + frac) 12 (omega arith) (omega arith),
        quotient,
        remainder,
        word,
      )
      (ground (
        arith,
        joined_quiz_lem sign n (frac / 2 ^ 13) h,
        carried_quiz_lem sign n (frac / 2 ^ 13 + 1) h,
      ))

quiz_exponents :
    (exp : ℕ)
    → (exp ≤ 112 → pos 14 -ℤ (pos exp -ℤ pos 112) ≡ pos (126 - exp))
      × (112 ≤ exp → pos exp -ℤ pos 112 ≡ pos (exp - 112))
unfolding ◌-ℤ◌
quiz_exponents exp = (λ h. ground arith, λ h. ground arith)

-- The exponent range decides which of the two roundings is done.
quiz-range :
    (hexp : ℤ) (exp infinity subnormal normal : ℕ)
    → hexp ≡ pos exp -ℤ pos 112
    → (if leb_ℤ (pos 31) hexp then infinity else if leb_ℤ hexp (pos 0) then subnormal else normal)
      ≡ (if leb 143 exp then infinity else if leb exp 112 then subnormal else normal)
unfolding ◌-ℤ◌
quiz-range hexp exp infinity subnormal normal e = rw e (ground arith)

-- By the exponent, of a finite float that is not below the normal ones.
quiz_rounds :
    (sign exp frac : ℕ)
    → sign < 2
    → 0 < exp
    → exp < 255
    → frac < 2 ^ 23
    → (if leb 143 exp
        then u16 (bit_or (u32 (sign * 2 ^ 15)) 0x7c00)
        else if leb exp 112
        then quiz_subnormal (u32 (sign * 2 ^ 15)) frac (pos exp -ℤ pos 112)
        else quiz_normal (u32 (sign * 2 ^ 15)) frac (pos exp -ℤ pos 112))
      ≡ sign * 2 ^ 15 + half_bits exp frac
quiz_rounds sign exp frac h p k l = elim (dec_lt 112 exp) [
  | no small ↦
      let few : leb 143 exp ≡ false = ground arith in
      let least : leb exp 112 ≡ true = ground arith in
      rw (few, least, half_bits-small exp frac p (omega arith))
        (quiz_subnormal_lem sign frac (126 - exp) (pos exp -ℤ pos 112) h l (omega arith)
          ((quiz_exponents exp).0 (omega arith)))
  | yes large ↦
      let more : leb exp 112 ≡ false = ground arith in
      let (low, high) = round_13_bounds frac l in
      rw (more, (quiz_exponents exp).1 (omega arith), half_bits-normal exp frac large)
        (ground
          (arith, join_sign sign 0x7c00 h (omega arith), quiz_normal_lem sign frac (exp - 112) h l))
]

pub quiz-finite :
    (uf : ℕ)
    → uf < 2 ^ 32
    → exp_of uf ≢ 255
    → float32_to_float16_quiz uf ≡ sign_of uf * 2 ^ 15 + half_bits (exp_of uf) (frac_of uf)
unfolding float32_to_float16_quiz
quiz-finite uf h ne =
    let finite : (exp_of uf == 255) ≡ false = ground arith in
    let sign_bit : bit_and (uf / 2 ^ 31) 1 ≡ uf / 2 ^ 31 =
      omega (arith, bit_and_mask 1 (uf / 2 ^ 31)) in
    rw
      (
        sign_bit,
        bit_and_mask 8 (uf / 2 ^ 23),
        bit_and_mask 23 uf,
        finite,
        quiz-range (pos (exp_of uf) -ℤ pos 112) (exp_of uf)
            (u16 (bit_or (u32 (sign_of uf * 2 ^ 15)) 0x7c00))
            (quiz_subnormal (u32 (sign_of uf * 2 ^ 15)) (frac_of uf) (pos (exp_of uf) -ℤ pos 112))
            (quiz_normal (u32 (sign_of uf * 2 ^ 15)) (frac_of uf) (pos (exp_of uf) -ℤ pos 112))
            refl,
      )
      (elim (ℕ_discrete (exp_of uf) 0) [
        | yes e ↦ rw e (omega (arith, half_bits-zero (frac_of uf)))
        | no ne0 ↦
            let normal : (exp_of uf == 0) ≡ false = ground arith in
            rw normal (
              quiz_rounds (sign_of uf) (exp_of uf) (frac_of uf) (omega arith) (omega arith)
                (omega arith) (omega arith))
      ])

pub quiz-special :
    (uf : ℕ)
    → uf < 2 ^ 32
    → exp_of uf ≡ 255
    → float32_to_float16_quiz uf
      ≡ sign_of uf * 2 ^ 15 + (if frac_of uf == 0 then 0x7c00 else 0x7e00)
unfolding float32_to_float16_quiz
quiz-special uf h e =
    let sign_bit : bit_and (uf / 2 ^ 31) 1 ≡ uf / 2 ^ 31 =
      omega (arith, bit_and_mask 1 (uf / 2 ^ 31)) in
    rw
      (
        sign_bit,
        bit_and_mask 8 (uf / 2 ^ 23),
        bit_and_mask 23 uf,
        e,
        join_sign (sign_of uf) 0x7c00 (omega arith) (omega arith),
        join_sign (sign_of uf) 0x7e00 (omega arith) (omega arith),
      )
      (ground arith)

-- The quiz's conversion gives what the full one gives on every pattern but a NaN; of a NaN it keeps
-- the sign and gives the pattern 0x7e00, whatever the payload.
pub float32_to_float16_quiz-float32_to_float16_full :
    (uf : ℕ)
    → uf < 2 ^ 32
    → ((exp_of uf ≡ 255 → frac_of uf ≡ 0)
        → float32_to_float16_full uf ≡ ok (float32_to_float16_quiz uf))
      × (exp_of uf ≡ 255
          → frac_of uf ≢ 0
          → float32_to_float16_quiz uf ≡ sign_of uf * 2 ^ 15 + 0x7e00)
float32_to_float16_quiz-float32_to_float16_full uf h = (
  λ number. elim (ℕ_discrete (exp_of uf) 255) [
    | no ne ↦ rw (full-finite uf h ne, quiz-finite uf h ne) refl
    | yes e ↦ rw (full-special uf h e, quiz-special uf h e, number e) refl
  ],
  λ e ne.
      let other : (frac_of uf == 0) ≡ false = ground arith in rw (quiz-special uf h e, other) refl,
)
