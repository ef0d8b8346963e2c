-- ===== src/Draw/Uniform.antt =====
-- Every result has as many accepted draws as every other.
use linux.Base.{
  ℕ, suc, ◌+◌, ◌-◌, ◌*◌, ◌/◌, ◌%◌, ◌^◌, ◌≤◌, ◌<◌, ◌≡◌, ◌↔◌, refl, sym, ap, ◌∙◌, Option, none, some,
  ltb, leb, ◌==◌, zero, if◌then◌else◌, dec_lt, ℕ_discrete, arith,
}
use native.Mathlib.Nat.{
  div-add-mod, mul-le-mul_right, add-mul-mod_self_left, add-mul-div_left, div-lt_iff_lt-mul,
}
use linux.Base.Word.{u32, u64}
use linux.Draw.{threshold_of, accept}

-- The first draw that gives `r`: the least `x` with `x * n` at least `r * 2^32 + threshold`.
abbrev first_draw : (n r : ℕ) → ℕ
first_draw n r = (r * 2 ^ 32 + threshold_of n + (n - 1)) / n

threshold_lem : (n : ℕ) → 0 < n → n < 2 ^ 32 → n * (2 ^ 32 / n) + threshold_of n ≡ 2 ^ 32
unfolding threshold_of
threshold_lem n p h = ap (λ (t : ℕ). n * (2 ^ 32 / n) + t) remainder ∙ div-add-mod (2 ^ 32) n
  where
    no_wrap : u32 (2 ^ 32 - n) ≡ 2 ^ 32 - n
    no_wrap = omega arith

    whole : 2 ^ 32 - n + n * 1 ≡ 2 ^ 32
    whole = omega arith

    remainder : u32 (2 ^ 32 - n) % n ≡ 2 ^ 32 % n
    remainder =
        ap (λ (t : ℕ). t % n) no_wrap
        ∙ sym (add-mul-mod_self_left (2 ^ 32 - n) n 1)
        ∙ ap (λ (t : ℕ). t % n) whole

accept_iff :
    (x n r t : ℕ)
    → x < 2 ^ 32
    → n < 2 ^ 32
    → (accept x n t ≡ some r) ↔ ((r * 2 ^ 32 + t ≤ x * n) × (x * n < (r + 1) * 2 ^ 32))
unfolding accept
accept_iff x n r t hx hn = by_product (x * n) (omega (arith, bounded))
  where
    bounded : x * n ≤ (2 ^ 32 - 1) * n
    bounded = mul-le-mul_right n (omega arith)

    by_product :
        (m : ℕ)
        → m < 2 ^ 64
        → ((if ltb (u32 (u64 m)) t then none else some (u32 (u64 m / 2 ^ 32))) ≡ some r)
          ↔ ((r * 2 ^ 32 + t ≤ m) × (m < (r + 1) * 2 ^ 32))
    by_product m h = ground arith

-- A quotient rounded up is the least factor that reaches the dividend.
round_up_iff : (a n x : ℕ) → 0 < n → ((a + (n - 1)) / n ≤ x) ↔ (a ≤ x * n)
round_up_iff a n x p =
    let test = div-lt_iff_lt-mul {k = n} {x = a + (n - 1)} {y = suc x} p in
    let next : suc x * n ≡ x * n + n = grind arith in
    (λ h. omega (arith, test.0 (omega arith)), λ h. omega (arith, test.1 (omega arith)))

-- Dividing one whole range of 2^32 more moves the quotient by 2^32 / n.
next_draw :
    (n r : ℕ)
    → 0 < n
    → (r * 2 ^ 32 + threshold_of n + n * (2 ^ 32 / n) + (n - 1)) / n ≡ first_draw n r + 2 ^ 32 / n
next_draw n r p =
    ap (λ (k : ℕ). k / n) (omega arith)
    ∙ add-mul-div_left (r * 2 ^ 32 + threshold_of n + (n - 1)) (2 ^ 32 / n) p

-- The draws with the result `r` are consecutive ones, from `first_draw n r` on.
accept_interval_iff :
    (x n r : ℕ)
    → 0 < n
    → n < 2 ^ 32
    → x < 2 ^ 32
    → (accept x n (threshold_of n) ≡ some r)
      ↔ ((first_draw n r ≤ x) × (x < first_draw n r + 2 ^ 32 / n))
accept_interval_iff x n r p hn hx =
    let (up, down) = accept_iff x n r (threshold_of n) hx hn in
    let (low, low') = round_up_iff (r * 2 ^ 32 + threshold_of n) n x p in
    let (high, high') = round_up_iff (r * 2 ^ 32 + threshold_of n + n * (2 ^ 32 / n)) n x p in
    ground (arith, up, down, low, low', high, high', threshold_lem n p hn, next_draw n r p)

-- The draws of a result are 32-bit numbers exactly where the result is below the bound.
last_draw : (n r : ℕ) → 0 < n → n < 2 ^ 32 → r < n → first_draw n r + 2 ^ 32 / n ≤ 2 ^ 32
last_draw n r p hn h =
    let (high, high') =
      round_up_iff (r * 2 ^ 32 + threshold_of n + n * (2 ^ 32 / n)) n (2 ^ 32) p in
    omega (arith, next_draw n r p, high' (omega (arith, threshold_lem n p hn)))

no_draw : (n r : ℕ) → 0 < n → n ≤ r → 2 ^ 32 ≤ first_draw n r
no_draw n r p h =
    let (low, low') = round_up_iff (r * 2 ^ 32 + threshold_of n) n (2 ^ 32 - 1) p in
    elim (dec_lt (first_draw n r) (2 ^ 32)) [
      | yes less ↦ absurd (omega (arith, low (omega arith)))
      | no not_less ↦ omega arith
    ]

-- 1 where a draw has the result `r`, and 0 where it has another or is rejected.
abbrev pub gives_result : Option ℕ → (r : ℕ) → ℕ
gives_result none r = 0
gives_result (some q) r = if q == r then 1 else 0

-- How many draws below `limit` the loop accepts with the result `r`, for the bound `n`.
unfoldable pub count_draws : (limit n r : ℕ) → ℕ
count_draws zero n r = 0
count_draws (suc x) n r = gives_result (accept x n (threshold_of n)) r + count_draws x n r

gives_result_same : (o : Option ℕ) (r : ℕ) → o ≡ some r → gives_result o r ≡ 1
gives_result_same o r e = rw e (ground arith)

gives_result_other : (o : Option ℕ) (r : ℕ) → (o ≡ some r → ⊥) → gives_result o r ≡ 0
gives_result_other none r other = refl
gives_result_other (some q) r other = elim (ℕ_discrete q r) [
  | yes e ↦ absurd (other (ap some e))
  | no ne ↦ ground arith
]

-- Where the draws of a result are the `k` numbers from `a` on, those below `limit` are counted.
count_interval :
    (limit n r a k : ℕ)
    → ((x : ℕ) → x < limit → (accept x n (threshold_of n) ≡ some r) ↔ ((a ≤ x) × (x < a + k)))
    → count_draws limit n r
      ≡ (if leb limit a then 0 else if leb limit (a + k) then limit - a else k)
unfolding count_draws
count_interval zero n r a k found = ground arith
count_interval (suc x) n r a k found =
    let rest = count_interval x n r a k (λ y h. found y (omega arith)) in
    let (to, from) = found x (omega arith) in
    elim (dec_lt x a) [
      | yes before ↦
          let here =
            gives_result_other (accept x n (threshold_of n)) r (λ e. omega (arith, (to e).0)) in
          ground (arith, rest, here)
      | no not_before ↦ elim (dec_lt x (a + k)) [
        | yes inside ↦
            let here =
              gives_result_same (accept x n (threshold_of n)) r (from (omega arith, inside)) in
            ground (arith, rest, here)
        | no after ↦
            let here = gives_result_other (accept x n (threshold_of n)) r (λ e. after (to e).1) in
            ground (arith, rest, here)
      ]
    ]

-- For a bound `n` from 1 to 2^32 - 1, of the 2^32 draws the loop accepts, for each result below `n`,
-- 2^32 / n: as many for each. No other result is returned.
pub count_draws_uniform :
    (n r : ℕ) → 0 < n → n < 2 ^ 32 → count_draws (2 ^ 32) n r ≡ (if ltb r n then 2 ^ 32 / n else 0)
count_draws_uniform n r p hn =
    let counted =
      count_interval (2 ^ 32) n r (first_draw n r) (2 ^ 32 / n)
        (λ x h. accept_interval_iff x n r p hn h) in
    elim (dec_lt r n) [
      | yes below ↦ ground (arith, counted, last_draw n r p hn below)
      | no not_below ↦ ground (arith, counted, no_draw n r p (omega arith))
    ]
