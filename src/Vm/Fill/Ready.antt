-- ===== src/Vm/Fill/Ready.antt =====
-- What `program_init` leaves: an array of the asked length that holds known opcodes alone.
use linux.Base.{
  ℕ, zero, suc, ◌+◌, ◌%◌, ◌<◌, ◌≡◌, refl, ap, get_or, length, Bool, true, false, arith, ◌↔◌, ◌==◌,
}
use linux.Base.All.{All}
use linux.Base.Int.{pos}
use linux.Vm.{Program, Pattern, predictable, random, op_count}
use linux.Vm.Fill.{
  cycle, next_rng, predictable_loop, fill_predictable, random_loop, fill_random, fill, program_init,
}
use linux.Vm.Interp.Equiv.{IsKnown}

-- The entries of `cycle` are opcodes, and every number is one modulo 8.
cycle-IsKnown : (i : ℕ) → get_or cycle i 0 < op_count
cycle-IsKnown zero = omega arith
cycle-IsKnown (suc zero) = omega arith
cycle-IsKnown (suc (suc zero)) = omega arith
cycle-IsKnown (suc (suc (suc zero))) = omega arith
cycle-IsKnown (suc (suc (suc (suc zero)))) = omega arith
cycle-IsKnown (suc (suc (suc (suc (suc zero))))) = omega arith
cycle-IsKnown (suc (suc (suc (suc (suc (suc zero)))))) = omega arith
cycle-IsKnown (suc (suc (suc (suc (suc (suc (suc zero))))))) = omega arith
cycle-IsKnown (suc (suc (suc (suc (suc (suc (suc (suc i)))))))) = omega arith

predictable_loop-IsKnown : (left i mix : ℕ) → All IsKnown (predictable_loop left i mix)
unfolding predictable_loop
predictable_loop-IsKnown zero i mix = tt
predictable_loop-IsKnown (suc left) i mix =
    (cycle-IsKnown (i % 8), predictable_loop-IsKnown left (i + 1) _)

length-predictable_loop : (left i mix : ℕ) → length (predictable_loop left i mix) ≡ left
unfolding predictable_loop
length-predictable_loop zero i mix = refl
length-predictable_loop (suc left) i mix = ap suc (length-predictable_loop left (i + 1) _)

random_loop-IsKnown : (len left rng : ℕ) → All IsKnown (random_loop len left rng)
unfolding random_loop
random_loop-IsKnown len zero rng = tt
random_loop-IsKnown len (suc left) rng = (omega arith, random_loop-IsKnown len left (next_rng rng))

length-random_loop : (len left rng : ℕ) → length (random_loop len left rng) ≡ left
unfolding random_loop
length-random_loop len zero rng = refl
length-random_loop len (suc left) rng = ap suc (length-random_loop len left (next_rng rng))

fill-IsKnown : (pattern : Pattern) (len seed : ℕ) → All IsKnown (fill pattern len seed)
unfolding fill fill_predictable fill_random
fill-IsKnown predictable len seed = predictable_loop-IsKnown len 0 _
fill-IsKnown random len seed = random_loop-IsKnown len len _

length-fill : (pattern : Pattern) (len seed : ℕ) → length (fill pattern len seed) ≡ len
unfolding fill fill_predictable fill_random
length-fill predictable len seed = length-predictable_loop len 0 _
length-fill random len seed = length-random_loop len len _

pub record IsReady (program : Program) : Type 0 where
  pub positive : 0 < program.len
  pub allocated : length program.code ≡ program.len
  pub known : All IsKnown program.code

-- `program_init` returns 0 exactly when the asked length is positive and the allocation succeeds.
pub program_init_status_iff :
    (allocated : Bool) (len : ℕ) (pattern : Pattern) (seed : ℕ)
    → ((program_init allocated len pattern seed).0 ≡ pos 0) ↔ ((0 < len) × (allocated ≡ true))
unfolding program_init
program_init_status_iff allocated len pattern seed = ground arith

-- When `program_init` returns 0, the program has the asked length, which is positive, its array has
-- as many instructions, and each is one of the eight opcodes.
pub program_init-IsReady :
    (allocated : Bool) (len : ℕ) (pattern : Pattern) (seed : ℕ)
    → (program_init allocated len pattern seed).0 ≡ pos 0
    → ((program_init allocated len pattern seed).1.len ≡ len)
      × IsReady (program_init allocated len pattern seed).1
program_init-IsReady true zero pattern seed e = absurd (unfold program_init in cc)
program_init-IsReady true (suc n) pattern seed e =
    let positive : (suc n == 0) ≡ false = ground arith in
    unfold program_init in
    rw positive (
      refl,
      record {
        positive = omega arith;
        allocated = length-fill pattern (suc n) seed;
        known = fill-IsKnown pattern (suc n) seed;
      },
    )
program_init-IsReady false zero pattern seed e = absurd (unfold program_init in cc)
program_init-IsReady false (suc n) pattern seed e =
    let (positive, allocated) = (program_init_status_iff false (suc n) pattern seed).0 e in
    absurd (cc allocated)
