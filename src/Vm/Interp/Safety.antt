-- ===== src/Vm/Interp/Safety.antt =====
-- What can go wrong in a run: the reads stay inside the array, and one signed subtraction may
-- overflow.
use linux.Base.{
  ℕ, zero, suc, ◌+◌, ◌-◌, ◌*◌, ◌/◌, ◌%◌, ◌^◌, ◌≤◌, ◌<◌, ◌≡◌, ◌≢◌, ◌∙◌, sym, refl, ap, ℕ_discrete,
  get_elem?-lt, Bool, true, false, arith, if◌then◌else◌, ◌==◌, ◌⊎◌, ◌↔◌, inl, inr,
}
use native.Mathlib.Nat.{mod-lt, mod-eq_of_lt, mod-add-mod, mod_self, mul-mod_right, div-add-mod}
use linux.Base.Int.{ℤ, pos, negsuc, ◌-ℤ◌}
use linux.Base.Word.{to_i64}
use linux.Base.Run.{Run, ok, undefined, signed_overflow, ◌>>=◌}
use linux.Vm.{Instruction, Program, Pattern}
use linux.Vm.Interp.Equiv.{run_interpreter_equiv}
use linux.Vm.Fill.{program_init}
use linux.Vm.Fill.Ready.{IsReady, program_init-IsReady}
use linux.Vm.Interp.{
  VmState, vm_cmp, switch_op, switch_loop, run_switch, normalize_offset, vm_next_pc, vm_start,
  fits_i64, rem_size, DispatchMode, switch, computed, run_interpreter,
}

to_i64_small : (w : ℕ) → w < 2 ^ 63 → to_i64 w ≡ pos w
to_i64_small w h = ground arith

normalize_offset-pos : (n len : ℕ) → 0 < len → len < 2 ^ 63 → normalize_offset (pos n) len ≡ n % len
unfolding normalize_offset
normalize_offset-pos n len p q = rw (to_i64_small len q) (ground (arith, mod-lt n p))

mod-suc_cases :
    (n len : ℕ)
    → 0 < len
    → ((n % len + 1 ≡ len) × (suc n % len ≡ 0))
      ⊎ ((n % len + 1 < len) × (suc n % len ≡ n % len + 1))
mod-suc_cases n len p = elim (ℕ_discrete (n % len + 1) len) [
  | yes e ↦ inl (e, sym round ∙ ap (λ (t : ℕ). t % len) e ∙ mod_self len)
  | no ne ↦ inr (below ne, sym round ∙ mod-eq_of_lt (below ne))
]
  where
    round : (n % len + 1) % len ≡ suc n % len
    round = mod-add-mod n len 1 ∙ ap (λ (t : ℕ). t % len) (omega arith)

    below : n % len + 1 ≢ len → n % len + 1 < len
    below ne = omega (arith, mod-lt n p)

normalize_offset-negsuc :
    (n len : ℕ) → 0 < len → len < 2 ^ 63 → normalize_offset (negsuc n) len ≡ len - 1 - n % len
unfolding normalize_offset
normalize_offset-negsuc n len p q =
    rw (to_i64_small len q) (ground (arith, mod-lt n p, mod-suc_cases n len p))

-- For a length below 2^63 the offset of a jump is the remainder of the immediate by the length as
-- mathematics has it: for a negative immediate too it is from 0 to `len - 1`, and it differs from
-- the immediate by a multiple of the length.
pub normalize_offset_lem :
    (n len : ℕ)
    → 0 < len
    → len < 2 ^ 63
    → (normalize_offset (pos n) len ≡ n % len)
      × (normalize_offset (negsuc n) len < len)
      × ((normalize_offset (negsuc n) len + suc n) % len ≡ 0)
normalize_offset_lem n len p q = (
  normalize_offset-pos n len p q,
  rw (normalize_offset-negsuc n len p q) (omega arith),
  rw (normalize_offset-negsuc n len p q)
      (ap (λ (t : ℕ). t % len) multiple ∙ mul-mod_right len (suc (n / len))),
)
  where
    multiple : len - 1 - n % len + suc n ≡ len * suc (n / len)
    multiple = omega (arith, div-add-mod n len, mod-lt n p)

-- The run ends with a value that satisfies `P`, or with the overflow of `vm_cmp`.
abbrev pub EndsOrOverflows {ℓ κ} : {A : Type ℓ} → (A → Type κ) → Run A → Type (ℓ ⊔ κ)
EndsOrOverflows {A} P r = ((a : A) × (r ≡ ok a) × P a) ⊎ (r ≡ undefined signed_overflow)

module _ {ℓ κ μ ν} {A : Type ℓ} {B : Type μ} {P : A → Type κ} {Q : B → Type ν} where
  then_run :
      {m : Run A} {f : A → Run B}
      → EndsOrOverflows P m
      → ((a : A) → P a → EndsOrOverflows Q (f a))
      → EndsOrOverflows Q (m >>= f)
  then_run (inl (a, e, p)) k = rw e (k a p)
  then_run (inr e) k = inr (rw e)

either {ℓ κ} :
    {A : Type ℓ} {P : A → Type κ} {x y : Run A} (b : Bool)
    → EndsOrOverflows P x
    → EndsOrOverflows P y
    → EndsOrOverflows P (if b then x else y)
either true p q = p
either false p q = q

abbrev Anywhere : VmState → Type 0
Anywhere s = Unit {0}

vm_cmp-ends : (s : VmState) (imm : ℤ) → EndsOrOverflows Anywhere (vm_cmp s imm)
unfolding vm_cmp
vm_cmp-ends s imm = either (fits_i64 (to_i64 s.acc -ℤ imm)) (inl (_, refl, tt)) (inr refl)

switch_op-ends :
    (s : VmState) (pc : ℕ) (insn : Instruction) → EndsOrOverflows Anywhere (switch_op s pc insn)
unfolding switch_op
switch_op-ends s pc insn = either (insn.op == 0) done (
    either (insn.op == 1) done (
      either (insn.op == 2) done (
        either (insn.op == 3) done (
          either (insn.op == 4) done (
            either (insn.op == 5) (vm_cmp-ends s insn.imm)
              (either (insn.op == 6) done (either (insn.op == 7) done done)))))))
  where
    done : {s' : VmState} → EndsOrOverflows Anywhere (ok s')
    done {s'} = inl (s', refl, tt)

module _ (program : Program) (ready : IsReady program) where
  rem_size-ends : (n : ℕ) → EndsOrOverflows (λ pc. pc < program.len) (rem_size n program.len)
  rem_size-ends n =
      let positive : (program.len == 0) ≡ false = ground (arith, ready.positive) in
      rw positive (inl (_, refl, mod-lt n ready.positive))

  vm_next_pc-ends :
      (s : VmState) (pc : ℕ) (insn : Instruction)
      → EndsOrOverflows (λ pc'. pc' < program.len) (vm_next_pc program s pc insn)
  unfolding vm_next_pc
  vm_next_pc-ends s pc insn = either _ (rem_size-ends _) (rem_size-ends _)

  switch_loop-ends :
      (left : ℕ) (s : VmState) (pc : ℕ)
      → pc < program.len
      → EndsOrOverflows (λ (s', pc'). pc' < program.len) (switch_loop program left s pc)
  unfolding switch_loop
  switch_loop-ends zero s pc h = inl (_, refl, h)
  switch_loop-ends (suc left) s pc h =
      let (insn, at) = get_elem?-lt program.code pc (omega (arith, ready.allocated)) in
      rw at (
        then_run (switch_op-ends s pc insn)
          λ s' _. then_run (vm_next_pc-ends s' pc insn) λ pc' h'. switch_loop-ends left s' pc' h')

  run_switch-ends :
      (steps seed : ℕ) → EndsOrOverflows (λ c. Unit {0}) (run_switch program steps seed)
  unfolding run_switch
  run_switch-ends steps seed =
      either (steps == 0) (inl (_, refl, tt)) (
        then_run (switch_loop-ends steps (vm_start seed) 0 ready.positive) λ r _. inl (_, refl, tt))

drop_unit :
    {r : Run ℕ}
    → EndsOrOverflows (λ c. Unit {0}) r
    → ((c : ℕ) × (r ≡ ok c)) ⊎ (r ≡ undefined signed_overflow)
drop_unit (inl (c, e, _)) = inl (c, e)
drop_unit (inr e) = inr e

ready-ends :
    (mode : DispatchMode) (program : Program) (steps seed : ℕ)
    → IsReady program
    → steps < 2 ^ 64
    → ((c : ℕ) × (run_interpreter mode program steps seed ≡ ok c))
      ⊎ (run_interpreter mode program steps seed ≡ undefined signed_overflow)
unfolding run_interpreter
ready-ends switch program steps seed ready fits =
    drop_unit (run_switch-ends program ready steps seed)
ready-ends computed program steps seed ready fits =
    rw (← run_interpreter_equiv program steps seed ready.known fits)
      (drop_unit (run_switch-ends program ready steps seed))

-- In either mode, a run of at most 2^64 - 1 steps of a program from `program_init` (status 0) returns
-- a checksum or overflows in `vm_cmp`: it never reads outside `code`, divides by zero or jumps
-- through an entry that `dispatch` lacks, and the jumps end.
pub run_interpreter-ends :
    (mode : DispatchMode) (allocated : Bool) (len : ℕ) (pattern : Pattern)
    (fill_seed steps seed : ℕ)
    → (program_init allocated len pattern fill_seed).0 ≡ pos 0
    → steps < 2 ^ 64
    → let program = (program_init allocated len pattern fill_seed).1 in
      ((checksum : ℕ) × (run_interpreter mode program steps seed ≡ ok checksum))
      ⊎ (run_interpreter mode program steps seed ≡ undefined signed_overflow)
run_interpreter-ends mode allocated len pattern fill_seed steps seed e fits =
    ready-ends mode (program_init allocated len pattern fill_seed).1 steps seed
      (program_init-IsReady allocated len pattern fill_seed e).1 fits

-- `vm_cmp` leaves the range of `int64_t`, which is undefined, exactly when the accumulator is negative
-- as an `int64_t` and closer to the least value than a positive immediate, or not negative and closer
-- to the greatest value than a negative immediate.
pub vm_cmp_overflow_iff :
    (s : VmState) (n : ℕ)
    → s.acc < 2 ^ 64
    → n < 2 ^ 31
    → ((vm_cmp s (pos n) ≡ undefined signed_overflow) ↔ ((2 ^ 63 ≤ s.acc) × (s.acc < 2 ^ 63 + n)))
      × ((vm_cmp s (negsuc n) ≡ undefined signed_overflow)
          ↔ ((s.acc < 2 ^ 63) × (2 ^ 63 ≤ s.acc + suc n)))
unfolding vm_cmp ◌-ℤ◌
vm_cmp_overflow_iff s n h small = (ground arith, ground arith)
