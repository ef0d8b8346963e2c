-- ===== src/Vm/Interp/Equiv.antt =====
-- The two ways to dispatch give one result on a program of known opcodes.
use linux.Base.{
  ℕ, zero, suc, ◌+◌, ◌^◌, ◌<◌, ◌≡◌, refl, sym, some, get_elem?, true, false, arith, leb,
  if◌then◌else◌, ◌⊎◌, inl, inr, Option-cases, ◌==◌,
}
use mathlib.Core.Path.{subst}
use linux.Base.All.{All, All-get_elem?}
use linux.Base.Word.{u64}
use linux.Base.Run.{Run, ok, ◌>>=◌, bind_through}
use linux.Vm.{Instruction, Program, op_count}
use linux.Vm.Interp.{
  VmState, Label, dispatch, at_label, switch_op, switch_loop, goto_loop, run_switch,
  run_computed_goto, run_interpreter, switch, computed, vm_next_pc, finish_checksum, vm_start,
}

abbrev pub IsKnown : Instruction → Type 0
IsKnown insn = insn.op < op_count

zero_or_suc : (n : ℕ) → (n ≡ 0) ⊎ ((m : ℕ) × (n ≡ suc m))
zero_or_suc zero = inl refl
zero_or_suc (suc m) = inr (m, refl)

-- A known opcode has a label, and the code there is the code of its `case`.
at_label-switch_op :
    (s : VmState) (pc : ℕ) (insn : Instruction)
    → IsKnown insn
    → (l : Label) × (get_elem? dispatch insn.op ≡ some l)
      × (at_label l s pc insn ≡ switch_op s pc insn)
unfolding at_label switch_op
at_label-switch_op s pc insn h = go insn.op refl
  where
    go :
        (n : ℕ)
        → insn.op ≡ n
        → (l : Label) × (get_elem? dispatch insn.op ≡ some l)
          × (at_label l s pc insn ≡ switch_op s pc insn)
    go zero e = (Label.add, rw e, rw e)
    go (suc zero) e = (Label.sub, rw e, rw e)
    go (suc (suc zero)) e = (Label.xor, rw e, rw e)
    go (suc (suc (suc zero))) e = (Label.mul, rw e, rw e)
    go (suc (suc (suc (suc zero)))) e = (Label.load_imm, rw e, rw e)
    go (suc (suc (suc (suc (suc zero))))) e = (Label.cmp, rw e, rw e)
    go (suc (suc (suc (suc (suc (suc zero)))))) e = (Label.jnz, rw e, rw e)
    go (suc (suc (suc (suc (suc (suc (suc zero))))))) e = (Label.nop, rw e, rw e)
    go (suc (suc (suc (suc (suc (suc (suc (suc n)))))))) e = absurd (omega arith)

abbrev with_steps : ℕ → VmState × ℕ → Run (VmState × ℕ × ℕ)
with_steps steps (s, pc) = ok (s, pc, steps)

module _ (program : Program) (known : All IsKnown program.code) (steps : ℕ)
    (fits : steps < 2 ^ 64) where
  -- `ADVANCE()` at the end of a round: it leaves exactly when no round is left.
  advance_lem :
      (left fuel executed : ℕ) (s : VmState) (pc : ℕ)
      → executed + suc left ≡ steps
      → ((l : ℕ)
          → left ≡ suc l
          → goto_loop fuel program steps (executed + 1) s pc
            ≡ (switch_loop program (suc l) s pc >>= with_steps steps))
      → (if leb steps (u64 (executed + 1))
          then ok (s, pc, u64 (executed + 1))
          else goto_loop fuel program steps (u64 (executed + 1)) s pc)
        ≡ (switch_loop program left s pc >>= with_steps steps)
  advance_lem zero fuel executed s pc e again =
      let now : u64 (executed + 1) ≡ steps = omega arith in
      let over : leb steps steps ≡ true = ground arith in unfold switch_loop in rw (now, over)
  advance_lem (suc l) fuel executed s pc e again =
      let next : u64 (executed + 1) ≡ executed + 1 = omega arith in
      let more : leb steps (executed + 1) ≡ false = ground arith in rw (next, more) (again l refl)

  -- With `left + 1` rounds to go, the jumps end after them and have counted `steps` rounds.
  goto_loop-switch_loop :
      (left fuel executed : ℕ) (s : VmState) (pc : ℕ)
      → executed + suc left ≡ steps
      → left < fuel
      → goto_loop fuel program steps executed s pc
        ≡ (switch_loop program (suc left) s pc >>= with_steps steps)
  unfolding goto_loop switch_loop
  goto_loop-switch_loop left zero executed s pc e f = absurd (omega arith)
  goto_loop-switch_loop left (suc fuel) executed s pc e f =
      elim (Option-cases (get_elem? program.code pc)) [
        | inl out ↦ rw out
        | inr (insn, at) ↦
            let (l, table, same) =
              at_label-switch_op s pc insn (All-get_elem? IsKnown program.code pc known at) in
            rw (at, table, same)
              (bind_through (switch_op s pc insn) _ _ (with_steps steps) λ s'.
                bind_through (vm_next_pc program s' pc insn) _ _ (with_steps steps) λ pc'.
                  advance_lem left fuel executed s' pc' e λ l more.
                    goto_loop-switch_loop l fuel (executed + 1) s' pc' (omega arith) (omega arith))
      ]

  run_switch-run_computed_goto :
      (seed : ℕ) → run_switch program steps seed ≡ run_computed_goto program steps seed
  unfolding run_switch run_computed_goto
  run_switch-run_computed_goto seed = elim (zero_or_suc steps) [
    | inl none_left ↦ rw none_left
    | inr (left, e) ↦
        let positive : (steps == 0) ≡ false = ground arith in
        let loops : goto_loop steps program steps 0 (vm_start seed) 0
            ≡ (switch_loop program steps (vm_start seed) 0 >>= with_steps steps) =
          subst
            (λ n.
              goto_loop steps program steps 0 (vm_start seed) 0
              ≡ (switch_loop program n (vm_start seed) 0 >>= with_steps steps))
            (sym e)
            (goto_loop-switch_loop left steps 0 (vm_start seed) 0 (omega arith) (omega arith)) in
        rw (positive, loops)
          (bind_through (switch_loop program steps (vm_start seed) 0)
            (λ (s, pc). ok (finish_checksum s pc steps)) (with_steps steps)
            (λ (s, pc, executed). ok (finish_checksum s pc executed)) (λ r. refl))
  ]

-- On a program of known opcodes, and for any number of steps that a `size_t` holds, the `switch`
-- and the computed `goto`s end the same way: with one checksum, or in the same undefined behaviour.
pub run_interpreter_equiv :
    (program : Program) (steps seed : ℕ)
    → All IsKnown program.code
    → steps < 2 ^ 64
    → run_interpreter switch program steps seed ≡ run_interpreter computed program steps seed
unfolding run_interpreter
run_interpreter_equiv program steps seed known fits =
    run_switch-run_computed_goto program known steps fits seed
