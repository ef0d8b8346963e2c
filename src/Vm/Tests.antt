-- ===== src/Vm/Tests.antt =====
-- The bytecode and its interpreter at concrete programs.
use linux.Base.{ℕ, ◌+◌, ◌^◌, ◌≤◌, ◌<◌, ◌≡◌, refl, [], ◌∷◌, true, ◌⊎◌, ◌↔◌, arith}
use linux.Base.Int.{pos, negsuc}
use linux.Base.Run.{ok, undefined, signed_overflow, bad_label}
use linux.Vm.{Program, predictable, random, op_cmp, op_jnz, op_load_imm}
use linux.Vm.Fill.{program_init}
use linux.Vm.Fill.Ready.{IsReady, program_init-IsReady}
use linux.Vm.Interp.{
  VmState, vm_cmp, normalize_offset, run_interpreter, switch, computed, run_computed_goto,
  goto_loop,
}
use linux.Vm.Interp.Equiv.{run_interpreter_equiv}
use linux.Vm.Interp.Safety.{run_interpreter-ends, vm_cmp_overflow_iff}

abbrev sample : Program
sample = record {
  code =
      record { op = op_load_imm; imm = pos 5 }
      ∷ record { op = op_cmp; imm = negsuc 2 }
      ∷ record { op = op_jnz; imm = negsuc 0 }
      ∷ [];
  len = 3;
}

abbrev least_state : VmState
least_state = record { acc = 2 ^ 63; aux = 0; cmp = pos 0 }

-- A jump back by one from the last of three instructions.
back_by_one : normalize_offset (negsuc 0) 3 ≡ 2
unfolding normalize_offset
back_by_one = refl

-- An opcode that the table `dispatch` lacks: the `switch` skips it, the jump is undefined.
abbrev unknown_opcode : Program
unknown_opcode = record { code = record { op = 8; imm = pos 0 } ∷ []; len = 1 }

unknown_opcode_computed : run_computed_goto unknown_opcode 1 0 ≡ undefined bad_label
unfolding run_computed_goto goto_loop
unknown_opcode_computed = refl

run_interpreter_equiv_example :
    run_interpreter switch sample 9 7 ≡ run_interpreter computed sample 9 7
run_interpreter_equiv_example =
    run_interpreter_equiv sample 9 7 (omega arith, (omega arith, (omega arith, tt))) (omega arith)

program_init-IsReady_example :
    ((program_init true 12 random 3).1.len ≡ 12) × IsReady (program_init true 12 random 3).1
program_init-IsReady_example = program_init-IsReady true 12 random 3 (unfold program_init in refl)

run_interpreter-ends_example :
    let program = (program_init true 8 predictable 1).1 in
    ((checksum : ℕ) × (run_interpreter computed program 100 2 ≡ ok checksum))
    ⊎ (run_interpreter computed program 100 2 ≡ undefined signed_overflow)
run_interpreter-ends_example =
    run_interpreter-ends computed true 8 predictable 1 100 2 (unfold program_init in refl)
      (omega arith)

vm_cmp_overflow_iff_example :
    ((vm_cmp least_state (pos 1) ≡ undefined signed_overflow)
      ↔ ((2 ^ 63 ≤ 2 ^ 63) × (2 ^ 63 < 2 ^ 63 + 1)))
    × ((vm_cmp least_state (negsuc 1) ≡ undefined signed_overflow)
        ↔ ((2 ^ 63 < 2 ^ 63) × (2 ^ 63 ≤ 2 ^ 63 + 2)))
vm_cmp_overflow_iff_example = vm_cmp_overflow_iff least_state 1 (omega arith) (omega arith)

-- The accumulator may get there: one subtraction past the least `int64_t`.
vm_cmp_overflows : vm_cmp least_state (pos 1) ≡ undefined signed_overflow
unfolding vm_cmp
vm_cmp_overflows = refl
