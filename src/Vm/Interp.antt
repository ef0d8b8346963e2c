-- ===== src/Vm/Interp.antt =====
-- The interpreter of interpreter.c with its two ways to dispatch: a `switch` and computed `goto`s.
pub mod Equiv
pub mod Safety
use Prim.Native.String.{String}
use text.Mathlib.Text.{◌==◌ as str_eq}
use linux.Base.{
  ℕ, zero, suc, ◌+◌, ◌*◌, ◌/◌, ◌%◌, ◌^◌, ◌-◌, List, [], ◌∷◌, Bool, true, false, ltb, leb, ◌==◌,
  ◌&&◌, not, if◌then◌else◌, bit_and, bit_xor, get_elem?, Option, none, some,
}
use linux.Base.Int.{ℤ, pos, negsuc, ◌-ℤ◌, ◌+ℤ◌, ltb_ℤ, neg_part, pos_part}
use linux.Base.Word.{u64, to_u64, to_u32, to_i64, ◌<<<◌, ◌>>>◌}
use linux.Base.Run.{
  Run, ok, undefined, out_of_fuel, out_of_bounds, bad_label, div_by_zero, signed_overflow,
  or_undefined, ◌>>=◌,
}
use linux.Vm.{
  op_add, op_sub, op_xor, op_mul, op_load_imm, op_cmp, op_jnz, op_nop, Instruction, Program,
}

-- `vm_state_t`: two `uint64_t` and an `int64_t`.
pub record VmState : Type 0 where
  pub acc : ℕ
  pub aux : ℕ
  pub cmp : ℤ

unfoldable pub vm_add : VmState → ℤ → VmState
vm_add s imm = record s { acc = u64 (s.acc + u64 (s.aux + to_u64 imm)) }

unfoldable pub abs_imm : ℤ → ℕ
abs_imm (pos n) = n
abs_imm (negsuc n) = suc n

unfoldable pub vm_sub : VmState → ℤ → VmState
unfolding abs_imm
vm_sub s imm = record s { acc = u64 (s.acc + 2 ^ 64 - u64 (abs_imm imm)) }

unfoldable pub vm_xor : VmState → ℤ → VmState
vm_xor s imm = record s { acc = bit_xor s.acc (to_u64 imm) }

unfoldable pub vm_mul : VmState → ℤ → VmState
vm_mul s imm =
    let factor = bit_and (to_u32 imm) 0x1f + 1 in
    record s { acc = u64 (u64 (s.acc * factor) + s.aux) }

unfoldable pub vm_load_imm : VmState → ℤ → VmState
vm_load_imm s imm = record s { aux = to_u32 imm }

abbrev pub fits_i64 : ℤ → Bool
fits_i64 (pos n) = ltb n (2 ^ 63)
fits_i64 (negsuc n) = ltb n (2 ^ 63)

-- The subtraction is made in `int64_t`, where leaving the range is undefined.
unfoldable pub vm_cmp : VmState → ℤ → Run VmState
unfolding ◌-ℤ◌
vm_cmp s imm =
    let diff = to_i64 s.acc -ℤ imm in
    if fits_i64 diff then ok (record s { cmp = diff }) else undefined signed_overflow

unfoldable pub vm_nop : VmState → ℕ → VmState
vm_nop s pc = record s { acc = bit_xor s.acc pc }

-- C's `%`: the remainder takes the sign of the dividend.
abbrev pub rem : ℤ → ℤ → ℤ
rem (pos n) (pos d) = pos (n % d)
rem (pos n) (negsuc d) = pos (n % suc d)
rem (negsuc n) (pos d) = let r = suc n % d in if r == 0 then pos 0 else negsuc (r - 1)
rem (negsuc n) (negsuc d) = let r = suc n % suc d in if r == 0 then pos 0 else negsuc (r - 1)

-- For a `len` below 2^63, as every length of an array that can be allocated is, `off += (int64_t)len`
-- does not overflow.
unfoldable pub normalize_offset : ℤ → ℕ → ℕ
unfolding ◌+ℤ◌
normalize_offset imm len =
    if len == 0
    then 0
    else let off = rem imm (to_i64 len) in
      to_u64 (if ltb_ℤ off (pos 0) then off +ℤ to_i64 len else off)

abbrev pub is_zero : ℤ → Bool
is_zero (pos zero) = true
is_zero (pos (suc n)) = false
is_zero (negsuc n) = false

-- `% len` with the divisor that C requires.
abbrev pub rem_size : ℕ → ℕ → Run ℕ
rem_size n len = if len == 0 then undefined div_by_zero else ok (n % len)

unfoldable pub vm_next_pc : Program → VmState → ℕ → Instruction → Run ℕ
unfolding normalize_offset
vm_next_pc program s pc insn =
    if (insn.op == op_jnz) && not (is_zero s.cmp)
    then rem_size (u64 (pc + 1 + normalize_offset insn.imm program.len)) program.len
    else rem_size (u64 (pc + 1)) program.len

unfoldable pub finish_checksum : VmState → (pc steps : ℕ) → ℕ
finish_checksum s pc steps =
    bit_xor (bit_xor (bit_xor (bit_xor s.acc (u64 (s.aux <<< 1))) (to_u64 s.cmp)) (u64 (pc <<< 8)))
      steps

unfoldable pub vm_start : ℕ → VmState
vm_start seed = record {
  acc = bit_xor seed 0x243f6a8885a308d3;
  aux = u64 (seed + 0x9e3779b97f4a7c15);
  cmp = to_i64 (bit_xor seed (seed >>> 7));
}

-- `&program->code[pc]`, read through.
abbrev pub fetch : Program → ℕ → Run Instruction
fetch program pc = or_undefined out_of_bounds (get_elem? program.code pc)

-- The body of `switch (insn->op)`; an opcode that no case names does nothing.
unfoldable pub switch_op : VmState → ℕ → Instruction → Run VmState
switch_op s pc insn =
    if insn.op == op_add
    then ok (vm_add s insn.imm)
    else if insn.op == op_sub
    then ok (vm_sub s insn.imm)
    else if insn.op == op_xor
    then ok (vm_xor s insn.imm)
    else if insn.op == op_mul
    then ok (vm_mul s insn.imm)
    else if insn.op == op_load_imm
    then ok (vm_load_imm s insn.imm)
    else if insn.op == op_cmp
    then vm_cmp s insn.imm
    else if insn.op == op_jnz
    then ok (vm_nop s pc)
    else if insn.op == op_nop
    then ok (vm_nop s pc)
    else ok s

-- `for (executed = 0; executed < steps; ++executed)`, with `left` rounds to go.
unfoldable pub switch_loop : Program → (left : ℕ) → VmState → ℕ → Run (VmState × ℕ)
switch_loop program zero s pc = ok (s, pc)
switch_loop program (suc left) s pc = do
  insn ← fetch program pc
  s' ← switch_op s pc insn
  pc' ← vm_next_pc program s' pc insn
  switch_loop program left s' pc'

unfoldable pub run_switch : Program → (steps seed : ℕ) → Run ℕ
run_switch program steps seed =
    if steps == 0
    then ok (finish_checksum (vm_start seed) 0 steps)
    else do (s, pc) ← switch_loop program steps (vm_start seed) 0; ok (finish_checksum s pc steps)

-- The labels whose addresses the table `dispatch` holds.
pub data Label : Type 0 where
  add sub xor mul load_imm cmp jnz nop : Label

abbrev pub dispatch : List Label
dispatch =
    Label.add ∷ Label.sub ∷ Label.xor ∷ Label.mul ∷ Label.load_imm ∷ Label.cmp ∷ Label.jnz
    ∷ Label.nop ∷ []

-- What stands between a label and its `ADVANCE()`.
unfoldable pub at_label : Label → VmState → ℕ → Instruction → Run VmState
at_label add s pc insn = ok (vm_add s insn.imm)
at_label sub s pc insn = ok (vm_sub s insn.imm)
at_label xor s pc insn = ok (vm_xor s insn.imm)
at_label mul s pc insn = ok (vm_mul s insn.imm)
at_label load_imm s pc insn = ok (vm_load_imm s insn.imm)
at_label cmp s pc insn = vm_cmp s insn.imm
at_label jnz s pc insn = ok (vm_nop s pc)
at_label nop s pc insn = ok (vm_nop s pc)

-- From `dispatch_entry` to `done`; the fuel bounds the jumps back to `dispatch_entry`.
unfoldable pub goto_loop :
    (fuel : ℕ) → Program → (steps executed : ℕ) → VmState → ℕ → Run (VmState × ℕ × ℕ)
goto_loop zero program steps executed s pc = out_of_fuel
goto_loop (suc fuel) program steps executed s pc = do
  insn ← fetch program pc
  label ← or_undefined bad_label (get_elem? dispatch insn.op)
  s' ← at_label label s pc insn
  pc' ← vm_next_pc program s' pc insn
  let executed' = u64 (executed + 1)
  let again = goto_loop fuel program steps executed' s' pc'
  if leb steps executed' then ok (s', pc', executed') else again

unfoldable pub run_computed_goto : Program → (steps seed : ℕ) → Run ℕ
run_computed_goto program steps seed =
    if steps == 0 then ok (finish_checksum (vm_start seed) 0 steps) else do
      (s, pc, executed) ← goto_loop steps program steps 0 (vm_start seed) 0
      ok (finish_checksum s pc executed)

pub data DispatchMode : Type 0 where
  switch computed : DispatchMode

unfoldable pub run_interpreter : DispatchMode → Program → (steps seed : ℕ) → Run ℕ
run_interpreter switch = run_switch
run_interpreter computed = run_computed_goto

unfoldable pub dispatch_name : DispatchMode → String
dispatch_name switch = "switch"
dispatch_name computed = "computed"

-- The result and what is stored in `*ok`.
unfoldable pub parse_dispatch : String → DispatchMode × Bool
parse_dispatch name =
    if str_eq name "switch"
    then (switch, true)
    else if str_eq name "computed"
    then (computed, true)
    else (switch, false)
