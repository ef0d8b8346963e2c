-- ===== src/Vm.antt =====
-- The bytecode of the dispatch benchmark: bytecode.h and the names of its patterns in bytecode.c.
pub mod Fill
pub mod Interp
pub mod Names
mod Tests
use Prim.Native.String.{String}
use text.Mathlib.Text.{◌==◌ as str_eq}
use linux.Base.{ℕ, List, Bool, true, false, if◌then◌else◌}
use linux.Base.Int.{ℤ}

-- `opcode_t`. `OP_COUNT` is the number of opcodes and is none itself.
abbrev pub op_add : ℕ
op_add = 0

abbrev pub op_sub : ℕ
op_sub = 1

abbrev pub op_xor : ℕ
op_xor = 2

abbrev pub op_mul : ℕ
op_mul = 3

abbrev pub op_load_imm : ℕ
op_load_imm = 4

abbrev pub op_cmp : ℕ
op_cmp = 5

abbrev pub op_jnz : ℕ
op_jnz = 6

abbrev pub op_nop : ℕ
op_nop = 7

abbrev pub op_count : ℕ
op_count = 8

pub data Pattern : Type 0 where
  predictable random : Pattern

-- `op` is a `uint8_t` and `imm` an `int32_t`.
pub record Instruction : Type 0 where
  pub op : ℕ
  pub imm : ℤ

-- `code` is the array that `code` points to; `NULL` is the empty array.
pub record Program : Type 0 where
  pub code : List Instruction
  pub len : ℕ

unfoldable pub pattern_name : Pattern → String
pattern_name predictable = "predictable"
pattern_name random = "random"

-- The result and what is stored in `*ok`.
unfoldable pub parse_pattern : String → Pattern × Bool
parse_pattern name =
    if str_eq name "predictable"
    then (predictable, true)
    else if str_eq name "random"
    then (random, true)
    else (predictable, false)
