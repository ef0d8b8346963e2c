-- ===== src/Vm/Fill.antt =====
-- The program generators of bytecode.c.
pub mod Ready
use linux.Base.{
  ℕ, zero, suc, ◌+◌, ◌*◌, ◌%◌, ◌-◌, List, [], ◌∷◌, Bool, ltb, ◌==◌, if◌then◌else◌, bit_and, bit_or,
  bit_xor, get_or,
}
use linux.Base.Int.{ℤ, pos, negsuc}
use linux.Base.Word.{u8, u64, to_u64, to_i32, ◌<<<◌, ◌>>>◌}
use linux.Vm.{
  op_add, op_sub, op_xor, op_mul, op_load_imm, op_cmp, op_jnz, op_nop, op_count, Pattern,
  predictable, random, Instruction, Program,
}

-- The new state, which is also the result.
unfoldable pub next_rng : ℕ → ℕ
next_rng state =
    let x1 = bit_xor state (u64 (state <<< 13)) in
    let x2 = bit_xor x1 (x1 >>> 7) in bit_xor x2 (u64 (x2 <<< 17))

abbrev pub cycle : List ℕ
cycle = op_load_imm ∷ op_add ∷ op_cmp ∷ op_jnz ∷ op_xor ∷ op_sub ∷ op_mul ∷ op_nop ∷ []

unfoldable pub predictable_imm : (op i mix : ℕ) → ℤ
predictable_imm op i mix =
    if op == op_load_imm
    then pos (0x1000 + bit_and i 0x3ff)
    else if op == op_add
    then pos (3 + i % 11)
    else if op == op_sub
    then pos (1 + i % 7)
    else if op == op_xor
    then to_i32 (bit_or 0x5a5a0000 (bit_and i 0xffff))
    else if op == op_mul
    then pos (3 + i % 5)
    else if op == op_cmp
    then pos (64 + i % 31)
    else if op == op_jnz
    then pos (1 + i % 9)
    else if op == op_nop
    then pos (bit_and mix 0x7ff)
    else to_i32 (bit_xor (u64 (i * 17)) (mix >>> 32))

-- The loop at index `i`, with `len - i` rounds left.
unfoldable pub predictable_loop : (left i mix : ℕ) → List Instruction
predictable_loop zero i mix = []
predictable_loop (suc left) i mix =
    let op = get_or cycle (i % 8) 0 in
    let imm = predictable_imm op i mix in
    record { op = op; imm = imm }
    ∷ predictable_loop left (i + 1) (bit_xor mix (u64 (to_u64 imm + 0x9e3779b97f4a7c15)))

unfoldable pub fill_predictable : (len seed : ℕ) → List Instruction
fill_predictable len seed = predictable_loop len 0 (bit_xor seed 0x9e3779b97f4a7c15)

unfoldable pub random_imm : (len op r : ℕ) → ℤ
random_imm len op r =
    if op == op_load_imm
    then to_i32 (bit_xor r (r >>> 11))
    else if op == op_add
    then pos (bit_and r 0x3f + 1)
    else if op == op_sub
    then pos (bit_and r 0x1f + 1)
    else if op == op_xor
    then to_i32 (bit_xor r 0xaaaaaaaa55555555)
    else if op == op_mul
    then pos (3 + r % 11)
    else if op == op_cmp
    then pos (bit_and r 0x7fff)
    else if op == op_jnz
    then to_i32 (1 + r % (if ltb 1 len then len - 1 else 1))
    else if op == op_nop
    then pos (r >>> 48)
    else to_i32 (r >>> 32)

unfoldable pub random_loop : (len left rng : ℕ) → List Instruction
random_loop len zero rng = []
random_loop len (suc left) rng =
    let r = next_rng rng in
    let op = u8 (r % op_count) in
    record { op = op; imm = random_imm len op r } ∷ random_loop len left r

unfoldable pub fill_random : (len seed : ℕ) → List Instruction
fill_random len seed = random_loop len len (if seed == 0 then 0x0123456789abcdef else seed)

abbrev pub no_program : Program
no_program = record { code = []; len = 0 }

-- `switch (pattern)`.
unfoldable pub fill : Pattern → (len seed : ℕ) → List Instruction
fill predictable len seed = fill_predictable len seed
fill random len seed = fill_random len seed

-- The status that is returned, and `*program`. `allocated` says whether `calloc` succeeds.
unfoldable pub program_init : (allocated : Bool) (len : ℕ) → Pattern → (seed : ℕ) → ℤ × Program
program_init allocated len pattern seed =
    if len == 0
    then (negsuc 0, no_program)
    else if allocated
    then (pos 0, record { code = fill pattern len seed; len = len })
    else (negsuc 0, no_program)

-- Whatever it held, the program is empty afterwards.
unfoldable pub program_destroy : Program → Program
program_destroy program = no_program
