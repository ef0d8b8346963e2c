-- ===== src/Lib.antt =====
-- Models and proofs for the C programs of linux2026: independent labs, each a directory of the
-- repository, that share no code. A part of the library belongs to one lab, and a lab's functions
-- keep their names, with the variables they change as arguments and results.
--
-- Vm.antt with its children models linux2026-hw3-labs/labs/basics/dispatch_benchmark/src: the bytecode
-- of bytecode.h, the generators of bytecode.c (Vm/Fill.antt) and the two interpreters of
-- interpreter.c (Vm/Interp.antt). `program_init` makes the program that `run_interpreter` runs. The
-- loop over the steps of `run_switch` is structural; the jumps of `run_computed_goto` take `steps` as
-- fuel, which is enough because each round counts one step. Vm/Names.antt is about the names of the
-- patterns and modes.
--
-- MulHigh.antt models the products of linux2026-quiz5-labs/labs/c_mul_high/src/c_mul_high_lab.c, and
-- Float.antt the conversions of linux2026-quiz5-labs/labs/e_float_quarter/float_quarter_lab.c. A signed
-- number is a value of ℤ, and the casts between it and its pattern are in Base/Word.antt.
--
-- Half.antt models the conversions between 16-bit and 32-bit floats of
-- linux2026-quiz5-labs/labs/d_fp16/float32_to_float16_lab.c, with the rounding shift of Float.antt, and
-- Half/Experiment.antt those of linux2026-quiz6-labs/linux2026-quiz6-lab/src/fp16_lab.c. The loop that
-- moves the first bit of a subnormal number to its place has 11 or 24 rounds as fuel, since a number
-- that is not 0 reaches the bit after at most 10 or 23. An `int` exponent is an integer, which stays
-- between -149 and 255.
--
-- Crc.antt models the checksums of linux2026-quiz4-labs/src/crc_nibble_vs_byte.c and of
-- linux2026-quiz8-labs/src/side_channel/crc.c, whose static variables are the record CrcState.
--
-- Linked.antt models list.h, middle_fast_slow.c and middle_two_pass.c of
-- linux2026-hw2-labs/linked-list-cache-lab/src. The nodes are a store, a pointer is NULL or an index of
-- it, and the loops take fuel: more than the number of nodes is enough. Linked/Build.antt models the
-- helpers of alloc.c that fill, shuffle and link the nodes, Linked/Alloc.antt list_build and
-- list_destroy (with Linked/Handle.antt and Linked/EachNode.antt), and Linked/Modes.antt the names of the modes.
--
-- Search.antt models the lookups of
-- linux2026-quiz6-labs/linux2026-quiz6-lab/src/tree_cache_lab.c in a sorted array, in blocks that
-- `block_build` makes of it, and in a binary tree. The search by halving takes the number of cells as
-- fuel, which is enough since each round halves what is left of them.
--
-- Queue.antt models the run queue of linux2026-quiz8-labs/src/scheduler, list.h and the safe mode of
-- main.c. A handler runs between two rounds of the loop, since these block the signal, so a run is a
-- list of ticks and rounds. The nodes are an array, a pointer is NULL or an index of it, and a walk
-- through the queue takes one more than the length of the array as fuel. The values are those from 0
-- to 31, with the lowest bit flipped or not, so they are natural numbers. An abstract queue, a list of
-- numbers and a table of values, says what a run does.
--
-- Trees.antt models linux2026-hw3-labs/labs/basics/tree_cache_locality/src/tree.c: the B-tree in
-- Trees/Btree.antt, the binary search tree in Trees/Bst.antt. A node is a value with what its pointers
-- lead to and the block of memory that it lies in. The depth of both is bounded by the fuel, one more
-- than the number of keys, since a child has fewer keys than its parent.
--
-- Sort.antt models linux2026-quiz3-labs/labs/ch_sort_trace/ch_sort_trace.c, but for what it prints;
-- Sort/Trace.antt is about the numbers in its trace, whose loops go through the bits of a size_t with 64
-- or 65 rounds as fuel.
-- A sift down takes one more than the end of its range as fuel, since the root grows in each round; the
-- way up takes one more than the leaf that it starts from. An array of `int` has fewer than 2^62
-- entries, so the indices of children stay inside a size_t.
--
-- Packing.antt models the packing and unpacking of linux2026-quiz6-labs/linux2026-quiz6-lab/src/bitpack_lab.c
-- in arrays of bytes, for widths below 32.
--
-- Average.antt models the fixed-point average of
-- linux2026-quiz6-labs/linux2026-quiz6-lab/src/ewma_lab.c, without the floating-point one beside it. The
-- loop that halves a weight has 31 rounds as fuel, the digits of a positive `int`.
--
-- Draw.antt models linux2026-quiz8-labs/src/modulo_bias/main.c. Its loop takes fuel, and ends only when
-- a draw is accepted: from the state 0, which no draw leaves, it may not. So what is stated is about the
-- body of the loop: how many of the 2^32 draws it accepts with each result.
--
-- Bloom.antt models linux2026-quiz8-labs/src/bloom_filter: the hashes of hash.c in Bloom/Hash.antt, and
-- the bits, the probes and the insertion of the 500 keys of main.c. The hash under test is an argument,
-- as in the source, and a string is the list of its bytes before the terminator.
--
-- Hlist.antt models the hash lists of linux2026-quiz3-labs/labs/bc_list_hlist/bc_list_hlist.c. The nodes
-- are named by numbers, and a pointer to a pointer is a Place: the `first` of the head or the `next` of
-- a node. Following NULL or LIST_POISON1 or 2 is undefined behaviour. The children of Hlist.antt hold
-- the representation (Linked), each operation (Change, Delete) and sequences of calls (Sequence).
--
-- Context.antt models the adaptive counts of linux2026-quiz4-labs/src/simulate_context_model.c as
-- natural numbers, without the overflow of `int` that 2^31 halvings would take.
--
-- Fields.antt models the masks and replacements of
-- linux2026-quiz5-labs/labs/a_bitfield/src/bitfield_lab.c.
--
-- Base.antt and its children hold what the parts share: tests and conditionals, lists by native
-- indices, integers, fixed widths and shifts (Word), laws of the bitwise operations (Digits, Xor, Pow),
-- and the outcome of a run of C code (Run): a value, undefined behaviour with its cause, or fuel used
-- up; arrays with bounds (Arrays) and the allocator (Memory).
--
-- A number of a w-bit unsigned type is a natural number below 2^w, and each operation that may leave
-- the width is reduced modulo 2^w where the source does it; size_t has 64 bits. Signed overflow, reads
-- outside an array and NULL dereferences are undefined behaviour and end the run. `>>` on a negative
-- number rounds down and a cast to a signed type keeps the pattern, as GCC and Clang do.
--
-- Not modelled: printing, clocks, argument parsing and the random test drivers of the labs, the Python
-- scripts, and the programs that show undefined behaviour on purpose. The allocator is a list of
-- live blocks, named by the calls that returned them; which calls it grants is an argument.
pub mod Base
pub mod Vm
pub mod MulHigh
pub mod Crc
pub mod Float
pub mod Half
pub mod Linked
pub mod Packing
pub mod Search
pub mod Sort
pub mod Queue
pub mod Trees
pub mod Draw
pub mod Context
pub mod Fields
pub mod Bloom
pub mod Average
pub mod Hlist
