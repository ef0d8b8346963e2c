-- ===== src/Bloom/Hash.antt =====
-- The hash functions of linux2026-quiz8-labs/src/bloom_filter/hash.c. A string is the list of its
-- bytes before the terminator, and a read past them ends the run.
use linux.Base.{
  ℕ, zero, suc, ◌+◌, ◌-◌, ◌*◌, ◌/◌, List, [], ◌∷◌, length, ◌==◌, if◌then◌else◌, bit_and, bit_or,
  bit_xor,
}
use linux.Base.Arrays.{cell}
use linux.Base.Run.{Run, ok, ◌>>=◌}
use linux.Base.Word.{u32, ◌<<<◌, ◌>>>◌}

unfoldable pub rotl32 : (x r : ℕ) → ℕ
rotl32 x r = bit_or (u32 (x <<< r)) (x >>> (32 - r))

unfoldable pub sum_loop : (h : ℕ) → List ℕ → ℕ
sum_loop h [] = h
sum_loop h (c ∷ s) = sum_loop (bit_xor (rotl32 (u32 (h + c)) 5) 0x85ebca6b) s

unfoldable pub simple_sum_hash : List ℕ → Run ℕ
simple_sum_hash s = ok (bit_xor (sum_loop 0x9e3779b9 s) (u32 (length s)))

-- `k1 *= c1; k1 = rotl32(k1, 15); k1 *= c2;`
unfoldable pub mix_key : ℕ → ℕ
mix_key k1 = u32 (rotl32 (u32 (k1 * 0xcc9e2d51)) 15 * 0x1b873593)

unfoldable pub mix_block : (h1 k1 : ℕ) → ℕ
mix_block h1 k1 = u32 (u32 (rotl32 (bit_xor h1 (mix_key k1)) 13 * 5) + 0xe6546b64)

unfoldable pub blocks_loop : (left i h1 : ℕ) → List ℕ → Run ℕ
blocks_loop zero i h1 bytes = ok h1
blocks_loop (suc left) i h1 bytes = do
  a ← cell bytes (i * 4 + 0)
  b ← cell bytes (i * 4 + 1)
  c ← cell bytes (i * 4 + 2)
  d ← cell bytes (i * 4 + 3)
  let k1 = bit_or (bit_or (bit_or a (u32 (b <<< 8))) (u32 (c <<< 16))) (u32 (d <<< 24))
  blocks_loop left (i + 1) (mix_block h1 k1) bytes

-- The cases of the switch fall through from 3 to 1.
unfoldable pub tail_one : (start h1 k1 : ℕ) → List ℕ → Run ℕ
tail_one start h1 k1 bytes = do a ← cell bytes (start + 0); ok (bit_xor h1 (mix_key (bit_xor k1 a)))

unfoldable pub tail_two : (start h1 k1 : ℕ) → List ℕ → Run ℕ
tail_two start h1 k1 bytes = do
  b ← cell bytes (start + 1)
  tail_one start h1 (bit_xor k1 (u32 (b <<< 8))) bytes

unfoldable pub tail_three : (start h1 k1 : ℕ) → List ℕ → Run ℕ
tail_three start h1 k1 bytes = do
  c ← cell bytes (start + 2)
  tail_two start h1 (bit_xor k1 (u32 (c <<< 16))) bytes

unfoldable pub mix_tail : (rest start h1 : ℕ) → List ℕ → Run ℕ
mix_tail rest start h1 bytes =
    if rest == 3
    then tail_three start h1 0 bytes
    else if rest == 2
    then tail_two start h1 0 bytes
    else if rest == 1
    then tail_one start h1 0 bytes
    else ok h1

unfoldable pub finish : ℕ → ℕ
finish h =
    let h = bit_xor h (h >>> 16) in
    let h = u32 (h * 0x85ebca6b) in
    let h = bit_xor h (h >>> 13) in let h = u32 (h * 0xc2b2ae35) in bit_xor h (h >>> 16)

unfoldable pub murmurhash3_32 : (key : List ℕ) (seed : ℕ) → Run ℕ
murmurhash3_32 key seed = do
  let len = length key
  let nblocks = len / 4
  h1 ← blocks_loop nblocks 0 seed key
  h1 ← mix_tail (bit_and len 3) (nblocks * 4) h1 key
  ok (finish (bit_xor h1 (u32 len)))
