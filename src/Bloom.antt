-- ===== src/Bloom.antt =====
-- The Bloom filter of linux2026-quiz8-labs/src/bloom_filter/main.c: a set of bits in an array of
-- words, and the keys that are put into it.
pub mod Hash
pub mod Set
pub mod Member
mod Tests
use linux.Base.{ℕ, zero, suc, ◌+◌, ◌*◌, ◌/◌, ◌%◌, ◌^◌, List, [], ◌∷◌, ◌++◌, take, bit_or}
use linux.Base.Arrays.{cell, set_cell}
use linux.Base.Run.{Run, ok, ◌>>=◌}
use linux.Base.Word.{u32, ◌<<<◌}
use linux.Bloom.Hash.{murmurhash3_32}

abbrev pub bitset_words : ℕ
bitset_words = 128

abbrev pub bitset_bits : ℕ
bitset_bits = bitset_words * 32

abbrev pub hash_probes : ℕ
hash_probes = 6

abbrev pub zeros : ℕ → List ℕ
zeros zero = []
zeros (suc n) = 0 ∷ zeros n

-- Every word of the array is cleared.
abbrev pub bitset_clear : List ℕ
bitset_clear = zeros bitset_words

unfoldable pub bitset_set : (bits : List ℕ) (index : ℕ) → Run (List ℕ)
bitset_set bits index = do
  word ← cell bits (index / 32)
  set_cell bits (index / 32) (bit_or word (u32 (1 <<< (index % 32))))

unfoldable pub derive_index : (h1 h2 probe : ℕ) → ℕ
derive_index h1 h2 probe =
    let odd = bit_or h2 1 in
    u32 (u32 (h1 + u32 (u32 probe * odd)) + u32 (u32 (probe * probe + 1) * 0x9e3779b9))
    % bitset_bits

unfoldable pub strong_hash : List ℕ → Run ℕ
strong_hash s = murmurhash3_32 s 0x9747b28c

unfoldable pub probe_loop : (left probe h1 h2 : ℕ) → List ℕ → Run (List ℕ)
probe_loop zero probe h1 h2 bits = ok bits
probe_loop (suc left) probe h1 h2 bits = do
  bits ← bitset_set bits (derive_index h1 h2 probe)
  probe_loop left (probe + 1) h1 h2 bits

-- `snprintf(key, sizeof(key), "%s-key-%03d", label, i)` for an `i` of at most three digits.
unfoldable pub key_text : (label : List ℕ) (i : ℕ) → List ℕ
key_text label i = take 63 (
    label
    ++ (b'-' ∷ b'k' ∷ b'e' ∷ b'y' ∷ b'-' ∷ [])
    ++ (b'0' + i / 100) ∷ (b'0' + i / 10 % 10) ∷ (b'0' + i % 10) ∷ [])

unfoldable pub insert_loop :
    (hash_fn : List ℕ → Run ℕ) (label : List ℕ) (left i : ℕ) → List ℕ → Run (List ℕ)
insert_loop hash_fn label zero i bits = ok bits
insert_loop hash_fn label (suc left) i bits = do
  let key = key_text label i
  h1 ← hash_fn key
  h2 ← strong_hash key
  bits ← probe_loop hash_probes 0 h1 h2 bits
  insert_loop hash_fn label left (i + 1) bits

unfoldable pub insert_keys :
    (bits : List ℕ) (hash_fn : List ℕ → Run ℕ) (label : List ℕ) → Run (List ℕ)
insert_keys bits hash_fn label = insert_loop hash_fn label 500 0 bits
