-- ===== src/Bloom/Tests.antt =====
-- The hashes at known strings, and the filter at the keys of main.
use linux.Base.{ℕ, ◌^◌, ◌<◌, ◌≡◌, refl, List, [], ◌∷◌}
use linux.Base.Run.{ok, Gives}
use linux.Bloom.{bitset_clear, insert_keys}
use linux.Bloom.Hash.{
  rotl32, simple_sum_hash, mix_key, mix_block, blocks_loop, mix_tail, finish, murmurhash3_32,
}
use linux.Bloom.Member.{Probed, simple_sum_hash-Gives, murmurhash3_32-lt, insert_keys-Grown}
use linux.Bloom.Set.{Grown}

abbrev simple : List ℕ
simple = b's' ∷ b'i' ∷ b'm' ∷ b'p' ∷ b'l' ∷ b'e' ∷ []

-- The published values of the hash for "test" and for the empty string.
known_block : murmurhash3_32 (b't' ∷ b'e' ∷ b's' ∷ b't' ∷ []) 0 ≡ ok 0xba6bd213
unfolding murmurhash3_32 blocks_loop mix_block mix_key mix_tail finish rotl32
known_block = refl

known_empty : murmurhash3_32 [] 1 ≡ ok 0x514e28b7
unfolding murmurhash3_32 blocks_loop mix_tail finish
known_empty = refl

murmurhash3_32-lt_example : Gives (λ h. h < 2 ^ 32) (murmurhash3_32 simple 7)
murmurhash3_32-lt_example = murmurhash3_32-lt simple 7

insert_keys-Grown_example :
    Gives
      (Grown (Probed simple_sum_hash simple 0 500) bitset_clear)
      (insert_keys bitset_clear simple_sum_hash simple)
insert_keys-Grown_example =
    insert_keys-Grown simple_sum_hash simple simple_sum_hash-Gives bitset_clear refl
