-- ===== src/Packing/Tests.antt =====
-- Packing at the numbers of the file's first case.
use linux.Base.{ℕ, ◌≤◌, ◌<◌, ◌≡◌, refl, arith, List, [], ◌∷◌, length, get_or, bit_and}
use linux.Base.Run.{ok, Gives}
use linux.Packing.{
  bytes_for, low_mask, pack_bits, pack_from, pack_indices, unpack_bits, unpack_from, unpack_indices,
}
use linux.Packing.RoundTrip.{unpack_indices-pack_indices}

abbrev indices : List ℕ
indices = 5 ∷ 3 ∷ 7 ∷ []

packed_indices : pack_indices indices (9 ∷ 9 ∷ []) 3 3 ≡ ok (0xdd ∷ 0x01 ∷ [])
unfolding pack_indices bytes_for pack_from pack_bits
packed_indices = refl

unpacked_indices : unpack_indices (0xdd ∷ 0x01 ∷ []) (0 ∷ 0 ∷ 0 ∷ []) 3 3 ≡ ok indices
unfolding unpack_indices unpack_from unpack_bits
unpacked_indices = refl

unpack_indices-pack_indices_example :
    Gives
      (λ q.
        Gives
          (λ r.
            (length r ≡ 3)
            × ((k : ℕ) → k < 3 → get_or r k 0 ≡ bit_and (get_or indices k 0) (low_mask 3))
            × ((k : ℕ) → 3 ≤ k → get_or r k 0 ≡ get_or (0 ∷ 0 ∷ 0 ∷ []) k 0))
          (unpack_indices q (0 ∷ 0 ∷ 0 ∷ []) 3 3))
      (pack_indices indices (9 ∷ 9 ∷ []) 3 3)
unpack_indices-pack_indices_example =
    unpack_indices-pack_indices indices (9 ∷ 9 ∷ []) (0 ∷ 0 ∷ 0 ∷ []) 3 3 (omega arith)
      (omega arith) (omega arith) (omega arith) (omega arith)
