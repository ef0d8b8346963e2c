-- ===== src/Search/Tests.antt =====
-- The three layouts on a few keys.
use linux.Base.{ℕ, ◌≡◌, refl, List, [], ◌∷◌, some, true, arith, zero, suc}
use linux.Base.Run.{ok}
use linux.Search.{
  array_lookup, block_lookup, block_build, BlockIndex, copied, max_keys_loop, last_of_block, Tree,
  leaf, node, node_insert,
}
use linux.Search.Lower.{IsSorted}
use linux.Search.Lookup.{Finds}
use linux.Search.Blocks.{block_lookup-array_lookup}
use linux.Search.Ordered.{IsInserted, node_insert-IsInserted}

abbrev few_keys : List ℕ
few_keys = 3 ∷ 5 ∷ 9 ∷ []

abbrev few_values : List ℕ
few_values = 30 ∷ 50 ∷ 90 ∷ []

few_keys-IsSorted : IsSorted few_keys
few_keys-IsSorted zero zero h l = omega arith
few_keys-IsSorted zero (suc zero) h l = omega arith
few_keys-IsSorted zero (suc (suc zero)) h l = omega arith
few_keys-IsSorted (suc zero) (suc zero) h l = omega arith
few_keys-IsSorted (suc zero) (suc (suc zero)) h l = omega arith
few_keys-IsSorted (suc (suc zero)) (suc (suc zero)) h l = omega arith
few_keys-IsSorted i (suc (suc (suc j))) h l = absurd (omega arith)
few_keys-IsSorted (suc i) zero h l = absurd (omega arith)
few_keys-IsSorted (suc (suc i)) (suc zero) h l = absurd (omega arith)
few_keys-IsSorted (suc (suc (suc i))) (suc (suc zero)) h l = absurd (omega arith)

abbrev few_blocks : BlockIndex
few_blocks = record { nblocks = 1; max_keys = 9 ∷ []; keys = few_keys; values = few_values }

built : block_build true few_keys few_values 3 ≡ ok (some few_blocks)
unfolding block_build copied max_keys_loop last_of_block
built = refl

block_lookup-array_lookup_example :
    (idx : BlockIndex) × (block_build true few_keys few_values 3 ≡ ok (some idx))
    × (value : ℕ) × (block_lookup idx 3 9 ≡ ok value)
    × (array_lookup few_keys few_values 3 9 ≡ ok value)
    × Finds few_keys few_values 9 value
block_lookup-array_lookup_example =
    block_lookup-array_lookup few_keys few_values 9 few_keys-IsSorted refl (omega arith)

abbrev one_node : Tree
one_node = node 4 40 leaf leaf

node_insert-IsInserted_example :
    (t' : Tree) × (node_insert true one_node 2 20 ≡ some t') × IsInserted one_node 2 20 t'
node_insert-IsInserted_example = node_insert-IsInserted one_node 2 20 (tt, tt, tt, tt)
