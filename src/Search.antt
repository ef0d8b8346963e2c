-- ===== src/Search.antt =====
-- The three search layouts of tree_cache_lab.c: a sorted array, blocks with their greatest keys, and
-- a binary tree.
pub mod Lower
pub mod Lookup
pub mod Parts
pub mod Blocks
pub mod Ordered
mod Tests
use linux.Base.{
  ℕ, zero, suc, ◌+◌, ◌-◌, ◌*◌, ◌/◌, ◌%◌, ◌^◌, List, [], ◌∷◌, Option, none, some, get_elem?, take,
  Bool, true, false, ltb, leb, ◌==◌, if◌then◌else◌, length,
}
use linux.Base.Run.{Run, ok, undefined, out_of_fuel, out_of_bounds, or_undefined, ◌>>=◌}
use linux.Base.Word.{u64}

abbrev pub read : List ℕ → ℕ → Run ℕ
read cells i = or_undefined out_of_bounds (get_elem? cells i)

-- `while (lo < hi)` over the cells, which both searches by halving have; the result is `lo`.
unfoldable pub halving_loop : (fuel : ℕ) → List ℕ → (key lo hi : ℕ) → Run ℕ
halving_loop zero cells key lo hi = if ltb lo hi then out_of_fuel else ok lo
halving_loop (suc fuel) cells key lo hi =
    if ltb lo hi
    then (let mid = lo + (hi - lo) / 2 in
        read cells mid >>= λ cell.
        let right = ltb cell key in
        halving_loop fuel cells key (if right then mid + 1 else lo) (if right then hi else mid))
    else ok lo

-- The fuel is the number of cells.
unfoldable pub array_lookup : (keys values : List ℕ) → (n key : ℕ) → Run ℕ
array_lookup keys values n key = halving_loop n keys key 0 n >>= λ lo.
    if ltb lo n then (read keys lo >>= λ k. if k == key then read values lo else ok 0) else ok 0

abbrev pub block_size : ℕ
block_size = 32

pub record BlockIndex : Type 0 where
  pub nblocks : ℕ
  pub max_keys : List ℕ
  pub keys : List ℕ
  pub values : List ℕ

-- The last index of block `b`: `end - 1`.
unfoldable pub last_of_block : (b n : ℕ) → ℕ
last_of_block b n = let stop = u64 ((b + 1) * block_size) in (if ltb n stop then n else stop) - 1

-- The loop over the blocks from `b` on, with `left` to go.
unfoldable pub max_keys_loop : (left b : ℕ) → (keys : List ℕ) → (n : ℕ) → Run (List ℕ)
max_keys_loop zero b keys n = ok []
max_keys_loop (suc left) b keys n =
    read keys (last_of_block b n) >>= λ k. max_keys_loop left (b + 1) keys n >>= λ ks. ok (k ∷ ks)

-- `memcpy` of `n` entries into a new array of as many.
unfoldable pub copied : (n : ℕ) → List ℕ → Run (List ℕ)
copied n cells = if leb n (length cells) then ok (take n cells) else undefined out_of_bounds

-- `allocated` says whether all three allocations succeed; else the program exits.
unfoldable pub block_build :
    (allocated : Bool) → (keys values : List ℕ) → (n : ℕ) → Run (Option BlockIndex)
block_build false keys values n = ok none
block_build true keys values n =
    let nblocks = u64 (n + block_size - 1) / block_size in
    copied n keys >>= λ keys'. copied n values >>= λ values'.
    max_keys_loop nblocks 0 keys n >>= λ max_keys.
    ok (some record { nblocks = nblocks; max_keys = max_keys; keys = keys'; values = values' })

-- The scan of a block from index `i` on, with `left` indices to go.
unfoldable pub scan_loop : (left : ℕ) → (keys values : List ℕ) → (i key : ℕ) → Run ℕ
scan_loop zero keys values i key = ok 0
scan_loop (suc left) keys values i key =
    let rest = scan_loop left keys values (i + 1) key in
    read keys i >>= λ k. if k == key then read values i else rest

unfoldable pub block_lookup : BlockIndex → (n key : ℕ) → Run ℕ
block_lookup idx n key = halving_loop idx.nblocks idx.max_keys key 0 idx.nblocks >>= λ lo.
    let start = u64 (lo * block_size) in
    let stop = u64 (start + block_size) in
    let stop' = if ltb n stop then n else stop in
    if lo == idx.nblocks then ok 0 else scan_loop (stop' - start) idx.keys idx.values start key

-- `struct node`; `NULL` is `leaf`.
pub data Tree : Type 0 where
  leaf : Tree
  node : (key value : ℕ) → (left right : Tree) → Tree

-- `root->left = ...` and `root->right = ...`.
abbrev pub set_left : (key value : ℕ) → (right : Tree) → Option Tree → Option Tree
set_left key value right none = none
set_left key value right (some left) = some (node key value left right)

abbrev pub set_right : (key value : ℕ) → (left : Tree) → Option Tree → Option Tree
set_right key value left none = none
set_right key value left (some right) = some (node key value left right)

-- `allocated` says whether `malloc` succeeds where it is called; else the program exits.
unfoldable pub node_insert : (allocated : Bool) → Tree → (key value : ℕ) → Option Tree
node_insert false leaf key value = none
node_insert true leaf key value = some (node key value leaf leaf)
node_insert allocated (node k v l r) key value =
    let insert_left = node_insert allocated l key value in
    let insert_right = node_insert allocated r key value in
    if ltb key k
    then set_left k v r insert_left
    else if ltb k key
    then set_right k v l insert_right
    else some (node k value l r)

unfoldable pub node_lookup : Tree → (key : ℕ) → ℕ
node_lookup leaf key = 0
node_lookup (node k v l r) key =
    let lookup_left = node_lookup l key in
    let lookup_right = node_lookup r key in
    if ltb key k then lookup_left else if ltb k key then lookup_right else v
