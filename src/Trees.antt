-- ===== src/Trees.antt =====
-- The search trees of tree_cache_locality's tree.c: what both have in common.
pub mod Btree
pub mod Bst
pub mod Agree
mod Tests
use Prim.Native.String.{String}
use text.Mathlib.Text.{◌==◌ as str_eq}
use linux.Base.{ℕ, zero, suc, ◌+◌, List, [], ◌∷◌, Bool, true, false, ◌==◌, if◌then◌else◌, bit_xor}
use linux.Base.Word.{u64, ◌<<<◌, ◌>>>◌}

-- The state that the call leaves, which is its result too.
unfoldable pub next_rng : ℕ → ℕ
next_rng state =
    let x1 = bit_xor state (u64 (state <<< 13)) in
    let x2 = bit_xor x1 (x1 >>> 7) in bit_xor x2 (u64 (x2 <<< 17))

pub data TreeMode : Type 0 where
  bst btree16 : TreeMode

unfoldable pub mode_name : TreeMode → String
mode_name bst = "bst"
mode_name btree16 = "btree16"

-- The mode, and whether the name is one: `*ok`.
unfoldable pub parse_mode : String → TreeMode × Bool
parse_mode name =
    if str_eq name "bst"
    then (bst, true)
    else if str_eq name "btree16"
    then (btree16, true)
    else (bst, false)
