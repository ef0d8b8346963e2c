-- ===== src/Trees/Agree.antt =====
-- Both trees over the same keys answer alike.
use linux.Base.{ℕ, ◌≤◌, ◌≡◌, refl, ◌∙◌, ap, List, length, Bool, true}
use linux.Base.Int.{ℤ}
use linux.Base.Run.{ok, Gives, Gives-at, Gives-value}
use linux.Base.Memory.{Memory}
use linux.Trees.Btree.{BtreeTree, btree_tree_init, btree_tree_lookup}
use linux.Trees.Btree.Find.{Answer, found, absent, IsAscending}
use linux.Trees.Btree.Init as Wide
use linux.Trees.Bst.{BstTree, bst_tree_init, bst_tree_lookup}
use linux.Trees.Bst.Init as Binary

Answer-unique :
    {a : List ℤ} {lo hi : ℕ} {key r r' : ℤ} → Answer a lo hi key r → Answer a lo hi key r' → r ≡ r'
Answer-unique (found i p q e) (found j p' q' e') = refl
Answer-unique (found i p q e) (absent f) = absurd (f i p q e)
Answer-unique (absent f) (found i p q e) = absurd (f i p q e)
Answer-unique (absent f) (absent g) = refl

wide_lookups :
    {grants : ℕ → Bool} {keys : List ℤ} {n : ℕ} {f : ℕ → ℕ} {tree : BtreeTree} {m : Memory}
    → Wide.Opened grants keys n f (true, tree, m)
    → (key : ℤ) → Gives (Answer keys 0 n key) (btree_tree_lookup tree key)
wide_lookups (Wide.opened tree m lookups release) = lookups

binary_lookups :
    {grants : ℕ → Bool} {keys : List ℤ} {n : ℕ} {f : ℕ → ℕ} {tree : BstTree} {m : Memory}
    → Binary.Opened grants keys n f (true, tree, m)
    → (key : ℤ) → Answer keys 0 n key (bst_tree_lookup tree key)
binary_lookups (Binary.opened tree m lookups release) = lookups

-- If both trees are built over the same ascending keys, with whatever seed and memory, they return
-- the same for every key, and the search of the B-tree reads only what exists.
pub btree_tree_lookup-bst_tree_lookup :
    (keys : List ℤ) (n seed : ℕ) (grants grants' : ℕ → Bool) (m m' : Memory) (wide : BtreeTree)
    (w : Memory) (binary : BstTree) (b : Memory)
    → n ≤ length keys
    → IsAscending keys n
    → btree_tree_init grants keys n m ≡ ok (true, wide, w)
    → bst_tree_init grants' keys n seed m' ≡ ok (true, binary, b)
    → (key : ℤ) → btree_tree_lookup wide key ≡ ok (bst_tree_lookup binary key)
btree_tree_lookup-bst_tree_lookup keys n seed grants grants' m m' wide w binary b l s e e' key =
    let (r, same, answer) = Gives-value (
      wide_lookups (Gives-at (true, wide, w) (Wide.btree_tree_init-Opened grants keys n m l s) e)
        key) in
    let answer' =
      binary_lookups
        (Gives-at (true, binary, b) (Binary.bst_tree_init-Opened grants' keys n seed m' l s) e')
        key in
    same ∙ ap ok (Answer-unique answer answer')
