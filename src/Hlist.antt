-- ===== src/Hlist.antt =====
-- The hash lists of linux2026-quiz3-labs/labs/bc_list_hlist/bc_list_hlist.c, whose nodes point back
-- to the pointer that leads to them. The nodes are named by numbers and live as long as the list.
pub mod Linked
pub mod Change
pub mod Delete
pub mod Sequence
mod Tests
use linux.Base.{ℕ, ◌==◌, if◌then◌else◌}
use linux.Base.Run.{Run, ok, undefined, null_pointer, wild_pointer, ◌>>=◌}

-- `struct hlist_node *`; LIST_POISON1 is no address of a node.
pub data Pointer : Type 0 where
  null : Pointer
  node_at : ℕ → Pointer
  poison : Pointer

-- The pointers that lead to a node: `head->first`, and `next` of a node.
pub data Place : Type 0 where
  head_first : Place
  next_of : ℕ → Place

-- `struct hlist_node **`
pub data PlacePointer : Type 0 where
  no_place : PlacePointer
  place : Place → PlacePointer
  poison_place : PlacePointer

-- A head and the nodes.
pub record Hlist : Type 0 where
  pub first : Pointer
  pub next : ℕ → Pointer
  pub pprev : ℕ → PlacePointer

abbrev pub update {ℓ} : {A : Type ℓ} → (ℕ → A) → ℕ → A → ℕ → A
update f i v j = if i == j then v else f j

unfoldable pub init_hlist_head : Hlist → Hlist
init_hlist_head s = record s { first = null }

unfoldable pub init_hlist_node : (n : ℕ) → Hlist → Hlist
init_hlist_node n s = record s { next = update s.next n null; pprev = update s.pprev n no_place }

-- `*pl`, and `*pl = p`
abbrev pub load_at : Hlist → Place → Pointer
load_at s head_first = s.first
load_at s (next_of i) = s.next i

abbrev pub store_at : Hlist → Place → Pointer → Hlist
store_at s head_first p = record s { first = p }
store_at s (next_of i) p = record s { next = update s.next i p }

-- `if (p) p->pprev = back;`
unfoldable pub set_back : Pointer → PlacePointer → Hlist → Run Hlist
set_back null back s = ok s
set_back (node_at i) back s = ok (record s { pprev = update s.pprev i back })
set_back poison back s = undefined wild_pointer

-- `*pp = p`
unfoldable pub store_through : PlacePointer → Pointer → Hlist → Run Hlist
store_through no_place p s = undefined null_pointer
store_through (place pl) p s = ok (store_at s pl p)
store_through poison_place p s = undefined wild_pointer

-- The rest of `hlist_add_head`, for the first node that it has read.
unfoldable pub add_before : (first : Pointer) (n : ℕ) → Hlist → Run Hlist
add_before first n s = do
  t ← set_back first (place (next_of n)) (record s { next = update s.next n first })
  ok (record t { first = node_at n; pprev = update t.pprev n (place head_first) })

unfoldable pub hlist_add_head : (n : ℕ) → Hlist → Run Hlist
hlist_add_head n s = add_before s.first n s

abbrev pub poisoned : ℕ → Hlist → Hlist
poisoned n s = record s { next = update s.next n poison; pprev = update s.pprev n poison_place }

-- `*node->pprev = node->next` and the poison, for the two pointers read before.
unfoldable pub unlink : PlacePointer → (next : Pointer) (n : ℕ) → Hlist → Run Hlist
unlink back next n s = do t ← store_through back next s; ok (poisoned n t)

unfoldable pub del_linked : PlacePointer → (next : Pointer) (n : ℕ) → Hlist → Run Hlist
del_linked back next n s = do t ← set_back next back s; unlink (t.pprev n) (t.next n) n t

-- The rest of `hlist_del`, for the `pprev` that it has tested.
unfoldable pub del_hashed : PlacePointer → (n : ℕ) → Hlist → Run Hlist
del_hashed no_place n s = ok s
del_hashed back n s = del_linked back (s.next n) n s

unfoldable pub hlist_del : (n : ℕ) → Hlist → Run Hlist
hlist_del n s = del_hashed (s.pprev n) n s
