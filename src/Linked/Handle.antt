-- ===== src/Linked/Handle.antt =====
-- `struct list_handle` of list.h, and the heap that alloc.c works on.
use linux.Base.{ℕ, Option, none, List, [], Bool}
use linux.Base.Run.{Run}
use linux.Base.Memory.{Memory}
use linux.Linked.{Node, Store}
use linux.Linked.Modes.{AllocMode, alloc_contiguous}

-- `struct list_handle`: `storage` and `indirect` are blocks, `node_blocks` those that `indirect` points
-- to where each node has its own.
pub record ListHandle : Type 0 where
  pub head : Option ℕ
  pub n : ℕ
  pub mode : AllocMode
  pub spread_bytes : ℕ
  pub storage : Option ℕ
  pub indirect : Option ℕ
  pub node_blocks : List ℕ
  pub storage_len : ℕ

-- After the `memset`, and with the three fields that `list_build` sets.
abbrev pub fresh_handle : (n : ℕ) → AllocMode → (spread_bytes : ℕ) → ListHandle
fresh_handle n mode spread_bytes = record {
  head = none;
  n = n;
  mode = mode;
  spread_bytes = spread_bytes;
  storage = none;
  indirect = none;
  node_blocks = [];
  storage_len = 0;
}

abbrev pub empty_handle : ListHandle
empty_handle = fresh_handle 0 alloc_contiguous 0

-- The nodes and the blocks of memory. A new node gets the next address of the store; one whose block
-- is freed stays there, and nothing points to it any more.
pub record Heap : Type 0 where
  pub store : Store
  pub memory : Memory

-- Whether the result is 0 (it is -1 otherwise), the handle and the heap.
abbrev pub BuildResult : Type 0
BuildResult = Run (Bool × ListHandle × Heap)

abbrev pub zero_node : Node
zero_node = record { next = none; payload = 0 }

abbrev pub node_size : ℕ
node_size = 16
