-- ===== src/Queue.antt =====
-- The run queue of the scheduler: the doubly linked list of list.h, and what main.c does with it.
pub mod Links
pub mod Add
pub mod Remove
pub mod Values
pub mod Rounds
pub mod Seed
mod Tests
use linux.Base.{
  ℕ, zero, suc, ◌+◌, ◌%◌, List, [], ◌∷◌, Option, none, some, Bool, true, false, ltb, ◌==◌,
  if◌then◌else◌, get_or, set, length, replicate, bit_xor,
}
use linux.Base.Run.{Run, ok, undefined, out_of_fuel, null_pointer, ◌>>=◌}
use linux.Base.Arrays.{cell, set_cell}
use linux.Base.Word.{u64}

-- `list_node_t`, in an array of them; a pointer is `none` for NULL, or an index of the array.
pub record ListNode : Type 0 where
  pub prev : Option ℕ
  pub next : Option ℕ
  pub value : ℕ

-- `list_t`
pub record Queue : Type 0 where
  pub head : Option ℕ
  pub tail : Option ℕ

abbrev pub Nodes : Type 0
Nodes = List ListNode

abbrev pub QueueResult : Type 0
QueueResult = Run (Queue × Nodes)

unfoldable pub list_init : Queue
list_init = record { head = none; tail = none }

-- The writes `node->prev = prev` and `node->next = next`.
unfoldable pub set_prev : Nodes → (node : ℕ) → (prev : Option ℕ) → Run Nodes
set_prev nodes node prev = cell nodes node >>= λ n. set_cell nodes node (record n { prev = prev })

unfoldable pub set_next : Nodes → (node : ℕ) → (next : Option ℕ) → Run Nodes
set_next nodes node next = cell nodes node >>= λ n. set_cell nodes node (record n { next = next })

unfoldable pub list_add_front : Queue → (node : ℕ) → Nodes → QueueResult
list_add_front list node nodes = set_prev nodes node none >>= λ nodes1.
    set_next nodes1 node list.head >>= λ nodes2. elim list.head [
      | none ↦ ok (record { head = some node; tail = some node }, nodes2)
      | some h ↦ set_prev nodes2 h (some node) >>= λ nodes3.
          ok (record { head = some node; tail = list.tail }, nodes3)
    ]

unfoldable pub list_add_back : Queue → (node : ℕ) → Nodes → QueueResult
list_add_back list node nodes = set_next nodes node none >>= λ nodes1.
    set_prev nodes1 node list.tail >>= λ nodes2. elim list.tail [
      | none ↦ ok (record { head = some node; tail = some node }, nodes2)
      | some t ↦ set_next nodes2 t (some node) >>= λ nodes3.
          ok (record { head = list.head; tail = some node }, nodes3)
    ]

-- The first half of `list_remove`: the node before, or the head, points to the next one.
unfoldable pub unlink_next : Queue → (prev next : Option ℕ) → Nodes → QueueResult
unlink_next list none next nodes = ok (record { head = next; tail = list.tail }, nodes)
unlink_next list (some p) next nodes = set_next nodes p next >>= λ nodes1. ok (list, nodes1)

-- The second: the node after, or the tail, points to the one before.
unfoldable pub unlink_prev : Queue → (prev next : Option ℕ) → Nodes → QueueResult
unlink_prev list prev none nodes = ok (record { head = list.head; tail = prev }, nodes)
unlink_prev list prev (some x) nodes = set_prev nodes x prev >>= λ nodes1. ok (list, nodes1)

unfoldable pub list_remove : Queue → (node : ℕ) → Nodes → QueueResult
list_remove list node nodes = cell nodes node >>= λ n.
    unlink_next list n.prev n.next nodes >>= λ (list1, nodes1). cell nodes1 node >>= λ n1.
    unlink_prev list1 n1.prev n1.next nodes1 >>= λ (list2, nodes2).
    set_prev nodes2 node none >>= λ nodes3.
    set_next nodes3 node none >>= λ nodes4. ok (list2, nodes4)

-- `node->value ^= 1`
unfoldable pub flip_value : Nodes → (node : ℕ) → Run Nodes
flip_value nodes node =
    cell nodes node >>= λ n. set_cell nodes node (record n { value = bit_xor n.value 1 })

-- The rest of `simulate_context_switch`, for the head that it has read.
unfoldable pub switch_at : (head : Option ℕ) → Queue → Nodes → QueueResult
switch_at none list nodes = ok (list, nodes)
switch_at (some head) list nodes = list_remove list head nodes >>= λ (list1, nodes1).
    flip_value nodes1 head >>= λ nodes2. list_add_back list1 head nodes2

unfoldable pub simulate_context_switch : Queue → Nodes → QueueResult
simulate_context_switch list nodes = switch_at list.head list nodes

abbrev pub node_count : ℕ
node_count = 32

-- The loop of `runqueue_seed` from node `i` on.
unfoldable pub seed_loop : (left i : ℕ) → Queue → Nodes → QueueResult
seed_loop zero i list nodes = ok (list, nodes)
seed_loop (suc left) i list nodes =
    set_cell nodes i record { prev = none; next = none; value = i } >>= λ nodes1.
    list_add_back list i nodes1 >>= λ (list1, nodes2). seed_loop left (i + 1) list1 nodes2

unfoldable pub runqueue_seed : Nodes → QueueResult
runqueue_seed nodes = seed_loop node_count 0 list_init nodes

-- `for (node = head; node; node = node->next)`
unfoldable pub touch_loop : (fuel : ℕ) → (node : Option ℕ) → Nodes → Run Nodes
touch_loop zero cursor nodes = out_of_fuel
touch_loop (suc fuel) none nodes = ok nodes
touch_loop (suc fuel) (some cursor) nodes =
    flip_value nodes cursor >>= λ nodes1. cell nodes1 cursor >>= λ n. touch_loop fuel n.next nodes1

-- The fuel is one more than the number of nodes.
unfoldable pub touch_runqueue : Queue → Nodes → Run Nodes
touch_runqueue list nodes = touch_loop (length nodes + 1) list.head nodes

-- What runs in safe mode without being interrupted: the handler of a tick, and a round of the loop
-- of `busy_mutate_safe` while the signal is blocked.
pub data Event : Type 0 where
  tick round : Event

-- `iter`, the queue and the nodes.
abbrev pub State : Type 0
State = ℕ × Queue × Nodes

unfoldable pub safe_step : Event → State → Run State
safe_step tick (iter, list, nodes) =
    simulate_context_switch list nodes >>= λ (list1, nodes1). ok (iter, list1, nodes1)
safe_step round (iter, list, nodes) =
    let node = iter % node_count in
    list_remove list node nodes >>= λ (list1, nodes1). touch_runqueue list1 nodes1 >>= λ nodes2.
    list_add_front list1 node nodes2 >>= λ (list2, nodes3). ok (u64 (iter + 1), list2, nodes3)

unfoldable pub safe_run : List Event → State → Run State
safe_run [] state = ok state
safe_run (event ∷ events) state = safe_step event state >>= safe_run events
