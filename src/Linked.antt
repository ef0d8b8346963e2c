-- ===== src/Linked.antt =====
-- The linked lists of linked-list-cache-lab: list.h, the two middle searches, and the linking of the
-- nodes in alloc.c.
pub mod Middle
pub mod Build
pub mod Modes
pub mod Handle
pub mod EachNode
pub mod Alloc
mod Tests
use linux.Base.{
  ℕ, zero, suc, ◌+◌, ◌-◌, ◌*◌, ◌/◌, ◌%◌, ◌^◌, List, [], ◌∷◌, Option, none, some, get_elem?, set,
  Bool, true, false, ◌==◌, if◌then◌else◌, bit_xor, length,
}
use linux.Base.Run.{
  Run, ok, undefined, out_of_fuel, null_pointer, wild_pointer, out_of_bounds, or_undefined, ◌>>=◌,
}
use linux.Base.Word.{u64, ◌>>>◌}

-- A pointer is `none` for NULL, or the index of a node in the store.
pub record Node : Type 0 where
  pub next : Option ℕ
  pub payload : ℕ

abbrev pub Store : Type 0
Store = List Node

abbrev pub deref : Store → Option ℕ → Run Node
deref store none = undefined null_pointer
deref store (some a) = or_undefined wild_pointer (get_elem? store a)

-- The loop of `middle_fast_slow`: each round reads `fast->next` for the test, and then moves both.
unfoldable pub fast_slow_loop : Store → ℕ → (slow fast : Option ℕ) → Run (Option ℕ)
fast_slow_loop store zero slow fast = out_of_fuel
fast_slow_loop store (suc fuel) slow none = ok slow
fast_slow_loop store (suc fuel) slow (some f) = deref store (some f) >>= λ n. elim n.next [
  | none ↦ ok slow
  | some g ↦ deref store slow >>= λ s.
      deref store (some g) >>= λ m. fast_slow_loop store fuel s.next m.next
]

unfoldable pub middle_fast_slow : Store → (fuel : ℕ) → (head : Option ℕ) → Run (Option ℕ)
middle_fast_slow store fuel head = fast_slow_loop store fuel head head

-- The first pass counts in a `size_t`.
unfoldable pub count_loop : Store → (fuel : ℕ) → (cursor : Option ℕ) → (count : ℕ) → Run ℕ
count_loop store zero cursor count = out_of_fuel
count_loop store (suc fuel) none count = ok count
count_loop store (suc fuel) (some a) count =
    deref store (some a) >>= λ n. count_loop store fuel n.next (u64 (count + 1))

-- The second pass, with `left` rounds to go.
unfoldable pub advance_loop : Store → (left : ℕ) → (middle : Option ℕ) → Run (Option ℕ)
advance_loop store zero middle = ok middle
advance_loop store (suc left) middle = deref store middle >>= λ n. advance_loop store left n.next

unfoldable pub middle_two_pass : Store → (fuel : ℕ) → (head : Option ℕ) → Run (Option ℕ)
middle_two_pass store fuel head =
    count_loop store fuel head 0 >>= λ count. advance_loop store (count / 2) head
