-- ===== src/Linked/Build.antt =====
-- Filling, shuffling and linking the nodes: the helpers of alloc.c.
pub mod Distinct
pub mod Links
pub mod Chained
pub mod Size
use linux.Base.{
  ℕ, zero, suc, ◌+◌, ◌-◌, ◌*◌, ◌/◌, ◌%◌, ◌^◌, List, [], ◌∷◌, none, some, get_elem?, set, ◌==◌,
  if◌then◌else◌, bit_xor, ltb, Bool, true, false, ◌||◌, Option,
}
use linux.Base.Run.{Run, ok, or_undefined, wild_pointer, out_of_bounds, ◌>>=◌}
use linux.Base.Arrays.{cell, set_cell}
use linux.Base.Word.{u64, ◌>>>◌}
use linux.Linked.{Node, Store}

-- The result and what is stored in `*out`; nothing is stored where the result is `false`.
unfoldable pub checked_mul_size : ℕ → ℕ → Option ℕ
checked_mul_size a b =
    if a == 0 || b == 0
    then some 0
    else if ltb ((2 ^ 64 - 1) / b) a
    then none
    else some (u64 (a * b))

abbrev pub splitmix64_state : ℕ → ℕ
splitmix64_state state = u64 (state + 0x9e3779b97f4a7c15)

-- The result for the new state.
unfoldable pub splitmix64_next : ℕ → ℕ
splitmix64_next state =
    let z0 = splitmix64_state state in
    let z1 = u64 (bit_xor z0 (z0 >>> 30) * 0xbf58476d1ce4e5b9) in
    let z2 = u64 (bit_xor z1 (z1 >>> 27) * 0x94d049bb133111eb) in bit_xor z2 (z2 >>> 31)

-- `nodes[i]`, for an array of pointers or of indices.
abbrev pub entry : List ℕ → ℕ → Run ℕ
entry cells i = or_undefined out_of_bounds (get_elem? cells i)

-- `node->next = next`, for the node at `address`.
abbrev pub set_next : Store → (address : ℕ) → Option ℕ → Run Store
set_next store address next = or_undefined wild_pointer (get_elem? store address) >>= λ n.
    ok (set store address (record n { next = next }))

abbrev pub set_payload : Store → (address payload : ℕ) → Run Store
set_payload store address payload = or_undefined wild_pointer (get_elem? store address) >>= λ n.
    ok (set store address (record { next = none; payload = payload }))

-- The loop of `init_payloads` from index `i` on, with `left` to go.
unfoldable pub init_loop : (left i state : ℕ) → (nodes : List ℕ) → Store → Run Store
init_loop zero i state nodes store = ok store
init_loop (suc left) i state nodes store = entry nodes i >>= λ address.
    set_payload store address (bit_xor (splitmix64_next state) i) >>= λ store'.
    init_loop left (i + 1) (splitmix64_state state) nodes store'

unfoldable pub init_payloads : (nodes : List ℕ) → (n seed : ℕ) → Store → Run Store
init_payloads nodes n seed store =
    init_loop n 0 (if seed == 0 then 0x123456789abcdef0 else seed) nodes store

-- A loop that links the `i`-th node, wherever `at` finds it, to the next one.
unfoldable pub link_loop : (left i : ℕ) → (at : ℕ → Run ℕ) → Store → Run Store
link_loop zero i at store = ok store
link_loop (suc left) i at store = at i >>= λ address. at (i + 1) >>= λ next.
    set_next store address (some next) >>= λ store'. link_loop left (i + 1) at store'

unfoldable pub link_sequential : (nodes : List ℕ) → (n : ℕ) → Store → Run Store
link_sequential nodes n store = link_loop (n - 1) 0 (entry nodes) store >>= λ store'.
    if n == 0 then ok store' else (entry nodes (n - 1) >>= λ address. set_next store' address none)

-- The exchange of two entries.
unfoldable pub swap : List ℕ → (p q : ℕ) → Run (List ℕ)
swap indices p q = cell indices p >>= λ tmp.
    cell indices q >>= λ other. set_cell indices p other >>= λ indices'. set_cell indices' q tmp

-- The rounds with `i` from `left + 1` down to 2.
unfoldable pub shuffle_loop : (left state : ℕ) → List ℕ → Run (List ℕ)
shuffle_loop zero state indices = ok indices
shuffle_loop (suc left) state indices =
    swap indices (left + 1) (splitmix64_next state % (left + 2))
    >>= shuffle_loop left (splitmix64_state state)

unfoldable pub count_up : (left i : ℕ) → List ℕ
count_up zero i = []
count_up (suc left) i = i ∷ count_up left (i + 1)

-- The array is written whole before it is read.
unfoldable pub shuffle_indices : (n seed : ℕ) → Run (List ℕ)
shuffle_indices n seed =
    shuffle_loop (n - 1) (if seed == 0 then 0xfeedfacecafebeef else seed) (count_up n 0)

-- `nodes[indices[i]]`.
abbrev pub entry_by : (nodes indices : List ℕ) → ℕ → Run ℕ
entry_by nodes indices i = entry indices i >>= λ j. entry nodes j

-- The linking in the order of the indices, and the head; `n` is not 0.
unfoldable pub link_shuffled : (nodes indices : List ℕ) → (n : ℕ) → Store → Run (Store × ℕ)
link_shuffled nodes indices n store =
    link_loop (n - 1) 0 (entry_by nodes indices) store >>= λ store'.
    entry_by nodes indices (n - 1) >>= λ last.
    set_next store' last none >>= λ store''. entry_by nodes indices 0 >>= λ head. ok (store'', head)
