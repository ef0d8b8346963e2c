-- ===== src/Queue/Tests.antt =====
-- The run queue after a tick and a round.
use linux.Base.{◌≡◌, refl, List, [], ◌∷◌, replicate, none, some, take}
use linux.Base.Run.{ok, ◌>>=◌, Gives}
use linux.Queue.{
  ListNode, tick, round, runqueue_seed, safe_run, list_init, list_add_front, list_add_back,
  set_prev, set_next,
}
use linux.Queue.Links.{no_node}
use linux.Queue.Rounds.{abstract_run, abstract_step, Refines}
use linux.Queue.Seed.{at_start, seeded_run-Refines}

abbrev fresh_nodes : List ListNode
fresh_nodes = replicate 32 no_node

seeded_run-Refines_example :
    Gives
      (λ t. Refines t (abstract_run (round ∷ tick ∷ round ∷ []) at_start))
      (runqueue_seed fresh_nodes >>= λ (list, s). safe_run (round ∷ tick ∷ round ∷ []) (0, list, s))
seeded_run-Refines_example = seeded_run-Refines (round ∷ tick ∷ round ∷ []) fresh_nodes refl

-- Node 0 goes to the end, and node 0 comes back to the front.
ticked : take 3 (abstract_run (tick ∷ []) at_start).1 ≡ 1 ∷ 2 ∷ 3 ∷ []
unfolding abstract_run abstract_step
ticked = refl

came_back : take 3 (abstract_run (tick ∷ round ∷ []) at_start).1 ≡ 0 ∷ 1 ∷ 2 ∷ []
unfolding abstract_run abstract_step
came_back = refl

two_added :
    (list_add_back list_init 1 (no_node ∷ no_node ∷ []) >>= λ (list, s). list_add_front list 0 s)
    ≡ ok (
      record { head = some 0; tail = some 1 },
      record { prev = none; next = some 1; value = 0 }
          ∷ record { prev = some 0; next = none; value = 0 }
          ∷ [],
    )
unfolding list_add_back list_add_front list_init set_prev set_next
two_added = refl
