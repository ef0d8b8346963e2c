-- ===== src/Hlist/Tests.antt =====
-- The calls of run_hlist_smoke.
use linux.Base.{refl, arith, List, [], ◌∷◌}
use linux.Base.Run.{Gives}
use linux.Hlist.{null, no_place, Hlist, init_hlist_head}
use linux.Hlist.Linked.{IsHlist}
use linux.Hlist.Sequence.{
  Call, add, del, calls, finished, adds, deletes, calls-Refines, init_hlist_head-IsHlist,
}

abbrev empty : Hlist
empty = record { first = null; next = λ i. null; pprev = λ i. no_place }

-- `b` is added, then `a` before it, and `a` is deleted: node 1 is `b`.
abbrev smoke : List Call
smoke = add 1 ∷ add 0 ∷ del 0 ∷ []

calls-Refines_example : Gives (λ t. IsHlist t (1 ∷ [])) (calls smoke (init_hlist_head empty))
calls-Refines_example =
    calls-Refines (init_hlist_head empty) smoke [] (1 ∷ []) (init_hlist_head-IsHlist empty)
      (adds tt (adds ((λ e. absurd (omega arith)), tt) (deletes [] (1 ∷ []) refl finished)))
