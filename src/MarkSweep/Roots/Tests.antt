-- ===== src/MarkSweep/Roots/Tests.antt =====
-- Marking the sample heap from two references of one thread, one to 960 and one to nothing.
use ggggc.Base.{ℕ, ◌%◌, refl, ◌≢◌, inl, inr, false, List, [], ◌∷◌, arith}
use ggggc.ToSearch.Stack.{to_search}
use ggggc.MarkSweep.Mark.Graph.{In}
use ggggc.MarkSweep.Mark.Correct.{work}
use ggggc.MarkSweep.Roots.{PointerStack, mark_from_roots}
use ggggc.MarkSweep.Roots.Correct.{RootsMarked, mark_from_roots-RootsMarked}
use ggggc.MarkSweep.Sample.{memory, objects, memory-IsHeap, sizes, nothing, nothing_yet, list}

-- Word 1128 holds 960, and word 1136 holds NULL.
abbrev stacks : List PointerStack
stacks = ((1128 ∷ 1136 ∷ []) ∷ []) ∷ []

apart : (h : ℕ) → h % 80 ≢ 0 → (a : ℕ) → In a objects → h ≢ a
apart h out a is_in = λ e. out (rw e (sizes a is_in).2)

mark_from_roots-RootsMarked_example :
    RootsMarked
      (to_search nothing_yet)
      false
      memory
      nothing
      (1128 ∷ 1136 ∷ [])
      (mark_from_roots (to_search nothing_yet) false 100 stacks (memory, list))
unfolding work
mark_from_roots-RootsMarked_example =
    mark_from_roots-RootsMarked (to_search nothing_yet) false memory objects memory-IsHeap 100
      stacks list (omega arith)
      (
        apart 1128 (λ e. omega arith),
        (λ r. inr (inr (inl refl))),
        (apart 1136 (λ e. omega arith), (λ r. absurd (cc r.2)), tt),
      )
