-- ===== src/MarkSweep/Mark/Tests.antt =====
-- `mark` on the sample heap.
use ggggc.Base.{refl, inl, inr, false, arith}
use ggggc.ToSearch.Stack.{to_search}
use ggggc.MarkSweep.Mark.{mark}
use ggggc.MarkSweep.Mark.Correct.{Marked, work, mark_correct}
use ggggc.MarkSweep.Sample.{memory, objects, memory-IsHeap, nothing, nothing_yet, list}

-- From 960 the two objects that refer to each other are marked, with their descriptors; 1120 is not.
mark_correct_example :
    Marked
      (to_search nothing_yet)
      false
      memory
      nothing
      960
      (mark (to_search nothing_yet) false 100 960 memory list)
unfolding work
mark_correct_example =
    mark_correct (to_search nothing_yet) false memory objects memory-IsHeap nothing 960 memory list
      100 (λ a. refl) (λ a h. absurd (cc h)) (λ a b h e. absurd (cc h)) (inr (inr (inl refl)))
      (omega arith)
