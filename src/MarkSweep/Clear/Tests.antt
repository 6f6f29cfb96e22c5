-- ===== src/MarkSweep/Clear/Tests.antt =====
-- The free list of two runs, of 7 and of 4 words.
use ggggc.Base.{ℕ, refl, inl, false, [], ◌∷◌, arith, ◌==◌, if◌then◌else◌}
use ggggc.Base.{Gives}
use ggggc.Heap.{Memory}
use ggggc.MarkSweep.Sweep.Layout.{Block}
use ggggc.MarkSweep.Clear.{clear_nodes}
use ggggc.MarkSweep.Clear.Correct.{Cleared, clear_nodes-Cleared}

abbrev memory : Memory
memory a = if a == 832 then 7 else if a == 848 then 1000 else if a == 1000 then 4 else 0

abbrev run : ℕ → ℕ → Block
run a n = record { addr = a; size = n; live = false }

clear_nodes-Cleared_example :
    Gives (Cleared memory 832 (run 832 7 ∷ run 1000 4 ∷ [])) (clear_nodes 3 832 memory)
clear_nodes-Cleared_example =
    clear_nodes-Cleared (run 832 7 ∷ run 1000 4 ∷ []) 832 memory
      ((λ e. omega arith), ((λ e. omega arith), tt))
      (omega arith, (inl (omega arith), tt), (omega arith, tt, tt)) (refl, refl, (refl, refl, refl))
