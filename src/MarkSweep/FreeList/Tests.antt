-- ===== src/MarkSweep/FreeList/Tests.antt =====
-- A list of an element of 3 words and one of 8; three words, then four, are wanted.
use ggggc.Base.{refl, inl, some, [], ◌∷◌, arith, ◌==◌, if◌then◌else◌}
use ggggc.Base.{Gives}
use ggggc.Heap.{Memory}
use ggggc.MarkSweep.FreeList.{FreeStore, malloc_from_list}
use ggggc.MarkSweep.FreeList.Elements.{Runs}
use ggggc.MarkSweep.FreeList.Allocates.{Allocated, malloc_from_list-Allocated}

abbrev memory : Memory
memory a = if a == 808 then 3 else if a == 816 then 880 else if a == 888 then 8 else 0

abbrev store : FreeStore
store = record { memory = memory; free_list = 800 }

abbrev elements : Runs
elements = (800, 3) ∷ (880, 8) ∷ []

malloc_from_list-Allocated_example :
    Gives
      (Allocated 4 store elements (some (880, (800, 3) ∷ (912, 4) ∷ [])))
      (malloc_from_list 3 4 store)
malloc_from_list-Allocated_example =
    malloc_from_list-Allocated 4 (omega arith) elements store
      (refl, (λ e. omega arith), refl, refl, (refl, (λ e. omega arith), refl, refl, refl))
      (omega arith, (inl (omega arith), tt), (omega arith, tt, tt))
