-- ===== src/MarkSweep/Clear.antt =====
-- The first loop of clearFreeList in collector/portablems.c, which puts the sizes that the sweep left in
-- the header words where a free list has them.
pub mod Correct
mod Tests
use ggggc.Base.{ℕ, zero, suc, Option, none, some, ◌==◌, if◌then◌else◌}
use ggggc.Heap.{Memory, write, null, word_at}

-- The loop from the element `fln`; `none` means that the fuel ran out.
pub clear_nodes : ℕ → (fln : ℕ) → Memory → Option Memory
clear_nodes zero fln m = none
clear_nodes (suc fuel) fln m =
    let sized = write m (word_at fln 1) (m fln) in
    let cleared = write sized fln 0 in
    let rest = clear_nodes fuel (cleared (word_at fln 2)) cleared in
    if fln == null then some m else rest
