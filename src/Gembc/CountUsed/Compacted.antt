-- ===== src/Gembc/CountUsed/Compacted.antt =====
-- ggggc_countUsed and then ggggc_compact, as ggggc_collectFull calls them for each pool.
use ggggc.Base.{ℕ, ◌-◌, ◌%◌, ◌≤◌, ◌≡◌, List, Gives, Gives-mono}
use ggggc.Heap.{Memory}
use ggggc.Gembc.Compact.{QSort, compact}
use ggggc.Gembc.Compact.Correct.{IsQSort, Refers, compact-Refers}
use ggggc.Gembc.CountUsed.{count_used}
use ggggc.Gembc.CountUsed.Blocks.{Block, Blocks, runs}
use ggggc.Gembc.CountUsed.Correct.{count_used-IsCounted}
use ggggc.Heap.{word_at}

-- Take a qsort that sorts, and a pool of objects as ggggc_countUsed needs it. Then ggggc_countUsed ends, and
-- ggggc_compact ends on what it left. The words of the marked objects, whose runs are those between the
-- unmarked objects, slide to the start of the pool as they were after ggggc_countUsed, and
-- FOLLOW_COMPACTED_OBJECT leads from each of their old places to the new one.
pub count_used-compact :
    (qsort : QSort) (Fixed : ℕ → Type 0) (hops start free end : ℕ) (bs : List Block) (m : Memory)
    → IsQSort qsort
    → Blocks Fixed hops m free start bs
    → free ≤ end
    → (end - start) % 8 ≡ 0
    → Gives
        (λ r.
          Gives (Refers (word_at start r.0) end (runs bs) r.1) (compact qsort start end r.0 r.1))
        (count_used hops start free end m)
count_used-compact qsort Fixed hops start free end bs m is_qsort h ordered words =
    Gives-mono (count_used hops start free end m)
      (λ r d. compact-Refers qsort start end r.0 (runs bs) r.1 is_qsort d.layout)
      (count_used-IsCounted Fixed hops start free end bs m h ordered words)
