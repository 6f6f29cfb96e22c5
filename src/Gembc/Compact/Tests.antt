-- ===== src/Gembc/Compact/Tests.antt =====
-- A pool with two chunks that move.
use ggggc.Base.{
  ℕ, ◌≡◌, refl, inr, Option, none, some, List, [], ◌∷◌, ◌++◌, map, arith, ◌==◌, if◌then◌else◌,
  Gives,
}
use ggggc.Heap.{Memory}
use ggggc.Gembc.Compact.{Compacted, compact, slide_chunks}
use ggggc.Gembc.Compact.Layout.{Run, Layout}
use ggggc.Gembc.Compact.Slide.{IsCompacted, slide_chunks-IsCompacted}
use ggggc.Gembc.Compact.Correct.{Refers, compact-Refers}
use ggggc.Gembc.Compact.Insertion.{qsort, qsort-IsQSort}

-- Two words in use, three not, three in use, four not, two in use, two not.
abbrev memory : Memory
memory x =
    if x == 816
    then 3
    else (if x == 832
        then 3
        else (if x == 864 then 4 else (if x == 888 then 2 else (if x == 912 then 2 else x))))

abbrev chunks : List Run
chunks = record { unused = 3; used = 3 } ∷ record { unused = 4; used = 2 } ∷ []

abbrev content : Option Compacted → List ℕ
content none = []
content (some t) =
    map t.memory (800 ∷ 816 ∷ 824 ∷ 832 ∷ 840 ∷ 848 ∷ [])
    ++ t.free ∷ t.break_table ∷ t.break_table_size ∷ []

slides :
    content (slide_chunks 800 928 2 memory) ≡ 800 ∷ 840 ∷ 848 ∷ 856 ∷ 896 ∷ 904 ∷ 856 ∷ 864 ∷ 2 ∷ []
unfolding slide_chunks
slides = refl

memory-Layout : Layout memory 816 928 chunks
memory-Layout = (
  refl,
  refl,
  omega arith,
  omega arith,
  omega arith,
  (refl, refl, omega arith, omega arith, omega arith, inr (omega arith, refl)),
)

slide_chunks-IsCompacted_example :
    Gives (IsCompacted 816 928 chunks memory) (slide_chunks 800 928 2 memory)
slide_chunks-IsCompacted_example = slide_chunks-IsCompacted 800 928 2 chunks memory memory-Layout

compact-Refers_example : Gives (Refers 816 928 chunks memory) (compact qsort 800 928 2 memory)
compact-Refers_example = compact-Refers qsort 800 928 2 chunks memory qsort-IsQSort memory-Layout
