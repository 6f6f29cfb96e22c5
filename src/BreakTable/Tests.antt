-- ===== src/BreakTable/Tests.antt =====
-- Runs of the search.
use ggggc.Base.{◌≡◌, refl, List, [], ◌∷◌, ℕ, arith}
use ggggc.BreakTable.{BreakTableEl, found, absent, find_break_table_entry}
use ggggc.BreakTable.Search.{Locates, find_break_table_entry-Locates}

abbrev el : ℕ → ℕ → BreakTableEl
el o n = record { orig = o; new_l = n }

abbrev table : List BreakTableEl
table = el 80 40 ∷ el 160 80 ∷ el 240 96 ∷ el 400 104 ∷ el 480 160 ∷ el 600 200 ∷ el 640 208 ∷ []

find_inside : find_break_table_entry table 479 ≡ found 3
unfolding find_break_table_entry
find_inside = refl

find_below : find_break_table_entry table 79 ≡ absent
unfolding find_break_table_entry
find_below = refl

find_example : Locates table 479 (find_break_table_entry table 479)
find_example = find_break_table_entry-Locates table 479 (omega arith)
