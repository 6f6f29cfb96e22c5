-- ===== src/ToSearch/Tests.antt =====
-- The stack laws at a list whose first buffer is full.
use ggggc.Base.{ℕ, ◌≡◌, refl, ◌↔◌, List, [], ◌∷◌}
use ggggc.ToSearch.{ToSearch, init, add, pop, tosearch_sz}
use ggggc.ToSearch.Stack.{IsValid, contents, to_search_refines}

abbrev junk : ℕ → ℕ
junk i = 7

abbrev full : ToSearch
full = record { prev = []; here = record { used = tosearch_sz; buf = junk }; next = [] }

-- The pointer added to the full buffer is the one popped, and the full buffer is current again.
next_and_back : (pop (add junk 80 full)).0 ≡ 80
unfolding pop add
next_and_back = refl

back_again : (pop (add junk 80 full)).1.here.used ≡ tosearch_sz
unfolding pop add
back_again = refl

to_search_refines_example :
    ((t : ToSearch) → IsValid (init t) × (contents (init t) ≡ []))
    × ((p : ℕ) (t : ToSearch)
        → IsValid t
        → IsValid (add junk p t) × (contents (add junk p t) ≡ p ∷ contents t))
    × ((p : ℕ) (rest : List ℕ) (t : ToSearch)
        → IsValid t
        → contents t ≡ p ∷ rest
        → ((pop t).0 ≡ p) × IsValid (pop t).1 × (contents (pop t).1 ≡ rest))
    × ((t : ToSearch) → IsValid t → (t.here.used ≡ 0) ↔ (contents t ≡ []))
to_search_refines_example = to_search_refines junk
