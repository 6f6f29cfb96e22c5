-- ===== src/Pools/Expand/Tests.antt =====
-- The growth of a list of two pools.
use ggggc.Base.{◌≡◌, refl, none, some, [], ◌∷◌, arith, ◌==◌, if◌then◌else◌, Gives}
use ggggc.Pools.Expand.{PoolLists, sum, usage, add_pools, expand_pool_list}
use ggggc.Pools.Expand.Correct.{Expanded, expand_pool_list-Expanded}

-- two pools, of which survivors fill more than half
abbrev crowded : PoolLists
crowded = record { next = λ a. if a == 8 then 16 else 0; survivors = λ a. 60; words = λ a. 100 }

-- newPool gives one more pool and then NULL
grows_by_one :
    elim (expand_pool_list 2 8 1 (24 ∷ []) crowded) [
      | none ↦ []
      | some s ↦
          s.next 8 ∷ s.next 16 ∷ s.next 24 ∷ s.survivors 8 ∷ s.survivors 16 ∷ s.survivors 24 ∷ []
    ]
    ≡ 16 ∷ 24 ∷ 0 ∷ 0 ∷ 0 ∷ 60 ∷ []
unfolding expand_pool_list usage add_pools
grows_by_one = refl

expand_pool_list-Expanded_example :
    Gives (Expanded 1 (8 ∷ 16 ∷ []) (24 ∷ []) 8 crowded) (expand_pool_list 2 8 1 (24 ∷ []) crowded)
unfolding sum
expand_pool_list-Expanded_example =
    expand_pool_list-Expanded 1 8 (16 ∷ []) (24 ∷ []) 8 crowded
      (refl, (λ e. omega arith), (refl, (λ e. omega arith), refl)) (refl, (refl, tt))
      ((λ e. omega arith), refl, tt) (omega arith) (omega arith) (omega arith)
