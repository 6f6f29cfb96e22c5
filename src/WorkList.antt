-- ===== src/WorkList.antt =====
-- What the collectors ask of the list of pointers to search (the TOSEARCH macros of
-- ggggc-internals.h): a stack, with the laws that its users rely on.
use ggggc.Base.{ℕ, ◌≡◌, ◌↔◌, List, [], ◌∷◌}

pub record WorkList : Type 1 where
  pub State : Type 0
  -- TOSEARCH_INIT, TOSEARCH_ADD, TOSEARCH_POP, and `toSearch->used`
  pub init : State → State
  pub add : ℕ → State → State
  pub pop : State → ℕ × State
  pub used : State → ℕ
  -- the pointers in the order in which they come back
  pub IsValid : State → Type 0
  pub contents : State → List ℕ
  pub init_law : (s : State) → IsValid (init s) × (contents (init s) ≡ [])
  pub add_law :
      (p : ℕ) (s : State) → IsValid s → IsValid (add p s) × (contents (add p s) ≡ p ∷ contents s)
  pub pop_law :
      (p : ℕ) (rest : List ℕ) (s : State)
      → IsValid s
      → contents s ≡ p ∷ rest
      → ((pop s).0 ≡ p) × IsValid (pop s).1 × (contents (pop s).1 ≡ rest)
  pub used_law : (s : State) → IsValid s → (used s ≡ 0) ↔ (contents s ≡ [])
