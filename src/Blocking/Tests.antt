-- ===== src/Blocking/Tests.antt =====
-- Of two threads the second blocks, the first blocks, and the second returns.
use ggggc.Base.{ℕ, refl, Bool, true, false, some, List, [], ◌∷◌, arith, ◌==◌, if◌then◌else◌}
use ggggc.Blocking.{World, pre_blocking, post_blocking, Runs, together, blocks, returns}
use ggggc.Blocking.Counted.{Counted, NeverFails, Runs-Counted}

abbrev none_blocked : ℕ → Bool
none_blocked t = false

abbrev started : World
started = record {
  thread_count = some 2;
  barrier = some 2;
  blocked_pool0s = [];
  blocked_stacks = [];
}

abbrev set : (ℕ → Bool) → ℕ → Bool → ℕ → Bool
set f t b u = if u == t then b else f u

abbrev only_first : ℕ → Bool
only_first = set (set (set none_blocked 1 true) 0 true) 1 false

-- the world with `count` threads that run and a barrier for them, and those that are blocked
abbrev left : (count : ℕ) (blocked : List ℕ) → World
left count blocked = record {
  thread_count = some count;
  barrier = some count;
  blocked_pool0s = blocked;
  blocked_stacks = blocked;
}

steps : Runs 2 only_first (left 1 (0 ∷ []))
unfolding pre_blocking post_blocking
steps =
    returns (set (set none_blocked 1 true) 0 true) (left 0 (0 ∷ 1 ∷ [])) (left 1 (0 ∷ [])) 1
      (blocks (set none_blocked 1 true) (left 1 (1 ∷ [])) (left 0 (0 ∷ 1 ∷ [])) 0
        (blocks none_blocked started (left 1 (1 ∷ [])) 1 together (omega arith) refl refl)
        (omega arith) refl refl)
      (omega arith) refl refl

Runs-Counted_example :
    Counted 2 only_first (left 1 (0 ∷ [])) × NeverFails only_first (left 1 (0 ∷ []))
Runs-Counted_example = Runs-Counted 2 only_first (left 1 (0 ∷ [])) steps
