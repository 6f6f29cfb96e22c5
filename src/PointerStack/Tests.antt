-- ===== src/PointerStack/Tests.antt =====
-- A main function's frame, and two blocks that each register a global reference at the same place on the stack.
use ggggc.Base.{◌≡◌, refl, none, some, [], ◌∷◌, ◌++◌, arith, Gives}
use ggggc.Heap.{null}
use ggggc.PointerStack.{
  Stacks, find_globals, last_frame, globalize, Code, done, global, block, run_code,
}
use ggggc.PointerStack.Kept.{Kept, run_code-Kept}

abbrev main_frame : Stacks
main_frame = record { next = λ a. null; pointers = λ a. 8 ∷ 16 ∷ []; top = 100; globals = null }

abbrev code : Code
code =
    block 200 (24 ∷ []) (global 900 done) (block 200 (32 ∷ []) (global 908 done) (global 916 done))

after_code :
    elim (run_code 4 code main_frame) [
      | none ↦ []
      | some s ↦
          (s.top ∷ s.next 100 ∷ s.next 900 ∷ s.next 908 ∷ s.next 916 ∷ s.globals ∷ [])
          ++ s.pointers 908
    ]
    ≡ 100 ∷ 900 ∷ 908 ∷ 916 ∷ 0 ∷ 916 ∷ 32 ∷ []
unfolding run_code globalize last_frame find_globals
after_code = refl

run_code-Kept_example : Gives (Kept code 100 [] [] main_frame) (run_code 4 code main_frame)
run_code-Kept_example =
    run_code-Kept code 4 100 [] [] main_frame
      (record { leads = (refl, (λ e. omega arith), refl); distinct = (refl, tt); globals = refl })
      (
        (λ e. omega arith),
        refl,
        ((λ e. omega arith), refl, tt),
        ((λ e. omega arith), refl, ((λ e. omega arith), refl, tt), ((λ e. omega arith), refl, tt)),
      )
      (omega arith)
