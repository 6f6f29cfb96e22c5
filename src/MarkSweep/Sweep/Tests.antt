-- ===== src/MarkSweep/Sweep/Tests.antt =====
-- The sweep of two pools: a live descriptor, a dead object, a free entry right behind it, a live object;
-- and a dead object alone.
use ggggc.Base.{
  ℕ, ◌%◌, ◌≤◌, ◌≡◌, refl, sym, ◌∙◌, ◌≢◌, ◌⊎◌, inl, inr, Bool, true, false, List, [], ◌∷◌, arith,
  ◌==◌, if◌then◌else◌,
}
use ggggc.Heap.{Memory}
use ggggc.MarkSweep.Sweep.{Pool, sweep}
use ggggc.MarkSweep.Sweep.Layout.{
  Block, Piece, pool, block, pools, blocks, size_word, BlockAt, free_runs,
}
use ggggc.Base.{Gives}
use ggggc.MarkSweep.Sweep.Correct.{IsSwept, sweep-IsSwept}

abbrev memory : Memory
memory a =
    if a == 800
    then 801
    else if a == 808
    then 4
    else if a == 832
    then 800
    else if a == 864
    then 0
    else if a == 872
    then 3
    else if a == 888
    then 801
    else if a == 1000
    then 800
    else 0

abbrev first : Pool
first = record { start = 800; end = 920; survivors = 0 }

abbrev second : Pool
second = record { start = 1000; end = 1032; survivors = 0 }

abbrev at_word : ℕ → ℕ → Bool → Block
at_word a n l = record { addr = a; size = n; live = l }

abbrev pieces : List Piece
pieces =
    block (at_word 800 4 true)
    ∷ block (at_word 832 4 false)
    ∷ block (at_word 864 3 false)
    ∷ block (at_word 888 4 true)
    ∷ pool second
    ∷ block (at_word 1000 4 false)
    ∷ []

abbrev Size : ℕ → Type 0
Size x = (x ≡ 808) ⊎ (x ≡ 872)

known :
    (a n : ℕ) (l : Bool)
    → l ≡ memory a % 2 == 1
    → n ≡ memory (size_word memory a)
    → Size (size_word memory a)
    → 3 ≤ n
    → (808 ≢ a) × (872 ≢ a) × (792 ≢ a) × (856 ≢ a) × (a ≢ 0)
    → BlockAt Size memory (at_word a n l)
known a n l live size reads room (p, q, u, v, real) = record {
  live = live;
  size = size;
  reads = reads;
  has_room = room;
  not_null = real;
  spared = λ x h. elim h [
    | inl e ↦ ((λ f. p (sym e ∙ f)), (λ f. omega arith))
    | inr e ↦ ((λ f. q (sym e ∙ f)), (λ f. omega arith))
  ];
}

sweep-IsSwept_example : Gives (IsSwept memory (blocks pieces)) (sweep (first ∷ pools pieces) memory)
sweep-IsSwept_example =
    sweep-IsSwept Size memory first pieces
      (
        refl,
        known 800 4 true refl refl (inl refl) (omega arith) (ground arith),
        (
          refl,
          known 832 4 false refl refl (inl refl) (omega arith) (ground arith),
          (
            refl,
            known 864 3 false refl refl (inr refl) (omega arith) (ground arith),
            (
              refl,
              known 888 4 true refl refl (inl refl) (omega arith) (ground arith),
              (
                refl,
                (refl, known 1000 4 false refl refl (inl refl) (omega arith) (ground arith), refl),
              ),
            ),
          ),
        ),
      )
      (ground arith)

runs : free_runs (blocks pieces) ≡ at_word 832 7 false ∷ at_word 1000 4 false ∷ []
runs = refl
