-- ===== src/Gembc/CountUsed/Tests.antt =====
-- A pool from 800 to 952 with two marked objects, and two that are not, of which one has moved to 2000.
use ggggc.Base.{
  ℕ, ◌-◌, ◌≤◌, ◌<◌, ◌≡◌, refl, ◌≢◌, ◌⊎◌, inl, inr, Option, none, some, List, [], ◌∷◌, map, arith,
  ◌==◌, if◌then◌else◌, Gives,
}
use ggggc.Heap.{Memory}
use ggggc.Gembc.Compact.{compact}
use ggggc.Gembc.Compact.Correct.{Refers}
use ggggc.Gembc.Compact.Insertion.{qsort, qsort-IsQSort}
use ggggc.Gembc.CountUsed.{follow_forwarded, used_chunk, unused_chunk, count_loop, count_used}
use ggggc.Gembc.CountUsed.Blocks.{Block, used, unused, Apart, Blocks, runs}
use ggggc.Gembc.CountUsed.Correct.{IsCounted, count_used-IsCounted}
use ggggc.Gembc.CountUsed.Compacted.{count_used-compact}
use ggggc.Heap.{word_at}

-- Descriptors of 3, 4 and 5 words are at 400, 416 and 432.
abbrev memory : Memory
memory x =
    if x == 408
    then 3
    else (if x == 424
        then 4
        else (if x == 440
            then 5
            else (if x == 800
                then 402
                else (if x == 824
                    then 400
                    else (if x == 848
                        then 2001
                        else (if x == 2000 then 416 else (if x == 880 then 434 else 7)))))))

abbrev Sized : ℕ → Type 0
Sized x = (x ≡ 408) ⊎ (x ≡ 424) ⊎ (x ≡ 440) ⊎ (x ≡ 2000)

abbrev objects : List Block
objects = used 3 ∷ unused 3 [] ∷ unused 4 (2000 ∷ []) ∷ used 5 ∷ []

away : (x a : ℕ) → (440 < a) × (a < 2000) → Sized x → x ≢ a
away x a between s e = ground (arith, s, e)

between : (a n : ℕ) → 3 ≤ n → (440 < a) × (word_at a n < 2000) → Apart Sized 3 a n
between a n words inside = (
  words,
  λ x s. (
    away x a (omega (arith, inside), omega (arith, inside)) s,
    away x (word_at a n - 8) (omega (arith, inside, words), omega (arith, inside, words)) s,
  ),
)

memory-Blocks : Blocks Sized 3 memory 920 800 objects
memory-Blocks = (
  (refl, inl refl, refl),
  between 800 3 (omega arith) (omega arith, omega arith),
  (
    (refl, (refl, inl refl, refl), omega arith),
    between 824 3 (omega arith) (omega arith, omega arith),
    (
      (refl, (refl, refl, inr (inr (inr refl)), (refl, inr (inl refl), refl)), omega arith),
      between 848 4 (omega arith) (omega arith, omega arith),
      (
        (refl, inr (inr (inl refl)), refl),
        between 880 5 (omega arith) (omega arith, omega arith),
        (refl, λ x s. away x 920 (omega arith, omega arith) s),
      ),
    ),
  ),
)

abbrev content : Option (ℕ × Memory) → List ℕ
content none = []
content (some r) = r.0 ∷ map r.1 (800 ∷ 824 ∷ 872 ∷ 880 ∷ 920 ∷ [])

counts : content (count_used 3 800 920 952 memory) ≡ 3 ∷ 400 ∷ 7 ∷ 5 ∷ 432 ∷ 4 ∷ []
unfolding follow_forwarded used_chunk unused_chunk count_loop count_used
counts = refl

count_used-IsCounted_example :
    Gives (IsCounted Sized 3 800 920 952 objects memory) (count_used 3 800 920 952 memory)
count_used-IsCounted_example =
    count_used-IsCounted Sized 3 800 920 952 objects memory memory-Blocks (omega arith) refl

count_used-compact_example :
    Gives
      (λ r. Gives (Refers (word_at 800 r.0) 952 (runs objects) r.1) (compact qsort 800 952 r.0 r.1))
      (count_used 3 800 920 952 memory)
count_used-compact_example =
    count_used-compact qsort Sized 3 800 920 952 objects memory qsort-IsQSort memory-Blocks
      (omega arith) refl
