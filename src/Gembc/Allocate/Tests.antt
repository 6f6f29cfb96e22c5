-- ===== src/Gembc/Allocate/Tests.antt =====
-- Allocation in two pools, of which the first is full.
use ggggc.Base.{ℕ, refl, [], ◌∷◌, arith}
use ggggc.Heap.{Memory}
use ggggc.Gembc.Allocate.{GenPool, Generation, new_pool_gen, take_gen1, malloc_raw, malloc_gen1}
use ggggc.Gembc.Allocate.Cards.{Cards, new_pool_gen-Cards, take_gen1-Cards}
use ggggc.Gembc.Allocate.First.{IsRaw, IsGen1, malloc_raw-IsRaw, malloc_gen1-IsGen1}

abbrev pool : (free : ℕ) → GenPool
pool free = record {
  start = 16781312;
  free = free;
  end = 33554432;
  gen = 0;
  remember = λ c. 7;
  first_object = λ c. 9;
}

abbrev memory : Memory
memory x = 5

abbrev generation : Generation
generation = record { passed = []; pools = pool 33554424 ∷ pool 16781312 ∷ [] }

malloc_raw-IsRaw_example :
    IsRaw 3 memory generation (malloc_raw (pool 16781312) 3 memory generation)
malloc_raw-IsRaw_example = malloc_raw-IsRaw (pool 16781312) 3 memory generation (omega arith)

malloc_gen1-IsGen1_example :
    IsGen1 3 memory generation (malloc_gen1 1 (pool 16781312) 3 memory generation)
malloc_gen1-IsGen1_example = malloc_gen1-IsGen1 1 (pool 16781312) 3 memory generation (omega arith)

fresh-Cards : Cards 16777216 (new_pool_gen 1 (pool 16781312)) (16781312 ∷ [])
fresh-Cards =
    new_pool_gen-Cards 16777216 1 (pool 16781312) refl refl (omega arith) (omega arith) refl

-- an object of 600 words, which ends in the next card
take_gen1-Cards_example :
    Cards 16777216
      (take_gen1 600 memory (new_pool_gen 1 (pool 16781312))).1
      (16786112 ∷ 16781312 ∷ [])
take_gen1-Cards_example =
    take_gen1-Cards 16777216 600 memory (new_pool_gen 1 (pool 16781312)) (16781312 ∷ []) fresh-Cards
      (omega arith) refl
