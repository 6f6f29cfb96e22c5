-- ===== src/Descriptors/Tests.antt =====
-- Descriptors and objects allocated in a pool of generation 0 that is empty at first.
use ggggc.Base.{ℕ, ◌*◌, ◌≤◌, ◌≡◌, refl, ◌≢◌, inl, false, none, some, List, [], ◌∷◌, arith, Gives}
use ggggc.Heap.{null}
use ggggc.Gembc.Allocate.{GenPool, Generation, malloc_raw, retry}
use ggggc.Descriptors.{
  Descriptors, Slot, allocate_dd, malloc_pointer_array, malloc_data_array, malloc_slot,
}
use ggggc.Descriptors.Table.{IsTable}
use ggggc.Descriptors.Filled.{Made}
use ggggc.Descriptors.Made.{need, allocate_dd-Made}
use ggggc.Descriptors.Arrays.{
  IsPointerArray, IsDataArray, malloc_pointer_array-IsPointerArray, malloc_data_array-IsDataArray,
}
use ggggc.Descriptors.Slots.{IsForSlot, malloc_slot-IsForSlot}
use ggggc.Descriptors.Gen0.{gen0}

abbrev pool : GenPool
pool = record {
  start = 16781312;
  free = 16781312;
  end = 33554432;
  gen = 0;
  remember = λ c. 0;
  first_object = λ c. 0;
}

abbrev empty : Descriptors Generation
empty = record {
  memory = λ a. 0;
  heap = record { passed = []; pools = pool ∷ [] };
  table = λ k. null;
  globals = [];
}

empty-IsTable : IsTable (gen0 pool) empty
empty-IsTable = record { heap = omega arith; entry = λ k real. absurd (real refl) }

abbrev slot : Slot
slot = record { descriptor = null; size = 5; pointers = 12; rooted = false }

-- the words that a walk goes to
abbrev record_word : ℕ → List ℕ → List ℕ
record_word i ws = i ∷ ws

-- objects of 100 words have descriptors of 5, and those of 4
entry_of_100 :
    elim (allocate_dd (gen0 pool) 3 100 empty) [
      | none ↦ []
      | some r ↦ r.0 ∷ r.1.table 100 ∷ r.1.table 5 ∷ r.1.table 4 ∷ r.1.memory r.0 ∷ r.1.globals
    ]
    ≡ 16781376 ∷ 16781376 ∷ 16781344 ∷ 16781312 ∷ 16781344 ∷ 100 ∷ 5 ∷ 4 ∷ []
unfolding allocate_dd malloc_raw retry
entry_of_100 = refl

allocate_dd-Made_example :
    Gives (Made (gen0 pool) 100 (need 100) empty) (allocate_dd (gen0 pool) 3 100 empty)
allocate_dd-Made_example =
    allocate_dd-Made (gen0 pool) 3 100 empty empty-IsTable (omega arith) (omega arith) (omega arith)

malloc_pointer_array-IsPointerArray_example :
    Gives
      (IsPointerArray (gen0 pool) record_word [] 10 empty)
      (malloc_pointer_array (gen0 pool) 2 10 empty)
malloc_pointer_array-IsPointerArray_example =
    malloc_pointer_array-IsPointerArray (gen0 pool) record_word [] 2 10 empty empty-IsTable
      (omega arith) (omega arith) (omega arith) (omega arith)

malloc_data_array-IsDataArray_example :
    (3 * 5 ≤ 8 * 2)
    × Gives
        (IsDataArray (gen0 pool) record_word [] 2 3 empty)
        (malloc_data_array (gen0 pool) 2 3 5 empty)
malloc_data_array-IsDataArray_example =
    malloc_data_array-IsDataArray (gen0 pool) record_word [] 2 3 5 empty empty-IsTable (omega arith)
      (omega arith) (omega arith)

malloc_slot-IsForSlot_example :
    Gives
      (λ r. IsForSlot (gen0 pool) record_word [] 5 12 empty r × (null ≢ null → r.1 ≡ slot))
      (malloc_slot (gen0 pool) 2 slot empty)
malloc_slot-IsForSlot_example =
    malloc_slot-IsForSlot (gen0 pool) record_word [] 2 slot empty empty-IsTable (inl refl)
      (omega arith) (omega arith) (omega arith)
