-- ===== src/Descriptors.antt =====
-- The allocation of descriptors (allocator.c): a descriptor is an object itself, whose own descriptor, a
-- descriptor-descriptor, is shared by all descriptors of its size.
pub mod Table
pub mod Raw
pub mod Filled
pub mod Made
pub mod Shapes
pub mod Allocated
pub mod Objects
pub mod Arrays
pub mod Slots
mod Gen0
mod Tests
use ggggc.Base.{bind}
use ggggc.Base.{
  ℕ, zero, suc, ◌+◌, ◌-◌, ◌*◌, ◌/◌, ◌%◌, ◌^◌, ◌≤◌, ◌<◌, ◌≡◌, refl, sym, ap, ◌∙◌, ◌≢◌, ◌↔◌, ◌⊎◌, inl,
  inr, Bool, true, false, not, ◌&&◌, ◌||◌, Option, none, some, List, [], ◌∷◌, ◌++◌, map, arith, ltb,
  leb, ◌==◌, if◌then◌else◌, Bool-cases, Option-cases, length, length-append, get_elem?, Gives,
  Gives-mono, has, Distinct,
}
use ggggc.Heap.{Memory, write, null, word_at, word_bytes, bits_per_word, size_of}

-- What the allocation of objects promises its callers, as long as it has room and so does not collect. A
-- heap is what the collector keeps beside the memory.
pub record Allocator (H : Type 0) : Type 1 where
  -- ggggc_mallocRaw for `size` words, `none` where it would collect
  pub allocate : (size : ℕ) → Memory → H → Option (ℕ × Memory × H)
  -- the words that can still be allocated
  pub room : H → ℕ
  -- the word at an address is part of an object
  pub used : H → ℕ → Bool
  pub IsHeap : H → Type 0
  pub gives :
      (size : ℕ) (m : Memory) (h : H)
      → 1 ≤ size
      → IsHeap h
      → size ≤ room h
      → Gives
          (λ (r : ℕ × Memory × H).
            (r.0 ≢ null)
            × IsHeap r.2
            × (room r.2 + size ≡ room h)
            × ((i : ℕ) → i < size → used h (word_at r.0 i) ≡ false)
            × ((i : ℕ) → i < size → used r.2 (word_at r.0 i) ≡ true)
            × ((a : ℕ) → used h a ≡ true → used r.2 a ≡ true)
            × ((a : ℕ) → used h a ≡ true → r.1 a ≡ m a))
          (allocate size m h)

-- GGGGC_MINIMUM_OBJECT_SIZE of both collectors
abbrev pub minimum_object_size : ℕ
minimum_object_size = 3

-- `check for minimum size`
abbrev pub at_least_minimum : ℕ → ℕ
at_least_minimum size = if ltb size minimum_object_size then minimum_object_size else size

-- GGGGC_DESCRIPTOR_WORDS_REQ
abbrev pub descriptor_words : ℕ → ℕ
descriptor_words size = (size + bits_per_word - 1) / bits_per_word

-- the words of a descriptor with `words` words of pointer bits: GGGGC_WORD_SIZEOF(struct GGGGC_Descriptor) is 4
abbrev pub descriptor_size : (words : ℕ) → ℕ
descriptor_size words = 4 + words - 1

-- GGGGC_DESCRIPTOR_DESCRIPTION: the words 0, the descriptor pointer, and 2, the user pointer
abbrev pub descriptor_description : ℕ
descriptor_description = 2 ^ 0 + 2 ^ 2

-- GGGGC_WORDS_PER_POOL / GGGGC_BITS_PER_WORD + sizeof(struct GGGGC_Descriptor): 2 ^ 21 words, 64 bits and 32 bytes
abbrev pub table_size : ℕ
table_size = 32800

-- Memory, the heap, ggggc_descriptorDescriptors by size below `table_size`, and the sizes whose entry is a global root
pub record Descriptors (H : Type 0) : Type 0 where
  pub memory : Memory
  pub heap : H
  pub table : ℕ → ℕ
  pub globals : List ℕ

abbrev pub set_entry : (ℕ → ℕ) → ℕ → ℕ → ℕ → ℕ
set_entry t size d k = if k == size then d else t k

-- `make it correct`
abbrev pub fill_descriptor : (ret dd size first : ℕ) → Memory → Memory
fill_descriptor ret dd size first m =
    write (write (write m ret dd) (word_at ret 1) size) (word_at ret 3) first

-- `memcpy` of `n` words to `a`
abbrev pub copy_words : (a : ℕ) (words : ℕ → ℕ) (n : ℕ) → Memory → Memory
copy_words a words zero m = m
copy_words a words (suc n) m = write (copy_words a words n m) (word_at a n) (words n)

-- the words of pointer bits of a descriptor, `none` standing for a null `pointers`
abbrev pub pointer_words : (size : ℕ) → Option (ℕ → ℕ) → ℕ
pointer_words size none = 1
pointer_words size (some pointers) = descriptor_words size

-- `and set it up`; the lowest bit is that of the descriptor pointer
abbrev pub set_pointers : (ret words : ℕ) → Option (ℕ → ℕ) → Memory → Memory
set_pointers ret words none m = write m (word_at ret 3) 0
set_pointers ret words (some pointers) m =
    let m1 = copy_words (word_at ret 3) pointers words m in
    write m1 (word_at ret 3) (m1 (word_at ret 3) / 2 * 2 + 1)

-- the pointer bits of a pointer array: all but those of the header and of the length
abbrev pub array_pointers : ℕ → ℕ
array_pointers k = if k == 0 then (2 ^ 64 - 1) / 4 * 4 else 2 ^ 64 - 1

-- `struct GGGGC_DescriptorSlot`, of objects of at most 64 words, and whether its descriptor is a global root
pub record Slot : Type 0 where
  pub descriptor : ℕ
  pub size : ℕ
  pub pointers : ℕ
  pub rooted : Bool

module _ {H : Type 0} (alloc : Allocator H) where
  -- ggggc_mallocRaw in the state of this file
  abbrev pub raw : (size : ℕ) → Descriptors H → Option (ℕ × Descriptors H)
  raw size s =
      bind (alloc.allocate size s.memory s.heap)
        (λ r. some (r.0, record s { memory = r.1; heap = r.2 }))

  -- from `allocate the descriptor descriptor` on, and the new entry as a root
  abbrev pub make_dd : (size dd_size ddd : ℕ) → Descriptors H → Option (ℕ × Descriptors H)
  make_dd size dd_size ddd s = bind (raw dd_size s) (λ r. some (
    r.0,
    record r.1 {
      memory =
          fill_descriptor r.0 (if dd_size == size then r.0 else ddd) size descriptor_description
            r.1.memory;
      table = set_entry r.1.table size r.0;
      globals = size ∷ r.1.globals;
    },
  ))

  -- the second look at the table, under the lock
  abbrev pub make_once : (size dd_size : ℕ) → ℕ × Descriptors H → Option (ℕ × Descriptors H)
  make_once size dd_size (ddd, s) =
      if s.table size == null then make_dd size dd_size ddd s else some (s.table size, s)

  -- ggggc_allocateDescriptorDescriptor, where `none` is also that the fuel ran out or that the code, which does not
  -- check its index, would look behind the end of the table
  pub allocate_dd : (fuel size : ℕ) → Descriptors H → Option (ℕ × Descriptors H)
  allocate_dd zero size s = none
  allocate_dd (suc fuel) size0 s =
      let size = at_least_minimum size0 in
      let dd_size = descriptor_size (descriptor_words size) in
      let deeper = allocate_dd fuel dd_size s in
      let looked =
        if s.table size == null
        then bind (if dd_size == size then some (null, s) else deeper) (make_once size dd_size)
        else some (s.table size, s) in
      if ltb size table_size then looked else none

  -- ggggc_allocateDescriptorL from the allocation of the descriptor on
  abbrev pub make_descriptor :
      (size words : ℕ) → Option (ℕ → ℕ) → ℕ × Descriptors H → Option (ℕ × Descriptors H)
  make_descriptor size words pointers (dd, s) = bind (raw (size_of s.memory dd) s) (λ r. some (
    r.0,
    record r.1 {
      memory =
          set_pointers r.0 words pointers (write (write r.1.memory r.0 dd) (word_at r.0 1) size);
    },
  ))

  -- ggggc_allocateDescriptorL
  pub allocate_descriptor_l :
      (fuel size : ℕ) → Option (ℕ → ℕ) → Descriptors H → Option (ℕ × Descriptors H)
  unfolding allocate_dd
  allocate_descriptor_l fuel size0 pointers s =
      let size = at_least_minimum size0 in
      let words = pointer_words size pointers in
      bind (allocate_dd fuel (descriptor_size words) s) (make_descriptor size words pointers)

  -- ggggc_allocateDescriptor, whose `pointers` is an array of one word: `none` is also that the code would copy words
  -- from behind it
  abbrev pub allocate_descriptor :
      (fuel size pointers : ℕ) → Descriptors H → Option (ℕ × Descriptors H)
  allocate_descriptor fuel size pointers s =
      if leb (descriptor_words (at_least_minimum size)) 1
      then allocate_descriptor_l fuel size (some (λ k. pointers)) s
      else none

  -- ggggc_allocateDescriptorPA
  abbrev pub allocate_descriptor_pa : (fuel size : ℕ) → Descriptors H → Option (ℕ × Descriptors H)
  allocate_descriptor_pa fuel size s = allocate_descriptor_l fuel size (some array_pointers) s

  -- ggggc_allocateDescriptorDA
  abbrev pub allocate_descriptor_da : (fuel size : ℕ) → Descriptors H → Option (ℕ × Descriptors H)
  allocate_descriptor_da fuel size s = allocate_descriptor_l fuel size none s

  -- ggggc_malloc of both collectors
  abbrev pub malloc : (descriptor : ℕ) → Descriptors H → Option (ℕ × Descriptors H)
  malloc descriptor s =
      bind (raw (size_of s.memory descriptor) s)
        (λ r. some (r.0, record r.1 { memory = write r.1.memory r.0 descriptor }))

  -- `ret->length = length`
  abbrev pub set_array_length : (length : ℕ) → ℕ × Descriptors H → Option (ℕ × Descriptors H)
  set_array_length length (ret, s) =
      some (ret, record s { memory = write s.memory (word_at ret 1) length })

  -- ggggc_mallocPointerArray; a header is one word
  pub malloc_pointer_array : (fuel sz : ℕ) → Descriptors H → Option (ℕ × Descriptors H)
  malloc_pointer_array fuel sz s =
      bind (allocate_descriptor_pa fuel (sz + 1 + 1) s)
        (λ d. bind (malloc d.0 d.1) (set_array_length sz))

  -- ggggc_mallocDataArray, whose size in bytes wraps around at 2 ^ 64
  pub malloc_data_array : (fuel nmemb size : ℕ) → Descriptors H → Option (ℕ × Descriptors H)
  malloc_data_array fuel nmemb size s =
      let sz = (nmemb * size + word_bytes - 1) % 2 ^ 64 / word_bytes in
      bind (allocate_descriptor_da fuel (sz + 1 + 1) s)
        (λ d. bind (malloc d.0 d.1) (set_array_length nmemb))

  -- `slot->descriptor = descriptor`, and the slot's descriptor as a root
  abbrev pub fill_slot : Slot → ℕ × Descriptors H → Option (Slot × Descriptors H)
  fill_slot slot (d, s) = some (record slot { descriptor = d; rooted = true }, s)

  -- ggggc_allocateDescriptorSlot; the descriptor is the one in the slot.
  pub allocate_descriptor_slot : (fuel : ℕ) → Slot → Descriptors H → Option (Slot × Descriptors H)
  allocate_descriptor_slot fuel slot s =
      if slot.descriptor == null
      then bind (allocate_descriptor fuel slot.size slot.pointers s) (fill_slot slot)
      else some (slot, s)

  -- ggggc_mallocSlot
  pub malloc_slot : (fuel : ℕ) → Slot → Descriptors H → Option (ℕ × Slot × Descriptors H)
  unfolding allocate_descriptor_slot
  malloc_slot fuel slot s =
      bind (allocate_descriptor_slot fuel slot s)
        (λ f. bind (malloc f.0.descriptor f.1) (λ r. some (r.0, f.0, r.1)))
