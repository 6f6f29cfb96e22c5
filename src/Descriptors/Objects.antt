-- ===== src/Descriptors/Objects.antt =====
-- An object that is allocated for a descriptor.
use ggggc.Base.{ℕ, ◌+◌, ◌≤◌, ◌<◌, ◌≡◌, refl, sym, ap, ◌∙◌, ◌≢◌, Option, arith, Gives}
use ggggc.Base.{bind, Gives-bind}
use mathlib.Core.Path.{subst}
use ggggc.Heap.{Memory, write, null, word_at, size_of}
use ggggc.Descriptors.{
  Allocator, Descriptors, at_least_minimum, table_size, raw, malloc, set_array_length,
  allocate_descriptor_l,
}
use ggggc.Descriptors.Table.{Holds, IsTable, Extends, Extends-trans}
use ggggc.Descriptors.Raw.{IsRaw, raw-IsRaw, IsRaw-Extends}
use ggggc.Descriptors.Made.{Enough}
use ggggc.Descriptors.Shapes.{IsDescriptor}
use ggggc.Descriptors.Allocated.{
  own_words, own_words-four, IsTable-Extends, Described, need_all, allocate_descriptor_l-Described,
}

module _ {H : Type 0} (alloc : Allocator H) where
  -- a descriptor stays what it is
  pub Extends-IsDescriptor :
      (s s' : Descriptors H) (d size : ℕ) (pointers : Option (ℕ → ℕ))
      → 1 ≤ size
      → Extends alloc s s'
      → Holds alloc s (own_words size pointers) d
      → IsDescriptor s.memory d size pointers
      → IsDescriptor s'.memory d size pointers
  Extends-IsDescriptor s s' d size pointers some_words e holds is =
      let four = own_words-four size pointers some_words in
      record {
        words = e.memory (word_at d 1) (holds 1 (omega (arith, four))) ∙ is.words;
        bits =
            λ k lt. e.memory (word_at d (3 + k)) (holds (3 + k) (omega (arith, lt))) ∙ is.bits k lt;
      }

  -- `r` is a new object of `size` words with a descriptor of the shape that is asked for, and `second` in the word
  -- behind its header.
  pub record IsObject (size : ℕ) (pointers : Option (ℕ → ℕ)) (second : ℕ) (s : Descriptors H)
      (r : ℕ × Descriptors H) : Type 0 where
    pub descriptor : ℕ
    pub real : r.0 ≢ null
    pub header : r.1.memory r.0 ≡ descriptor
    pub length : r.1.memory (word_at r.0 1) ≡ second
    pub is : IsDescriptor r.1.memory descriptor size pointers
    pub holds : Holds alloc r.1 size r.0
    pub table : IsTable alloc r.1
    pub extends : Extends alloc s r.1

  written :
      (size : ℕ) (pointers : Option (ℕ → ℕ)) (second spent : ℕ) (s : Descriptors H)
      (d r : ℕ × Descriptors H)
      → 3 ≤ size
      → Described alloc size pointers spent s d
      → IsRaw alloc size d.1 r
      → IsObject size pointers second s
          (r.0, record r.1 { memory = write (write r.1.memory r.0 d.0) (word_at r.0 1) second })
  written size pointers second spent s d r some_words desc made =
      let s' : Descriptors H = record r.1 {
        memory = write (write r.1.memory r.0 d.0) (word_at r.0 1) second;
      } in
      let extends : Extends alloc d.1 s' =
        IsRaw-Extends alloc size d.1 r s'.memory r.1.table r.1.globals made
          (λ a out.
            other r.0 d.0 second r.1.memory a
              (λ e. out 0 (omega (arith, some_words)) (e ∙ omega arith))
              (out 1 (omega (arith, some_words))))
          (λ k h. ap (λ t. t k) made.table) (λ k h. rw made.globals h) in
      record {
        descriptor = d.0;
        real = made.real;
        header = ground arith;
        length = ground arith;
        is =
            Extends-IsDescriptor d.1 s' d.0 size pointers (omega (arith, some_words)) extends
              desc.holds desc.is;
        holds = made.holds;
        table = IsTable-Extends alloc d.1 s' desc.table extends made.table made.heap;
        extends = Extends-trans alloc s d.1 s' desc.extends extends;
      }
    where
      other :
          (ret h second : ℕ) (m : Memory) (a : ℕ)
          → a ≢ ret
          → a ≢ word_at ret 1
          → write (write m ret h) (word_at ret 1) second a ≡ m a
      other ret h second m a n0 n1 = ground arith

  -- what ggggc_malloc leaves
  abbrev pub Headed : (size : ℕ) (d q : ℕ × Descriptors H) → Type 0
  Headed size d q =
      (r : ℕ × Descriptors H) × IsRaw alloc size d.1 r
      × (q ≡ (r.0, record r.1 { memory = write r.1.memory r.0 d.0 }))

  pub malloc-Headed :
      (size : ℕ) (d : ℕ × Descriptors H)
      → 1 ≤ size
      → size_of d.1.memory d.0 ≡ size
      → alloc.IsHeap d.1.heap
      → size ≤ alloc.room d.1.heap
      → Gives (Headed size d) (malloc alloc d.0 d.1)
  malloc-Headed size d some_words same heap room = rw same (
      Gives-bind (Headed size d) (raw alloc size d.1) _ (λ r made. (r, made, refl))
        (raw-IsRaw alloc size d.1 some_words heap room))

  object :
      (size : ℕ) (pointers : Option (ℕ → ℕ)) (second spent : ℕ) (s : Descriptors H)
      (d : ℕ × Descriptors H)
      → 3 ≤ size
      → size ≤ alloc.room d.1.heap
      → Described alloc size pointers spent s d
      → Gives
          (IsObject size pointers second s)
          (bind (malloc alloc d.0 d.1) (set_array_length alloc second))
  object size pointers second spent s d some_words room desc =
      Gives-bind (IsObject size pointers second s) (malloc alloc d.0 d.1)
        (set_array_length alloc second)
        (λ q h.
          subst (λ q. Gives (IsObject size pointers second s) (set_array_length alloc second q))
            (sym h.2) (written size pointers second spent s d h.0 some_words desc h.1))
        (malloc-Headed size d (omega (arith, some_words)) desc.is.words desc.table.heap room)

  minimum : (size : ℕ) → 3 ≤ at_least_minimum size
  minimum size = ground arith

  -- A descriptor and an object for it.
  pub allocated-IsObject :
      (fuel size : ℕ) (pointers : Option (ℕ → ℕ)) (second : ℕ) (s : Descriptors H)
      → IsTable alloc s
      → own_words (at_least_minimum size) pointers < table_size
      → Enough fuel (own_words (at_least_minimum size) pointers)
      → need_all (at_least_minimum size) pointers + at_least_minimum size ≤ alloc.room s.heap
      → Gives (IsObject (at_least_minimum size) pointers second s) (
          bind
            (allocate_descriptor_l alloc fuel size pointers s)
            (λ d. bind (malloc alloc d.0 d.1) (set_array_length alloc second)))
  allocated-IsObject fuel size0 pointers second s is indexed enough room =
      let size = at_least_minimum size0 in
      Gives-bind (IsObject size pointers second s)
        (allocate_descriptor_l alloc fuel size0 pointers s) _
        (λ d desc.
          object size pointers second (need_all size pointers) s d (minimum size0)
            (omega (arith, room, desc.room)) desc)
        (allocate_descriptor_l-Described alloc fuel size0 pointers s is indexed enough
          (omega (arith, room)))
