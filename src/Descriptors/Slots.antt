-- ===== src/Descriptors/Slots.antt =====
-- The slots that GGC_NEW allocates by: the descriptor is made once.
use ggggc.Base.{
  ℕ, ◌+◌, ◌≤◌, ◌<◌, ◌≡◌, refl, sym, ap, ◌∙◌, ◌≢◌, ◌⊎◌, inl, inr, true, false, Option, some, arith,
  leb, ◌==◌, Gives,
}
use ggggc.Base.{Gives-bind}
use mathlib.Core.Path.{subst}
use ggggc.Heap.{Memory, write, null}
use ggggc.Heap.Walk.{pointer_walk}
use ggggc.Descriptors.{
  Allocator, Descriptors, at_least_minimum, Slot, malloc, allocate_descriptor_l, descriptor_words,
  descriptor_size, table_size, fill_slot, allocate_descriptor_slot, malloc_slot,
}
use ggggc.Descriptors.Table.{Holds, IsTable, Extends, Extends-refl, Extends-trans}
use ggggc.Descriptors.Raw.{IsRaw, IsRaw-Extends}
use ggggc.Descriptors.Made.{Enough}
use ggggc.Descriptors.Shapes.{IsDescriptor, asked, pointer_walk-asked}
use ggggc.Descriptors.Allocated.{
  own_words, need_all, IsTable-Extends, allocate_descriptor_l-Described,
}
use ggggc.Descriptors.Objects.{Extends-IsDescriptor, Headed, malloc-Headed}

abbrev pub slot_size : Slot → ℕ
slot_size slot = at_least_minimum slot.size

abbrev pub slot_bits : Slot → Option (ℕ → ℕ)
slot_bits slot = some (λ k. slot.pointers)

minimum : (size : ℕ) → 1 ≤ at_least_minimum size
minimum size = ground arith

one_word : (size : ℕ) → size ≤ 64 → leb (descriptor_words (at_least_minimum size)) 1 ≡ true
one_word size small = ground (arith, small)

short :
    (size : ℕ) → size ≤ 64 → descriptor_size (descriptor_words (at_least_minimum size)) < table_size
short size small = ground (arith, small)

write_other : (ret d a : ℕ) (m : Memory) → a ≢ ret → write m ret d a ≡ m a
write_other ret d a m ne = ground arith

write_self : (ret d : ℕ) (m : Memory) → write m ret d ret ≡ d
write_self ret d m = ground arith

module _ {H : Type 0} (alloc : Allocator H) where
  -- The slot has its descriptor, which is a root.
  pub record IsFilled (slot : Slot) (s : Descriptors H) : Type 0 where
    pub real : slot.descriptor ≢ null
    pub is : IsDescriptor s.memory slot.descriptor (slot_size slot) (slot_bits slot)
    pub holds : Holds alloc s (own_words (slot_size slot) (slot_bits slot)) slot.descriptor
    pub rooted : slot.rooted ≡ true

  -- A slot is empty at first.
  abbrev pub IsSlot : Slot → Descriptors H → Type 0
  IsSlot slot s = (slot.descriptor ≡ null) ⊎ IsFilled slot s

  -- What a call leaves in the slot: the descriptor that was there, or a new one.
  pub record Ready (spent : ℕ) (slot : Slot) (s : Descriptors H) (f : Slot × Descriptors H)
      : Type 0 where
    pub filled : IsFilled f.0 f.1
    pub size : f.0.size ≡ slot.size
    pub pointers : f.0.pointers ≡ slot.pointers
    pub once : slot.descriptor ≢ null → f ≡ (slot, s)
    pub table : IsTable alloc f.1
    pub extends : Extends alloc s f.1
    pub room : alloc.room s.heap ≤ alloc.room f.1.heap + spent

  pub allocate_descriptor_slot-Ready :
      (fuel : ℕ) (slot : Slot) (s : Descriptors H)
      → IsTable alloc s
      → IsSlot slot s
      → slot.size ≤ 64
      → Enough fuel (own_words (slot_size slot) (slot_bits slot))
      → need_all (slot_size slot) (slot_bits slot) ≤ alloc.room s.heap
      → Gives
          (Ready (need_all (slot_size slot) (slot_bits slot)) slot s)
          (allocate_descriptor_slot alloc fuel slot s)
  unfolding allocate_descriptor_slot
  allocate_descriptor_slot-Ready fuel slot s is (inl empty) small enough room =
      let test : (slot.descriptor == null) ≡ true = rw empty refl in
      let one : leb (descriptor_words (slot_size slot)) 1 ≡ true = one_word slot.size small in
      rw (test, one)
        (Gives-bind (Ready (need_all (slot_size slot) (slot_bits slot)) slot s)
          (allocate_descriptor_l alloc fuel slot.size (slot_bits slot) s) (fill_slot alloc slot)
          (λ d h. record {
            filled = record { real = h.real; is = h.is; holds = h.holds; rooted = refl };
            size = refl;
            pointers = refl;
            once = λ real. absurd (real empty);
            table = h.table;
            extends = h.extends;
            room = h.room;
          })
          (allocate_descriptor_l-Described alloc fuel slot.size (slot_bits slot) s is
            (short slot.size small) enough room))
  allocate_descriptor_slot-Ready fuel slot s is (inr filled) small enough room =
      let real = filled.real in
      let test : (slot.descriptor == null) ≡ false = ground (arith, real) in
      rw test (record {
        filled = filled;
        size = refl;
        pointers = refl;
        once = λ real. refl;
        table = is;
        extends = Extends-refl alloc s;
        room = omega arith;
      })

  -- `r` is an object for a slot of `size` and `pointers`, which has its descriptor now, and a walk goes to the words
  -- that the bits name.
  abbrev pub IsForSlot :
      {S : Type 0}
      → (body : ℕ → S → S) (t : S) (size pointers : ℕ) → Descriptors H
      → ℕ × Slot × Descriptors H
      → Type 0
  IsForSlot body t size pointers s r =
      (r.0 ≢ null)
      × (r.2.memory r.0 ≡ r.1.descriptor)
      × Holds alloc r.2 (at_least_minimum size) r.0
      × (pointer_walk r.2.memory (r.2.memory r.0) body t
          ≡ asked (at_least_minimum size) (some (λ k. pointers)) body t)
      × IsFilled r.1 r.2
      × IsTable alloc r.2
      × Extends alloc s r.2

  IsFilled-Extends :
      (slot : Slot) (s s' : Descriptors H) → Extends alloc s s' → IsFilled slot s → IsFilled slot s'
  IsFilled-Extends slot s s' e filled = record {
    real = filled.real;
    is =
        Extends-IsDescriptor alloc s s' slot.descriptor (slot_size slot) (slot_bits slot)
          (minimum slot.size) e filled.holds filled.is;
    holds = λ i lt. e.used _ (filled.holds i lt);
    rooted = filled.rooted;
  }

  -- what ggggc_malloc leaves for the object `r`
  abbrev with_header : Slot → ℕ × Descriptors H → Descriptors H
  with_header slot r = record r.1 { memory = write r.1.memory r.0 slot.descriptor }

  with_header-Extends :
      (slot : Slot) (u : Descriptors H) (r : ℕ × Descriptors H)
      → IsRaw alloc (slot_size slot) u r
      → Extends alloc u (with_header slot r)
  with_header-Extends slot u r made =
      IsRaw-Extends alloc (slot_size slot) u r (write r.1.memory r.0 slot.descriptor) r.1.table
        r.1.globals made
        (λ a out.
          write_other r.0 slot.descriptor a r.1.memory
            (λ e. out 0 (minimum slot.size) (e ∙ omega arith)))
        (λ k h. ap (λ t. t k) made.table) (λ k h. rw made.globals h)

  -- With the header written, the object is one for the slot.
  headed :
      {S : Type 0} (body : ℕ → S → S) (t : S) (slot : Slot) (s u : Descriptors H)
      (q : ℕ × Descriptors H)
      → IsTable alloc u
      → IsFilled slot u
      → Extends alloc s u
      → Headed alloc (slot_size slot) (slot.descriptor, u) q
      → IsForSlot body t slot.size slot.pointers s (q.0, slot, q.1)
  headed body t slot s u q is filled old (r, made, at) =
      let extends = with_header-Extends slot u r made in
      let later = IsFilled-Extends slot u (with_header slot r) extends filled in
      let header = write_self r.0 slot.descriptor r.1.memory in
      subst (λ (q : ℕ × Descriptors H). IsForSlot body t slot.size slot.pointers s (q.0, slot, q.1))
        (sym at)
        (
          made.real,
          header,
          made.holds,
          ap (λ d. pointer_walk (with_header slot r).memory d body t) header
              ∙ pointer_walk-asked (with_header slot r).memory slot.descriptor (slot_size slot)
                  (slot_bits slot) body t later.is (minimum slot.size),
          later,
          IsTable-Extends alloc u (with_header slot r) is extends made.table made.heap,
          Extends-trans alloc s u (with_header slot r) old extends,
        )

  -- For a slot of at most 64 words that is empty or has its descriptor as a root, and with calls that nest deeply enough and room for what
  -- is allocated, ggggc_mallocSlot returns an object of the slot's size, raised to the minimum, whose header
  -- is the slot's descriptor; a walk over it goes to the words that the slot's pointer bits name; the slot has its
  -- descriptor as a root afterwards, and if it had one before, it is as it was.
  pub malloc_slot-IsForSlot :
      {S : Type 0} (body : ℕ → S → S) (t : S) (fuel : ℕ) (slot : Slot) (s : Descriptors H)
      → IsTable alloc s
      → IsSlot slot s
      → slot.size ≤ 64
      → Enough fuel (own_words (slot_size slot) (slot_bits slot))
      → need_all (slot_size slot) (slot_bits slot) + slot_size slot ≤ alloc.room s.heap
      → Gives
          (λ r.
            IsForSlot body t slot.size slot.pointers s r × (slot.descriptor ≢ null → r.1 ≡ slot))
          (malloc_slot alloc fuel slot s)
  unfolding malloc_slot
  malloc_slot-IsForSlot body t fuel slot s is is_slot small enough room =
      let Q = λ (r : ℕ × Slot × Descriptors H).
        IsForSlot body t slot.size slot.pointers s r × (slot.descriptor ≢ null → r.1 ≡ slot) in
      Gives-bind Q (allocate_descriptor_slot alloc fuel slot s) _
        (λ f h.
          Gives-bind Q (malloc alloc f.0.descriptor f.1) (λ r. some (r.0, f.0, r.1))
            (λ q headed_q. (
              subst (λ size. IsForSlot body t size slot.pointers s (q.0, f.0, q.1)) h.size
                  (subst (λ bits. IsForSlot body t f.0.size bits s (q.0, f.0, q.1)) h.pointers
                    (headed body t f.0 s f.1 q h.table h.filled h.extends headed_q)),
              λ real. ap (λ (g : Slot × Descriptors H). g.0) (h.once real),
            ))
            (malloc-Headed alloc (slot_size f.0) (f.0.descriptor, f.1) (minimum f.0.size)
              h.filled.is.words h.table.heap (rw h.size (omega (arith, room, h.room)))))
        (allocate_descriptor_slot-Ready fuel slot s is is_slot small enough (omega (arith, room)))
