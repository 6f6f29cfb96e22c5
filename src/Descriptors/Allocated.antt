-- ===== src/Descriptors/Allocated.antt =====
-- ggggc_allocateDescriptorL ends with a descriptor of the shape that is asked for.
use ggggc.Base.{ℕ, ◌+◌, ◌≤◌, ◌<◌, ◌≡◌, sym, ap, ◌∙◌, ◌≢◌, Option, none, some, arith, Gives}
use ggggc.Base.{Gives-bind}
use mathlib.Core.Path.{subst}
use ggggc.Heap.{Memory, write, null, word_at, size_of}
use ggggc.Descriptors.{
  Allocator, Descriptors, at_least_minimum, table_size, descriptor_size, raw, allocate_dd,
  pointer_words, set_pointers, make_descriptor, allocate_descriptor_l,
}
use ggggc.Descriptors.Table.{Holds, IsTable, Extends, Extends-trans, Extends-Entry}
use ggggc.Descriptors.Raw.{IsRaw, raw-IsRaw, IsRaw-Extends}
use ggggc.Descriptors.Filled.{Made}
use ggggc.Descriptors.Made.{need, Enough, allocate_dd-Made}
use ggggc.Descriptors.Shapes.{IsDescriptor, set_pointers-bits, set_pointers-other}

-- the words of the descriptor of objects of `size` words
abbrev pub own_words : (size : ℕ) → Option (ℕ → ℕ) → ℕ
own_words size pointers = descriptor_size (pointer_words size pointers)

-- the room that a descriptor needs
abbrev pub need_all : (size : ℕ) → Option (ℕ → ℕ) → ℕ
need_all size pointers = need (own_words size pointers) + own_words size pointers

pub own_words-four : (size : ℕ) (pointers : Option (ℕ → ℕ)) → 1 ≤ size → 4 ≤ own_words size pointers
own_words-four size none some_words = omega arith
own_words-four size (some pointers) some_words = omega (arith, some_words)

-- the memory when a descriptor is set up
abbrev described : (ret dd size : ℕ) → Option (ℕ → ℕ) → Memory → Memory
described ret dd size pointers m =
    set_pointers ret (pointer_words size pointers) pointers
      (write (write m ret dd) (word_at ret 1) size)

described-header :
    (ret dd size : ℕ) (pointers : Option (ℕ → ℕ)) (m : Memory)
    → 1 ≤ size
    → described ret dd size pointers m ret ≡ dd
described-header ret dd size pointers m some_words =
    set_pointers-other ret size pointers (write (write m ret dd) (word_at ret 1) size) ret
      some_words (λ k lt e. omega (arith, e))
    ∙ ground arith

described-IsDescriptor :
    (ret dd size : ℕ) (pointers : Option (ℕ → ℕ)) (m : Memory)
    → 1 ≤ size
    → IsDescriptor (described ret dd size pointers m) ret size pointers
described-IsDescriptor ret dd size pointers m some_words = record {
  words =
      set_pointers-other ret size pointers (write (write m ret dd) (word_at ret 1) size)
        (word_at ret 1) some_words (λ k lt e. omega (arith, e))
      ∙ ground arith;
  bits = λ k lt.
      set_pointers-bits ret size pointers (write (write m ret dd) (word_at ret 1) size) k some_words
        lt;
}

described-other :
    (ret dd size : ℕ) (pointers : Option (ℕ → ℕ)) (m : Memory) (a : ℕ)
    → 1 ≤ size
    → ((i : ℕ) → i < own_words size pointers → a ≢ word_at ret i)
    → described ret dd size pointers m a ≡ m a
described-other ret dd size pointers m a some_words out =
    let four = own_words-four size pointers some_words in
    let header : a ≢ ret = λ e. out 0 (omega (arith, four)) (e ∙ omega arith) in
    let second = out 1 (omega (arith, four)) in
    set_pointers-other ret size pointers (write (write m ret dd) (word_at ret 1) size) a some_words
      (λ k lt. out (3 + k) (omega (arith, lt)))
    ∙ ground (arith, header, second)

module _ {H : Type 0} (alloc : Allocator H) where
  pub IsTable-Extends :
      (s s' : Descriptors H)
      → IsTable alloc s
      → Extends alloc s s'
      → s'.table ≡ s.table
      → alloc.IsHeap s'.heap
      → IsTable alloc s'
  IsTable-Extends s s' is e same heap = record {
    heap = heap;
    entry = λ k real.
        let old : s.table k ≢ null = λ n. real (ap (λ t. t k) same ∙ n) in
        Extends-Entry alloc s s' k e old (is.entry k old);
  }

  -- `r` is a descriptor of objects of `size` words, itself described by the entry of its own size.
  pub record Described (size : ℕ) (pointers : Option (ℕ → ℕ)) (spent : ℕ) (s : Descriptors H)
      (r : ℕ × Descriptors H) : Type 0 where
    pub real : r.0 ≢ null
    pub is : IsDescriptor r.1.memory r.0 size pointers
    pub holds : Holds alloc r.1 (own_words size pointers) r.0
    pub header : r.1.memory r.0 ≡ r.1.table (own_words size pointers)
    pub headed : r.1.table (own_words size pointers) ≢ null
    pub table : IsTable alloc r.1
    pub extends : Extends alloc s r.1
    pub room : alloc.room s.heap ≤ alloc.room r.1.heap + spent

  described-Described :
      (size dd : ℕ) (pointers : Option (ℕ → ℕ)) (s : Descriptors H) (r : ℕ × Descriptors H)
      → 1 ≤ size
      → IsTable alloc s
      → dd ≡ s.table (own_words size pointers)
      → dd ≢ null
      → IsRaw alloc (own_words size pointers) s r
      → Described size pointers
          (own_words size pointers)
          s
          (r.0, record r.1 { memory = described r.0 dd size pointers r.1.memory })
  described-Described size dd pointers s r some_words is at real made =
      let four = own_words-four size pointers some_words in
      let m' = described r.0 dd size pointers r.1.memory in
      let same : r.1.table (own_words size pointers) ≡ dd =
        ap (λ t. t (own_words size pointers)) made.table ∙ sym at in
      let extends : Extends alloc s (record r.1 { memory = m' }) =
        IsRaw-Extends alloc (own_words size pointers) s r m' r.1.table r.1.globals made
          (λ a out. described-other r.0 dd size pointers r.1.memory a some_words out)
          (λ k h. ap (λ t. t k) made.table) (λ k h. rw made.globals h) in
      record {
        real = made.real;
        is = described-IsDescriptor r.0 dd size pointers r.1.memory some_words;
        holds = made.holds;
        header = described-header r.0 dd size pointers r.1.memory some_words ∙ sym same;
        headed = λ e. real (sym same ∙ e);
        table = IsTable-Extends s (record r.1 { memory = m' }) is extends made.table made.heap;
        extends = extends;
        room = omega (arith, made.room);
      }

  minimum : (size : ℕ) → 3 ≤ at_least_minimum size
  minimum size = ground arith

  above : (words : ℕ) → 4 ≤ words → at_least_minimum words ≡ words
  above words some_words = ground arith

  make_descriptor-Described :
      (size : ℕ) (pointers : Option (ℕ → ℕ)) (s : Descriptors H) (d : ℕ × Descriptors H)
      → 1 ≤ size
      → need_all size pointers ≤ alloc.room s.heap
      → Made alloc (own_words size pointers) (need (own_words size pointers)) s d
      → Gives
          (Described size pointers (need_all size pointers) s)
          (make_descriptor alloc size (pointer_words size pointers) pointers d)
  make_descriptor-Described size pointers s (dd, t) some_words room made =
      let words = own_words size pointers in
      let four = own_words-four size pointers some_words in
      let real : t.table words ≢ null = λ e. made.real (made.entry ∙ e) in
      let known : size_of t.memory dd ≡ words =
        ap (size_of t.memory) made.entry ∙ (made.table.entry words real).size in
      rw known (
        Gives-bind (Described size pointers (need_all size pointers) s) (raw alloc words t) _
          (λ r is.
            let h =
              described-Described size dd pointers t r some_words made.table made.entry made.real
                is in
            record {
              real = h.real;
              is = h.is;
              holds = h.holds;
              header = h.header;
              headed = h.headed;
              table = h.table;
              extends = Extends-trans alloc s t _ made.extends h.extends;
              room = omega (arith, h.room, made.room);
            })
          (raw-IsRaw alloc words t (omega (arith, four)) made.table.heap
            (omega (arith, room, made.room))))

  -- If the words of the descriptor are an index of the table, with calls that nest deeply enough and room for the
  -- descriptor and for the descriptor-descriptors that are
  -- missing, ggggc_allocateDescriptorL ends and returns a new descriptor: the size in it is the size
  -- asked for, raised to the minimum, its pointer words are those asked for with the bit of the header set,
  -- or an even word if none are asked for, and its own descriptor is the entry of its size. The table keeps its
  -- invariant, and the entries, the roots and the objects that were there stay.
  pub allocate_descriptor_l-Described :
      (fuel size : ℕ) (pointers : Option (ℕ → ℕ)) (s : Descriptors H)
      → IsTable alloc s
      → own_words (at_least_minimum size) pointers < table_size
      → Enough fuel (own_words (at_least_minimum size) pointers)
      → need_all (at_least_minimum size) pointers ≤ alloc.room s.heap
      → Gives
          (Described (at_least_minimum size) pointers (need_all (at_least_minimum size) pointers) s)
          (allocate_descriptor_l alloc fuel size pointers s)
  unfolding allocate_descriptor_l
  allocate_descriptor_l-Described fuel size0 pointers s is indexed enough room =
      let size = at_least_minimum size0 in
      let words = own_words size pointers in
      let some_words : 1 ≤ size = omega (arith, minimum size0) in
      let same = above words (own_words-four size pointers some_words) in
      Gives-bind (Described size pointers (need_all size pointers) s)
        (allocate_dd alloc fuel words s)
        (make_descriptor alloc size (pointer_words size pointers) pointers)
        (λ d made. make_descriptor-Described size pointers s d some_words room made)
        (subst (λ k. Gives (Made alloc k (need k) s) (allocate_dd alloc fuel words s)) same
          (allocate_dd-Made alloc fuel words s is (rw same indexed) (rw same enough)
            (rw same (omega (arith, room)))))
