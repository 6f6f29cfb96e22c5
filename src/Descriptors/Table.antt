-- ===== src/Descriptors/Table.antt =====
-- The table of descriptor-descriptors: what ggggc_allocateDescriptorDescriptor adds to it.
use ggggc.Base.{ℕ, ◌≤◌, ◌<◌, ◌≡◌, refl, sym, ap, ◌∙◌, ◌≢◌, true, arith, has}
use mathlib.Core.Path.{subst}
use ggggc.Heap.{null, word_at, size_of, pointers_of}
use ggggc.Descriptors.{
  Allocator, Descriptors, descriptor_words, descriptor_size, descriptor_description,
}

-- the words of a descriptor of objects of `k` words
abbrev pub own_size : ℕ → ℕ
own_size k = descriptor_size (descriptor_words k)

word_at-zero : (a : ℕ) → word_at a 0 ≡ a
word_at-zero a = omega arith

module _ {H : Type 0} (alloc : Allocator H) where
  -- The `words` words from `a` on are parts of objects.
  abbrev pub Holds : Descriptors H → (words a : ℕ) → Type 0
  Holds s words a = (i : ℕ) → i < words → alloc.used s.heap (word_at a i) ≡ true

  -- The entry of `k` is a descriptor of descriptors of `k` words, which have one pointer word, and
  -- its own descriptor is the entry of its own size.
  pub record Entry (s : Descriptors H) (k : ℕ) : Type 0 where
    pub some_words : 1 ≤ k
    pub holds : Holds s (own_size k) (s.table k)
    pub header : s.memory (s.table k) ≡ s.table (own_size k)
    pub size : size_of s.memory (s.table k) ≡ k
    pub pointers : pointers_of s.memory (s.table k) 0 ≡ descriptor_description
    pub described : s.table (own_size k) ≢ null
    pub rooted : has k s.globals ≡ true

  pub record IsTable (s : Descriptors H) : Type 0 where
    pub heap : alloc.IsHeap s.heap
    pub entry : (k : ℕ) → s.table k ≢ null → Entry s k

  -- `s'` has what `s` has, and more.
  pub record Extends (s s' : Descriptors H) : Type 0 where
    pub table : (k : ℕ) → s.table k ≢ null → s'.table k ≡ s.table k
    pub globals : (k : ℕ) → has k s.globals ≡ true → has k s'.globals ≡ true
    pub used : (a : ℕ) → alloc.used s.heap a ≡ true → alloc.used s'.heap a ≡ true
    pub memory : (a : ℕ) → alloc.used s.heap a ≡ true → s'.memory a ≡ s.memory a

  pub Extends-refl : (s : Descriptors H) → Extends s s
  Extends-refl s = record {
    table = λ k h. refl;
    globals = λ k h. h;
    used = λ a h. h;
    memory = λ a h. refl;
  }

  pub Extends-trans : (s t u : Descriptors H) → Extends s t → Extends t u → Extends s u
  Extends-trans s t u e f = record {
    table = λ k h. f.table k (subst (λ d. d ≢ null) (sym (e.table k h)) h) ∙ e.table k h;
    globals = λ k h. f.globals k (e.globals k h);
    used = λ a h. f.used a (e.used a h);
    memory = λ a h. f.memory a (e.used a h) ∙ e.memory a h;
  }

  -- the words of an entry that are read
  pub Extends-Entry :
      (s s' : Descriptors H) (k : ℕ) → Extends s s' → s.table k ≢ null → Entry s k → Entry s' k
  Extends-Entry s s' k e real is =
      let same = e.table k real in
      let at : (i : ℕ)
          → i < own_size k
          → s'.memory (word_at (s'.table k) i) ≡ s.memory (word_at (s.table k) i) =
        λ i lt.
          ap (λ d. s'.memory (word_at d i)) same
          ∙ e.memory (word_at (s.table k) i) (is.holds i lt) in
      let four : 4 ≤ own_size k = omega (arith, is.some_words) in
      let first : s'.memory (s'.table k) ≡ s.memory (s.table k) =
        ap s'.memory (sym (word_at-zero (s'.table k)))
        ∙ at 0 (omega (arith, four))
        ∙ ap s.memory (word_at-zero (s.table k)) in
      record {
        some_words = is.some_words;
        holds = λ i lt. rw same (e.used (word_at (s.table k) i) (is.holds i lt));
        header = first ∙ is.header ∙ sym (e.table (own_size k) is.described);
        size = at 1 (omega (arith, four)) ∙ is.size;
        pointers = at 3 (omega (arith, four)) ∙ is.pointers;
        described = subst (λ d. d ≢ null) (sym (e.table (own_size k) is.described)) is.described;
        rooted = e.globals k is.rooted;
      }
