-- ===== src/Descriptors/Raw.antt =====
-- What ggggc_mallocRaw leaves for a descriptor to be written.
use ggggc.Base.{apart}
use ggggc.Base.{ℕ, ◌+◌, ◌≤◌, ◌<◌, ◌≡◌, refl, ◌∙◌, ◌≢◌, true, false, List, arith, Gives, has}
use ggggc.Base.{Gives-bind}
use ggggc.Heap.{Memory, null, word_at}
use ggggc.Descriptors.{Allocator, Descriptors, fill_descriptor, raw}
use ggggc.Descriptors.Table.{Extends, Holds}

pub fill_descriptor-header :
    (ret dd size first : ℕ) (m : Memory) → fill_descriptor ret dd size first m ret ≡ dd
fill_descriptor-header ret dd size first m = ground arith

pub fill_descriptor-size :
    (ret dd size first : ℕ) (m : Memory)
    → fill_descriptor ret dd size first m (word_at ret 1) ≡ size
fill_descriptor-size ret dd size first m = ground arith

pub fill_descriptor-first :
    (ret dd size first : ℕ) (m : Memory)
    → fill_descriptor ret dd size first m (word_at ret 3) ≡ first
fill_descriptor-first ret dd size first m = ground arith

pub fill_descriptor-other :
    (ret dd size first : ℕ) (m : Memory) (a : ℕ)
    → a ≢ ret
    → a ≢ word_at ret 1
    → a ≢ word_at ret 3
    → fill_descriptor ret dd size first m a ≡ m a
fill_descriptor-other ret dd size first m a n0 n1 n3 = ground arith

module _ {H : Type 0} (alloc : Allocator H) where
  -- `r` is an object of `size` words that `s` does not use.
  pub record IsRaw (size : ℕ) (s : Descriptors H) (r : ℕ × Descriptors H) : Type 0 where
    pub real : r.0 ≢ null
    pub heap : alloc.IsHeap r.1.heap
    pub room : alloc.room r.1.heap + size ≡ alloc.room s.heap
    pub fresh : (i : ℕ) → i < size → alloc.used s.heap (word_at r.0 i) ≡ false
    pub holds : Holds alloc r.1 size r.0
    pub used : (a : ℕ) → alloc.used s.heap a ≡ true → alloc.used r.1.heap a ≡ true
    pub memory : (a : ℕ) → alloc.used s.heap a ≡ true → r.1.memory a ≡ s.memory a
    pub table : r.1.table ≡ s.table
    pub globals : r.1.globals ≡ s.globals

  pub raw-IsRaw :
      (size : ℕ) (s : Descriptors H)
      → 1 ≤ size
      → alloc.IsHeap s.heap
      → size ≤ alloc.room s.heap
      → Gives (IsRaw size s) (raw alloc size s)
  raw-IsRaw size s some_words is fits =
      Gives-bind (IsRaw size s) (alloc.allocate size s.memory s.heap) _
        (λ r h. record {
          real = h.0;
          heap = h.1;
          room = h.2;
          fresh = h.3;
          holds = h.4;
          used = h.5;
          memory = h.6;
          table = refl;
          globals = refl;
        })
        (alloc.gives size s.memory s.heap some_words is fits)

  -- A word that is used is none of those of the new object.
  pub IsRaw-apart :
      (size : ℕ) (s : Descriptors H) (r : ℕ × Descriptors H) (a i : ℕ)
      → IsRaw size s r
      → alloc.used s.heap a ≡ true
      → i < size
      → a ≢ word_at r.0 i
  IsRaw-apart size s r a i is used lt =
      apart (alloc.used s.heap) a (word_at r.0 i) used (is.fresh i lt)

  -- Writing to the new object, adding an entry and a root extend the state.
  pub IsRaw-Extends :
      (size : ℕ) (s : Descriptors H) (r : ℕ × Descriptors H) (m : Memory) (table : ℕ → ℕ)
      (globals : List ℕ)
      → IsRaw size s r
      → ((a : ℕ) → ((i : ℕ) → i < size → a ≢ word_at r.0 i) → m a ≡ r.1.memory a)
      → ((k : ℕ) → s.table k ≢ null → table k ≡ s.table k)
      → ((k : ℕ) → has k s.globals ≡ true → has k globals ≡ true)
      → Extends alloc s (record r.1 { memory = m; table = table; globals = globals })
  IsRaw-Extends size s r m table globals is same keeps roots = record {
    table = keeps;
    globals = roots;
    used = is.used;
    memory = λ a used. same a (λ i lt. IsRaw-apart size s r a i is used lt) ∙ is.memory a used;
  }
