-- ===== src/Descriptors/Filled.antt =====
-- A new entry of the table of descriptor-descriptors.
use ggggc.Base.{
  ℕ, ◌+◌, ◌≤◌, ◌≡◌, refl, sym, ap, ◌∙◌, ◌≢◌, ◌⊎◌, inl, inr, Bool, true, false, ◌||◌, List, ◌∷◌,
  arith, ◌==◌, if◌then◌else◌, Bool-cases, has,
}
use mathlib.Core.Path.{subst}
use ggggc.Heap.{null}
use ggggc.Descriptors.{Allocator, Descriptors, descriptor_description, set_entry, fill_descriptor}
use ggggc.Descriptors.Table.{own_size, Entry, IsTable, Extends, Extends-Entry}
use ggggc.Descriptors.Raw.{
  fill_descriptor-header, fill_descriptor-size, fill_descriptor-first, fill_descriptor-other, IsRaw,
  IsRaw-Extends,
}

set_entry_self : (t : ℕ → ℕ) (size d : ℕ) → set_entry t size d size ≡ d
set_entry_self t size d = ground arith

set_entry_other : (t : ℕ → ℕ) (size d k : ℕ) → k ≢ size → set_entry t size d k ≡ t k
set_entry_other t size d k ne = ground arith

or_last : (b c : Bool) → c ≡ true → (b || c) ≡ true
or_last true c h = refl
or_last false c h = h

if_same : (k a b : ℕ) → (if k == k then a else b) ≡ a
if_same k a b = ground arith

if_other : (k n a b : ℕ) → k ≢ n → (if k == n then a else b) ≡ b
if_other k n a b ne = ground arith

has_first : (k : ℕ) (ks : List ℕ) → has k (k ∷ ks) ≡ true
has_first k ks = ground arith

module _ {H : Type 0} (alloc : Allocator H) where
  -- The entry of `size` is there, and `spent` words at most are gone.
  pub record Made (size spent : ℕ) (s : Descriptors H) (r : ℕ × Descriptors H) : Type 0 where
    pub entry : r.0 ≡ r.1.table size
    pub real : r.0 ≢ null
    pub table : IsTable alloc r.1
    pub extends : Extends alloc s r.1
    pub room : alloc.room s.heap ≤ alloc.room r.1.heap + spent

  -- What make_dd does with the object `r` of ggggc_mallocRaw.
  abbrev pub filled : (size ddd : ℕ) → ℕ × Descriptors H → Descriptors H
  filled size ddd (ret, s) = record s {
    memory =
        fill_descriptor ret (if own_size size == size then ret else ddd) size descriptor_description
          s.memory;
    table = set_entry s.table size ret;
    globals = size ∷ s.globals;
  }

  module _ (size ddd : ℕ) (s : Descriptors H) (r : ℕ × Descriptors H) (some_words : 3 ≤ size)
      (missing : s.table size ≡ null) (is : IsTable alloc s)
      (dd : (own_size size ≡ size) ⊎ ((ddd ≡ s.table (own_size size)) × (ddd ≢ null)))
      (made : IsRaw alloc (own_size size) s r) where
    kept : (k : ℕ) → s.table k ≢ null → set_entry r.1.table size r.0 k ≡ s.table k
    kept k real =
        set_entry_other r.1.table size r.0 k (λ e. real (ap s.table e ∙ missing))
        ∙ ap (λ t. t k) made.table

    four : 4 ≤ own_size size
    four = omega (arith, some_words)

    filled-Extends : Extends alloc s (filled size ddd r)
    filled-Extends =
        IsRaw-Extends alloc (own_size size) s r (filled size ddd r).memory (filled size ddd r).table
          (size ∷ r.1.globals) made
          (λ a out.
            fill_descriptor-other r.0 (if own_size size == size then r.0 else ddd) size
              descriptor_description r.1.memory a
              (λ e. out 0 (omega (arith, four)) (e ∙ omega arith)) (out 1 (omega (arith, four)))
              (out 3 (omega (arith, four))))
          kept (λ k h. or_last (k == size) (has k r.1.globals) (rw made.globals h))

    -- the new entry's descriptor
    filled-header :
        ((if own_size size == size then r.0 else ddd)
          ≡ set_entry r.1.table size r.0 (own_size size))
        × (set_entry r.1.table size r.0 (own_size size) ≢ null)
    filled-header = elim dd [
      | inl same ↦
          rw same (rw (set_entry_self r.1.table size r.0) (if_same size r.0 ddd, made.real))
      | inr (is_dd, real) ↦
          let other : own_size size ≢ size = λ e. real (is_dd ∙ ap s.table e ∙ missing) in
          let same =
            set_entry_other r.1.table size r.0 (own_size size) other
            ∙ ap (λ t. t (own_size size)) made.table in
          (
            if_other (own_size size) size r.0 ddd other ∙ is_dd ∙ sym same,
            λ e. real (is_dd ∙ sym same ∙ e),
          )
    ]

    filled-Entry : Entry alloc (filled size ddd r) size
    filled-Entry = record {
      some_words = omega (arith, some_words);
      holds = rw (set_entry_self r.1.table size r.0) made.holds;
      header =
          rw (set_entry_self r.1.table size r.0)
            (fill_descriptor-header r.0 _ size _ r.1.memory ∙ filled-header.0);
      size = rw (set_entry_self r.1.table size r.0) (fill_descriptor-size r.0 _ size _ r.1.memory);
      pointers =
          rw (set_entry_self r.1.table size r.0) (fill_descriptor-first r.0 _ size _ r.1.memory);
      described = filled-header.1;
      rooted = has_first size r.1.globals;
    }

    filled-IsTable : IsTable alloc (filled size ddd r)
    filled-IsTable = record { heap = made.heap; entry = each }
      where
        each : (k : ℕ) → (filled size ddd r).table k ≢ null → Entry alloc (filled size ddd r) k
        each k real = elim (Bool-cases (k == size)) [
          | inl e ↦
              let same : k ≡ size = ground arith in
              subst (Entry alloc (filled size ddd r)) (sym same) filled-Entry
          | inr ne ↦
              let other : k ≢ size = ground arith in
              let old : s.table k ≢ null = λ e.
                real (set_entry_other r.1.table size r.0 k other ∙ ap (λ t. t k) made.table ∙ e) in
              Extends-Entry alloc s (filled size ddd r) k filled-Extends old (is.entry k old)
        ]

    pub filled-Made : Made size (own_size size) s (r.0, filled size ddd r)
    filled-Made = record {
      entry = sym (set_entry_self r.1.table size r.0);
      real = made.real;
      table = filled-IsTable;
      extends = filled-Extends;
      room = omega (arith, made.room);
    }
