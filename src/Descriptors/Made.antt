-- ===== src/Descriptors/Made.antt =====
-- ggggc_allocateDescriptorDescriptor ends with the entry it was asked for, and keeps the table.
use ggggc.Base.{
  ℕ, zero, suc, ◌+◌, ◌*◌, ◌≤◌, ◌<◌, ◌≡◌, refl, ◌≢◌, ◌⊎◌, inl, inr, true, ltb, Option, some, arith,
  ◌==◌, if◌then◌else◌, Bool-cases, Gives, Gives-mono,
}
use ggggc.Base.{bind, Gives-bind}
use mathlib.Core.Path.{subst}
use ggggc.Heap.{null}
use ggggc.Descriptors.{
  Allocator, Descriptors, at_least_minimum, raw, make_dd, make_once, allocate_dd, table_size,
}
use ggggc.Descriptors.Table.{own_size, IsTable, Extends, Extends-refl, Extends-trans}
use ggggc.Descriptors.Raw.{raw-IsRaw}
use ggggc.Descriptors.Filled.{Made, filled-Made}

-- the words that the entry of `size` and those it needs take at most
abbrev pub need : ℕ → ℕ
need size = if size == 4 then 4 else size + 8

need-next :
    (size : ℕ) → 3 ≤ size → own_size size ≢ size → need (own_size size) + own_size size ≤ need size
need-next size some_words other = ground arith

need-own : (size : ℕ) → 3 ≤ size → own_size size ≤ need size
need-own size some_words = ground arith

-- Calls nest deeply enough: the entry of 4 words needs no other, and `f + 1` more calls are enough for
-- 64 * (f + 1) words.
abbrev pub Enough : (fuel size : ℕ) → Type 0
Enough zero size = ⊥
Enough (suc zero) size = size ≡ 4
Enough (suc (suc f)) size = size ≤ 64 * (f + 1)

Enough-next :
    (f size : ℕ) → 3 ≤ size → own_size size ≢ size → Enough (suc f) size → Enough f (own_size size)
Enough-next zero size some_words other e = other (rw e refl)
Enough-next (suc zero) size some_words other e = omega (arith, e)
Enough-next (suc (suc f)) size some_words other e = omega (arith, e)

minimum : (size : ℕ) → 3 ≤ at_least_minimum size
minimum size = ground arith

above : (size : ℕ) → 3 ≤ size → at_least_minimum (own_size size) ≡ own_size size
above size some_words = ground arith

next_index : (size : ℕ) → size < table_size → own_size size < table_size
next_index size indexed = omega (arith, indexed)

index_test : (size bound : ℕ) → size < bound → ltb size bound ≡ true
index_test size bound indexed = ground (arith, indexed)

module _ {H : Type 0} (alloc : Allocator H) where
  after :
      (size more spent : ℕ) (s t : Descriptors H) (r : ℕ × Descriptors H)
      → Extends alloc s t
      → alloc.room s.heap ≤ alloc.room t.heap + more
      → spent + more ≤ need size
      → Made alloc size spent t r
      → Made alloc size (need size) s r
  after size more spent s t r e room all made = record {
    entry = made.entry;
    real = made.real;
    table = made.table;
    extends = Extends-trans alloc s t r.1 e made.extends;
    room = omega (arith, room, all, made.room);
  }

  make_dd-Made :
      (size ddd : ℕ) (s : Descriptors H)
      → 3 ≤ size
      → s.table size ≡ null
      → IsTable alloc s
      → (own_size size ≡ size) ⊎ ((ddd ≡ s.table (own_size size)) × (ddd ≢ null))
      → own_size size ≤ alloc.room s.heap
      → Gives (Made alloc size (own_size size) s) (make_dd alloc size (own_size size) ddd s)
  make_dd-Made size ddd s some_words missing is dd fits =
      Gives-bind (Made alloc size (own_size size) s) (raw alloc (own_size size) s) _
        (λ r made. filled-Made alloc size ddd s r some_words missing is dd made)
        (raw-IsRaw alloc (own_size size) s (omega arith) is.heap fits)

  found :
      (size spent : ℕ) (s : Descriptors H)
      → IsTable alloc s
      → s.table size ≢ null
      → Made alloc size spent s (s.table size, s)
  found size spent s is real = record {
    entry = refl;
    real = real;
    table = is;
    extends = Extends-refl alloc s;
    room = omega arith;
  }

  -- What the first look at the table leaves to do.
  make_once-Made :
      (size ddd : ℕ) (s : Descriptors H)
      → 3 ≤ size
      → IsTable alloc s
      → (own_size size ≡ size) ⊎ ((ddd ≡ s.table (own_size size)) × (ddd ≢ null))
      → own_size size ≤ alloc.room s.heap
      → Gives (Made alloc size (own_size size) s) (make_once alloc size (own_size size) (ddd, s))
  make_once-Made size ddd s some_words is dd fits = elim (Bool-cases (s.table size == null)) [
    | inl e ↦
        let missing : s.table size ≡ null = ground arith in
        rw e (make_dd-Made size ddd s some_words missing is dd fits)
    | inr ne ↦
        let real : s.table size ≢ null = ground arith in
        rw ne (found size (own_size size) s is real)
  ]

  -- The body of the function, after what the call in it makes.
  dd_step :
      (size : ℕ) (deeper : Option (ℕ × Descriptors H)) (s : Descriptors H)
      → 3 ≤ size
      → IsTable alloc s
      → (own_size size ≢ size → Gives (Made alloc (own_size size) (need (own_size size)) s) deeper)
      → need size ≤ alloc.room s.heap
      → Gives (Made alloc size (need size) s) (
          if s.table size == null
          then bind
              (if own_size size == size then some (null, s) else deeper)
              (make_once alloc size (own_size size))
          else some (s.table size, s))
  dd_step size deeper s some_words is made room = elim (Bool-cases (s.table size == null)) [
    | inr there ↦ rw there (found size (need size) s is (ground arith))
    | inl missing ↦ rw missing (elim (Bool-cases (own_size size == size)) [
      | inl same ↦ rw same (
          Gives-mono (make_once alloc size (own_size size) (null, s))
            (λ r h.
              after size 0 (own_size size) s s r (Extends-refl alloc s) (omega arith)
                (omega (arith, need-own size some_words)) h)
            (make_once-Made size null s some_words is (inl (ground arith))
              (omega (arith, need-own size some_words, room))))
      | inr differs ↦
          let other : own_size size ≢ size = ground arith in
          let next = need-next size some_words other in
          rw differs (
            Gives-bind (Made alloc size (need size) s) deeper (make_once alloc size (own_size size))
              (λ d h.
                Gives-mono (make_once alloc size (own_size size) d)
                  (λ r g.
                    after size (need (own_size size)) (own_size size) s d.1 r h.extends h.room
                      (omega (arith, next)) g)
                  (make_once-Made size d.0 d.1 some_words h.table (inr (h.entry, h.real))
                    (omega (arith, next, room, h.room))))
              (made other))
    ])
  ]

  -- For a size, raised to the minimum, that is an index of the table, with calls that nest deeply enough and room for
  -- all descriptors that are missing, ggggc_allocateDescriptorDescriptor ends and returns the entry of its size, raised to the minimum. The
  -- table is still one where each entry describes descriptors of its size, is described by the entry of its own
  -- size and is a root; the entries, the roots and the objects that were there stay.
  pub allocate_dd-Made :
      (fuel size : ℕ) (s : Descriptors H)
      → IsTable alloc s
      → at_least_minimum size < table_size
      → Enough fuel (at_least_minimum size)
      → need (at_least_minimum size) ≤ alloc.room s.heap
      → Gives
          (Made alloc (at_least_minimum size) (need (at_least_minimum size)) s)
          (allocate_dd alloc fuel size s)
  unfolding allocate_dd
  allocate_dd-Made zero size s is indexed enough room = elim enough [ ]
  allocate_dd-Made (suc f) size0 s is indexed enough room =
      let size = at_least_minimum size0 in
      let some_words : 3 ≤ size = minimum size0 in
      let test : ltb size table_size ≡ true = index_test size table_size indexed in
      rw test (
        dd_step size (allocate_dd alloc f (own_size size) s) s some_words is
          (λ other.
            let fits = need-next size some_words other in
            let same : at_least_minimum (own_size size) ≡ own_size size = above size some_words in
            subst (λ k. Gives (Made alloc k (need k) s) (allocate_dd alloc f (own_size size) s))
              same
              (allocate_dd-Made f (own_size size) s is (rw same (next_index size indexed))
                (rw same (Enough-next f size some_words other enough))
                (rw same (omega (arith, fits, room)))))
          room)
