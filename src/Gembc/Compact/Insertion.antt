-- ===== src/Gembc/Compact/Insertion.antt =====
-- A qsort by insertion, to run the compaction.
use ggggc.Base.{
  ℕ, zero, suc, ◌+◌, ◌*◌, ◌≤◌, ◌<◌, ◌≡◌, refl, sym, ap, ◌∙◌, ◌⊎◌, inl, inr, Bool, true, false, List,
  [], ◌∷◌, arith, ltb, if◌then◌else◌, Bool-cases, length,
}
use mathlib.Core.List.{Permᴰ}
use mathlib.Core.List.Permᴰ
use ggggc.Base.{ℤ, pos}
use ggggc.Heap.{Memory, write}
use ggggc.BreakTable.{BreakTableEl}
use ggggc.BreakTable.Search.{AllAbove, IsSorted}
use ggggc.Gembc.Compact.{break_table_comparator, QSort}
use ggggc.Gembc.Compact.Table.{Table}
use mathlib.Core.Path.{subst}
use ggggc.Gembc.Compact.Follow.{Perm-length}
use ggggc.Gembc.Compact.Correct.{IsQSort}

abbrev is_greater : ℤ → Bool
is_greater (pos (suc n)) = true
is_greater _ = false

abbrev insert :
    (BreakTableEl → BreakTableEl → ℤ) → BreakTableEl → List BreakTableEl → List BreakTableEl
insert cmp e [] = e ∷ []
insert cmp e (x ∷ t) =
    let rest = insert cmp e t in if is_greater (cmp e x) then x ∷ rest else e ∷ x ∷ t

abbrev sort : (BreakTableEl → BreakTableEl → ℤ) → List BreakTableEl → List BreakTableEl
sort cmp [] = []
sort cmp (e ∷ t) = insert cmp e (sort cmp t)

abbrev read : Memory → ℕ → ℕ → List BreakTableEl
read m p zero = []
read m p (suc n) = record { orig = m p; new_l = m (p + 8) } ∷ read m (p + 16) n

abbrev store : Memory → ℕ → List BreakTableEl → Memory
store m p [] = m
store m p (e ∷ t) = store (write (write m p e.orig) (p + 8) e.new_l) (p + 16) t

abbrev pub qsort : QSort
qsort cmp m base size = store m base (sort cmp (read m base size))

greater_iff : (l r : BreakTableEl) → is_greater (break_table_comparator l r) ≡ ltb r.orig l.orig
greater_iff l r = elim (Bool-cases (ltb l.orig r.orig)) [
  | inl below ↦ rw below (ground arith)
  | inr above ↦ elim (Bool-cases (ltb r.orig l.orig)) [
    | inl e ↦ rw (above, e) refl
    | inr e ↦ rw (above, e) refl
  ]
]

insert-Perm :
    (cmp : BreakTableEl → BreakTableEl → ℤ) (e : BreakTableEl) (t : List BreakTableEl)
    → Permᴰ (insert cmp e t) (e ∷ t)
insert-Perm cmp e [] = Permᴰ.refl (e ∷ [])
insert-Perm cmp e (x ∷ t) = elim (Bool-cases (is_greater (cmp e x))) [
  | inl g ↦ rw g (Permᴰ.trans (Permᴰ.cons refl (insert-Perm cmp e t)) (Permᴰ.swap refl refl))
  | inr g ↦ rw g (Permᴰ.refl (e ∷ x ∷ t))
]

sort-Perm : (cmp : BreakTableEl → BreakTableEl → ℤ) (t : List BreakTableEl) → Permᴰ (sort cmp t) t
sort-Perm cmp [] = Permᴰ.nil
sort-Perm cmp (e ∷ t) =
    Permᴰ.trans (insert-Perm cmp e (sort cmp t)) (Permᴰ.cons refl (sort-Perm cmp t))

AllAbove-less : (a b : ℕ) (t : List BreakTableEl) → a ≤ b → AllAbove b t → AllAbove a t
AllAbove-less a b [] le h = tt
AllAbove-less a b (x ∷ t) le (p, h) = (omega arith, AllAbove-less a b t le h)

insert-AllAbove :
    (o : ℕ) (e : BreakTableEl) (t : List BreakTableEl)
    → o ≤ e.orig
    → AllAbove o t
    → AllAbove o (insert break_table_comparator e t)
insert-AllAbove o e [] le h = (le, tt)
insert-AllAbove o e (x ∷ t) le (p, h) =
    elim (Bool-cases (is_greater (break_table_comparator e x))) [
      | inl g ↦ rw g (p, insert-AllAbove o e t le h)
      | inr g ↦ rw g (le, (p, h))
    ]

insert-IsSorted :
    (e : BreakTableEl) (t : List BreakTableEl)
    → IsSorted t
    → IsSorted (insert break_table_comparator e t)
insert-IsSorted e [] h = (tt, tt)
insert-IsSorted e (x ∷ t) (p, h) = elim (Bool-cases (is_greater (break_table_comparator e x))) [
  | inl g ↦
      rw g
        (insert-AllAbove x.orig e t (ground (arith, g, greater_iff e x)) p, insert-IsSorted e t h)
  | inr g ↦
      let le : e.orig ≤ x.orig = ground (arith, g, greater_iff e x) in
      rw g ((le, AllAbove-less e.orig x.orig t le p), (p, h))
]

sort-IsSorted : (t : List BreakTableEl) → IsSorted (sort break_table_comparator t)
sort-IsSorted [] = tt
sort-IsSorted (e ∷ t) = insert-IsSorted e (sort break_table_comparator t) (sort-IsSorted t)

sort-length : (t : List BreakTableEl) → length (sort break_table_comparator t) ≡ length t
sort-length t = Perm-length (sort-Perm break_table_comparator t)

read_back : (m : Memory) (p : ℕ) (t : List BreakTableEl) → Table m p t → read m p (length t) ≡ t
read_back m p [] h = refl
read_back m p (e ∷ t) (o, n, h) = rw (o, n, read_back m (p + 16) t h) refl

stored_others :
    (m : Memory) (p : ℕ) (t : List BreakTableEl) (x : ℕ)
    → (x < p) ⊎ (p + 16 * length t ≤ x)
    → store m p t x ≡ m x
stored_others m p [] x out = refl
stored_others m p (e ∷ t) x out =
    stored_others (write (write m p e.orig) (p + 8) e.new_l) (p + 16) t x (ground (arith, out))
    ∙ ground (arith, out)

stored : (m : Memory) (p : ℕ) (t : List BreakTableEl) → Table (store m p t) p t
stored m p [] = tt
stored m p (e ∷ t) =
    let m2 = write (write m p e.orig) (p + 8) e.new_l in
    (
      stored_others m2 (p + 16) t p (inl (omega arith)) ∙ ground arith,
      stored_others m2 (p + 16) t (p + 8) (inl (omega arith)) ∙ ground arith,
      stored m2 (p + 16) t,
    )

pub qsort-IsQSort : IsQSort qsort
qsort-IsQSort m base t h =
    let s = sort break_table_comparator t in
    let is : qsort break_table_comparator m base (length t) ≡ store m base s =
      ap (λ l. store m base (sort break_table_comparator l)) (read_back m base t h) in
    record {
      sorted = s;
      same = sort-Perm break_table_comparator t;
      ordered = sort-IsSorted t;
      stands = subst (λ m'. Table m' base s) (sym is) (stored m base s);
      others = λ x out.
          ap (λ m'. m' x) is ∙ stored_others m base s x (ground (arith, out, sort-length t));
    }
