-- ===== src/MarkSweep/FreeList/Allocates.antt =====
-- What the search finds is free memory, disjoint from the list that is left, and zero for the caller.
use ggggc.Base.{
  ℕ, zero, suc, ◌+◌, ◌-◌, ◌≤◌, ◌<◌, ◌≡◌, refl, ◌∙◌, ◌≢◌, ◌⊎◌, inl, inr, true, false, Option, none,
  some, [], ◌∷◌, arith, leb, ◌==◌, if◌then◌else◌, Bool-cases, length,
}
use ggggc.Base.{Gives}
use ggggc.Heap.{Memory, null, word_at}
use ggggc.MarkSweep.FreeList.{FreeStore, list_head, find_space, zero_words, malloc_from_list}
use ggggc.MarkSweep.FreeList.Elements.{
  Runs, Elements, Outside, Off, Disjoint, SameElements, Elements-frame,
}
use ggggc.MarkSweep.FreeList.FirstFit.{behind, first_fit, Agrees, find_space-Agrees}

-- The `size` words at `r.0` come out of the runs `rs`, and share nothing with the runs `r.1`.
record Fits (size : ℕ) (rs : Runs) (r : ℕ × Runs) : Type 0 where
  disjoint : Disjoint r.1
  off : Off r.0 size r.1
  within : (x : ℕ) → Outside x rs → (x < r.0) ⊎ (word_at r.0 size ≤ x)
  others : (b k : ℕ) → Off b k rs → Off b k ((r.0, size) ∷ r.1)

Off-shrink : (a n b k : ℕ) (rs : Runs) → a ≤ b → word_at b k ≤ word_at a n → Off a n rs → Off b k rs
Off-shrink a n b k [] lo hi off = tt
Off-shrink a n b k ((c, j) ∷ rs) lo hi (off, offs) =
    (ground arith, Off-shrink a n b k rs lo hi offs)

-- A postcondition of a search that may find nothing.
abbrev pub IfFound : (ℕ × Runs → Type 0) → Option (ℕ × Runs) → Type 0
IfFound P none = Unit
IfFound P (some r) = P r

behind-Fits :
    (size a n : ℕ) (rs : Runs) (o : Option (ℕ × Runs))
    → Disjoint ((a, n) ∷ rs)
    → IfFound (Fits size rs) o
    → IfFound (Fits size ((a, n) ∷ rs)) (behind a n o)
behind-Fits size a n rs none d h = tt
behind-Fits size a n rs (some r) d h =
    let apart = h.others a n d.1 in
    record {
      disjoint = (d.0, apart.1, h.disjoint);
      off = (ground (arith, apart.0), h.off);
      within = λ x out. h.within x out.1;
      others = λ b k off. ((h.others b k off.1).0, (off.0, (h.others b k off.1).1));
    }

first_fit-Fits : (size : ℕ) (rs : Runs) → Disjoint rs → IfFound (Fits size rs) (first_fit size rs)
first_fit-Fits size [] d = tt
first_fit-Fits size ((a, n) ∷ rs) (room, off, d) = elim (Bool-cases (n == size)) [
  | inl e ↦ rw e (record {
    disjoint = d;
    off = Off-shrink a n a size rs (omega arith) (ground arith) off;
    within = λ x out. ground (arith, out.0);
    others = λ b k o. (ground (arith, o.0), o.1);
  })
  | inr ne ↦ elim (Bool-cases (leb (size + 4) n)) [
    | inl le ↦
        rw (ne, le)
          (record {
            disjoint = (
              ground arith,
              Off-shrink a n (word_at a size) (n - size) rs (omega arith) (ground arith) off,
              d,
            );
            off = (inl (omega arith), Off-shrink a n a size rs (omega arith) (ground arith) off);
            within = λ x out. ground (arith, out.0);
            others = λ b k o. (ground (arith, o.0), (ground (arith, o.0), o.1));
          })
    | inr gt ↦
        rw (ne, gt)
          (behind-Fits size a n rs (first_fit size rs) (room, off, d) (first_fit-Fits size rs d))
  ]
]

zero_words-outside :
    (n a : ℕ) (m : Memory) (x : ℕ) → (x < a) ⊎ (word_at a n ≤ x) → zero_words n a m x ≡ m x
zero_words-outside zero a m x out = refl
zero_words-outside (suc n) a m x out =
    let rest = zero_words-outside n a m x (ground arith) in ground arith

zero_words-inside : (n a : ℕ) (m : Memory) (i : ℕ) → i < n → zero_words n a m (word_at a i) ≡ 0
zero_words-inside zero a m i lt = absurd (omega arith)
zero_words-inside (suc n) a m i lt = elim (Bool-cases (i == n)) [
  | inl e ↦ ground arith
  | inr ne ↦ let rest = zero_words-inside n a m i (ground arith) in ground arith
]

zero_words-SameElements :
    (n a : ℕ) (m : Memory) (rs : Runs)
    → Disjoint rs
    → Off a n rs
    → SameElements m (zero_words n a m) rs
zero_words-SameElements n a m [] d off = tt
zero_words-SameElements n a m ((b, k) ∷ rs) (room, offs, d) (apart, off) = (
  zero_words-outside n a m b (ground arith),
  zero_words-outside n a m (word_at b 1) (ground arith),
  zero_words-outside n a m (word_at b 2) (ground arith),
  zero_words-SameElements n a m rs d off,
)

-- What the caller gets, and the list that is left, when first fit says `o`.
abbrev pub Allocated : ℕ → FreeStore → Runs → Option (ℕ × Runs) → ℕ × FreeStore → Type 0
Allocated size s rs none r = (r.0 ≡ null) × (r.1 ≡ s)
Allocated size s rs (some (a, left)) r =
    (r.0 ≡ a)
    × (a ≢ null)
    × Elements r.1.memory r.1.free_list left
    × Disjoint left
    × Off a size left
    × ((i : ℕ) → i < size → r.1.memory (word_at a i) ≡ 0)
    × ((x : ℕ) → Outside x rs → r.1.memory x ≡ s.memory x)

cleared :
    (size : ℕ) (s : FreeStore) (rs : Runs) (o : Option (ℕ × Runs)) (r : ℕ × FreeStore)
    → IfFound (Fits size rs) o
    → Agrees list_head s rs o r
    → Allocated size s rs o
        (if r.0 == null then r else (r.0, record r.1 { memory = zero_words size r.0 r.1.memory }))
cleared size s rs none r fits (e, same) =
    let test : (r.0 == null) ≡ true = ground arith in rw test (e, same)
cleared size s rs (some (a, left)) r fits (e, real, is, head, frame) =
    let test : (r.0 == null) ≡ false = ground arith in
    rw (test, e)
      (
        refl,
        real,
        Elements-frame r.1.memory (zero_words size a r.1.memory) r.1.free_list left
            (zero_words-SameElements size a r.1.memory left fits.disjoint fits.off) is,
        fits.disjoint,
        fits.off,
        (λ i lt. zero_words-inside size a r.1.memory i lt),
        (λ x out. zero_words-outside size a r.1.memory x (fits.within x out) ∙ frame x tt out),
      )

-- On a free list of disjoint elements, each with room for its three words, and for at least one word
-- wanted, the search ends and is first fit: it returns NULL and changes nothing when no element has
-- exactly that size or at least four words more; otherwise it returns the first such element, the list in memory
-- is the list without those words, its elements are still disjoint and share nothing with the words
-- returned, those words are zero, and no word outside the old elements changed.
pub malloc_from_list-Allocated :
    (size : ℕ)
    → 1 ≤ size
    → (rs : Runs) (s : FreeStore) → Elements s.memory s.free_list rs
    → Disjoint rs
    → Gives (Allocated size s rs (first_fit size rs)) (malloc_from_list (suc (length rs)) size s)
unfolding malloc_from_list
malloc_from_list-Allocated size words rs s is d =
    finished (find_space (suc (length rs)) size list_head s)
      (find_space-Agrees size words rs (suc (length rs)) list_head s (omega arith) is d tt)
  where
    finished :
        (o : Option (ℕ × FreeStore))
        → Gives (Agrees list_head s rs (first_fit size rs)) o
        → Gives (Allocated size s rs (first_fit size rs)) (elim o [
          | none ↦ none
          | some r ↦ some (
              if r.0 == null
              then r
              else (r.0, record r.1 { memory = zero_words size r.0 r.1.memory }))
        ])
    finished none h = elim h [ ]
    finished (some r) h = cleared size s rs (first_fit size rs) r (first_fit-Fits size rs d) h
