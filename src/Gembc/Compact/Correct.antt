-- ===== src/Gembc/Compact/Correct.antt =====
-- ggggc_compact as a whole, with the sort of the break table, and the references that follow it.
use ggggc.Base.{
  ℕ, ◌+◌, ◌*◌, ◌≤◌, ◌<◌, ◌≡◌, refl, sym, ap, ◌∙◌, ◌⊎◌, inr, Bool, true, false, some, List, [], ◌∷◌,
  arith, leb, if◌then◌else◌, length, Gives, Gives-mono, Gives-bind, bind,
}
use mathlib.Core.Path.{subst}
use mathlib.Core.List.{Permᴰ}
use mathlib.Core.List.Permᴰ
use ggggc.Heap.{Memory, word_at}
use ggggc.BreakTable.{BreakTableEl}
use ggggc.BreakTable.Search.{IsSorted}
use ggggc.Gembc.Compact.{
  Compacted, slide_chunks, break_table_comparator, QSort, sort_table, compact, follow_compacted,
}
use ggggc.Gembc.Compact.Table.{Table}
use ggggc.Gembc.Compact.Layout.{Run, behind, Layout, total, moves, Kept}
use ggggc.Gembc.Compact.Slide.{IsCompacted, no_chunks, slide_chunks-IsCompacted}
use ggggc.Gembc.Compact.Follow.{
  Belongs-Perm, Perm-length, stays, goes, Follows-sorted, Leads, moves-above, follow-Leads,
}

-- What qsort does with the comparator: a table becomes a sorted one with the same entries, and nothing else
-- changes.
pub record Sorts (qsort : QSort) (m : Memory) (base : ℕ) (t : List BreakTableEl) : Type 0 where
  pub sorted : List BreakTableEl
  pub same : Permᴰ sorted t
  pub ordered : IsSorted sorted
  pub stands : Table (qsort break_table_comparator m base (length t)) base sorted
  pub others :
      (x : ℕ)
      → (x < base) ⊎ (base + 16 * length t ≤ x)
      → qsort break_table_comparator m base (length t) x ≡ m x

abbrev pub IsQSort : QSort → Type 0
IsQSort qsort =
    (m : Memory) (base : ℕ) (t : List BreakTableEl) → Table m base t → Sorts qsort m base t

-- What a reference finds after the compaction of a pool.
pub record Refers (cur end : ℕ) (ks : List Run) (m : Memory) (t : Compacted) : Type 0 where
  pub table : List BreakTableEl
  pub stands : Table t.memory t.break_table table
  pub size : t.break_table_size ≡ length table
  pub ordered : IsSorted table
  pub free : t.free ≡ word_at cur (total ks)
  pub first : (x : ℕ) → x < cur → (follow_compacted table x ≡ some x) × (t.memory x ≡ m x)
  pub leads : Leads (follow_compacted table) cur cur ks
  pub kept : Kept m t.memory cur cur ks

Kept-below :
    (m m' t : Memory) (free c : ℕ) (ks : List Run)
    → ((x : ℕ) → x < word_at free (total ks) → t x ≡ m' x)
    → Kept m m' free c ks
    → Kept m t free c ks
Kept-below m m' t free c [] same h = tt
Kept-below m m' t free c (k ∷ ks) same (one, h) = (
  (λ j lt. same (word_at free j) (omega arith) ∙ one j lt),
  Kept-below m m' t (word_at free k.used) (behind c k) ks (λ x lt. same x (omega arith)) h,
)

first_stays :
    (t : List BreakTableEl) (cur x : ℕ) (ks : List Run)
    → IsSorted t
    → Permᴰ t (moves cur cur ks)
    → x < cur
    → follow_compacted t x ≡ some x
first_stays t cur x ks sorted same lt = elim (Follows-sorted t x sorted) [
  | stays is none_below ↦ is
  | goes e is h below last ↦
      absurd (omega (arith, moves-above cur cur ks e (Belongs-Perm e same h)))
]

-- a sorted table of the moves, in a memory that agrees with `m'` on the used words
Refers-sorted :
    (cur end : ℕ) (ks : List Run) (m m' : Memory) (t : Compacted) (table : List BreakTableEl)
    → Layout m cur end ks
    → Table t.memory t.break_table table
    → t.break_table_size ≡ length table
    → IsSorted table
    → Permᴰ table (moves cur cur ks)
    → t.free ≡ word_at cur (total ks)
    → ((x : ℕ) → x < cur → m' x ≡ m x)
    → Kept m m' cur cur ks
    → ((x : ℕ) → x < t.free → t.memory x ≡ m' x)
    → Refers cur end ks m t
Refers-sorted cur end ks m m' t table layout stands size ordered same free below kept agree =
    record {
      table = table;
      stands = stands;
      size = size;
      ordered = ordered;
      free = free;
      first = λ x lt.
          (first_stays table cur x ks ordered same lt, agree x (omega (arith, free)) ∙ below x lt);
      leads =
          follow-Leads table ordered m end cur cur ks layout (omega arith)
            (λ e h. inr (Belongs-Perm e same h)) (λ e h. Belongs-Perm e (Permᴰ.symm same) h);
      kept = Kept-below m m' t.memory cur cur ks (λ x lt. agree x (omega (arith, free))) kept;
    }

sort-Refers :
    (qsort : QSort) (cur end : ℕ) (ks : List Run) (m : Memory) (t : Compacted)
    → IsQSort qsort
    → Layout m cur end ks
    → IsCompacted cur end ks m t
    → Refers cur end ks m (sort_table qsort t)
sort-Refers qsort cur end ks m t is_qsort layout d =
    let s = is_qsort t.memory t.break_table d.table d.stands in
    Refers-sorted cur end ks m t.memory (sort_table qsort t) s.sorted layout
      (subst
        (λ n. Table (qsort break_table_comparator t.memory t.break_table n) t.break_table s.sorted)
        (sym d.entries) s.stands)
      (d.entries ∙ sym (Perm-length s.same)) s.ordered (Permᴰ.trans s.same d.moved) d.free d.below
      d.kept
      (λ x lt.
        subst (λ n. qsort break_table_comparator t.memory t.break_table n x ≡ t.memory x)
          (sym d.entries) (s.others x (ground (arith, d.room, d.entries))))

short-IsSorted : (t : List BreakTableEl) → length t ≡ 0 → IsSorted t
short-IsSorted [] e = tt
short-IsSorted (x ∷ t) e = absurd (omega arith)

choose {ℓ} :
    {A : Type ℓ} (b : Bool) {x y z : A} (P : A → Type 0)
    → z ≡ (if b then x else y)
    → (b ≡ true → P x)
    → (b ≡ false → P y)
    → P z
choose true P e f g = subst P (sym e) (f refl)
choose false P e f g = subst P (sym e) (g refl)

compact-eq :
    (qsort : QSort) (start end first_size : ℕ) (m : Memory)
    → compact qsort start end first_size m ≡ (
        if leb end (word_at start first_size)
        then slide_chunks start end first_size m
        else bind (slide_chunks start end first_size m) (λ t. some (sort_table qsort t)))
unfolding compact
compact-eq qsort start end first_size m = refl

-- Take a qsort that sorts a table by its comparator, and a pool whose chunks are as ggggc_countUsed leaves them:
-- the size of each unused chunk in its first word, three words at least except at the end of the pool,
-- and the size of each used chunk in the word before it. Then ggggc_compact ends within its fuel.
-- Words in front of the first unused chunk stay as they are, and FOLLOW_COMPACTED_OBJECT leads there to
-- the same place. It leads each word of a used chunk to the place where that word now is: chunk
-- behind chunk, without a gap. The pool is free from the end of the last chunk.
pub compact-Refers :
    (qsort : QSort) (start end first_size : ℕ) (ks : List Run) (m : Memory)
    → IsQSort qsort
    → Layout m (word_at start first_size) end ks
    → Gives (Refers (word_at start first_size) end ks m) (compact qsort start end first_size m)
compact-Refers qsort start end first_size ks m is_qsort layout =
    let cur = word_at start first_size in
    let slid = slide_chunks start end first_size m in
    let done = slide_chunks-IsCompacted start end first_size ks m layout in
    choose (leb end cur) (Gives (Refers cur end ks m)) (compact-eq qsort start end first_size m)
      (λ full.
        Gives-mono slid
          (λ t d.
            Refers-sorted cur end ks m t.memory t d.table layout d.stands d.entries
              (short-IsSorted d.table (
                Perm-length d.moved
                ∙ ap (λ l. length (moves cur cur l))
                    (no_chunks m cur end ks (ground arith) layout)))
              d.moved d.free d.below d.kept (λ x lt. refl))
          done)
      (λ more.
        Gives-bind (Refers cur end ks m) slid (λ t. some (sort_table qsort t))
          (λ t d. sort-Refers qsort cur end ks m t is_qsort layout d) done)
