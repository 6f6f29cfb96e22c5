-- ===== src/Gembc/Compact/Layout.antt =====
-- What ggggc_countUsed leaves for ggggc_compact, and what the compaction makes of it.
use ggggc.Base.{
  ℕ, ◌+◌, ◌-◌, ◌*◌, ◌≤◌, ◌<◌, ◌≡◌, ap, ◌∙◌, ◌⊎◌, inl, inr, List, [], ◌∷◌, ◌++◌, arith, length,
}
use mathlib.Core.List.{Permᴰ}
use ggggc.Heap.{Memory, word_at}
use ggggc.BreakTable.{BreakTableEl}
use ggggc.Gembc.Compact.{Compacting}
use ggggc.Gembc.Compact.Table.{Table}

-- a chunk of unused words and the chunk of used words behind it
pub record Run : Type 0 where
  pub unused : ℕ
  pub used : ℕ

-- where the used words start, and where they end
abbrev pub used_at : ℕ → Run → ℕ
used_at c k = word_at c k.unused

abbrev pub behind : ℕ → Run → ℕ
behind c k = word_at (used_at c k) k.used

-- The first word of an unused chunk has its size, and the word in front of a used chunk the size of that one. The
-- pool ends with the last used chunk or with unused words.
abbrev pub Layout : Memory → (c end : ℕ) → List Run → Type 0
Layout m c end [] = (c ≡ end) ⊎ ((c < end) × (word_at c (m c) ≡ end))
Layout m c end (k ∷ ks) =
    (m c ≡ k.unused)
    × (m (used_at c k - 8) ≡ k.used)
    × (3 ≤ k.unused)
    × (1 ≤ k.used)
    × (behind c k ≤ end)
    × Layout m (behind c k) end ks

-- how many words are used
abbrev pub total : List Run → ℕ
total [] = 0
total (k ∷ ks) = k.used + total ks

-- where each used chunk is and where it goes, when the words from `free` on are to be filled
abbrev pub moves : (free c : ℕ) → List Run → List BreakTableEl
moves free c [] = []
moves free c (k ∷ ks) =
    record { orig = used_at c k; new_l = free } ∷ moves (word_at free k.used) (behind c k) ks

-- The words of each used chunk in `m` are those at its new place in `m'`.
abbrev pub Kept : (m m' : Memory) → (free c : ℕ) → List Run → Type 0
Kept m m' free c [] = Unit
Kept m m' free c (k ∷ ks) =
    ((j : ℕ) → j < k.used → m' (word_at free j) ≡ m (word_at (used_at c k) j))
    × Kept m m' (word_at free k.used) (behind c k) ks

-- the state at an unused chunk, when the table is `tab`
pub record Ready (end : ℕ) (tab : List BreakTableEl) (ks : List Run) (s : Compacting) : Type 0 where
  pub layout : Layout s.memory s.cur end ks
  pub filled : s.free ≤ s.bt
  pub entries : s.bt_end ≡ s.bt + 16 * length tab
  pub fits : s.bt_end ≤ s.cur
  pub table : Table s.memory s.bt tab

-- the state at the end of the pool
pub record Slid (end : ℕ) (tab : List BreakTableEl) (ks : List Run) (s t : Compacting)
    : Type 0 where
  pub free : t.free ≡ word_at s.free (total ks)
  pub kept : Kept s.memory t.memory s.free s.cur ks
  pub below : (x : ℕ) → x < s.free → t.memory x ≡ s.memory x
  pub table : List BreakTableEl
  pub stands : Table t.memory t.bt table
  pub moved : Permᴰ table (moves s.free s.cur ks ++ tab)
  pub entries : t.bt_end ≡ t.bt + 16 * length table
  pub filled : t.free ≤ t.bt
  pub fits : t.bt_end ≤ end

pub Layout-same :
    (m m' : Memory) (c end : ℕ) (ks : List Run)
    → ((x : ℕ) → c ≤ x → m' x ≡ m x)
    → Layout m c end ks
    → Layout m' c end ks
Layout-same m m' c end [] same (inl e) = inl e
Layout-same m m' c end [] same (inr (lt, e)) = inr (lt, ap (word_at c) (same c (omega arith)) ∙ e)
Layout-same m m' c end (k ∷ ks) same (u, w, a, b, l, h) = (
  same c (omega arith) ∙ u,
  same (used_at c k - 8) (omega arith) ∙ w,
  a,
  b,
  l,
  Layout-same m m' (behind c k) end ks (λ x le. same x (omega arith)) h,
)

pub Kept-same :
    (m m' t : Memory) (free c : ℕ) (ks : List Run)
    → ((x : ℕ) → c ≤ x → m' x ≡ m x)
    → Kept m' t free c ks
    → Kept m t free c ks
Kept-same m m' t free c [] same h = tt
Kept-same m m' t free c (k ∷ ks) same (one, h) = (
  (λ j lt. one j lt ∙ same (word_at (used_at c k) j) (omega arith)),
  Kept-same m m' t (word_at free k.used) (behind c k) ks (λ x le. same x (omega arith)) h,
)
