-- ===== src/MarkSweep/FreeList/Elements.antt =====
-- A free list in memory, element by element, and what a write does to it.
use ggggc.Base.{ℕ, ◌≤◌, ◌<◌, ◌≡◌, refl, ◌∙◌, ◌≢◌, ◌⊎◌, List, [], ◌∷◌, arith}
use ggggc.Heap.{Memory, write, null, word_at}
use ggggc.MarkSweep.FreeList.{FreeStore, Cell, list_head, next_of, target, redirect}

-- address and size of each element
abbrev pub Runs : Type 0
Runs = List (ℕ × ℕ)

-- From `p` the list has the elements `rs`, each of them [0, size, next].
abbrev pub Elements : Memory → ℕ → Runs → Type 0
Elements m p [] = p ≡ null
Elements m p ((a, n) ∷ rs) =
    (p ≡ a) × (a ≢ null) × (m a ≡ 0) × (m (word_at a 1) ≡ n) × Elements m (m (word_at a 2)) rs

-- `x` is in none of the runs.
abbrev pub Outside : ℕ → Runs → Type 0
Outside x [] = Unit
Outside x ((a, n) ∷ rs) = ((x < a) ⊎ (word_at a n ≤ x)) × Outside x rs

-- The run of `n` words at `a` shares nothing with the others.
abbrev pub Off : ℕ → ℕ → Runs → Type 0
Off a n [] = Unit
Off a n ((b, k) ∷ rs) = ((word_at a n ≤ b) ⊎ (word_at b k ≤ a)) × Off a n rs

-- The runs have room for an element and are disjoint.
abbrev pub Disjoint : Runs → Type 0
Disjoint [] = Unit
Disjoint ((a, n) ∷ rs) = (3 ≤ n) × Off a n rs × Disjoint rs

abbrev pub SameElements : (m m' : Memory) → Runs → Type 0
SameElements m m' [] = Unit
SameElements m m' ((a, n) ∷ rs) =
    (m' a ≡ m a)
    × (m' (word_at a 1) ≡ m (word_at a 1))
    × (m' (word_at a 2) ≡ m (word_at a 2))
    × SameElements m m' rs

pub Elements-frame :
    (m m' : Memory) (p : ℕ) (rs : Runs) → SameElements m m' rs → Elements m p rs → Elements m' p rs
Elements-frame m m' p [] same is = is
Elements-frame m m' p ((a, n) ∷ rs) (e, f, g, same) (at, real, z, size, is) =
    (at, real, e ∙ z, f ∙ size, rw g (Elements-frame m m' (m (word_at a 2)) rs same is))

pub SameElements-write :
    (m : Memory) (x v : ℕ) (rs : Runs)
    → Disjoint rs
    → Outside x rs
    → SameElements m (write m x v) rs
SameElements-write m x v [] d out = tt
SameElements-write m x v ((a, n) ∷ rs) (room, off, d) (out, outs) =
    (ground arith, ground arith, ground arith, SameElements-write m x v rs d outs)

pub SameElements-trans :
    (m m' m'' : Memory) (rs : Runs)
    → SameElements m m' rs
    → SameElements m' m'' rs
    → SameElements m m'' rs
SameElements-trans m m' m'' [] h k = tt
SameElements-trans m m' m'' ((a, n) ∷ rs) (e, f, g, h) (e', f', g', k) =
    (e' ∙ e, f' ∙ f, g' ∙ g, SameElements-trans m m' m'' rs h k)

-- A word of a run is outside the runs that it shares nothing with.
pub Outside-of_Off : (a n x : ℕ) (rs : Runs) → a ≤ x → x < word_at a n → Off a n rs → Outside x rs
Outside-of_Off a n x [] lo hi off = tt
Outside-of_Off a n x ((b, k) ∷ rs) lo hi (off, offs) =
    (ground arith, Outside-of_Off a n x rs lo hi offs)

-- The cell is no word of the runs.
abbrev pub CellOutside : Cell → Runs → Type 0
CellOutside list_head rs = Unit
CellOutside (next_of a) rs = Outside (word_at a 2) rs

-- `x` is not the word of the cell.
abbrev pub NotCell : Cell → ℕ → Type 0
NotCell list_head x = Unit
NotCell (next_of a) x = x ≢ word_at a 2

pub redirect-target : (c : Cell) (v : ℕ) (s : FreeStore) → target c (redirect c v s) ≡ v
redirect-target list_head v s = refl
redirect-target (next_of a) v s = ground arith

pub redirect-frame :
    (c : Cell) (v : ℕ) (s : FreeStore) (x : ℕ)
    → NotCell c x
    → (redirect c v s).memory x ≡ s.memory x
redirect-frame list_head v s x out = refl
redirect-frame (next_of a) v s x out = ground arith

pub redirect-SameElements :
    (c : Cell) (v : ℕ) (s : FreeStore) (rs : Runs)
    → Disjoint rs
    → CellOutside c rs
    → SameElements s.memory (redirect c v s).memory rs
redirect-SameElements list_head v s rs d out = same rs
  where
    same : (rs : Runs) → SameElements s.memory s.memory rs
    same [] = tt
    same ((a, n) ∷ rs) = (refl, refl, refl, same rs)
redirect-SameElements (next_of a) v s rs d out =
    SameElements-write s.memory (word_at a 2) v rs d out

pub cell_not :
    (c : Cell) (a n x : ℕ) (rs : Runs)
    → CellOutside c ((a, n) ∷ rs)
    → a ≤ x
    → x < word_at a n
    → NotCell c x
cell_not list_head a n x rs out lo hi = tt
cell_not (next_of b) a n x rs out lo hi = λ e. ground arith

pub cell_later : (c : Cell) (a n : ℕ) (rs : Runs) → CellOutside c ((a, n) ∷ rs) → CellOutside c rs
cell_later list_head a n rs out = tt
cell_later (next_of b) a n rs (h, out) = out
