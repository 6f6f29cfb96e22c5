-- ===== src/MarkSweep/Sweep/Layout.antt =====
-- What a heap holds before a sweep, and the runs of free blocks that a sweep should find.
use ggggc.Base.{
  ℕ, ◌+◌, ◌-◌, ◌≤◌, ◌≡◌, refl, ap, ◌∙◌, ◌≢◌, Bool, true, List, [], ◌∷◌, arith, ◌==◌, if◌then◌else◌,
}
use ggggc.Heap.{Memory, write, null, word_at}
use ggggc.MarkSweep.Mark.{is_marked}
use ggggc.MarkSweep.Sweep.{Pool}

pub record Block : Type 0 where
  pub addr : ℕ
  pub size : ℕ
  pub live : Bool

-- The pools of a heap, each followed by its blocks.
pub data Piece : Type 0 where
  pool : Pool → Piece
  block : Block → Piece

abbrev pub pools : List Piece → List Pool
pools [] = []
pools (pool p ∷ xs) = p ∷ pools xs
pools (block b ∷ xs) = pools xs

abbrev pub blocks : List Piece → List Block
blocks [] = []
blocks (pool p ∷ xs) = blocks xs
blocks (block b ∷ xs) = b ∷ blocks xs

abbrev pub live_words : List Block → ℕ
live_words [] = 0
live_words (b ∷ bs) = (if b.live then b.size else 0) + live_words bs

-- the word that says how many words the block at `a` has
abbrev pub size_word : Memory → ℕ → ℕ
size_word m a = word_at (if is_marked m a then m a - 1 else (if m a == 0 then a else m a)) 1

module _ (Size : ℕ → Type 0) where
  -- A block that the sweep can read: a free entry, or an object with a descriptor. `Size` are the words
  -- that hold sizes, none of which is a block's header word or the word of a free entry's link.
  pub record BlockAt (m : Memory) (b : Block) : Type 0 where
    pub live : b.live ≡ is_marked m b.addr
    pub size : b.size ≡ m (size_word m b.addr)
    pub reads : Size (size_word m b.addr)
    pub spared : (x : ℕ) → Size x → (x ≢ b.addr) × (x ≢ word_at b.addr 2)
    pub has_room : 3 ≤ b.size
    pub not_null : b.addr ≢ null

  -- From `cur` to the end of its pool, and in the pools behind it, the blocks stand end to end.
  abbrev pub Tiled : Memory → (cur end : ℕ) → List Piece → Type 0
  Tiled m cur end [] = cur ≡ end
  Tiled m cur end (pool p ∷ xs) = (cur ≡ end) × Tiled m p.start p.end xs
  Tiled m cur end (block b ∷ xs) =
      (cur ≡ b.addr) × BlockAt m b × Tiled m (word_at b.addr b.size) end xs

-- `x` is neither the header nor the link of a block.
abbrev pub Away : ℕ → List Block → Type 0
Away x [] = Unit
Away x (b ∷ bs) = (x ≢ b.addr) × (x ≢ word_at b.addr 2) × Away x bs

-- No two blocks share a header or a link.
abbrev pub Apart : List Block → Type 0
Apart [] = Unit
Apart (b ∷ bs) = Away b.addr bs × Away (word_at b.addr 2) bs × Apart bs

-- Every live block is as it was but for the mark.
abbrev pub Unmarked : (m m' : Memory) → List Block → Type 0
Unmarked m m' [] = Unit
Unmarked m m' (b ∷ bs) = (b.live ≡ true → m' b.addr ≡ m b.addr - 1) × Unmarked m m' bs

-- The headers of the blocks are the same in both memories.
abbrev pub SameHeaders : (m m' : Memory) → List Block → Type 0
SameHeaders m m' [] = Unit
SameHeaders m m' (b ∷ bs) = (m' b.addr ≡ m b.addr) × SameHeaders m m' bs

-- The free runs from the run `r` on: a free block right behind a run makes it longer, another one
-- starts a run of its own.
abbrev pub joined : Block → Block → Block
joined r b = record r { size = r.size + b.size }

abbrev pub settle : Block → List Block → List Block
settle r [] = r ∷ []
settle r (b ∷ bs) =
    let kept = settle r bs in
    let longer = settle (joined r b) bs in
    let fresh = settle b bs in
    if b.live then kept else (if b.addr == word_at r.addr r.size then longer else r ∷ fresh)

-- The free runs of a heap.
abbrev pub free_runs : List Block → List Block
free_runs [] = []
free_runs (b ∷ bs) =
    let later = free_runs bs in let runs = settle b bs in if b.live then later else runs

-- From `p` the free list runs through `rs` to `q`, each entry with its size in the header.
abbrev pub Links : Memory → ℕ → List Block → ℕ → Type 0
Links m p [] q = p ≡ q
Links m p (r ∷ rs) q = (p ≡ r.addr) × (m p ≡ r.size) × Links m (m (word_at p 2)) rs q

pub SameHeaders-write :
    (m : Memory) (x v : ℕ) (bs : List Block) → Away x bs → SameHeaders m (write m x v) bs
SameHeaders-write m x v [] away = tt
SameHeaders-write m x v (b ∷ bs) away = (ground arith, SameHeaders-write m x v bs away.2)

pub SameHeaders-trans :
    (m m' m'' : Memory) (bs : List Block)
    → SameHeaders m m' bs
    → SameHeaders m' m'' bs
    → SameHeaders m m'' bs
SameHeaders-trans m m' m'' [] h k = tt
SameHeaders-trans m m' m'' (b ∷ bs) h k = (k.0 ∙ h.0, SameHeaders-trans m m' m'' bs h.1 k.1)

pub Unmarked-headers :
    (m m' m'' : Memory) (bs : List Block)
    → SameHeaders m m' bs
    → Unmarked m' m'' bs
    → Unmarked m m'' bs
Unmarked-headers m m' m'' [] h u = tt
Unmarked-headers m m' m'' (b ∷ bs) h u =
    ((λ live. u.0 live ∙ ap (λ n. n - 1) h.0), Unmarked-headers m m' m'' bs h.1 u.1)

module _ (Size : ℕ → Type 0) (m m' : Memory) (same : (x : ℕ) → Size x → m' x ≡ m x) where
  pub BlockAt-frame : (b : Block) → m' b.addr ≡ m b.addr → BlockAt Size m b → BlockAt Size m' b
  BlockAt-frame b header is =
      let word : size_word m' b.addr ≡ size_word m b.addr = rw header refl in
      record {
        live = rw header is.live;
        size = rw (word, same (size_word m b.addr) is.reads) is.size;
        reads = rw word is.reads;
        spared = is.spared;
        has_room = is.has_room;
        not_null = is.not_null;
      }

  pub Tiled-frame :
      (cur end : ℕ) (xs : List Piece)
      → SameHeaders m m' (blocks xs)
      → Tiled Size m cur end xs
      → Tiled Size m' cur end xs
  Tiled-frame cur end [] h t = t
  Tiled-frame cur end (pool p ∷ xs) h t = (t.0, Tiled-frame p.start p.end xs h t.1)
  Tiled-frame cur end (block b ∷ xs) h t =
      (t.0, BlockAt-frame b h.0 t.1, Tiled-frame (word_at b.addr b.size) end xs h.1 t.2)

pub Tiled-le :
    (Size : ℕ → Type 0) (m : Memory) (cur end : ℕ) (xs : List Piece)
    → Tiled Size m cur end xs
    → cur ≤ end
Tiled-le Size m cur end [] t = omega arith
Tiled-le Size m cur end (pool p ∷ xs) t = ground arith
Tiled-le Size m cur end (block b ∷ xs) (at, is, t) =
    omega (arith, Tiled-le Size m (word_at b.addr b.size) end xs t, is.has_room)
