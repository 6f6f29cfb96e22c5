-- ===== src/Gembc/CountUsed/Blocks.antt =====
-- A pool after the marking: objects one behind the other, each with a size that can be read.
use ggggc.Base.{
  ℕ, zero, suc, ◌+◌, ◌-◌, ◌%◌, ◌≤◌, ◌<◌, ◌≡◌, ap, ◌∙◌, ◌≢◌, true, false, List, [], ◌∷◌, arith, ◌==◌,
  length, Gives,
}
use ggggc.Heap.{Memory, word_at}
use ggggc.Gembc.Compact.Layout.{Run}
use ggggc.Gembc.CountUsed.{is_marked, unmark, follow_forwarded}

-- An object that is marked, with its words, and one that is not, with the objects that its forwarding pointers lead
-- through.
pub data Block : Type 0 where
  used : ℕ → Block
  unused : ℕ → List ℕ → Block

abbrev pub size : Block → ℕ
size (used n) = n
size (unused n ts) = n

abbrev pub size_word : Memory → ℕ → ℕ
size_word m obj = word_at (unmark (m obj)) 1

-- `Fixed` are the words that say where and how large things are, which ggggc_countUsed must not write.
module _ (Fixed : ℕ → Type 0) (hops : ℕ) where
  -- From the object at `obj` the forwarding pointers lead through `ts`, to one with a descriptor of the given size.
  abbrev pub Forwards : Memory → (obj : ℕ) → (ts : List ℕ) → (size : ℕ) → Type 0
  Forwards m obj [] size = (m obj % 2 ≡ 0) × Fixed (size_word m obj) × (m (size_word m obj) ≡ size)
  Forwards m obj (t ∷ ts) size = (m obj ≡ t + 1) × (t % 2 ≡ 0) × Fixed t × Forwards m t ts size

  abbrev pub Apart : (a size : ℕ) → Type 0
  Apart a size = (3 ≤ size) × ((x : ℕ) → Fixed x → (x ≢ a) × (x ≢ word_at a size - 8))

  abbrev pub BlockAt : Memory → ℕ → Block → Type 0
  BlockAt m a (used n) = (is_marked (m a) ≡ true) × Fixed (size_word m a) × (m (size_word m a) ≡ n)
  BlockAt m a (unused n ts) = (is_marked (m a) ≡ false) × Forwards m a ts n × (length ts < hops)

  -- The pool's objects from `a` up to `free`.
  abbrev pub Blocks : Memory → (free a : ℕ) → List Block → Type 0
  Blocks m free a [] = (a ≡ free) × ((x : ℕ) → Fixed x → x ≢ a)
  Blocks m free a (b ∷ bs) =
      BlockAt m a b × Apart a (size b) × Blocks m free (word_at a (size b)) bs

  -- `m'` is `m` still from `a` on and in the fixed words.
  pub record Intact (m m' : Memory) (a : ℕ) : Type 0 where
    pub later : (x : ℕ) → a ≤ x → m' x ≡ m x
    pub fixed : (x : ℕ) → Fixed x → m' x ≡ m x

  pub followed :
      (m m' : Memory) (obj : ℕ) (ts : List ℕ) (size fuel : ℕ)
      → length ts < fuel
      → m' obj ≡ m obj
      → ((x : ℕ) → Fixed x → m' x ≡ m x)
      → Forwards m obj ts size
      → Gives (λ o. m' (size_word m' o) ≡ size) (follow_forwarded fuel m' obj)
  unfolding follow_forwarded
  followed m m' obj ts size zero enough same fixed f = absurd (omega arith)
  followed m m' obj [] size (suc fuel) enough same fixed (even, fix, is) =
      let stop : (m' obj % 2 == 1) ≡ false = ground (arith, same, even) in
      rw stop (ap (λ w. m' (word_at (unmark w) 1)) same ∙ fixed (size_word m obj) fix ∙ is)
  followed m m' obj (t ∷ ts) size (suc fuel) enough same fixed (at, even, fix, f) =
      let go : (m' obj % 2 == 1) ≡ true = ground (arith, same, even, at) in
      let next : m' obj - 1 ≡ t = omega (arith, same, at) in
      rw (go, next) (followed m m' t ts size fuel (omega arith) (fixed t fix) fixed f)

pub Blocks-le :
    (Fixed : ℕ → Type 0) (hops : ℕ) (m : Memory) (free a : ℕ) (bs : List Block)
    → Blocks Fixed hops m free a bs
    → a + length bs ≤ free
Blocks-le Fixed hops m free a [] (at, apart) = omega arith
Blocks-le Fixed hops m free a (b ∷ bs) (at, apart, h) =
    omega (arith, apart.0, Blocks-le Fixed hops m free (word_at a (size b)) bs h)

-- the words of the used blocks at the front, and the blocks behind them; and of those that are not used
abbrev pub used_front : List Block → ℕ
used_front [] = 0
used_front (used n ∷ bs) = n + used_front bs
used_front (unused n ts ∷ bs) = 0

abbrev pub behind_used : List Block → List Block
behind_used [] = []
behind_used (used n ∷ bs) = behind_used bs
behind_used (unused n ts ∷ bs) = unused n ts ∷ bs

abbrev pub unused_front : List Block → ℕ
unused_front [] = 0
unused_front (used n ∷ bs) = 0
unused_front (unused n ts ∷ bs) = n + unused_front bs

abbrev pub behind_unused : List Block → List Block
behind_unused [] = []
behind_unused (used n ∷ bs) = used n ∷ bs
behind_unused (unused n ts ∷ bs) = behind_unused bs

-- the unused words in front of the first run are more
abbrev pub widen : ℕ → List Run → List Run
widen n [] = []
widen n (r ∷ rs) = record r { unused = n + r.unused } ∷ rs

-- the runs of unused and used words, when the used blocks at the front are left out
abbrev pub runs : List Block → List Run
runs [] = []
runs (used n ∷ bs) = runs bs
runs (unused n ts ∷ []) = []
runs (unused n ts ∷ used k ∷ bs) = record { unused = n; used = k + used_front bs } ∷ runs bs
runs (unused n ts ∷ unused k us ∷ bs) = widen n (runs (unused k us ∷ bs))
