-- ===== src/MarkSweep/Mark/Graph.antt =====
-- The objects of a heap and the references between them, as the collectors see them.
use ggggc.Base.{
  ℕ, ◌+◌, ◌/◌, ◌%◌, ◌≤◌, ◌<◌, ◌≡◌, ◌≢◌, ◌⊎◌, Bool, ◌&&◌, Option, none, some, List, [], ◌∷◌,
  if◌then◌else◌,
}
use ggggc.Heap.{Memory, word_at, size_of, pointers_of, bits_per_word}
use ggggc.Heap.Walk.{is_pointer}
use ggggc.MarkSweep.Mark.{wants_search}

abbrev pub In : ℕ → List ℕ → Type 0
In b [] = ⊥
In b (x ∷ xs) = (b ≡ x) ⊎ In b xs

-- what word `i` of an object refers to, if anything
abbrev pub kid : Bool → Memory → (d obj i : ℕ) → Option ℕ
kid tagging m d obj i =
    let p = m (word_at obj i) in if is_pointer m d i && wants_search tagging p then some p else none

-- An object refers to its descriptor, and to what its pointer words hold.
pub data Edge (tagging : Bool) (m : Memory) (a b : ℕ) : Type 0 where
  to_descriptor : b ≡ m a → Edge tagging m a b
  to_kid :
      (i : ℕ)
      → pointers_of m (m a) 0 % 2 ≡ 1
      → 1 ≤ i
      → i < size_of m (m a)
      → kid tagging m (m a) a i ≡ some b
      → Edge tagging m a b

pub data Reach (tagging : Bool) (m : Memory) (root : ℕ) : ℕ → Type 0 where
  here : Reach tagging m root root
  step : {a b : ℕ} → Reach tagging m root a → Edge tagging m a b → Reach tagging m root b

-- A heap of unmarked objects: each has a descriptor that is an object large enough for the words
-- that describe it, refers to objects only, and shares no word with the header of another.
pub record IsHeap (tagging : Bool) (m : Memory) (objs : List ℕ) : Type 0 where
  pub unmarked : (a : ℕ) → In a objs → m a % 2 ≡ 0
  pub closed : (a b : ℕ) → In a objs → Edge tagging m a b → In b objs
  pub apart : (a b i : ℕ) → In a objs → In b objs → 1 ≤ i → i < size_of m (m b) → a ≢ word_at b i
  pub sized : (d : ℕ) → In d objs → (a : ℕ) → In a objs → m a ≡ d → 3 < size_of m (m d)
  pub described :
      (a : ℕ)
      → In a objs
      → pointers_of m (m a) 0 % 2 ≡ 1
      → (i : ℕ) → 1 ≤ i
      → i < size_of m (m a)
      → 3 + i / bits_per_word < size_of m (m (m a))

-- `m` is `m₀` with the objects of `marks` marked.
abbrev pub Marks : Memory → (ℕ → Bool) → Memory → Type 0
Marks m₀ marks m = (a : ℕ) → m a ≡ (if marks a then m₀ a + 1 else m₀ a)
