-- ===== src/Gembc/Collect0/Tested.antt =====
-- What a round of the loop does with a pointer, on every branch.
use ggggc.Base.{ℕ, ◌+◌, ◌++◌, ◌*◌, ◌/◌, ◌≤◌, ◌<◌, ◌≡◌, ◌≢◌, ◌⊎◌, Bool, true, leb, if◌then◌else◌}
use ggggc.Heap.{word_at}
use ggggc.WorkList.{WorkList}
use ggggc.Gembc.Allocate.{Generation}
use ggggc.Gembc.Allocate.First.{NoRoom, Place}
use ggggc.Gembc.Collect0.{
  add_survivors, Collecting, add_object_pointers, Round, next_round, promotion,
}

-- The free words of the pools that objects move to are not the words from `a` up to `b`.
abbrev pub Beside : (size : ℕ) → Generation → (a b : ℕ) → Type 0
Beside size g a b = (p : Place size g.pools) → (b ≤ p.pool.free) ⊎ (p.pool.end < a)

module _ (wl : WorkList) (tagging : Bool) where
  -- The object at `obj`, of `size` words, moved, and `ptr` follows it.
  pub record Moved (ptr obj size : ℕ) (g : Generation) (c c' : Collecting wl tagging) : Type 0 where
    pub place : Place size g.pools
    pub nobj : ℕ
    pub at : nobj ≡ place.pool.free
    pub inside : word_at nobj size ≤ place.pool.end
    pub follows : c'.memory ptr ≡ nobj
    pub forwarded : c'.memory obj ≡ nobj / 2 * 2 + 1
    pub copied : (i : ℕ) → i < size → c'.memory (word_at nobj i) ≡ c.memory (word_at obj i)
    pub others :
        (a : ℕ)
        → a ≢ ptr
        → a ≢ obj
        → (a < nobj) ⊎ (word_at nobj size < a)
        → c'.memory a ≡ c.memory a
    pub survivors : c'.survivors ≡ add_survivors obj size c.survivors
    pub pending :
        c'.pending ≡ add_object_pointers wl tagging c'.memory nobj (c'.memory nobj) c.pending

  -- What a round does, where `ptr` leads to the object `obj`, perhaps by forwarding pointers, of a generation that is
  -- collected or not, and `size` are the words of `obj` then.
  abbrev pub IsTested :
      (gen : ℕ) (gen_of : ℕ → ℕ) (ptr obj size : ℕ)
      → Generation
      → Collecting wl tagging
      → Round wl tagging
      → Type 0
  IsTested gen gen_of ptr obj size g c (next_round c') =
      if leb (gen_of obj) gen
      then Moved ptr obj size g c c'
      else (c' ≡ record c { memory = c'.memory })
        × (c'.memory ptr ≡ obj)
        × ((a : ℕ) → a ≢ ptr → c'.memory a ≡ c.memory a)
  IsTested gen gen_of ptr obj size g c (promotion c') =
      (leb (gen_of obj) gen ≡ true)
      × NoRoom size g.pools
      × (c'.promoted.passed ++ c'.promoted.pools ≡ g.passed ++ g.pools)
      × (c'.survivors ≡ add_survivors obj size c.survivors)
      × (c'.pending ≡ c.pending)
      × (c'.memory ptr ≡ obj)
      × ((a : ℕ) → a ≢ ptr → c'.memory a ≡ c.memory a)
