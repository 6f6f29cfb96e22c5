-- ===== src/Gembc/Allocate/Current.antt =====
-- ggggc_mallocRaw in the current pool of generation 0, as long as it has room.
use ggggc.Base.{
  ℕ, ◌+◌, ◌-◌, ◌/◌, ◌≤◌, ◌<◌, ◌≡◌, refl, ◌≢◌, ◌⊎◌, Bool, true, false, ◌||◌, Option, none, some,
  List, [], ◌∷◌, arith, leb, Gives,
}
use ggggc.Heap.{Memory, null, word_at, word_bytes}
use ggggc.Gembc.Allocate.{
  GenPool, Generation, Attempt, allocated, exhausted, has_room, retry, clear_object, malloc_raw,
}
use ggggc.Gembc.Allocate.First.{clear_others}

abbrev pub ended : Attempt Memory → Option (ℕ × Memory × Generation)
ended (allocated ret m g) = some (ret, m, g)
ended (exhausted g) = none

-- of the current pool: the words that are free, whether a word is not free, and that it is a pool
abbrev pub pool_room : List GenPool → ℕ
pool_room [] = 0
pool_room (p ∷ next) = (p.end - p.free) / word_bytes

abbrev pub pool_used : List GenPool → ℕ → Bool
pool_used [] a = true
pool_used (p ∷ next) a = leb (a + word_bytes) p.free || leb p.end a

abbrev pub IsCurrent : List GenPool → Type 0
IsCurrent [] = ⊥
IsCurrent (p ∷ next) = 1 ≤ p.free

in_current :
    (fresh p : GenPool) (next : List GenPool) (size : ℕ) (m : Memory) (passed : List GenPool)
    → size ≤ (p.end - p.free) / word_bytes
    → malloc_raw fresh size m (record { passed = passed; pools = p ∷ next })
      ≡ allocated p.free
          (clear_object p.free size m)
          (record { passed = passed; pools = record p { free = word_at p.free size } ∷ next })
unfolding malloc_raw retry
in_current fresh p next size m passed room =
    let test : has_room size p ≡ true = ground arith in rw test refl

pub IsCurrent-gives :
    (fresh : GenPool) (size : ℕ) (m : Memory) (passed pools : List GenPool)
    → 1 ≤ size
    → IsCurrent pools
    → size ≤ pool_room pools
    → Gives
        (λ (r : ℕ × Memory × Generation).
          (r.0 ≢ null)
          × IsCurrent r.2.pools
          × (pool_room r.2.pools + size ≡ pool_room pools)
          × ((i : ℕ) → i < size → pool_used pools (word_at r.0 i) ≡ false)
          × ((i : ℕ) → i < size → pool_used r.2.pools (word_at r.0 i) ≡ true)
          × ((a : ℕ) → pool_used pools a ≡ true → pool_used r.2.pools a ≡ true)
          × ((a : ℕ) → pool_used pools a ≡ true → r.1 a ≡ m a))
        (ended (malloc_raw fresh size m (record { passed = passed; pools = pools })))
IsCurrent-gives fresh size m passed [] some_words is room = elim is [ ]
IsCurrent-gives fresh size m passed (p ∷ next) some_words is room =
    rw (in_current fresh p next size m passed room) (
      (λ e. omega (arith, e, is)),
      omega (arith, is),
      omega (arith, room),
      (λ i lt. ground (arith, room, lt)),
      (λ i lt. ground (arith, lt)),
      (λ a u. ground (arith, u)),
      (λ a u. clear_others p.free size m a (outside p.free p.end size a some_words room u)),
    )
  where
    outside :
        (free end size a : ℕ)
        → 1 ≤ size
        → size ≤ (end - free) / word_bytes
        → (leb (a + word_bytes) free || leb end a) ≡ true
        → (a < free) ⊎ (word_at free size ≤ a)
    outside free end size a some_words room u = ground arith
