-- ===== src/Gembc/Allocate.antt =====
-- Allocation in the generations of collector/gembc.c: each allocates at the end of a pool, and a pool of a
-- generation above 0 records where the first object of each card is.
mod Cards
pub mod First
pub mod Current
mod Tests
use ggggc.Base.{
  ℕ, zero, suc, ◌+◌, ◌-◌, ◌/◌, ◌%◌, Bool, not, ◌&&◌, List, [], ◌∷◌, ◌++◌, ltb, leb, ◌==◌,
  if◌then◌else◌,
}
use ggggc.Heap.{Memory, write, null, word_at, word_bytes}

-- GGGGC_POOL_SIZE and GGGGC_CARD_SIZE of ggggc/gc.h as bytes
abbrev pub pool_bytes : ℕ
pool_bytes = 16777216

abbrev pub card_bytes : ℕ
card_bytes = 4096

-- GGGGC_CARD_OF
abbrev pub card_of : ℕ → ℕ
card_of ptr = (ptr % pool_bytes) / card_bytes

-- `(ptr & GGGGC_CARD_INNER_MASK) / sizeof(ggc_size_t)`
abbrev pub word_in_card : ℕ → ℕ
word_in_card ptr = (ptr % card_bytes) / word_bytes

-- struct GGGGC_Pool with the members of ggggc/gc-gembc.h, without the break table
pub record GenPool : Type 0 where
  pub start : ℕ
  pub free : ℕ
  pub end : ℕ
  pub gen : ℕ
  pub remember : ℕ → ℕ
  pub first_object : ℕ → ℕ

abbrev pub set_card : (ℕ → ℕ) → ℕ → ℕ → ℕ → ℕ
set_card f card v c = if c == card then v else f c

-- ggggc_newPoolGen, on the pool that ggggc_newPool returned
abbrev pub new_pool_gen : (gen : ℕ) → GenPool → GenPool
new_pool_gen gen ret = record ret {
  gen = gen;
  remember = if ltb 0 gen then (λ c. 0) else ret.remember;
  first_object = set_card ret.first_object (card_of ret.start) (word_in_card ret.start);
}

-- `pool->end - pool->free >= size`, for a pool whose `free` is not behind `end`, as every allocation leaves it
abbrev pub has_room : (size : ℕ) → GenPool → Bool
has_room size pool = leb size ((pool.end - pool.free) / word_bytes)

-- A generation: the pools from ggggc_gens[gen] up to the one in front of ggggc_pools[gen], and those from there on,
-- which are none only if the generation has no pool yet.
pub record Generation : Type 0 where
  pub passed : List GenPool
  pub pools : List GenPool

-- What an attempt to allocate comes to: the object and the generation after it, or that no pool from the current
-- one on has room, when the last one is current.
pub data Attempt (A : Type 0) : Type 0 where
  allocated : ℕ → A → Generation → Attempt A
  exhausted : Generation → Attempt A

module _ {A : Type 0} (size : ℕ) (take : GenPool → A × GenPool) where
  -- the loop through `retry`, from the current pool on
  unfoldable pub retry : (passed pools : List GenPool) → Attempt A
  retry passed [] = exhausted (record { passed = passed; pools = [] })
  retry passed (pool ∷ next) =
      let later = retry (passed ++ pool ∷ []) next in
      let taken = take pool in
      if has_room size pool
      then allocated pool.free taken.0 (record { passed = passed; pools = taken.1 ∷ next })
      else elim next [
        | [] ↦ exhausted (record { passed = passed; pools = pool ∷ [] })
        | _ ∷ _ ↦ later
      ]

-- `memset(ret, 0, size * sizeof(ggc_size_t))`
abbrev pub clear_object : (ret size : ℕ) → Memory → Memory
clear_object ret zero m = m
clear_object ret (suc n) m = clear_object (ret + word_bytes) n (write m ret 0)

-- what ggggc_mallocRaw does with a pool that has room
abbrev pub take_gen0 : (size : ℕ) → Memory → GenPool → Memory × GenPool
take_gen0 size m pool =
    (clear_object pool.free size m, record pool { free = word_at pool.free size })

-- `if we passed a card, mark the first object`
abbrev pub pass_card : (ret : ℕ) → GenPool → GenPool
pass_card ret pool =
    if not (card_of ret == card_of pool.free) && ltb pool.free pool.end
    then record pool {
      first_object = set_card pool.first_object (card_of pool.free) (word_in_card pool.free);
    }
    else pool

-- what ggggc_mallocGen1 does with a pool that has room
abbrev pub take_gen1 : (size : ℕ) → Memory → GenPool → Memory × GenPool
take_gen1 size m pool =
    let free = word_at pool.free size in
    (
      if ltb free pool.end then write m free 0 else m,
      pass_card pool.free (record pool { free = free }),
    )

-- `get our allocation pool`; `fresh` is what ggggc_newPool returns.
abbrev pub with_pool : (gen : ℕ) (fresh : GenPool) → Generation → Generation
with_pool gen fresh g = elim g.pools [
  | [] ↦ record { passed = []; pools = new_pool_gen gen fresh ∷ [] }
  | _ ∷ _ ↦ g
]

-- ggggc_mallocRaw until it returns or calls ggggc_collect0(0)
unfoldable pub malloc_raw : (fresh : GenPool) (size : ℕ) → Memory → Generation → Attempt Memory
unfolding retry
malloc_raw fresh size m g =
    let h = with_pool 0 fresh g in retry size (take_gen0 size m) h.passed h.pools

-- ggggc_mallocGen1, which returns NULL when it is exhausted
unfoldable pub malloc_gen1 :
    (gen : ℕ) (fresh : GenPool) (size : ℕ) → Memory → Generation → Attempt Memory
unfolding retry
malloc_gen1 gen fresh size m g =
    let h = with_pool gen fresh g in retry size (take_gen1 size m) h.passed h.pools
