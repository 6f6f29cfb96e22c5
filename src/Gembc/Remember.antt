-- ===== src/Gembc/Remember.antt =====
-- The write barrier of ggggc/gc-gembc.h: the card of an object of a generation above 0 is remembered when one of
-- its references is written.
pub mod Kept
mod Tests
use ggggc.Base.{ℕ, ◌-◌, ◌%◌, ltb, ◌==◌, if◌then◌else◌}
use ggggc.Heap.{Memory, write, word_at}
use ggggc.Gembc.Allocate.{pool_bytes, card_of, GenPool, set_card}

-- the memory, and the pool at each address of one
pub record Store : Type 0 where
  pub memory : Memory
  pub pools : ℕ → GenPool

-- GGGGC_POOL_OF
abbrev pub pool_of : ℕ → ℕ
pool_of ptr = ptr - ptr % pool_bytes

-- GGGGC_GEN_OF
abbrev pub gen_of : Store → ℕ → ℕ
gen_of s ptr = (s.pools (pool_of ptr)).gen

-- `a high-gen object, let's remember it`
abbrev pub remember_card : GenPool → (card : ℕ) → GenPool
remember_card pool card =
    if ltb 0 pool.gen then record pool { remember = set_card pool.remember card 1 } else pool

-- GGGGC_WP, where `member` counts words
pub write_pointer : (object member value : ℕ) → Store → Store
write_pointer object member value s = record {
  pools =
      λ p. if p == pool_of object then remember_card (s.pools p) (card_of object) else s.pools p;
  memory = write s.memory (word_at object member) value;
}
