-- ===== src/Pools.antt =====
-- The pools that nobody uses (allocator.c): ggggc_newPool and ggggc_freeGeneration. Each holds
-- freePoolsLock throughout, so a call is one step.
pub mod Queue
pub mod Expand
mod Tests
use ggggc.Base.{ℕ, zero, suc, ◌+◌, Option, none, some, ◌==◌, if◌then◌else◌}
use ggggc.Heap.{null}

-- `next`, `free` and `end` of the pool at each address, and the ends of the list of free pools
pub record Pools : Type 0 where
  pub next : ℕ → ℕ
  pub free : ℕ → ℕ
  pub end : ℕ → ℕ
  pub head : ℕ
  pub tail : ℕ

abbrev pub set : (ℕ → ℕ) → ℕ → ℕ → ℕ → ℕ
set f p v a = if a == p then v else f a

-- `try to reuse a pool`: the pool, or NULL
abbrev pub reuse : Pools → ℕ × Pools
reuse s =
    let rest = s.next s.head in
    if s.head == null
    then (null, s)
    else (s.head, record s { head = rest; tail = if rest == null then null else s.tail })

-- The offset of the member `start` and GGGGC_POOL_BYTES are those of the build.
module _ (start_offset pool_bytes : ℕ) where
  -- `set it up`
  abbrev pub set_up : ℕ → Pools → Pools
  set_up p s = record s {
    next = set s.next p null;
    free = set s.free p (p + start_offset);
    end = set s.end p (p + pool_bytes);
  }

  -- ggggc_newPool; `allocated` is what allocPool returns if it is called, which may be NULL.
  pub new_pool : (allocated : ℕ) → Pools → ℕ × Pools
  new_pool allocated s =
      let old = reuse s in
      let ret = if old.0 == null then allocated else old.0 in
      if ret == null then (null, old.1) else (ret, set_up ret old.1)

-- `while (pool->next) pool = pool->next;`, where `none` means that the fuel ran out
pub last_pool : ℕ → ℕ → (ℕ → ℕ) → Option ℕ
last_pool zero pool next = none
last_pool (suc fuel) pool next =
    let rest = last_pool fuel (next pool) next in if next pool == null then some pool else rest

-- the list `pool` behind the free pools
abbrev pub link : (pool : ℕ) → Pools → Pools
link pool s =
    if s.head == null then record s { head = pool } else record s { next = set s.next s.tail pool }

-- `freePoolsTail`, from the list `pool` on
pub find_tail : ℕ → (pool : ℕ) → Pools → Option Pools
unfolding last_pool
find_tail fuel pool s = elim (last_pool fuel pool s.next) [
  | none ↦ none
  | some t ↦ some (record s { tail = t })
]

-- ggggc_freeGeneration
pub free_generation : ℕ → (pool : ℕ) → Pools → Option Pools
unfolding find_tail
free_generation fuel pool s =
    let freed = find_tail fuel pool (link pool s) in if pool == null then some s else freed
