-- ===== src/MarkSweep/Sweep.antt =====
-- `sweep` of collector/portablems.c: the unmarked blocks of the pools become the free list, whose
-- sizes stand in the header word until clearFreeList moves them.
pub mod Layout
pub mod Round
pub mod Rest
pub mod Whole
pub mod Correct
mod Tests
use ggggc.Base.{
  ℕ, zero, suc, ◌+◌, ◌-◌, ◌/◌, Option, none, some, List, [], ◌∷◌, ltb, ◌==◌, if◌then◌else◌,
}
use ggggc.Heap.{Memory, write, null, word_at, size_of}
use ggggc.MarkSweep.Mark.{is_marked}

-- GGGGC_Pool: the first word, the word behind the last one, and the words that survived
pub record Pool : Type 0 where
  pub start : ℕ
  pub end : ℕ
  pub survivors : ℕ

-- `pool->end - pool->start`, which counts words
abbrev pub words_of : Pool → ℕ
words_of p = (p.end - p.start) / 8

-- The memory, `freeList`, `lastFree` and the `survivors` of the pool being swept.
pub record Sweeping : Type 0 where
  pub memory : Memory
  pub free_list : ℕ
  pub last_free : ℕ
  pub kept : ℕ

-- The branch for a marked object: the place behind it, and the state with its mark removed.
abbrev pub keep_block : ℕ → Sweeping → ℕ × Sweeping
keep_block cur s =
    let descriptor = s.memory cur - 1 in
    let size = size_of s.memory descriptor in
    (word_at cur size, record s { memory = write s.memory cur descriptor; kept = s.kept + size })

-- `free this object`, once its size is in the header word
abbrev pub link_block : ℕ → Sweeping → ℕ × Sweeping
link_block cur s =
    let m = s.memory in
    let last = s.last_free in
    let next =
      if last == null
      then record s { free_list = cur; last_free = cur }
      else if cur == word_at last (m last)
      then record s { memory = write m last (m last + m cur) }
      else record s { memory = write m (word_at last 2) cur; last_free = cur } in
    (word_at next.last_free (next.memory next.last_free), next)

-- The branch for everything else: a free list entry holds its own size, an object's descriptor holds its.
abbrev pub free_block : ℕ → Sweeping → ℕ × Sweeping
free_block cur s =
    let m = s.memory in
    let size = if m cur == 0 then size_of m cur else size_of m (m cur) in
    link_block cur (record s { memory = write m cur size })

-- the body of the `while` loop
pub sweep_block : ℕ → Sweeping → ℕ × Sweeping
sweep_block cur s = if is_marked s.memory cur then keep_block cur s else free_block cur s

-- The `while` loop over one pool; `none` means that the fuel ran out.
pub sweep_pool : ℕ → (end cur : ℕ) → Sweeping → Option Sweeping
unfolding sweep_block
sweep_pool zero end cur s = none
sweep_pool (suc fuel) end cur s =
    let step = sweep_block cur s in
    let rest = sweep_pool fuel end step.0 step.1 in if ltb cur end then rest else some s

-- The pools with their `survivors`, the state, and the counters `survivors` and `total`.
pub record Swept : Type 0 where
  pub pools : List Pool
  pub state : Sweeping
  pub survivors : ℕ
  pub total : ℕ

-- `now count`, and the pools behind this one
abbrev pub count : Pool → Sweeping → Swept → Swept
count p s rest = record rest {
  pools = record p { survivors = s.kept } ∷ rest.pools;
  survivors = s.kept + rest.survivors;
  total = words_of p + rest.total;
}

-- the `for` loop; every block has at least one word, which bounds the rounds of the inner loop
pub sweep_pools : List Pool → Sweeping → Option Swept
unfolding sweep_pool
sweep_pools [] s = some (record { pools = []; state = s; survivors = 0; total = 0 })
sweep_pools (p ∷ ps) s =
    elim (sweep_pool (suc (p.end - p.start)) p.end p.start (record s { kept = 0 })) [
      | none ↦ none
      | some s' ↦ elim (sweep_pools ps s') [ none ↦ none | some rest ↦ some (count p s' rest) ]
    ]

-- `if (lastFree) lastFree->next = NULL;`
abbrev pub close : Sweeping → Sweeping
close s =
    if s.last_free == null
    then s
    else record s { memory = write s.memory (word_at s.last_free 2) null }

pub sweep : List Pool → Memory → Option Swept
unfolding sweep_pools
sweep pools m =
    elim (sweep_pools pools (record { memory = m; free_list = null; last_free = null; kept = 0 })) [
      | none ↦ none
      | some r ↦ some (record r { state = close r.state })
    ]
