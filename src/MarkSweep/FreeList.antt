-- ===== src/MarkSweep/FreeList.antt =====
-- The free list of collector/portablems.c and the search for space in ggggc_mallocRaw. A list element
-- is three words: zero, the size in words, the next element.
pub mod Elements
pub mod FirstFit
pub mod Allocates
mod Tests
use ggggc.Base.{ℕ, zero, suc, ◌+◌, ◌-◌, Option, none, some, leb, ◌==◌, if◌then◌else◌}
use ggggc.Heap.{Memory, write, null, word_at}

-- the memory and `freeList`
pub record FreeStore : Type 0 where
  pub memory : Memory
  pub free_list : ℕ

-- what `freeListCur` points to: the variable `freeList`, or the `next` of an element
pub data Cell : Type 0 where
  list_head : Cell
  next_of : ℕ → Cell

-- `*freeListCur`
abbrev pub target : Cell → FreeStore → ℕ
target list_head s = s.free_list
target (next_of a) s = s.memory (word_at a 2)

-- `*freeListCur = v`
abbrev pub redirect : Cell → ℕ → FreeStore → FreeStore
redirect list_head v s = record s { free_list = v }
redirect (next_of a) v s = record s { memory = write s.memory (word_at a 2) v }

-- `exactly the right size`
abbrev pub unlink : Cell → FreeStore → FreeStore
unlink c s = redirect c (s.memory (word_at (target c s) 2)) s

-- `enough space to split`: the element behind the first `size` words, written backwards
abbrev pub split : Cell → ℕ → FreeStore → FreeStore
split c size s =
    let cur = target c s in
    let next = word_at cur size in
    let m1 = write s.memory (word_at next 2) (s.memory (word_at cur 2)) in
    let m2 = write m1 (word_at next 1) (m1 (word_at cur 1) - size) in
    redirect c next (record s { memory = write m2 next 0 })

-- The `for` loop: the address found, `null` if there is none; `none` if the fuel ran out.
pub find_space : ℕ → ℕ → Cell → FreeStore → Option (ℕ × FreeStore)
find_space zero size c s = none
find_space (suc fuel) size c s =
    let cur = target c s in
    let room = s.memory (word_at cur 1) in
    let rest = find_space fuel size (next_of cur) s in
    if cur == null
    then some (null, s)
    else if room == size
    then some (cur, unlink c s)
    else if leb (size + 4) room
    then some (cur, split c size s)
    else rest

-- `memset(ret, 0, size * sizeof(ggc_size_t))`
abbrev pub zero_words : ℕ → ℕ → Memory → Memory
zero_words zero a m = m
zero_words (suc n) a m = write (zero_words n a m) (word_at a n) 0

-- The first search of ggggc_mallocRaw and the clearing of what it found; `null` sends the
-- caller to collect and to look again.
pub malloc_from_list : ℕ → ℕ → FreeStore → Option (ℕ × FreeStore)
unfolding find_space
malloc_from_list fuel size s = elim (find_space fuel size list_head s) [
  | none ↦ none
  | some r ↦
      some
        (if r.0 == null then r else (r.0, record r.1 { memory = zero_words size r.0 r.1.memory }))
]
