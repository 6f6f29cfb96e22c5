-- ===== src/Gembc/Compact.antt =====
-- ggggc_compact of collector/gembc.c: the used chunks of a pool slide to its start, and the entries of the
-- break table, which stands in the space between, roll along in front of them.
pub mod Table
mod Chunk
pub mod Layout
mod Round
pub mod Slide
pub mod Follow
pub mod Correct
pub mod Insertion
mod Tests
use ggggc.Base.{
  ℕ, zero, suc, ◌+◌, ◌-◌, ◌/◌, Option, none, some, List, ltb, leb, if◌then◌else◌, get_elem?, bind,
  ℤ, pos, negsuc,
}
use ggggc.Heap.{Memory, write, null, word_at, word_bytes}
use ggggc.BreakTable.{BreakTableEl, Outcome, found, absent, find_break_table_entry}

-- the memory, `pool->free`, `cur`, `bt` and `btEnd`
pub record Compacting : Type 0 where
  pub memory : Memory
  pub free : ℕ
  pub cur : ℕ
  pub bt : ℕ
  pub bt_end : ℕ

-- sizeof(struct BreakTableEl)
abbrev pub el_bytes : ℕ
el_bytes = 16

-- two words from `from` to `to`
abbrev pub copy_pair : Memory → (to from : ℕ) → Memory
copy_pair m to from =
    let m1 = write m to (m from) in write m1 (to + word_bytes) (m1 (from + word_bytes))

-- `*btEnd++ = *bt++;` and the two words `i` and `i + 1` of the chunk
abbrev pub move_two : ℕ → Compacting → Compacting
move_two i s =
    let rolled = copy_pair s.memory s.bt_end s.bt in
    record s {
      memory = copy_pair rolled (word_at s.free i) (word_at s.cur i);
      bt = s.bt + el_bytes;
      bt_end = s.bt_end + el_bytes;
    }

-- the loop `for (i = 0; i < chSize; i += 2)`, which makes a round for each two words or part of them
pub move_chunk : (rounds i : ℕ) → Compacting → Compacting
move_chunk zero i s = s
move_chunk (suc n) i s = move_chunk n (i + 2) (move_two i s)

-- `add the bt table entry`
abbrev pub add_entry : ℕ → Compacting → Compacting
add_entry ch_size s = record {
  memory = write (write s.memory s.bt_end s.cur) (s.bt_end + word_bytes) s.free;
  free = word_at s.free ch_size;
  cur = word_at s.cur ch_size;
  bt = s.bt;
  bt_end = s.bt_end + el_bytes;
}

-- The `while (1)` loop; `none` means that the fuel ran out.
pub compact_loop : ℕ → (end fch_size : ℕ) → Compacting → Option Compacting
unfolding move_chunk
compact_loop zero end fch_size s = none
compact_loop (suc fuel) end fch_size s =
    let used = record s { cur = word_at s.cur fch_size } in
    let ch_size = used.memory (used.cur - word_bytes) in
    let behind = word_at used.cur ch_size in
    let fch_size' = if ltb behind end then used.memory behind else 0 in
    let moved = add_entry ch_size (move_chunk ((ch_size + 1) / 2) 0 used) in
    let rest = compact_loop fuel end fch_size' moved in
    if leb end used.cur then some used else (if leb end moved.cur then some moved else rest)

-- `pool->free`, `pool->breakTable` and `pool->breakTableSize`
pub record Compacted : Type 0 where
  pub memory : Memory
  pub free : ℕ
  pub break_table : ℕ
  pub break_table_size : ℕ

-- `pool->breakTableSize = btEnd - bt; pool->breakTable = bt;`
abbrev pub finish : Compacting → Compacted
finish s = record {
  memory = s.memory;
  free = s.free;
  break_table = s.bt;
  break_table_size = (s.bt_end - s.bt) / el_bytes;
}

-- ggggc_compact before the qsort; `first_size` is what ggggc_countUsed left in `pool->breakTableSize`. There
-- is a round for each byte of the pool.
pub slide_chunks : (start end first_size : ℕ) → Memory → Option Compacted
unfolding compact_loop
slide_chunks start end first_size m =
    let cur = word_at start first_size in
    let s0 : Compacting = record { memory = m; free = cur; cur = cur; bt = cur; bt_end = cur } in
    if leb end cur
    then some (record { memory = m; free = cur; break_table = null; break_table_size = 0 })
    else bind (compact_loop (suc (end - cur)) end (m cur) s0) (λ s. some (finish s))

-- `breakTableComparator`, with negsuc 0 for -1
abbrev pub break_table_comparator : BreakTableEl → BreakTableEl → ℤ
break_table_comparator l r =
    if ltb l.orig r.orig then negsuc 0 else (if ltb r.orig l.orig then pos 1 else pos 0)

-- qsort on memory: the comparator, the base and the number of elements
abbrev pub QSort : Type 0
QSort = (BreakTableEl → BreakTableEl → ℤ) → Memory → (base size : ℕ) → Memory

abbrev pub sort_table : QSort → Compacted → Compacted
sort_table qsort t = record t {
  memory = qsort break_table_comparator t.memory t.break_table t.break_table_size;
}

-- ggggc_compact, which does not sort when there is nothing to compact
pub compact : QSort → (start end first_size : ℕ) → Memory → Option Compacted
unfolding slide_chunks
compact qsort start end first_size m =
    let slid = slide_chunks start end first_size m in
    if leb end (word_at start first_size) then slid else bind slid (λ t. some (sort_table qsort t))

-- `if (bel)` and its body; `none` stands for a search that fails.
abbrev pub follow_entry : List BreakTableEl → ℕ → Outcome → Option ℕ
follow_entry break_table obj (found i) = elim (get_elem? break_table i) [
  | none ↦ none
  | some bel ↦ some (obj - (bel.orig - bel.new_l))
]
follow_entry break_table obj absent = some obj
follow_entry break_table obj _ = none

-- FOLLOW_COMPACTED_OBJECT, with the break table of the object's pool
pub follow_compacted : List BreakTableEl → ℕ → Option ℕ
follow_compacted break_table obj =
    follow_entry break_table obj (find_break_table_entry break_table obj)
