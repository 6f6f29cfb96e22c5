-- ===== src/Gembc/CountUsed.antt =====
-- ggggc_countUsed of collector/gembc.c: after the marking of a full collection, the sizes of the used and unused
-- chunks of a pool are written into its unused words, and the marks are removed.
mod Blocks
mod Chunks
mod Fronts
pub mod Correct
pub mod Compacted
mod Tests
use ggggc.Base.{
  ℕ, zero, suc, ◌-◌, ◌*◌, ◌/◌, ◌%◌, Bool, not, ◌&&◌, Option, none, some, ltb, leb, ◌==◌,
  if◌then◌else◌, bind,
}
use ggggc.Heap.{Memory, write, size_of, word_at, word_bytes}

-- IS_MARKED_PTR
abbrev pub is_marked : ℕ → Bool
is_marked p = (p / 2) % 2 == 1

-- UNMARK_PTR: the bit of 2 is cleared.
abbrev pub unmark : ℕ → ℕ
unmark p = p - 2 * ((p / 2) % 2)

-- IS_FORWARDED_OBJECT
abbrev pub is_forwarded : Memory → ℕ → Bool
is_forwarded m obj = m obj % 2 == 1

-- FOLLOW_FORWARDED_OBJECT; `none` means here and below that the fuel ran out.
unfoldable pub follow_forwarded : ℕ → Memory → ℕ → Option ℕ
follow_forwarded zero m obj = none
follow_forwarded (suc fuel) m obj =
    let further = follow_forwarded fuel m (m obj - 1) in
    if is_forwarded m obj then further else some obj

-- `cur->descriptor__ptr->size`, when the object is unmarked
abbrev pub size_at : Memory → ℕ → ℕ
size_at m obj = size_of m (m obj)

-- the loops that unmark the objects of a used chunk: where it ends
pub used_chunk : ℕ → (free cur : ℕ) → Memory → Option (ℕ × Memory)
used_chunk zero free cur m = none
used_chunk (suc fuel) free cur m =
    let m1 = write m cur (unmark (m cur)) in
    let rest = used_chunk fuel free (word_at cur (size_at m1 cur)) m1 in
    if ltb cur free && is_marked (m cur) then rest else some (cur, m)

-- `hops` is the fuel of FOLLOW_FORWARDED_OBJECT.
module _ (hops : ℕ) where
  -- the loop over an unused chunk
  pub unused_chunk : ℕ → (free next : ℕ) → Memory → Option ℕ
  unused_chunk zero free next m = none
  unused_chunk (suc fuel) free next m =
      let rest =
        bind (follow_forwarded hops m next)
          (λ obj. unused_chunk fuel free (word_at next (size_of m (unmark (m obj)))) m) in
      if ltb next free && not (is_marked (m next)) then rest else some next

  -- `if (next >= pool->free) next = pool->end;`
  abbrev pub or_end : (free end next : ℕ) → ℕ
  or_end free end next = if leb free next then end else next

  -- the `while (1)` loop at an unused chunk
  pub count_loop : ℕ → (free end cur : ℕ) → Memory → Option Memory
  count_loop zero free end cur m = none
  count_loop (suc fuel) free end cur m = bind (unused_chunk fuel free cur m) (λ found.
      let next = or_end free end found in
      let m1 = write m cur ((next - cur) / word_bytes) in
      let rest = bind (used_chunk fuel free next m1) (λ used.
        let m2 = write used.1 (next - word_bytes) ((used.0 - next) / word_bytes) in
        let rest = count_loop fuel free end used.0 m2 in
        if leb end used.0 then some m2 else rest) in
      if leb end next then some m1 else rest)

  -- ggggc_countUsed: `pool->breakTableSize` and the memory. There is a round for each byte of the pool.
  pub count_used : (start free end : ℕ) → Memory → Option (ℕ × Memory)
  count_used start free end m =
      let fuel = suc (suc (end - start)) in
      bind (used_chunk fuel free start m) (λ first.
        let size = (first.0 - start) / word_bytes in
        let rest = bind (count_loop fuel free end first.0 first.1) (λ m'. some (size, m')) in
        if leb end first.0 then some (size, first.1) else rest)
