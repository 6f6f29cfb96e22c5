-- ===== src/MarkSweep/Mark.antt =====
-- `mark` of collector/portablems.c: mark an object and everything that it refers to. The mark is the
-- low bit of the object's descriptor pointer.
pub mod Graph
pub mod Children
pub mod Step
pub mod Correct
mod Tests
use ggggc.Base.{ℕ, zero, suc, ◌+◌, ◌%◌, Bool, not, ◌&&◌, Option, none, some, ◌==◌, if◌then◌else◌}
use ggggc.Heap.{Memory, write, null, word_at, is_tagged}
use ggggc.Heap.Walk.{pointer_walk}
use ggggc.WorkList.{WorkList}

abbrev pub is_marked : Memory → ℕ → Bool
is_marked m a = m a % 2 == 1

-- `if (objVp[curWord] && !IS_TAGGED(objVp[curWord])) TOSEARCH_ADD(objVp[curWord]);`
abbrev pub wants_search : Bool → ℕ → Bool
wants_search tagging p = not (p == null) && not (is_tagged tagging p)

module _ (wl : WorkList) (tagging : Bool) where
  abbrev pub add_child : Memory → ℕ → ℕ → wl.State → wl.State
  add_child m obj i s =
      let p = m (word_at obj i) in if wants_search tagging p then wl.add p s else s

  -- the body of the `while` loop, after `obj` was popped
  pub mark_object : ℕ → Memory → wl.State → Memory × wl.State
  unfolding pointer_walk
  mark_object obj m s =
      let descriptor = m obj in
      let marked = write m obj (descriptor + 1) in
      if is_marked m obj
      then (m, s)
      else (marked, pointer_walk marked descriptor (add_child marked obj) (wl.add descriptor s))

  -- `none` means that the fuel ran out.
  pub mark_loop : ℕ → Memory → wl.State → Option (Memory × wl.State)
  unfolding mark_object
  mark_loop zero m s = none
  mark_loop (suc fuel) m s =
      let popped = wl.pop s in
      let next = mark_object popped.0 m popped.1 in
      let rest = mark_loop fuel next.0 next.1 in if wl.used s == 0 then some (m, s) else rest

  -- `s` is the list as the last search left it.
  pub mark : ℕ → ℕ → Memory → wl.State → Option (Memory × wl.State)
  unfolding mark_loop
  mark fuel obj m s = mark_loop fuel m (wl.add obj (wl.init s))
