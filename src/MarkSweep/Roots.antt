-- ===== src/MarkSweep/Roots.antt =====
-- The first loops of ggggc_collect0 in collector/portablems.c: mark from the roots of all threads.
pub mod Correct
mod Tests
use ggggc.Base.{bind, ℕ, Bool, not, ◌&&◌, Option, some, List, [], ◌∷◌, ◌==◌, if◌then◌else◌}
use ggggc.Heap.{Memory, null}
use ggggc.MarkSweep.Mark.{wants_search, mark}
use ggggc.WorkList.{WorkList}

-- GGGGC_PointerStack, a frame: the addresses of a function's local references
abbrev pub Frame : Type 0
Frame = List ℕ

-- ggggc_pointerStack, a thread's frames from the top; and ggggc_rootPointerStackList, one for each thread
abbrev pub PointerStack : Type 0
PointerStack = List Frame

abbrev pub Marking : WorkList → Type 0
Marking wl = Memory × wl.State

module _ (wl : WorkList) (tagging : Bool) (fuel : ℕ) where
  -- `if (h && *h && !IS_TAGGED(*h)) mark(*h);`, where `fuel` is that of each `mark`
  pub mark_root : ℕ → Marking wl → Option (Marking wl)
  mark_root h (m, s) =
      let obj = m h in
      let marked = mark wl tagging fuel obj m s in
      if not (h == null) && wants_search tagging obj then marked else some (m, s)

  pub mark_frame : Frame → Marking wl → Option (Marking wl)
  unfolding mark_root
  mark_frame [] r = some r
  mark_frame (h ∷ hs) r = bind (mark_root h r) (mark_frame hs)

  pub mark_stack : PointerStack → Marking wl → Option (Marking wl)
  unfolding mark_frame
  mark_stack [] r = some r
  mark_stack (f ∷ fs) r = bind (mark_frame f r) (mark_stack fs)

  -- `mark from roots`; `none` means that the fuel of a `mark` ran out.
  pub mark_from_roots : List PointerStack → Marking wl → Option (Marking wl)
  unfolding mark_stack
  mark_from_roots [] r = some r
  mark_from_roots (t ∷ ts) r = bind (mark_stack t r) (mark_from_roots ts)
