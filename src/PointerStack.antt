-- ===== src/PointerStack.antt =====
-- A thread's pointer stack: the frames that the macros GGC_PUSH_n of ggggc/push.h put on it, GGGGC_POP of ggggc/gc.h,
-- and ggggc_globalize of roots.c, by which references stay known when their frame is gone.
pub mod Global
pub mod Kept
mod Tests
use ggggc.Base.{bind}
use ggggc.Base.{
  ℕ, zero, suc, ◌+◌, ◌-◌, ◌*◌, ◌/◌, ◌%◌, ◌^◌, ◌≤◌, ◌<◌, ◌≡◌, refl, sym, ap, ◌∙◌, ◌≢◌, ◌↔◌, ◌⊎◌, inl,
  inr, Bool, true, false, not, ◌&&◌, ◌||◌, Option, none, some, List, [], ◌∷◌, ◌++◌, map, arith, ltb,
  leb, ◌==◌, if◌then◌else◌, Bool-cases, Option-cases, length, length-append, get_elem?, Gives,
  Gives-mono, has, Distinct,
}
use ggggc.Heap.{null}
use ggggc.Pools.{set}

-- `next` and `pointers` of the struct GGGGC_PointerStack at each address, ggggc_pointerStack and
-- ggggc_pointerStackGlobals
pub record Stacks : Type 0 where
  pub next : ℕ → ℕ
  pub pointers : ℕ → List ℕ
  pub top : ℕ
  pub globals : ℕ

abbrev pub set_frame : (ℕ → List ℕ) → ℕ → List ℕ → ℕ → List ℕ
set_frame f a ptrs b = if b == a then ptrs else f b

-- GGC_PUSH_n and GGC_PUSH_MANUAL_n, for each n: `frame` is &ggggc_localPointerStack.ps, and `ptrs` are the addresses
-- of the references, of which there are `size`.
abbrev pub push_frame : (frame : ℕ) (ptrs : List ℕ) → Stacks → Stacks
push_frame frame ptrs s = record s {
  next = set s.next frame s.top;
  pointers = set_frame s.pointers frame ptrs;
  top = frame;
}

-- GGGGC_POP
abbrev pub pop_frame : Stacks → Stacks
pop_frame s = record s { top = s.next s.top }

-- `while (cur->next) cur = cur->next;`, `none` if the fuel ran out
pub find_globals : (fuel cur : ℕ) (next : ℕ → ℕ) → Option ℕ
find_globals zero cur next = none
find_globals (suc fuel) cur next =
    let rest = find_globals fuel (next cur) next in if next cur == null then some cur else rest

-- `need to find the globals first!`
pub last_frame : (fuel : ℕ) → Stacks → Option ℕ
unfolding find_globals
last_frame fuel s =
    let found = find_globals fuel s.top s.next in
    if s.globals == null then found else some s.globals

-- ggggc_globalize, where `copy` is what malloc returns
pub globalize : (fuel copy : ℕ) → Stacks → Option Stacks
unfolding last_frame
globalize fuel copy s =
    let s' : Stacks = record s {
      next = set s.next copy null;
      pointers = set_frame s.pointers copy (s.pointers s.top);
    } in
    bind (last_frame fuel s') (λ g. some (record s' { next = set s'.next g copy; globals = copy }))

-- What a function does with the stack: nothing more, GGC_GLOBALIZE, or a block that pushes its own frame, does things
-- and pops it.
pub data Code : Type 0 where
  done : Code
  global : (copy : ℕ) → Code → Code
  block : (frame : ℕ) (ptrs : List ℕ) (body : Code) → Code → Code

pub run_code : (fuel : ℕ) → Code → Stacks → Option Stacks
unfolding globalize
run_code fuel done s = some s
run_code fuel (global copy rest) s = bind (globalize fuel copy s) (run_code fuel rest)
run_code fuel (block frame ptrs body rest) s =
    bind (run_code fuel body (push_frame frame ptrs s)) (λ t. run_code fuel rest (pop_frame t))
