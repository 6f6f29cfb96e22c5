-- ===== src/ToSearch.antt =====
-- The list of pointers to search (ggggc-internals.h): a doubly linked list of buffers, used as one
-- stack. Buffers behind the current one are kept for later.
pub mod Stack
mod Tests
use ggggc.Base.{ℕ, suc, ◌+◌, ◌-◌, Bool, ◌&&◌, List, [], ◌∷◌, leb, ◌==◌, if◌then◌else◌}

-- TOSEARCH_SZ
abbrev pub tosearch_sz : ℕ
tosearch_sz = 1024

-- `used` and `buf` of a `struct ToSearch`
pub record Chunk : Type 0 where
  pub used : ℕ
  pub buf : ℕ → ℕ

-- The list as seen from `toSearch`: the buffers before it, nearest first, itself, those behind it.
pub record ToSearch : Type 0 where
  pub prev : List Chunk
  pub here : Chunk
  pub next : List Chunk

abbrev pub set_used : Chunk → ℕ → Chunk
set_used c n = record c { used = n }

-- `toSearch = &toSearchList`: back to the first buffer
rewind : List Chunk → Chunk → List Chunk → ToSearch
rewind [] here next = record { prev = []; here = here; next = next }
rewind (p ∷ ps) here next = rewind ps p (here ∷ next)

-- TOSEARCH_INIT
pub init : ToSearch → ToSearch
unfolding rewind
init t = let first = rewind t.prev t.here t.next in record first { here = set_used first.here 0 }

-- `toSearch->buf[toSearch->used++] = (ptr)`
put : ℕ → ToSearch → ToSearch
put p t =
    let i = t.here.used in
    record t { here = record { used = i + 1; buf = λ j. if j == i then p else t.here.buf j } }

-- `malloc` is the content of a new buffer, which is not initialised.
module _ (malloc : ℕ → ℕ) where
  -- TOSEARCH_NEXT
  pub next_chunk : ToSearch → ToSearch
  next_chunk t = elim t.next [
    | [] ↦ record { prev = t.here ∷ t.prev; here = record { used = 0; buf = malloc }; next = [] }
    | n ∷ ns ↦ record { prev = t.here ∷ t.prev; here = set_used n 0; next = ns }
  ]

  -- TOSEARCH_ADD
  pub add : ℕ → ToSearch → ToSearch
  unfolding next_chunk put
  add p t = if leb tosearch_sz t.here.used then put p (next_chunk t) else put p t

-- TOSEARCH_POP
pub pop : ToSearch → ℕ × ToSearch
pop t =
    let i = t.here.used - 1 in
    let popped = set_used t.here i in
    (
      t.here.buf i,
      elim t.prev [
        | [] ↦ record t { here = popped }
        | p ∷ ps ↦
            if i == 0
            then record { prev = ps; here = p; next = popped ∷ t.next }
            else record t { here = popped }
      ],
    )
