-- ===== src/Gembc/Collect0.antt =====
-- The last loop of ggggc_collect0 of collector/gembc.c, for a collection of the generations up to `gen`: the objects
-- that the pointers to search lead to move to the generation above, and the pointers follow them.
pub mod Tested
pub mod Starts
mod Tests
use ggggc.Base.{bind}
use ggggc.Base.{
  ℕ, zero, suc, ◌+◌, ◌-◌, ◌*◌, ◌/◌, ◌%◌, ◌^◌, ◌≤◌, ◌<◌, ◌≡◌, refl, sym, ap, ◌∙◌, ◌≢◌, ◌↔◌, ◌⊎◌, inl,
  inr, Bool, true, false, not, ◌&&◌, ◌||◌, Option, none, some, List, [], ◌∷◌, ◌++◌, map, arith, ltb,
  leb, ◌==◌, if◌then◌else◌, Bool-cases, Option-cases, length, length-append, get_elem?, Gives,
  Gives-mono, has, Distinct,
}
use ggggc.Heap.{Memory, write, null, word_at, size_of}
use ggggc.Heap.Walk.{pointer_walk}
use ggggc.WorkList.{WorkList}
use ggggc.MarkSweep.Mark.{wants_search}
use ggggc.Gembc.Allocate.{
  pool_bytes, GenPool, Generation, Attempt, allocated, exhausted, malloc_gen1,
}
use ggggc.Gembc.Remember.{pool_of}
use ggggc.Gembc.CountUsed.{is_forwarded, follow_forwarded}

-- `memcpy` of `n` words, which do not overlap
abbrev pub copy_object : (nobj obj n : ℕ) → Memory → Memory
copy_object nobj obj zero m = m
copy_object nobj obj (suc n) m =
    write (copy_object nobj obj n m) (word_at nobj n) (m (word_at obj n))

-- `GGGGC_POOL_OF(obj)->survivors += size`
abbrev pub add_survivors : (obj size : ℕ) → (ℕ → ℕ) → ℕ → ℕ
add_survivors obj size survivors p =
    if p == pool_of obj then (survivors p + size) % 2 ^ 64 else survivors p

module _ (wl : WorkList) (tagging : Bool) where
  -- Memory, `survivors` of the pool at each address, the generation that objects move to, and `toSearch`
  pub record Collecting : Type 0 where
    pub memory : Memory
    pub survivors : ℕ → ℕ
    pub promoted : Generation
    pub pending : wl.State

  -- ADD_OBJECT_POINTERS
  abbrev pub add_object_pointers : Memory → (obj descriptor : ℕ) → wl.State → wl.State
  add_object_pointers m obj descriptor s = wl.add obj (
      pointer_walk m descriptor
        (λ i t. if wants_search tagging (m (word_at obj i)) then wl.add (word_at obj i) t else t) s)

  -- what a round of the loop comes to: the next one, or a collection of one more generation, from what it leaves
  pub data Round : Type 0 where
    next_round : Collecting → Round
    promotion : Collecting → Round

  -- from `copy to the new object` on
  abbrev pub copy_to : (ptr obj size nobj : ℕ) → Collecting → Collecting
  copy_to ptr obj size nobj c =
      let m = write (write (copy_object nobj obj size c.memory) obj (nobj / 2 * 2 + 1)) ptr nobj in
      record c { memory = m; pending = add_object_pointers m nobj (m nobj) c.pending }

  -- what follows the allocation
  abbrev pub after_malloc : (ptr obj size : ℕ) → Collecting → Attempt Memory → Round
  after_malloc ptr obj size c (allocated nobj m g) = next_round (
      copy_to ptr obj size nobj
        (record c { memory = m; survivors = add_survivors obj size c.survivors; promoted = g }))
  after_malloc ptr obj size c (exhausted g) =
      promotion (record c { survivors = add_survivors obj size c.survivors; promoted = g })

  -- `if (IS_FORWARDED_OBJECT(obj))`, where `obj` is what FOLLOW_FORWARDED_OBJECT comes to
  abbrev pub redirect_pointer : (ptr obj : ℕ) → Collecting → Collecting
  redirect_pointer ptr obj c = record c {
    memory = if is_forwarded c.memory (c.memory ptr) then write c.memory ptr obj else c.memory;
  }

  -- `gen_of` is GGGGC_GEN_OF, `fresh` the pool that ggggc_newPool returns, and `hops` the fuel for forwarding pointers.
  module _ (hops gen : ℕ) (gen_of : ℕ → ℕ) (fresh : GenPool) where
    -- `if (GGGGC_GEN_OF(obj) <= gen)`, when it is, with the descriptor that was followed
    abbrev pub move_object : (ptr obj descriptor : ℕ) → Collecting → Round
    move_object ptr obj descriptor c =
        let size = size_of c.memory descriptor in
        after_malloc ptr obj size c (malloc_gen1 (gen + 1) fresh size c.memory c.promoted)

    -- `does it need to be moved?`
    abbrev pub maybe_move : (ptr obj : ℕ) → Collecting → Option Round
    maybe_move ptr obj c =
        let moving =
          bind (follow_forwarded hops c.memory (c.memory obj))
            (λ descriptor. some (move_object ptr obj descriptor c)) in
        if leb (gen_of obj) gen then moving else some (next_round c)

    -- the body of the loop, after the pop; `none` means that the fuel ran out
    pub test_pointer : (ptr : ℕ) → Collecting → Option Round
    test_pointer ptr c =
        let tested =
          bind (follow_forwarded hops c.memory (c.memory ptr))
            (λ obj. maybe_move ptr obj (redirect_pointer ptr obj c)) in
        if c.memory ptr == null then some (next_round c) else tested
