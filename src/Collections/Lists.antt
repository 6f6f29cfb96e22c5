-- ===== src/Collections/Lists.antt =====
-- The functions of collections/list.c, each write to memory in the order of the source. A length
-- counts nodes in memory, so adding to one does not overflow.
pub mod Content
pub mod Single
pub mod Joined
pub mod Both
pub mod Inserted
pub mod EmptySource
mod Tests
use ggggc.Base.{ℕ, zero, suc, ◌+◌, ◌-◌, ◌^◌, Bool, List, [], ◌∷◌, ◌==◌, if◌then◌else◌}
use ggggc.Collections.Store.{
  null, Node, ListObject, Store, Run, ok, fault, Cmd, pure, ◌>>=◌, ◌>>◌, new_node, node_at, list_at,
  set_next, set_el, set_length, set_head, set_tail,
}

abbrev pub is_null : ℕ → Bool
is_null p = p == null

-- GGC_ListPush
pub push : (fresh : ℕ) → (list value : ℕ) → Cmd (Unit {0})
push fresh list value = do
  node ← new_node fresh
  set_el node value
  l ← list_at list
  if is_null l.tail then set_head list node else set_next l.tail node
  set_tail list node
  l ← list_at list
  set_length list (l.length + 1)

-- the branch of GGC_ListPushList and GGC_ListUnshiftList for an empty target
pub graft : (to from : ℕ) → Cmd (Unit {0})
graft to from = do
  f ← list_at from
  if is_null f.head then pure tt else do
    set_length to f.length
    set_head to f.head
    set_tail to f.tail
    set_length from 0
    set_head from null
    set_tail from null

-- the end of both functions: the lengths, and the old list emptied
pub empty_into : (to from tolen fromlen : ℕ) → Cmd (Unit {0})
empty_into to from tolen fromlen = do
  set_length to (tolen + fromlen)
  set_length from 0
  set_head from null
  set_tail from null

-- GGC_ListPushList
pub push_list : (to from : ℕ) → Cmd (Unit {0})
unfolding graft empty_into
push_list to from = do
  t ← list_at to
  if is_null t.head then graft to from else do
    f ← list_at from
    set_next t.tail f.head
    f' ← list_at from
    set_tail to f'.tail
    empty_into to from t.length f.length

-- GGC_ListUnshift
pub unshift : (fresh : ℕ) → (list value : ℕ) → Cmd (Unit {0})
unshift fresh list value = do
  l ← list_at list
  node ← new_node fresh
  set_next node l.head
  set_el node value
  set_head list node
  if is_null l.head then set_tail list node else pure tt
  l' ← list_at list
  set_length list (l'.length + 1)

-- GGC_ListUnshiftList
pub unshift_list : (to from : ℕ) → Cmd (Unit {0})
unfolding graft empty_into
unshift_list to from = do
  t ← list_at to
  if is_null t.head then graft to from else do
    f ← list_at from
    set_next f.tail t.head
    f' ← list_at from
    set_head to f'.head
    empty_into to from t.length f.length

-- `length - 1` on a 64-bit word
abbrev pub less_one : ℕ → ℕ
less_one n = if n == 0 then 2 ^ 64 - 1 else n - 1

-- GGC_ListShift: the node taken off the front, or NULL
pub shift : (list : ℕ) → Cmd ℕ
shift list = do
  l ← list_at list
  if is_null l.head then pure null else do
    n ← node_at l.head
    set_head list n.next
    if is_null n.next then set_tail list n.next else pure tt
    l' ← list_at list
    set_length list (less_one l'.length)
    pure l.head

-- GGC_ListInsertAfter
pub insert_after : (fresh : ℕ) → (list after value : ℕ) → Cmd (Unit {0})
insert_after fresh list after value = do
  node ← new_node fresh
  set_el node value
  a ← node_at after
  set_next node a.next
  set_next after node
  l ← list_at list
  set_length list (l.length + 1)

-- GGC_ListInsertAfterList
pub insert_after_list : (to after from : ℕ) → Cmd (Unit {0})
insert_after_list to after from = do
  f ← list_at from
  set_length from 0
  set_head from null
  set_tail from null
  a ← node_at after
  set_next after f.head
  set_next f.tail a.next
  t ← list_at to
  set_length to (t.length + f.length)

-- the slots that GGC_NEW_PA zeroed and the loop did not reach
abbrev pub zeroed : ℕ → List ℕ
zeroed zero = []
zeroed (suc n) = null ∷ zeroed n

-- The loop of GGC_ListToArray with `rounds` slots left: the content of those slots at its end.
pub to_array_loop : (rounds curn : ℕ) → Cmd (List ℕ)
to_array_loop zero curn = pure []
to_array_loop (suc rounds) curn =
    let rest = do n ← node_at curn; els ← to_array_loop rounds n.next; pure (n.el ∷ els)
    in if is_null curn then pure (zeroed (suc rounds)) else rest

-- GGC_ListToArray: the array, which has the list's length
pub to_array : (list : ℕ) → Cmd (List ℕ)
unfolding to_array_loop
to_array list = do l ← list_at list; to_array_loop l.length l.head
