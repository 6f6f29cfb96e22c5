-- ===== src/Collections/Lists/EmptySource.antt =====
-- The functions that move nodes, at a source without nodes.
use ggggc.Base.{ℕ, suc, ◌≡◌, refl, sym, ap, ◌≢◌, none, some, arith, length}
use ggggc.Collections.Store.{
  null, Node, Store, fault, fetch-some, fetch-none, update_self, update_ne, Ends, ◌>>◌,
}
use ggggc.Collections.Lists.{push, push_list, unshift_list, insert_after_list}
use ggggc.Collections.Lists.Content.{Cells, node, list_object, IsEmpty, EndsWith}
use ggggc.Collections.Lists.Single.{NullTest, head_not_null}

module _ (to from : ℕ) (s : Store) (other : to ≢ from) (xs : Cells) (t w : ℕ)
    (is : EndsWith s to xs t w) (js : IsEmpty s from) where
  head_real : NullTest is.head
  head_real = ground (arith, head_not_null s.nodes is.head t xs is.front is.not_null)

  -- GGC_ListPushList of an empty list onto a list with nodes sets the target's tail to NULL, so that
  -- a GGC_ListPush after it makes the new node head and tail at once: the nodes that the list had
  -- are lost, while its length still counts them.
  pub push_list-loses :
      (fresh v : ℕ)
      → fresh ≢ null
      → Ends
          (λ _ s'.
            (s'.lists to ≡ some (list_object (suc (suc (length xs))) fresh fresh))
            × (s'.nodes fresh ≡ some (node null v)))
          ((push_list to from >> push fresh to v) s)
  unfolding push_list push
  push_list-loses fresh v real =
      simp
        (
          fetch-some,
          update_self,
          update_ne other,
          update_ne (λ (e : from ≡ to). other (sym e)),
          is.object,
          js,
          head_real,
          is.last,
        )
        (ap (λ n. some (list_object n fresh fresh)) (omega arith), refl)

  -- With no node at NULL, GGC_ListUnshiftList of an empty list onto a list with nodes writes through
  -- the NULL tail of the empty list.
  pub unshift_list-faults : s.nodes null ≡ none → unshift_list to from s ≡ fault
  unfolding unshift_list
  unshift_list-faults no_node = simp (fetch-some, fetch-none, is.object, js, head_real, no_node)

  -- So does GGC_ListInsertAfterList of an empty list behind any node, after cutting the list off there.
  pub insert_after_list-faults :
      (after : ℕ) (n : Node)
      → after ≢ null
      → s.nodes after ≡ some n
      → s.nodes null ≡ none
      → insert_after_list to after from s ≡ fault
  unfolding insert_after_list
  insert_after_list-faults after n real at no_node = simp (
    fetch-some,
    fetch-none,
    update_self,
    update_ne (λ (e : null ≡ after). real (sym e)),
    js,
    at,
    no_node,
  )
