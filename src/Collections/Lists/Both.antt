-- ===== src/Collections/Lists/Both.antt =====
-- The functions that add at either end, one node or a whole list.
use ggggc.Base.{ℕ, ◌≡◌, ◌≢◌, ◌⊎◌, true, false, none, [], ◌∷◌, ◌++◌}
use ggggc.Collections.Store.{null, Store, Ends}
use ggggc.Collections.Lists.{push, unshift, push_list, unshift_list}
use ggggc.Collections.Lists.Content.{Cells, has, IsList}
use ggggc.Collections.Lists.Single.{Spares, push-IsList, unshift-IsList}
use ggggc.Collections.Lists.Joined.{Joined, push_list-Joined, unshift_list-Joined}

-- For a new node and a list that is empty or not, GGC_ListPush puts the value behind the others and
-- GGC_ListUnshift in front of them; head, tail and length fit the new content, no other list changes and no node
-- outside the list, and GGC_ListUnshift changes no node but the new one.
pub push-unshift-IsList :
    (fresh l v : ℕ) (s : Store) (cells : Cells)
    → fresh ≢ null
    → s.nodes fresh ≡ none
    → IsList s l cells
    → Ends
        (λ _ s'. IsList s' l (cells ++ (fresh, v) ∷ []) × Spares l (cells ++ (fresh, v) ∷ []) s s')
        (push fresh l v s)
      × Ends
          (λ _ s'. IsList s' l ((fresh, v) ∷ cells) × Spares l ((fresh, v) ∷ []) s s')
          (unshift fresh l v s)
push-unshift-IsList fresh l v s cells real unused is =
    (push-IsList fresh l v s real unused cells is, unshift-IsList fresh l v s real unused cells is)

-- For two different lists with no node in common, where the source has a node or the target has none,
-- GGC_ListPushList leaves the target with its own nodes and then those of the source, and GGC_ListUnshiftList with
-- those of the source and then its own; the source is empty and both are well formed. No other list changes, and no node
-- outside the target for the one, outside the source for the other.
pub push_list-unshift_list-Joined :
    (to from : ℕ) (s : Store) (cells more : Cells) (other : to ≢ from)
    → ((a : ℕ) → has a cells ≡ true → has a more ≡ false)
    → IsList s to cells
    → IsList s from more
    → (cells ≡ []) ⊎ (more ≢ [])
    → Ends (Joined to from s other (cells ++ more) cells) (push_list to from s)
      × Ends (Joined to from s other (more ++ cells) more) (unshift_list to from s)
push_list-unshift_list-Joined to from s cells more other apart is js some_node = (
  push_list-Joined to from s other cells more apart is js some_node,
  unshift_list-Joined to from s other cells more apart is js some_node,
)
