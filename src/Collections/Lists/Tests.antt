-- ===== src/Collections/Lists/Tests.antt =====
-- The theorems at two lists, 100 with the nodes 8 and 16 and 104 with the node 24, and the empty 108.
use ggggc.Base.{ℕ, ◌≡◌, refl, inr, none, some, [], ◌∷◌, ◌++◌, arith, ◌==◌, if◌then◌else◌}
use ggggc.Collections.Store.{null, Store, ok, fault, fetch, update, Ends, ◌>>◌}
use ggggc.Collections.Lists.{push, push_list, unshift, unshift_list, shift, insert_after, to_array}
use ggggc.Collections.Lists.Content.{Cells, node, list_object, EndsWith, IsList, ends}
use ggggc.Collections.Lists.Both.{push-unshift-IsList, push_list-unshift_list-Joined}
use ggggc.Collections.Lists.Single.{Spares, Shifted, shift-Shifted}
use ggggc.Collections.Lists.Joined.{Joined}
use ggggc.Collections.Lists.EmptySource.{push_list-loses, unshift_list-faults}
use ggggc.Collections.Lists.Inserted.{
  insert_after-Ends, insert_after-loses, elements, to_array-elements,
}

abbrev store : Store
store = record {
  nodes = λ a.
      if a == 8
      then some (node 16 1)
      else if a == 16
      then some (node null 2)
      else if a == 24
      then some (node null 3)
      else none;
  lists = λ a.
      if a == 100
      then some (list_object 2 8 16)
      else if a == 104
      then some (list_object 1 24 24)
      else if a == 108
      then some (list_object 0 null null)
      else none;
}

two : EndsWith store 100 ((8, 1) ∷ []) 16 2
two = record {
  head = 8;
  object = refl;
  front = (refl, omega arith, (16, refl, refl));
  not_null = omega arith;
  last = refl;
  distinct = (refl, tt);
  apart = refl;
}

one : EndsWith store 104 [] 24 3
one = record {
  head = 24;
  object = refl;
  front = refl;
  not_null = omega arith;
  last = refl;
  distinct = tt;
  apart = refl;
}

abbrev cells : Cells
cells = (8, 1) ∷ (16, 2) ∷ []

abbrev more : Cells
more = (24, 3) ∷ []

cells-IsList : IsList store 100 cells
cells-IsList = ends ((8, 1) ∷ []) 16 2 refl two

more-IsList : IsList store 104 more
more-IsList = ends [] 24 3 refl one

push-unshift_example :
    Ends
      (λ _ s'. IsList s' 100 (cells ++ (32, 9) ∷ []) × Spares 100 (cells ++ (32, 9) ∷ []) store s')
      (push 32 100 9 store)
    × Ends
        (λ _ s'. IsList s' 100 ((32, 9) ∷ cells) × Spares 100 ((32, 9) ∷ []) store s')
        (unshift 32 100 9 store)
push-unshift_example = push-unshift-IsList 32 100 9 store cells (omega arith) refl cells-IsList

shift_example : Ends (Shifted 100 store cells) (shift 100 store)
shift_example = shift-Shifted 100 store cells cells-IsList

push_list-unshift_list_example :
    Ends (Joined 100 104 store (λ e. omega arith) (cells ++ more) cells) (push_list 100 104 store)
    × Ends
        (Joined 100 104 store (λ e. omega arith) (more ++ cells) more)
        (unshift_list 100 104 store)
push_list-unshift_list_example =
    push_list-unshift_list-Joined 100 104 store cells more (λ e. omega arith) (λ a h. ground arith)
      cells-IsList more-IsList (inr (λ e. cc e))

push_list-loses_example :
    Ends
      (λ _ s'. (s'.lists 100 ≡ some (list_object 3 32 32)) × (s'.nodes 32 ≡ some (node null 9)))
      ((push_list 100 108 >> push 32 100 9) store)
push_list-loses_example =
    push_list-loses 100 108 store (λ e. omega arith) ((8, 1) ∷ []) 16 2 two refl 32 9 (omega arith)

unshift_list-faults_example : unshift_list 100 108 store ≡ fault
unshift_list-faults_example =
    unshift_list-faults 100 108 store (λ e. omega arith) ((8, 1) ∷ []) 16 2 two refl refl

insert_after-Ends_example :
    Ends
      (λ _ s'.
        EndsWith s' 100 ((8, 1) ∷ (32, 9) ∷ []) 16 2 × Spares 100 ((8, 1) ∷ (32, 9) ∷ []) store s')
      (insert_after 32 100 8 9 store)
insert_after-Ends_example = insert_after-Ends 32 100 9 store (omega arith) refl [] [] 8 1 16 2 two

insert_after-loses_example :
    Ends
      (λ _ s'.
        (s'.nodes 16 ≡ some (node 40 2))
        × (s'.nodes 40 ≡ some (node null 7))
        × ((h : ℕ) × (s'.lists 100 ≡ some (list_object 4 h 40))))
      ((insert_after 32 100 16 9 >> push 40 100 7) store)
insert_after-loses_example =
    insert_after-loses 32 100 9 store (omega arith) refl ((8, 1) ∷ []) 16 2 40 7 two (omega arith)
      refl

to_array_example : to_array 100 store ≡ ok (elements cells) store
to_array_example = to_array-elements store 100 cells cells-IsList

shifted_node :
    Ends (λ r s'. (r ≡ 8) × (s'.lists 100 ≡ some (list_object 1 16 16))) (shift 100 store)
unfolding shift fetch update
shifted_node = (refl, refl)
