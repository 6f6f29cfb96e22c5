-- ===== src/MarkSweep/Mark/Children.antt =====
-- What one object adds to the list of pointers to search.
use ggggc.Base.{
  ℕ, zero, suc, ◌+◌, ◌-◌, ◌%◌, ◌≤◌, ◌<◌, ◌≡◌, refl, ◌⊎◌, inl, inr, Bool, Option, none, some, List,
  ◌∷◌, arith, ◌==◌, if◌then◌else◌, Bool-cases, length,
}
use ggggc.Heap.{Memory, word_at, size_of, pointers_of}
use ggggc.Heap.Walk.{over_words, pointer_walk, pointer_walk-over_words, visit_pointer, is_pointer}
use ggggc.WorkList.{WorkList}
use ggggc.MarkSweep.Mark.{wants_search, add_child}
use ggggc.MarkSweep.Mark.Graph.{In, kid}

abbrev push_kid : Option ℕ → List ℕ → List ℕ
push_kid none l = l
push_kid (some p) l = p ∷ l

-- the children among `n` words from `i` on, pushed in order
unfoldable pub push_kids : Bool → Memory → (d obj : ℕ) → (n i : ℕ) → List ℕ → List ℕ
push_kids tagging m d obj zero i l = l
push_kids tagging m d obj (suc n) i l =
    push_kids tagging m d obj n (i + 1) (push_kid (kid tagging m d obj i) l)

module _ (tagging : Bool) (d obj : ℕ) where
  pub length-push_kids :
      (m : Memory) (n i : ℕ) (l : List ℕ) → length (push_kids tagging m d obj n i l) ≤ n + length l
  unfolding push_kids
  length-push_kids m zero i l = omega arith
  length-push_kids m (suc n) i l =
      ground (arith, length-push_kids m n (i + 1) (push_kid (kid tagging m d obj i) l))

  pub push_kids_congr :
      (m m' : Memory) (n i : ℕ) (l : List ℕ)
      → ((j : ℕ) → i ≤ j → j < i + n → kid tagging m d obj j ≡ kid tagging m' d obj j)
      → push_kids tagging m d obj n i l ≡ push_kids tagging m' d obj n i l
  unfolding push_kids
  push_kids_congr m m' zero i l same = refl
  push_kids_congr m m' (suc n) i l same =
      rw (same i (omega arith) (omega arith))
        (push_kids_congr m m' n (i + 1) _ (λ j lo hi. same j (omega arith) (omega arith)))

  pub In-push_kids :
      (m : Memory) (b n i : ℕ) (l : List ℕ)
      → In b (push_kids tagging m d obj n i l)
      → In b l ⊎ ((j : ℕ) × (i ≤ j) × (j < i + n) × (kid tagging m d obj j ≡ some b))
  unfolding push_kids
  In-push_kids m b zero i l h = inl h
  In-push_kids m b (suc n) i l h = go (kid tagging m d obj i) refl (In-push_kids m b n (i + 1) _ h)
    where
      go :
          (k : Option ℕ)
          → kid tagging m d obj i ≡ k
          → In b (push_kid k l)
            ⊎ ((j : ℕ) × (i + 1 ≤ j) × (j < i + 1 + n) × (kid tagging m d obj j ≡ some b))
          → In b l ⊎ ((j : ℕ) × (i ≤ j) × (j < i + suc n) × (kid tagging m d obj j ≡ some b))
      go k e (inr (j, lo, hi, is)) = inr (j, omega arith, omega arith, is)
      go none e (inl old) = inl old
      go (some p) e (inl (inl new)) = inr (i, omega arith, omega arith, cc)
      go (some p) e (inl (inr old)) = inl old

  pub push_kids-old :
      (m : Memory) (b n i : ℕ) (l : List ℕ) → In b l → In b (push_kids tagging m d obj n i l)
  unfolding push_kids
  push_kids-old m b zero i l h = h
  push_kids-old m b (suc n) i l h = push_kids-old m b n (i + 1) _ (go (kid tagging m d obj i))
    where
      go : (k : Option ℕ) → In b (push_kid k l)
      go none = h
      go (some p) = inr h

  pub push_kids-new :
      (m : Memory) (b n i : ℕ) (l : List ℕ) (j : ℕ)
      → i ≤ j
      → j < i + n
      → kid tagging m d obj j ≡ some b
      → In b (push_kids tagging m d obj n i l)
  unfolding push_kids
  push_kids-new m b zero i l j lo hi is = absurd (omega arith)
  push_kids-new m b (suc n) i l j lo hi is = elim (Bool-cases (i == j)) [
    | inl here ↦
        let e : i ≡ j = ground arith in push_kids-old m b n (i + 1) _ (rw (e, is) (inl refl))
    | inr later ↦ push_kids-new m b n (i + 1) _ j (ground arith) (omega arith) is
  ]

module _ (wl : WorkList) (tagging : Bool) (m : Memory) (d obj : ℕ) where
  visit-push :
      (i : ℕ) (s : wl.State)
      → wl.IsValid s
      → wl.IsValid (visit_pointer m d (add_child wl tagging m obj) i s)
        × (wl.contents (visit_pointer m d (add_child wl tagging m obj) i s)
            ≡ push_kid (kid tagging m d obj i) (wl.contents s))
  visit-push i s v = elim (Bool-cases (is_pointer m d i)) [
    | inr plain ↦ rw plain (v, refl)
    | inl pointer ↦ rw pointer (elim (Bool-cases (wants_search tagging (m (word_at obj i)))) [
      | inr skip ↦ rw skip (v, refl)
      | inl take ↦ rw take (wl.add_law (m (word_at obj i)) s v)
    ])
  ]

  range-push :
      (n i : ℕ) (s : wl.State)
      → wl.IsValid s
      → wl.IsValid (over_words n i (visit_pointer m d (add_child wl tagging m obj)) s)
        × (wl.contents (over_words n i (visit_pointer m d (add_child wl tagging m obj)) s)
            ≡ push_kids tagging m d obj n i (wl.contents s))
  unfolding over_words push_kids
  range-push zero i s v = (v, refl)
  range-push (suc n) i s v = let (v', e) = visit-push i s v in rw (← e) (range-push n (i + 1) _ v')

  pub walk-push :
      (s : wl.State)
      → wl.IsValid s
      → wl.IsValid (pointer_walk m d (add_child wl tagging m obj) s)
        × (wl.contents (pointer_walk m d (add_child wl tagging m obj) s) ≡ (
            if pointers_of m d 0 % 2 == 1
            then push_kids tagging m d obj (size_of m d - 1) 1 (wl.contents s)
            else wl.contents s))
  walk-push s v =
      rw (pointer_walk-over_words m d (add_child wl tagging m obj) s)
        (elim (Bool-cases (pointers_of m d 0 % 2 == 1)) [
          | inl some_pointers ↦ rw some_pointers (range-push (size_of m d - 1) 1 s v)
          | inr no_pointers ↦ rw no_pointers (v, refl)
        ])
