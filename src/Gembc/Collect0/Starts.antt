-- ===== src/Gembc/Collect0/Starts.antt =====
-- Where a copying collection starts: the loops of ggggc_collect0 that put the remembered cards' objects on the list to
-- search.
use ggggc.Base.{
  ℕ, zero, suc, ◌+◌, ◌-◌, ◌*◌, ◌%◌, ◌<◌, ◌≡◌, refl, sym, ap, ◌∙◌, ◌≢◌, ◌⊎◌, inl, inr, Bool, true,
  false, ◌&&◌, Option, none, some, List, [], ◌∷◌, arith, ◌==◌, if◌then◌else◌, Bool-cases, length,
  Gives,
}
use ggggc.Base.{bind, Gives-bind}
use mathlib.Core.Path.{subst}
use ggggc.Heap.{Memory, null, word_at, size_of, pointers_of}
use ggggc.Heap.Walk.{over_words, is_pointer, pointer_walk, visit_pointer, pointer_walk-over_words}
use ggggc.WorkList.{WorkList}
use ggggc.MarkSweep.Mark.{wants_search}
use ggggc.Gembc.Allocate.{GenPool, card_bytes, card_of}
use ggggc.Gembc.Collect0.{add_object_pointers}

-- the words of the object at `obj` that are to be searched, in front of `l`
unfoldable pub push_words : (tagging : Bool) → Memory → (obj d n i : ℕ) → List ℕ → List ℕ
push_words tagging m obj d zero i l = l
push_words tagging m obj d (suc n) i l =
    push_words tagging m obj d n (i + 1) (
      if is_pointer m d i && wants_search tagging (m (word_at obj i)) then word_at obj i ∷ l else l)

-- the object's header, and its pointers that are neither NULL nor tagged
abbrev pub object_words : (tagging : Bool) → Memory → (obj : ℕ) → List ℕ → List ℕ
object_words tagging m obj l =
    obj
    ∷ (if pointers_of m (m obj) 0 % 2 == 1
        then push_words tagging m obj (m obj) (size_of m (m obj) - 1) 1 l
        else l)

module _ (wl : WorkList) (tagging : Bool) (m : Memory) where
  -- `while (GGGGC_CARD_OF(obj) == i)`; `none` means that the fuel ran out.
  unfoldable pub search_objects : (fuel card obj : ℕ) → wl.State → Option wl.State
  search_objects zero card obj s = none
  search_objects (suc fuel) card obj s =
      let s' = add_object_pointers wl tagging m obj (m obj) s in
      let next = word_at obj (size_of m (m obj)) in
      let rest = search_objects fuel card next s' in
      if card_of obj == card then (if m next == null then some s' else rest) else some s

  -- `if (poolCur->remember[i])`, where `base` is the pool's address
  abbrev pub search_card : (fuel base : ℕ) → GenPool → (i : ℕ) → wl.State → Option wl.State
  search_card fuel base pool i s =
      let objects = search_objects fuel i (base + i * card_bytes + pool.first_object i * 8) s in
      if pool.remember i == 0 then some s else objects

  -- the cards `i`, `i + 1`, … of a pool, `n` of them
  unfoldable pub search_cards : (fuel base : ℕ) → GenPool → (n i : ℕ) → wl.State → Option wl.State
  search_cards fuel base pool zero i s = some s
  search_cards fuel base pool (suc n) i s =
      bind (search_card fuel base pool i s) (search_cards fuel base pool n (i + 1))

  -- The list to search holds `l`.
  abbrev pub Holds : List ℕ → wl.State → Type 0
  Holds l s = wl.IsValid s × (wl.contents s ≡ l)

  over_words-push_words :
      (obj d n i : ℕ) (s : wl.State) (l : List ℕ)
      → Holds l s
      → Holds (push_words tagging m obj d n i l) (
          over_words n i
            (visit_pointer m d (λ i t.
              if wants_search tagging (m (word_at obj i)) then wl.add (word_at obj i) t else t))
            s)
  unfolding over_words push_words
  over_words-push_words obj d zero i s l h = h
  over_words-push_words obj d (suc n) i s l h =
      over_words-push_words obj d n (i + 1) _ _
        (pushed (is_pointer m d i) (wants_search tagging (m (word_at obj i))))
    where
      pushed :
          (b c : Bool)
          → Holds
              (if b && c then word_at obj i ∷ l else l)
              (if b then (if c then wl.add (word_at obj i) s else s) else s)
      pushed false c = h
      pushed true false = h
      pushed true true =
          let law = wl.add_law (word_at obj i) s h.0 in
          (law.0, law.1 ∙ ap (λ t. word_at obj i ∷ t) h.1)

  add_object_pointers-Holds :
      (obj : ℕ) (s : wl.State) (l : List ℕ)
      → Holds l s
      → Holds (object_words tagging m obj l) (add_object_pointers wl tagging m obj (m obj) s)
  add_object_pointers-Holds obj s l h =
      let law = wl.add_law obj _ walked.0 in (law.0, law.1 ∙ ap (λ t. obj ∷ t) walked.1)
    where
      walked :
          Holds
            (if pointers_of m (m obj) 0 % 2 == 1
              then push_words tagging m obj (m obj) (size_of m (m obj) - 1) 1 l
              else l)
            (pointer_walk m
              (m obj)
              (λ i t.
                if wants_search tagging (m (word_at obj i)) then wl.add (word_at obj i) t else t)
              s)
      walked =
          subst (Holds _)
            (sym (
              pointer_walk-over_words m (m obj)
                (λ i t.
                  if wants_search tagging (m (word_at obj i)) then wl.add (word_at obj i) t else t)
                s))
            (elim (Bool-cases (pointers_of m (m obj) 0 % 2 == 1)) [
              | inl some_pointers ↦
                  rw some_pointers
                    (over_words-push_words obj (m obj) (size_of m (m obj) - 1) 1 s l h)
              | inr no_pointers ↦ rw no_pointers h
            ])

  -- From `obj` on the objects that start in the card are `os`, up to one that starts behind it or to the end of the
  -- objects, where a zero is.
  abbrev pub InCard : (card obj : ℕ) → List ℕ → Type 0
  InCard card obj [] = (card_of obj == card) ≡ false
  InCard card obj (o ∷ os) =
      (obj ≡ o)
      × ((card_of obj == card) ≡ true)
      × (((m (word_at obj (size_of m (m obj))) ≡ null) × (os ≡ []))
          ⊎ ((m (word_at obj (size_of m (m obj))) ≢ null)
              × InCard card (word_at obj (size_of m (m obj))) os))

  -- all their words, the last in front
  abbrev pub objects_words : List ℕ → List ℕ → List ℕ
  objects_words [] l = l
  objects_words (o ∷ os) l = objects_words os (object_words tagging m o l)

  search_objects-Holds :
      (fuel card obj : ℕ) (os : List ℕ) (s : wl.State) (l : List ℕ)
      → InCard card obj os
      → length os < fuel
      → Holds l s
      → Gives (Holds (objects_words os l)) (search_objects fuel card obj s)
  unfolding search_objects
  search_objects-Holds zero card obj os s l is enough h = absurd (omega (arith, enough))
  search_objects-Holds (suc fuel) card obj [] s l is enough h = rw is h
  search_objects-Holds (suc fuel) card obj (o ∷ os) s l (at, within, inl (last, none_more)) enough
        h =
      let test : (m (word_at obj (size_of m (m obj))) == null) ≡ true = rw last refl in
      rw (within, test, none_more, ← at) (add_object_pointers-Holds obj s l h)
  search_objects-Holds (suc fuel) card obj (o ∷ os) s l (at, within, inr (more, is)) enough h =
      let test : (m (word_at obj (size_of m (m obj))) == null) ≡ false = ground (arith, more) in
      rw (within, test, ← at)
        (search_objects-Holds fuel card (word_at obj (size_of m (m obj))) os _ _ is
          (omega (arith, enough)) (add_object_pointers-Holds obj s l h))

  -- the words of the remembered cards `i`, `i + 1`, …, where `objects` are those that start in each card
  abbrev pub cards_words : GenPool → (objects : ℕ → List ℕ) (n i : ℕ) → List ℕ → List ℕ
  cards_words pool objects zero i l = l
  cards_words pool objects (suc n) i l =
      cards_words pool objects n (i + 1)
        (if pool.remember i == 0 then l else objects_words (objects i) l)

  -- For a pool whose card table names, for each remembered card, the first of the objects that start in it, with fuel for
  -- the objects of each card, the loops over `n` cards end; the list to search then has, in front of what it had, the header and
  -- each pointer, neither NULL nor tagged, of every object that starts in a remembered one of them, and nothing else.
  pub search_cards-Holds :
      (fuel base : ℕ) (pool : GenPool) (objects : ℕ → List ℕ) (n i : ℕ) (s : wl.State) (l : List ℕ)
      → ((k : ℕ)
          → (pool.remember k == 0) ≡ false
          → InCard k (base + k * card_bytes + pool.first_object k * 8) (objects k))
      → ((k : ℕ) → length (objects k) < fuel)
      → Holds l s
      → Gives (Holds (cards_words pool objects n i l)) (search_cards fuel base pool n i s)
  unfolding search_cards
  search_cards-Holds fuel base pool objects zero i s l is enough h = h
  search_cards-Holds fuel base pool objects (suc n) i s l is enough h =
      elim (Bool-cases (pool.remember i == 0)) [
        | inl clean ↦ rw clean (search_cards-Holds fuel base pool objects n (i + 1) s l is enough h)
        | inr dirty ↦ rw dirty (
            Gives-bind (Holds (cards_words pool objects n (i + 1) (objects_words (objects i) l)))
              (search_objects fuel i (base + i * card_bytes + pool.first_object i * 8) s)
              (search_cards fuel base pool n (i + 1))
              (λ t k.
                search_cards-Holds fuel base pool objects n (i + 1) t (objects_words (objects i) l)
                  is enough k)
              (search_objects-Holds fuel i (base + i * card_bytes + pool.first_object i * 8)
                (objects i) s l (is i dirty) (enough i) h))
      ]
