-- ===== src/MarkSweep/Mark/Correct.antt =====
-- `mark` ends, and marks exactly what can be reached.
use ggggc.Base.{
  ℕ, zero, suc, ◌+◌, ◌≤◌, ◌<◌, ◌≡◌, refl, ap, ◌∙◌, ◌↔◌, ◌⊎◌, inl, inr, Bool, true, false, Option,
  some, List, [], ◌∷◌, arith, ◌==◌, if◌then◌else◌, Bool-cases, length,
}
use ggggc.Heap.{Memory, size_of}
use ggggc.WorkList.{WorkList}
use ggggc.MarkSweep.Mark.{mark_object, mark_loop, mark}
use ggggc.MarkSweep.Mark.Graph.{In, Edge, Reach, here, step, IsHeap, Marks}
use ggggc.MarkSweep.Mark.Step.{
  insert, pushed, Within, mark_object_lem, length-pushed, In-pushed, pushed-old, pushed-new,
}

-- the rounds that the unmarked objects can still cost
unfoldable pub work : Memory → (ℕ → Bool) → List ℕ → ℕ
work m marks [] = 0
work m marks (a ∷ objs) = (if marks a then 0 else size_of m (m a) + 2) + work m marks objs

work-insert-le :
    (m : Memory) (marks : ℕ → Bool) (a : ℕ) (objs : List ℕ)
    → work m (insert a marks) objs ≤ work m marks objs
unfolding work
work-insert-le m marks a [] = omega arith
work-insert-le m marks a (x ∷ objs) = ground (arith, work-insert-le m marks a objs)

work-insert :
    (m : Memory) (marks : ℕ → Bool) (a : ℕ) (objs : List ℕ)
    → In a objs
    → marks a ≡ false
    → work m (insert a marks) objs + size_of m (m a) + 2 ≤ work m marks objs
unfolding work
work-insert m marks a [] h new = absurd h
work-insert m marks a (x ∷ objs) (inl e) new = ground (arith, work-insert-le m marks a objs)
work-insert m marks a (x ∷ objs) (inr h) new = ground (arith, work-insert m marks a objs h)

-- Every reference of a marked object is marked.
abbrev pub Closed : Bool → Memory → (ℕ → Bool) → Type 0
Closed tagging m marks = (a b : ℕ) → marks a ≡ true → Edge tagging m a b → marks b ≡ true

module _ (tagging : Bool) (m₀ : Memory) (objs : List ℕ) (heap : IsHeap tagging m₀ objs)
    (marks₀ : ℕ → Bool) (root : ℕ) where
  record Inv (marks : ℕ → Bool) (l : List ℕ) : Type 0 where
    within : (a : ℕ) → marks a ≡ true → In a objs
    listed : (a : ℕ) → In a l → In a objs
    grown : (a : ℕ) → marks₀ a ≡ true → marks a ≡ true
    rooted : (marks root ≡ true) ⊎ In root l
    sound : (a : ℕ) → marks a ≡ true → (marks₀ a ≡ true) ⊎ Reach tagging m₀ root a
    queued : (a : ℕ) → In a l → Reach tagging m₀ root a
    closed : (a b : ℕ) → marks a ≡ true → Edge tagging m₀ a b → (marks b ≡ true) ⊎ In b l

  Inv-skip :
      (marks : ℕ → Bool) (a : ℕ) (l : List ℕ) → marks a ≡ true → Inv marks (a ∷ l) → Inv marks l
  Inv-skip marks a l old inv = record {
    within = inv.within;
    listed = λ b h. inv.listed b (inr h);
    grown = inv.grown;
    rooted = go root inv.rooted;
    sound = inv.sound;
    queued = λ b h. inv.queued b (inr h);
    closed = λ b c h e. go c (inv.closed b c h e);
  }
    where
      go : (b : ℕ) → (marks b ≡ true) ⊎ In b (a ∷ l) → (marks b ≡ true) ⊎ In b l
      go b (inl h) = inl h
      go b (inr (inl e)) = inl (rw e old)
      go b (inr (inr h)) = inr h

  Inv-visit :
      (marks : ℕ → Bool) (a : ℕ) (l : List ℕ)
      → Inv marks (a ∷ l)
      → Inv (insert a marks) (pushed tagging m₀ a l)
  Inv-visit marks a l inv = record {
    within = λ b h. at b h (inv.within b) (λ e. rw e (inv.listed a (inl refl)));
    listed = λ b h. listed' b (In-pushed tagging m₀ a l b h);
    grown = λ b h. old b (inv.grown b h);
    rooted = go root inv.rooted;
    sound = λ b h. at b h (inv.sound b) (λ e. inr (rw e (inv.queued a (inl refl))));
    queued = λ b h. queued' b (In-pushed tagging m₀ a l b h);
    closed = λ b c h e.
        at b h (λ old_mark. go c (inv.closed b c old_mark e))
          (λ same. inr (pushed-new tagging m₀ a l c (rw same at e)));
  }
    where
      old : (b : ℕ) → marks b ≡ true → insert a marks b ≡ true
      old b h = ground arith

      at : {P : Type 0} → (b : ℕ) → insert a marks b ≡ true → (marks b ≡ true → P) → (b ≡ a → P) → P
      at b h f g = elim (Bool-cases (b == a)) [
        | inl same ↦ g (ground arith)
        | inr other ↦ f (rw other at h)
      ]

      go :
          (b : ℕ)
          → (marks b ≡ true) ⊎ In b (a ∷ l)
          → (insert a marks b ≡ true) ⊎ In b (pushed tagging m₀ a l)
      go b (inl h) = inl (old b h)
      go b (inr (inl e)) = inl (ground arith)
      go b (inr (inr h)) = inr (pushed-old tagging m₀ a l b h)

      listed' : (b : ℕ) → In b l ⊎ Edge tagging m₀ a b → In b objs
      listed' b (inl h) = inv.listed b (inr h)
      listed' b (inr e) = heap.closed a b (inv.listed a (inl refl)) e

      queued' : (b : ℕ) → In b l ⊎ Edge tagging m₀ a b → Reach tagging m₀ root b
      queued' b (inl h) = inv.queued b (inr h)
      queued' b (inr e) = step (inv.queued a (inl refl)) e

  module _ (wl : WorkList) where
    record Ends (fuel : ℕ) (m : Memory) (s : wl.State) : Type 0 where
      marks : ℕ → Bool
      memory : Memory
      stack : wl.State
      runs : mark_loop wl tagging fuel m s ≡ some (memory, stack)
      is : Marks m₀ marks memory
      inv : Inv marks []

    loop_step :
        (fuel : ℕ) (m : Memory) (s : wl.State) (marks : ℕ → Bool) (a : ℕ) (l : List ℕ)
        → wl.IsValid s
        → wl.contents s ≡ a ∷ l
        → mark_loop wl tagging (suc fuel) m s
          ≡ mark_loop wl tagging fuel
              (mark_object wl tagging a m (wl.pop s).1).0
              (mark_object wl tagging a m (wl.pop s).1).1
    unfolding mark_loop
    loop_step fuel m s marks a l v c =
        let (top, v', c') = wl.pop_law a l s v c in
        elim (Bool-cases (wl.used s == 0)) [
          | inl empty ↦ let gone : wl.contents s ≡ [] = (wl.used_law s v).0 (ground arith) in cc
          | inr more ↦ rw (more, top) refl
        ]

    mark_loop-Ends :
        (fuel : ℕ) (m : Memory) (s : wl.State) (marks : ℕ → Bool) (l : List ℕ)
        → Marks m₀ marks m
        → wl.IsValid s
        → wl.contents s ≡ l
        → Inv marks l
        → length l + work m₀ marks objs < fuel
        → Ends fuel m s
    mark_loop-Ends zero m s marks l is v c inv enough = absurd (omega arith)
    mark_loop-Ends (suc fuel) m s marks [] is v c inv enough = record {
      marks = marks;
      memory = m;
      stack = s;
      runs =
          let none_left : (wl.used s == 0) ≡ true = ground (arith, (wl.used_law s v).1 c) in
          unfold mark_loop in rw none_left refl;
      is = is;
      inv = inv;
    }
    mark_loop-Ends (suc fuel) m s marks (a ∷ l) is v c inv enough =
        let (top, v', c') = wl.pop_law a l s v c in
        let mem = inv.listed a (inl refl) in
        let round =
          mark_object_lem tagging m₀ objs heap a mem wl marks m (wl.pop s).1 inv.within is v' in
        elim (Bool-cases (marks a)) [
          | inl old ↦
              let rest =
                mark_loop-Ends fuel m (wl.pop s).1 marks l is v' c' (Inv-skip marks a l old inv)
                  (omega arith) in
              record {
                marks = rest.marks;
                memory = rest.memory;
                stack = rest.stack;
                runs = loop_step fuel m s marks a l v c ∙ rw (round.0 old) rest.runs;
                is = rest.is;
                inv = rest.inv;
              }
          | inr new ↦
              let (is', v'', c'') = round.1 new in
              let rest =
                mark_loop-Ends fuel (mark_object wl tagging a m (wl.pop s).1).0
                  (mark_object wl tagging a m (wl.pop s).1).1 (insert a marks)
                  (pushed tagging m₀ a l) is' v'' (c'' ∙ ap (pushed tagging m₀ a) c')
                  (Inv-visit marks a l inv)
                  (omega
                    (arith, work-insert m₀ marks a objs mem new, length-pushed tagging m₀ a l)) in
              record {
                marks = rest.marks;
                memory = rest.memory;
                stack = rest.stack;
                runs = loop_step fuel m s marks a l v c ∙ rest.runs;
                is = rest.is;
                inv = rest.inv;
              }
        ]

-- A run of `mark` that ended, with the set of objects marked afterwards.
pub record Marked (wl : WorkList) (tagging : Bool) (m₀ : Memory) (marks₀ : ℕ → Bool) (root : ℕ)
    (run : Option (Memory × wl.State)) : Type 0 where
  pub marks : ℕ → Bool
  pub memory : Memory
  pub stack : wl.State
  pub returns : run ≡ some (memory, stack)
  pub is : Marks m₀ marks memory
  pub exactly : (a : ℕ) → (marks a ≡ true) ↔ ((marks₀ a ≡ true) ⊎ Reach tagging m₀ root a)
  pub closed : Closed tagging m₀ marks

-- Take a well-formed heap in which some objects are marked, and with each of them what it refers to.
-- Given a round for each object and each of its words, `mark` at an object returns; the objects
-- marked afterwards are those marked before and those that can be reached from the object through
-- descriptors and pointer words; all other words of memory are unchanged, and again each marked
-- object refers to marked objects only.
pub mark_correct :
    (wl : WorkList) (tagging : Bool) (m₀ : Memory) (objs : List ℕ) (heap : IsHeap tagging m₀ objs)
    (marks₀ : ℕ → Bool) (root : ℕ) (m : Memory) (s : wl.State) (fuel : ℕ)
    → Marks m₀ marks₀ m
    → Within objs marks₀
    → Closed tagging m₀ marks₀
    → In root objs
    → work m₀ marks₀ objs + 1 < fuel
    → Marked wl tagging m₀ marks₀ root (mark wl tagging fuel root m s)
unfolding mark
mark_correct wl tagging m₀ objs heap marks₀ root m s fuel is within closed mem enough =
    let (v, c) = wl.init_law s in
    let (v', c') = wl.add_law root (wl.init s) v in
    let inv : Inv tagging m₀ objs heap marks₀ root marks₀ (root ∷ []) = record {
      within = within;
      listed = λ a h. listed a h;
      grown = λ a h. h;
      rooted = inr (inl refl);
      sound = λ a h. inl h;
      queued = λ a h. queued a h;
      closed = λ a b h e. inl (closed a b h e);
    } in
    let end =
      mark_loop-Ends tagging m₀ objs heap marks₀ root wl fuel m (wl.add root (wl.init s)) marks₀
        (root ∷ []) is v' (c' ∙ ap (λ l. root ∷ l) c) inv (omega arith) in
    record {
      marks = end.marks;
      memory = end.memory;
      stack = end.stack;
      returns = end.runs;
      is = end.is;
      exactly = λ a. (end.inv.sound a, full end.marks end.inv a);
      closed = λ a b h e. left (end.inv.closed a b h e);
    }
  where
    left : {P : Type 0} → P ⊎ ⊥ → P
    left (inl p) = p
    left (inr h) = absurd h

    listed : (a : ℕ) → In a (root ∷ []) → In a objs
    listed a (inl e) = rw e mem
    listed a (inr h) = absurd h

    queued : (a : ℕ) → In a (root ∷ []) → Reach tagging m₀ root a
    queued a (inl e) = rw e here
    queued a (inr h) = absurd h

    reached :
        (marks : ℕ → Bool)
        → Inv tagging m₀ objs heap marks₀ root marks []
        → {a : ℕ} → Reach tagging m₀ root a
        → marks a ≡ true
    reached marks inv here = left inv.rooted
    reached marks inv (step {a} {b} p e) = left (inv.closed a b (reached marks inv p) e)

    full :
        (marks : ℕ → Bool)
        → Inv tagging m₀ objs heap marks₀ root marks []
        → (a : ℕ) → (marks₀ a ≡ true) ⊎ Reach tagging m₀ root a
        → marks a ≡ true
    full marks inv a (inl h) = inv.grown a h
    full marks inv a (inr p) = reached marks inv p
