-- ===== src/MarkSweep/Roots/Correct.antt =====
-- What a program can reach survives, and nothing else.
use ggggc.Base.{
  bind, bind_assoc, bind_congr, ℕ, ◌+◌, ◌≤◌, ◌<◌, ◌≡◌, refl, sym, ap, ◌∙◌, ◌≢◌, ◌↔◌, ◌⊎◌, inl, inr,
  Bool, true, false, not, ◌&&◌, Option, some, List, [], ◌∷◌, ◌++◌, arith, ◌==◌, Bool-cases,
}
use mathlib.Core.List.{append_assoc}
use ggggc.Heap.{Memory, null}
use ggggc.MarkSweep.Mark.{wants_search}
use ggggc.MarkSweep.Mark.Graph.{In, Reach, IsHeap, Marks, here, step}
use ggggc.MarkSweep.Mark.Correct.{work, Closed, mark_correct}
use ggggc.MarkSweep.Mark.Step.{Within}
use ggggc.MarkSweep.Roots.{
  Frame, PointerStack, Marking, mark_root, mark_frame, mark_stack, mark_from_roots,
}
use ggggc.WorkList.{WorkList}

-- the addresses on all pointer stacks
abbrev pub flatten {ℓ} : {A : Type ℓ} → List (List A) → List A
flatten [] = []
flatten (xs ∷ xss) = xs ++ flatten xss

module _ (tagging : Bool) (m₀ : Memory) where
  -- The root at `h` refers to the object `r`.
  abbrev pub RefersTo : (h r : ℕ) → Type 0
  RefersTo h r = (h ≢ null) × (m₀ h ≡ r) × (wants_search tagging r ≡ true)

  -- `a` can be reached from one of the roots.
  abbrev pub Rooted : List ℕ → ℕ → Type 0
  Rooted [] a = ⊥
  Rooted (h ∷ hs) a = (RefersTo h (m₀ h) × Reach tagging m₀ (m₀ h) a) ⊎ Rooted hs a

flatten_append {ℓ} :
    {A : Type ℓ} (xs ys : List (List A)) → flatten (xs ++ ys) ≡ flatten xs ++ flatten ys
flatten_append [] ys = refl
flatten_append (x ∷ xs) ys =
    ap (λ l. x ++ l) (flatten_append xs ys) ∙ sym (append_assoc x (flatten xs) (flatten ys))

and_right : (a b : Bool) → (a && b) ≡ true → b ≡ true
and_right true b e = e
and_right false b e = cc e

no_root : (h : ℕ) (b : Bool) → h ≢ null → b ≡ true → (not (h == null) && b) ≢ false
no_root h b real e = ground (arith, e)

pub work_le :
    (m : Memory) (marks : ℕ → Bool) (objs : List ℕ) → work m marks objs ≤ work m (λ a. false) objs
unfolding work
work_le m marks [] = omega arith
work_le m marks (a ∷ objs) = ground (arith, work_le m marks objs)

module _ (wl : WorkList) (tagging : Bool) (fuel : ℕ) where
  frame_append :
      (xs ys : Frame) (r : Marking wl)
      → mark_frame wl tagging fuel (xs ++ ys) r
        ≡ bind (mark_frame wl tagging fuel xs r) (mark_frame wl tagging fuel ys)
  unfolding mark_frame
  frame_append [] ys r = refl
  frame_append (h ∷ xs) ys r =
      bind_congr (mark_root wl tagging fuel h r) _ _ (frame_append xs ys)
      ∙ sym (
          bind_assoc (mark_root wl tagging fuel h r) (mark_frame wl tagging fuel xs)
            (mark_frame wl tagging fuel ys))

  stack_flatten :
      (t : PointerStack) (r : Marking wl)
      → mark_stack wl tagging fuel t r ≡ mark_frame wl tagging fuel (flatten t) r
  unfolding mark_stack
  stack_flatten [] r = refl
  stack_flatten (f ∷ t) r =
      bind_congr (mark_frame wl tagging fuel f r) _ _ (stack_flatten t)
      ∙ sym (frame_append f (flatten t) r)

  all_flatten :
      (ts : List PointerStack) (r : Marking wl)
      → mark_from_roots wl tagging fuel ts r ≡ mark_frame wl tagging fuel (flatten (flatten ts)) r
  unfolding mark_from_roots
  all_flatten [] r = refl
  all_flatten (t ∷ ts) r = rw (flatten_append t (flatten ts)) (
      bind_congr (mark_stack wl tagging fuel t r) _ _ (all_flatten ts)
      ∙ ap (λ o. bind o (mark_frame wl tagging fuel (flatten (flatten ts)))) (stack_flatten t r)
      ∙ sym (frame_append (flatten t) (flatten (flatten ts)) r))

-- The objects marked after marking from the roots `hs`, and the memory, of a run that ended.
pub record RootsMarked (wl : WorkList) (tagging : Bool) (m₀ : Memory) (marks₀ : ℕ → Bool)
    (hs : List ℕ) (run : Option (Marking wl)) : Type 0 where
  pub marks : ℕ → Bool
  pub result : Marking wl
  pub returns : run ≡ some result
  pub is : Marks m₀ marks result.0
  pub exactly : (a : ℕ) → (marks a ≡ true) ↔ ((marks₀ a ≡ true) ⊎ Rooted tagging m₀ hs a)
  pub closed : Closed tagging m₀ marks

-- Each root is no object's header, and refers to an object if to anything.
abbrev pub RootsAt : Bool → Memory → List ℕ → List ℕ → Type 0
RootsAt tagging m₀ objs [] = Unit
RootsAt tagging m₀ objs (h ∷ hs) =
    ((a : ℕ) → In a objs → h ≢ a)
    × (RefersTo tagging m₀ h (m₀ h) → In (m₀ h) objs)
    × RootsAt tagging m₀ objs hs

module _ (wl : WorkList) (tagging : Bool) (m₀ : Memory) (objs : List ℕ)
    (heap : IsHeap tagging m₀ objs) (fuel : ℕ) (enough : work m₀ (λ a. false) objs + 1 < fuel) where
  Reach-In : {r a : ℕ} → In r objs → Reach tagging m₀ r a → In a objs
  Reach-In is_in here = is_in
  Reach-In is_in (step {a} {b} p e) = heap.closed a b (Reach-In is_in p) e

  Marks-root :
      (marks : ℕ → Bool) (m : Memory) (h : ℕ)
      → Marks m₀ marks m
      → Within objs marks
      → ((a : ℕ) → In a objs → h ≢ a)
      → m h ≡ m₀ h
  Marks-root marks m h is within out = elim (Bool-cases (marks h)) [
    | inl e ↦ absurd (out h (within h e) refl)
    | inr e ↦ is h ∙ rw e refl
  ]

  root_marked :
      (h : ℕ) (marks₀ : ℕ → Bool) (m : Memory) (s : wl.State)
      → Marks m₀ marks₀ m
      → Within objs marks₀
      → Closed tagging m₀ marks₀
      → ((a : ℕ) → In a objs → h ≢ a)
      → (RefersTo tagging m₀ h (m₀ h) → In (m₀ h) objs)
      → RootsMarked wl tagging m₀ marks₀ (h ∷ []) (mark_root wl tagging fuel h (m, s))
  unfolding mark_root
  root_marked h marks₀ m s is within closed out is_in =
      let same = Marks-root marks₀ m h is within out in
      let test = not (h == null) && wants_search tagging (m₀ h) in
      elim (Bool-cases test) [
        | inl e ↦
            let refers : RefersTo tagging m₀ h (m₀ h) = (
              ground (arith, e),
              refl,
              and_right (not (h == null)) (wants_search tagging (m₀ h)) e,
            ) in
            let r =
              mark_correct wl tagging m₀ objs heap marks₀ (m₀ h) m s fuel is within closed
                (is_in refers) (omega (arith, enough, work_le m₀ marks₀ objs)) in
            record {
              marks = r.marks;
              result = (r.memory, r.stack);
              returns = rw (same, e) r.returns;
              is = r.is;
              closed = r.closed;
              exactly = λ a. (
                (λ k. elim ((r.exactly a).0 k) [ inl o ↦ inl o | inr p ↦ inr (inl (refers, p)) ]),
                λ k. (r.exactly a).1 (elim k [
                  | inl o ↦ inl o
                  | inr x ↦ elim x [ inl p ↦ inr p.1 | inr y ↦ absurd y ]
                ]),
              );
            }
        | inr e ↦ record {
          marks = marks₀;
          result = (m, s);
          returns = rw (same, e) refl;
          is = is;
          closed = closed;
          exactly = λ a. (
            (λ k. inl k),
            λ k. elim k [
              | inl o ↦ o
              | inr x ↦ elim x [
                | inl p ↦ absurd (no_root h (wants_search tagging (m₀ h)) p.0.0 p.0.2 e)
                | inr y ↦ absurd y
              ]
            ],
          );
        }
      ]

  frame_marked :
      (hs : List ℕ) (marks₀ : ℕ → Bool) (m : Memory) (s : wl.State)
      → Marks m₀ marks₀ m
      → Within objs marks₀
      → Closed tagging m₀ marks₀
      → RootsAt tagging m₀ objs hs
      → RootsMarked wl tagging m₀ marks₀ hs (mark_frame wl tagging fuel hs (m, s))
  unfolding mark_frame
  frame_marked [] marks₀ m s is within closed at = record {
    marks = marks₀;
    result = (m, s);
    returns = refl;
    is = is;
    closed = closed;
    exactly = λ a. ((λ e. inl e), λ e. elim e [ inl k ↦ k | inr k ↦ absurd k ]);
  }
  frame_marked (h ∷ hs) marks₀ m s is within closed (out, is_in, at) =
      let one = root_marked h marks₀ m s is within closed out is_in in
      let rest =
        frame_marked hs one.marks one.result.0 one.result.1 one.is
          (λ a k. elim ((one.exactly a).0 k) [
            | inl o ↦ within a o
            | inr x ↦ elim x [ inl p ↦ Reach-In (is_in p.0) p.1 | inr y ↦ absurd y ]
          ])
          one.closed at in
      record {
        marks = rest.marks;
        result = rest.result;
        is = rest.is;
        closed = rest.closed;
        returns = ap (λ o. bind o (mark_frame wl tagging fuel hs)) one.returns ∙ rest.returns;
        exactly = λ a. (
          (λ k. elim ((rest.exactly a).0 k) [
            | inr r ↦ inr (inr r)
            | inl o ↦ elim ((one.exactly a).0 o) [
              | inl old ↦ inl old
              | inr x ↦ elim x [ inl p ↦ inr (inl p) | inr y ↦ absurd y ]
            ]
          ]),
          λ k. (rest.exactly a).1 (elim k [
            | inl old ↦ inl ((one.exactly a).1 (inl old))
            | inr x ↦ elim x [ inl p ↦ inl ((one.exactly a).1 (inr (inl p))) | inr r ↦ inr r ]
          ]),
        );
      }

-- Take a heap of unmarked objects and the pointer stacks of all threads, whose addresses are no headers and refer
-- to objects if to anything. Given for each `mark` a round for each object and each of its words,
-- marking from the roots returns; the objects marked are exactly those that can be reached from a
-- root, and no other word of memory changed.
pub mark_from_roots-RootsMarked :
    (wl : WorkList) (tagging : Bool) (m₀ : Memory) (objs : List ℕ) (heap : IsHeap tagging m₀ objs)
    (fuel : ℕ) (ts : List PointerStack) (s : wl.State)
    → work m₀ (λ a. false) objs + 1 < fuel
    → RootsAt tagging m₀ objs (flatten (flatten ts))
    → RootsMarked wl tagging m₀
        (λ a. false)
        (flatten (flatten ts))
        (mark_from_roots wl tagging fuel ts (m₀, s))
mark_from_roots-RootsMarked wl tagging m₀ objs heap fuel ts s enough at =
    rw (all_flatten wl tagging fuel ts (m₀, s)) (
      frame_marked wl tagging m₀ objs heap fuel enough (flatten (flatten ts)) (λ a. false) m₀ s
        (λ a. refl) (λ a e. absurd (cc e)) (λ a b e. absurd (cc e)) at)
