-- ===== src/MarkSweep/Mark/Step.antt =====
-- One round of the mark loop, in terms of the set of marked objects and the list of pointers.
use ggggc.Base.{
  ℕ, ◌+◌, ◌-◌, ◌/◌, ◌%◌, ◌≤◌, ◌<◌, ◌≡◌, refl, ◌∙◌, ◌⊎◌, inl, inr, Bool, true, false, some, List,
  ◌∷◌, arith, ◌==◌, if◌then◌else◌, Bool-cases, length,
}
use ggggc.Heap.{Memory, write, word_at, size_of, pointers_of, bits_per_word}
use ggggc.WorkList.{WorkList}
use ggggc.MarkSweep.Mark.{is_marked, mark_object}
use ggggc.MarkSweep.Mark.Graph.{In, kid, Edge, to_descriptor, to_kid, IsHeap, Marks}
use ggggc.MarkSweep.Mark.Children.{
  push_kids, length-push_kids, push_kids_congr, In-push_kids, push_kids-old, push_kids-new,
  walk-push,
}

abbrev pub insert : ℕ → (ℕ → Bool) → ℕ → Bool
insert a marks x = if x == a then true else marks x

-- What a round adds to the list for an unmarked object, in the unmarked heap.
abbrev pub pushed : Bool → Memory → ℕ → List ℕ → List ℕ
pushed tagging m a l =
    if pointers_of m (m a) 0 % 2 == 1
    then push_kids tagging m (m a) a (size_of m (m a) - 1) 1 (m a ∷ l)
    else m a ∷ l

abbrev pub Within : List ℕ → (ℕ → Bool) → Type 0
Within objs marks = (a : ℕ) → marks a ≡ true → In a objs

module _ (tagging : Bool) (m₀ : Memory) (objs : List ℕ) (heap : IsHeap tagging m₀ objs) where
  -- Words behind a header are as in the unmarked heap.
  body_word :
      (marks : ℕ → Bool) (m : Memory)
      → Within objs marks
      → Marks m₀ marks m
      → (b i : ℕ) → In b objs
      → 1 ≤ i
      → i < size_of m₀ (m₀ b)
      → m (word_at b i) ≡ m₀ (word_at b i)
  body_word marks m within is b i mem lo hi = elim (Bool-cases (marks (word_at b i))) [
    | inl header ↦ absurd (heap.apart (word_at b i) b i (within _ header) mem lo hi refl)
    | inr other ↦ is (word_at b i) ∙ rw other refl
  ]

  module _ (a : ℕ) (mem : In a objs) where
    descriptor-In : In (m₀ a) objs
    descriptor-In = heap.closed a (m₀ a) mem (to_descriptor refl)

    same_size :
        (marks : ℕ → Bool) (m : Memory)
        → Within objs marks
        → Marks m₀ marks m
        → size_of m (m₀ a) ≡ size_of m₀ (m₀ a)
    same_size marks m within is =
        body_word marks m within is (m₀ a) 1 descriptor-In (omega arith)
          (omega (arith, heap.sized (m₀ a) descriptor-In a mem refl))

    same_pointers :
        (marks : ℕ → Bool) (m : Memory)
        → Within objs marks
        → Marks m₀ marks m
        → (k : ℕ) → 3 + k < size_of m₀ (m₀ (m₀ a))
        → pointers_of m (m₀ a) k ≡ pointers_of m₀ (m₀ a) k
    same_pointers marks m within is k lt =
        body_word marks m within is (m₀ a) (3 + k) descriptor-In (omega arith) lt

    same_kid :
        (marks : ℕ → Bool) (m : Memory)
        → Within objs marks
        → Marks m₀ marks m
        → pointers_of m₀ (m₀ a) 0 % 2 ≡ 1
        → (i : ℕ) → 1 ≤ i
        → i < size_of m₀ (m₀ a)
        → kid tagging m (m₀ a) a i ≡ kid tagging m₀ (m₀ a) a i
    same_kid marks m within is has i lo hi = rw (
      same_pointers marks m within is (i / bits_per_word) (heap.described a mem has i lo hi),
      body_word marks m within is a i mem lo hi,
    )

    -- The walk over the marked heap pushes what it would push in the unmarked one.
    walk_pushed :
        (marks : ℕ → Bool) (m : Memory)
        → Within objs marks
        → Marks m₀ marks m
        → (l : List ℕ)
        → (if pointers_of m (m₀ a) 0 % 2 == 1
            then push_kids tagging m (m₀ a) a (size_of m (m₀ a) - 1) 1 l
            else l)
          ≡ (if pointers_of m₀ (m₀ a) 0 % 2 == 1
              then push_kids tagging m₀ (m₀ a) a (size_of m₀ (m₀ a) - 1) 1 l
              else l)
    walk_pushed marks m within is l =
        rw
          (
            same_pointers marks m within is 0 (heap.sized (m₀ a) descriptor-In a mem refl),
            same_size marks m within is,
          )
          (elim (Bool-cases (pointers_of m₀ (m₀ a) 0 % 2 == 1)) [
            | inr no_pointers ↦ rw no_pointers refl
            | inl has ↦ rw has (
                push_kids_congr tagging (m₀ a) a m m₀ (size_of m₀ (m₀ a) - 1) 1 l
                  (λ j lo hi. same_kid marks m within is (ground arith) j lo (omega arith)))
          ])

    Marks-insert :
        (marks : ℕ → Bool) (m : Memory)
        → Marks m₀ marks m
        → marks a ≡ false
        → Marks m₀ (insert a marks) (write m a (m₀ a + 1))
    Marks-insert marks m is new x = ground (arith, is x)

    Within-insert : (marks : ℕ → Bool) → Within objs marks → Within objs (insert a marks)
    Within-insert marks within x h = elim (Bool-cases (x == a)) [
      | inl same ↦ let e : x ≡ a = ground arith in rw e mem
      | inr other ↦ within x (rw other at h)
    ]

    -- A round at a marked object changes nothing; at any other it marks the object and pushes its
    -- descriptor and its children.
    pub mark_object_lem :
        (wl : WorkList) (marks : ℕ → Bool) (m : Memory) (s : wl.State)
        → Within objs marks
        → Marks m₀ marks m
        → wl.IsValid s
        → (marks a ≡ true → mark_object wl tagging a m s ≡ (m, s))
          × (marks a ≡ false
              → Marks m₀ (insert a marks) (mark_object wl tagging a m s).0
                × wl.IsValid (mark_object wl tagging a m s).1
                × (wl.contents (mark_object wl tagging a m s).1
                    ≡ pushed tagging m₀ a (wl.contents s)))
    unfolding mark_object
    mark_object_lem wl marks m s within is v = (old, fresh)
      where
        old : marks a ≡ true → mark_object wl tagging a m s ≡ (m, s)
        old e =
            let bit : is_marked m a ≡ true = ground (arith, is a, heap.unmarked a mem) in
            rw bit refl

        fresh :
            marks a ≡ false
            → Marks m₀ (insert a marks) (mark_object wl tagging a m s).0
              × wl.IsValid (mark_object wl tagging a m s).1
              × (wl.contents (mark_object wl tagging a m s).1 ≡ pushed tagging m₀ a (wl.contents s))
        fresh e =
            let header : m a ≡ m₀ a = ground (arith, is a) in
            let bit : is_marked m a ≡ false = ground (arith, is a, heap.unmarked a mem) in
            let is' = Marks-insert marks m is e in
            let (v', c) = wl.add_law (m₀ a) s v in
            let (v'', c') =
              walk-push wl tagging (write m a (m₀ a + 1)) (m₀ a) a (wl.add (m₀ a) s) v' in
            rw (bit, header)
              (
                is',
                v'',
                c'
                    ∙ walk_pushed (insert a marks) (write m a (m₀ a + 1))
                        (Within-insert marks within) is' _
                    ∙ rw c refl,
              )

module _ (tagging : Bool) (m : Memory) (a : ℕ) (l : List ℕ) where
  pub length-pushed : length (pushed tagging m a l) ≤ length l + size_of m (m a) + 1
  length-pushed =
      ground (arith, length-push_kids tagging (m a) a m (size_of m (m a) - 1) 1 (m a ∷ l))

  pub In-pushed : (b : ℕ) → In b (pushed tagging m a l) → In b l ⊎ Edge tagging m a b
  In-pushed b h = elim (Bool-cases (pointers_of m (m a) 0 % 2 == 1)) [
    | inl has ↦
        kids has (In-push_kids tagging (m a) a m b (size_of m (m a) - 1) 1 (m a ∷ l) (rw has at h))
    | inr no_pointers ↦ first (rw no_pointers at h)
  ]
    where
      first : In b (m a ∷ l) → In b l ⊎ Edge tagging m a b
      first (inl e) = inr (to_descriptor e)
      first (inr old) = inl old

      kids :
          (pointers_of m (m a) 0 % 2 == 1) ≡ true
          → In b (m a ∷ l)
            ⊎ ((j : ℕ) × (1 ≤ j)
                × (j < 1 + (size_of m (m a) - 1))
                × (kid tagging m (m a) a j ≡ some b))
          → In b l ⊎ Edge tagging m a b
      kids has (inl old) = first old
      kids has (inr (j, lo, hi, is)) = inr (to_kid j (ground arith) lo (omega arith) is)

  pub pushed-old : (b : ℕ) → In b l → In b (pushed tagging m a l)
  pushed-old b h = elim (Bool-cases (pointers_of m (m a) 0 % 2 == 1)) [
    | inl has ↦ rw has (push_kids-old tagging (m a) a m b (size_of m (m a) - 1) 1 (m a ∷ l) (inr h))
    | inr no_pointers ↦ rw no_pointers (inr h)
  ]

  pub pushed-new : (b : ℕ) → Edge tagging m a b → In b (pushed tagging m a l)
  pushed-new b (to_descriptor e) = elim (Bool-cases (pointers_of m (m a) 0 % 2 == 1)) [
    | inl has ↦ rw has (push_kids-old tagging (m a) a m b (size_of m (m a) - 1) 1 (m a ∷ l) (inl e))
    | inr no_pointers ↦ rw no_pointers (inl e)
  ]
  pushed-new b (to_kid i has lo hi is) =
      let has' : (pointers_of m (m a) 0 % 2 == 1) ≡ true = ground arith in
      rw has'
        (push_kids-new tagging (m a) a m b (size_of m (m a) - 1) 1 (m a ∷ l) i lo (omega arith) is)
