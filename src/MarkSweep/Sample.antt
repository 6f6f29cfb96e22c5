-- ===== src/MarkSweep/Sample.antt =====
-- A heap of two descriptors, two objects that refer to each other, and one that nothing refers to; and a
-- list of pointers to search.
use ggggc.Base.{
  ℕ, zero, suc, ◌%◌, ◌≤◌, ◌<◌, ◌≡◌, refl, inl, inr, Bool, false, some, List, [], ◌∷◌, arith, ◌==◌,
  if◌then◌else◌, has,
}
use ggggc.Heap.{Memory, size_of}
use ggggc.ToSearch.{ToSearch}
use ggggc.MarkSweep.Mark.Graph.{In, kid, Edge, to_descriptor, to_kid, IsHeap}

-- 800 describes descriptors, 880 objects with a pointer in word 1; 960 and 1040 refer to each other.
abbrev pub memory : Memory
memory a =
    if a == 800
    then 800
    else if a == 808
    then 4
    else if a == 824
    then 5
    else if a == 880
    then 800
    else if a == 888
    then 3
    else if a == 904
    then 3
    else if a == 960
    then 880
    else if a == 968
    then 1040
    else if a == 1040
    then 880
    else if a == 1048
    then 960
    else if a == 1120
    then 880
    else if a == 1128
    then 960
    else 0

abbrev pub objects : List ℕ
objects = 800 ∷ 880 ∷ 960 ∷ 1040 ∷ 1120 ∷ []

abbrev pub nothing : ℕ → Bool
nothing a = false

abbrev pub nothing_yet : ℕ → ℕ
nothing_yet i = 0

abbrev pub list : ToSearch
list = record { prev = []; here = record { used = 0; buf = nothing_yet }; next = [] }

-- The words 1, 2 and 3, which are all that an object here has.
words : (P : ℕ → Type 0) → P 1 → P 2 → P 3 → (i : ℕ) → 1 ≤ i → i < 4 → P i
words P p q r zero lo hi = absurd (omega arith)
words P p q r (suc zero) lo hi = p
words P p q r (suc (suc zero)) lo hi = q
words P p q r (suc (suc (suc zero))) lo hi = r
words P p q r (suc (suc (suc (suc i)))) lo hi = absurd (omega arith)

each : (P : ℕ → Type 0) → P 800 → P 880 → P 960 → P 1040 → P 1120 → (a : ℕ) → In a objects → P a
each P p q r s t a (inl e) = rw e p
each P p q r s t a (inr (inl e)) = rw e q
each P p q r s t a (inr (inr (inl e))) = rw e r
each P p q r s t a (inr (inr (inr (inl e)))) = rw e s
each P p q r s t a (inr (inr (inr (inr (inl e))))) = rw e t
each P p q r s t a (inr (inr (inr (inr (inr e))))) = absurd e

abbrev Kids : ℕ → Type 0
Kids a = (b : ℕ) → (i : ℕ) → 1 ≤ i → i < 4 → kid false memory (memory a) a i ≡ some b → In b objects

kids : (a : ℕ) → In a objects → Kids a
kids =
    each Kids
      (λ b.
        words (λ i. kid false memory 800 800 i ≡ some b → In b objects) (λ e. cc) (λ e. cc)
          (λ e. cc))
      (λ b.
        words (λ i. kid false memory 800 880 i ≡ some b → In b objects) (λ e. cc) (λ e. cc)
          (λ e. cc))
      (λ b.
        words (λ i. kid false memory 880 960 i ≡ some b → In b objects)
          (λ e. inr (inr (inr (inl (cc))))) (λ e. cc) (λ e. cc))
      (λ b.
        words (λ i. kid false memory 880 1040 i ≡ some b → In b objects) (λ e. inr (inr (inl (cc))))
          (λ e. cc) (λ e. cc))
      (λ b.
        words (λ i. kid false memory 880 1120 i ≡ some b → In b objects) (λ e. inr (inr (inl (cc))))
          (λ e. cc) (λ e. cc))

pub sizes :
    (a : ℕ)
    → In a objects
    → (size_of memory (memory a) ≤ 4)
      × (memory a % 2 ≡ 0)
      × (a % 80 ≡ 0)
      × In (memory a) objects
      × (size_of memory (memory (memory a)) ≡ 4)
sizes =
    each
      (λ a.
        (size_of memory (memory a) ≤ 4)
        × (memory a % 2 ≡ 0)
        × (a % 80 ≡ 0)
        × In (memory a) objects
        × (size_of memory (memory (memory a)) ≡ 4))
      (omega arith, refl, refl, inl refl, refl) (omega arith, refl, refl, inl refl, refl)
      (omega arith, refl, refl, inr (inl refl), refl)
      (omega arith, refl, refl, inr (inl refl), refl)
      (omega arith, refl, refl, inr (inl refl), refl)

pub memory-IsHeap : IsHeap false memory objects
memory-IsHeap = record {
  unmarked = λ a h. (sizes a h).1;
  closed = closed;
  apart = λ a b i h k lo hi e. omega (arith, (sizes a h).2, (sizes b k).2, (sizes b k).0);
  sized = λ d h a k e. rw (← e) (omega (arith, (sizes a k).4));
  described = λ a h has i lo hi. omega (arith, (sizes a h).4, (sizes a h).0);
}
  where
    closed : (a b : ℕ) → In a objects → Edge false memory a b → In b objects
    closed a b h (to_descriptor e) = rw e (sizes a h).3
    closed a b h (to_kid i has lo hi is) = kids a h b i lo (omega (arith, (sizes a h).0)) is
