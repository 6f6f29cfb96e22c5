-- ===== src/Gembc/Collect0/Tests.antt =====
-- A local reference to an object of generation 0, which moves to a pool of generation 1.
use ggggc.Base.{
  ℕ, ◌+◌, ◌*◌, ◌<◌, ◌≡◌, refl, sym, ◌∙◌, inl, inr, true, false, none, some, List, [], ◌∷◌, arith,
  ltb, ◌==◌, if◌then◌else◌, Bool-cases, length, Gives,
}
use mathlib.Core.Path.{subst}
use ggggc.Heap.{Memory}
use ggggc.ToSearch.{ToSearch}
use ggggc.ToSearch.Stack.{to_search}
use ggggc.MarkSweep.Sample.{nothing_yet, list}
use ggggc.Heap.Walk.{pointer_walk}
use ggggc.Gembc.CountUsed.{follow_forwarded}
use ggggc.Gembc.Allocate.{GenPool, malloc_gen1, retry}
use ggggc.Gembc.Collect0.{Collecting, next_round, promotion, test_pointer}
use ggggc.Base.{apart}
use ggggc.Gembc.Collect0.Starts.{
  Holds, InCard, cards_words, push_words, search_cards, search_cards-Holds,
}

abbrev pool : GenPool
pool = record {
  start = 16781312;
  free = 16781312;
  end = 33554432;
  gen = 1;
  remember = λ c. 0;
  first_object = λ c. 0;
}

-- the reference at 8, the object of 3 words at 64, and its descriptor at 512
abbrev memory : Memory
memory a =
    if a == 8
    then 64
    else if a == 64
    then 512
    else if a == 72
    then 7
    else if a == 512
    then 512
    else if a == 520
    then 3
    else 0

abbrev All {ℓ} : {A : Type ℓ} → (A → Type 0) → List A → Type 0
All P [] = Unit
All P (x ∷ xs) = P x × All P xs

abbrev collecting : Collecting (to_search nothing_yet) false
collecting = record {
  memory = memory;
  survivors = λ p. 0;
  promoted = record { passed = []; pools = pool ∷ [] };
  pending = list;
}

abbrev generation_of : ℕ → ℕ
generation_of a = if ltb a 4096 then 0 else 1

-- the reference, the old header, the words of the new object, and the survivors
moved_once :
    elim (test_pointer (to_search nothing_yet) false 1 0 generation_of pool 8 collecting) [
      | none ↦ []
      | some r ↦ elim r [
        | promotion c ↦ []
        | next_round c ↦
            c.memory 8 ∷ c.memory 64 ∷ c.memory 16781312 ∷ c.memory 16781320 ∷ c.survivors 0 ∷ []
      ]
    ]
    ≡ 16781312 ∷ 16781313 ∷ 512 ∷ 7 ∷ 3 ∷ []
unfolding test_pointer follow_forwarded malloc_gen1 retry pointer_walk
moved_once = refl

-- a pool of generation 1 whose card 1 is remembered: one object starts in it, which refers to the one at 64
abbrev remembering : GenPool
remembering = record pool { remember = λ c. if c == 1 then 1 else 0; first_object = λ c. 0 }

abbrev old_memory : Memory
old_memory a =
    if a == 16781312
    then 512
    else if a == 16781320
    then 64
    else if a == 512
    then 512
    else if a == 520
    then 3
    else if a == 536
    then 3
    else 0

abbrev objects : ℕ → List ℕ
objects k = if k == 1 then 16781312 ∷ [] else []

card_objects :
    (k : ℕ)
    → (remembering.remember k == 0) ≡ false
    → InCard
        (to_search nothing_yet)
        false
        old_memory
        k
        (16777216 + k * 4096 + remembering.first_object k * 8)
        (objects k)
card_objects k dirty = elim (Bool-cases (k == 1)) [
  | inl e ↦
      let same : k ≡ 1 = ground arith in
      subst
        (λ k.
          InCard (to_search nothing_yet) false old_memory k
            (16777216 + k * 4096 + remembering.first_object k * 8) (objects k))
        (sym same) (refl, refl, inl (refl, refl))
  | inr ne ↦ absurd (apart (λ b. b) true false refl refl (sym (rw ne refl) ∙ dirty))
]

one_object : (k : ℕ) → length (objects k) < 2
one_object k = ground arith

-- the object's header, and the word behind it, which is a pointer
remembered_words :
    cards_words (to_search nothing_yet) false old_memory remembering objects 2 0 []
    ≡ 16781312 ∷ 16781320 ∷ []
unfolding push_words
remembered_words = refl

abbrev none_yet : ToSearch
none_yet = (to_search nothing_yet).init list

search_cards-Holds_example :
    Gives
      (Holds
        (to_search nothing_yet)
        false
        old_memory
        (cards_words (to_search nothing_yet) false old_memory remembering objects 2 0 []))
      (search_cards (to_search nothing_yet) false old_memory 2 16777216 remembering 2 0 none_yet)
search_cards-Holds_example =
    search_cards-Holds (to_search nothing_yet) false old_memory 2 16777216 remembering objects 2 0
      none_yet [] card_objects one_object ((to_search nothing_yet).init_law list)
