-- ===== src/Descriptors/Shapes.antt =====
-- The words of a descriptor, and the words of an object that the collectors find by them.
use ggggc.Base.{
  ℕ, zero, suc, ◌+◌, ◌-◌, ◌*◌, ◌/◌, ◌%◌, ◌^◌, ◌≤◌, ◌<◌, ◌≡◌, refl, sym, ap, ◌∙◌, ◌≢◌, inl, inr,
  Bool, true, Option, none, some, arith, ◌==◌, if◌then◌else◌, Bool-cases,
}
use native.Mathlib.Nat.{div-div-eq-div-mul, pow-suc}
use native.Mathlib.Numerals.{add-one}
use ggggc.Heap.{Memory, word_at, bits_per_word, size_of, pointers_of}
use ggggc.Heap.Walk.{over_words, is_pointer, pointer_walk, visit_pointer, pointer_walk-over_words}
use ggggc.Descriptors.{copy_words, pointer_words, set_pointers, descriptor_words}

-- bit `i` of pointer bits
abbrev pub bit : (ℕ → ℕ) → ℕ → Bool
bit pointers i = (pointers (i / bits_per_word) / 2 ^ (i % bits_per_word)) % 2 == 1

-- the pointer bits that a descriptor has for those that are asked for
abbrev pub stored : Option (ℕ → ℕ) → ℕ → ℕ
stored none k = 0
stored (some pointers) k = if k == 0 then pointers k / 2 * 2 + 1 else pointers k

pub record IsDescriptor (m : Memory) (d size : ℕ) (pointers : Option (ℕ → ℕ)) : Type 0 where
  pub words : size_of m d ≡ size
  pub bits : (k : ℕ) → k < pointer_words size pointers → pointers_of m d k ≡ stored pointers k

-- What a walk over an object of `size` words does: it goes to the words of the bits, or to none.
abbrev pub asked {ℓ} : {S : Type ℓ} → (size : ℕ) → Option (ℕ → ℕ) → (body : ℕ → S → S) → S → S
asked size none body s = s
asked size (some pointers) body s =
    over_words (size - 1) 1 (λ i t. if bit pointers i then body i t else t) s

pub over_words-congr {ℓ} :
    {S : Type ℓ} (n i : ℕ) (f g : ℕ → S → S) (s : S)
    → ((j : ℕ) (t : S) → i ≤ j → j < i + n → f j t ≡ g j t)
    → over_words n i f s ≡ over_words n i g s
unfolding over_words
over_words-congr zero i f g s same = refl
over_words-congr (suc n) i f g s same =
    ap (over_words n (i + 1) f) (same i s (omega arith) (omega arith))
    ∙ over_words-congr n (i + 1) f g (g i s)
        (λ j t from to. same j t (omega (arith, from)) (omega (arith, to)))

power : (k : ℕ) → 2 ^ (k + 1) ≡ 2 * 2 ^ k
power k = rw (add-one k, pow-suc) (omega arith)

set_low_bit : (w k : ℕ) → (w / 2 * 2 + 1) / 2 ^ (k + 1) ≡ w / 2 ^ (k + 1)
set_low_bit w k = rw (power k) (
    sym (div-div-eq-div-mul (w / 2 * 2 + 1) 2 (2 ^ k))
    ∙ ap (λ v. v / 2 ^ k) (omega arith)
    ∙ div-div-eq-div-mul w 2 (2 ^ k))

stored-shift :
    (pointers : ℕ → ℕ) (k b : ℕ)
    → (k ≡ 0 → 1 ≤ b)
    → stored (some pointers) k / 2 ^ b ≡ pointers k / 2 ^ b
stored-shift pointers k zero pos = elim (Bool-cases (k == 0)) [
  | inl e ↦ absurd (omega (arith, pos (ground arith)))
  | inr ne ↦ rw ne refl
]
stored-shift pointers k (suc b) pos = elim (Bool-cases (k == 0)) [
  | inl e ↦ rw e (
      ap (λ c. (pointers k / 2 * 2 + 1) / 2 ^ c) (sym (add-one b))
      ∙ set_low_bit (pointers k) b
      ∙ ap (λ c. pointers k / 2 ^ c) (add-one b))
  | inr ne ↦ rw ne refl
]

-- The words that bits of a descriptor stand for are those of the bits that were asked for, the header apart.
is_pointer-bit :
    (m : Memory) (d size : ℕ) (pointers : ℕ → ℕ) (i : ℕ)
    → IsDescriptor m d size (some pointers)
    → 1 ≤ i
    → i < size
    → is_pointer m d i ≡ bit pointers i
is_pointer-bit m d size pointers i is pos lt =
    let word = is.bits (i / bits_per_word) (omega (arith, lt)) in
    rw word (
      ap (λ w. (w % 2) == 1)
        (stored-shift pointers (i / bits_per_word) (i % bits_per_word)
          (λ e. omega (arith, e, pos))))

choose {ℓ} :
    {A : Type ℓ} (b c : Bool) (x y : A) → b ≡ c → (if b then x else y) ≡ (if c then x else y)
choose b c x y e = ap (λ t. if t then x else y) e

odd : (w : ℕ) → ((w / 2 * 2 + 1) % 2 == 1) ≡ true
odd w = ground arith

pub pointer_walk-asked {ℓ} :
    {S : Type ℓ} (m : Memory) (d size : ℕ) (pointers : Option (ℕ → ℕ)) (body : ℕ → S → S) (s : S)
    → IsDescriptor m d size pointers
    → 1 ≤ size
    → pointer_walk m d body s ≡ asked size pointers body s
pointer_walk-asked m d size none body s is some_words =
    pointer_walk-over_words m d body s ∙ rw (is.bits 0 (omega arith)) refl
pointer_walk-asked m d size (some pointers) body s is some_words =
    pointer_walk-over_words m d body s
    ∙ rw (is.bits 0 (omega (arith, some_words)), odd (pointers 0), is.words)
        (over_words-congr (size - 1) 1 (visit_pointer m d body) _ s (λ j t from to.
          choose (is_pointer m d j) (bit pointers j) (body j t) t
            (is_pointer-bit m d size pointers j is from (omega (arith, to, some_words)))))

-- What is written to a descriptor.
pub copy_words-word :
    (a : ℕ) (words : ℕ → ℕ) (n : ℕ) (m : Memory) (k : ℕ)
    → k < n
    → copy_words a words n m (word_at a k) ≡ words k
copy_words-word a words zero m k lt = absurd (omega arith)
copy_words-word a words (suc n) m k lt = elim (Bool-cases (k == n)) [
  | inl e ↦ let same : k ≡ n = ground arith in rw same (ground arith)
  | inr ne ↦ let before = copy_words-word a words n m k (ground arith) in ground (arith, before)
]

pub copy_words-other :
    (a : ℕ) (words : ℕ → ℕ) (n : ℕ) (m : Memory) (b : ℕ)
    → ((k : ℕ) → k < n → b ≢ word_at a k)
    → copy_words a words n m b ≡ m b
copy_words-other a words zero m b out = refl
copy_words-other a words (suc n) m b out =
    let before = copy_words-other a words n m b (λ k lt. out k (omega (arith, lt))) in
    let last = out n (omega arith) in ground (arith, before, last)

pub set_pointers-bits :
    (ret size : ℕ) (pointers : Option (ℕ → ℕ)) (m : Memory) (k : ℕ)
    → 1 ≤ size
    → k < pointer_words size pointers
    → pointers_of (set_pointers ret (pointer_words size pointers) pointers m) ret k
      ≡ stored pointers k
set_pointers-bits ret size none m k some_words lt =
    let first : k ≡ 0 = omega (arith, lt) in rw first (ground arith)
set_pointers-bits ret size (some pointers) m k some_words lt =
    let n = descriptor_words size in
    let base = word_at ret 3 in
    let first : copy_words base pointers n m base ≡ pointers 0 =
      ap (copy_words base pointers n m) (omega arith)
      ∙ copy_words-word base pointers n m 0 (omega (arith, some_words)) in
    elim (Bool-cases (k == 0)) [
      | inl e ↦ let here : k ≡ 0 = ground arith in rw here (rw first (ground arith))
      | inr ne ↦
          let there = copy_words-word base pointers n m k lt in
          let place : word_at ret (3 + k) ≡ word_at base k = omega arith in
          rw (place, ne) (ground (arith, there))
    ]

pub set_pointers-other :
    (ret size : ℕ) (pointers : Option (ℕ → ℕ)) (m : Memory) (b : ℕ)
    → 1 ≤ size
    → ((k : ℕ) → k < pointer_words size pointers → b ≢ word_at ret (3 + k))
    → set_pointers ret (pointer_words size pointers) pointers m b ≡ m b
set_pointers-other ret size none m b some_words out =
    let first = out 0 (omega arith) in ground (arith, first)
set_pointers-other ret size (some pointers) m b some_words out =
    let n = descriptor_words size in
    let base = word_at ret 3 in
    let first = out 0 (omega (arith, some_words)) in
    let same = copy_words-other base pointers n m b (λ k lt e. out k lt (e ∙ omega arith)) in
    ground (arith, first, same)
