-- ===== src/Descriptors/Arrays.antt =====
-- Arrays: the words that the collectors find in a pointer array are its elements, and in a data array
-- there are none.
use native.Mathlib.Nat.{div-div-eq-div-mul, pow-suc, div-one}
use native.Mathlib.Numerals.{add-one}
use ggggc.Base.{
  ℕ, zero, suc, ◌+◌, ◌-◌, ◌*◌, ◌/◌, ◌%◌, ◌^◌, ◌≤◌, ◌<◌, ◌≡◌, refl, sym, ap, ◌∙◌, inl, inr, Bool,
  true, false, ◌&&◌, Option, none, some, arith, ◌==◌, if◌then◌else◌, Bool-cases, Gives, Gives-mono,
}
use ggggc.Base.{bind}
use ggggc.Heap.{word_bytes, bits_per_word}
use ggggc.Heap.Walk.{over_words, pointer_walk}
use ggggc.Descriptors.{
  Allocator, Descriptors, at_least_minimum, array_pointers, malloc_pointer_array, malloc_data_array,
  table_size, allocate_descriptor_l, malloc, set_array_length,
}
use mathlib.Core.Path.{subst}
use ggggc.Descriptors.Table.{IsTable}
use ggggc.Descriptors.Made.{Enough}
use ggggc.Descriptors.Shapes.{bit, asked, over_words-congr, pointer_walk-asked}
use ggggc.Descriptors.Allocated.{own_words, need_all}
use ggggc.Descriptors.Objects.{IsObject, allocated-IsObject}

-- the lowest `n` bits of a word are ones
ones : (w n : ℕ) → Bool
ones w zero = true
ones w (suc n) = (w % 2 == 1) && ones (w / 2) n

divide_power : (w i : ℕ) → w / 2 ^ (i + 1) ≡ w / 2 / 2 ^ i
divide_power w i =
    let power : 2 ^ (i + 1) ≡ 2 * 2 ^ i = rw (add-one i, pow-suc) (omega arith) in
    rw power (sym (div-div-eq-div-mul w 2 (2 ^ i)))

ones-bit : (i n w : ℕ) → ones w n ≡ true → i < n → ((w / 2 ^ i) % 2 == 1) ≡ true
unfolding ones
ones-bit i zero w all lt = absurd (omega (arith, lt))
ones-bit zero (suc n) w all lt = rw (div-one w) (ground (arith, all))
ones-bit (suc i) (suc n) w all lt =
    let rest : ones (w / 2) n ≡ true = ground (arith, all) in
    ap (λ v. (v % 2) == 1) (ap (λ k. w / 2 ^ k) (sym (add-one i)) ∙ divide_power w i)
    ∙ ones-bit i n (w / 2) rest (omega (arith, lt))

full_word : ones (2 ^ 64 - 1) 64 ≡ true
unfolding ones
full_word = refl

first_word : ones ((2 ^ 64 - 1) / 4 * 4 / 2 / 2) 62 ≡ true
unfolding ones
first_word = refl

-- All bits of a pointer array from word 2 on are set.
element-bit : (i : ℕ) → 2 ≤ i → bit array_pointers i ≡ true
element-bit i from = elim (Bool-cases (i / bits_per_word == 0)) [
  | inl e ↦
      let w = (2 ^ 64 - 1) / 4 * 4 in
      let place : i % 64 ≡ i - 2 + 1 + 1 = ground arith in
      let set = ones-bit (i - 2) 62 (w / 2 / 2) first_word (ground arith) in
      rw (e, place)
        (ap (λ v. (v % 2) == 1) (divide_power w (i - 2 + 1) ∙ divide_power (w / 2) (i - 2)) ∙ set)
  | inr ne ↦ rw ne (ones-bit (i % 64) 64 (2 ^ 64 - 1) full_word (omega arith))
]

length-bit : bit array_pointers 1 ≡ false
length-bit = refl

over_words-step {ℓ} :
    {S : Type ℓ} (n i : ℕ) (body : ℕ → S → S) (t : S)
    → over_words (suc n) i body t ≡ over_words n (i + 1) body (body i t)
unfolding over_words
over_words-step n i body t = refl

choose {ℓ} : {A : Type ℓ} (b : Bool) (x y : A) → b ≡ true → (if b then x else y) ≡ x
choose b x y e = ap (λ c. if c then x else y) e

asked-elements {ℓ} :
    {S : Type ℓ} (size : ℕ) (body : ℕ → S → S) (t : S)
    → 3 ≤ size
    → asked size (some array_pointers) body t ≡ over_words (size - 2) 2 body t
asked-elements size body t some_words =
    let steps : size - 1 ≡ suc (size - 2) = omega (arith, some_words) in
    rw steps (
      over_words-step (size - 2) 1 _ t
      ∙ over_words-congr (size - 2) 2 _ body t
          (λ j u from to. choose (bit array_pointers j) (body j u) u (element-bit j from)))

module _ {H : Type 0} (alloc : Allocator H) where
  not_raised : (sz : ℕ) → 1 ≤ sz → at_least_minimum (sz + 2) ≡ sz + 2
  not_raised sz elements = ground (arith, elements)

  -- `r` is a pointer array of `sz` elements, and a walk goes to its `sz` words from the third on.
  abbrev pub IsPointerArray :
      {S : Type 0}
      → (body : ℕ → S → S) (t : S) (sz : ℕ) → Descriptors H
      → ℕ × Descriptors H
      → Type 0
  IsPointerArray body t sz s r =
      IsObject alloc (sz + 2) (some array_pointers) sz s r
      × (pointer_walk r.1.memory (r.1.memory r.0) body t ≡ over_words sz 2 body t)

  -- `r` is a data array of `words` words and length `nmemb`, and a walk goes to none of its words.
  abbrev pub IsDataArray :
      {S : Type 0}
      → (body : ℕ → S → S) (t : S) (words nmemb : ℕ) → Descriptors H
      → ℕ × Descriptors H
      → Type 0
  IsDataArray body t words nmemb s r =
      IsObject alloc (at_least_minimum (words + 2)) none nmemb s r
      × (pointer_walk r.1.memory (r.1.memory r.0) body t ≡ t)

  walked :
      {S : Type 0} (body : ℕ → S → S) (t : S) (size second : ℕ) (pointers : Option (ℕ → ℕ))
      (s : Descriptors H) (r : ℕ × Descriptors H)
      → 1 ≤ size
      → IsObject alloc size pointers second s r
      → pointer_walk r.1.memory (r.1.memory r.0) body t ≡ asked size pointers body t
  walked body t size second pointers s r some_words object =
      ap (λ d. pointer_walk r.1.memory d body t) object.header
      ∙ pointer_walk-asked r.1.memory object.descriptor size pointers body t object.is some_words

  some_min : (size : ℕ) → 1 ≤ at_least_minimum size
  some_min size = ground arith

  -- ggggc_mallocPointerArray for one element or more, if the words of the array's descriptor are an index of the table
  -- of descriptor-descriptors, with calls that nest deeply enough and room for what it allocates, returns a new object
  -- of the header, the length `sz` and `sz` words; a walk over it by its descriptor goes to those `sz` words, its
  -- elements, in order and each once, and to no other.
  pub malloc_pointer_array-IsPointerArray :
      {S : Type 0} (body : ℕ → S → S) (t : S) (fuel sz : ℕ) (s : Descriptors H)
      → IsTable alloc s
      → 1 ≤ sz
      → own_words (sz + 2) (some array_pointers) < table_size
      → Enough fuel (own_words (sz + 2) (some array_pointers))
      → need_all (sz + 2) (some array_pointers) + (sz + 2) ≤ alloc.room s.heap
      → Gives (IsPointerArray body t sz s) (malloc_pointer_array alloc fuel sz s)
  unfolding malloc_pointer_array
  malloc_pointer_array-IsPointerArray body t fuel sz s is elements indexed enough room =
      let two : sz + 1 + 1 ≡ sz + 2 = omega arith in
      let size = sz + 2 in
      let all : sz + 2 - 2 ≡ sz = omega arith in
      let same : at_least_minimum (sz + 2) ≡ sz + 2 = not_raised sz elements in
      rw two (
        Gives-mono {Q = IsPointerArray body t sz s} _
          (λ r object. (
            object,
            walked body t size sz (some array_pointers) s r (omega arith) object
                ∙ asked-elements size body t (omega (arith, elements))
                ∙ ap (λ n. over_words n 2 body t) all,
          ))
          (subst
            (λ k. Gives (IsObject alloc k (some array_pointers) sz s) (
              bind (allocate_descriptor_l alloc fuel (sz + 2) (some array_pointers) s)
                (λ d. bind (malloc alloc d.0 d.1) (set_array_length alloc sz))))
            same
            (allocated-IsObject alloc fuel (sz + 2) (some array_pointers) sz s is (rw same indexed)
              (rw same enough) (rw same room))))

  -- ggggc_mallocDataArray, if the bytes it is asked for, rounded up to words, fit the machine's integers, and with
  -- calls that nest deeply enough and room for what it allocates, returns a new object of the header, the length
  -- `nmemb` and at least the bytes asked for in whole words; a walk over it by its descriptor goes to no word.
  pub malloc_data_array-IsDataArray :
      {S : Type 0} (body : ℕ → S → S) (t : S) (fuel nmemb size : ℕ) (s : Descriptors H)
      → IsTable alloc s
      → nmemb * size + 7 < 2 ^ 64
      → Enough fuel 4
      → (nmemb * size + 7) / 8 + 11 ≤ alloc.room s.heap
      → (nmemb * size ≤ word_bytes * ((nmemb * size + 7) / 8))
        × Gives
            (IsDataArray body t ((nmemb * size + 7) / 8) nmemb s)
            (malloc_data_array alloc fuel nmemb size s)
  unfolding malloc_data_array
  malloc_data_array-IsDataArray body t fuel nmemb size s is fits enough room =
      let words = (nmemb * size + 7) / 8 in
      let same : (nmemb * size + word_bytes - 1) % 2 ^ 64 / word_bytes + 1 + 1 ≡ words + 2 =
        omega (arith, fits) in
      let all : need_all (at_least_minimum (words + 2)) none + at_least_minimum (words + 2)
          ≤ alloc.room s.heap =
        ground (arith, room) in
      (
        omega arith,
        rw same (
            Gives-mono {Q = IsDataArray body t words nmemb s} _
              (λ r object. (
                object,
                walked body t (at_least_minimum (words + 2)) nmemb none s r (some_min (words + 2))
                    object,
              ))
              (allocated-IsObject alloc fuel (words + 2) none nmemb s is (omega arith) enough all)),
      )
