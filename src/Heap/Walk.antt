-- ===== src/Heap/Walk.antt =====
-- The loops over the words of an object that its descriptor says are pointers, in the mark phase of
-- collector/portablems.c and in ADD_OBJECT_POINTERS of collector/gembc.c.
use native.Mathlib.Nat.{div-div-eq-div-mul, pow-suc, div-one}
use native.Mathlib.Numerals.{add-one}
use ggggc.Base.{
  ℕ, zero, suc, ◌+◌, ◌-◌, ◌/◌, ◌%◌, ◌^◌, ◌≤◌, ◌≡◌, refl, inl, inr, sym, ap, ◌∙◌, arith, Bool, false,
  ◌==◌, if◌then◌else◌, Bool-cases,
}
use ggggc.Heap.{Memory, bits_per_word, size_of, pointers_of}

-- `body` at the words `i`, `i + 1`, … of a stretch of `rounds` words
unfoldable pub over_words {ℓ} : {S : Type ℓ} → (rounds i : ℕ) (body : ℕ → S → S) (s : S) → S
over_words zero i body s = s
over_words (suc rounds) i body s = over_words rounds (i + 1) body (body i s)

-- bit `i` of the descriptor's pointer words
abbrev pub is_pointer : Memory → ℕ → ℕ → Bool
is_pointer m d i = (pointers_of m d (i / bits_per_word) / 2 ^ (i % bits_per_word)) % 2 == 1

shift : (w k : ℕ) → w / 2 ^ k / 2 ≡ w / 2 ^ (k + 1)
shift w k = rw (add-one k, pow-suc) (div-div-eq-div-mul w (2 ^ k) 2)

module _ {ℓ} {S : Type ℓ} (m : Memory) (d : ℕ) (body : ℕ → S → S) where
  -- curWord, curDescription and curDescriptorWord are `i`, `description` and `dword`
  pub walk_loop : (rounds i description dword : ℕ) → S → S
  walk_loop zero i description dword s = s
  walk_loop (suc n) i description dword s =
      let next = i % bits_per_word == 0 in
      let dword' = if next then dword + 1 else dword in
      let description' = if next then pointers_of m d (dword + 1) else description in
      walk_loop n (i + 1) (description' / 2) dword' (if description' % 2 == 1 then body i s else s)

  -- `if (descriptor->pointers[0] & 1)` and the loop under it
  unfoldable pub pointer_walk : S → S
  unfolding walk_loop
  pointer_walk s =
      if pointers_of m d 0 % 2 == 1
      then walk_loop (size_of m d - 1) 1 (pointers_of m d 0 / 2) 0 s
      else s

  abbrev pub visit_pointer : ℕ → S → S
  visit_pointer i s = if is_pointer m d i then body i s else s

  -- What the loop holds of `description`: the bits of the current word from `i` on.
  abbrev Shifted : (i description dword : ℕ) → Type 0
  Shifted i description dword =
      (dword ≡ (i - 1) / bits_per_word)
      × ((i % bits_per_word == 0) ≡ false
          → description ≡ pointers_of m d (i / bits_per_word) / 2 ^ (i % bits_per_word))

  unshifted :
      (i : ℕ)
      → i % bits_per_word ≡ 0
      → pointers_of m d (i / bits_per_word) / 2 ^ (i % bits_per_word)
        ≡ pointers_of m d (i / bits_per_word)
  unshifted i e = rw (e, div-one)

  shifted :
      (i : ℕ)
      → ((i + 1) % bits_per_word == 0) ≡ false
      → pointers_of m d (i / bits_per_word) / 2 ^ (i % bits_per_word) / 2
        ≡ pointers_of m d ((i + 1) / bits_per_word) / 2 ^ ((i + 1) % bits_per_word)
  shifted i more =
      let word : (i + 1) / bits_per_word ≡ i / bits_per_word = ground arith in
      let bit : (i + 1) % bits_per_word ≡ i % bits_per_word + 1 = ground arith in
      rw (word, bit) (shift (pointers_of m d (i / bits_per_word)) (i % bits_per_word))

  walk_loop-over_words :
      (n i description dword : ℕ) (s : S)
      → 1 ≤ i
      → Shifted i description dword
      → walk_loop n i description dword s ≡ over_words n i visit_pointer s
  unfolding walk_loop over_words
  walk_loop-over_words zero i description dword s pos h = refl
  walk_loop-over_words (suc n) i description dword s pos (at, bits) =
      elim (Bool-cases (i % bits_per_word == 0)) [
        | inl first ↦
            let dword' : dword + 1 ≡ i / bits_per_word = ground arith in
            rw first (
              rw (dword', unshifted i (ground arith))
                (walk_loop-over_words n (i + 1) (pointers_of m d (i / bits_per_word) / 2)
                  (i / bits_per_word) _ (omega arith)
                  (
                    ground arith,
                    λ more. ap (λ w. w / 2) (sym (unshifted i (ground arith))) ∙ shifted i more,
                  )))
        | inr inside ↦ rw inside (
            rw (bits inside)
              (walk_loop-over_words n (i + 1) _ dword _ (omega arith) (ground arith, shifted i)))
      ]

  -- Over the words 1 … size - 1 the loop runs its body at the pointers, in order, and at nothing
  -- else; a descriptor whose first pointer word is even has no pointers.
  pub pointer_walk-over_words :
      (s : S)
      → pointer_walk s
        ≡ (if pointers_of m d 0 % 2 == 1 then over_words (size_of m d - 1) 1 visit_pointer s else s)
  unfolding pointer_walk
  pointer_walk-over_words s = rw (
      walk_loop-over_words (size_of m d - 1) 1 (pointers_of m d 0 / 2) 0 s (omega arith)
        (omega arith, λ _. refl))
