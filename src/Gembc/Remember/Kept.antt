-- ===== src/Gembc/Remember/Kept.antt =====
-- The remembered cards cover all references from an older to a younger generation.
use ggggc.Base.{ℕ, ◌<◌, ◌≡◌, refl, sym, ap, ◌∙◌, ◌≢◌, inl, inr, true, arith, ltb, ◌==◌, Bool-cases}
use mathlib.Core.Path.{subst}
use ggggc.Heap.{null, word_at}
use ggggc.Gembc.Allocate.{card_of, GenPool}
use ggggc.Gembc.Remember.{Store, pool_of, gen_of, remember_card, write_pointer}

-- `sizes` has the words of the object at an address, and 0 where there is none; objects do not overlap.
abbrev pub Disjoint : (ℕ → ℕ) → Type 0
Disjoint sizes = (a b i j : ℕ) → a ≢ b → i < sizes a → j < sizes b → word_at a i ≢ word_at b j

-- An object with a reference to a younger generation is in a card that is remembered.
abbrev pub Remembered : (ℕ → ℕ) → Store → Type 0
Remembered sizes s =
    (a i : ℕ)
    → i < sizes a
    → s.memory (word_at a i) ≢ null
    → gen_of s (s.memory (word_at a i)) < gen_of s a
    → (s.pools (pool_of a)).remember (card_of a) ≡ 1

remember_card-gen : (p : GenPool) (card : ℕ) → (remember_card p card).gen ≡ p.gen
remember_card-gen p card = elim (Bool-cases (ltb 0 p.gen)) [ inl e ↦ rw e refl | inr e ↦ rw e refl ]

remember_card-stays :
    (p : GenPool) (card c : ℕ) → p.remember c ≡ 1 → (remember_card p card).remember c ≡ 1
remember_card-stays p card c h = elim (Bool-cases (ltb 0 p.gen)) [
  | inl e ↦ rw e (ground (arith, h))
  | inr e ↦ rw e h
]

remember_card-sets : (p : GenPool) (card : ℕ) → 0 < p.gen → (remember_card p card).remember card ≡ 1
remember_card-sets p card old =
    let e : ltb 0 p.gen ≡ true = ground (arith, old) in rw e (ground arith)

module _ (object member value : ℕ) (s : Store) where
  same_gen : (b : ℕ) → ((write_pointer object member value s).pools b).gen ≡ (s.pools b).gen
  unfolding write_pointer
  same_gen b = elim (Bool-cases (b == pool_of object)) [
    | inl e ↦ rw e (remember_card-gen (s.pools b) (card_of object))
    | inr e ↦ rw e refl
  ]

  stays :
      (b c : ℕ)
      → (s.pools b).remember c ≡ 1
      → ((write_pointer object member value s).pools b).remember c ≡ 1
  unfolding write_pointer
  stays b c h = elim (Bool-cases (b == pool_of object)) [
    | inl e ↦ rw e (remember_card-stays (s.pools b) (card_of object) c h)
    | inr e ↦ rw e h
  ]

  own_card :
      0 < gen_of s object
      → ((write_pointer object member value s).pools (pool_of object)).remember (card_of object) ≡ 1
  unfolding write_pointer
  own_card old =
      let e : (pool_of object == pool_of object) ≡ true = ground arith in
      rw e (remember_card-sets (s.pools (pool_of object)) (card_of object) old)

  other_word :
      (x : ℕ)
      → x ≢ word_at object member
      → (write_pointer object member value s).memory x ≡ s.memory x
  unfolding write_pointer
  other_word x ne = ground arith

  -- Let the objects not overlap, and every object with a reference to a younger generation be in a remembered card.
  -- After GGGGC_WP has written any value to a member of an object this holds again.
  pub write_pointer-Remembered :
      (sizes : ℕ → ℕ)
      → Disjoint sizes
      → member < sizes object
      → Remembered sizes s
      → Remembered sizes (write_pointer object member value s)
  write_pointer-Remembered sizes disjoint inside h a i lt real younger =
      elim (Bool-cases (a == object)) [
        | inl e ↦
            let at : a ≡ object = ground (arith, e) in
            let old : 0 < gen_of s object =
              omega (arith, younger, same_gen (pool_of a), ap (gen_of s) at) in
            subst
              (λ b.
                ((write_pointer object member value s).pools (pool_of b)).remember (card_of b) ≡ 1)
              (sym at) (own_card old)
        | inr e ↦
            let t = write_pointer object member value s in
            let ne : a ≢ object = λ q. ground (arith, e, q) in
            let same = other_word (word_at a i) (disjoint a object i member ne lt inside) in
            let gens : gen_of t (t.memory (word_at a i)) ≡ gen_of s (s.memory (word_at a i)) =
              ap (gen_of t) same ∙ same_gen (pool_of (s.memory (word_at a i))) in
            stays (pool_of a) (card_of a)
              (h a i lt (λ z. real (same ∙ z)) (omega (arith, younger, gens, same_gen (pool_of a))))
      ]
