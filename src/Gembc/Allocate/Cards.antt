-- ===== src/Gembc/Allocate/Cards.antt =====
-- The card table: from the start of a card the collector finds an object.
use ggggc.Base.{
  ℕ, ◌+◌, ◌-◌, ◌*◌, ◌/◌, ◌%◌, ◌≤◌, ◌<◌, ◌≡◌, refl, sym, ap, ◌∙◌, ◌⊎◌, inl, inr, true, false, not,
  ◌&&◌, List, [], ◌∷◌, arith, ltb, leb, ◌==◌, if◌then◌else◌, Bool-cases,
}
use ggggc.Heap.{Memory, word_at, word_bytes}
use ggggc.Gembc.Allocate.{
  pool_bytes, card_bytes, card_of, word_in_card, GenPool, set_card, new_pool_gen, has_room,
  take_gen1,
}

-- `a` is one of the addresses.
abbrev pub Among : ℕ → List ℕ → Type 0
Among a [] = ⊥
Among a (x ∷ xs) = (a ≡ x) ⊎ Among a xs

-- the address that a card's entry in `firstObject` names
abbrev pub recorded : (first_object : ℕ → ℕ) → (base a : ℕ) → ℕ
recorded first_object base a = base + card_bytes * card_of a + word_bytes * first_object (card_of a)

-- The entry for the card of `a` names one of the addresses, in the same card and not behind `a`.
abbrev pub Named : (first_object : ℕ → ℕ) → (base : ℕ) → (starts : List ℕ) → ℕ → Type 0
Named f base starts a =
    Among (recorded f base a) starts
    × (card_of (recorded f base a) ≡ card_of a)
    × (recorded f base a ≤ a)

-- A pool in its `pool_bytes` at `base`, where `starts` are its words where an object starts and its first free one,
-- which is the last of them. The card of each of them that is inside the pool names one of them.
pub record Cards (base : ℕ) (p : GenPool) (starts : List ℕ) : Type 0 where
  pub aligned : base % pool_bytes ≡ 0
  pub words : p.free % word_bytes ≡ 0
  pub begins : base ≤ p.start
  pub within : p.end ≤ base + pool_bytes
  pub free : Among p.free starts
  pub last : (a : ℕ) → Among a starts → (p.start ≤ a) × (a ≤ p.free)
  pub named : (a : ℕ) → Among a starts → a < p.end → Named p.first_object base starts a

-- a word of the pool is where its card and its place in the card say
in_card :
    (base a : ℕ)
    → base % pool_bytes ≡ 0
    → base ≤ a
    → a < base + pool_bytes
    → a % word_bytes ≡ 0
    → base + card_bytes * card_of a + word_bytes * word_in_card a ≡ a
in_card base a aligned from to words = omega (arith, aligned, words)

card_le :
    (base a b : ℕ)
    → base % pool_bytes ≡ 0
    → base ≤ a
    → a ≤ b
    → b < base + pool_bytes
    → card_of a ≤ card_of b
card_le base a b aligned from le to = omega (arith, aligned)

Named-at :
    (f : ℕ → ℕ) (base a r : ℕ) (starts : List ℕ)
    → recorded f base a ≡ r
    → Among r starts
    → card_of r ≡ card_of a
    → r ≤ a
    → Named f base starts a
Named-at f base a r starts is among card le = rw is (among, card, le)

recorded-set :
    (f : ℕ → ℕ) (base t : ℕ)
    → base % pool_bytes ≡ 0
    → base ≤ t
    → t < base + pool_bytes
    → t % word_bytes ≡ 0
    → recorded (set_card f (card_of t) (word_in_card t)) base t ≡ t
recorded-set f base t aligned from to words =
    let self : (card_of t == card_of t) ≡ true = ground arith in
    ap
      (λ b.
        base + card_bytes * card_of t + word_bytes * (if b then word_in_card t else f (card_of t)))
      self
    ∙ in_card base t aligned from to words

recorded-other :
    (f : ℕ → ℕ) (base t a v : ℕ)
    → (card_of a == card_of t) ≡ false
    → recorded (set_card f (card_of t) v) base a ≡ recorded f base a
recorded-other f base t a v other =
    ap (λ b. base + card_bytes * card_of a + word_bytes * (if b then v else f (card_of a))) other

-- A pool that ggggc_newPoolGen made has one entry, for the card of its start.
pub new_pool_gen-Cards :
    (base gen : ℕ) (p : GenPool)
    → base % pool_bytes ≡ 0
    → p.start % word_bytes ≡ 0
    → base ≤ p.start
    → p.end ≤ base + pool_bytes
    → p.free ≡ p.start
    → Cards base (new_pool_gen gen p) (p.start ∷ [])
new_pool_gen-Cards base gen p aligned words begins within empty = record {
  aligned = aligned;
  words = rw empty words;
  begins = begins;
  within = within;
  free = inl empty;
  last = λ a is. ground (arith, is, empty);
  named = λ a is lt. elim is [
    | inr none_else ↦ absurd none_else
    | inl e ↦
        Named-at (new_pool_gen gen p).first_object base a p.start (p.start ∷ [])
          (ap (recorded (new_pool_gen gen p).first_object base) e
            ∙ recorded-set p.first_object base p.start aligned begins (omega (arith, e)) words)
          (inl refl) (ap card_of (sym e)) (omega (arith, e))
  ];
}

apart : (x y z : ℕ) → x ≤ y → y ≤ z → (y == z) ≡ false → (x == z) ≡ false
apart x y z p q ne = ground arith

same_card : (x y t end : ℕ) → (not (x == y) && ltb t end) ≡ false → t < end → y ≡ x
same_card x y t end test inside = ground arith

module _ (base size : ℕ) (p : GenPool) (starts : List ℕ) (c : Cards base p starts)
    (some_words : 1 ≤ size) (room : word_at p.free size ≤ p.end) where
  taken_last :
      (a : ℕ) → Among a (word_at p.free size ∷ starts) → (p.start ≤ a) × (a ≤ word_at p.free size)
  taken_last a (inl e) =
      let (from, to) = c.last p.free c.free in (omega (arith, e), omega (arith, e))
  taken_last a (inr is) = let (from, to) = c.last a is in (from, omega arith)

  Named-more :
      (f : ℕ → ℕ) (a : ℕ) → Named f base starts a → Named f base (word_at p.free size ∷ starts) a
  Named-more f a (among, card, le) = (inr among, card, le)

  -- The new object ends in another card, and there is space behind it.
  new_card-Named :
      (a : ℕ)
      → (card_of p.free == card_of (word_at p.free size)) ≡ false
      → word_at p.free size < p.end
      → Among a (word_at p.free size ∷ starts)
      → a < p.end
      → Named
          (set_card p.first_object
            (card_of (word_at p.free size))
            (word_in_card (word_at p.free size)))
          base
          (word_at p.free size ∷ starts)
          a
  new_card-Named a passed inside (inl e) lt =
      let t = word_at p.free size in
      let from = (c.last p.free c.free).0 in
      let f = set_card p.first_object (card_of t) (word_in_card t) in
      Named-at f base a t (t ∷ starts)
        (ap (recorded f base) e
          ∙ recorded-set p.first_object base t c.aligned (omega (arith, c.begins, from))
              (omega (arith, e, c.within)) (omega (arith, c.words)))
        (inl refl) (ap card_of (sym e)) (omega (arith, e))
  new_card-Named a passed inside (inr is) lt =
      let t = word_at p.free size in
      let (from, to) = c.last a is in
      let before =
        card_le base a p.free c.aligned (omega (arith, c.begins)) to (omega (arith, c.within)) in
      let behind =
        card_le base p.free t c.aligned (omega (arith, c.begins, from, to)) (omega arith)
          (omega (arith, c.within, inside)) in
      let f = set_card p.first_object (card_of t) (word_in_card t) in
      let same =
        recorded-other p.first_object base t a (word_in_card t)
          (apart (card_of a) (card_of p.free) (card_of t) before behind passed) in
      let (among, card, le) = c.named a is lt in
      Named-at f base a (recorded p.first_object base a) (t ∷ starts) same (inr among) card le

  -- It ends in the same card, or at the end of the pool.
  old_card-Named :
      (a : ℕ)
      → (not (card_of p.free == card_of (word_at p.free size)) && ltb (word_at p.free size) p.end)
        ≡ false
      → Among a (word_at p.free size ∷ starts)
      → a < p.end
      → Named p.first_object base (word_at p.free size ∷ starts) a
  old_card-Named a test (inr is) lt = Named-more p.first_object a (c.named a is lt)
  old_card-Named a test (inl e) lt =
      let t = word_at p.free size in
      let same : card_of a ≡ card_of p.free =
        ap card_of e ∙ same_card (card_of p.free) (card_of t) t p.end test (omega (arith, e)) in
      let (among, card, le) = c.named p.free c.free (omega (arith, e)) in
      Named-at p.first_object base a (recorded p.first_object base p.free) (t ∷ starts)
        (ap (λ k. base + card_bytes * k + word_bytes * p.first_object k) same) (inr among)
        (card ∙ sym same) (omega (arith, e))

pub fits :
    (free end size : ℕ) → 1 ≤ size → leb size ((end - free) / 8) ≡ true → free + 8 * size ≤ end
fits free end size some_words room = ground arith

passes : (x y t end : ℕ) → (not (x == y) && ltb t end) ≡ true → ((x == y) ≡ false) × (t < end)
passes x y t end test = ground arith

-- Take a pool of a generation above 0 whose cards are in order: for each place inside the pool where an object or
-- the free space starts, the entry of its card names such a place, in the same card and not behind it.
-- If the pool has room for an object of one word or more, ggggc_mallocGen1 takes the object at the first
-- free word, and the cards are in order again, with the new first free word among the places.
pub take_gen1-Cards :
    (base size : ℕ) (m : Memory) (p : GenPool) (starts : List ℕ)
    → Cards base p starts
    → 1 ≤ size
    → has_room size p ≡ true
    → Cards base (take_gen1 size m p).1 (word_at p.free size ∷ starts)
take_gen1-Cards base size m p starts c some_words room =
    let inside = fits p.free p.end size some_words room in
    let t = word_at p.free size in
    elim (Bool-cases (not (card_of p.free == card_of t) && ltb t p.end)) [
      | inl new_card ↦
          let (passed, more) = passes (card_of p.free) (card_of t) t p.end new_card in
          rw new_card (record {
            aligned = c.aligned;
            words = omega (arith, c.words);
            begins = c.begins;
            within = c.within;
            free = inl refl;
            last = taken_last base size p starts c some_words inside;
            named = λ a is lt.
                new_card-Named base size p starts c some_words inside a passed more is lt;
          })
      | inr old_card ↦ rw old_card (record {
        aligned = c.aligned;
        words = omega (arith, c.words);
        begins = c.begins;
        within = c.within;
        free = inl refl;
        last = taken_last base size p starts c some_words inside;
        named = λ a is lt. old_card-Named base size p starts c some_words inside a old_card is lt;
      })
    ]
