-- ===== src/Collections/Maps/Find.antt =====
-- Chains of entries: where a key is found, and what a hash function has to do for it.
use ggggc.Base.{
  ℤ, ℕ, ◌%◌, ◌≡◌, refl, sym, ap, ◌∙◌, ◌≢◌, inl, inr, Bool, true, not, ◌&&◌, Option, none, some, [],
  ◌∷◌, arith, ◌==◌, if◌then◌else◌, Bool-cases,
}
use ggggc.Heap.{null}
use ggggc.Collections.Maps.{
  MapEntry, Chain, Entries, set_chain, is_zero, same, search, rehash_chain,
}

-- What a hash function and a comparison promise: keys that compare as equal are an equivalence, and have one hash.
pub record IsMapKey (hash : ℕ → ℕ) (cmp : ℕ → ℕ → ℤ) : Type 0 where
  pub reflexive : (a : ℕ) → is_zero (cmp a a) ≡ true
  pub symmetric : (a b : ℕ) → is_zero (cmp a b) ≡ true → is_zero (cmp b a) ≡ true
  pub transitive :
      (a b c : ℕ) → is_zero (cmp a b) ≡ true → is_zero (cmp b c) ≡ true → is_zero (cmp a c) ≡ true
  pub hashed : (a b : ℕ) → is_zero (cmp a b) ≡ true → hash a ≡ hash b

-- the first, or else the second
abbrev pub or_else : Option ℕ → Option ℕ → Option ℕ
or_else none b = b
or_else (some v) b = some v

pub or_else-none : (a : Option ℕ) → or_else a none ≡ a
or_else-none none = refl
or_else-none (some v) = refl

pub or_else_assoc : (a b c : Option ℕ) → or_else (or_else a b) c ≡ or_else a (or_else b c)
or_else_assoc none b c = refl
or_else_assoc (some v) b c = refl

abbrev pub value_if : Bool → ℕ → Option ℕ
value_if b v = if b then some v else none

and_true : (b : Bool) (k : ℕ) → k ≢ null → (not (k == null) && b) ≡ b
and_true b k real = ground (arith, real)

and_false : (b : Bool) (k : ℕ) → (not (k == null) && b) ≡ true → b ≡ true
and_false b k e = ground (arith, e)

pub equal_of : (a b : ℕ) → (a == b) ≡ true → a ≡ b
equal_of a b e = ground arith

module _ (hash : ℕ → ℕ) (cmp : ℕ → ℕ → ℤ) where
  -- all entries are in chain `i` of `size`, and have a key
  abbrev pub Placed : (size i : ℕ) → Chain → Type 0
  Placed size i [] = Unit
  Placed size i (e ∷ t) = (hash e.key % size ≡ i) × (e.key ≢ null) × Placed size i t

  -- no key is there twice
  abbrev pub Unique : Chain → Type 0
  Unique [] = Unit
  Unique (e ∷ t) = (search hash cmp t e.key ≡ none) × Unique t

  -- the value of the last entry that matches
  abbrev pub search_last : Chain → ℕ → Option ℕ
  search_last [] key = none
  search_last (e ∷ t) key = or_else (search_last t key) (value_if (same hash cmp key e) e.value)

  module _ (laws : IsMapKey hash cmp) where
    pub same_equal :
        (k : ℕ) (e : MapEntry) → same hash cmp k e ≡ true → is_zero (cmp k e.key) ≡ true
    same_equal k e h = and_false (is_zero (cmp k e.key)) e.key h

    pub equal_same :
        (k : ℕ) (e : MapEntry) → e.key ≢ null → same hash cmp k e ≡ is_zero (cmp k e.key)
    equal_same k e real = and_true (is_zero (cmp k e.key)) e.key real

    pub equal_congr :
        (k k' x : ℕ) → is_zero (cmp k k') ≡ true → is_zero (cmp k x) ≡ is_zero (cmp k' x)
    equal_congr k k' x eq = elim (Bool-cases (is_zero (cmp k x))) [
      | inl p ↦ p ∙ sym (laws.transitive k' k x (laws.symmetric k k' eq) p)
      | inr n ↦ elim (Bool-cases (is_zero (cmp k' x))) [
        | inl p ↦ laws.transitive k k' x eq p ∙ sym p
        | inr n' ↦ n ∙ sym n'
      ]
    ]

    pub search_congr :
        (t : Chain) (k k' : ℕ)
        → is_zero (cmp k k') ≡ true
        → search hash cmp t k ≡ search hash cmp t k'
    search_congr [] k k' eq = refl
    search_congr (e ∷ t) k k' eq = rw (equal_congr k k' e.key eq, search_congr t k k' eq) refl

    -- In a chain where no key is twice the last match is the first.
    pub search_last-search : (c : Chain) (k : ℕ) → Unique c → search_last c k ≡ search hash cmp c k
    search_last-search [] k u = refl
    search_last-search (e ∷ t) k (new, u) = elim (Bool-cases (same hash cmp k e)) [
      | inl p ↦
          rw (p, search_last-search t k u, search_congr t k e.key (same_equal k e p), new) refl
      | inr n ↦ rw (n, search_last-search t k u) (or_else-none (search hash cmp t k))
    ]

    pub Placed-elsewhere :
        (size i k : ℕ) (c : Chain)
        → Placed size i c
        → hash k % size ≢ i
        → search hash cmp c k ≡ none
    Placed-elsewhere size i k [] p out = refl
    Placed-elsewhere size i k (e ∷ t) (at, real, p) out = elim (Bool-cases (same hash cmp k e)) [
      | inl q ↦ absurd (out (ap (λ h. h % size) (laws.hashed k e.key (same_equal k e q)) ∙ at))
      | inr n ↦ rw n (Placed-elsewhere size i k t p out)
    ]

    pub pushed :
        (n : ℕ) (a : Entries) (e : MapEntry) (k : ℕ)
        → search hash cmp (set_chain a (hash e.key % n) (e ∷ a (hash e.key % n)) (hash k % n)) k
          ≡ or_else (value_if (same hash cmp k e) e.value) (search hash cmp (a (hash k % n)) k)
    pushed n a e k = elim (Bool-cases (same hash cmp k e)) [
      | inl p ↦
          let at : hash k % n ≡ hash e.key % n =
            ap (λ h. h % n) (laws.hashed k e.key (same_equal k e p)) in
          let here : (hash k % n == hash e.key % n) ≡ true = ground (arith, at) in rw (here, p) refl
      | inr other ↦ elim (Bool-cases (hash k % n == hash e.key % n)) [
        | inl here ↦
            rw (here, other)
              (ap (λ i. search hash cmp (a i) k)
                (sym (equal_of (hash k % n) (hash e.key % n) here)))
        | inr there ↦ rw (there, other) refl
      ]
    ]

    -- A chain that is moved: its last match goes in front of what is there.
    pub rehash_chain-search :
        (n : ℕ) (c : Chain) (a : Entries) (k : ℕ)
        → search hash cmp (rehash_chain hash cmp n c a (hash k % n)) k
          ≡ or_else (search_last c k) (search hash cmp (a (hash k % n)) k)
    rehash_chain-search n [] a k = refl
    rehash_chain-search n (e ∷ t) a k =
        rehash_chain-search n t (set_chain a (hash e.key % n) (e ∷ a (hash e.key % n))) k
        ∙ ap (or_else (search_last t k)) (pushed n a e k)
        ∙ sym (
            or_else_assoc (search_last t k) (value_if (same hash cmp k e) e.value)
              (search hash cmp (a (hash k % n)) k))
