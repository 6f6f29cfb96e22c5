-- ===== src/Collections/Maps/Put.antt =====
-- The chain that GGC_MapPut changes: the value of a key that is there, or a new entry.
use ggggc.Base.{
  ℕ, suc, ◌≡◌, refl, sym, ap, ◌∙◌, ◌≢◌, inl, inr, true, false, Option, none, some, [], ◌∷◌,
  if◌then◌else◌, Bool-cases, length,
}
use ggggc.Base.{ℤ}
use ggggc.Heap.{null}
use ggggc.Collections.Maps.{MapEntry, Chain, is_zero, same, search, update}
use ggggc.Collections.Maps.Find.{IsMapKey, Placed, Unique, same_equal, equal_same, equal_congr}

module _ (hash : ℕ → ℕ) (cmp : ℕ → ℕ → ℤ) where
  -- What `update` returns: the chain with the new value, or that the key is not there.
  abbrev pub Updated : Chain → (key value : ℕ) → Option Chain → Type 0
  Updated c key value none = search hash cmp c key ≡ none
  Updated c key value (some c') =
      ((k : ℕ)
        → search hash cmp c' k ≡ (if is_zero (cmp k key) then some value else search hash cmp c k))
      × (length c' ≡ length c)
      × ((size i : ℕ) → Placed hash cmp size i c → Placed hash cmp size i c')
      × (Unique hash cmp c → Unique hash cmp c')

  abbrev pub Keyed : Chain → Type 0
  Keyed [] = Unit
  Keyed (e ∷ t) = (e.key ≢ null) × Keyed t

  pub Placed-Keyed : (size i : ℕ) (c : Chain) → Placed hash cmp size i c → Keyed c
  Placed-Keyed size i [] p = tt
  Placed-Keyed size i (e ∷ t) (at, real, p) = (real, Placed-Keyed size i t p)

  module _ (laws : IsMapKey hash cmp) where
    equal_right : (k a b : ℕ) → is_zero (cmp a b) ≡ true → is_zero (cmp k a) ≡ is_zero (cmp k b)
    equal_right k a b eq = elim (Bool-cases (is_zero (cmp k b))) [
      | inl p ↦ laws.transitive k b a p (laws.symmetric a b eq) ∙ sym p
      | inr n ↦ elim (Bool-cases (is_zero (cmp k a))) [
        | inl p ↦ p ∙ sym (laws.transitive k a b p eq)
        | inr m ↦ m ∙ sym n
      ]
    ]

    not_equal : (a b : ℕ) → is_zero (cmp a b) ≡ false → is_zero (cmp b a) ≡ false
    not_equal a b ne = elim (Bool-cases (is_zero (cmp b a))) [
      | inl p ↦ absurd (cc (sym ne ∙ laws.symmetric b a p))
      | inr n ↦ n
    ]

    -- the entry that matches
    here-Updated :
        (e : MapEntry) (t : Chain) (key value : ℕ)
        → e.key ≢ null
        → is_zero (cmp key e.key) ≡ true
        → Updated (e ∷ t) key value (some (record e { value = value } ∷ t))
    here-Updated e t key value real eq = (
      (λ k.
          let agree : same hash cmp k e ≡ is_zero (cmp k key) =
            equal_same hash cmp laws k e real ∙ sym (equal_right k key e.key eq) in
          elim (Bool-cases (is_zero (cmp k key))) [
            | inl p ↦ rw (agree, p) refl
            | inr n ↦ rw (agree, n) refl
          ]),
      refl,
      (λ size i p. p),
      λ u. u,
    )

    later-Updated :
        (e : MapEntry) (t : Chain) (key value : ℕ) (o : Option Chain)
        → e.key ≢ null
        → is_zero (cmp key e.key) ≡ false
        → Updated t key value o
        → Updated (e ∷ t) key value (elim o [ none ↦ none | some c ↦ some (e ∷ c) ])
    later-Updated e t key value none real ne h = rw (equal_same hash cmp laws key e real, ne) h
    later-Updated e t key value (some c) real ne (found, len, place, uniq) = (
      (λ k. elim (Bool-cases (same hash cmp k e)) [
        | inl p ↦
            let apart : is_zero (cmp k key) ≡ false =
              equal_congr hash cmp laws k e.key key (same_equal hash cmp laws k e p)
              ∙ not_equal key e.key ne in
            rw (p, apart) refl
        | inr n ↦ rw n (found k)
      ]),
      ap suc len,
      (λ size i p. (p.0, p.1, place size i p.2)),
      λ u. (found e.key ∙ rw (not_equal key e.key ne) u.0, uniq u.1),
    )

    pub update-Updated :
        (c : Chain) (key value : ℕ) → Keyed c → Updated c key value (update hash cmp c key value)
    update-Updated [] key value keyed = refl
    update-Updated (e ∷ t) key value (real, keyed) = elim (Bool-cases (is_zero (cmp key e.key))) [
      | inl eq ↦ rw eq (here-Updated e t key value real eq)
      | inr ne ↦ rw ne (
          later-Updated e t key value (update hash cmp t key value) real ne
            (update-Updated t key value keyed))
    ]
