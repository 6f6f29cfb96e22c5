-- ===== src/Collections/Maps/Rehash.antt =====
-- The growth of a map: every key is found as before, in a table of twice the size.
use ggggc.Base.{
  ℕ, zero, suc, ◌+◌, ◌%◌, ◌≤◌, ◌<◌, ◌≡◌, refl, sym, ap, ◌∙◌, ◌≢◌, ◌⊎◌, inl, inr, true, false, none,
  some, [], ◌∷◌, arith, ◌==◌, if◌then◌else◌, Bool-cases,
}
use ggggc.Base.{ℤ}
use mathlib.Core.Path.{subst}
use ggggc.Heap.{null}
use ggggc.Collections.Maps.{MapEntry, Chain, Entries, set_chain, same, search, rehash_chain, rehash}
use ggggc.Collections.Maps.Find.{
  IsMapKey, or_else, Placed, Unique, same_equal, equal_same, search_last-search, Placed-elsewhere,
  equal_of, pushed, rehash_chain-search,
}

module _ (hash : ℕ → ℕ) (cmp : ℕ → ℕ → ℤ) where
  -- Every entry is in the chain of its hash, and no key is there twice.
  abbrev pub InPlace : (size : ℕ) → Entries → Type 0
  InPlace size a = (i : ℕ) → i < size → Placed hash cmp size i (a i) × Unique hash cmp (a i)

  -- no entry of the chain is in the table that is filled
  abbrev New : (n : ℕ) → Entries → Chain → Type 0
  New n a [] = Unit
  New n a (e ∷ t) = (search hash cmp (a (hash e.key % n)) e.key ≡ none) × New n a t

  abbrev pub FilledInPlace : (n : ℕ) → Entries → Type 0
  FilledInPlace n a = (i : ℕ) → Placed hash cmp n i (a i) × Unique hash cmp (a i)

  module _ (laws : IsMapKey hash cmp) where
    New-all :
        (n size i : ℕ) (a : Entries) (c : Chain)
        → ((k : ℕ) → hash k % size ≡ i → search hash cmp (a (hash k % n)) k ≡ none)
        → Placed hash cmp size i c
        → New n a c
    New-all n size i a [] none_there p = tt
    New-all n size i a (e ∷ t) none_there (at, real, p) =
        (none_there e.key at, New-all n size i a t none_there p)

    not_same :
        (e x : MapEntry)
        → x.key ≢ null
        → same hash cmp e.key x ≡ false
        → same hash cmp x.key e ≡ false
    not_same e x real no_match = elim (Bool-cases (same hash cmp x.key e)) [
      | inr q ↦ q
      | inl q ↦ absurd (
          cc (
            sym no_match
            ∙ equal_same hash cmp laws e.key x real
            ∙ laws.symmetric x.key e.key (same_equal hash cmp laws x.key e q)))
    ]

    New-pushed :
        (n size i : ℕ) (a : Entries) (e : MapEntry) (t : Chain)
        → e.key ≢ null
        → search hash cmp t e.key ≡ none
        → Placed hash cmp size i t
        → New n a t
        → New n (set_chain a (hash e.key % n) (e ∷ a (hash e.key % n))) t
    New-pushed n size i a e [] real new p h = tt
    New-pushed n size i a e (x ∷ t) real new (at, x_real, p) (none_there, h) =
        elim (Bool-cases (same hash cmp e.key x)) [
          | inl q ↦
              absurd
                (cc (sym (ap (λ b. if b then some x.value else search hash cmp t e.key) q) ∙ new))
          | inr q ↦ (
            pushed hash cmp laws n a e x.key ∙ rw (not_same e x x_real q, none_there) refl,
            New-pushed n size i a e t real
                (sym (ap (λ b. if b then some x.value else search hash cmp t e.key) q) ∙ new) p h,
          )
        ]

    pushed-InPlace :
        (n : ℕ) (a : Entries) (e : MapEntry)
        → e.key ≢ null
        → search hash cmp (a (hash e.key % n)) e.key ≡ none
        → FilledInPlace n a
        → FilledInPlace n (set_chain a (hash e.key % n) (e ∷ a (hash e.key % n)))
    pushed-InPlace n a e real new filled i = elim (Bool-cases (i == hash e.key % n)) [
      | inl here ↦
          let at = hash e.key % n in
          let b = set_chain a at (e ∷ a at) in
          let self : (at == at) ≡ true = ground arith in
          subst (λ j. Placed hash cmp n j (b j) × Unique hash cmp (b j)) (sym (equal_of i at here))
            (rw self ((refl, real, (filled at).0), (new, (filled at).1)))
      | inr there ↦ rw there (filled i)
    ]

    rehash_chain-InPlace :
        (n size i : ℕ) (c : Chain) (a : Entries)
        → Placed hash cmp size i c
        → Unique hash cmp c
        → New n a c
        → FilledInPlace n a
        → FilledInPlace n (rehash_chain hash cmp n c a)
    rehash_chain-InPlace n size i [] a p u new filled = filled
    rehash_chain-InPlace n size i (e ∷ t) a (at, real, p) (own, u) (none_there, new) filled =
        rehash_chain-InPlace n size i t (set_chain a (hash e.key % n) (e ∷ a (hash e.key % n))) p u
          (New-pushed n size i a e t real own p new) (pushed-InPlace n a e real none_there filled)

    -- the chains from `i` on
    pub rehash-InPlace :
        (new_size size n i : ℕ) (old a : Entries)
        → i + n ≤ size
        → InPlace size old
        → FilledInPlace new_size a
        → ((k : ℕ) → i ≤ hash k % size → search hash cmp (a (hash k % new_size)) k ≡ none)
        → FilledInPlace new_size (rehash hash cmp new_size n i old a)
    unfolding rehash
    rehash-InPlace new_size size zero i old a le old_in filled later_none = filled
    rehash-InPlace new_size size (suc n) i old a le old_in filled later_none =
        let (p, u) = old_in i (omega arith) in
        rehash-InPlace new_size size n (i + 1) old (rehash_chain hash cmp new_size (old i) a)
          (omega arith) old_in
          (rehash_chain-InPlace new_size size i (old i) a p u
            (New-all new_size size i a (old i) (λ k at. later_none k (omega arith)) p) filled)
          (λ k later.
            rehash_chain-search hash cmp laws new_size (old i) a k
            ∙ rw
                (
                  search_last-search hash cmp laws (old i) k u,
                  Placed-elsewhere hash cmp laws size i k (old i) p (λ e. omega arith),
                  later_none k (omega arith),
                )
                refl)

    -- A key whose chain is not among those from `i` on is found as in the table that is filled.
    rehash-others :
        (new_size size n i : ℕ) (old a : Entries) (k : ℕ)
        → i + n ≤ size
        → InPlace size old
        → (hash k % size < i) ⊎ (i + n ≤ hash k % size)
        → search hash cmp (rehash hash cmp new_size n i old a (hash k % new_size)) k
          ≡ search hash cmp (a (hash k % new_size)) k
    unfolding rehash
    rehash-others new_size size zero i old a k le old_in out = refl
    rehash-others new_size size (suc n) i old a k le old_in out =
        let (p, u) = old_in i (omega arith) in
        rehash-others new_size size n (i + 1) old (rehash_chain hash cmp new_size (old i) a) k
          (omega arith) old_in (ground (arith, out))
        ∙ rehash_chain-search hash cmp laws new_size (old i) a k
        ∙ rw
            (
              search_last-search hash cmp laws (old i) k u,
              Placed-elsewhere hash cmp laws size i k (old i) p (λ e. ground (arith, out, e)),
            )
            refl

    pub rehash-search :
        (new_size size n i : ℕ) (old a : Entries) (k : ℕ)
        → i + n ≤ size
        → InPlace size old
        → i ≤ hash k % size
        → hash k % size < i + n
        → search hash cmp (rehash hash cmp new_size n i old a (hash k % new_size)) k
          ≡ or_else
              (search hash cmp (old (hash k % size)) k)
              (search hash cmp (a (hash k % new_size)) k)
    unfolding rehash
    rehash-search new_size size zero i old a k le old_in from below = absurd (omega arith)
    rehash-search new_size size (suc n) i old a k le old_in from below =
        let (p, u) = old_in i (omega arith) in
        let b = rehash_chain hash cmp new_size (old i) a in
        let one = rehash_chain-search hash cmp laws new_size (old i) a k in
        elim (Bool-cases (hash k % size == i)) [
          | inl here ↦
              let at = equal_of (hash k % size) i here in
              rehash-others new_size size n (i + 1) old b k (omega arith) old_in
                (inl (omega (arith, at)))
              ∙ one
              ∙ ap (λ o. or_else o (search hash cmp (a (hash k % new_size)) k))
                  (search_last-search hash cmp laws (old i) k u
                    ∙ ap (λ j. search hash cmp (old j) k) (sym at))
          | inr there ↦
              rehash-search new_size size n (i + 1) old b k (omega arith) old_in
                (ground (arith, there)) (omega arith)
              ∙ ap (or_else (search hash cmp (old (hash k % size)) k)) (
                  one
                  ∙ rw
                      (
                        search_last-search hash cmp laws (old i) k u,
                        Placed-elsewhere hash cmp laws size i k (old i) p
                            (λ e. ground (arith, there, e)),
                      )
                      refl)
        ]
