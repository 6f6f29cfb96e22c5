-- ===== src/Pools/Expand/Grown.antt =====
-- The pools that are put behind a list.
use mathlib.Core.List.{append_assoc, append-nil}
use ggggc.Base.{apart}
use ggggc.Base.{
  ℕ, zero, suc, ◌≡◌, refl, ◌≢◌, inl, inr, Bool, true, false, List, [], ◌∷◌, ◌++◌, arith, ◌==◌,
  Bool-cases, sym, ◌∙◌, ◌||◌, has, Distinct,
}
use mathlib.Core.Path.{subst}
use ggggc.Heap.{null}
use ggggc.Pools.{set}
use ggggc.Pools.Queue.{
  Leads, last, Leads-set, Leads-link, last-append, has-last, has-append, Distinct-append, set_self,
}
use ggggc.Pools.Expand.{add_pools, take}

-- What newPool gives: pools that are not there yet, each once.
abbrev pub AreNew : (ps given : List ℕ) → Type 0
AreNew ps [] = Unit
AreNew ps (p ∷ given) = (p ≢ null) × (has p ps ≡ false) × AreNew (ps ++ p ∷ []) given

pub only :
    (p : ℕ) (xs : List ℕ) → has p xs ≡ false → (a : ℕ) → has a xs ≡ true → has a (p ∷ []) ≡ false
only p xs out a is_in = elim (Bool-cases (a == p)) [
  | inl e ↦ let same : a ≡ p = ground arith in absurd (apart (λ b. has b xs) a p is_in out same)
  | inr ne ↦ rw ne refl
]

-- All pools that are given, as far as they are asked for, are put behind the last one.
pub add_pools-Leads :
    (n : ℕ) (given : List ℕ) (x : ℕ) (ps : List ℕ) (next : ℕ → ℕ) (pool : ℕ)
    → Leads next pool (x ∷ ps) null
    → Distinct (x ∷ ps)
    → AreNew (x ∷ ps) given
    → Leads (add_pools n (last (x ∷ ps)) given next) pool ((x ∷ ps) ++ take n given) null
unfolding add_pools take
add_pools-Leads zero given x ps next pool l d new = rw append-nil l
add_pools-Leads (suc n) [] x ps next pool l d new =
    Leads-link next pool null (x ∷ ps) [] (λ e. cc e) d (λ a h. refl) l refl
add_pools-Leads (suc n) (p ∷ given) x ps next pool l d (real, out, new) =
    let next' = set next p null in
    let apart = only p (x ∷ ps) out in
    let linked =
      Leads-link next' pool p (x ∷ ps) (p ∷ []) (λ e. cc e) d apart
        (Leads-set next p null pool null (x ∷ ps) out l) (refl, real, set_self next p null) in
    let rest =
      add_pools-Leads n given x (ps ++ p ∷ []) (set next' (last (x ∷ ps)) p) pool linked
        (Distinct-append (x ∷ ps) (p ∷ []) d (refl, tt) apart) new in
    subst (λ l. Leads (add_pools n p given (set next' (last (x ∷ ps)) p)) pool l null)
      (append_assoc (x ∷ ps) (p ∷ []) (take n given))
      (subst
        (λ q.
          Leads (add_pools n q given (set next' (last (x ∷ ps)) p)) pool
            (((x ∷ ps) ++ p ∷ []) ++ take n given) null)
        (last-append (x ∷ ps) p []) rest)

-- Only the last pool and those that are put behind it have another next pool.
add_pools-next :
    (n pool : ℕ) (given : List ℕ) (next : ℕ → ℕ) (a : ℕ)
    → (a == pool) ≡ false
    → has a (take n given) ≡ false
    → add_pools n pool given next a ≡ next a
unfolding add_pools take
add_pools-next zero pool given next a behind out = refl
add_pools-next (suc n) pool [] next a behind out = rw behind refl
add_pools-next (suc n) pool (p ∷ given) next a behind out =
    let other : (a == p) ≡ false = ground (arith, out) in
    let rest : has a (take n given) ≡ false = ground (arith, out) in
    add_pools-next n p given (set (set next p null) pool p) a other rest ∙ rw (behind, other) refl

not_last : (a x : ℕ) (ps : List ℕ) → has a (x ∷ ps) ≡ false → (a == last (x ∷ ps)) ≡ false
not_last a x ps out = elim (Bool-cases (a == last (x ∷ ps))) [
  | inr other ↦ other
  | inl e ↦
      let same : last (x ∷ ps) ≡ a = ground arith in
      absurd (apart (λ b. has b (x ∷ ps)) (last (x ∷ ps)) a (has-last x ps) out same)
]

or_left : (b c : Bool) → (b || c) ≡ false → b ≡ false
or_left true c e = e
or_left false c e = refl

or_right : (b c : Bool) → (b || c) ≡ false → c ≡ false
or_right true c e = cc e
or_right false c e = e

-- The pools that are in none of the lists have the next pool they had.
pub add_pools-other :
    (n : ℕ) (given : List ℕ) (x : ℕ) (ps : List ℕ) (next : ℕ → ℕ) (a : ℕ)
    → has a ((x ∷ ps) ++ take n given) ≡ false
    → add_pools n (last (x ∷ ps)) given next a ≡ next a
add_pools-other n given x ps next a out =
    let split : (has a (x ∷ ps) || has a (take n given)) ≡ false =
      sym (has-append a (x ∷ ps) (take n given)) ∙ out in
    add_pools-next n (last (x ∷ ps)) given next a
      (not_last a x ps (or_left (has a (x ∷ ps)) (has a (take n given)) split))
      (or_right (has a (x ∷ ps)) (has a (take n given)) split)
