-- ===== src/Collections/Maps/Clone.antt =====
-- GGC_MapClone: the clone has the same entries.
use ggggc.Base.{
  ℕ, zero, suc, ◌+◌, ◌%◌, ◌≤◌, ◌<◌, ◌≡◌, refl, sym, ap, ◌∙◌, ◌≢◌, inl, inr, true, [], ◌∷◌, arith,
  ◌==◌, Bool-cases,
}
use ggggc.Base.{ℤ}
use ggggc.Collections.Maps.{
  Chain, Entries, Map, new_entries, map_get, clone_chain, copy_chain, clone_entries, map_clone,
}
use ggggc.Collections.Maps.Find.{equal_of}

clone_chain-same : (c : Chain) → clone_chain c ≡ c
clone_chain-same [] = refl
clone_chain-same (e ∷ t) = ap (λ l. e ∷ l) (clone_chain-same t)

copy_chain-other :
    (c : Chain) (i : ℕ) (new : Entries) (j : ℕ) → j ≢ i → copy_chain c i new j ≡ new j
copy_chain-other [] i new j ne = refl
copy_chain-other (e ∷ t) i new j ne = ground (arith, ne)

copy_chain-here : (c : Chain) (i : ℕ) (new : Entries) → new i ≡ [] → copy_chain c i new i ≡ c
copy_chain-here [] i new empty = empty
copy_chain-here (e ∷ t) i new empty =
    let self : (i == i) ≡ true = ground arith in rw self (clone_chain-same (e ∷ t))

clone_entries-before :
    (n i : ℕ) (old new : Entries) (j : ℕ) → j < i → clone_entries n i old new j ≡ new j
unfolding clone_entries
clone_entries-before zero i old new j lt = refl
clone_entries-before (suc n) i old new j lt =
    clone_entries-before n (i + 1) old (copy_chain (old i) i new) j (omega arith)
    ∙ copy_chain-other (old i) i new j (λ e. omega (arith, e))

clone_entries-same :
    (n i : ℕ) (old new : Entries) (j : ℕ)
    → ((k : ℕ) → i ≤ k → new k ≡ [])
    → i ≤ j
    → j < i + n
    → clone_entries n i old new j ≡ old j
unfolding clone_entries
clone_entries-same zero i old new j empty from below = absurd (omega arith)
clone_entries-same (suc n) i old new j empty from below = elim (Bool-cases (j == i)) [
  | inl here ↦
      let at = equal_of j i here in
      clone_entries-before n (i + 1) old (copy_chain (old i) i new) j (omega (arith, at))
      ∙ ap (copy_chain (old i) i new) at
      ∙ copy_chain-here (old i) i new (empty i (omega arith))
      ∙ ap old (sym at)
  | inr later ↦
      clone_entries-same n (i + 1) old (copy_chain (old i) i new) j
        (λ k le. copy_chain-other (old i) i new k (λ e. omega (arith, e)) ∙ empty k (omega arith))
        (ground (arith, later)) (omega arith)
]

-- GGC_MapGet finds in the clone of a map what it finds in the map, under every key.
pub map_get-map_clone :
    (hash : ℕ → ℕ) (cmp : ℕ → ℕ → ℤ) (m : Map) (k : ℕ)
    → map_get hash cmp (map_clone m) k ≡ map_get hash cmp m k
unfolding map_get map_clone
map_get-map_clone hash cmp m k = elim (Bool-cases (m.size == 0)) [
  | inl empty ↦ rw empty refl
  | inr filled ↦ rw filled (
      rw
        (
          filled,
          clone_entries-same m.size 0 m.entries new_entries (hash k % m.size) (λ i le. refl)
              (omega arith) (ground (arith, filled)),
        )
        refl)
]
