-- ===== src/Gembc/Compact/Follow.antt =====
-- The break table leads from the old place of every word to the new one.
use ggggc.Base.{
  ℕ, zero, suc, ◌-◌, ◌≤◌, ◌<◌, ◌≡◌, refl, sym, ap, ◌∙◌, ◌⊎◌, inl, inr, Option, some, List, [], ◌∷◌,
  arith, leb, Bool-cases, length, get_elem?,
}
use mathlib.Core.List.{Permᴰ}
use ggggc.Heap.{Memory, word_at}
use ggggc.BreakTable.{BreakTableEl, Outcome, found, absent, find_break_table_entry}
use ggggc.BreakTable.Search.{AllAbove, IsSorted, Locates, find_break_table_entry-Locates}
use ggggc.Gembc.Compact.{follow_entry, follow_compacted}
use ggggc.Gembc.Compact.Layout.{Run, used_at, behind, Layout, moves}

abbrev pub Belongs : BreakTableEl → List BreakTableEl → Type 0
Belongs e [] = ⊥
Belongs e (x ∷ t) = (x ≡ e) ⊎ Belongs e t

pub Belongs-Perm :
    (e : BreakTableEl) {s t : List BreakTableEl} → Permᴰ s t → Belongs e s → Belongs e t
Belongs-Perm a Permᴰ.nil h = h
Belongs-Perm a (Permᴰ.cons e p) (inl q) = inl (sym e ∙ q)
Belongs-Perm a (Permᴰ.cons e p) (inr h) = inr (Belongs-Perm a p h)
Belongs-Perm a (Permᴰ.swap e f) (inl q) = inr (inl (sym e ∙ q))
Belongs-Perm a (Permᴰ.swap e f) (inr (inl q)) = inl (sym f ∙ q)
Belongs-Perm a (Permᴰ.swap e f) (inr (inr h)) = inr (inr h)
Belongs-Perm a (Permᴰ.trans p q) h = Belongs-Perm a q (Belongs-Perm a p h)

pub Perm-length : {s t : List BreakTableEl} → Permᴰ s t → length s ≡ length t
Perm-length Permᴰ.nil = refl
Perm-length (Permᴰ.cons e p) = ap suc (Perm-length p)
Perm-length (Permᴰ.swap e f) = refl
Perm-length (Permᴰ.trans p q) = Perm-length p ∙ Perm-length q

at_Belongs :
    (t : List BreakTableEl) (i : ℕ) (e : BreakTableEl) → get_elem? t i ≡ some e → Belongs e t
at_Belongs [] i e at = cc at
at_Belongs (x ∷ t) zero e at = inl (cc at)
at_Belongs (x ∷ t) (suc i) e at = inr (at_Belongs t i e at)

Belongs-at :
    (t : List BreakTableEl) (e : BreakTableEl) → Belongs e t → (i : ℕ) × (get_elem? t i ≡ some e)
Belongs-at [] e h = absurd h
Belongs-at (x ∷ t) e (inl q) = (0, ap some q)
Belongs-at (x ∷ t) e (inr h) = let (i, at) = Belongs-at t e h in (suc i, at)

above_at :
    (o : ℕ) (t : List BreakTableEl) (i : ℕ) (e : BreakTableEl)
    → AllAbove o t
    → get_elem? t i ≡ some e
    → o ≤ e.orig
above_at o [] i e all at = cc at
above_at o (x ∷ t) zero e (le, all) at = let q : x ≡ e = cc at in omega (arith, ap (λ b. b.orig) q)
above_at o (x ∷ t) (suc i) e (le, all) at = above_at o t i e all at

sorted_at :
    (t : List BreakTableEl) (j i : ℕ) (e e' : BreakTableEl)
    → IsSorted t
    → j ≤ i
    → get_elem? t j ≡ some e'
    → get_elem? t i ≡ some e
    → e'.orig ≤ e.orig
sorted_at [] j i e e' sorted le at' at = cc at
sorted_at (x ∷ t) zero zero e e' sorted le at' at =
    let q : e' ≡ e = cc (at, at') in omega (arith, ap (λ b. b.orig) q)
sorted_at (x ∷ t) zero (suc i) e e' (all, sorted) le at' at =
    let q : x ≡ e' = cc at' in omega (arith, above_at x.orig t i e all at, ap (λ b. b.orig) q)
sorted_at (x ∷ t) (suc j) zero e e' sorted le at' at = absurd (omega arith)
sorted_at (x ∷ t) (suc j) (suc i) e e' (all, sorted) le at' at =
    sorted_at t j i e e' sorted (omega arith) at' at

-- What following `loc` gives: nothing moved at or below it, or it goes by the last entry at or below it.
pub data Follows (t : List BreakTableEl) (loc : ℕ) : Type 0 where
  stays :
      follow_compacted t loc ≡ some loc
      → ((e : BreakTableEl) → Belongs e t → loc < e.orig)
      → Follows t loc
  goes :
      (e : BreakTableEl)
      → follow_compacted t loc ≡ some (loc - (e.orig - e.new_l))
      → Belongs e t
      → e.orig ≤ loc
      → ((e' : BreakTableEl) → Belongs e' t → e'.orig ≤ loc → e'.orig ≤ e.orig)
      → Follows t loc

located :
    (t : List BreakTableEl) (loc : ℕ) (o : Outcome)
    → IsSorted t
    → find_break_table_entry t loc ≡ o
    → Locates t loc o
    → Follows t loc
unfolding follow_compacted
located t loc (found i) sorted is (e, at, le, last) =
    goes e (ap (follow_entry t loc) is ∙ rw (at, follow_entry) refl) (at_Belongs t i e at) le
      (λ e' h le'.
        let (j, at') = Belongs-at t e' h in
        elim (Bool-cases (leb j i)) [
          | inl before ↦ sorted_at t j i e e' sorted (ground arith) at' at
          | inr after ↦ absurd (omega (arith, last j e' (ground arith) at'))
        ])
located t loc absent sorted is none_below =
    stays (ap (follow_entry t loc) is) (λ e h. let (j, at) = Belongs-at t e h in none_below j e at)
located t loc _ sorted is no_such = absurd no_such

pub Follows-sorted : (t : List BreakTableEl) (loc : ℕ) → IsSorted t → Follows t loc
Follows-sorted t loc sorted =
    located t loc (find_break_table_entry t loc) sorted refl
      (find_break_table_entry-Locates t loc sorted)

-- Each used word leads to its new place.
abbrev pub Leads : (ℕ → Option ℕ) → (free c : ℕ) → List Run → Type 0
Leads f free c [] = Unit
Leads f free c (k ∷ ks) =
    ((j : ℕ) → j < k.used → f (word_at (used_at c k) j) ≡ some (word_at free j))
    × Leads f (word_at free k.used) (behind c k) ks

pub moves-above :
    (free c : ℕ) (ks : List Run) (e : BreakTableEl) → Belongs e (moves free c ks) → c ≤ e.orig
moves-above free c [] e h = absurd h
moves-above free c (k ∷ ks) e (inl q) = omega (arith, ap (λ b. b.orig) q)
moves-above free c (k ∷ ks) e (inr h) =
    omega (arith, moves-above (word_at free k.used) (behind c k) ks e h)

module _ (t : List BreakTableEl) (sorted : IsSorted t) where
  word_leads :
      (free c : ℕ) (k : Run) (ks : List Run)
      → free ≤ c
      → ((e : BreakTableEl) → Belongs e t → (e.orig < c) ⊎ Belongs e (moves free c (k ∷ ks)))
      → Belongs (record { orig = used_at c k; new_l = free }) t
      → (j : ℕ) → j < k.used
      → follow_compacted t (word_at (used_at c k) j) ≡ some (word_at free j)
  word_leads free c k ks le only own j lt =
      elim (Follows-sorted t (word_at (used_at c k) j) sorted) [
        | stays is none_below ↦ absurd (omega (arith, none_below _ own))
        | goes e is h below last ↦
            let least : used_at c k ≤ e.orig = last _ own (omega arith) in
            elim (only e h) [
              | inl old ↦ absurd (omega arith)
              | inr x ↦ elim x [
                | inl q ↦ is ∙ ap some (omega (arith, ap (λ b. b.orig) q, ap (λ b. b.new_l) q))
                | inr later ↦
                    absurd
                      (omega (arith, moves-above (word_at free k.used) (behind c k) ks e later))
              ]
            ]
      ]

  pub follow-Leads :
      (m : Memory) (end free c : ℕ) (ks : List Run)
      → Layout m c end ks
      → free ≤ c
      → ((e : BreakTableEl) → Belongs e t → (e.orig < c) ⊎ Belongs e (moves free c ks))
      → ((e : BreakTableEl) → Belongs e (moves free c ks) → Belongs e t)
      → Leads (follow_compacted t) free c ks
  follow-Leads m end free c [] layout le only all = tt
  follow-Leads m end free c (k ∷ ks) (u, w, a, some_used, l, layout) le only all = (
    word_leads free c k ks le only (all _ (inl refl)),
    follow-Leads m end (word_at free k.used) (behind c k) ks layout (omega arith)
        (λ e h. elim (only e h) [
          | inl old ↦ inl (omega arith)
          | inr x ↦ elim x [
            | inl q ↦ inl (omega (arith, ap (λ b. b.orig) q, some_used))
            | inr later ↦ inr later
          ]
        ])
        (λ e h. all e (inr h)),
  )
