-- ===== src/Gembc/CountUsed/Fronts.antt =====
-- The blocks of a pool, taken apart into the unused ones at the front, the used ones behind them, and the rest.
use ggggc.Base.{
  ℕ, ◌+◌, ◌-◌, ◌≤◌, ◌<◌, ◌≡◌, refl, sym, ap, ◌∙◌, ◌≢◌, ◌⊎◌, inl, inr, List, [], ◌∷◌, arith, length,
}
use mathlib.Core.Path.{subst}
use ggggc.Heap.{Memory, word_at}
use ggggc.Gembc.CountUsed.{unmark}
use ggggc.Gembc.CountUsed.Blocks.{
  Block, used, unused, Blocks, used_front, behind_used, unused_front, behind_unused, runs, widen,
}
use ggggc.Gembc.CountUsed.Chunks.{UnmarkedFront}

-- the blocks from one that is not used on
abbrev pub StartsUnused : List Block → Type 0
StartsUnused [] = Unit
StartsUnused (used n ∷ bs) = ⊥
StartsUnused (unused n ts ∷ bs) = Unit

pub behind_used-StartsUnused : (bs : List Block) → StartsUnused (behind_used bs)
behind_used-StartsUnused [] = tt
behind_used-StartsUnused (used n ∷ bs) = behind_used-StartsUnused bs
behind_used-StartsUnused (unused n ts ∷ bs) = tt

pub behind_unused-length : (bs : List Block) → length (behind_unused bs) ≤ length bs
behind_unused-length [] = omega arith
behind_unused-length (used n ∷ bs) = omega arith
behind_unused-length (unused n ts ∷ bs) = omega (arith, behind_unused-length bs)

pub behind_used-length : (bs : List Block) → length (behind_used bs) ≤ length bs
behind_used-length [] = omega arith
behind_used-length (used n ∷ bs) = omega (arith, behind_used-length bs)
behind_used-length (unused n ts ∷ bs) = omega arith

pub runs-behind_used : (bs : List Block) → runs (behind_used bs) ≡ runs bs
runs-behind_used [] = refl
runs-behind_used (used n ∷ bs) = runs-behind_used bs
runs-behind_used (unused n ts ∷ bs) = refl

pub runs-none : (bs : List Block) → StartsUnused bs → behind_unused bs ≡ [] → runs bs ≡ []
runs-none [] starts e = refl
runs-none (used n ∷ bs) starts e = absurd starts
runs-none (unused n ts ∷ []) starts e = refl
runs-none (unused n ts ∷ used k ∷ bs) starts e = cc e
runs-none (unused n ts ∷ unused k us ∷ bs) starts e =
    ap (widen n) (runs-none (unused k us ∷ bs) tt e)

-- Behind the unused blocks at the front there is nothing or a used block.
pub behind_unused-cases :
    (bs : List Block)
    → (behind_unused bs ≡ []) ⊎ ((k : ℕ) × (cs : List Block) × (behind_unused bs ≡ used k ∷ cs))
behind_unused-cases [] = inl refl
behind_unused-cases (used n ∷ bs) = inr (n, bs, refl)
behind_unused-cases (unused n ts ∷ bs) = behind_unused-cases bs

pub runs-first :
    (bs : List Block) (k : ℕ) (cs : List Block)
    → StartsUnused bs
    → behind_unused bs ≡ used k ∷ cs
    → runs bs
      ≡ record { unused = unused_front bs; used = used_front (behind_unused bs) }
        ∷ runs (behind_used (behind_unused bs))
runs-first [] k cs starts e = cc e
runs-first (used n ∷ bs) k cs starts e = absurd starts
runs-first (unused n ts ∷ []) k cs starts e = cc e
runs-first (unused n ts ∷ used j ∷ bs) k cs starts e =
    let z : n ≡ n + 0 = omega arith in
    ap (λ u. record { unused = u; used = j + used_front bs } ∷ runs bs) z
    ∙ ap (λ r. record { unused = n + 0; used = j + used_front bs } ∷ r) (sym (runs-behind_used bs))
runs-first (unused n ts ∷ unused j us ∷ bs) k cs starts e =
    ap (widen n) (runs-first (unused j us ∷ bs) k cs tt e)

module _ (Fixed : ℕ → Type 0) (hops : ℕ) (m : Memory) (free : ℕ) where
  pub behind_unused-Blocks :
      (a : ℕ) (bs : List Block)
      → Blocks Fixed hops m free a bs
      → Blocks Fixed hops m free (word_at a (unused_front bs)) (behind_unused bs)
  behind_unused-Blocks a [] h =
      let here : a ≡ word_at a 0 = omega arith in subst (λ x. Blocks Fixed hops m free x []) here h
  behind_unused-Blocks a (used n ∷ bs) h =
      let here : a ≡ word_at a 0 = omega arith in
      subst (λ x. Blocks Fixed hops m free x (used n ∷ bs)) here h
  behind_unused-Blocks a (unused n ts ∷ bs) (at, apart, h) =
      let there : word_at (word_at a n) (unused_front bs) ≡ word_at a (n + unused_front bs) =
        omega arith in
      subst (λ x. Blocks Fixed hops m free x (behind_unused bs)) there
        (behind_unused-Blocks (word_at a n) bs h)

  -- The unused words at the front are three or more, and what is fixed is not their first nor their last.
  pub unused_front-apart :
      (a n : ℕ) (ts : List ℕ) (bs : List Block)
      → Blocks Fixed hops m free a (unused n ts ∷ bs)
      → (3 ≤ unused_front (unused n ts ∷ bs))
        × ((x : ℕ) → Fixed x → (x ≢ a) × (x ≢ word_at a (unused_front (unused n ts ∷ bs)) - 8))
  unused_front-apart a n ts [] (at, (words, apart), h) =
      (omega arith, λ x fx. ((apart x fx).0, λ e. (apart x fx).1 (e ∙ omega arith)))
  unused_front-apart a n ts (used k ∷ bs) (at, (words, apart), h) =
      (omega arith, λ x fx. ((apart x fx).0, λ e. (apart x fx).1 (e ∙ omega arith)))
  unused_front-apart a n ts (unused k us ∷ bs) (at, (words, apart), h) =
      let (more, away) = unused_front-apart (word_at a n) k us bs h in
      (omega arith, λ x fx. ((apart x fx).0, λ e. (away x fx).1 (e ∙ omega arith)))

  -- All used blocks are no longer marked.
  abbrev pub Unmarked : Memory → ℕ → List Block → Type 0
  Unmarked t a [] = Unit
  Unmarked t a (used n ∷ bs) = (t a ≡ unmark (m a)) × Unmarked t (word_at a n) bs
  Unmarked t a (unused n ts ∷ bs) = Unmarked t (word_at a n) bs

  pub Unmarked-behind_unused :
      (t : Memory) (a : ℕ) (bs : List Block)
      → Unmarked t (word_at a (unused_front bs)) (behind_unused bs)
      → Unmarked t a bs
  Unmarked-behind_unused t a [] h = tt
  Unmarked-behind_unused t a (used n ∷ bs) h =
      let here : word_at a 0 ≡ a = omega arith in subst (λ x. Unmarked t x (used n ∷ bs)) here h
  Unmarked-behind_unused t a (unused n ts ∷ bs) h =
      let there : word_at a (n + unused_front bs) ≡ word_at (word_at a n) (unused_front bs) =
        omega arith in
      Unmarked-behind_unused t (word_at a n) bs
        (subst (λ x. Unmarked t x (behind_unused bs)) there h)

  pub Unmarked-behind_used :
      (t t' : Memory) (a : ℕ) (bs : List Block)
      → Blocks Fixed hops m free a bs
      → ((x : ℕ) → a ≤ x → x < word_at a (used_front bs) → t' x ≡ t x)
      → UnmarkedFront Fixed hops m free t a bs
      → Unmarked t' (word_at a (used_front bs)) (behind_used bs)
      → Unmarked t' a bs
  Unmarked-behind_used t t' a [] b same u h = tt
  Unmarked-behind_used t t' a (used n ∷ bs) (at, (words, apart), b) same (own, u) h =
      let there : word_at a (n + used_front bs) ≡ word_at (word_at a n) (used_front bs) =
        omega arith in
      (
        same a (omega arith) (omega arith) ∙ own,
        Unmarked-behind_used t t' (word_at a n) bs b (λ x le lt. same x (omega arith) (omega arith))
            u (subst (λ x. Unmarked t' x (behind_used bs)) there h),
      )
  Unmarked-behind_used t t' a (unused n ts ∷ bs) b same u h =
      let here : word_at a 0 ≡ a = omega arith in
      subst (λ x. Unmarked t' x (unused n ts ∷ bs)) here h
