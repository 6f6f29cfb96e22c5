-- ===== src/Gembc/CountUsed/Correct.antt =====
-- The whole of ggggc_countUsed.
use ggggc.Base.{
  ℕ, zero, suc, ◌+◌, ◌-◌, ◌/◌, ◌%◌, ◌≤◌, ◌<◌, ◌≡◌, refl, sym, ap, ◌∙◌, ◌≢◌, inl, inr, true, false,
  List, [], ◌∷◌, arith, leb, Bool-cases, length, Gives, Gives-mono,
}
use ggggc.Base.{Gives-bind}
use mathlib.Core.Path.{subst}
use ggggc.Heap.{Memory, write, word_at}
use ggggc.Gembc.Compact.Layout.{Layout}
use ggggc.Gembc.CountUsed.{used_chunk, or_end, count_loop, count_used}
use ggggc.Gembc.CountUsed.Blocks.{
  Block, used, unused, Blocks, Blocks-le, Intact, used_front, behind_used, unused_front,
  behind_unused, runs,
}
use ggggc.Gembc.CountUsed.Chunks.{write_self, write_other, unused_chunk-end, Used, used_chunk-Used}
use ggggc.Gembc.CountUsed.Fronts.{
  StartsUnused, behind_used-StartsUnused, behind_unused-length, behind_used-length,
  runs-behind_used, runs-none, behind_unused-cases, runs-first, behind_unused-Blocks,
  unused_front-apart, Unmarked, Unmarked-behind_unused, Unmarked-behind_used,
}

module _ (Fixed : ℕ → Type 0) (hops : ℕ) (m : Memory) (free end : ℕ) (ordered : free ≤ end) where
  -- What the loop leaves, from the unused chunk at `a` on.
  pub record Counted (a : ℕ) (bs : List Block) (m' t : Memory) : Type 0 where
    pub layout : Layout t a end (runs bs)
    pub below : (x : ℕ) → x < a → t x ≡ m' x
    pub unmarked : Unmarked Fixed hops m free t a bs
    pub fixed : (x : ℕ) → Fixed x → t x ≡ m x

  -- the end of the pool: its last words are not used
  last-Counted :
      (a : ℕ) (bs : List Block) (m' : Memory)
      → StartsUnused bs
      → Blocks Fixed hops m free a bs
      → Intact Fixed hops m m' a
      → behind_unused bs ≡ []
      → a < end
      → (end - a) % 8 ≡ 0
      → Counted a bs m' (write m' a ((end - a) / 8))
  last-Counted a bs m' starts h intact none_used inside words = record {
    layout = rw (runs-none bs starts none_used) (
        inr (
          inside,
          ap (word_at a) (write_self m' a ((end - a) / 8)) ∙ omega (arith, inside, words),
        ));
    below = λ x lt. write_other m' a ((end - a) / 8) x (λ e. omega (arith, e));
    unmarked = Unmarked-behind_unused Fixed hops m free (write m' a ((end - a) / 8)) a bs (
        subst
          (Unmarked Fixed hops m free (write m' a ((end - a) / 8)) (word_at a (unused_front bs)))
          (sym none_used) tt);
    fixed = λ x fx.
        write_other m' a ((end - a) / 8) x (not_first a bs starts h x fx) ∙ intact.fixed x fx;
  }
    where
      not_first :
          (a : ℕ) (bs : List Block)
          → StartsUnused bs
          → Blocks Fixed hops m free a bs
          → (x : ℕ) → Fixed x
          → x ≢ a
      not_first a [] starts h x fx = h.1 x fx
      not_first a (used n ∷ bs) starts h x fx = absurd starts
      not_first a (unused n ts ∷ bs) starts h x fx = (h.1.1 x fx).0

  -- One unused chunk and the used one behind it, when the rest is counted.
  module _ (a : ℕ) (bs : List Block) (m' : Memory) (k : ℕ) (cs : List Block)
      (starts : StartsUnused bs) (h : Blocks Fixed hops m free a bs)
      (intact : Intact Fixed hops m m' a) (first : behind_unused bs ≡ used k ∷ cs) where
    next : ℕ
    next = word_at a (unused_front bs)

    sized : Memory
    sized = write m' a ((next - a) / 8)

    apart :
        (3 ≤ unused_front bs)
        × ((x : ℕ) → Fixed x → (x ≢ a) × (x ≢ word_at a (unused_front bs) - 8))
    apart = go bs starts h first
      where
        go :
            (bs : List Block)
            → StartsUnused bs
            → Blocks Fixed hops m free a bs
            → behind_unused bs ≡ used k ∷ cs
            → (3 ≤ unused_front bs)
              × ((x : ℕ) → Fixed x → (x ≢ a) × (x ≢ word_at a (unused_front bs) - 8))
        go [] starts h first = cc first
        go (used n ∷ bs) starts h first = absurd starts
        go (unused n ts ∷ bs) starts h first = unused_front-apart Fixed hops m free a n ts bs h

    used_behind : Blocks Fixed hops m free (word_at a (unused_front bs)) (behind_unused bs)
    used_behind = behind_unused-Blocks Fixed hops m free a bs h

    some_used : 1 ≤ used_front (behind_unused bs)
    some_used = go (behind_unused bs) used_behind first
      where
        go :
            (ds : List Block)
            → Blocks Fixed hops m free (word_at a (unused_front bs)) ds
            → ds ≡ used k ∷ cs
            → 1 ≤ used_front ds
        go [] b e = cc e
        go (used n ∷ ds) b e = omega (arith, b.1.0)
        go (unused n ts ∷ ds) b e = cc e

    sized-Intact : Intact Fixed hops m sized next
    unfolding sized next
    sized-Intact = record {
      later = λ x le.
          write_other m' a ((next - a) / 8) x (λ e. omega (arith, e, apart.0))
          ∙ intact.later x (omega arith);
      fixed = λ x fx. write_other m' a ((next - a) / 8) x ((apart.1 x fx).0) ∙ intact.fixed x fx;
    }

    module _ (e : ℕ) (t : Memory)
        (u : Used Fixed hops m free next (behind_unused bs) sized e t) where
      both : Memory
      both = write t (next - 8) ((e - next) / 8)

      both-other : (x : ℕ) → x ≢ next - 8 → both x ≡ t x
      unfolding both
      both-other x ne = write_other t (next - 8) ((e - next) / 8) x ne

      both-Intact : Intact Fixed hops m both e
      unfolding next
      both-Intact = record {
        later =
            λ x le. both-other x (λ q. omega (arith, q, u.at_end, apart.0)) ∙ u.intact.later x le;
        fixed = λ x fx. both-other x ((apart.1 x fx).1) ∙ u.intact.fixed x fx;
      }

      round-Counted :
          (t' : Memory) → Counted e (behind_used (behind_unused bs)) both t' → Counted a bs m' t'
      unfolding next sized both
      round-Counted t' rest =
          let bs' = behind_unused bs in
          let unused_size : t' a ≡ unused_front bs =
            rest.below a (omega (arith, u.at_end, apart.0))
            ∙ both-other a (λ q. omega (arith, q, apart.0))
            ∙ u.below a (omega (arith, apart.0))
            ∙ write_self m' a ((word_at a (unused_front bs) - a) / 8)
            ∙ omega arith in
          let used_size : t' (word_at a (unused_front bs) - 8) ≡ used_front bs' =
            rest.below (word_at a (unused_front bs) - 8)
              (omega (arith, u.at_end, apart.0, some_used))
            ∙ write_self t (word_at a (unused_front bs) - 8) ((e - word_at a (unused_front bs)) / 8)
            ∙ omega (arith, u.at_end) in
          record {
            layout = subst (Layout t' a end) (sym (runs-first bs k cs starts first)) (
              unused_size,
              used_size,
              apart.0,
              some_used,
              omega (
                arith,
                u.at_end,
                Blocks-le Fixed hops m free e (behind_used bs') u.rest,
                ordered,
              ),
              subst (λ x. Layout t' x end (runs (behind_used bs'))) u.at_end rest.layout,
            );
            below = λ x lt.
                rest.below x (omega (arith, u.at_end))
                ∙ both-other x (λ q. omega (arith, q, apart.0))
                ∙ u.below x (omega arith)
                ∙ write_other m' a ((word_at a (unused_front bs) - a) / 8) x
                    (λ q. omega (arith, q));
            unmarked = Unmarked-behind_unused Fixed hops m free t' a bs (
                Unmarked-behind_used Fixed hops m free t t' (word_at a (unused_front bs)) bs'
                  used_behind
                  (λ x le lt.
                    rest.below x (omega (arith, u.at_end))
                    ∙ both-other x (λ q. omega (arith, q, le, apart.0)))
                  u.unmarked
                  (subst (λ x. Unmarked Fixed hops m free t' x (behind_used bs')) u.at_end
                    rest.unmarked));
            fixed = rest.fixed;
          }

  no-Blocks : (a : ℕ) (bs : List Block) → Blocks Fixed hops m free a bs → end ≤ a → bs ≡ []
  no-Blocks a [] h le = refl
  no-Blocks a (b ∷ bs) h le =
      absurd (omega (arith, Blocks-le Fixed hops m free a (b ∷ bs) h, ordered))

  end-Counted :
      (a : ℕ) (bs : List Block) (m' : Memory)
      → Blocks Fixed hops m free a bs
      → Intact Fixed hops m m' a
      → a ≡ end
      → Counted a bs m' m'
  end-Counted a bs m' h intact at =
      subst (λ ds. Counted a ds m' m') (sym (no-Blocks a bs h (omega (arith, at))))
        (record { layout = inl at; below = λ x lt. refl; unmarked = tt; fixed = intact.fixed })

  fewer :
      (bs : List Block) (k : ℕ) (cs : List Block)
      → behind_unused bs ≡ used k ∷ cs
      → length (behind_used (behind_unused bs)) < length bs
  fewer bs k cs first = omega (
    arith,
    ap (λ ds. length (behind_used ds)) first,
    ap length first,
    behind_unused-length bs,
    behind_used-length cs,
  )

  pub count_loop-Counted :
      (fuel a : ℕ) (bs : List Block) (m' : Memory)
      → length bs + 1 < fuel
      → StartsUnused bs
      → Blocks Fixed hops m free a bs
      → Intact Fixed hops m m' a
      → a < end
      → (end - a) % 8 ≡ 0
      → Gives (Counted a bs m') (count_loop hops fuel free end a m')
  unfolding count_loop next sized both
  count_loop-Counted zero a bs m' enough starts h intact inside words = absurd (omega arith)
  count_loop-Counted (suc fuel) a bs m' enough starts h intact inside words =
      rw (unused_chunk-end Fixed hops m free fuel a m' bs (omega arith) h intact)
        (elim (behind_unused-cases bs) [
          | inl none_used ↦
              let b =
                subst (Blocks Fixed hops m free (word_at a (unused_front bs))) none_used
                  (behind_unused-Blocks Fixed hops m free a bs h) in
              let next_end : or_end hops free end (word_at a (unused_front bs)) ≡ end =
                ground (arith, b.0) in
              let stop : leb end end ≡ true = ground arith in
              rw (next_end, stop) (last-Counted a bs m' starts h intact none_used inside words)
          | inr (k, cs, first) ↦
              let b =
                subst (Blocks Fixed hops m free (word_at a (unused_front bs))) first
                  (behind_unused-Blocks Fixed hops m free a bs h) in
              let before : word_at a (unused_front bs) < free = omega (
                arith,
                Blocks-le Fixed hops m free (word_at a (unused_front bs)) (used k ∷ cs) b,
              ) in
              let next_used : or_end hops free end (word_at a (unused_front bs))
                  ≡ word_at a (unused_front bs) =
                ground (arith, before) in
              let go_on : leb end (word_at a (unused_front bs)) ≡ false =
                ground (arith, before, ordered) in
              rw (next_used, go_on)
                (Gives-bind (Counted a bs m')
                  (used_chunk fuel free (next a bs m' k cs starts h intact first)
                    (sized a bs m' k cs starts h intact first))
                  _
                  (λ r u.
                    let left : Blocks Fixed hops m free r.0 (behind_used (behind_unused bs)) =
                      u.rest in
                    let join = round-Counted a bs m' k cs starts h intact first r.0 r.1 u in
                    let kept = both-Intact a bs m' k cs starts h intact first r.0 r.1 u in
                    let low =
                      Blocks-le Fixed hops m free r.0 (behind_used (behind_unused bs)) left in
                    elim (Bool-cases (leb end r.0)) [
                      | inl stop ↦
                          let at : r.0 ≡ end = ground (arith, stop, low, ordered) in
                          rw stop (
                            join _
                              (end-Counted r.0 (behind_used (behind_unused bs)) _ left kept at))
                      | inr more ↦ rw more (
                          Gives-mono
                            (count_loop hops fuel free end r.0
                              (both a bs m' k cs starts h intact first r.0 r.1 u))
                            (λ t' d. join t' d)
                            (count_loop-Counted fuel r.0 (behind_used (behind_unused bs)) _
                              (omega (arith, fewer bs k cs first))
                              (behind_used-StartsUnused (behind_unused bs)) left kept
                              (ground (arith, more)) (omega (arith, u.at_end, words))))
                    ])
                  (used_chunk-Used Fixed hops m free fuel (next a bs m' k cs starts h intact first)
                    (sized a bs m' k cs starts h intact first) (behind_unused bs)
                    (omega (arith, behind_unused-length bs))
                    (used_behind a bs m' k cs starts h intact first)
                    (sized-Intact a bs m' k cs starts h intact first)))
        ])

-- What ggggc_countUsed leaves of a pool with the objects `bs`: the words of the used ones at its start, and the memory.
pub record IsCounted (Fixed : ℕ → Type 0) (hops : ℕ) (start free end : ℕ) (bs : List Block)
    (m : Memory) (r : ℕ × Memory) : Type 0 where
  pub first : r.0 ≡ used_front bs
  pub layout : Layout r.1 (word_at start r.0) end (runs bs)
  pub unmarked : Unmarked Fixed hops m free r.1 start bs
  pub fixed : (x : ℕ) → Fixed x → r.1 x ≡ m x
  pub below : (x : ℕ) → x < start → r.1 x ≡ m x

whole-IsCounted :
    (Fixed : ℕ → Type 0) (hops start free end : ℕ) (ordered : free ≤ end) (bs : List Block)
    (m : Memory) (r : ℕ × Memory) (t : Memory)
    → Blocks Fixed hops m free start bs
    → Used Fixed hops m free start bs m r.0 r.1
    → Counted Fixed hops m free end ordered r.0 (behind_used bs) r.1 t
    → IsCounted Fixed hops start free end bs m ((r.0 - start) / 8, t)
whole-IsCounted Fixed hops start free end ordered bs m r t h u d =
    let size : (r.0 - start) / 8 ≡ used_front bs = omega (arith, u.at_end) in
    let at : r.0 ≡ word_at start ((r.0 - start) / 8) = omega (arith, u.at_end) in
    record {
      first = size;
      layout =
          subst (λ x. Layout t x end (runs bs)) at
            (subst (Layout t r.0 end) (runs-behind_used bs) d.layout);
      unmarked =
          Unmarked-behind_used Fixed hops m free r.1 t start bs h
            (λ x le lt. d.below x (omega (arith, u.at_end))) u.unmarked
            (subst (λ x. Unmarked Fixed hops m free t x (behind_used bs)) u.at_end d.unmarked);
      fixed = d.fixed;
      below = λ x lt. d.below x (omega (arith, u.at_end)) ∙ u.below x lt;
    }

-- Take a pool whose objects fill it up to its free space, each marked or not. Let the words that say how large they
-- are, and those of the forwarding pointers behind an unmarked object's own one, be no header and no last
-- word of an object of the pool; and let the chains of forwarding pointers be shorter than their fuel.
-- Then ggggc_countUsed ends within its fuel. It returns the size of the used chunk at the start, and from there
-- to the end of the pool the sizes of all chunks stand where ggggc_compact looks for them, neighbours of
-- one kind taken together. All marks are gone, and the words that say how large the objects are stay.
pub count_used-IsCounted :
    (Fixed : ℕ → Type 0) (hops start free end : ℕ) (bs : List Block) (m : Memory)
    → Blocks Fixed hops m free start bs
    → free ≤ end
    → (end - start) % 8 ≡ 0
    → Gives (IsCounted Fixed hops start free end bs m) (count_used hops start free end m)
unfolding count_used
count_used-IsCounted Fixed hops start free end bs m h ordered words =
    let low = Blocks-le Fixed hops m free start bs h in
    Gives-bind (IsCounted Fixed hops start free end bs m)
      (used_chunk (suc (suc (end - start))) free start m) _
      (λ r u.
        let whole =
          λ (t : Memory). whole-IsCounted Fixed hops start free end ordered bs m r t h u in
        let far = Blocks-le Fixed hops m free r.0 (behind_used bs) u.rest in
        elim (Bool-cases (leb end r.0)) [
          | inl stop ↦
              let at : r.0 ≡ end = ground (arith, stop, far, ordered) in
              rw stop (
                whole r.1 (
                  end-Counted Fixed hops m free end ordered r.0 (behind_used bs) r.1 u.rest u.intact
                    at))
          | inr more ↦ rw more (
              Gives-bind (IsCounted Fixed hops start free end bs m)
                (count_loop hops (suc (suc (end - start))) free end r.0 r.1) _ (λ t d. whole t d)
                (count_loop-Counted Fixed hops m free end ordered (suc (suc (end - start))) r.0
                  (behind_used bs) r.1 (omega (arith, low, ordered, behind_used-length bs))
                  (behind_used-StartsUnused bs) u.rest u.intact (ground (arith, more))
                  (omega (arith, u.at_end, words))))
        ])
      (used_chunk-Used Fixed hops m free (suc (suc (end - start))) start m bs
        (omega (arith, low, ordered)) h (record { later = λ x le. refl; fixed = λ x fx. refl }))
