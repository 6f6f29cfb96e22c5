-- ===== src/Gembc/CountUsed/Chunks.antt =====
-- The two kinds of chunks: the loops find where they end.
use ggggc.Base.{
  ℕ, zero, suc, ◌+◌, ◌*◌, ◌<◌, ◌≡◌, refl, ap, ◌∙◌, ◌≢◌, true, false, Option, none, some, List, [],
  ◌∷◌, arith, ltb, length, Gives, Gives-mono,
}
use ggggc.Base.{bind}
use ggggc.Heap.{Memory, write, size_of, word_at}
use ggggc.Gembc.CountUsed.{is_marked, unmark, follow_forwarded, used_chunk, unused_chunk}
use ggggc.Gembc.CountUsed.Blocks.{
  Block, used, unused, size, size_word, Blocks, Blocks-le, Intact, followed, used_front,
  behind_used, unused_front,
}

pub write_self : (m : Memory) (a v : ℕ) → write m a v a ≡ v
write_self m a v = ground arith

pub write_other : (m : Memory) (a v x : ℕ) → x ≢ a → write m a v x ≡ m x
write_other m a v x ne = ground arith

module _ (Fixed : ℕ → Type 0) (hops : ℕ) (m : Memory) (free : ℕ) where
  pub bind-Gives :
      {A B : Type 0} (o : Option A) (k : A → Option B) (r : Option B)
      → Gives (λ a. k a ≡ r) o
      → bind o k ≡ r
  bind-Gives none k r h = absurd h
  bind-Gives (some a) k r h = h

  inside :
      (a : ℕ) (bs : List Block) (b : Block) (cs : List Block)
      → bs ≡ b ∷ cs
      → Blocks Fixed hops m free a (b ∷ cs)
      → ltb a free ≡ true
  inside a bs b cs is (at, apart, h) =
      ground (arith, apart.0, Blocks-le Fixed hops m free (word_at a (size b)) cs h)

  pub unused_chunk-end :
      (fuel a : ℕ) (m' : Memory) (bs : List Block)
      → length bs < fuel
      → Blocks Fixed hops m free a bs
      → Intact Fixed hops m m' a
      → unused_chunk hops fuel free a m' ≡ some (word_at a (unused_front bs))
  unfolding unused_chunk
  unused_chunk-end zero a m' bs enough h intact = absurd (omega arith)
  unused_chunk-end (suc fuel) a m' [] enough (at, apart) intact =
      let out : ltb a free ≡ false = ground (arith, at) in
      let here : a ≡ a + 8 * 0 = omega arith in rw out (ap some here)
  unused_chunk-end (suc fuel) a m' (used n ∷ bs) enough ((mark, fix, is), apart, h) intact =
      let test : is_marked (m' a) ≡ true = ap is_marked (intact.later a (omega arith)) ∙ mark in
      let here : a ≡ a + 8 * 0 = omega arith in
      rw (inside a (used n ∷ bs) (used n) bs refl ((mark, fix, is), apart, h), test) (ap some here)
  unused_chunk-end (suc fuel) a m' (unused n ts ∷ bs) enough ((mark, f, far), apart, h) intact =
      let same = intact.later a (omega arith) in
      let test : is_marked (m' a) ≡ false = ap is_marked same ∙ mark in
      let more : word_at (word_at a n) (unused_front bs) ≡ word_at a (n + unused_front bs) =
        omega arith in
      rw (inside a (unused n ts ∷ bs) (unused n ts) bs refl ((mark, f, far), apart, h), test)
        (bind-Gives (follow_forwarded hops m' a) _ (some (word_at a (n + unused_front bs))) (
          Gives-mono (follow_forwarded hops m' a)
            (λ o is. rw is (
              unused_chunk-end fuel (word_at a n) m' bs (omega arith) h
                (record { later = λ x le. intact.later x (omega arith); fixed = intact.fixed })
              ∙ ap some more))
            (followed Fixed hops m m' a ts n hops far same intact.fixed f)))

  -- The used blocks at the front are no longer marked.
  abbrev pub UnmarkedFront : Memory → ℕ → List Block → Type 0
  UnmarkedFront t a [] = Unit
  UnmarkedFront t a (used n ∷ bs) = (t a ≡ unmark (m a)) × UnmarkedFront t (word_at a n) bs
  UnmarkedFront t a (unused n ts ∷ bs) = Unit

  -- What the unmarking of a used chunk at `a` leaves.
  pub record Used (a : ℕ) (bs : List Block) (m' : Memory) (end : ℕ) (t : Memory) : Type 0 where
    pub at_end : end ≡ word_at a (used_front bs)
    pub rest : Blocks Fixed hops m free end (behind_used bs)
    pub intact : Intact Fixed hops m t end
    pub below : (x : ℕ) → x < a → t x ≡ m' x
    pub unmarked : UnmarkedFront t a bs

  pub used_chunk-Used :
      (fuel a : ℕ) (m' : Memory) (bs : List Block)
      → length bs < fuel
      → Blocks Fixed hops m free a bs
      → Intact Fixed hops m m' a
      → Gives (λ r. Used a bs m' r.0 r.1) (used_chunk fuel free a m')
  unfolding used_chunk
  used_chunk-Used zero a m' bs enough h intact = absurd (omega arith)
  used_chunk-Used (suc fuel) a m' [] enough (at, apart) intact =
      let out : ltb a free ≡ false = ground (arith, at) in
      rw out (record {
        at_end = omega arith;
        rest = (at, apart);
        intact = intact;
        below = λ x lt. refl;
        unmarked = tt;
      })
  used_chunk-Used (suc fuel) a m' (unused n ts ∷ bs) enough ((mark, f, far), apart, h) intact =
      let test : is_marked (m' a) ≡ false = ap is_marked (intact.later a (omega arith)) ∙ mark in
      rw (inside a (unused n ts ∷ bs) (unused n ts) bs refl ((mark, f, far), apart, h), test)
        (record {
          at_end = omega arith;
          rest = ((mark, f, far), apart, h);
          intact = intact;
          below = λ x lt. refl;
          unmarked = tt;
        })
  used_chunk-Used (suc fuel) a m' (used n ∷ bs) enough ((mark, fix, is), apart, h) intact =
      let same = intact.later a (omega arith) in
      let test : is_marked (m' a) ≡ true = ap is_marked same ∙ mark in
      let m1 = write m' a (unmark (m' a)) in
      let self : m1 a ≡ unmark (m a) = write_self m' a (unmark (m' a)) ∙ ap unmark same in
      let fixed : (x : ℕ) → Fixed x → m1 x ≡ m x =
        λ x fx. write_other m' a (unmark (m' a)) x ((apart.1 x fx).0) ∙ intact.fixed x fx in
      let next : word_at a (size_of m1 (m1 a)) ≡ word_at a n =
        ap (word_at a) (ap (λ w. m1 (word_at w 1)) self ∙ fixed (size_word m a) fix ∙ is) in
      rw (inside a (used n ∷ bs) (used n) bs refl ((mark, fix, is), apart, h), test, next)
        (Gives-mono (used_chunk fuel free (word_at a n) m1)
          (λ r u. record {
            at_end =
                u.at_end
                ∙ (let more : word_at (word_at a n) (used_front bs)
                        ≡ word_at a (n + used_front bs) =
                      omega arith in
                    more);
            rest = u.rest;
            intact = u.intact;
            unmarked = (u.below a (omega (arith, apart.0)) ∙ self, u.unmarked);
            below = λ x lt.
                u.below x (omega arith)
                ∙ write_other m' a (unmark (m' a)) x (λ e. omega (arith, e));
          })
          (used_chunk-Used fuel (word_at a n) m1 bs (omega arith) h (record {
            later = λ x le.
                write_other m' a (unmark (m' a)) x (λ e. omega (arith, apart.0, e))
                ∙ intact.later x (omega arith);
            fixed = fixed;
          })))
