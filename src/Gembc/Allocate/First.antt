-- ===== src/Gembc/Allocate/First.antt =====
-- Allocation takes the first pool with room, from the current one on.
use mathlib.Core.List.{append-nil}
use ggggc.Base.{
  ℕ, zero, suc, ◌+◌, ◌≤◌, ◌<◌, ◌≡◌, refl, sym, ap, ◌∙◌, ◌≢◌, ◌⊎◌, inl, inr, true, false, List, [],
  ◌∷◌, ◌++◌, arith, ltb, not, ◌&&◌, ◌==◌, if◌then◌else◌, Bool-cases,
}
use mathlib.Core.Path.{subst}
use ggggc.Heap.{Memory, write, word_at}
use ggggc.Gembc.Allocate.{
  GenPool, Generation, Attempt, allocated, exhausted, has_room, retry, clear_object, take_gen0,
  take_gen1, with_pool, malloc_raw, malloc_gen1, card_of, word_in_card, set_card, pass_card,
}
use ggggc.Gembc.Allocate.Cards.{fits}

abbrev pub NoRoom : (size : ℕ) → List GenPool → Type 0
NoRoom size [] = Unit
NoRoom size (p ∷ ps) = (has_room size p ≡ false) × NoRoom size ps

-- The pools in front of the one that is taken, that one, and those behind it.
pub record Place (size : ℕ) (pools : List GenPool) : Type 0 where
  pub before : List GenPool
  pub pool : GenPool
  pub after : List GenPool
  pub here : pools ≡ before ++ pool ∷ after
  pub full : NoRoom size before
  pub room : has_room size pool ≡ true

-- What an attempt did: the first pool with room gave the object and is current, or no pool had room.
abbrev pub FirstFit :
    {A : Type 0} (size : ℕ) (take : GenPool → A × GenPool) (passed pools : List GenPool)
    → Attempt A
    → Type 0
FirstFit size take passed pools (allocated ret a g) =
    (p : Place size pools) × (ret ≡ p.pool.free)
    × (a ≡ (take p.pool).0)
    × (g ≡ record { passed = passed ++ p.before; pools = (take p.pool).1 ∷ p.after })
FirstFit size take passed pools (exhausted g) =
    NoRoom size pools × (g.passed ++ g.pools ≡ passed ++ pools)

append_one {ℓ} :
    {A : Type ℓ} (xs : List A) (y : A) (ys : List A) → (xs ++ y ∷ []) ++ ys ≡ xs ++ y ∷ ys
append_one [] y ys = refl
append_one (x ∷ xs) y ys = ap (λ l. x ∷ l) (append_one xs y ys)

module _ {A : Type 0} (size : ℕ) (take : GenPool → A × GenPool) where
  further :
      (passed : List GenPool) (p : GenPool) (ps : List GenPool) (t : Attempt A)
      → has_room size p ≡ false
      → FirstFit size take (passed ++ p ∷ []) ps t
      → FirstFit size take passed (p ∷ ps) t
  further passed p ps (allocated ret a g) full (place, at, is, gen) = (
    record {
      before = p ∷ place.before;
      pool = place.pool;
      after = place.after;
      here = ap (λ l. p ∷ l) place.here;
      full = (full, place.full);
      room = place.room;
    },
    at,
    is,
    gen
        ∙ ap (λ l. record { passed = l; pools = (take place.pool).1 ∷ place.after })
            (append_one passed p place.before),
  )
  further passed p ps (exhausted g) full (none_has, same) =
      ((full, none_has), same ∙ append_one passed p ps)

  first_here :
      (passed : List GenPool) (p : GenPool) (next : List GenPool)
      → has_room size p ≡ true
      → FirstFit size take passed
          (p ∷ next)
          (allocated p.free (take p).0 (record { passed = passed; pools = (take p).1 ∷ next }))
  first_here passed p next room = (
    record { before = []; pool = p; after = next; here = refl; full = tt; room = room },
    refl,
    refl,
    ap (λ l. record { passed = l; pools = (take p).1 ∷ next }) (sym (append-nil passed)),
  )

  pub retry-FirstFit :
      (passed pools : List GenPool) → FirstFit size take passed pools (retry size take passed pools)
  unfolding retry
  retry-FirstFit passed [] = (tt, refl)
  retry-FirstFit passed (p ∷ []) = elim (Bool-cases (has_room size p)) [
    | inl room ↦ rw room (first_here passed p [] room)
    | inr full ↦ rw full ((full, tt), refl)
  ]
  retry-FirstFit passed (p ∷ q ∷ qs) = elim (Bool-cases (has_room size p)) [
    | inl room ↦ rw room (first_here passed p (q ∷ qs) room)
    | inr full ↦ rw full (
        further passed p (q ∷ qs) (retry size take (passed ++ p ∷ []) (q ∷ qs)) full
          (retry-FirstFit (passed ++ p ∷ []) (q ∷ qs)))
  ]

-- What ggggc_mallocRaw does for `size` words, from `h`, before it would collect.
abbrev pub IsRaw : (size : ℕ) → Memory → (h : Generation) → Attempt Memory → Type 0
IsRaw size m h (allocated ret m' g) =
    (p : Place size h.pools) × (ret ≡ p.pool.free)
    × (word_at ret size ≤ p.pool.end)
    × ((i : ℕ) → i < size → m' (word_at ret i) ≡ 0)
    × ((x : ℕ) → (x < ret) ⊎ (word_at ret size ≤ x) → m' x ≡ m x)
    × (g ≡ record {
      passed = h.passed ++ p.before;
      pools = record p.pool { free = word_at ret size } ∷ p.after;
    })
IsRaw size m h (exhausted g) = NoRoom size h.pools × (g.passed ++ g.pools ≡ h.passed ++ h.pools)

-- The card table of a pool that is free from `free` on, after an object at `ret`: where `free` is in another card
-- and in the pool, it is the first object of its card.
abbrev pub cards_behind : (ret free : ℕ) → GenPool → ℕ → ℕ
cards_behind ret free pool =
    if not (card_of ret == card_of free) && ltb free pool.end
    then set_card pool.first_object (card_of free) (word_in_card free)
    else pool.first_object

-- What ggggc_mallocGen1 does for `size` words, from `h`.
abbrev pub IsGen1 : (size : ℕ) → Memory → (h : Generation) → Attempt Memory → Type 0
IsGen1 size m h (allocated ret m' g) =
    (p : Place size h.pools) × (ret ≡ p.pool.free)
    × (word_at ret size ≤ p.pool.end)
    × (word_at ret size < p.pool.end → m' (word_at ret size) ≡ 0)
    × ((x : ℕ) → x ≢ word_at ret size → m' x ≡ m x)
    × (g ≡ record {
      passed = h.passed ++ p.before;
      pools =
          record p.pool {
            free = word_at ret size;
            first_object = cards_behind ret (word_at ret size) p.pool;
          }
          ∷ p.after;
    })
IsGen1 size m h (exhausted g) = NoRoom size h.pools × (g.passed ++ g.pools ≡ h.passed ++ h.pools)

pub clear_others :
    (ret size : ℕ) (m : Memory) (x : ℕ)
    → (x < ret) ⊎ (word_at ret size ≤ x)
    → clear_object ret size m x ≡ m x
clear_others ret zero m x out = refl
clear_others ret (suc n) m x out =
    clear_others (ret + 8) n (write m ret 0) x (ground (arith, out)) ∙ ground (arith, out)

clear_words :
    (ret size : ℕ) (m : Memory) (i : ℕ) → i < size → clear_object ret size m (word_at ret i) ≡ 0
clear_words ret zero m i lt = absurd (omega arith)
clear_words ret (suc n) m zero lt =
    clear_others (ret + 8) n (write m ret 0) (word_at ret 0) (inl (omega arith)) ∙ ground arith
clear_words ret (suc n) m (suc i) lt =
    ap (clear_object (ret + 8) n (write m ret 0)) (omega arith)
    ∙ clear_words (ret + 8) n (write m ret 0) i (omega arith)

FirstFit-IsRaw :
    (size : ℕ) (m : Memory) (h : Generation) (t : Attempt Memory)
    → 1 ≤ size
    → FirstFit size (take_gen0 size m) h.passed h.pools t
    → IsRaw size m h t
FirstFit-IsRaw size m h (allocated ret m' g) some_words (p, at, is, gen) = (
  p,
  at,
  rw at (fits p.pool.free p.pool.end size some_words p.room),
  (λ i lt. rw (at, is) (clear_words p.pool.free size m i lt)),
  (λ x out. rw is (clear_others p.pool.free size m x (ground (arith, at, out)))),
  rw at gen,
)
FirstFit-IsRaw size m h (exhausted g) some_words h' = h'

FirstFit-IsGen1 :
    (size : ℕ) (m : Memory) (h : Generation) (t : Attempt Memory)
    → 1 ≤ size
    → FirstFit size (take_gen1 size m) h.passed h.pools t
    → IsGen1 size m h t
FirstFit-IsGen1 size m h (allocated ret m' g) some_words (p, at, is, gen) = (
  p,
  at,
  rw at (fits p.pool.free p.pool.end size some_words p.room),
  (λ more.
      rw (at, is)
        (cleared (word_at p.pool.free size) p.pool.end
          (subst (λ r. word_at r size < p.pool.end) at more))),
  (λ x other. rw is (
      not_cleared (word_at p.pool.free size) p.pool.end x
        (λ e. other (e ∙ ap (λ r. word_at r size) (sym at))))),
  gen
      ∙ rw at (
          ap (λ q. record { passed = h.passed ++ p.before; pools = q ∷ p.after })
            (passed_card p.pool.free (word_at p.pool.free size) p.pool)),
)
  where
    passed_card :
        (ret free : ℕ) (pool : GenPool)
        → pass_card ret (record pool { free = free })
          ≡ record pool { free = free; first_object = cards_behind ret free pool }
    passed_card ret free pool =
        elim (Bool-cases (not (card_of ret == card_of free) && ltb free pool.end)) [
          | inl e ↦ rw e refl
          | inr e ↦ rw e refl
        ]

    cleared : (a end : ℕ) → a < end → (if ltb a end then write m a 0 else m) a ≡ 0
    cleared a end lt = ground arith

    not_cleared : (a end x : ℕ) → x ≢ a → (if ltb a end then write m a 0 else m) x ≡ m x
    not_cleared a end x ne = ground arith
FirstFit-IsGen1 size m h (exhausted g) some_words h' = h'

-- For an object of one word or more, ggggc_mallocRaw goes through the pools from the current one on (a new pool if
-- there is none) and ends at the first with room: it returns the first free word of that pool, the
-- object's words lie in the pool and are zero, no other word of memory changed, the pool is free behind
-- the object and is the current one. If no pool has room the pools stay as they are, and it is time to collect.
pub malloc_raw-IsRaw :
    (fresh : GenPool) (size : ℕ) (m : Memory) (g : Generation)
    → 1 ≤ size
    → IsRaw size m (with_pool 0 fresh g) (malloc_raw fresh size m g)
unfolding malloc_raw
malloc_raw-IsRaw fresh size m g some_words =
    let h = with_pool 0 fresh g in
    FirstFit-IsRaw size m h (retry size (take_gen0 size m) h.passed h.pools) some_words
      (retry-FirstFit size (take_gen0 size m) h.passed h.pools)

-- For an object of one word or more, ggggc_mallocGen1 goes through the generation's pools from the current one on
-- (a new pool if there is none) and ends at the first with room: it returns the first free word of that
-- pool, the object's words lie in the pool, and of all memory only the word behind the object may have
-- changed, which is zero if it is in the pool; the pool is free behind the object and is the current one, its card
-- table has the word behind the object as the first of its card if that is another card, of the pool, and all else
-- of the generation stays. If no pool has room it returns NULL and the pools stay as they are.
pub malloc_gen1-IsGen1 :
    (gen : ℕ) (fresh : GenPool) (size : ℕ) (m : Memory) (g : Generation)
    → 1 ≤ size
    → IsGen1 size m (with_pool gen fresh g) (malloc_gen1 gen fresh size m g)
unfolding malloc_gen1
malloc_gen1-IsGen1 gen fresh size m g some_words =
    let h = with_pool gen fresh g in
    FirstFit-IsGen1 size m h (retry size (take_gen1 size m) h.passed h.pools) some_words
      (retry-FirstFit size (take_gen1 size m) h.passed h.pools)
