-- ===== src/Pools/Expand/Correct.antt =====
-- A list of pools doubles if too much of it has survivors.
use mathlib.Core.List.{append-nil}
use ggggc.Base.{
  ℕ, zero, suc, ◌+◌, ◌*◌, ◌%◌, ◌^◌, ◌<◌, ◌≡◌, refl, sym, ap, ◌∙◌, ◌≢◌, inl, inr, Bool, true, false,
  ◌||◌, some, List, [], ◌∷◌, ◌++◌, arith, ltb, ◌==◌, if◌then◌else◌, Bool-cases, length, Gives,
  Gives-mono, has, Distinct,
}
use ggggc.Base.{Gives-bind}
use native.Mathlib.Nat.{one-le-pow, mul-le-mul_left}
use mathlib.Core.Path.{subst}
use ggggc.Heap.{null}
use ggggc.Pools.{set}
use ggggc.Pools.Queue.{Leads, last}
use ggggc.Pools.Expand.{
  PoolLists, Usage, add_pool, usage, add_pools, too_much, expand_pool_list, take, sum,
}
use ggggc.Pools.Expand.Grown.{AreNew, add_pools-Leads, add_pools-other}

-- The pools of a list, with what they say of their use, after it was counted.
record Counted (xs : List ℕ) (u : Usage) (s : PoolLists) (r : ℕ × Usage × PoolLists) : Type 0 where
  last : r.0 ≡ last xs
  space : r.1.space ≡ (u.space + sum s.words xs) % 2 ^ 64
  survivors : r.1.survivors ≡ (u.survivors + sum s.survivors xs) % 2 ^ 64
  pool_ct : r.1.pool_ct ≡ (u.pool_ct + length xs) % 2 ^ 64
  next : r.2.next ≡ s.next
  words : r.2.words ≡ s.words
  cleared : (a : ℕ) → r.2.survivors a ≡ (if has a xs then 0 else s.survivors a)

sum-set : (f : ℕ → ℕ) (p v : ℕ) (xs : List ℕ) → has p xs ≡ false → sum (set f p v) xs ≡ sum f xs
unfolding sum
sum-set f p v [] out = refl
sum-set f p v (x ∷ xs) out =
    let same : set f p v x ≡ f x = ground arith in
    let rest = sum-set f p v xs (ground arith) in rw (same, rest) refl

usage-end :
    (fuel pool : ℕ) (u : Usage) (s : PoolLists)
    → s.next pool ≡ null
    → usage (suc fuel) pool u s
      ≡ some (pool, add_pool pool s u, record s { survivors = set s.survivors pool 0 })
unfolding usage
usage-end fuel pool u s e = let test : (s.next pool == null) ≡ true = rw e refl in rw test refl

usage-further :
    (fuel pool : ℕ) (u : Usage) (s : PoolLists)
    → s.next pool ≢ null
    → usage (suc fuel) pool u s
      ≡ usage fuel
          (s.next pool)
          (add_pool pool s u)
          (record s { survivors = set s.survivors pool 0 })
unfolding usage
usage-further fuel pool u s e =
    let test : (s.next pool == null) ≡ false = ground (arith, e) in rw test refl

Counted-more :
    (x y : ℕ) (ps : List ℕ) (u : Usage) (s : PoolLists) (r : ℕ × Usage × PoolLists)
    → has x (y ∷ ps) ≡ false
    → Counted (y ∷ ps) (add_pool x s u) (record s { survivors = set s.survivors x 0 }) r
    → Counted (x ∷ y ∷ ps) u s r
unfolding sum
Counted-more x y ps u s r out c =
    let same = sum-set s.survivors x 0 (y ∷ ps) out in
    record {
      last = c.last;
      space = omega (arith, c.space);
      survivors = omega (arith, c.survivors, same);
      pool_ct = omega (arith, c.pool_ct);
      next = c.next;
      words = c.words;
      cleared = λ a. c.cleared a ∙ clear_first a x (has a (y ∷ ps)) s.survivors;
    }
  where
    clear_first :
        (a x : ℕ) (b : Bool) (f : ℕ → ℕ)
        → (if b then 0 else set f x 0 a) ≡ (if (a == x) || b then 0 else f a)
    clear_first a x true f = ground arith
    clear_first a x false f = ground arith

usage-Counted :
    (fuel x : ℕ) (ps : List ℕ) (pool : ℕ) (u : Usage) (s : PoolLists)
    → length ps < fuel
    → Leads s.next pool (x ∷ ps) null
    → Distinct (x ∷ ps)
    → Gives (Counted (x ∷ ps) u s) (usage fuel pool u s)
unfolding sum
usage-Counted zero x ps pool u s enough l d = absurd (omega (arith, enough))
usage-Counted (suc fuel) x [] pool u s enough (at, real, l) d =
    rw (usage-end fuel pool u s (ap s.next at ∙ l), at)
      (record {
        last = refl;
        space = omega arith;
        survivors = omega arith;
        pool_ct = omega arith;
        next = refl;
        words = refl;
        cleared = λ a. ground arith;
      })
usage-Counted (suc fuel) x (y ∷ ps) pool u s enough (at, real, l) d =
    let more : s.next pool ≢ null = λ e. l.1 (sym l.0 ∙ ap s.next (sym at) ∙ e) in
    let s' : PoolLists = record s { survivors = set s.survivors x 0 } in
    rw (usage-further fuel pool u s more, at)
      (Gives-mono {Q = Counted (x ∷ y ∷ ps) u s} (usage fuel (s.next x) (add_pool x s u) s')
        (λ r c. Counted-more x y ps u s r d.0 c)
        (usage-Counted fuel y ps (s.next x) (add_pool x s u) s' (omega (arith, enough)) l d.1))

-- what is asked for: as many pools as there are, if too much of their space has survivors
abbrev pub asked : (ratio : ℕ) (ps : List ℕ) → PoolLists → ℕ
asked ratio ps s = if ltb (sum s.words ps) (sum s.survivors ps * 2 ^ ratio) then length ps else 0

-- What an expansion leaves of the list `xs` from `pool_list` on.
abbrev pub Expanded :
    (ratio : ℕ) (xs given : List ℕ) (pool_list : ℕ) → PoolLists → PoolLists → Type 0
Expanded ratio xs given pool_list s s' =
    Leads s'.next pool_list (xs ++ take (asked ratio xs s) given) null
    × ((a : ℕ) → s'.survivors a ≡ (if has a xs then 0 else s.survivors a))
    × ((a : ℕ) → has a (xs ++ take (asked ratio xs s) given) ≡ false → s'.next a ≡ s.next a)
    × (s'.words ≡ s.words)

abbrev expand : (ratio : ℕ) (given : List ℕ) → ℕ × Usage × PoolLists → PoolLists
expand ratio given r =
    if too_much ratio r.1
    then record r.2 { next = add_pools r.1.pool_ct r.0 given r.2.next }
    else r.2

choose {ℓ} :
    {A : Type ℓ} (b c : Bool) (x y : A) → b ≡ c → (if b then x else y) ≡ (if c then x else y)
choose b c x y e = ap (λ t. if t then x else y) e

no_more :
    (x : ℕ) (ps : List ℕ) (next : ℕ → ℕ) (pool : ℕ) (given : List ℕ)
    → Leads next pool (x ∷ ps) null
    → Leads next pool ((x ∷ ps) ++ take 0 given) null
unfolding take
no_more x ps next pool given l = rw append-nil l

expand-Expanded :
    (ratio x : ℕ) (ps given : List ℕ) (pool_list : ℕ) (s : PoolLists) (r : ℕ × Usage × PoolLists)
    → Leads s.next pool_list (x ∷ ps) null
    → Distinct (x ∷ ps)
    → AreNew (x ∷ ps) given
    → r.0 ≡ last (x ∷ ps)
    → r.1.space ≡ sum s.words (x ∷ ps)
    → (r.1.survivors * 2 ^ ratio) % 2 ^ 64 ≡ sum s.survivors (x ∷ ps) * 2 ^ ratio
    → r.1.pool_ct ≡ length (x ∷ ps)
    → r.2.next ≡ s.next
    → r.2.words ≡ s.words
    → ((a : ℕ) → r.2.survivors a ≡ (if has a (x ∷ ps) then 0 else s.survivors a))
    → Expanded ratio (x ∷ ps) given pool_list s (expand ratio given r)
expand-Expanded ratio x ps given pool_list s r l d new at space survivors pool_ct same words
      cleared =
    elim (Bool-cases (ltb (sum s.words (x ∷ ps)) (sum s.survivors (x ∷ ps) * 2 ^ ratio))) [
      | inl much ↦
          let test : too_much ratio r.1 ≡ true = rw (space, survivors) much in
          let all : asked ratio (x ∷ ps) s ≡ length (x ∷ ps) = rw much refl in
          let grown : add_pools r.1.pool_ct r.0 given r.2.next
              ≡ add_pools (length (x ∷ ps)) (last (x ∷ ps)) given s.next =
            rw (pool_ct, at, same) refl in
          subst (Expanded ratio (x ∷ ps) given pool_list s)
            (sym (choose (too_much ratio r.1) true _ r.2 test))
            (
              subst
                  (λ n.
                    Leads (add_pools r.1.pool_ct r.0 given r.2.next) pool_list
                      ((x ∷ ps) ++ take n given) null)
                  (sym all)
                  (subst (λ f. Leads f pool_list ((x ∷ ps) ++ take (length (x ∷ ps)) given) null)
                    (sym grown)
                    (add_pools-Leads (length (x ∷ ps)) given x ps s.next pool_list l d new)),
              cleared,
              λ a out.
                  ap (λ f. f a) grown
                  ∙ add_pools-other (length (x ∷ ps)) given x ps s.next a
                      (ap (λ n. has a ((x ∷ ps) ++ take n given)) (sym all) ∙ out),
              words,
            )
      | inr few ↦
          let test : too_much ratio r.1 ≡ false = rw (space, survivors) few in
          let nothing : asked ratio (x ∷ ps) s ≡ 0 = rw few refl in
          subst (Expanded ratio (x ∷ ps) given pool_list s)
            (sym (choose (too_much ratio r.1) false _ r.2 test))
            (
              subst (λ n. Leads r.2.next pool_list ((x ∷ ps) ++ take n given) null) (sym nothing)
                  (subst (λ f. Leads f pool_list ((x ∷ ps) ++ take 0 given) null) (sym same)
                    (no_more x ps s.next pool_list given l)),
              cleared,
              λ a out. ap (λ f. f a) same,
              words,
            )
    ]

-- For a list of one pool or more, all different, whose words, survivors and number do not overflow, and a newPool
-- that gives other pools, ggggc_expandPoolList ends. It doubles the list if the survivors times 2 ^ `ratio` are more
-- than its words, and otherwise adds none: the new pools, as far as newPool gives them, are behind the
-- others, which keep their order. The old pools have no survivors counted afterwards, all other pools have the
-- survivors they had, the pools outside the list have the next pool they had, and no pool's words change.
pub expand_pool_list-Expanded :
    (ratio x : ℕ) (ps given : List ℕ) (pool_list : ℕ) (s : PoolLists)
    → Leads s.next pool_list (x ∷ ps) null
    → Distinct (x ∷ ps)
    → AreNew (x ∷ ps) given
    → sum s.words (x ∷ ps) < 2 ^ 64
    → sum s.survivors (x ∷ ps) * 2 ^ ratio < 2 ^ 64
    → length (x ∷ ps) < 2 ^ 64
    → Gives
        (Expanded ratio (x ∷ ps) given pool_list s)
        (expand_pool_list (suc (length ps)) pool_list ratio given s)
unfolding expand_pool_list
expand_pool_list-Expanded ratio x ps given pool_list s l d new small few short =
    let test : (pool_list == null) ≡ false = rw l.0 (ground (arith, l.1)) in
    let start : Usage = record { space = 0; survivors = 0; pool_ct = 0 } in
    let single : sum s.survivors (x ∷ ps) < 2 ^ 64 =
      single_bound (sum s.survivors (x ∷ ps)) ratio few in
    rw test (
      Gives-bind (Expanded ratio (x ∷ ps) given pool_list s)
        (usage (suc (length ps)) pool_list start s) _
        (λ (r : ℕ × Usage × PoolLists) (c : Counted (x ∷ ps) start s r).
          let survivors : r.1.survivors ≡ sum s.survivors (x ∷ ps) =
            omega (arith, c.survivors, single) in
          expand-Expanded ratio x ps given pool_list s r l d new c.last
            (omega (arith, c.space, small)) (rw survivors (omega (arith, few)))
            (omega (arith, c.pool_ct, short)) c.next c.words c.cleared)
        (usage-Counted (suc (length ps)) x ps pool_list start s (omega arith) l d))
  where
    single_bound : (n ratio : ℕ) → n * 2 ^ ratio < 2 ^ 64 → n < 2 ^ 64
    single_bound n ratio h = omega (arith, h, mul-le-mul_left n (one-le-pow ratio 2 (omega arith)))
