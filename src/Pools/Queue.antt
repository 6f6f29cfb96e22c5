-- ===== src/Pools/Queue.antt =====
-- The free pools are a queue.
use mathlib.Core.List.{append-nil}
use ggggc.Base.{apart}
use ggggc.Base.{
  has, Distinct, ℕ, zero, suc, ◌+◌, ◌<◌, ◌≡◌, refl, sym, ap, ◌∙◌, ◌≢◌, inl, inr, Bool, true, false,
  ◌||◌, some, List, [], ◌∷◌, ◌++◌, arith, ◌==◌, if◌then◌else◌, Bool-cases, length,
}
use ggggc.Base.{Gives}
use mathlib.Core.Path.{subst}
use ggggc.Heap.{null}
use ggggc.Pools.{Pools, set, new_pool, last_pool, link, find_tail, free_generation}

-- From `p` the pools `xs` lead to `q`.
abbrev pub Leads : (ℕ → ℕ) → ℕ → List ℕ → ℕ → Type 0
Leads next p [] q = p ≡ q
Leads next p (x ∷ xs) q = (p ≡ x) × (x ≢ null) × Leads next (next x) xs q

-- the last pool, NULL if there is none
abbrev pub last : List ℕ → ℕ
last [] = null
last (x ∷ []) = x
last (x ∷ y ∷ xs) = last (y ∷ xs)

-- `head` leads through the free pools `ps`, which are different, and `tail` is the last.
pub record IsQueue (s : Pools) (ps : List ℕ) : Type 0 where
  pub leads : Leads s.next s.head ps null
  pub distinct : Distinct ps
  pub tail : s.tail ≡ last ps

pub Leads-set :
    (next : ℕ → ℕ) (a v p q : ℕ) (xs : List ℕ)
    → has a xs ≡ false
    → Leads next p xs q
    → Leads (set next a v) p xs q
Leads-set next a v p q [] out l = l
Leads-set next a v p q (x ∷ xs) out (at, real, l) =
    let same : set next a v x ≡ next x = ground arith in
    (at, real, rw same (Leads-set next a v (next x) q xs (ground arith) l))

or_true : (b : Bool) → (b || true) ≡ true
or_true true = refl
or_true false = refl

pub has-last : (x : ℕ) (xs : List ℕ) → has (last (x ∷ xs)) (x ∷ xs) ≡ true
has-last x [] = ground arith
has-last x (y ∷ xs) = let h = has-last y xs in ground arith

pub set_self : (f : ℕ → ℕ) (p v : ℕ) → set f p v p ≡ v
set_self f p v = ground arith

set_other : (f : ℕ → ℕ) (p v a : ℕ) → a ≢ p → set f p v a ≡ f a
set_other f p v a other = ground (arith, other)

set_ne :
    (next : ℕ → ℕ) (a v x : ℕ) (xs : List ℕ)
    → has x xs ≡ false
    → has a xs ≡ true
    → set next a v x ≡ next x
set_ne next a v x xs out is_in = elim (Bool-cases (x == a)) [
  | inl e ↦ let same : a ≡ x = ground arith in absurd (apart (λ b. has b xs) a x is_in out same)
  | inr ne ↦ rw ne refl
]

-- A list of pools that is put behind another one.
pub Leads-link :
    (next : ℕ → ℕ) (p q : ℕ) (xs ys : List ℕ)
    → xs ≢ []
    → Distinct xs
    → ((a : ℕ) → has a xs ≡ true → has a ys ≡ false)
    → Leads next p xs null
    → Leads next q ys null
    → Leads (set next (last xs) q) p (xs ++ ys) null
Leads-link next p q [] ys some_pool d apart l k = absurd (some_pool refl)
Leads-link next p q (x ∷ []) ys some_pool d apart (at, real, l) k =
    let here : set next x q x ≡ q = ground arith in
    (at, real, rw here (Leads-set next x q q null ys (apart x (ground arith)) k))
Leads-link next p q (x ∷ y ∷ xs) ys some_pool d apart (at, real, l) k =
    let same = set_ne next (last (y ∷ xs)) q x (y ∷ xs) d.0 (has-last y xs) in
    (
      at,
      real,
      rw same (
          Leads-link next (next x) q (y ∷ xs) ys (λ e. cc e) d.1
            (λ a h. apart a (rw h (or_true (a == x)))) l k),
    )

pub last-append : (xs : List ℕ) (y : ℕ) (ys : List ℕ) → last (xs ++ y ∷ ys) ≡ last (y ∷ ys)
last-append [] y ys = refl
last-append (x ∷ []) y ys = refl
last-append (x ∷ z ∷ xs) y ys = last-append (z ∷ xs) y ys

pub has-append : (a : ℕ) (xs ys : List ℕ) → has a (xs ++ ys) ≡ (has a xs || has a ys)
has-append a [] ys = refl
has-append a (x ∷ xs) ys = ground (arith, has-append a xs ys)

pub Distinct-append :
    (xs ys : List ℕ)
    → Distinct xs
    → Distinct ys
    → ((a : ℕ) → has a xs ≡ true → has a ys ≡ false)
    → Distinct (xs ++ ys)
Distinct-append [] ys d e apart = e
Distinct-append (x ∷ xs) ys d e apart = (
  rw (has-append x xs ys, d.0) (apart x (ground arith)),
  Distinct-append xs ys d.1 e (λ a h. apart a (rw h (or_true (a == x)))),
)

last_pool-last :
    (next : ℕ → ℕ) (xs : List ℕ) (x p fuel : ℕ)
    → length xs < fuel
    → Leads next p (x ∷ xs) null
    → last_pool fuel p next ≡ some (last (x ∷ xs))
unfolding last_pool
last_pool-last next xs x p zero enough l = absurd (omega arith)
last_pool-last next [] x p (suc fuel) enough (at, real, l) =
    let test : (next p == null) ≡ true = rw (at, l) refl in rw (last_pool, test, at) refl
last_pool-last next (y ∷ xs) x p (suc fuel) enough (at, real, l) =
    let test : (next p == null) ≡ false = rw (at, l.0) (ground (arith, l.1)) in
    rw (last_pool, test, at) (last_pool-last next xs y (next x) fuel (omega arith) l)

-- A generation is a list of pools, as a thread owns it, none of them free yet.
pub record IsGeneration (s : Pools) (pool : ℕ) (ps qs : List ℕ) : Type 0 where
  pub leads : Leads s.next pool qs null
  pub distinct : Distinct qs
  pub apart : (a : ℕ) → has a ps ≡ true → has a qs ≡ false

free_generation-null : (fuel : ℕ) (s : Pools) → free_generation fuel null s ≡ some s
unfolding free_generation
free_generation-null fuel s = refl

free_generation-real :
    (fuel pool : ℕ) (s : Pools)
    → pool ≢ null
    → free_generation fuel pool s ≡ find_tail fuel pool (link pool s)
unfolding free_generation
free_generation-real fuel pool s real =
    let test : (pool == null) ≡ false = ground arith in rw (free_generation, test) refl

link-first : (pool : ℕ) (s : Pools) → s.head ≡ null → link pool s ≡ record s { head = pool }
link-first pool s none_free = let test : (s.head == null) ≡ true = rw none_free refl in rw test refl

link-behind :
    (pool : ℕ) (s : Pools)
    → s.head ≢ null
    → link pool s ≡ record s { next = set s.next s.tail pool }
link-behind pool s some_free = let test : (s.head == null) ≡ false = ground arith in rw test refl

find_tail-found :
    (fuel pool t : ℕ) (s : Pools)
    → last_pool fuel pool s.next ≡ some t
    → find_tail fuel pool s ≡ some (record s { tail = t })
unfolding find_tail
find_tail-found fuel pool t s found = rw (find_tail, found) refl

-- What is left when the list `qs` was put behind the free pools `ps`.
pub record Freed (ps qs : List ℕ) (s s' : Pools) : Type 0 where
  pub queue : IsQueue s' (ps ++ qs)
  pub free : s'.free ≡ s.free
  pub end : s'.end ≡ s.end
  pub next : (a : ℕ) → a ≢ last ps → s'.next a ≡ s.next a
  pub nothing : qs ≡ [] → s' ≡ s

-- With fuel for its pools, ggggc_freeGeneration ends and puts a thread's list of pools, which shares
-- none with the free ones, behind the free pools in the same order. Of all pools only the one that was the last free
-- pool has another next pool afterwards, and `free` and `end` of all stay; an empty list changes nothing.
pub free_generation-IsQueue :
    (s : Pools) (ps qs : List ℕ) (pool : ℕ)
    → IsQueue s ps
    → IsGeneration s pool ps qs
    → Gives (Freed ps qs s) (free_generation (suc (length qs)) pool s)
free_generation-IsQueue s ps [] pool is gen =
    rw (gen.leads, free_generation-null 1 s)
      (record {
        queue = rw append-nil is;
        free = refl;
        end = refl;
        next = λ a other. refl;
        nothing = λ e. refl;
      })
free_generation-IsQueue s [] (q ∷ qs) pool is gen =
    let real : pool ≢ null = λ e. gen.leads.1 (sym gen.leads.0 ∙ e) in
    let found = last_pool-last s.next qs q pool (suc (length (q ∷ qs))) (omega arith) gen.leads in
    rw
      (
        free_generation-real (suc (length (q ∷ qs))) pool s real,
        link-first pool s is.leads,
        find_tail-found (suc (length (q ∷ qs))) pool (last (q ∷ qs)) (record s { head = pool })
            found,
      )
      (record {
        queue = record { leads = gen.leads; distinct = gen.distinct; tail = refl };
        free = refl;
        end = refl;
        next = λ a other. refl;
        nothing = λ e. cc e;
      })
free_generation-IsQueue s (p ∷ ps) (q ∷ qs) pool is gen =
    let real : pool ≢ null = λ e. gen.leads.1 (sym gen.leads.0 ∙ e) in
    let some_free : s.head ≢ null = λ e. is.leads.1 (sym is.leads.0 ∙ e) in
    let linked = set s.next s.tail pool in
    let out : has s.tail (q ∷ qs) ≡ false =
      ap (λ t. has t (q ∷ qs)) is.tail ∙ gen.apart (last (p ∷ ps)) (has-last p ps) in
    let theirs = Leads-set s.next s.tail pool pool null (q ∷ qs) out gen.leads in
    let found = last_pool-last linked qs q pool (suc (length (q ∷ qs))) (omega arith) theirs in
    rw
      (
        free_generation-real (suc (length (q ∷ qs))) pool s real,
        link-behind pool s some_free,
        find_tail-found (suc (length (q ∷ qs))) pool (last (q ∷ qs)) (record s { next = linked })
            found,
      )
      (record {
        queue = record {
          leads =
              subst (λ t. Leads (set s.next t pool) s.head ((p ∷ ps) ++ q ∷ qs) null) (sym is.tail)
                (Leads-link s.next s.head pool (p ∷ ps) (q ∷ qs) (λ e. cc e) is.distinct gen.apart
                  is.leads gen.leads);
          distinct = Distinct-append (p ∷ ps) (q ∷ qs) is.distinct gen.distinct gen.apart;
          tail = sym (last-append (p ∷ ps) q qs);
        };
        free = refl;
        end = refl;
        next = λ a other. set_other s.next s.tail pool a (λ e. other (e ∙ is.tail));
        nothing = λ e. cc e;
      })

-- What ggggc_newPool returns and leaves, for the free pools `ps` and what allocPool would give.
abbrev pub Reused : (start_offset pool_bytes allocated : ℕ) → List ℕ → Pools → ℕ × Pools → Type 0
Reused start_offset pool_bytes allocated [] s r = (r.0 ≡ allocated) × IsQueue r.1 []
Reused start_offset pool_bytes allocated (p ∷ ps) s r =
    (r.0 ≡ p)
    × IsQueue r.1 ps
    × (r.1.next p ≡ null)
    × (r.1.free p ≡ p + start_offset)
    × (r.1.end p ≡ p + pool_bytes)

-- ggggc_newPool returns the free pool that has waited longest, set up as an empty pool, and leaves the
-- others in their order; only when none is free does it return what allocPool gives.
pub new_pool-Reused :
    (start_offset pool_bytes allocated : ℕ) (s : Pools) (ps : List ℕ)
    → IsQueue s ps
    → Reused start_offset pool_bytes allocated ps s (new_pool start_offset pool_bytes allocated s)
unfolding new_pool
new_pool-Reused start_offset pool_bytes allocated s [] is =
    let test : (s.head == null) ≡ true = rw is.leads refl in
    elim (Bool-cases (allocated == null)) [
      | inl e ↦ rw (test, e) (ground arith, is)
      | inr ne ↦ rw (test, ne) (refl, record { leads = is.leads; distinct = tt; tail = is.tail })
    ]
new_pool-Reused start_offset pool_bytes allocated s (p ∷ ps) is =
    let some_free : (s.head == null) ≡ false = rw is.leads.0 (ground (arith, is.leads.1)) in
    let real : (p == null) ≡ false = ground (arith, is.leads.1) in
    rw (some_free, is.leads.0, real, real)
      (
        refl,
        record {
          leads = Leads-set s.next p null (s.next p) null ps is.distinct.0 is.leads.2;
          distinct = is.distinct.1;
          tail = tail_left ps is.tail is.leads.2;
        },
        set_self s.next p null,
        set_self s.free p (p + start_offset),
        set_self s.end p (p + pool_bytes),
      )
  where
    tail_left :
        (ps : List ℕ)
        → s.tail ≡ last (p ∷ ps)
        → Leads s.next (s.next p) ps null
        → (if s.next p == null then null else s.tail) ≡ last ps
    tail_left [] e l = rw l refl
    tail_left (q ∷ ps) e l =
        let test : (s.next p == null) ≡ false = rw l.0 (ground (arith, l.1)) in rw test e
