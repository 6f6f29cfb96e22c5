-- ===== src/BreakTable/Search.antt =====
-- The search by halving steps ends, and finds the last entry at or below the address.
use ggggc.Base.{
  ℕ, zero, suc, ◌+◌, ◌-◌, ◌*◌, ◌/◌, ◌≤◌, ◌<◌, ◌≡◌, refl, ◌⊎◌, inl, inr, some, List, [], ◌∷◌, arith,
  ltb, leb, ◌==◌, if◌then◌else◌, Bool-cases, length, get_elem?,
}
use ggggc.BreakTable.{
  BreakTableEl, Outcome, found, absent, at_least_one, go_up, go_down, search_loop,
  find_break_table_entry,
}

abbrev pub AllAbove : ℕ → List BreakTableEl → Type 0
AllAbove o [] = Unit
AllAbove o (e ∷ t) = (o ≤ e.orig) × AllAbove o t

-- the order that `qsort` with `breakTableComparator` leaves
abbrev pub IsSorted : List BreakTableEl → Type 0
IsSorted [] = Unit
IsSorted (e ∷ t) = AllAbove e.orig t × IsSorted t

-- how many entries at the front lie at or below `loc`
unfoldable pub rank : List BreakTableEl → ℕ → ℕ
rank [] loc = 0
rank (e ∷ t) loc = if leb e.orig loc then suc (rank t loc) else 0

pub rank-le-length : (t : List BreakTableEl) (loc : ℕ) → rank t loc ≤ length t
unfolding rank
rank-le-length [] loc = omega arith
rank-le-length (e ∷ t) loc = ground (arith, rank-le-length t loc)

all_above :
    (o loc : ℕ) (t : List BreakTableEl) (i : ℕ)
    → AllAbove o t
    → loc < o
    → i < length t
    → (e : BreakTableEl) × (get_elem? t i ≡ some e) × (loc < e.orig)
all_above o loc [] i h lt r = absurd (omega arith)
all_above o loc (e ∷ t) zero h lt r = (e, refl, omega arith)
all_above o loc (e ∷ t) (suc i) h lt r = all_above o loc t i h.1 lt (omega arith)

-- In a sorted table the entries at or below `loc` are those in front of the rank.
pub entry_test :
    (t : List BreakTableEl) (loc i : ℕ)
    → IsSorted t
    → i < length t
    → (e : BreakTableEl) × (get_elem? t i ≡ some e) × (leb e.orig loc ≡ ltb i (rank t loc))
unfolding rank
entry_test [] loc i s r = absurd (omega arith)
entry_test (e ∷ t) loc zero s r = (e, refl, ground arith)
entry_test (e ∷ t) loc (suc i) s r = elim (Bool-cases (leb e.orig loc)) [
  | inl le ↦ let (e', at, test) = entry_test t loc i s.1 (omega arith) in (e', at, ground arith)
  | inr gt ↦
      let (e', at, above) = all_above e.orig loc t i s.0 (ground arith) (omega arith) in
      (e', at, ground arith)
]

-- the answer in terms of the rank
abbrev answer : ℕ → Outcome
answer zero = absent
answer (suc r) = found r

-- How far `cur` is from the answer, counted in single steps.
abbrev distance : (r cur : ℕ) → ℕ
distance r cur = (r - (cur + 1)) + ((cur + 1) - r)

-- Enough rounds: while the step is above one each round shortens it, and then the search walks.
abbrev Enough : (n r cur step fuel : ℕ) → Type 0
Enough n r cur step fuel = (step + n < fuel) ⊎ ((step ≡ 1) × (distance r cur < fuel))

module _ (t : List BreakTableEl) (loc : ℕ) (sorted : IsSorted t) where
  search_loop-answer :
      (fuel cur step : ℕ)
      → cur < length t
      → 1 ≤ step
      → Enough (length t) (rank t loc) cur step fuel
      → search_loop t loc fuel cur step ≡ answer (rank t loc)
  unfolding search_loop
  search_loop-answer zero cur step lt pos enough = absurd (ground arith)
  search_loop-answer (suc fuel) cur step lt pos enough =
      let (e, at, test) = entry_test t loc cur sorted lt in
      let bound = rank-le-length t loc in
      elim (Bool-cases (leb e.orig loc)) [
        | inr gt ↦ elim (Bool-cases (cur == 0)) [
          | inl first ↦ rw (at, search_loop) (rw (gt, first) (ground arith))
          | inr more ↦
              rw (at, search_loop)
                (rw (gt, more)
                  (search_loop-answer fuel (go_down cur step) (at_least_one (step / 2))
                    (ground arith) (ground arith) (ground arith)))
        ]
        | inl le ↦ elim (Bool-cases (cur == length t - 1)) [
          | inl end ↦ rw (at, search_loop) (rw (le, end) (ground arith))
          | inr more ↦
              let (e', at', test') = entry_test t loc (cur + 1) sorted (ground arith) in
              rw (at, search_loop)
                (rw (le, more)
                  (rw (at', search_loop)
                    (elim (Bool-cases (ltb loc e'.orig)) [
                      | inl above ↦ rw above (ground arith)
                      | inr below ↦ rw below (
                          search_loop-answer fuel (go_up (length t) cur step)
                            (at_least_one (step / 2)) (ground arith) (ground arith) (ground arith))
                    ])))
        ]
      ]

  pub find-answer : find_break_table_entry t loc ≡ answer (rank t loc)
  unfolding find_break_table_entry
  find-answer = elim (Bool-cases (length t == 0)) [
    | inl empty ↦ rw empty (ground (arith, rank-le-length t loc))
    | inr some_entry ↦ rw some_entry (
        search_loop-answer (2 * length t + 2) (length t / 2) (at_least_one (length t / 2 / 2))
          (ground arith) (ground arith) (ground (arith, rank-le-length t loc)))
  ]

-- What an outcome says about the table: the last entry at or below `loc`, or that there is none.
abbrev pub Locates : List BreakTableEl → ℕ → Outcome → Type 0
Locates t loc (found i) =
    (e : BreakTableEl) × (get_elem? t i ≡ some e)
    × (e.orig ≤ loc)
    × ((j : ℕ) (e' : BreakTableEl) → i < j → get_elem? t j ≡ some e' → loc < e'.orig)
Locates t loc absent = (j : ℕ) (e : BreakTableEl) → get_elem? t j ≡ some e → loc < e.orig
Locates t loc _ = ⊥

lt-length {ℓ} : {A : Type ℓ} (t : List A) (j : ℕ) (e : A) → get_elem? t j ≡ some e → j < length t
lt-length [] j e h = cc
lt-length (x ∷ t) zero e h = omega arith
lt-length (x ∷ t) (suc j) e h = omega (arith, lt-length t j e h)

beyond_rank :
    (t : List BreakTableEl) (loc j : ℕ) (e : BreakTableEl)
    → IsSorted t
    → get_elem? t j ≡ some e
    → rank t loc ≤ j
    → loc < e.orig
beyond_rank t loc j e sorted at far =
    let (e', at', test) = entry_test t loc j sorted (lt-length t j e at) in ground arith

answer-Locates :
    (t : List BreakTableEl) (loc r : ℕ) → IsSorted t → r ≡ rank t loc → Locates t loc (answer r)
answer-Locates t loc zero sorted is = λ j e at. beyond_rank t loc j e sorted at (omega arith)
answer-Locates t loc (suc r) sorted is =
    let (e, at, test) = entry_test t loc r sorted (omega (arith, rank-le-length t loc)) in
    (e, at, ground arith, λ j e' lt at'. beyond_rank t loc j e' sorted at' (omega arith))

-- On a table sorted by old address, the search ends within its fuel, reads no entry outside the
-- table, and returns the last entry whose address is at most `loc`, or NULL when every entry lies
-- above `loc`.
pub find_break_table_entry-Locates :
    (t : List BreakTableEl) (loc : ℕ) → IsSorted t → Locates t loc (find_break_table_entry t loc)
find_break_table_entry-Locates t loc sorted =
    rw (find-answer t loc sorted) (answer-Locates t loc (rank t loc) sorted refl)
