-- ===== src/Blocking/Tally.antt =====
-- How many threads are blocked, and lists of threads from which one is taken.
use ggggc.Base.{
  ℕ, zero, suc, ◌+◌, ◌≤◌, ◌<◌, ◌≡◌, refl, sym, ap, ◌∙◌, ◌≢◌, inl, inr, Bool, true, false, Option,
  none, some, List, [], ◌∷◌, arith, ◌==◌, if◌then◌else◌, Bool-cases, length,
}
use ggggc.Base.{has, Distinct}
use ggggc.Blocking.{threads_of, one_more, unlink_own}

abbrev pub bit : Bool → ℕ
bit true = 1
bit false = 0

-- how many of the threads below `n` satisfy `f`
abbrev pub tally : ℕ → (ℕ → Bool) → ℕ
tally zero f = 0
tally (suc n) f = bit (f n) + tally n f

pub tally_none : (n : ℕ) → tally n (λ t. false) ≡ 0
tally_none zero = refl
tally_none (suc n) = omega (arith, tally_none n)

tally_le : (n : ℕ) (f : ℕ → Bool) → tally n f ≤ n
tally_le zero f = omega arith
tally_le (suc n) f =
    let rest = tally_le n f in
    elim (Bool-cases (f n)) [ inl e ↦ rw e (omega arith) | inr e ↦ rw e (omega arith) ]

pub tally_lt : (n : ℕ) (f : ℕ → Bool) (t : ℕ) → t < n → f t ≡ false → tally n f < n
tally_lt zero f t lt idle = absurd (omega arith)
tally_lt (suc n) f t lt idle = elim (Bool-cases (t == n)) [
  | inl e ↦
      let same : t ≡ n = ground arith in
      let last : f n ≡ false = ap f (sym same) ∙ idle in rw last (omega (arith, tally_le n f))
  | inr ne ↦
      let rest = tally_lt n f t (ground arith) idle in
      elim (Bool-cases (f n)) [ inl e ↦ rw e (omega arith) | inr e ↦ rw e (omega arith) ]
]

tally_same :
    (n : ℕ) (f : ℕ → Bool) (t : ℕ) (b : Bool)
    → n ≤ t
    → tally n (λ u. if u == t then b else f u) ≡ tally n f
tally_same zero f t b le = refl
tally_same (suc n) f t b le =
    let other : (n == t) ≡ false = ground arith in
    let rest = tally_same n f t b (omega arith) in rw (other, rest) refl

pub tally_set :
    (n : ℕ) (f : ℕ → Bool) (t : ℕ) (b : Bool)
    → t < n
    → tally n (λ u. if u == t then b else f u) + bit (f t) ≡ tally n f + bit b
tally_set zero f t b lt = absurd (omega arith)
tally_set (suc n) f t b lt = elim (Bool-cases (n == t)) [
  | inl e ↦
      let same : n ≡ t = ground arith in
      let rest = tally_same n f t b (omega arith) in rw (e, rest, same) (omega arith)
  | inr ne ↦ let rest = tally_set n f t b (ground arith) in rw ne (omega arith)
]

pub length-unlink_own :
    (t : ℕ) (xs : List ℕ) → has t xs ≡ true → suc (length (unlink_own t xs)) ≡ length xs
length-unlink_own t [] h = cc h
length-unlink_own t (x ∷ xs) h = elim (Bool-cases (x == t)) [
  | inl e ↦ rw e refl
  | inr ne ↦ rw ne (omega (arith, length-unlink_own t xs (ground arith)))
]

pub has-unlink_own :
    (t : ℕ) (xs : List ℕ)
    → Distinct xs
    → (u : ℕ) → has u (unlink_own t xs) ≡ (if u == t then false else has u xs)
has-unlink_own t [] d u = ground arith
has-unlink_own t (x ∷ xs) d u =
    let rest = has-unlink_own t xs d.1 u in
    elim (Bool-cases (x == t)) [
      | inl e ↦ rw e (elim (Bool-cases (u == t)) [
        | inl own ↦ let same : u ≡ x = ground arith in rw own (ap (λ y. has y xs) same ∙ d.0)
        | inr other ↦ let apart : (u == x) ≡ false = ground arith in rw (other, apart) refl
      ])
      | inr ne ↦ rw ne (elim (Bool-cases (u == t)) [
        | inl own ↦
            let apart : (u == x) ≡ false = ground arith in
            let gone : has u (unlink_own t xs) ≡ false = rest ∙ rw own refl in rw (own, apart) gone
        | inr other ↦
            let kept : has u (unlink_own t xs) ≡ has u xs = rest ∙ rw other refl in
            rw (other, kept) refl
      ])
    ]

pub Distinct-unlink_own : (t : ℕ) (xs : List ℕ) → Distinct xs → Distinct (unlink_own t xs)
Distinct-unlink_own t [] d = tt
Distinct-unlink_own t (x ∷ xs) d = elim (Bool-cases (x == t)) [
  | inl e ↦ rw e d.1
  | inr ne ↦ rw ne (has-unlink_own t xs d.1 x ∙ rw ne d.0, Distinct-unlink_own t xs d.1)
]

pub one_more-threads_of : (o : Option ℕ) → o ≢ none → one_more o ≡ threads_of o + 1
one_more-threads_of none is_set = absurd (is_set refl)
one_more-threads_of (some n) is_set = refl

pub not_empty : (t : ℕ) (xs : List ℕ) → has t xs ≡ true → xs ≢ []
not_empty t [] h = absurd (cc h)
not_empty t (x ∷ xs) h = λ e. cc e
