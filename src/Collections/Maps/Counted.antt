-- ===== src/Collections/Maps/Counted.antt =====
-- How many entries a table has.
use ggggc.Base.{
  ℕ, zero, suc, ◌+◌, ◌%◌, ◌≤◌, ◌<◌, ◌≡◌, refl, ap, inl, inr, false, [], ◌∷◌, arith, ◌==◌,
  Bool-cases, length,
}
use ggggc.Base.{ℤ}
use ggggc.Collections.Maps.{Chain, Entries, set_chain, rehash_chain, rehash}
use ggggc.Collections.Maps.Find.{equal_of}

-- the entries of the first `n` chains
abbrev pub total : (n : ℕ) → Entries → ℕ
total zero a = 0
total (suc n) a = length (a n) + total n a

-- those of the `n` chains from `i` on
abbrev from_on : (n i : ℕ) → Entries → ℕ
from_on zero i a = 0
from_on (suc n) i a = length (a i) + from_on n (i + 1) a

from_on-total : (n i : ℕ) (a : Entries) → from_on n i a + total i a ≡ total (i + n) a
from_on-total zero i a = let at : i ≡ i + 0 = omega arith in omega (arith, ap (λ j. total j a) at)
from_on-total (suc n) i a =
    let one : i + 1 ≡ suc i = omega arith in
    let more : suc i + n ≡ i + suc n = omega arith in
    omega (arith, from_on-total n (suc i) a, ap (λ j. from_on n j a) one, ap (λ j. total j a) more)

total-beyond : (n j : ℕ) (a : Entries) (c : Chain) → n ≤ j → total n (set_chain a j c) ≡ total n a
total-beyond zero j a c le = refl
total-beyond (suc n) j a c le =
    let other : (n == j) ≡ false = ground arith in
    rw (other, total-beyond n j a c (omega arith)) refl

pub total-set :
    (n j d : ℕ) (a : Entries) (c : Chain)
    → j < n
    → length c ≡ d + length (a j)
    → total n (set_chain a j c) ≡ d + total n a
total-set zero j d a c lt e = absurd (omega arith)
total-set (suc n) j d a c lt e = elim (Bool-cases (n == j)) [
  | inl here ↦
      let at : n ≡ j = equal_of n j here in
      rw (here, total-beyond n j a c (omega (arith, at)), e)
        (omega (arith, ap (λ i. length (a i)) at))
  | inr there ↦ rw (there, total-set n j d a c (ground (arith, there)) e) (omega arith)
]

module _ (hash : ℕ → ℕ) (cmp : ℕ → ℕ → ℤ) where
  rehash_chain-total :
      (n : ℕ) (c : Chain) (a : Entries)
      → 0 < n
      → total n (rehash_chain hash cmp n c a) ≡ length c + total n a
  rehash_chain-total n [] a pos = omega arith
  rehash_chain-total n (e ∷ t) a pos =
      let at = hash e.key % n in
      omega (
        arith,
        rehash_chain-total n t (set_chain a at (e ∷ a at)) pos,
        total-set n at 1 a (e ∷ a at) (omega arith) (omega arith),
      )

  rehash-from_on :
      (new_size n i : ℕ) (old a : Entries)
      → 0 < new_size
      → total new_size (rehash hash cmp new_size n i old a) ≡ from_on n i old + total new_size a
  unfolding rehash
  rehash-from_on new_size zero i old a pos = omega arith
  rehash-from_on new_size (suc n) i old a pos = omega (
    arith,
    rehash-from_on new_size n (i + 1) old (rehash_chain hash cmp new_size (old i) a) pos,
    rehash_chain-total new_size (old i) a pos,
  )

  pub rehash-total :
      (new_size n : ℕ) (old a : Entries)
      → 0 < new_size
      → total new_size (rehash hash cmp new_size n 0 old a) ≡ total n old + total new_size a
  rehash-total new_size n old a pos =
      let all : 0 + n ≡ n = omega arith in
      omega (
        arith,
        rehash-from_on new_size n 0 old a pos,
        from_on-total n 0 old,
        ap (λ j. total j old) all,
      )
