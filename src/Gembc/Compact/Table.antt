-- ===== src/Gembc/Compact/Table.antt =====
-- The break table in memory while it is built, and what one round of the copying loop does to it.
use ggggc.Base.{
  ℕ, zero, suc, ◌+◌, ◌*◌, ◌≤◌, ◌<◌, ◌≡◌, refl, ap, ◌∙◌, ◌≢◌, List, [], ◌∷◌, ◌++◌, arith, length,
  length-append,
}
use mathlib.Core.Path.{subst}
use mathlib.Core.List.{Permᴰ, append-nil}
use mathlib.Core.List.Permᴰ
use ggggc.Heap.{Memory}
use ggggc.BreakTable.{BreakTableEl}
use ggggc.Gembc.Compact.{copy_pair}

-- The entries `t` stand at `p`, 16 bytes for each.
abbrev pub Table : Memory → ℕ → List BreakTableEl → Type 0
Table m p [] = Unit
Table m p (e ∷ t) = (m p ≡ e.orig) × (m (p + 8) ≡ e.new_l) × Table m (p + 16) t

-- The first entry goes to the end.
abbrev pub roll {ℓ} : {A : Type ℓ} → List A → List A
roll [] = []
roll (e ∷ t) = t ++ e ∷ []

abbrev pub turn {ℓ} : {A : Type ℓ} → ℕ → List A → List A
turn zero t = t
turn (suc n) t = turn n (roll t)

pub roll-length {ℓ} : {A : Type ℓ} (t : List A) → length (roll t) ≡ length t
roll-length [] = refl
roll-length (e ∷ t) = omega (arith, length-append t (e ∷ []))

pub turn-length {ℓ} : {A : Type ℓ} (n : ℕ) (t : List A) → length (turn n t) ≡ length t
turn-length zero t = refl
turn-length (suc n) t = turn-length n (roll t) ∙ roll-length t

roll-Perm {ℓ} : {A : Type ℓ} (t : List A) → Permᴰ (roll t) t
roll-Perm [] = Permᴰ.refl []
roll-Perm (e ∷ t) = subst (λ l. Permᴰ (t ++ e ∷ []) (e ∷ l)) (append-nil t) (Permᴰ.middle e t [])

pub turn-Perm {ℓ} : {A : Type ℓ} (n : ℕ) (t : List A) → Permᴰ (turn n t) t
turn-Perm zero t = Permᴰ.refl t
turn-Perm (suc n) t = Permᴰ.trans (turn-Perm n (roll t)) (roll-Perm t)

pub Table-same :
    (m m' : Memory) (p : ℕ) (t : List BreakTableEl)
    → ((x : ℕ) → p ≤ x → x < p + 16 * length t → m' x ≡ m x)
    → Table m p t
    → Table m' p t
Table-same m m' p [] same h = tt
Table-same m m' p (e ∷ t) same (o, n, h) = (
  same p (omega arith) (omega arith) ∙ o,
  same (p + 8) (omega arith) (omega arith) ∙ n,
  Table-same m m' (p + 16) t (λ x l g. same x (omega arith) (omega arith)) h,
)

pub Table-append :
    (m : Memory) (p q : ℕ) (t : List BreakTableEl) (e : BreakTableEl)
    → q ≡ p + 16 * length t
    → Table m p t
    → m q ≡ e.orig
    → m (q + 8) ≡ e.new_l
    → Table m p (t ++ e ∷ [])
Table-append m p q [] e is h o n = (ap m (omega arith) ∙ o, ap m (omega arith) ∙ n, tt)
Table-append m p q (e' ∷ t) e is (o', n', h) o n =
    (o', n', Table-append m (p + 16) q t e (omega arith) h o n)

module _ (m : Memory) (to from : ℕ) (apart : from + 8 ≢ to) where
  pub copy_first : copy_pair m to from to ≡ m from
  copy_first = ground arith

  pub copy_second : copy_pair m to from (to + 8) ≡ m (from + 8)
  copy_second = ground arith

  pub copy_others : (x : ℕ) → x ≢ to → x ≢ to + 8 → copy_pair m to from x ≡ m x
  copy_others x p q = ground arith
