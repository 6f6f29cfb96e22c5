-- ===== src/Collections/Lists/Content.antt =====
-- What a list object stands for: the chain of its nodes.
use ggggc.Base.{
  ℕ, suc, ◌≡◌, refl, ◌∙◌, ◌≢◌, Bool, true, false, ◌||◌, Option, none, some, List, [], ◌∷◌, ◌++◌,
  arith, ◌==◌, length,
}
use ggggc.Collections.Store.{null, Node, ListObject, Store}

abbrev pub node : ℕ → ℕ → Node
node q v = record { next = q; el = v }

abbrev pub list_object : ℕ → ℕ → ℕ → ListObject
list_object n h t = record { length = n; head = h; tail = t }

-- address and element of each node, in order
abbrev pub Cells : Type 0
Cells = List (ℕ × ℕ)

abbrev pub has : ℕ → Cells → Bool
has a [] = false
has a (c ∷ xs) = (a == c.0) || has a xs

abbrev pub Distinct : Cells → Type 0
Distinct [] = Unit
Distinct (c ∷ xs) = (has c.0 xs ≡ false) × Distinct xs

-- From `p` the nodes `xs` lead to `q`.
abbrev pub Chain : (ℕ → Option Node) → ℕ → Cells → ℕ → Type 0
Chain nodes p [] q = p ≡ q
Chain nodes p ((a, v) ∷ xs) q =
    (p ≡ a) × (a ≢ null) × ((r : ℕ) × (nodes a ≡ some (node r v)) × Chain nodes r xs q)

-- The list at `l` is empty.
abbrev pub IsEmpty : Store → ℕ → Type 0
IsEmpty s l = s.lists l ≡ some (list_object 0 null null)

-- The list at `l` has the nodes `xs` and then the last node `(t, w)`.
pub record EndsWith (s : Store) (l : ℕ) (xs : Cells) (t w : ℕ) : Type 0 where
  pub head : ℕ
  pub object : s.lists l ≡ some (list_object (suc (length xs)) head t)
  pub front : Chain s.nodes head xs t
  pub not_null : t ≢ null
  pub last : s.nodes t ≡ some (node null w)
  pub distinct : Distinct xs
  pub apart : has t xs ≡ false

-- The list at `l` holds the nodes `xs`, and `head`, `tail` and `length` agree with them.
pub data IsList (s : Store) (l : ℕ) (cells : Cells) : Type 0 where
  empty : cells ≡ [] → IsEmpty s l → IsList s l cells
  ends : (xs : Cells) (t w : ℕ) → cells ≡ xs ++ (t, w) ∷ [] → EndsWith s l xs t w → IsList s l cells

-- A chain survives a change that spares its nodes.
pub Chain-frame :
    {nodes nodes' : ℕ → Option Node} (p q : ℕ) (xs : Cells)
    → ((a : ℕ) → has a xs ≡ true → nodes' a ≡ nodes a)
    → Chain nodes p xs q
    → Chain nodes' p xs q
Chain-frame p q [] same c = c
Chain-frame p q ((a, v) ∷ xs) same (e, ne, (r, at, c)) =
    (e, ne, (r, same a (ground arith) ∙ at, Chain-frame r q xs (λ b h. same b (ground arith)) c))

pub Chain-append :
    (nodes : ℕ → Option Node) (p q r : ℕ) (xs ys : Cells)
    → Chain nodes p xs q
    → Chain nodes q ys r
    → Chain nodes p (xs ++ ys) r
Chain-append nodes p q r [] ys c d = rw c d
Chain-append nodes p q r ((a, v) ∷ xs) ys (e, ne, (n, at, c)) d =
    (e, ne, (n, at, Chain-append nodes n q r xs ys c d))

pub has-append : (a : ℕ) (xs ys : Cells) → has a (xs ++ ys) ≡ (has a xs || has a ys)
has-append a [] ys = refl
has-append a (c ∷ xs) ys = ground (arith, has-append a xs ys)

pub Distinct-append :
    (xs ys : Cells)
    → Distinct xs
    → Distinct ys
    → ((a : ℕ) → has a xs ≡ true → has a ys ≡ false)
    → Distinct (xs ++ ys)
Distinct-append [] ys d e apart = e
Distinct-append (c ∷ xs) ys d e apart = (
  rw (has-append c.0 xs ys, d.0) (apart c.0 (ground arith)),
  Distinct-append xs ys d.1 e (λ a h. apart a (ground arith)),
)

pub not-has_of_none :
    (nodes : ℕ → Option Node) (a p q : ℕ) (xs : Cells)
    → Chain nodes p xs q
    → nodes a ≡ none
    → has a xs ≡ false
not-has_of_none nodes a p q [] c unused = refl
not-has_of_none nodes a p q ((b, v) ∷ xs) (e, ne, (r, at, c)) unused =
    ground (arith, not-has_of_none nodes a r q xs c unused)
