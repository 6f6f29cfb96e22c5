-- ===== src/MarkSweep/FreeList/FirstFit.antt =====
-- The search is first fit, and keeps the free list well formed.
use ggggc.Base.{
  ℕ, zero, suc, ◌+◌, ◌-◌, ◌≤◌, ◌<◌, ◌≡◌, refl, sym, ◌∙◌, ◌≢◌, ◌⊎◌, inl, inr, true, false, Option,
  none, some, [], ◌∷◌, arith, leb, ◌==◌, if◌then◌else◌, Bool-cases, Gives, Gives-mono, length,
}
use mathlib.Core.Path.{subst}
use ggggc.Heap.{write, null, word_at}
use ggggc.MarkSweep.FreeList.{
  FreeStore, Cell, list_head, next_of, target, redirect, unlink, split, find_space,
}
use ggggc.MarkSweep.FreeList.Elements.{
  Runs, Elements, Outside, Disjoint, SameElements, Elements-frame, SameElements-write,
  SameElements-trans, Outside-of_Off, CellOutside, NotCell, redirect-target, redirect-frame,
  redirect-SameElements, cell_not, cell_later,
}

-- `a` and `n` in front of the list that is left
abbrev pub behind : ℕ → ℕ → Option (ℕ × Runs) → Option (ℕ × Runs)
behind a n none = none
behind a n (some r) = some (r.0, (a, n) ∷ r.1)

-- The first run that has exactly `size` words, or at least four more, and the list without those words.
abbrev pub first_fit : ℕ → Runs → Option (ℕ × Runs)
first_fit size [] = none
first_fit size ((a, n) ∷ rs) =
    let later = behind a n (first_fit size rs) in
    if n == size
    then some (a, rs)
    else if leb (size + 4) n
    then some (a, (word_at a size, n - size) ∷ rs)
    else later

-- A write to the cell leaves the variable `freeList` alone, unless it is the cell.
abbrev pub KeepsHead : Cell → FreeStore → FreeStore → Type 0
KeepsHead list_head s s' = Unit
KeepsHead (next_of b) s s' = s'.free_list ≡ s.free_list

-- What a search at the cell `c` returns, and leaves, when first fit says `o`.
abbrev pub Agrees : Cell → FreeStore → Runs → Option (ℕ × Runs) → ℕ × FreeStore → Type 0
Agrees c s rs none r = (r.0 ≡ null) × (r.1 ≡ s)
Agrees c s rs (some (a, left)) r =
    (r.0 ≡ a)
    × (a ≢ null)
    × Elements r.1.memory (target c r.1) left
    × KeepsHead c s r.1
    × ((x : ℕ) → NotCell c x → Outside x rs → r.1.memory x ≡ s.memory x)

redirect-KeepsHead :
    (c : Cell) (v : ℕ) (s s' : FreeStore)
    → s'.free_list ≡ s.free_list
    → KeepsHead c s (redirect c v s')
redirect-KeepsHead list_head v s s' e = tt
redirect-KeepsHead (next_of b) v s s' e = e

module _ (size : ℕ) (some_words : 1 ≤ size) (a n : ℕ) (rs : Runs) (c : Cell) (s : FreeStore)
    (at : target c s ≡ a) (real : a ≢ null) (is : Elements s.memory (s.memory (word_at a 2)) rs)
    (d : Disjoint ((a, n) ∷ rs)) (apart : CellOutside c ((a, n) ∷ rs)) where
  unlinks : Agrees c s ((a, n) ∷ rs) (some (a, rs)) (a, unlink c s)
  unlinks =
      let link = s.memory (word_at a 2) in
      let same : unlink c s ≡ redirect c link s = rw at refl in
      subst (λ t. Agrees c s ((a, n) ∷ rs) (some (a, rs)) (a, t)) (sym same)
        (
          refl,
          real,
          rw (redirect-target c link s) (
              Elements-frame s.memory (redirect c link s).memory link rs
                (redirect-SameElements c link s rs d.2 (cell_later c a n rs apart)) is),
          redirect-KeepsHead c link s s refl,
          (λ x out outs. redirect-frame c link s x out),
        )

  splits :
      s.memory (word_at a 1) ≡ n
      → size + 4 ≤ n
      → Agrees c s ((a, n) ∷ rs) (some (a, (word_at a size, n - size) ∷ rs)) (a, split c size s)
  splits sized room =
      let next = word_at a size in
      let link = s.memory (word_at a 2) in
      let m1 = write s.memory (word_at next 2) link in
      let m2 = write m1 (word_at next 1) (m1 (word_at a 1) - size) in
      let m3 = write m2 next 0 in
      let s3 : FreeStore = record s { memory = m3 } in
      let s' = redirect c next s3 in
      let same_split : split c size s ≡ s' = rw at refl in
      let word : (x : ℕ) → a ≤ x → x < word_at a n → s'.memory x ≡ m3 x =
        λ x lo hi. redirect-frame c next s3 x (cell_not c a n x rs apart lo hi) in
      let off : (x : ℕ) → a ≤ x → x < word_at a n → Outside x rs =
        λ x lo hi. Outside-of_Off a n x rs lo hi d.1 in
      let same : SameElements s.memory s'.memory rs =
        SameElements-trans s.memory m1 s'.memory rs
          (SameElements-write s.memory (word_at next 2) link rs d.2
            (off (word_at next 2) (omega arith) (omega arith)))
          (SameElements-trans m1 m2 s'.memory rs
            (SameElements-write m1 (word_at next 1) (m1 (word_at a 1) - size) rs d.2
              (off (word_at next 1) (omega arith) (omega arith)))
            (SameElements-trans m2 m3 s'.memory rs
              (SameElements-write m2 next 0 rs d.2 (off next (omega arith) (omega arith)))
              (redirect-SameElements c next s3 rs d.2 (cell_later c a n rs apart)))) in
      let w0 : s'.memory next ≡ 0 = word next (omega arith) (omega arith) ∙ ground arith in
      let w1 : s'.memory (word_at next 1) ≡ n - size =
        word (word_at next 1) (omega arith) (omega arith) ∙ ground arith in
      let w2 : s'.memory (word_at next 2) ≡ link =
        word (word_at next 2) (omega arith) (omega arith) ∙ ground arith in
      subst (λ t. Agrees c s ((a, n) ∷ rs) (some (a, (next, n - size) ∷ rs)) (a, t))
        (sym same_split)
        (
          refl,
          real,
          (
            redirect-target c next s3,
            (λ e. omega arith),
            w0,
            w1,
            rw w2 (Elements-frame s.memory s'.memory link rs same is),
          ),
          redirect-KeepsHead c next s s3 refl,
          (λ x out outs. redirect-frame c next s3 x out ∙ elsewhere x outs.0),
        )
    where
      elsewhere :
          (x : ℕ)
          → (x < a) ⊎ (word_at a n ≤ x)
          → write
              (write
                (write s.memory (word_at (word_at a size) 2) (s.memory (word_at a 2)))
                (word_at (word_at a size) 1)
                (write s.memory (word_at (word_at a size) 2) (s.memory (word_at a 2)) (word_at a 1)
                  - size))
              (word_at a size)
              0
              x
            ≡ s.memory x
      elsewhere x out = ground arith

target-kept :
    (c : Cell) (s s' : FreeStore) (a n : ℕ) (rs : Runs)
    → 3 ≤ n
    → CellOutside c ((a, n) ∷ rs)
    → s'.free_list ≡ s.free_list
    → ((x : ℕ) → x ≢ word_at a 2 → Outside x rs → s'.memory x ≡ s.memory x)
    → target c s' ≡ target c s
target-kept list_head s s' a n rs room out head frame = head
target-kept (next_of b) s s' a n rs room (out, outs) head frame =
    frame (word_at b 2) (λ e. ground arith) outs

KeepsHead-of : (c : Cell) (s s' : FreeStore) → s'.free_list ≡ s.free_list → KeepsHead c s s'
KeepsHead-of list_head s s' e = tt
KeepsHead-of (next_of b) s s' e = e

-- The element in front stays as it is when the search goes on behind it.
skips :
    (c : Cell) (s : FreeStore) (a n : ℕ) (rs : Runs) (o : Option (ℕ × Runs)) (r : ℕ × FreeStore)
    → target c s ≡ a
    → a ≢ null
    → s.memory a ≡ 0
    → s.memory (word_at a 1) ≡ n
    → Disjoint ((a, n) ∷ rs)
    → CellOutside c ((a, n) ∷ rs)
    → Agrees (next_of a) s rs o r
    → Agrees c s ((a, n) ∷ rs) (behind a n o) r
skips c s a n rs none r at real zero_word sized d apart h = h
skips c s a n rs (some (b, left)) r at real zero_word sized d apart (e, real_b, is, head, frame) =
    let own : (x : ℕ) → a ≤ x → x < word_at a 2 → r.1.memory x ≡ s.memory x =
      λ x lo hi. frame x (λ f. omega arith) (Outside-of_Off a n x rs lo (omega (arith, d.0)) d.1) in
    (
      e,
      real_b,
      (
        target-kept c s r.1 a n rs d.0 apart head frame ∙ at,
        real,
        own a (omega arith) (omega arith) ∙ zero_word,
        own (word_at a 1) (omega arith) (omega arith) ∙ sized,
        is,
      ),
      KeepsHead-of c s r.1 head,
      (λ x out outs. frame x (λ f. ground (arith, d.0)) outs.1),
    )

find_space-null :
    (fuel size : ℕ) (c : Cell) (s : FreeStore)
    → target c s ≡ null
    → find_space (suc fuel) size c s ≡ some (null, s)
unfolding find_space
find_space-null fuel size c s at =
    let test : (target c s == null) ≡ true = rw at refl in rw (find_space, test) refl

find_space-element :
    (fuel size : ℕ) (c : Cell) (s : FreeStore) (a n : ℕ)
    → target c s ≡ a
    → a ≢ null
    → s.memory (word_at a 1) ≡ n
    → find_space (suc fuel) size c s ≡ (
        if n == size
        then some (a, unlink c s)
        else if leb (size + 4) n
        then some (a, split c size s)
        else find_space fuel size (next_of a) s)
unfolding find_space
find_space-element fuel size c s a n at real sized =
    let test : (target c s == null) ≡ false = rw at (ground arith) in
    let room : s.memory (word_at (target c s) 1) ≡ n = rw at sized in
    rw (find_space, test, room, at) refl

-- With fuel for every element the search ends, and does to the list in memory what `first_fit` says.
pub find_space-Agrees :
    (size : ℕ)
    → 1 ≤ size
    → (rs : Runs) (fuel : ℕ) (c : Cell) (s : FreeStore) → length rs < fuel
    → Elements s.memory (target c s) rs
    → Disjoint rs
    → CellOutside c rs
    → Gives (Agrees c s rs (first_fit size rs)) (find_space fuel size c s)
find_space-Agrees size words rs zero c s enough is d apart = absurd (omega arith)
find_space-Agrees size words [] (suc fuel) c s enough is d apart =
    rw (find_space-null fuel size c s is) (refl, refl)
find_space-Agrees size words ((a, n) ∷ rs) (suc fuel) c s enough (at, real, zero_word, sized, is) d
      apart =
    let later =
      find_space-Agrees size words rs fuel (next_of a) s (omega arith) is d.2
        (Outside-of_Off a n (word_at a 2) rs (omega arith) (omega (arith, d.0)) d.1) in
    rw (find_space-element fuel size c s a n at real sized) (elim (Bool-cases (n == size)) [
      | inl e ↦ rw e (unlinks size words a n rs c s at real is d apart)
      | inr ne ↦ elim (Bool-cases (leb (size + 4) n)) [
        | inl le ↦
            rw (ne, le) (splits size words a n rs c s at real is d apart sized (ground arith))
        | inr gt ↦
            rw (ne, gt)
              (Gives-mono (find_space fuel size (next_of a) s)
                (λ r. skips c s a n rs (first_fit size rs) r at real zero_word sized d apart) later)
      ]
    ])
