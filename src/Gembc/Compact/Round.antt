-- ===== src/Gembc/Compact/Round.antt =====
-- One round of the loop of ggggc_compact: an unused chunk is skipped and the used one behind it slides down.
use ggggc.Base.{
  ℕ, suc, ◌+◌, ◌-◌, ◌*◌, ◌/◌, ◌≤◌, ◌<◌, ◌≡◌, refl, sym, ap, ◌∙◌, ◌⊎◌, inl, inr, Bool, true, false,
  some, List, [], ◌∷◌, ◌++◌, arith, ltb, leb, if◌then◌else◌, lt→ltb, length, length-append,
}
use mathlib.Core.Path.{subst}
use ggggc.Heap.{word_at}
use ggggc.BreakTable.{BreakTableEl}
use ggggc.Gembc.Compact.{Compacting, move_chunk, add_entry, compact_loop}
use ggggc.Gembc.Compact.Table.{turn, turn-length, Table-same, Table-append}
use ggggc.Gembc.Compact.Chunk.{Moved, move_chunk-Moved}
use ggggc.Gembc.Compact.Layout.{Run, used_at, behind, Layout, Ready, Layout-same}

abbrev rounds : Run → ℕ
rounds k = (k.used + 1) / 2

abbrev at_used : Run → Compacting → Compacting
at_used k s = record s { cur = used_at s.cur k }

abbrev slide : Run → Compacting → Compacting
slide k s = move_chunk (rounds k) 0 (at_used k s)

-- the state after the round
abbrev pub after : Run → Compacting → Compacting
after k s = add_entry k.used (slide k s)

abbrev pub entry_of : Run → Compacting → BreakTableEl
entry_of k s = record { orig = used_at s.cur k; new_l = s.free }

-- the table after the round
abbrev pub grown : List BreakTableEl → Run → Compacting → List BreakTableEl
grown tab k s = turn (rounds k) tab ++ entry_of k s ∷ []

pub grown-length :
    (tab : List BreakTableEl) (k : Run) (s : Compacting) → length (grown tab k s) ≡ suc (length tab)
grown-length tab k s =
    omega
      (arith, length-append (turn (rounds k) tab) (entry_of k s ∷ []), turn-length (rounds k) tab)

module _ (end : ℕ) (tab : List BreakTableEl) (k : Run) (ks : List Run) (s : Compacting)
    (ready : Ready end tab (k ∷ ks) s) where
  slid : Moved (rounds k) 0 tab (at_used k s) (slide k s)
  slid =
      move_chunk-Moved (rounds k) 0 tab (at_used k s)
        (omega (arith, ready.filled), ready.entries, omega (arith, ready.fits, ready.layout.2))
        ready.table

  -- the words that the new entry does not take
  entry_others :
      (x : ℕ)
      → (x < (slide k s).bt_end) ⊎ ((slide k s).bt_end + 16 ≤ x)
      → (after k s).memory x ≡ (slide k s).memory x
  entry_others x out = ground (arith, out)

  pub after-below : (x : ℕ) → x < s.free → (after k s).memory x ≡ s.memory x
  after-below x lt =
      entry_others x (inl (omega (arith, slid.bt_end, ready.filled, ready.entries)))
      ∙ slid.below x (omega arith)

  pub after-above : (x : ℕ) → behind s.cur k ≤ x → (after k s).memory x ≡ s.memory x
  after-above x le =
      entry_others x (inr (omega (arith, slid.bt_end, ready.fits, ready.layout.2)))
      ∙ slid.above x (omega (arith, ready.fits, ready.layout.2))

  pub after-cur : (after k s).cur ≡ behind s.cur k
  after-cur = ap (λ c. word_at c k.used) slid.cur

  pub after-free : (after k s).free ≡ word_at s.free k.used
  after-free = ap (λ c. word_at c k.used) slid.free

  pub after-copied :
      (j : ℕ)
      → j < k.used
      → (after k s).memory (word_at s.free j) ≡ s.memory (word_at (used_at s.cur k) j)
  after-copied j lt =
      entry_others (word_at s.free j)
        (inl (omega (arith, slid.bt_end, ready.filled, ready.entries)))
      ∙ ap (slide k s).memory (omega arith)
      ∙ slid.copied j (omega arith)
      ∙ ap s.memory (omega arith)

  pub after-Ready : Ready end (grown tab k s) ks (after k s)
  after-Ready =
      let t = slide k s in
      let ends : t.bt_end ≡ t.bt + 16 * length (turn (rounds k) tab) =
        omega (arith, slid.bt, slid.bt_end, ready.entries, turn-length (rounds k) tab) in
      record {
        layout =
            subst (λ c. Layout (after k s).memory c end ks) (sym after-cur)
              (Layout-same s.memory (after k s).memory (behind s.cur k) end ks after-above
                ready.layout.5);
        filled = omega (arith, after-free, slid.bt, ready.filled);
        entries = omega (arith, grown-length tab k s, ends, turn-length (rounds k) tab);
        fits = omega (arith, after-cur, slid.bt_end, ready.fits, ready.layout.2);
        table =
            Table-append (after k s).memory t.bt t.bt_end (turn (rounds k) tab) (entry_of k s) ends
              (Table-same t.memory (after k s).memory t.bt (turn (rounds k) tab)
                (λ x le lt. entry_others x (inl (omega (arith, ends)))) slid.table)
              (ground (arith, slid.cur)) (ground (arith, slid.free));
      }

choose_first {ℓ} : {A : Type ℓ} (b : Bool) (x y : A) → b ≡ true → (if b then x else y) ≡ x
choose_first b x y e = rw e refl

choose_second {ℓ} :
    {A : Type ℓ} (b c : Bool) (x y z : A)
    → b ≡ false
    → c ≡ true
    → (if b then x else (if c then y else z)) ≡ y
choose_second b c x y z e f = rw (e, f) refl

choose_third {ℓ} :
    {A : Type ℓ} (b c : Bool) (x y z : A)
    → b ≡ false
    → c ≡ false
    → (if b then x else (if c then y else z)) ≡ z
choose_third b c x y z e f = rw (e, f) refl

next_size : (end : ℕ) (k : Run) (s : Compacting) → ℕ
next_size end k s = if ltb (behind s.cur k) end then s.memory (behind s.cur k) else 0

loop-eq :
    (fuel end fch_size ch_size : ℕ) (s : Compacting)
    → s.memory (word_at s.cur fch_size - 8) ≡ ch_size
    → let k : Run = record { unused = fch_size; used = ch_size } in
      compact_loop (suc fuel) end fch_size s ≡ (
        if leb end (used_at s.cur k)
        then some (at_used k s)
        else (if leb end (after k s).cur
            then some (after k s)
            else compact_loop fuel end (next_size end k s) (after k s)))
unfolding compact_loop next_size
loop-eq fuel end fch_size ch_size s e = rw e refl

module _ (fuel end : ℕ) (s : Compacting) where
  -- the loop at an unused chunk, when the pool goes on behind the used one
  pub loop-round :
      (tab : List BreakTableEl) (k : Run) (ks : List Run)
      → Ready end tab (k ∷ ks) s
      → behind s.cur k < end
      → compact_loop (suc fuel) end (s.memory s.cur) s
        ≡ compact_loop fuel end ((after k s).memory (after k s).cur) (after k s)
  unfolding next_size
  loop-round tab k ks ready more =
      let next : next_size end k s ≡ (after k s).memory (after k s).cur =
        rw (lt→ltb (behind s.cur k) end more) (
          sym (
            ap (after k s).memory (after-cur end tab k ks s ready)
            ∙ after-above end tab k ks s ready (behind s.cur k) (omega arith))) in
      ap (λ u. compact_loop (suc fuel) end u s) ready.layout.0
      ∙ loop-eq fuel end k.unused k.used s ready.layout.1
      ∙ choose_third (leb end (used_at s.cur k)) (leb end (after k s).cur) _ _ _ (ground arith)
          (ground (arith, after-cur end tab k ks s ready))
      ∙ ap (λ u. compact_loop fuel end u (after k s)) next

  pub loop-last :
      (tab : List BreakTableEl) (k : Run) (ks : List Run)
      → Ready end tab (k ∷ ks) s
      → behind s.cur k ≡ end
      → compact_loop (suc fuel) end (s.memory s.cur) s ≡ some (after k s)
  loop-last tab k ks ready stop =
      ap (λ u. compact_loop (suc fuel) end u s) ready.layout.0
      ∙ loop-eq fuel end k.unused k.used s ready.layout.1
      ∙ choose_second (leb end (used_at s.cur k)) (leb end (after k s).cur) _ _ _
          (ground (arith, ready.layout.3)) (ground (arith, after-cur end tab k ks s ready))

  pub loop-free :
      word_at s.cur (s.memory s.cur) ≡ end
      → compact_loop (suc fuel) end (s.memory s.cur) s
        ≡ some (record s { cur = word_at s.cur (s.memory s.cur) })
  loop-free stop =
      loop-eq fuel end (s.memory s.cur) _ s refl
      ∙ choose_first (leb end (word_at s.cur (s.memory s.cur))) _ _ (ground (arith, stop))
