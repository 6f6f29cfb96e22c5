-- ===== src/Gembc/Compact/Slide.antt =====
-- The whole loop of ggggc_compact, and the compaction of a pool.
use ggggc.Base.{
  ℕ, zero, suc, ◌+◌, ◌-◌, ◌*◌, ◌/◌, ◌≤◌, ◌<◌, ◌≡◌, refl, sym, ◌∙◌, ◌⊎◌, inl, inr, some, List, [],
  ◌∷◌, ◌++◌, arith, ltb, leb, Bool-cases, length, Gives, Gives-mono, Gives-bind,
}
use mathlib.Core.Path.{subst}
use mathlib.Core.List.{Permᴰ, append-nil}
use mathlib.Core.List.Permᴰ
use ggggc.Heap.{Memory, null, word_at}
use ggggc.BreakTable.{BreakTableEl}
use ggggc.Gembc.Compact.{Compacting, compact_loop, Compacted, slide_chunks, finish}
use ggggc.Gembc.Compact.Table.{Table, turn, turn-Perm}
use ggggc.Gembc.Compact.Layout.{Run, behind, Layout, total, moves, Kept, Ready, Slid, Kept-same}
use ggggc.Gembc.Compact.Round.{
  after, entry_of, grown, after-below, after-above, after-cur, after-free, after-copied,
  after-Ready, loop-round, loop-last, loop-free,
}

subst2 {ℓ} :
    {A B : Type 0} (P : A → B → Type ℓ) {a a' : A} {b b' : B} → a ≡ a' → b ≡ b' → P a b → P a' b'
subst2 P {a} {a'} {b} {b'} e f h = subst (λ x. P x b') e (subst (P a) f h)

grown-Perm :
    (tab : List BreakTableEl) (k : Run) (s : Compacting)
    → Permᴰ (grown tab k s) (entry_of k s ∷ tab)
grown-Perm tab k s =
    let n = (k.used + 1) / 2 in
    Permᴰ.trans
      (subst (λ l. Permᴰ (grown tab k s) (entry_of k s ∷ l)) (append-nil (turn n tab))
        (Permᴰ.middle (entry_of k s) (turn n tab) []))
      (Permᴰ.cons refl (turn-Perm n tab))

ends-Slid :
    (end c : ℕ) (tab : List BreakTableEl) (s : Compacting)
    → Ready end tab [] s
    → s.bt_end ≤ end
    → Slid end tab [] s (record s { cur = c })
ends-Slid end c tab s ready le = record {
  free = omega arith;
  kept = tt;
  below = λ x lt. refl;
  table = tab;
  stands = ready.table;
  moved = Permᴰ.refl tab;
  entries = ready.entries;
  filled = ready.filled;
  fits = le;
}

after-Slid :
    (end : ℕ) (tab : List BreakTableEl) (k : Run) (ks : List Run) (s t : Compacting)
    → Ready end tab (k ∷ ks) s
    → Slid end (grown tab k s) ks (after k s) t
    → Slid end tab (k ∷ ks) s t
after-Slid end tab k ks s t ready rest =
    let free = after-free end tab k ks s ready in
    let cur = after-cur end tab k ks s ready in
    record {
      free = omega (arith, rest.free, free);
      kept = (
        (λ j lt.
            rest.below (word_at s.free j) (omega (arith, free))
            ∙ after-copied end tab k ks s ready j lt),
        Kept-same s.memory (after k s).memory t.memory (word_at s.free k.used) (behind s.cur k) ks
            (after-above end tab k ks s ready)
            (subst2 (λ f c. Kept (after k s).memory t.memory f c ks) free cur rest.kept),
      );
      below = λ x lt. rest.below x (omega (arith, free)) ∙ after-below end tab k ks s ready x lt;
      table = rest.table;
      stands = rest.stands;
      moved =
          Permᴰ.trans
            (subst2 (λ f c. Permᴰ rest.table (moves f c ks ++ grown tab k s)) free cur rest.moved)
            (Permᴰ.trans
              (Permᴰ.append_left (moves (word_at s.free k.used) (behind s.cur k) ks)
                (grown-Perm tab k s))
              (Permᴰ.middle (entry_of k s) (moves (word_at s.free k.used) (behind s.cur k) ks)
                tab));
      entries = rest.entries;
      filled = rest.filled;
      fits = rest.fits;
    }

pub no_chunks : (m : Memory) (c end : ℕ) (ks : List Run) → end ≤ c → Layout m c end ks → ks ≡ []
no_chunks m c end [] le h = refl
no_chunks m c end (k ∷ ks) le (u, w, a, b, l, h) = absurd (omega arith)

last-Slid :
    (end : ℕ) (tab : List BreakTableEl) (k : Run) (ks : List Run) (s : Compacting)
    → Ready end tab (k ∷ ks) s
    → behind s.cur k ≡ end
    → Slid end tab (k ∷ ks) s (after k s)
last-Slid end tab k ks s ready done =
    let next = after-Ready end tab k ks s ready in
    let at : (after k s).cur ≡ end = after-cur end tab k ks s ready ∙ done in
    let none_left : ks ≡ [] =
      no_chunks (after k s).memory end end ks (omega arith)
        (subst (λ c. Layout (after k s).memory c end ks) at next.layout) in
    after-Slid end tab k ks s (after k s) ready (
      subst (λ l. Slid end (grown tab k s) l (after k s) (after k s)) (sym none_left)
        (ends-Slid end (after k s).cur (grown tab k s) (after k s)
          (subst (λ l. Ready end (grown tab k s) l (after k s)) none_left next)
          (omega (arith, next.fits, at))))

pub compact_loop-Slid :
    (fuel end : ℕ) (tab : List BreakTableEl) (ks : List Run) (s : Compacting)
    → length ks < fuel
    → Ready end tab ks s
    → s.cur < end
    → Gives (Slid end tab ks s) (compact_loop fuel end (s.memory s.cur) s)
compact_loop-Slid zero end tab ks s enough ready inside = absurd (omega arith)
compact_loop-Slid (suc fuel) end tab [] s enough ready inside =
    let stop : word_at s.cur (s.memory s.cur) ≡ end = ground (arith, ready.layout) in
    rw (loop-free fuel end s stop) (ends-Slid end _ tab s ready (omega (arith, ready.fits)))
compact_loop-Slid (suc fuel) end tab (k ∷ ks) s enough ready inside =
    let next = after-Ready end tab k ks s ready in
    elim (Bool-cases (ltb (behind s.cur k) end)) [
      | inl more ↦ rw (loop-round fuel end s tab k ks ready (ground arith)) (
          Gives-mono (compact_loop fuel end ((after k s).memory (after k s).cur) (after k s))
            (λ t. after-Slid end tab k ks s t ready)
            (compact_loop-Slid fuel end (grown tab k s) ks (after k s) (omega arith) next
              (ground (arith, after-cur end tab k ks s ready))))
      | inr done ↦
          let stop : behind s.cur k ≡ end = ground (arith, ready.layout.4) in
          rw (loop-last fuel end s tab k ks ready stop) (last-Slid end tab k ks s ready stop)
    ]

-- how many chunks there can be
runs_le : (m : Memory) (c end : ℕ) (ks : List Run) → Layout m c end ks → length ks + c ≤ end
runs_le m c end [] h = ground (arith, h)
runs_le m c end (k ∷ ks) (u, w, a, b, l, h) = omega (arith, runs_le m (behind c k) end ks h)

-- What the compaction of a pool promises, when the chunks `ks` follow the first used chunk, which ends at `cur`.
pub record IsCompacted (cur end : ℕ) (ks : List Run) (m : Memory) (t : Compacted) : Type 0 where
  pub free : t.free ≡ word_at cur (total ks)
  pub kept : Kept m t.memory cur cur ks
  pub below : (x : ℕ) → x < cur → t.memory x ≡ m x
  pub table : List BreakTableEl
  pub stands : Table t.memory t.break_table table
  pub moved : Permᴰ table (moves cur cur ks)
  pub entries : t.break_table_size ≡ length table
  pub room :
      (length table ≡ 0)
      ⊎ ((t.free ≤ t.break_table) × (t.break_table + 16 * t.break_table_size ≤ end))

finish-IsCompacted :
    (cur end : ℕ) (ks : List Run) (m : Memory) (s : Compacting)
    → Slid end [] ks (record { memory = m; free = cur; cur = cur; bt = cur; bt_end = cur }) s
    → IsCompacted cur end ks m (finish s)
finish-IsCompacted cur end ks m s d =
    let size : (s.bt_end - s.bt) / 16 ≡ length d.table = omega (arith, d.entries) in
    record {
      free = d.free;
      kept = d.kept;
      below = d.below;
      table = d.table;
      stands = d.stands;
      moved = subst (λ l. Permᴰ d.table l) (append-nil (moves cur cur ks)) d.moved;
      entries = size;
      room = inr (d.filled, omega (arith, d.fits, d.entries, size));
    }

-- Take a pool whose chunks are as ggggc_countUsed leaves them, with three words or more in each unused chunk except
-- at the end of the pool. Then the loop of ggggc_compact ends within its fuel; the words of each used
-- chunk are at its new place, and no word below the first unused chunk changed. The break table has one
-- entry for each chunk that moved, in some order, with its old and its new place; unless it is empty it
-- stands above the used words, and it ends inside the pool.
pub slide_chunks-IsCompacted :
    (start end first_size : ℕ) (ks : List Run) (m : Memory)
    → Layout m (word_at start first_size) end ks
    → Gives (IsCompacted (word_at start first_size) end ks m) (slide_chunks start end first_size m)
unfolding slide_chunks
slide_chunks-IsCompacted start end first_size ks m layout =
    let cur = word_at start first_size in
    let s0 : Compacting = record { memory = m; free = cur; cur = cur; bt = cur; bt_end = cur } in
    let ready : Ready end [] ks s0 = record {
      layout = layout;
      filled = omega arith;
      entries = omega arith;
      fits = omega arith;
      table = tt;
    } in
    elim (Bool-cases (leb end cur)) [
      | inl full ↦ rw full (
          subst
            (λ l.
              IsCompacted cur end l m
                (record { memory = m; free = cur; break_table = null; break_table_size = 0 }))
            (sym (no_chunks m cur end ks (ground arith) layout))
            (record {
              free = omega arith;
              kept = tt;
              below = λ x lt. refl;
              table = [];
              stands = tt;
              moved = Permᴰ.refl [];
              entries = refl;
              room = inl refl;
            }))
      | inr more ↦ rw more (
          Gives-bind (IsCompacted cur end ks m) (compact_loop (suc (end - cur)) end (m cur) s0)
            (λ s. some (finish s)) (λ s. finish-IsCompacted cur end ks m s)
            (compact_loop-Slid (suc (end - cur)) end [] ks s0
              (ground (arith, runs_le m cur end ks layout)) ready (ground arith)))
    ]
