-- ===== src/Gembc/Compact/Chunk.antt =====
-- One used chunk slides down, two words a round, and the table rolls along.
use ggggc.Base.{
  ℕ, zero, suc, ◌+◌, ◌*◌, ◌≤◌, ◌<◌, ◌≡◌, refl, ap, ◌∙◌, ◌≢◌, ◌⊎◌, inl, inr, List, [], ◌∷◌, arith,
  length,
}
use ggggc.Heap.{word_at}
use ggggc.BreakTable.{BreakTableEl}
use ggggc.Gembc.Compact.{Compacting, copy_pair, move_two, move_chunk}
use ggggc.Gembc.Compact.Table.{
  Table, roll, turn, roll-length, Table-same, Table-append, copy_first, copy_second, copy_others,
}

-- The table has `k` entries, the words `i` and on go below it, and above it there is room for one more entry
-- below the words to move.
abbrev pub Room : ℕ → ℕ → Compacting → Type 0
Room k i s =
    (word_at s.free i ≤ s.bt) × (s.bt_end ≡ s.bt + 16 * k) × (s.bt_end + 16 ≤ word_at s.cur i)

module _ (k i : ℕ) (s : Compacting) (room : Room k i s) where
  entry_apart : s.bt + 8 ≢ s.bt_end
  entry_apart e = omega (arith, room.1)

  words_apart : word_at s.cur i + 8 ≢ word_at s.free i
  words_apart e = omega (arith, room.0, room.1, room.2)

  moved_first : (move_two i s).memory (word_at s.free i) ≡ s.memory (word_at s.cur i)
  moved_first =
      copy_first (copy_pair s.memory s.bt_end s.bt) (word_at s.free i) (word_at s.cur i) words_apart
      ∙ copy_others s.memory s.bt_end s.bt entry_apart (word_at s.cur i)
          (λ e. omega (arith, room.2)) (λ e. omega (arith, room.2))

  moved_second : (move_two i s).memory (word_at s.free i + 8) ≡ s.memory (word_at s.cur i + 8)
  moved_second =
      copy_second (copy_pair s.memory s.bt_end s.bt) (word_at s.free i) (word_at s.cur i)
        words_apart
      ∙ copy_others s.memory s.bt_end s.bt entry_apart (word_at s.cur i + 8)
          (λ e. omega (arith, room.2)) (λ e. omega (arith, room.2))

  not_words :
      (x : ℕ)
      → (x < word_at s.free i) ⊎ (word_at s.free i + 16 ≤ x)
      → (move_two i s).memory x ≡ copy_pair s.memory s.bt_end s.bt x
  not_words x out =
      copy_others (copy_pair s.memory s.bt_end s.bt) (word_at s.free i) (word_at s.cur i)
        words_apart x (λ e. ground (arith, out, e)) (λ e. ground (arith, out, e))

  not_entry :
      (x : ℕ)
      → (x < s.bt_end) ⊎ (s.bt_end + 16 ≤ x)
      → copy_pair s.memory s.bt_end s.bt x ≡ s.memory x
  not_entry x out =
      copy_others s.memory s.bt_end s.bt entry_apart x (λ e. ground (arith, out, e))
        (λ e. ground (arith, out, e))

  moved_below : (x : ℕ) → x < word_at s.free i → (move_two i s).memory x ≡ s.memory x
  moved_below x lt = not_words x (inl lt) ∙ not_entry x (inl (omega (arith, room.0, room.1)))

  moved_above : (x : ℕ) → s.bt_end + 16 ≤ x → (move_two i s).memory x ≡ s.memory x
  moved_above x le = not_words x (inr (omega (arith, room.0, room.1))) ∙ not_entry x (inr le)

moved-Table :
    (tab : List BreakTableEl) (i : ℕ) (s : Compacting)
    → Room (length tab) i s
    → Table s.memory s.bt tab
    → Table (move_two i s).memory (s.bt + 16) (roll tab)
moved-Table [] i s room h = tt
moved-Table (e ∷ t) i s room (o, n, h) =
    Table-append (move_two i s).memory (s.bt + 16) s.bt_end t e (omega (arith, room.1))
      (Table-same s.memory (move_two i s).memory (s.bt + 16) t
        (λ x le lt.
          not_words (length (e ∷ t)) i s room x (inr (omega (arith, room.0)))
          ∙ not_entry (length (e ∷ t)) i s room x (inl (omega (arith, room.1))))
        h)
      (not_words (length (e ∷ t)) i s room s.bt_end (inr (omega (arith, room.0, room.1)))
        ∙ copy_first s.memory s.bt_end s.bt (entry_apart (length (e ∷ t)) i s room)
        ∙ o)
      (not_words (length (e ∷ t)) i s room (s.bt_end + 8) (inr (omega (arith, room.0, room.1)))
        ∙ copy_second s.memory s.bt_end s.bt (entry_apart (length (e ∷ t)) i s room)
        ∙ n)

-- What `n` rounds from the word `i` on do, when the table starts with `tab`.
pub record Moved (n i : ℕ) (tab : List BreakTableEl) (s t : Compacting) : Type 0 where
  pub free : t.free ≡ s.free
  pub cur : t.cur ≡ s.cur
  pub bt : t.bt ≡ s.bt + 16 * n
  pub bt_end : t.bt_end ≡ s.bt_end + 16 * n
  pub copied :
      (j : ℕ) → j < 2 * n → t.memory (word_at s.free (i + j)) ≡ s.memory (word_at s.cur (i + j))
  pub below : (x : ℕ) → x < word_at s.free i → t.memory x ≡ s.memory x
  pub above : (x : ℕ) → s.bt_end + 16 * n ≤ x → t.memory x ≡ s.memory x
  pub table : Table t.memory t.bt (turn n tab)

copied_on :
    (n i k : ℕ) (tab : List BreakTableEl) (s t : Compacting)
    → Room k i s
    → Moved n (i + 2) tab (move_two i s) t
    → (j : ℕ) → j < 2 * suc n
    → t.memory (word_at s.free (i + j)) ≡ s.memory (word_at s.cur (i + j))
copied_on n i k tab s t room rest zero lt =
    ap t.memory (omega arith)
    ∙ rest.below (word_at s.free i) (omega arith)
    ∙ moved_first k i s room
    ∙ ap s.memory (omega arith)
copied_on n i k tab s t room rest (suc zero) lt =
    ap t.memory (omega arith)
    ∙ rest.below (word_at s.free i + 8) (omega arith)
    ∙ moved_second k i s room
    ∙ ap s.memory (omega arith)
copied_on n i k tab s t room rest (suc (suc j)) lt =
    ap t.memory (omega arith)
    ∙ rest.copied j (omega arith)
    ∙ moved_above k i s room (word_at s.cur (i + 2 + j)) (omega (arith, room.2))
    ∙ ap s.memory (omega arith)

pub move_chunk-Moved :
    (n i : ℕ) (tab : List BreakTableEl) (s : Compacting)
    → Room (length tab) i s
    → Table s.memory s.bt tab
    → Moved n i tab s (move_chunk n i s)
unfolding move_chunk
move_chunk-Moved zero i tab s room h = record {
  free = refl;
  cur = refl;
  bt = omega arith;
  bt_end = omega arith;
  copied = λ j lt. absurd (omega arith);
  below = λ x lt. refl;
  above = λ x le. refl;
  table = h;
}
move_chunk-Moved (suc n) i tab s room h =
    let k = length tab in
    let rest : Moved n (i + 2) (roll tab) (move_two i s) (move_chunk n (i + 2) (move_two i s)) =
      move_chunk-Moved n (i + 2) (roll tab) (move_two i s)
        (omega arith, omega (arith, roll-length tab, room.1), omega arith)
        (moved-Table tab i s room h) in
    record {
      free = rest.free;
      cur = rest.cur;
      bt = omega (arith, rest.bt);
      bt_end = omega (arith, rest.bt_end);
      table = rest.table;
      below = λ x lt. rest.below x (omega arith) ∙ moved_below k i s room x lt;
      above = λ x le. rest.above x (omega arith) ∙ moved_above k i s room x (omega arith);
      copied = copied_on n i k (roll tab) s (move_chunk n (i + 2) (move_two i s)) room rest;
    }
