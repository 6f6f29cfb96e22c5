-- ===== src/MarkSweep/Sweep/Correct.antt =====
-- The whole sweep, whose first free block starts the free list.
use ggggc.Base.{
  ℕ, zero, suc, ◌+◌, ◌-◌, ◌<◌, ◌≡◌, refl, sym, ap, ◌∙◌, inl, inr, true, false, Option, none, some,
  List, [], ◌∷◌, arith, ◌==◌, Bool-cases,
}
use ggggc.Base.{Gives, Gives-mono}
use ggggc.Heap.{Memory, write, null, word_at}
use ggggc.MarkSweep.Mark.{is_marked}
use ggggc.MarkSweep.Sweep.{Pool, Sweeping, sweep_block, sweep_pools, Swept, count, close, sweep}
use ggggc.MarkSweep.Sweep.Layout.{
  Block, Piece, pool, block, pools, blocks, live_words, BlockAt, Tiled, Away, Apart, Unmarked,
  settle, free_runs, Links, SameHeaders-write, Unmarked-headers, Tiled-frame, Tiled-le,
}
use ggggc.MarkSweep.Sweep.Round.{kept_state, sweep_block-live, size-dead}
use ggggc.MarkSweep.Sweep.Rest.{swept_memory, write_ne, write_self}
use ggggc.MarkSweep.Sweep.Whole.{
  then_pools, finish, finish-at_end, finish-inside, sweep_pools-cons, finish-Done,
}

-- What a sweep does to the heap: the free list has the free runs, every live block lost its mark, no
-- word but a header or a link changed, and the survivors are the words of the live blocks.
pub record Cleaned (m : Memory) (bs : List Block) (kept : ℕ) (t : Swept) : Type 0 where
  pub free_list : Links (swept_memory t) (close t.state).free_list (free_runs bs) null
  pub unmarked : Unmarked m (swept_memory t) bs
  pub frame : (x : ℕ) → Away x bs → swept_memory t x ≡ m x
  pub survivors : t.survivors ≡ kept + live_words bs

-- No block was freed yet.
pub record NoRun (s : Sweeping) : Type 0 where
  pub last_free : s.last_free ≡ null
  pub free_list : s.free_list ≡ null

-- the first free block
abbrev first_state : Block → Sweeping → Sweeping
first_state b s = record s {
  memory = write s.memory b.addr b.size;
  free_list = b.addr;
  last_free = b.addr;
}

module _ (Size : ℕ → Type 0) where
  sweep_block-first :
      (b : Block) (s : Sweeping)
      → BlockAt Size s.memory b
      → b.live ≡ false
      → NoRun s
      → sweep_block b.addr s ≡ (word_at b.addr b.size, first_state b s)
  unfolding sweep_block
  sweep_block-first b s is dead idle =
      let marked : is_marked s.memory b.addr ≡ false = sym is.live ∙ dead in
      let itself : (b.addr == b.addr) ≡ true = ground arith in
      rw (marked, size-dead Size s.memory b is dead, idle.last_free, itself) refl

  counted_first :
      (p : Pool) (s : Sweeping) (bs : List Block) (o : Option Swept)
      → Gives (Cleaned s.memory bs 0) o
      → Gives
          (Cleaned s.memory bs s.kept)
          (elim o [ none ↦ none | some rest ↦ some (count p s rest) ])
  counted_first p s bs none d = elim d [ ]
  counted_first p s bs (some t) d = record {
    free_list = d.free_list;
    unmarked = d.unmarked;
    frame = d.frame;
    survivors = omega (arith, d.survivors);
  }

  nothing_freed :
      (p : Pool) (s : Sweeping) → NoRun s → Gives (Cleaned s.memory [] s.kept) (then_pools p [] s)
  unfolding sweep_pools
  nothing_freed p s idle =
      let test : (s.last_free == null) ≡ true = rw idle.last_free refl in
      let ends : close s ≡ s = rw test refl in
      record {
        free_list = ap (λ t. t.free_list) ends ∙ idle.free_list;
        unmarked = tt;
        frame = λ x away. ap (λ t. t.memory x) ends;
        survivors = omega arith;
      }

  abbrev After : Block → List Piece → ℕ → Pool → Type 0
  After b xs fuel p =
      (s' : Sweeping)
      → Tiled Size s'.memory (word_at b.addr b.size) p.end xs
      → NoRun s'
      → Gives (Cleaned s'.memory (blocks xs) s'.kept)
          (finish fuel p (word_at b.addr b.size) s' (pools xs))

  module _ (b : Block) (xs : List Piece) (fuel : ℕ) (p : Pool) (s : Sweeping)
      (apart : Apart (b ∷ blocks xs)) (is : BlockAt Size s.memory b)
      (tiled : Tiled Size s.memory (word_at b.addr b.size) p.end xs) (idle : NoRun s) where
    abbrev Goal : ℕ × Sweeping → Type 0
    Goal step =
        Gives (Cleaned s.memory (b ∷ blocks xs) s.kept) (finish fuel p step.0 step.1 (pools xs))

    first_live : After b xs fuel p → b.live ≡ true → Goal (sweep_block b.addr s)
    first_live after live =
        let v = s.memory b.addr - 1 in
        let s' = kept_state b s in
        let same = SameHeaders-write s.memory b.addr v (blocks xs) apart.0 in
        rw (sweep_block-live Size b s is live) (
          Gives-mono (finish fuel p (word_at b.addr b.size) s' (pools xs))
            (λ t d. record {
              free_list = rw live d.free_list;
              unmarked = (
                (λ _. d.frame b.addr apart.0 ∙ write_self s.memory b.addr v),
                Unmarked-headers s.memory s'.memory (swept_memory t) (blocks xs) same d.unmarked,
              );
              frame = λ x away. d.frame x away.2 ∙ write_ne s.memory b.addr v x away.0;
              survivors = rw live (omega (arith, d.survivors));
            })
            (after s'
              (Tiled-frame Size s.memory s'.memory
                (λ x h. write_ne s.memory b.addr v x (is.spared x h).0) (word_at b.addr b.size)
                p.end xs same tiled)
              (record { last_free = idle.last_free; free_list = idle.free_list })))

    first_dead : p.end < word_at b.addr b.size + fuel → b.live ≡ false → Goal (sweep_block b.addr s)
    first_dead enough dead =
        let s' = first_state b s in
        let runs : free_runs (b ∷ blocks xs) ≡ settle b (blocks xs) = simp dead refl in
        let same = SameHeaders-write s.memory b.addr b.size (blocks xs) apart.0 in
        rw (sweep_block-first b s is dead idle) (
          Gives-mono (finish fuel p (word_at b.addr b.size) s' (pools xs))
            (λ t d. record {
              free_list = rw (runs, d.head) d.links;
              unmarked = (
                (λ e. cc (e, dead)),
                Unmarked-headers s.memory s'.memory (swept_memory t) (blocks xs) same d.unmarked,
              );
              frame = λ x away. d.frame x away ∙ write_ne s.memory b.addr b.size x away.0;
              survivors = rw dead (omega (arith, d.survivors));
            })
            (finish-Done Size xs fuel p (word_at b.addr b.size) s' b enough
              (Tiled-frame Size s.memory s'.memory
                (λ x h. write_ne s.memory b.addr b.size x (is.spared x h).0) (word_at b.addr b.size)
                p.end xs same tiled)
              (record {
                here = refl;
                real = is.not_null;
                spared = is.spared;
                apart = apart;
                sized = write_self s.memory b.addr b.size;
              })))

  finish-Cleaned :
      (xs : List Piece) (fuel : ℕ) (p : Pool) (cur : ℕ) (s : Sweeping)
      → p.end < cur + fuel
      → Tiled Size s.memory cur p.end xs
      → Apart (blocks xs)
      → NoRun s
      → Gives (Cleaned s.memory (blocks xs) s.kept) (finish fuel p cur s (pools xs))
  finish-Cleaned xs zero p cur s enough tiled apart idle =
      absurd (omega (arith, Tiled-le Size s.memory cur p.end xs tiled))
  finish-Cleaned [] (suc fuel) p cur s enough tiled apart idle =
      rw (tiled, finish-at_end fuel p s []) (nothing_freed p s idle)
  finish-Cleaned (pool q ∷ xs) (suc fuel) p cur s enough (at_end, tiled) apart idle =
      let le = Tiled-le Size s.memory q.start q.end xs tiled in
      let rest =
        finish-Cleaned xs (suc (q.end - q.start)) q q.start (record s { kept = 0 }) (omega arith)
          tiled apart (record { last_free = idle.last_free; free_list = idle.free_list }) in
      rw (at_end, finish-at_end fuel p s (q ∷ pools xs))
        (counted_first p s (blocks xs) (sweep_pools (q ∷ pools xs) s)
          (rw (sweep_pools-cons q (pools xs) s) rest))
  finish-Cleaned (block b ∷ xs) (suc fuel) p cur s enough (at, is, tiled) apart idle =
      let le = Tiled-le Size s.memory (word_at b.addr b.size) p.end xs tiled in
      let room = is.has_room in
      let later = finish-Cleaned xs fuel p (word_at b.addr b.size) in
      rw (at, finish-inside fuel p b.addr s (pools xs) (omega arith))
        (elim (Bool-cases b.live) [
          | inl live ↦
              first_live b xs fuel p s apart is tiled idle
                (λ s' tiled' idle'. later s' (omega arith) tiled' apart.2 idle') live
          | inr dead ↦ first_dead b xs fuel p s apart is tiled idle (omega arith) dead
        ])

-- What `sweep` leaves.
pub record IsSwept (m : Memory) (bs : List Block) (t : Swept) : Type 0 where
  pub free_list : Links t.state.memory t.state.free_list (free_runs bs) null
  pub unmarked : Unmarked m t.state.memory bs
  pub frame : (x : ℕ) → Away x bs → t.state.memory x ≡ m x
  pub survivors : t.survivors ≡ live_words bs

-- Take a heap whose pools are tiled by blocks, the words that hold sizes (`Size`) being no header and no
-- link of a block, and no two blocks sharing a header or a link. Then sweep terminates; its free list
-- is the list of the maximal runs of adjacent free blocks in the order of the heap, ended by NULL, each
-- with its size in the header; every live block lost exactly its mark; no word changed but headers
-- and links; and `survivors` counts the words of the live blocks.
pub sweep-IsSwept :
    (Size : ℕ → Type 0) (m : Memory) (p : Pool) (xs : List Piece)
    → Tiled Size m p.start p.end xs
    → Apart (blocks xs)
    → Gives (IsSwept m (blocks xs)) (sweep (p ∷ pools xs) m)
unfolding sweep
sweep-IsSwept Size m p xs tiled apart =
    let s0 : Sweeping = record { memory = m; free_list = null; last_free = null; kept = 0 } in
    let le = Tiled-le Size m p.start p.end xs tiled in
    let done =
      finish-Cleaned Size xs (suc (p.end - p.start)) p p.start s0 (omega arith) tiled apart
        (record { last_free = refl; free_list = refl }) in
    closed (sweep_pools (p ∷ pools xs) s0) (rw (sweep_pools-cons p (pools xs) s0) done)
  where
    closed :
        (o : Option Swept)
        → Gives (Cleaned m (blocks xs) 0) o
        → Gives
            (IsSwept m (blocks xs))
            (elim o [ none ↦ none | some r ↦ some (record r { state = close r.state }) ])
    closed none d = elim d [ ]
    closed (some t) d = record {
      free_list = d.free_list;
      unmarked = d.unmarked;
      frame = d.frame;
      survivors = omega (arith, d.survivors);
    }
