-- ===== src/MarkSweep/Sweep/Whole.antt =====
-- The loops of the sweep, from any block on and any last run.
use ggggc.Base.{
  ℕ, zero, suc, ◌+◌, ◌-◌, ◌<◌, ◌≡◌, refl, sym, ap, ◌∙◌, ◌≢◌, inl, inr, true, false, Option, none,
  some, List, [], ◌∷◌, arith, ltb, ◌==◌, Bool-cases,
}
use ggggc.Base.{Gives, Gives-mono}
use mathlib.Core.Path.{subst}
use ggggc.Heap.{write, null, word_at}
use ggggc.MarkSweep.Sweep.{
  Pool, Sweeping, sweep_block, sweep_pool, sweep_pools, Swept, count, close,
}
use ggggc.MarkSweep.Sweep.Layout.{
  Block, Piece, pool, block, pools, blocks, BlockAt, Tiled, Apart, joined, Links, SameHeaders-write,
  Tiled-frame, Tiled-le,
}
use ggggc.MarkSweep.Sweep.Round.{
  kept_state, longer_state, linked_state, sweep_block-live, sweep_block-joins, sweep_block-links,
}
use ggggc.MarkSweep.Sweep.Rest.{
  Done, Done-live, Done-joins, Done-links, write_ne, write_self, Apart-drop, Apart-tail,
  header-Away, others-Away, links-Away, two_writes,
}

-- the sweep of the pools `ps`, behind the end of the pool `p`
abbrev pub then_pools : Pool → List Pool → Sweeping → Option Swept
then_pools p ps s = elim (sweep_pools ps s) [ none ↦ none | some rest ↦ some (count p s rest) ]

-- the sweep of the rest of `p`, and of the pools behind it
pub finish : ℕ → Pool → ℕ → Sweeping → List Pool → Option Swept
finish fuel p cur s ps = elim (sweep_pool fuel p.end cur s) [
  | none ↦ none
  | some s' ↦ then_pools p ps s'
]

pub finish-at_end :
    (fuel : ℕ) (p : Pool) (s : Sweeping) (ps : List Pool)
    → finish (suc fuel) p p.end s ps ≡ then_pools p ps s
unfolding finish sweep_pool
finish-at_end fuel p s ps =
    let test : ltb p.end p.end ≡ false = ground arith in rw (finish, test) refl

pub finish-inside :
    (fuel : ℕ) (p : Pool) (cur : ℕ) (s : Sweeping) (ps : List Pool)
    → cur < p.end
    → finish (suc fuel) p cur s ps ≡ finish fuel p (sweep_block cur s).0 (sweep_block cur s).1 ps
unfolding finish sweep_pool
finish-inside fuel p cur s ps inside =
    let test : ltb cur p.end ≡ true = ground arith in rw (finish, test) refl

pub sweep_pools-cons :
    (p : Pool) (ps : List Pool) (s : Sweeping)
    → sweep_pools (p ∷ ps) s ≡ finish (suc (p.end - p.start)) p p.start (record s { kept = 0 }) ps
unfolding finish sweep_pools
sweep_pools-cons p ps s = refl

close-last :
    (s : Sweeping) (a : ℕ)
    → s.last_free ≡ a
    → a ≢ null
    → close s ≡ record s { memory = write s.memory (word_at a 2) null }
close-last s a here real =
    let test : (s.last_free == null) ≡ false = rw here (ground arith) in rw (test, here) refl

module _ (Size : ℕ → Type 0) where
  -- The run `r` is the last one.
  pub record LastRun (s : Sweeping) (r : Block) (bs : List Block) : Type 0 where
    pub here : s.last_free ≡ r.addr
    pub real : r.addr ≢ null
    pub sized : s.memory r.addr ≡ r.size
    pub spared : (x : ℕ) → Size x → (x ≢ r.addr) × (x ≢ word_at r.addr 2)
    pub apart : Apart (r ∷ bs)

  pub counted :
      (p : Pool) (s : Sweeping) (r : Block) (bs : List Block) (o : Option Swept)
      → Gives (Done (record s { kept = 0 }) r bs) o
      → Gives (Done s r bs) (elim o [ none ↦ none | some rest ↦ some (count p s rest) ])
  counted p s r bs none d = elim d [ ]
  counted p s r bs (some t) d = record {
    links = d.links;
    unmarked = d.unmarked;
    frame = d.frame;
    head = d.head;
    survivors = omega (arith, d.survivors);
  }

  nothing_left :
      (p : Pool) (s : Sweeping) (r : Block)
      → LastRun s r []
      → Gives (Done s r []) (then_pools p [] s)
  unfolding sweep_pools
  nothing_left p s r l =
      let ends = close-last s r.addr l.here l.real in
      let m' = write s.memory (word_at r.addr 2) null in
      record {
        links =
            subst (λ t. Links t.memory r.addr (r ∷ []) null) (sym ends)
              (
                refl,
                write_ne s.memory (word_at r.addr 2) null r.addr (λ e. omega arith) ∙ l.sized,
                write_self s.memory (word_at r.addr 2) null,
              );
        unmarked = tt;
        frame = λ x away.
            ap (λ t. t.memory x) ends ∙ write_ne s.memory (word_at r.addr 2) null x away.1;
        head = ap (λ t. t.free_list) ends;
        survivors = omega arith;
      }

  -- What the rounds behind the block `b` do.
  abbrev After : Block → List Piece → ℕ → Pool → Type 0
  After b xs fuel p =
      (s' : Sweeping) (r' : Block)
      → Tiled Size s'.memory (word_at b.addr b.size) p.end xs
      → LastRun s' r' (blocks xs)
      → Gives (Done s' r' (blocks xs)) (finish fuel p (word_at b.addr b.size) s' (pools xs))

  module _ (b : Block) (xs : List Piece) (fuel : ℕ) (p : Pool) (s : Sweeping) (r : Block)
      (is : BlockAt Size s.memory b) (tiled : Tiled Size s.memory (word_at b.addr b.size) p.end xs)
      (l : LastRun s r (b ∷ blocks xs)) (after : After b xs fuel p) where
    abbrev Goal : ℕ × Sweeping → Type 0
    Goal step = Gives (Done s r (b ∷ blocks xs)) (finish fuel p step.0 step.1 (pools xs))

    round_live : b.live ≡ true → Goal (sweep_block b.addr s)
    round_live live =
        let s' = kept_state b s in
        let header = header-Away r b (blocks xs) l.apart in
        rw (sweep_block-live Size b s is live) (
          Gives-mono (finish fuel p (word_at b.addr b.size) s' (pools xs))
            (λ t. Done-live s r b (blocks xs) t l.apart l.sized live)
            (after s' r
              (Tiled-frame Size s.memory s'.memory
                (λ x h. write_ne s.memory b.addr (s.memory b.addr - 1) x (is.spared x h).0)
                (word_at b.addr b.size) p.end xs
                (SameHeaders-write s.memory b.addr (s.memory b.addr - 1) (blocks xs) header.2)
                tiled)
              (record {
                here = l.here;
                real = l.real;
                spared = l.spared;
                apart = Apart-drop r b (blocks xs) l.apart;
                sized = write_ne s.memory b.addr (s.memory b.addr - 1) r.addr l.apart.0.0 ∙ l.sized;
              })))

    round_joins : b.live ≡ false → b.addr ≡ word_at r.addr r.size → Goal (sweep_block b.addr s)
    round_joins dead behind =
        let s' = longer_state r b s in
        let m1 = write s.memory b.addr b.size in
        let header = header-Away r b (blocks xs) l.apart in
        rw (sweep_block-joins Size b s is r l.here l.real l.sized l.apart.0.0 dead behind) (
          Gives-mono (finish fuel p (word_at b.addr b.size) s' (pools xs))
            (λ t. Done-joins s r b (blocks xs) t l.apart l.sized dead behind)
            (after s' (joined r b)
              (Tiled-frame Size s.memory s'.memory
                (λ x h.
                  write_ne m1 r.addr (r.size + b.size) x (l.spared x h).0
                  ∙ write_ne s.memory b.addr b.size x (is.spared x h).0)
                (word_at b.addr b.size) p.end xs
                (two_writes s.memory (blocks xs) b.addr b.size r.addr (r.size + b.size) header.2
                  (others-Away r b (blocks xs) l.apart))
                tiled)
              (record {
                here = l.here;
                real = l.real;
                spared = l.spared;
                apart = Apart-drop r b (blocks xs) l.apart;
                sized = write_self m1 r.addr (r.size + b.size);
              })))

    round_links : b.live ≡ false → b.addr ≢ word_at r.addr r.size → Goal (sweep_block b.addr s)
    round_links dead elsewhere =
        let s' = linked_state r b s in
        let m1 = write s.memory b.addr b.size in
        let header = header-Away r b (blocks xs) l.apart in
        rw
          (sweep_block-links Size b s is r l.here l.real l.sized l.apart.0.0 dead elsewhere
            header.1)
          (Gives-mono (finish fuel p (word_at b.addr b.size) s' (pools xs))
            (λ t. Done-links s r b (blocks xs) t l.apart l.sized dead elsewhere)
            (after s' b
              (Tiled-frame Size s.memory s'.memory
                (λ x h.
                  write_ne m1 (word_at r.addr 2) b.addr x (l.spared x h).1
                  ∙ write_ne s.memory b.addr b.size x (is.spared x h).0)
                (word_at b.addr b.size) p.end xs
                (two_writes s.memory (blocks xs) b.addr b.size (word_at r.addr 2) b.addr header.2
                  (links-Away r b (blocks xs) l.apart))
                tiled)
              (record {
                here = refl;
                real = is.not_null;
                spared = is.spared;
                apart = Apart-tail r b (blocks xs) l.apart;
                sized =
                    write_ne m1 (word_at r.addr 2) b.addr b.addr header.1
                    ∙ write_self s.memory b.addr b.size;
              })))

    round : Goal (sweep_block b.addr s)
    round = elim (Bool-cases b.live) [
      | inl live ↦ round_live live
      | inr dead ↦ elim (Bool-cases (b.addr == word_at r.addr r.size)) [
        | inl e ↦ round_joins dead (ground arith)
        | inr n ↦ round_links dead (λ e. ground arith)
      ]
    ]

  pub finish-Done :
      (xs : List Piece) (fuel : ℕ) (p : Pool) (cur : ℕ) (s : Sweeping) (r : Block)
      → p.end < cur + fuel
      → Tiled Size s.memory cur p.end xs
      → LastRun s r (blocks xs)
      → Gives (Done s r (blocks xs)) (finish fuel p cur s (pools xs))
  finish-Done xs zero p cur s r enough tiled l =
      absurd (omega (arith, Tiled-le Size s.memory cur p.end xs tiled))
  finish-Done [] (suc fuel) p cur s r enough tiled l =
      rw (tiled, finish-at_end fuel p s []) (nothing_left p s r l)
  finish-Done (pool q ∷ xs) (suc fuel) p cur s r enough (at_end, tiled) l =
      let le = Tiled-le Size s.memory q.start q.end xs tiled in
      let rest =
        finish-Done xs (suc (q.end - q.start)) q q.start (record s { kept = 0 }) r (omega arith)
          tiled
          (record {
            here = l.here;
            real = l.real;
            sized = l.sized;
            spared = l.spared;
            apart = l.apart;
          }) in
      rw (at_end, finish-at_end fuel p s (q ∷ pools xs))
        (counted p s r (blocks xs) (sweep_pools (q ∷ pools xs) s)
          (rw (sweep_pools-cons q (pools xs) s) rest))
  finish-Done (block b ∷ xs) (suc fuel) p cur s r enough (at, is, tiled) l =
      let le = Tiled-le Size s.memory (word_at b.addr b.size) p.end xs tiled in
      let room = is.has_room in
      rw (at, finish-inside fuel p b.addr s (pools xs) (omega arith))
        (round b xs fuel p s r is tiled l
          (λ s' r'. finish-Done xs fuel p (word_at b.addr b.size) s' r' (omega arith)))
