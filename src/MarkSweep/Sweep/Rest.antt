-- ===== src/MarkSweep/Sweep/Rest.antt =====
-- The sweep from any block to the end of the heap, when the last free run is known.
use ggggc.Base.{ℕ, ◌+◌, ◌-◌, ◌≡◌, refl, sym, ◌∙◌, ◌≢◌, true, false, List, [], ◌∷◌, arith, ◌==◌}
use ggggc.Heap.{Memory, write, null, word_at}
use ggggc.MarkSweep.Sweep.{Pool, words_of, Sweeping, Swept, close}
use ggggc.MarkSweep.Sweep.Layout.{
  Block, live_words, Away, Apart, Unmarked, SameHeaders, joined, settle, Links, SameHeaders-write,
  SameHeaders-trans, Unmarked-headers,
}
use ggggc.MarkSweep.Sweep.Round.{kept_state, longer_state, linked_state}

abbrev pub total_words : List Pool → ℕ
total_words [] = 0
total_words (p ∷ ps) = words_of p + total_words ps

-- the memory once the last link is NULL
abbrev pub swept_memory : Swept → Memory
swept_memory t = (close t.state).memory

-- The end of the sweep of the pools, from the state `s` with the last run `r`.
pub record Done (s : Sweeping) (r : Block) (bs : List Block) (t : Swept) : Type 0 where
  pub links : Links (swept_memory t) r.addr (settle r bs) null
  pub unmarked : Unmarked s.memory (swept_memory t) bs
  pub frame : (x : ℕ) → Away x (r ∷ bs) → (swept_memory t) x ≡ s.memory x
  pub head : (close t.state).free_list ≡ s.free_list
  pub survivors : t.survivors ≡ s.kept + live_words bs

pub drop_second : (x : ℕ) (r b : Block) (bs : List Block) → Away x (r ∷ b ∷ bs) → Away x (r ∷ bs)
drop_second x r b bs (p, q, (u, v, w)) = (p, q, w)

pub drop_first : (x : ℕ) (r b : Block) (bs : List Block) → Away x (r ∷ b ∷ bs) → Away x (b ∷ bs)
drop_first x r b bs (p, q, w) = w

pub Apart-drop : (r b : Block) (bs : List Block) → Apart (r ∷ b ∷ bs) → Apart (r ∷ bs)
Apart-drop r b bs ((p, q, w), (p', q', w'), (u, v, a)) = (w, w', a)

pub Apart-tail : (r b : Block) (bs : List Block) → Apart (r ∷ b ∷ bs) → Apart (b ∷ bs)
Apart-tail r b bs (u, v, a) = a

pub write_ne : (m : Memory) (a v x : ℕ) → x ≢ a → write m a v x ≡ m x
write_ne m a v x ne = ground arith

pub write_self : (m : Memory) (a v : ℕ) → write m a v a ≡ v
write_self m a v = ground arith

-- The header of the second block is away from the first and from those behind it.
pub header-Away : (r b : Block) (bs : List Block) → Apart (r ∷ b ∷ bs) → Away b.addr (r ∷ bs)
header-Away r b bs ((p, q, w), (p', q', w'), (u, v, a)) = ((λ e. p (sym e)), (λ e. p' (sym e)), u)

pub others-Away : (r b : Block) (bs : List Block) → Apart (r ∷ b ∷ bs) → Away r.addr bs
others-Away r b bs ((p, q, w), u, v) = w

pub links-Away : (r b : Block) (bs : List Block) → Apart (r ∷ b ∷ bs) → Away (word_at r.addr 2) bs
links-Away r b bs (u, (p, q, w), v) = w

-- two writes to words that are not a header of the blocks
pub two_writes :
    (m : Memory) (bs : List Block) (a v c w : ℕ)
    → Away a bs
    → Away c bs
    → SameHeaders m (write (write m a v) c w) bs
two_writes m bs a v c w h k =
    SameHeaders-trans m (write m a v) (write (write m a v) c w) bs (SameHeaders-write m a v bs h)
      (SameHeaders-write (write m a v) c w bs k)

module _ (s : Sweeping) (r b : Block) (bs : List Block) (t : Swept) (apart : Apart (r ∷ b ∷ bs))
    (sized : s.memory r.addr ≡ r.size) where
  pub Done-live : b.live ≡ true → Done (kept_state b s) r bs t → Done s r (b ∷ bs) t
  Done-live live d = rw live (record {
    links = d.links;
    unmarked = (
      (λ _. d.frame b.addr (header-Away r b bs apart) ∙ ground arith),
      Unmarked-headers s.memory (kept_state b s).memory (swept_memory t) bs
          (SameHeaders-write s.memory b.addr (s.memory b.addr - 1) bs (apart.2.0)) d.unmarked,
    );
    frame = λ x away.
        d.frame x (drop_second x r b bs away)
        ∙ write_ne s.memory b.addr (s.memory b.addr - 1) x away.2.0;
    head = d.head;
    survivors = omega (arith, d.survivors);
  })

  pub Done-joins :
      b.live ≡ false
      → b.addr ≡ word_at r.addr r.size
      → Done (longer_state r b s) (joined r b) bs t
      → Done s r (b ∷ bs) t
  Done-joins dead behind d =
      let test : (b.addr == word_at r.addr r.size) ≡ true = ground arith in
      let pick : settle r (b ∷ bs) ≡ settle (joined r b) bs = rw (dead, test) refl in
      record {
        links = rw pick d.links;
        unmarked = (
          (λ e. cc (e, dead)),
          Unmarked-headers s.memory (longer_state r b s).memory (swept_memory t) bs
              (two_writes s.memory bs b.addr b.size r.addr (r.size + b.size) apart.2.0
                (others-Away r b bs apart))
              d.unmarked,
        );
        frame = λ x away.
            d.frame x (drop_second x r b bs away)
            ∙ write_ne (write s.memory b.addr b.size) r.addr (r.size + b.size) x away.0
            ∙ write_ne s.memory b.addr b.size x away.2.0;
        head = d.head;
        survivors = rw dead (omega (arith, d.survivors));
      }

  pub Done-links :
      b.live ≡ false
      → b.addr ≢ word_at r.addr r.size
      → Done (linked_state r b s) b bs t
      → Done s r (b ∷ bs) t
  Done-links dead elsewhere d =
      let test : (b.addr == word_at r.addr r.size) ≡ false = ground arith in
      let pick : settle r (b ∷ bs) ≡ r ∷ settle b bs = rw (dead, test) refl in
      let m1 = write s.memory b.addr b.size in
      let here : (swept_memory t) r.addr ≡ r.size =
        d.frame r.addr apart.0
        ∙ write_ne m1 (word_at r.addr 2) b.addr r.addr (λ e. omega arith)
        ∙ write_ne s.memory b.addr b.size r.addr apart.0.0
        ∙ sized in
      let there : (swept_memory t) (word_at r.addr 2) ≡ b.addr =
        d.frame (word_at r.addr 2) apart.1 ∙ write_self m1 (word_at r.addr 2) b.addr in
      record {
        links = rw pick (refl, here, rw there d.links);
        unmarked = (
          (λ e. cc (e, dead)),
          Unmarked-headers s.memory (linked_state r b s).memory (swept_memory t) bs
              (two_writes s.memory bs b.addr b.size (word_at r.addr 2) b.addr apart.2.0
                (links-Away r b bs apart))
              d.unmarked,
        );
        frame = λ x away.
            d.frame x (drop_first x r b bs away)
            ∙ write_ne m1 (word_at r.addr 2) b.addr x away.1
            ∙ write_ne s.memory b.addr b.size x away.2.0;
        head = d.head;
        survivors = rw dead (omega (arith, d.survivors));
      }
