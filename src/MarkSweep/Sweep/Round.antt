-- ===== src/MarkSweep/Sweep/Round.antt =====
-- One round of the sweep, when the last free run is known.
use ggggc.Base.{
  ℕ, ◌+◌, ◌-◌, ◌≡◌, refl, sym, ◌∙◌, ◌≢◌, inl, inr, true, false, arith, ◌==◌, if◌then◌else◌,
  Bool-cases,
}
use ggggc.Heap.{Memory, write, null, word_at}
use ggggc.MarkSweep.Mark.{is_marked}
use ggggc.MarkSweep.Sweep.{Sweeping, sweep_block}
use ggggc.MarkSweep.Sweep.Layout.{Block, BlockAt}

-- What one round does with a live block, with a free block behind the last run, and with one elsewhere.
abbrev pub kept_state : Block → Sweeping → Sweeping
kept_state b s = record s {
  memory = write s.memory b.addr (s.memory b.addr - 1);
  kept = s.kept + b.size;
}

abbrev pub longer_state : Block → Block → Sweeping → Sweeping
longer_state r b s = record s {
  memory = write (write s.memory b.addr b.size) r.addr (r.size + b.size);
}

abbrev pub linked_state : Block → Block → Sweeping → Sweeping
linked_state r b s = record s {
  memory = write (write s.memory b.addr b.size) (word_at r.addr 2) b.addr;
  last_free = b.addr;
}

module _ (Size : ℕ → Type 0) where
  module _ (m : Memory) (b : Block) (is : BlockAt Size m b) where
    size-live : b.live ≡ true → m (word_at (m b.addr - 1) 1) ≡ b.size
    size-live live =
        let marked : is_marked m b.addr ≡ true = sym is.live ∙ live in rw (is.size, marked) refl

    pub size-dead :
        b.live ≡ false
        → (if m b.addr == 0 then m (word_at b.addr 1) else m (word_at (m b.addr) 1)) ≡ b.size
    size-dead dead =
        let marked : is_marked m b.addr ≡ false = sym is.live ∙ dead in
        elim (Bool-cases (m b.addr == 0)) [
          | inl z ↦ rw (is.size, marked, z) refl
          | inr z ↦ rw (is.size, marked, z) refl
        ]

  module _ (b : Block) (s : Sweeping) (is : BlockAt Size s.memory b) where
    pub sweep_block-live :
        b.live ≡ true → sweep_block b.addr s ≡ (word_at b.addr b.size, kept_state b s)
    unfolding sweep_block
    sweep_block-live live =
        let marked : is_marked s.memory b.addr ≡ true = sym is.live ∙ live in
        rw (marked, size-live s.memory b is live) refl

    module _ (r : Block) (here : s.last_free ≡ r.addr) (real : r.addr ≢ null)
        (sized : s.memory r.addr ≡ r.size) (apart : r.addr ≢ b.addr) where
      not_null : (r.addr == null) ≡ false
      not_null = ground arith

      other : (r.addr == b.addr) ≡ false
      other = ground arith

      itself : (x : ℕ) → (x == x) ≡ true
      itself x = ground arith

      pub sweep_block-joins :
          b.live ≡ false
          → b.addr ≡ word_at r.addr r.size
          → sweep_block b.addr s ≡ (word_at b.addr b.size, longer_state r b s)
      unfolding sweep_block
      sweep_block-joins dead behind =
          let marked : is_marked s.memory b.addr ≡ false = sym is.live ∙ dead in
          let test : (b.addr == word_at r.addr r.size) ≡ true = ground arith in
          let place : word_at r.addr (r.size + b.size) ≡ word_at b.addr b.size = omega arith in
          rw
            (
              marked,
              size-dead s.memory b is dead,
              here,
              not_null,
              other,
              sized,
              test,
              itself b.addr,
              itself r.addr,
              place,
            )
            refl

      pub sweep_block-links :
          b.live ≡ false
          → b.addr ≢ word_at r.addr r.size
          → b.addr ≢ word_at r.addr 2
          → sweep_block b.addr s ≡ (word_at b.addr b.size, linked_state r b s)
      unfolding sweep_block
      sweep_block-links dead elsewhere clear =
          let marked : is_marked s.memory b.addr ≡ false = sym is.live ∙ dead in
          let test : (b.addr == word_at r.addr r.size) ≡ false = ground arith in
          let link : (b.addr == word_at r.addr 2) ≡ false = ground arith in
          rw
            (
              marked,
              size-dead s.memory b is dead,
              here,
              not_null,
              other,
              sized,
              test,
              link,
              itself b.addr,
            )
            refl
