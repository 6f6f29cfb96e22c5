-- ===== src/MarkSweep/Clear/Correct.antt =====
-- What the sweep leaves becomes a list that ggggc_mallocRaw can search.
use ggggc.Base.{
  ℕ, suc, ◌≤◌, ◌<◌, ◌≡◌, refl, sym, ◌∙◌, ◌≢◌, false, some, List, [], ◌∷◌, arith, ◌==◌, length,
}
use ggggc.Base.{Gives, Gives-mono}
use ggggc.Heap.{Memory, write, null, word_at}
use ggggc.MarkSweep.Sweep.Layout.{Block, Links}
use ggggc.MarkSweep.FreeList.Elements.{Runs, Elements, Outside, Outside-of_Off, Disjoint}
use ggggc.MarkSweep.Clear.{clear_nodes}

-- address and size of each run
abbrev pub runs_of : List Block → Runs
runs_of [] = []
runs_of (b ∷ bs) = (b.addr, b.size) ∷ runs_of bs

abbrev AllReal : List Block → Type 0
AllReal [] = Unit
AllReal (b ∷ bs) = (b.addr ≢ null) × AllReal bs

-- A write outside the runs spares their links.
Links-write :
    (m : Memory) (x v p : ℕ) (rs : List Block)
    → Disjoint (runs_of rs)
    → Outside x (runs_of rs)
    → Links m p rs null
    → Links (write m x v) p rs null
Links-write m x v p [] d out l = l
Links-write m x v p (r ∷ rs) (room, off, d) (out, outs) (at, size, l) =
    let same : write m x v (word_at p 2) ≡ m (word_at p 2) = ground arith in
    (at, ground arith, rw same (Links-write m x v (m (word_at p 2)) rs d outs l))

-- The list in memory, and no word outside it changed.
pub record Cleared (m : Memory) (p : ℕ) (rs : List Block) (m' : Memory) : Type 0 where
  pub elements : Elements m' p (runs_of rs)
  pub frame : (x : ℕ) → Outside x (runs_of rs) → m' x ≡ m x

clear_nodes-null : (fuel : ℕ) (m : Memory) → clear_nodes (suc fuel) null m ≡ some m
unfolding clear_nodes
clear_nodes-null fuel m = refl

clear_nodes-element :
    (fuel p : ℕ) (m : Memory)
    → p ≢ null
    → clear_nodes (suc fuel) p m
      ≡ clear_nodes fuel (m (word_at p 2)) (write (write m (word_at p 1) (m p)) p 0)
unfolding clear_nodes
clear_nodes-element fuel p m real =
    let test : (p == null) ≡ false = ground arith in
    let next : write (write m (word_at p 1) (m p)) p 0 (word_at p 2) ≡ m (word_at p 2) =
      ground arith in
    rw (clear_nodes, test, next) refl

write_here : (m : Memory) (p v : ℕ) → write m p v p ≡ v
write_here m p v = ground arith

size_word : (m : Memory) (p : ℕ) → write (write m (word_at p 1) (m p)) p 0 (word_at p 1) ≡ m p
size_word m p = ground arith

link_word :
    (m : Memory) (p : ℕ) → write (write m (word_at p 1) (m p)) p 0 (word_at p 2) ≡ m (word_at p 2)
link_word m p = ground arith

-- Take the free list that a sweep leaves, of disjoint runs with room for an element and none at NULL, each
-- with its size in the header word. Then the loop of clearFreeList ends, and the same runs in the
-- same order are elements [0, size, next] for ggggc_mallocRaw; no word outside them changed.
pub clear_nodes-Cleared :
    (rs : List Block) (p : ℕ) (m : Memory)
    → AllReal rs
    → Disjoint (runs_of rs)
    → Links m p rs null
    → Gives (Cleared m p rs) (clear_nodes (suc (length rs)) p m)
clear_nodes-Cleared [] p m real d l =
    rw (l, clear_nodes-null 0 m) (record { elements = refl; frame = λ x out. refl })
clear_nodes-Cleared (r ∷ rs) p m (real, reals) (room, off, d) (at, size, l) =
    let m1 = write m (word_at p 1) (m p) in
    let m2 = write m1 p 0 in
    let own : (x : ℕ) → p ≤ x → x < word_at p 3 → Outside x (runs_of rs) =
      λ x lo hi. Outside-of_Off r.addr r.size x (runs_of rs) (omega arith) (omega arith) off in
    let links = Links-write m1 p 0 (m (word_at p 2)) rs d (own p (omega arith) (omega arith)) (
      Links-write m (word_at p 1) (m p) (m (word_at p 2)) rs d
        (own (word_at p 1) (omega arith) (omega arith)) l) in
    rw (clear_nodes-element (length (r ∷ rs)) p m (λ e. real (sym at ∙ e))) (
      Gives-mono (clear_nodes (suc (length rs)) (m (word_at p 2)) m2)
        (λ m' c. record {
          elements =
              let w0 : m' r.addr ≡ 0 =
                rw (sym at) (c.frame p (own p (omega arith) (omega arith)) ∙ write_here m1 p 0) in
              let w1 : m' (word_at r.addr 1) ≡ r.size = rw (sym at) (
                c.frame (word_at p 1) (own (word_at p 1) (omega arith) (omega arith))
                ∙ (size_word m p ∙ size)) in
              let w2 : m' (word_at r.addr 2) ≡ m (word_at p 2) = rw (sym at) (
                c.frame (word_at p 2) (own (word_at p 2) (omega arith) (omega arith))
                ∙ link_word m p) in
              (at, real, w0, w1, rw w2 c.elements);
          frame = λ x out. c.frame x out.1 ∙ ground (arith, out.0);
        })
        (clear_nodes-Cleared rs (m (word_at p 2)) m2 reals d links))
