-- ===== src/Blocking/Counted.antt =====
-- The world barrier counts the threads that run, and the lists have the others.
use ggggc.Base.{
  ℕ, ◌+◌, ◌-◌, ◌<◌, ◌≡◌, refl, sym, ap, ◌∙◌, ◌≢◌, Bool, true, false, ◌||◌, Option, none, some, List,
  [], ◌∷◌, arith, ◌==◌, if◌then◌else◌, length,
}
use ggggc.Base.{has, Distinct}
use ggggc.Blocking.{
  World, threads_of, one_more, pre_blocking, unlink_own, post_blocking, Runs, alone, together,
  blocks, returns, collects, ensure_barrier,
}
use mathlib.Core.Path.{subst}
use ggggc.Blocking.Tally.{
  bit, tally, tally_none, tally_lt, tally_set, length-unlink_own, has-unlink_own,
  Distinct-unlink_own, one_more-threads_of, not_empty,
}

-- Which threads run, and where the others' roots are; the barrier is for the threads that run.
pub record Counted (n : ℕ) (blocked : ℕ → Bool) (w : World) : Type 0 where
  pub count : threads_of w.thread_count + length w.blocked_pool0s ≡ n
  pub barrier : w.barrier ≡ w.thread_count
  pub set_first : w.thread_count ≡ none → w.blocked_pool0s ≡ []
  pub tallied : length w.blocked_pool0s ≡ tally n blocked
  pub listed : (t : ℕ) → has t w.blocked_pool0s ≡ blocked t
  pub once : Distinct w.blocked_pool0s
  pub same_stacks : w.blocked_stacks ≡ w.blocked_pool0s

abbrev pre_done : (thread : ℕ) → World → World
pre_done t w = record {
  thread_count = some (threads_of w.thread_count - 1);
  barrier = some (threads_of w.thread_count - 1);
  blocked_pool0s = t ∷ w.blocked_pool0s;
  blocked_stacks = t ∷ w.blocked_stacks;
}

abbrev post_done : (thread : ℕ) → World → World
post_done t w = record {
  thread_count = some (one_more w.thread_count);
  barrier = some (one_more w.thread_count);
  blocked_pool0s = unlink_own t w.blocked_pool0s;
  blocked_stacks = unlink_own t w.blocked_stacks;
}

abbrev world_of : (count barrier : Option ℕ) (pools stacks : List ℕ) → World
world_of count barrier pools stacks = record {
  thread_count = count;
  barrier = barrier;
  blocked_pool0s = pools;
  blocked_stacks = stacks;
}

-- where the barrier has the count of the threads, no call meets a barrier that it does not expect
pre_blocking-done :
    (t : ℕ) (count barrier : Option ℕ) (pools stacks : List ℕ)
    → barrier ≡ count
    → pre_blocking t (world_of count barrier pools stacks)
      ≡ some (pre_done t (world_of count barrier pools stacks))
unfolding pre_blocking
pre_blocking-done t none none pools stacks e = refl
pre_blocking-done t none (some b) pools stacks e = absurd (cc e)
pre_blocking-done t (some n) none pools stacks e = absurd (cc e)
pre_blocking-done t (some n) (some b) pools stacks e = refl

post_blocking-done :
    (t : ℕ) (count barrier : Option ℕ) (pools stacks : List ℕ)
    → barrier ≡ count
    → count ≢ none
    → post_blocking t (world_of count barrier pools stacks)
      ≡ some (post_done t (world_of count barrier pools stacks))
unfolding post_blocking
post_blocking-done t none barrier pools stacks e is_set = absurd (is_set refl)
post_blocking-done t (some n) none pools stacks e is_set = absurd (cc e)
post_blocking-done t (some n) (some b) pools stacks e is_set = refl

Counted-pre :
    (n : ℕ) (blocked : ℕ → Bool) (w : World) (t : ℕ)
    → t < n
    → blocked t ≡ false
    → Counted n blocked w
    → Counted n (λ u. if u == t then true else blocked u) (pre_done t w)
Counted-pre n blocked w t lt idle c =
    let some_run = tally_lt n blocked t lt idle in
    let flag : bit (blocked t) ≡ 0 = ap bit idle in
    let more = tally_set n blocked t true lt in
    record {
      barrier = refl;
      set_first = λ e. cc e;
      count = omega (arith, c.count, c.tallied);
      tallied = omega (arith, c.tallied);
      listed = λ u. ap (λ b. (u == t) || b) (c.listed u) ∙ or_set (u == t) (blocked u);
      once = (c.listed t ∙ idle, c.once);
      same_stacks = ap (λ xs. t ∷ xs) c.same_stacks;
    }
  where
    or_set : (a b : Bool) → (a || b) ≡ (if a then true else b)
    or_set true b = refl
    or_set false b = refl

-- a thread is blocked only after the first call set the count
is_set :
    (n : ℕ) (blocked : ℕ → Bool) (w : World) (t : ℕ)
    → blocked t ≡ true
    → Counted n blocked w
    → w.thread_count ≢ none
is_set n blocked w t busy c = λ e. not_empty t w.blocked_pool0s (c.listed t ∙ busy) (c.set_first e)

Counted-post :
    (n : ℕ) (blocked : ℕ → Bool) (w : World) (t : ℕ)
    → t < n
    → blocked t ≡ true
    → Counted n blocked w
    → Counted n (λ u. if u == t then false else blocked u) (post_done t w)
Counted-post n blocked w t lt busy c =
    let flag : bit (blocked t) ≡ 1 = ap bit busy in
    let less = tally_set n blocked t false lt in
    let shorter = length-unlink_own t w.blocked_pool0s (c.listed t ∙ busy) in
    let added = one_more-threads_of w.thread_count (is_set n blocked w t busy c) in
    record {
      barrier = refl;
      set_first = λ e. cc e;
      count = omega (arith, c.count);
      tallied = omega (arith, c.tallied);
      listed = λ u.
          has-unlink_own t w.blocked_pool0s c.once u
          ∙ ap (λ b. if u == t then false else b) (c.listed u);
      once = Distinct-unlink_own t w.blocked_pool0s c.once;
      same_stacks = ap (unlink_own t) c.same_stacks;
    }

-- the first collection sets the count
abbrev ensured : World → World
ensured w = record w {
  thread_count = some (threads_of w.thread_count);
  barrier = some (threads_of w.thread_count);
}

ensure_barrier-ensured :
    (count barrier : Option ℕ) (pools stacks : List ℕ)
    → barrier ≡ count
    → ensure_barrier (world_of count barrier pools stacks)
      ≡ some (ensured (world_of count barrier pools stacks))
unfolding ensure_barrier
ensure_barrier-ensured none none pools stacks e = refl
ensure_barrier-ensured none (some b) pools stacks e = absurd (cc e)
ensure_barrier-ensured (some n) none pools stacks e = absurd (cc e)
ensure_barrier-ensured (some n) (some b) pools stacks e =
    ap (λ o. some (world_of (some n) o pools stacks)) e

Counted-ensured :
    (n : ℕ) (blocked : ℕ → Bool) (w : World) → Counted n blocked w → Counted n blocked (ensured w)
Counted-ensured n blocked w c = record {
  barrier = refl;
  set_first = λ e. cc e;
  count = c.count;
  tallied = c.tallied;
  listed = c.listed;
  once = c.once;
  same_stacks = c.same_stacks;
}

same_world : (w u v : World) → some u ≡ some v → u ≡ v
same_world w u v e = ap (λ o. elim o [ none ↦ w | some x ↦ x ]) e

reached : (n : ℕ) (blocked : ℕ → Bool) (w : World) → Runs n blocked w → Counted n blocked w
reached n _ _ (alone one) = record {
  barrier = refl;
  set_first = λ e. refl;
  count = omega arith;
  tallied = sym (tally_none n);
  listed = λ t. refl;
  once = tt;
  same_stacks = refl;
}
reached n _ _ together = record {
  barrier = refl;
  set_first = λ e. refl;
  count = omega arith;
  tallied = sym (tally_none n);
  listed = λ t. refl;
  once = tt;
  same_stacks = refl;
}
reached n _ _ (blocks blocked w w' t r lt idle e) =
    let c = reached n blocked w r in
    let at =
      pre_blocking-done t w.thread_count w.barrier w.blocked_pool0s w.blocked_stacks c.barrier in
    subst (Counted n (λ u. if u == t then true else blocked u))
      (same_world w (pre_done t w) w' (sym at ∙ e)) (Counted-pre n blocked w t lt idle c)
reached n _ _ (returns blocked w w' t r lt busy e) =
    let c = reached n blocked w r in
    let at =
      post_blocking-done t w.thread_count w.barrier w.blocked_pool0s w.blocked_stacks c.barrier
        (is_set n blocked w t busy c) in
    subst (Counted n (λ u. if u == t then false else blocked u))
      (same_world w (post_done t w) w' (sym at ∙ e)) (Counted-post n blocked w t lt busy c)
reached n _ _ (collects blocked w w' r e) =
    let c = reached n blocked w r in
    let at =
      ensure_barrier-ensured w.thread_count w.barrier w.blocked_pool0s w.blocked_stacks c.barrier in
    subst (Counted n blocked) (same_world w (ensured w) w' (sym at ∙ e))
      (Counted-ensured n blocked w c)

-- Every thread that runs can block, every blocked one can return, and a collection can begin, on a barrier as the
-- call expects it.
abbrev pub NeverFails : (blocked : ℕ → Bool) → World → Type 0
NeverFails blocked w =
    ((t : ℕ) → blocked t ≡ false → pre_blocking t w ≢ none)
    × ((t : ℕ) → blocked t ≡ true → post_blocking t w ≢ none)
    × (ensure_barrier w ≢ none)

-- In every state that `n` threads reach by blocking, returning and collecting in any order, the count of the
-- threads and the blocked threads make up `n`, and the world barrier, if it was initialised yet, was initialised with that
-- count; a thread's pools are on the list of blocked pools exactly if it is blocked, and only once; the list of
-- pointer stacks has the same threads; and no call destroys a barrier that is not there or initialises one that is.
pub Runs-Counted :
    (n : ℕ) (blocked : ℕ → Bool) (w : World)
    → Runs n blocked w
    → Counted n blocked w × NeverFails blocked w
Runs-Counted n blocked w r =
    let c = reached n blocked w r in
    (
      c,
      (
        λ t idle e. cc (
          pre_blocking-done t w.thread_count w.barrier w.blocked_pool0s w.blocked_stacks c.barrier,
          e,
        ),
        λ t busy e. cc (
          post_blocking-done t w.thread_count w.barrier w.blocked_pool0s w.blocked_stacks c.barrier
              (is_set n blocked w t busy c),
          e,
        ),
        λ e. cc (
          ensure_barrier-ensured w.thread_count w.barrier w.blocked_pool0s w.blocked_stacks
              c.barrier,
          e,
        ),
      ),
    )
