-- ===== src/Blocking.antt =====
-- The threads that are in a blocking call (threads.c): ggc_pre_blocking takes a thread out of the barrier and
-- leaves its roots with the collector, ggc_post_blocking takes it back. Both hold
-- ggggc_worldBarrierLock throughout, so a call is one step.
pub mod Tally
pub mod Counted
mod Tests
use ggggc.Base.{bind}
use ggggc.Base.{
  ℕ, ◌+◌, ◌-◌, ◌<◌, ◌≡◌, Bool, true, false, Option, none, some, List, [], ◌∷◌, ◌==◌, if◌then◌else◌,
}

-- `ggggc_threadCount`, `none` before anything set it; the count with which `ggggc_worldBarrier` was initialised, `none`
-- while it is not; the lists of the blocked threads' pools and pointer stacks, by thread.
pub record World : Type 0 where
  pub thread_count : Option ℕ
  pub barrier : Option ℕ
  pub blocked_pool0s : List ℕ
  pub blocked_stacks : List ℕ

-- the count after `if (ggggc_threadCount == (ggc_size_t) -1) ggggc_threadCount = 1;`
abbrev pub threads_of : Option ℕ → ℕ
threads_of none = 1
threads_of (some n) = n

-- `ggc_barrier_destroy(&ggggc_worldBarrier)`: `none` where there is no barrier to destroy
abbrev pub destroy_barrier : World → Option World
destroy_barrier w = elim w.barrier [ none ↦ none | some n ↦ some (record w { barrier = none }) ]

-- `ggc_barrier_init(&ggggc_worldBarrier, count)`: `none` where the barrier that is there was not destroyed
abbrev pub init_barrier : (count : ℕ) → World → Option World
init_barrier count w = elim w.barrier [
  | none ↦ some (record w { barrier = some count })
  | some n ↦ none
]

-- `if (ggggc_threadCount == (ggc_size_t) -1) ggggc_threadCount = 1; else` the barrier is destroyed
abbrev pub leave_barrier : World → Option World
leave_barrier w = elim w.thread_count [
  | none ↦ some (record w { thread_count = some 1 })
  | some n ↦ destroy_barrier w
]

-- the thread's nodes in front of both lists
abbrev pub add_own : (thread : ℕ) → World → World
add_own t w = record w {
  blocked_pool0s = t ∷ w.blocked_pool0s;
  blocked_stacks = t ∷ w.blocked_stacks;
}

-- ggc_pre_blocking
pub pre_blocking : (thread : ℕ) → World → Option World
pre_blocking t w = bind (leave_barrier w) (λ v.
    let count = threads_of v.thread_count - 1 in
    bind (init_barrier count (record v { thread_count = some count })) (λ u. some (add_own t u)))

-- the walk that takes a thread's own node off a list
abbrev pub unlink_own : ℕ → List ℕ → List ℕ
unlink_own t [] = []
unlink_own t (x ∷ xs) = let rest = unlink_own t xs in if x == t then xs else x ∷ rest

-- `++ggggc_threadCount`, which wraps to zero where nothing set it
abbrev pub one_more : Option ℕ → ℕ
one_more none = 0
one_more (some n) = n + 1

-- the thread's nodes off both lists
abbrev pub remove_own : (thread : ℕ) → World → World
remove_own t w = record w {
  blocked_pool0s = unlink_own t w.blocked_pool0s;
  blocked_stacks = unlink_own t w.blocked_stacks;
}

-- ggc_post_blocking
pub post_blocking : (thread : ℕ) → World → Option World
post_blocking t w = bind (destroy_barrier w) (λ v.
    let count = one_more v.thread_count in
    bind (init_barrier count (record v { thread_count = some count })) (λ u. some (remove_own t u)))

-- `if nobody ever initialized the barrier, do so`, with which ggggc_collect0 of both collectors begins
pub ensure_barrier : World → Option World
ensure_barrier w = elim w.thread_count [
  | none ↦ init_barrier 1 (record w { thread_count = some 1 })
  | some n ↦ some w
]

-- What the threads below `n` do, each with its calls in turn: `blocked` says which are between the two.
pub data Runs (n : ℕ) : (ℕ → Bool) → World → Type 0 where
  alone :
      n ≡ 1
      → Runs n
          (λ t. false)
          (record { thread_count = none; barrier = none; blocked_pool0s = []; blocked_stacks = [] })
  together :
      Runs n
        (λ t. false)
        (record {
          thread_count = some n;
          barrier = some n;
          blocked_pool0s = [];
          blocked_stacks = [];
        })
  blocks :
      (blocked : ℕ → Bool) (w w' : World) (t : ℕ)
      → Runs n blocked w
      → t < n
      → blocked t ≡ false
      → pre_blocking t w ≡ some w'
      → Runs n (λ u. if u == t then true else blocked u) w'
  returns :
      (blocked : ℕ → Bool) (w w' : World) (t : ℕ)
      → Runs n blocked w
      → t < n
      → blocked t ≡ true
      → post_blocking t w ≡ some w'
      → Runs n (λ u. if u == t then false else blocked u) w'
  collects :
      (blocked : ℕ → Bool) (w w' : World)
      → Runs n blocked w
      → ensure_barrier w ≡ some w'
      → Runs n blocked w'
