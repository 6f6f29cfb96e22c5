-- ===== src/Barrier/Rounds.antt =====
-- The barrier lets nobody go before all have come, and is as it was at the end of a round.
use ggggc.Base.{
  ℕ, suc, ◌+◌, ◌-◌, ◌*◌, ◌≤◌, ◌<◌, ◌≡◌, refl, sym, ◌≢◌, inl, inr, arith, ltb, Bool-cases,
}
use ggggc.Barrier.{
  Leader, nobody, posting, taking, Barrier, init, Step, wait_for_others, come_last, signal,
  all_signalled, wake, answer, take_answer, reset, Reachable, start, step,
}

-- What the leader has posted and taken, and what the others have done with it.
abbrev pub Balanced : ℕ → Barrier → Leader → Type 0
Balanced ct b nobody =
    (b.waiters ≡ 0)
    × (b.leader ≡ 0)
    × (b.woken ≡ 0)
    × (b.waiting ≡ b.cur)
    × (b.cur < ct)
    × (b.arrived ≡ b.cur)
    × (b.returned ≡ 0)
Balanced ct b (posting i) =
    (b.waiters + b.woken + b.leader ≡ i)
    × (b.waiting + b.woken + b.leader ≡ b.cur)
    × (i ≤ b.cur)
    × (suc b.cur ≡ ct)
    × (b.arrived ≡ ct)
    × (b.returned ≡ b.leader)
Balanced ct b (taking i) =
    (b.waiters + b.woken + b.leader + i ≡ b.cur)
    × (b.waiting + b.woken + b.leader + i ≡ b.cur)
    × (i ≤ b.cur)
    × (suc b.cur ≡ ct)
    × (b.arrived ≡ ct)
    × (b.returned ≡ b.leader + i)

-- The state agrees with a leader, which is its own.
abbrev Inv : ℕ → Barrier → Type 0
Inv ct b = Balanced ct b b.lead

by_lead : (ct : ℕ) (b : Barrier) (l : Leader) → b.lead ≡ l → Inv ct b → Balanced ct b l
by_lead ct b l e inv = rw (sym e) inv

wake-Balanced :
    (ct : ℕ) (b : Barrier) (l : Leader)
    → 0 < b.waiting
    → 0 < b.waiters
    → Balanced ct b l
    → Balanced ct
        (record b { waiters = b.waiters - 1; waiting = b.waiting - 1; woken = b.woken + 1 })
        l
wake-Balanced ct b nobody waiting waiters h = absurd (omega (arith, h.0))
wake-Balanced ct b (posting i) waiting waiters h =
    (omega (arith, h.0), omega (arith, h.1), h.2, h.3, h.4, h.5)
wake-Balanced ct b (taking i) waiting waiters h =
    (omega (arith, h.0), omega (arith, h.1), h.2, h.3, h.4, h.5)

answer-Balanced :
    (ct : ℕ) (b : Barrier) (l : Leader)
    → 0 < b.woken
    → Balanced ct b l
    → Balanced ct
        (record b { woken = b.woken - 1; leader = b.leader + 1; returned = b.returned + 1 })
        l
answer-Balanced ct b nobody woken h = absurd (omega (arith, h.2))
answer-Balanced ct b (posting i) woken h =
    (omega (arith, h.0), omega (arith, h.1), h.2, h.3, h.4, omega (arith, h.5))
answer-Balanced ct b (taking i) woken h =
    (omega (arith, h.0), omega (arith, h.1), h.2, h.3, h.4, omega (arith, h.5))

step-Balanced : (ct : ℕ) → 1 ≤ ct → (b c : Barrier) → Inv ct b → Step ct b c → Inv ct c
step-Balanced ct some_thread _ _ inv (wait_for_others b at ne) =
    let (h0, h1, h2, h3, h4, h5, h6) = by_lead ct b nobody at inv in
    rw at (h0, h1, h2, omega arith, omega arith, omega arith, h6)
step-Balanced ct some_thread _ _ inv (come_last b at e) =
    let (h0, h1, h2, h3, h4, h5, h6) = by_lead ct b nobody at inv in
    (omega arith, omega arith, omega arith, omega arith, omega arith, omega arith)
step-Balanced ct some_thread _ _ inv (signal b i at lt) =
    let (h0, h1, h2, h3, h4, h5) = by_lead ct b (posting i) at inv in
    (omega arith, h1, omega arith, h3, h4, h5)
step-Balanced ct some_thread _ _ inv (all_signalled b i at le) =
    let (h0, h1, h2, h3, h4, h5) = by_lead ct b (posting i) at inv in
    (omega arith, omega arith, omega arith, h3, h4, omega arith)
step-Balanced ct some_thread _ _ inv (wake b waiting waiters) =
    wake-Balanced ct b b.lead waiting waiters inv
step-Balanced ct some_thread _ _ inv (answer b woken) = answer-Balanced ct b b.lead woken inv
step-Balanced ct some_thread _ _ inv (take_answer b i at lt some_leader) =
    let (h0, h1, h2, h3, h4, h5) = by_lead ct b (taking i) at inv in
    (omega arith, omega arith, omega arith, h3, h4, omega arith)
step-Balanced ct some_thread _ _ inv (reset b i at le) =
    let (h0, h1, h2, h3, h4, h5) = by_lead ct b (taking i) at inv in
    (omega arith, omega arith, omega arith, omega arith, omega arith, refl, refl)

pub Reachable-Balanced : (ct : ℕ) → 1 ≤ ct → (b : Barrier) → Reachable ct b → Balanced ct b b.lead
Reachable-Balanced ct some_thread _ start = (refl, refl, refl, refl, omega arith, refl, refl)
Reachable-Balanced ct some_thread _ (step b c r t) =
    step-Balanced ct some_thread b c (Reachable-Balanced ct some_thread b r) t

-- In every state that the calls of a barrier for one thread or more can reach, no call of the round
-- has returned unless all `ct` threads have arrived.
pub returned-all_arrived :
    (ct : ℕ) → 1 ≤ ct → (b : Barrier) → Reachable ct b → 0 < b.returned → b.arrived ≡ ct
returned-all_arrived ct some_thread b r some_returned =
    by_cases b.lead (Reachable-Balanced ct some_thread b r)
  where
    by_cases : (l : Leader) → Balanced ct b l → b.arrived ≡ ct
    by_cases nobody h = absurd (omega (arith, h.6))
    by_cases (posting i) h = h.4
    by_cases (taking i) h = h.4

-- When the last thread to come resets the barrier, in any state that the calls can reach, every other
-- call of the round has returned, and the barrier is as ggc_barrier_init leaves it: both semaphores
-- are at zero and nobody is inside, so that it serves for another round.
pub reset-init :
    (ct : ℕ)
    → 1 ≤ ct
    → (b : Barrier) (i : ℕ) → Reachable ct b
    → b.lead ≡ taking i
    → b.cur ≤ i
    → (b.returned ≡ ct - 1)
      × (record b { cur = 0; lead = nobody; arrived = 0; returned = 0 } ≡ init)
reset-init ct some_thread b i r at le =
    let (h0, h1, h2, h3, h4, h5) =
      by_lead ct b (taking i) at (Reachable-Balanced ct some_thread b r) in
    let w0 : b.waiters ≡ 0 = omega arith in
    let w1 : b.leader ≡ 0 = omega arith in
    let w2 : b.waiting ≡ 0 = omega arith in
    let w3 : b.woken ≡ 0 = omega arith in (omega arith, rw (w0, w1, w2, w3) refl)

-- An upper bound on the steps to the end of the round.
abbrev pub steps_left_for : Barrier → Leader → ℕ
steps_left_for b nobody = 0
steps_left_for b (posting i) = (b.cur - i) + b.cur + 2 * b.waiting + b.woken + 2
steps_left_for b (taking i) = (b.cur - i) + 2 * b.waiting + b.woken + 1

abbrev pub steps_left : Barrier → ℕ
steps_left b = steps_left_for b b.lead

module _ (ct : ℕ) (some_thread : 1 ≤ ct) (b : Barrier) (r : Reachable ct b)
    (all : b.arrived ≡ ct) where
  moves : (l : Leader) → b.lead ≡ l → Balanced ct b l → (c : Barrier) × Step ct b c
  moves nobody at h = absurd (omega (arith, h.4, h.5))
  moves (posting i) at h = elim (Bool-cases (ltb i b.cur)) [
    | inl lt ↦ (_, signal b i at (ground arith))
    | inr ge ↦ (_, all_signalled b i at (ground arith))
  ]
  moves (taking i) at h = elim (Bool-cases (ltb i b.cur)) [
    | inr ge ↦ (_, reset b i at (ground arith))
    | inl lt ↦ elim (Bool-cases (ltb 0 b.leader)) [
      | inl some_leader ↦ (_, take_answer b i at (ground arith) (ground arith))
      | inr none_left ↦ elim (Bool-cases (ltb 0 b.woken)) [
        | inl some_woken ↦ (_, answer b (ground arith))
        | inr none_woken ↦
            let inside : i < b.cur = ground arith in
            let no_leader : b.leader ≡ 0 = ground arith in
            let no_woken : b.woken ≡ 0 = ground arith in
            (_, wake b (omega (arith, h.1)) (omega (arith, h.0)))
      ]
    ]
  ]

not_nobody : (ct : ℕ) (b : Barrier) → Inv ct b → b.arrived ≡ ct → b.lead ≢ nobody
not_nobody ct b inv all at = let h = by_lead ct b nobody at inv in omega (arith, h.4, h.5)

wake-lowers :
    (b : Barrier) (l : Leader)
    → l ≢ nobody
    → 0 < b.waiting
    → steps_left_for
        (record b { waiters = b.waiters - 1; waiting = b.waiting - 1; woken = b.woken + 1 })
        l
      < steps_left_for b l
wake-lowers b nobody led waiting = absurd (led refl)
wake-lowers b (posting i) led waiting = omega arith
wake-lowers b (taking i) led waiting = omega arith

answer-lowers :
    (b : Barrier) (l : Leader)
    → l ≢ nobody
    → 0 < b.woken
    → steps_left_for
        (record b { woken = b.woken - 1; leader = b.leader + 1; returned = b.returned + 1 })
        l
      < steps_left_for b l
answer-lowers b nobody led woken = absurd (led refl)
answer-lowers b (posting i) led woken = omega arith
answer-lowers b (taking i) led woken = omega arith

step-lowers :
    (ct : ℕ) (b c : Barrier) → Inv ct b → b.arrived ≡ ct → Step ct b c → steps_left c < steps_left b
step-lowers ct _ _ inv all (wait_for_others b at ne) = absurd (not_nobody ct b inv all at)
step-lowers ct _ _ inv all (come_last b at e) = absurd (not_nobody ct b inv all at)
step-lowers ct _ _ inv all (signal b i at lt) = rw at (omega arith)
step-lowers ct _ _ inv all (all_signalled b i at le) = rw at (omega arith)
step-lowers ct _ _ inv all (wake b waiting waiters) =
    wake-lowers b b.lead (not_nobody ct b inv all) waiting
step-lowers ct _ _ inv all (answer b woken) = answer-lowers b b.lead (not_nobody ct b inv all) woken
step-lowers ct _ _ inv all (take_answer b i at lt some_leader) = rw at (omega arith)
step-lowers ct _ _ inv all (reset b i at le) = rw at (omega arith)

-- Once all `ct` threads have arrived, in every state that the calls can reach, some step is possible and
-- every possible step lowers a bound on the steps that are left, so that the round ends: there is no
-- deadlock, and no order of the threads goes on for ever.
pub all_arrived-ends :
    (ct : ℕ)
    → 1 ≤ ct
    → (b : Barrier) → Reachable ct b
    → b.arrived ≡ ct
    → ((c : Barrier) × Step ct b c) × ((c : Barrier) → Step ct b c → steps_left c < steps_left b)
all_arrived-ends ct some_thread b r all = (
  moves ct some_thread b r all b.lead refl (Reachable-Balanced ct some_thread b r),
  (λ c. step-lowers ct b c (Reachable-Balanced ct some_thread b r) all),
)
