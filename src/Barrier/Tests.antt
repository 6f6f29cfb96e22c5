-- ===== src/Barrier/Tests.antt =====
-- A barrier for two threads: the first waits, the second comes last, signals and is answered.
use ggggc.Base.{ℕ, ◌<◌, ◌≡◌, refl, arith}
use ggggc.Barrier.{
  Leader, nobody, posting, taking, Barrier, init, Step, wait_for_others, come_last, signal,
  all_signalled, wake, answer, take_answer, Reachable, start, step,
}
use ggggc.Barrier.Rounds.{steps_left, returned-all_arrived, reset-init, all_arrived-ends}

abbrev in_round : ℕ → (waiters leader waiting woken : ℕ) → Leader → ℕ → Barrier
in_round ct w l a b p n = record {
  cur = 1;
  waiters = w;
  leader = l;
  waiting = a;
  woken = b;
  lead = p;
  arrived = ct;
  returned = n;
}

one_waits : Reachable 2 (in_round 1 0 0 1 0 nobody 0)
one_waits = step init _ start (wait_for_others init refl (λ e. omega arith))

two_arrived : Reachable 2 (in_round 2 0 0 1 0 (posting 0) 0)
two_arrived = step (in_round 1 0 0 1 0 nobody 0) _ one_waits (come_last _ refl refl)

signalled : Reachable 2 (in_round 2 1 0 1 0 (posting 1) 0)
signalled = step (in_round 2 0 0 1 0 (posting 0) 0) _ two_arrived (signal _ 0 refl (omega arith))

woke : Reachable 2 (in_round 2 0 0 0 1 (posting 1) 0)
woke = step (in_round 2 1 0 1 0 (posting 1) 0) _ signalled (wake _ (omega arith) (omega arith))

answered : Reachable 2 (in_round 2 0 1 0 0 (posting 1) 1)
answered = step (in_round 2 0 0 0 1 (posting 1) 0) _ woke (answer _ (omega arith))

taking_answers : Reachable 2 (in_round 2 0 1 0 0 (taking 0) 1)
taking_answers =
    step (in_round 2 0 1 0 0 (posting 1) 1) _ answered (all_signalled _ 1 refl (omega arith))

took : Reachable 2 (in_round 2 0 0 0 0 (taking 1) 1)
took =
    step (in_round 2 0 1 0 0 (taking 0) 1) _ taking_answers
      (take_answer _ 0 refl (omega arith) (omega arith))

returned-all_arrived_example : (in_round 2 0 1 0 0 (posting 1) 1).arrived ≡ 2
returned-all_arrived_example =
    returned-all_arrived 2 (omega arith) (in_round 2 0 1 0 0 (posting 1) 1) answered (omega arith)

reset-init_example :
    ((in_round 2 0 0 0 0 (taking 1) 1).returned ≡ 1)
    × (record (in_round 2 0 0 0 0 (taking 1) 1) {
      cur = 0;
      lead = nobody;
      arrived = 0;
      returned = 0;
    }
        ≡ init)
reset-init_example =
    reset-init 2 (omega arith) (in_round 2 0 0 0 0 (taking 1) 1) 1 took refl (omega arith)

all_arrived-ends_example :
    ((c : Barrier) × Step 2 (in_round 2 0 0 1 0 (posting 0) 0) c)
    × ((c : Barrier)
        → Step 2 (in_round 2 0 0 1 0 (posting 0) 0) c
        → steps_left c < steps_left (in_round 2 0 0 1 0 (posting 0) 0))
all_arrived-ends_example =
    all_arrived-ends 2 (omega arith) (in_round 2 0 0 1 0 (posting 0) 0) two_arrived refl
