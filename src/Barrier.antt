-- ===== src/Barrier.antt =====
-- The barrier of gen-barriers.c, by which the threads stop for a collection, as a step relation on what
-- the threads that call ggc_barrier_wait_raw have done.
pub mod Rounds
mod Tests
use ggggc.Base.{ℕ, ◌+◌, ◌-◌, ◌≤◌, ◌<◌, ◌≡◌, ◌≢◌}

-- The call that found `cur == ct - 1` and keeps the lock: how often it posted to `waiters`, or how
-- often it took from `leader`.
pub data Leader : Type 0 where
  nobody : Leader
  posting taking : ℕ → Leader

-- `cur`, and the two semaphores; `waiting` calls are before or in their wait for `waiters`, `woken` ones
-- behind it. `arrived` and `returned` count the calls of this round that took the lock, and those
-- that are over.
pub record Barrier : Type 0 where
  pub cur : ℕ
  pub waiters : ℕ
  pub leader : ℕ
  pub waiting : ℕ
  pub woken : ℕ
  pub lead : Leader
  pub arrived : ℕ
  pub returned : ℕ

-- ggc_barrier_init
abbrev pub init : Barrier
init = record {
  cur = 0;
  waiters = 0;
  leader = 0;
  waiting = 0;
  woken = 0;
  lead = nobody;
  arrived = 0;
  returned = 0;
}

-- One step of one call, of a barrier for `ct` threads. A call can take the lock when no leader has it.
pub data Step (ct : ℕ) : Barrier → Barrier → Type 0 where
  wait_for_others :
      (b : Barrier)
      → b.lead ≡ nobody
      → b.cur ≢ ct - 1
      → Step ct b (record b { cur = b.cur + 1; waiting = b.waiting + 1; arrived = b.arrived + 1 })
  come_last :
      (b : Barrier)
      → b.lead ≡ nobody
      → b.cur ≡ ct - 1
      → Step ct b (record b { lead = posting 0; arrived = b.arrived + 1 })
  signal :
      (b : Barrier) (i : ℕ)
      → b.lead ≡ posting i
      → i < b.cur
      → Step ct b (record b { waiters = b.waiters + 1; lead = posting (i + 1) })
  all_signalled :
      (b : Barrier) (i : ℕ)
      → b.lead ≡ posting i
      → b.cur ≤ i
      → Step ct b (record b { lead = taking 0 })
  wake :
      (b : Barrier)
      → 0 < b.waiting
      → 0 < b.waiters
      → Step ct b
          (record b { waiters = b.waiters - 1; waiting = b.waiting - 1; woken = b.woken + 1 })
  answer :
      (b : Barrier)
      → 0 < b.woken
      → Step ct b
          (record b { woken = b.woken - 1; leader = b.leader + 1; returned = b.returned + 1 })
  take_answer :
      (b : Barrier) (i : ℕ)
      → b.lead ≡ taking i
      → i < b.cur
      → 0 < b.leader
      → Step ct b (record b { leader = b.leader - 1; lead = taking (i + 1) })
  reset :
      (b : Barrier) (i : ℕ)
      → b.lead ≡ taking i
      → b.cur ≤ i
      → Step ct b (record b { cur = 0; lead = nobody; arrived = 0; returned = 0 })

pub data Reachable (ct : ℕ) : Barrier → Type 0 where
  start : Reachable ct init
  step : (b c : Barrier) → Reachable ct b → Step ct b c → Reachable ct c
