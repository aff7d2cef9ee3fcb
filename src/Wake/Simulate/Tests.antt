-- ===== src/Wake/Simulate/Tests.antt =====
-- gen_wake.py at its own inputs, and the theorems at states of such a run.
use redisq.Base.{
  ℕ, ◌+◌, ◌≤◌, ◌≡◌, ◌⊎◌, refl, Bool, true, false, Option, none, some, List, [], ◌∷◌, ◌++◌, not,
  ◌==◌, if◌then◌else◌, elem, length, Result, ok, raise, arith,
}
use redisq.Base.Heapq.{heappush}
use redisq.Wake.Simulate.{
  Sim, free, dispatching, running, enqueue, nudge, pop, done, handle, loop, start, simulate,
  horizon, Why, spop, len,
}
use redisq.Wake.Simulate.Jobs.{Ends, none_in_hand, handle-Holds, loop-Ends}
use redisq.Wake.Simulate.Invariant.{Holds}
use redisq.Wake.Simulate.Stops.{IsOver, loop-IsOver}
use redisq.Wake.Simulate.Members.{enqueue_wakes, no_rejoin}

result_of : Result (Option Sim) → Sim
unfolding start
result_of (ok (some s)) = s
result_of r = start

-- What the script's assertions read.
abbrev Facts : Type 0
Facts = List (ℕ × ℕ) × List ℕ × List (ℕ × ℕ × Bool × Why) × List (ℕ × ℕ × ℕ × List ℕ × List ℕ)

abbrev facts : Sim → Facts
facts s = (s.popped, s.idle, s.member_log, s.enq_log)

simulate-facts : facts (result_of simulate) ≡ (
  (1, 1) ∷ (2, 2) ∷ [],
  2 ∷ 1 ∷ [],
  (5000, 1, false, spop)
      ∷ (18500, 2, false, spop)
      ∷ (29598, 1, true, len)
      ∷ (46519, 2, true, len)
      ∷ [],
  (5000, 1, 1, 1 ∷ [], 1 ∷ 2 ∷ []) ∷ (18500, 2, 1, 2 ∷ [], 2 ∷ []) ∷ [],
)
unfolding simulate result_of heappush redisq.Base.add redisq.Base.discard
simulate-facts = refl

start-Holds : Holds none_in_hand start
unfolding start heappush
start-Holds = record {
  fifo = refl;
  popping = λ c. refl;
  ending = λ c j. refl;
  done_once = λ c j. refl;
  found_work = λ c j h. ground arith;
}

loop-Ends_example : Ends (result_of (loop 200 start))
unfolding loop result_of heappush redisq.Base.add redisq.Base.discard
loop-Ends_example = loop-Ends 200 start (result_of (loop 200 start)) refl start-Holds

-- Consumer 1 dispatches, and job 1 waits.
abbrev ready : Sim
ready = record start {
  queue = 1 ∷ [];
  enqueued = 1 ∷ [];
  idle = 2 ∷ [];
  busy = λ c. if c == 1 then dispatching else free;
}

ready-Holds : Holds (pop 1) ready
unfolding start heappush
ready-Holds = record {
  fifo = refl;
  popping = λ c. ground arith;
  ending = λ c j. ground arith;
  done_once = λ c j. ground arith;
  found_work = λ c j h. ground arith;
}

result : Result Sim → Sim
unfolding start
result (ok s) = s
result r = start

handle-Holds_example : Holds none_in_hand (result (handle 8000 (pop 1) ready))
unfolding handle result
handle-Holds_example =
    handle-Holds 8000 (pop 1) ready (result (handle 8000 (pop 1) ready)) refl ready-Holds

-- Consumer 1 runs job 1, and the queue is empty.
abbrev at_work : Sim
at_work = record ready {
  ev = record { time = 31000; order = 9; event = done 1 1 } ∷ [];
  queue = [];
  popped = (1, 1) ∷ [];
  busy = λ c. if c == 1 then running 1 else free;
  is_free = λ c. not (c == 1);
}

at_work-Holds : Holds (nudge 1) at_work
unfolding start
at_work-Holds = record {
  fifo = refl;
  popping = λ c. ground arith;
  ending = λ c j. ground arith;
  done_once = λ c j. ground arith;
  found_work = λ c j h. ground arith;
}

no_rejoin_example : elem 1 (result (handle 13000 (nudge 1) at_work)).idle ≡ false
unfolding handle result
no_rejoin_example =
    no_rejoin 13000 (nudge 1) at_work (result (handle 13000 (nudge 1) at_work)) 1 1 at_work-Holds
      refl refl refl refl

enqueue_wakes_example :
    let r = result (handle 5000 (enqueue 1) start) in
    (woken : List ℕ) × (r.enq_log
      ≡ start.enq_log ++ (5000, 1, length start.queue + 1, woken, start.idle) ∷ [])
    × (length woken ≤ length start.queue + 1)
    × (length woken + length r.idle ≤ length start.idle)
    × ((length woken ≡ length start.queue + 1) ⊎ (r.idle ≡ []))
unfolding handle result
enqueue_wakes_example = enqueue_wakes 5000 1 start (result (handle 5000 (enqueue 1) start)) refl

-- A run that ends at the horizon itself.
abbrev late : Sim
late = record at_work {
  ev = record { time = horizon; order = 9; event = done 1 1 } ∷ [];
  picks = [];
}

loop-IsOver_example : IsOver late (loop 2 late)
loop-IsOver_example = loop-IsOver 2 late (omega arith)
