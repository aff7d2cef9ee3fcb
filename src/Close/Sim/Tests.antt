-- ===== src/Close/Sim/Tests.antt =====
-- gen_close.py at its own inputs: J1 to J3 are popped by consumer 2, handed back, and done by consumer 1.
use redisq.Base.{
  arith, ◌==◌, ◌≤◌, true, length, reverse, ◌++◌, ◌+◌, ℕ, ◌≡◌, refl, add, discard, ℕ_discrete,
  Option, some, List, [], ◌∷◌, Result, ok,
}
use redisq.Base.Dict
use redisq.Base.Sort.{sorted, IsOrderedBy}
use redisq.Base.Heapq.{heappush}
use redisq.Close.State.{
  Event, release_wake, rel_time, Sim, Why, by_wake, wake, at, arrive_exact, rounded, update,
  set_consumer, len, sadd, srem, busy_up, busy_down, is_nil, wake_path, pop_path,
}
use redisq.Close.Pull.{signal, pop_call, pull_loop}
use redisq.Close.Sim.{idle_consumer, handle, run, start, on_release}
use redisq.Close.Jobs.{in_hand, brings}
use redisq.Close.Sim.Keeps.{all_jobs, acked_by}
use redisq.Close.Sim.Keeps.Whole.{
  handle_keeps_jobs, Reaches, here, next, run_no_job_twice, run_closed_silent,
}
use redisq.Close.Rounds.{tree}
use redisq.Close.Sim.Stops.{IsOver, run-IsOver}
use redisq.Close.Sim.Release.{jobs_of, numbered, pending_for, release_hands_back}
use redisq.Close.Pull.Full.{Untouched, signal_when_full}
use redisq.Wake.Simulate.{plen}

result_of : Result (Option Sim) → Sim
unfolding start
result_of (ok (some s)) = s
result_of r = start

abbrev Facts : Type 0
Facts = List (ℕ × ℕ × ℕ) × List (ℕ × ℕ × ℕ) × List (ℕ × ℕ × ℕ × Why) × List (ℕ × ℕ) × List ℕ

-- The wakes at each push, the acknowledgments, the pops, the wakes, and the list at the end.
abbrev facts : Sim → Facts
facts s = (s.push_wakes, s.acks, s.pops, s.wakes, s.lst)

facts-run : facts (result_of (run 400 start)) ≡ (
  (1, 1, 1) ∷ (2, 2, 0) ∷ (3, 3, 0) ∷ [],
  (74861, 1, 1) ∷ (77361, 1, 2) ∷ (79861, 1, 3) ∷ [],
  (10962, 2, 1, by_wake)
      ∷ (11462, 2, 2, by_wake)
      ∷ (11962, 2, 3, by_wake)
      ∷ (42169, 1, 3, by_wake)
      ∷ (42669, 1, 2, by_wake)
      ∷ (43169, 1, 1, by_wake)
      ∷ [],
  (9000, 2) ∷ (39400, 1) ∷ [],
  [],
)
unfolding run start result_of heappush wake at arrive_exact rounded update set_consumer len sadd
    srem busy_up busy_down is_nil signal pop_call pull_loop add discard sorted Dict.get Dict.insert
    Dict.erase ℕ_discrete plen wake_path pop_path
facts-run = refl

-- consumer 2 holds J1 and J2, and J3 waits.
abbrev closing : Sim
closing = record start {
  lst = 3 ∷ [];
  x = (3, 420) ∷ [];
  pending =
      (1, record { owner = 2; row = 2; since = 100; number = 1 })
      ∷ (2, record { owner = 2; row = 1; since = 200; number = 2 })
      ∷ [];
}

result : Result Sim → Sim
unfolding start
result (ok s) = s
result r = start

release_hands_back_example :
    let r = result (on_release 36200 2 closing) in
    (ids : List (ℕ × ℕ)) × ((n j : ℕ) → numbered n j ids ≡ pending_for 2 n j closing.pending)
    × IsOrderedBy (λ p. p.0) 0 ids
    × (r.lst ≡ reverse (jobs_of ids) ++ closing.lst)
    × ((j : ℕ) → in_hand j r ≡ in_hand j closing)
    × (r.ev
        ≡ heappush
            (record {
              time = 36200 + rel_time;
              order = closing.n + 1;
              event = release_wake 2 (length ids);
            })
            closing.ev)
unfolding result on_release sorted Dict.get Dict.erase ℕ_discrete
release_hands_back_example =
    release_hands_back 36200 2 closing (result (on_release 36200 2 closing)) refl

-- The same, with the release to come, consumer 2 closed, and consumer 1 idle.
abbrev released : Sim
released = record closing {
  ev = record { time = 36200; order = 0; event = Event.release 2 } ∷ [];
  acks = [];
  idle = 1 ∷ [];
  c = λ m. record (idle_consumer true) { closed = m == 2; consumer = m == 1 };
}

released_once : (j : ℕ) → all_jobs j released ≤ 1
released_once j = ground arith

held_once : (j : ℕ) → brings j (Event.release 2) + all_jobs j (record released { ev = [] }) ≤ 1
held_once j = ground arith

handle_keeps_jobs_example :
    all_jobs 1 (result (handle 36200 (Event.release 2) (record released { ev = [] })))
    ≡ brings 1 (Event.release 2) + all_jobs 1 (record released { ev = [] })
unfolding result handle sorted Dict.get Dict.erase Dict.insert ℕ_discrete
handle_keeps_jobs_example =
    handle_keeps_jobs 36200 (Event.release 2) (record released { ev = [] })
      (result (handle 36200 (Event.release 2) (record released { ev = [] }))) refl held_once 1

runs : run 60 released ≡ ok (some (result_of (run 60 released)))
unfolding run result_of heappush wake at arrive_exact rounded update set_consumer len sadd srem
    busy_up busy_down is_nil signal pop_call pull_loop add discard sorted Dict.get Dict.insert
    Dict.erase ℕ_discrete plen wake_path pop_path idle_consumer start
runs = refl

-- The state after the release.
abbrev handed_back : Sim
handed_back = result (handle 36200 (Event.release 2) (record released { ev = [] }))

released-Reaches : Reaches released handed_back
unfolding result handle sorted Dict.get Dict.erase Dict.insert ℕ_discrete
released-Reaches =
    next released handed_back (record { time = 36200; order = 0; event = Event.release 2 }) [] here
      refl (omega arith) refl

run_no_job_twice_example : all_jobs 1 handed_back ≤ 1
run_no_job_twice_example = run_no_job_twice released handed_back released_once released-Reaches 1

-- A job waits, and consumer 1 has no free slot.
abbrev full : Sim
full = record released { c = λ m. record (idle_consumer true) { busy = 3 } }

signal_when_full_example : (r : Sim) × (signal 36200 1 by_wake full ≡ ok r) × Untouched full r
unfolding idle_consumer
signal_when_full_example = signal_when_full 36200 1 by_wake full (omega arith)

run_closed_silent_example :
    (((result_of (run 60 released)).c 2).closed ≡ true)
    × (acked_by 2 (result_of (run 60 released)).acks ≡ acked_by 2 released.acks)
run_closed_silent_example = run_closed_silent 60 2 released (result_of (run 60 released)) runs refl

-- One step of the clock before the horizon.
abbrev at_the_end : Sim
at_the_end = record released {
  ev = record { time = 299999; order = 0; event = Event.nudge 1 } ∷ [];
}

run-IsOver_example : IsOver (run 8 at_the_end)
unfolding tree
run-IsOver_example = run-IsOver 8 at_the_end (omega arith)
