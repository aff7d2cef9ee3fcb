-- ===== src/Wake/Simulate/Log/Tests.antt =====
-- gen_wake.py's assertions on its own run.
use redisq.Base.{
  ◌≡◌, refl, ok, ◌>>=◌, Result, Option, some, none, ℕ, raise, stop_iteration, all, true, arith,
  List,
}
use redisq.Wake.Simulate.{Sim, simulate, start, loop}
use redisq.Wake.Simulate.Log.{check_log, check_enq, check_wake, check_nudge}
use redisq.Wake.Simulate.Log.Run.{run_passes}

check_end : Option Sim → Result ℕ
check_end (some s) = check_log s
check_end none = raise stop_iteration

check_log-simulate : (simulate >>= check_end) ≡ ok 70000
unfolding check_log simulate redisq.Base.Heapq.heappush check_end redisq.Base.add
    redisq.Base.discard redisq.Base.Sort.sorted redisq.Base.Dict.get redisq.Base.ℕ_discrete
check_log-simulate = refl

result_of : Result (Option Sim) → Sim
unfolding start
result_of (ok (some s)) = s
result_of r = start

run_passes_example :
    let r = result_of (loop 200 start) in
    (all check_enq r.enq_log ≡ true)
    × (all (check_wake r.member_log) r.wakes ≡ true)
    × (all (check_nudge r.signal_log) r.nudge_log ≡ true)
unfolding start result_of loop redisq.Base.Heapq.heappush redisq.Base.add redisq.Base.discard
run_passes_example =
    run_passes 200 start (result_of (loop 200 start)) refl refl refl refl (λ c. ground arith) refl
      refl
