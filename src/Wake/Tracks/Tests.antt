-- ===== src/Wake/Tracks/Tests.antt =====
-- The drawing that gen_wake.py makes of its own run.
use redisq.Base.{
  ◌≡◌, refl, ok, ◌>>=◌, Result, Option, some, none, ℕ, raise, stop_iteration, length, List, [], ◌∷◌,
}
use redisq.Wake.Simulate.{Sim, simulate}
use redisq.Wake.Simulate.Log.{check_log}
use redisq.Wake.Tracks.{build}

drawing : Option Sim → Result (ℕ × ℕ × ℕ)
unfolding build
drawing (some s) = build s >>= λ d. ok (length d.rules, d.end, d.still)
drawing none = raise stop_iteration

-- 33 rules, a loop of 7 s and the still at 2.02 s.
build-simulate : (simulate >>= drawing) ≡ ok (33, 70000, 20200)
unfolding drawing build simulate check_log redisq.Base.Heapq.heappush redisq.Base.add
    redisq.Base.discard redisq.Base.Sort.sorted redisq.Base.Dict.get redisq.Base.ℕ_discrete
build-simulate = refl
