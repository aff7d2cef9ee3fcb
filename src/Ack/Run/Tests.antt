-- ===== src/Ack/Run/Tests.antt =====
-- gen_ack.py's build at its own inputs.
use redisq.Base.{ℕ, ◌≡◌, refl, Option, none, some, List, [], ◌∷◌, Result, ok, raise, ℕ_discrete}
use redisq.Base.Dict
use redisq.Base.Sort.{sorted}
use redisq.Ack.Run.{Built, build}

-- B's deadline, the tick that requeues it, the loop's length, the pops and the acknowledgments.
abbrev Times : Type 0
Times = ℕ × ℕ × ℕ × List (ℕ × ℕ) × List (ℕ × ℕ)

times_of : Result Built → Option Times
times_of (raise e) = none
times_of (ok b) = some (b.deadline, b.requeued, b.length, b.state.pops, b.state.acks)

build-times :
    times_of build
    ≡ some (
      3926000,
      4326000,
      17,
      (588000, 1) ∷ (2246000, 2) ∷ (4704000, 2) ∷ [],
      (2120000, 1) ∷ (6236000, 2) ∷ [],
    )
unfolding build times_of sorted Dict.insert Dict.get ℕ_discrete
build-times = refl
