-- ===== src/Wake/Walk/Tests.antt =====
-- gen_wake.py's walk along the way of a wake.
use redisq.Base.{ℕ, ◌+◌, ◌*◌, ◌≤◌, ◌≡◌, List, [], ◌∷◌, ok, arith}
use redisq.Kfu.Walk.{Point}
use redisq.Wake.Simulate.{arrival, plen}
use redisq.Wake.Walk.{walk, walk-arrival}

-- The wake of consumer 1 that is sent at .5 s.
abbrev path : List (ℕ × ℕ)
path = (440, 173) ∷ (624, 173) ∷ (624, 222) ∷ []

walk-arrival_example :
    (out : List Point) × (got : ℕ) × (walk (4600 * 1200) path 1200 0 0 ≡ ok (out, got))
    × (2 * got ≤ 2 * (arrival (4600 + 400) (plen path) 1200 * 1200) + 1200)
    × (2 * (arrival (4600 + 400) (plen path) 1200 * 1200) ≤ 2 * got + 1200)
walk-arrival_example =
    walk-arrival 4600 1200 (440, 173) ((624, 173) ∷ (624, 222) ∷ []) 0 0 (omega arith)
