-- ===== src/Dead/TimeMap/Tests.antt =====
-- gen_dead.py's map of time at the moments of its two rows.
use redisq.Base.{◌≡◌, refl, none, some, List, [], ◌∷◌, Result, ok, raise, arith}
use redisq.Dead.Store.Simulate.Facts.{Facts}
use redisq.Dead.TimeMap.{Knot, Drawn, build_map, call, time_map, IsNoLater, call-IsNoLater}

-- The moments of the two rows, without the sweeps.
abbrev row_a : Facts
row_a = record {
  kill = 100;
  c2_last = 0;
  skip = 300;
  mark = some 1300;
  reap = 4300;
  wake = 4305;
  pops = (4310, 2) ∷ (4315, 1) ∷ [];
  acks = (6310, 2) ∷ (6315, 1) ∷ [];
  hb_out = 30000;
  order = 2 ∷ 1 ∷ [];
  woken = 1 ∷ [];
  sweeps = [];
}

abbrev row_b : Facts
row_b = record row_a {
  mark = none;
  reap = 30300;
  wake = 30305;
  pops = (30310, 2) ∷ (30315, 1) ∷ [];
  acks = (32310, 2) ∷ (32315, 1) ∷ [];
}

abbrev knots : List Knot
knots =
    (100, 10000)
    ∷ (300, 18000)
    ∷ (1300, 30000)
    ∷ (4300, 51000)
    ∷ (4305, 56000)
    ∷ (4310, 61000)
    ∷ (4315, 66000)
    ∷ (9000, 98795)
    ∷ (29000, 123795)
    ∷ (30300, 132895)
    ∷ (30305, 137895)
    ∷ (30310, 142895)
    ∷ (30315, 147895)
    ∷ (34600, 177890)
    ∷ []

build_map-knots : build_map row_a row_b ≡ ok ((0, 4000) ∷ knots)
unfolding build_map
build_map-knots = refl

drawn : Result Drawn → Drawn
drawn (ok v) = v
drawn (raise e) = record { num = 0; den = 0 }

-- The kill, and a moment of the fast-forward.
call-IsNoLater_example :
    IsNoLater (drawn (call ((0, 4000) ∷ knots) 100)) (drawn (call ((0, 4000) ∷ knots) 20000))
unfolding call time_map drawn
call-IsNoLater_example =
    call-IsNoLater ((0, 4000) ∷ knots) 100 20000 (drawn (call ((0, 4000) ∷ knots) 100))
      (drawn (call ((0, 4000) ∷ knots) 20000)) refl (omega arith) refl refl
