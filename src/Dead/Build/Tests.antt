-- ===== src/Dead/Build/Tests.antt =====
-- gen_dead.py's drawing of its own two rows.
use redisq.Base.{
  ℕ, zero, suc, ◌+◌, ◌*◌, Bool, true, ◌≡◌, refl, none, some, List, [], ◌∷◌, ◌++◌, Result, ok, raise,
  length,
}
use redisq.Dead.Store.{Note, mark, gone, waiting, ran_out, reap}
use redisq.Dead.Store.Simulate.Facts.{Facts}
use redisq.Dead.Swap.{CrossFade}
use redisq.Dead.Row.{Moments}
use redisq.Dead.Build.{Drawing, build}

-- `n` sweeps, from second `k` on, each at 0.3 s, with one set of notes.
quiet : ℕ → ℕ → List Note → List (ℕ × Bool × List Note)
quiet k zero notes = []
quiet k (suc n) notes = (1000 * k + 300, true, notes) ∷ quiet (k + 1) n notes

facts_a : Facts
unfolding quiet
facts_a = record {
  kill = 100;
  c2_last = 0;
  skip = 300;
  mark = some 1300;
  reap = 4300;
  wake = 4305;
  pops = (4310, 2) ∷ (4315, 1) ∷ [];
  acks = (6310, 2) ∷ (6315, 1) ∷ [];
  hb_out = 30000;
  order = 2 ∷ 1 ∷ [];
  woken = 1 ∷ [];
  sweeps =
      (300, Bool.false, [])
      ∷ (1300, true, mark 2 ∷ [])
      ∷ (quiet 2 2 (waiting 2 ∷ []) ++ (4300, true, gone 2 ∷ reap (2 ∷ []) ∷ []) ∷ quiet 5 30 []);
}

facts_b : Facts
unfolding quiet
facts_b = record {
  kill = 100;
  c2_last = 0;
  skip = 300;
  mark = none;
  reap = 30300;
  wake = 30305;
  pops = (30310, 2) ∷ (30315, 1) ∷ [];
  acks = (32310, 2) ∷ (32315, 1) ∷ [];
  hb_out = 30000;
  order = 2 ∷ 1 ∷ [];
  woken = 1 ∷ [];
  sweeps =
      (300, Bool.false, [])
      ∷ (quiet 1 29 [] ++ (30300, true, ran_out 2 ∷ reap (2 ∷ []) ∷ []) ∷ quiet 31 4 []);
}

-- How many rules there are, the loop's end and the still.
summary : Result Drawing → Result (ℕ × ℕ × ℕ)
summary (ok d) = ok (length d.rules, d.end, d.still)
summary (raise e) = raise e

build-ok : summary (build facts_a facts_b) ≡ ok (115, 19000, 10190)
unfolding build facts_a facts_b redisq.Dead.TimeMap.build_map summary redisq.Dead.TimeMap.call
    redisq.Dead.Swap.swap redisq.Base.Sort.sorted redisq.Base.Dict.get redisq.Base.ℕ_discrete
    redisq.Dead.Vis.walk redisq.Kfu.Bar.bar redisq.Kfu.Keyframes.padded redisq.Kfu.Pulses.ring
    redisq.Kfu.Pulses.pulses redisq.Dead.Vis.vis redisq.Kfu.Walk.at redisq.Wake.Simulate.dist
    redisq.Kfu.Spans.flash redisq.Kfu.Spans.merge
build-ok = refl

abbrev fading : CrossFade
fading = record { start = 17789; middle = 18139; end = 18489 }

-- Row A's moments on the drawn clock.
abbrev drawn_a : Moments
drawn_a = record {
  kill = 1000;
  c2_sweep = 400;
  reap = 5100;
  wake = 5600;
  pops = (6100, 2) ∷ (6600, 1) ∷ [];
  acks = (7997, 2) ∷ (8000, 1) ∷ [];
  sweeps = 1800 ∷ 3000 ∷ [];
  skip = 1800;
  check = 3000;
  last_ack = 8000;
}
