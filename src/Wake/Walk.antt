-- ===== src/Wake/Walk.antt =====
-- assets/diagrams/gen/gen_wake.py, walk: a dot on an edge. Times are exact, in parts of 1/v of a tenth of a
-- millisecond for the speed `v`, so that a pixel takes 10000 of them and `at` gets parts of 1/10v ms.
mod Tests
use native.Mathlib.Nat.{div-add-mod, mod-lt}
use redisq.Base.{
  ℕ, ◌+◌, ◌*◌, ◌/◌, ◌%◌, ◌≤◌, ◌<◌, ◌≡◌, refl, List, [], ◌∷◌, ◌++◌, ltb, if◌then◌else◌, Result, ok,
  raise, index_error, none, arith,
}
use redisq.Wake.Simulate.{dist, plen, arrival}
use redisq.Kfu.Walk.{Point, at}

-- The stay at the end, if there is one, and the keyframe that ends the dot.
ending : ℕ → ℕ → ℕ × ℕ → ℕ → ℕ → List Point
ending v t p end_op hold =
    let stay = if ltb 0 hold then at (10 * v) (t + hold * v) p.0 p.1 1 none ∷ [] else [] in
    stay ++ at (10 * v) (t + hold * v + 1200 * v) p.0 p.1 end_op none ∷ []

-- The loop over the further points.
walk_from : ℕ → ℕ → ℕ × ℕ → List (ℕ × ℕ) → ℕ → ℕ → List Point × ℕ
unfolding ending
walk_from v t p [] end_op hold = (ending v t p end_op hold, t)
walk_from v t p (q ∷ pts) end_op hold =
    let t' = t + 10000 * (dist q.0 p.0 + dist q.1 p.1) in
    let rest = walk_from v t' q pts end_op hold in (at (10 * v) t' q.0 q.1 1 none ∷ rest.0, rest.1)

-- The keyframes that `walk` hands to `kf`, and the time of arrival, from the exact time `t` on.
unfoldable pub walk : ℕ → List (ℕ × ℕ) → ℕ → ℕ → ℕ → Result (List Point × ℕ)
unfolding walk_from
walk t [] v end_op hold = raise index_error
walk t (p ∷ pts) v end_op hold =
    let rest = walk_from v (t + 400 * v) p pts end_op hold in
    ok (at (10 * v) t p.0 p.1 0 none ∷ at (10 * v) (t + 400 * v) p.0 p.1 1 none ∷ rest.0, rest.1)

dist_comm : (a b : ℕ) → dist a b ≡ dist b a
unfolding dist
dist_comm a b = omega arith

walk_from-plen :
    (v t : ℕ) (p : ℕ × ℕ) (pts : List (ℕ × ℕ)) (end_op hold : ℕ)
    → (walk_from v t p pts end_op hold).1 ≡ t + 10000 * plen (p ∷ pts)
unfolding walk_from plen
walk_from-plen v t p [] end_op hold = omega arith
walk_from-plen v t p (q ∷ pts) end_op hold = omega (
  arith,
  walk_from-plen v (t + 10000 * (dist q.0 p.0 + dist q.1 p.1)) q pts end_op hold,
  dist_comm q.0 p.0,
  dist_comm q.1 p.1,
)

-- Rounding a fraction to the nearest whole number.
nearest :
    (n v : ℕ)
    → 0 < v
    → (2 * n ≤ 2 * ((2 * n + v) / (2 * v)) * v + v) × (2 * ((2 * n + v) / (2 * v)) * v ≤ 2 * n + v)
nearest n v h =
    let split = div-add-mod (2 * n + v) (2 * v) in
    let low : (2 * n + v) % (2 * v) < 2 * v = mod-lt (2 * n + v) (omega arith) in
    (omega (arith, split, low), omega (arith, split, low))

-- A dot that sets out 0.04 s early, on a path of at least one point and at any speed, arrives within half a
-- step of the clock of the time at which the simulation lets the message arrive that is sent then; whatever
-- is shown at the end and however long it stays.
pub walk-arrival :
    (t v : ℕ) (p : ℕ × ℕ) (pts : List (ℕ × ℕ)) (end_op hold : ℕ)
    → 0 < v
    → (out : List Point) × (got : ℕ) × (walk (t * v) (p ∷ pts) v end_op hold ≡ ok (out, got))
      × (2 * got ≤ 2 * (arrival (t + 400) (plen (p ∷ pts)) v * v) + v)
      × (2 * (arrival (t + 400) (plen (p ∷ pts)) v * v) ≤ 2 * got + v)
unfolding walk arrival
walk-arrival t v p pts end_op hold h =
    let rest = walk_from v (t * v + 400 * v) p pts end_op hold in
    let (low, high) = nearest (10000 * plen (p ∷ pts)) v h in
    let far = walk_from-plen v (t * v + 400 * v) p pts end_op hold in
    let same : 2 * 10000 * plen (p ∷ pts) ≡ 2 * (10000 * plen (p ∷ pts)) = omega arith in
    (
      at (10 * v) (t * v) p.0 p.1 0 none ∷ at (10 * v) (t * v + 400 * v) p.0 p.1 1 none ∷ rest.0,
      rest.1,
      refl,
      rw same (omega (arith, far, low)),
      rw same (omega (arith, far, high)),
    )
