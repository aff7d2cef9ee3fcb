-- ===== src/Close/Walk.antt =====
-- assets/diagrams/gen/gen_close.py, walk: a dot on an edge. Times are exact, in parts of 1/v of a tenth of a
-- millisecond for the speed `v`, so that a pixel takes 10000 of them and `at` gets parts of 1/10v ms.
use redisq.Base.{ℕ, ◌+◌, ◌*◌, ◌≡◌, ap, List, [], ◌∷◌, Result, ok, raise, index_error, none, arith}
use redisq.Wake.Simulate.{dist, plen}
use redisq.Kfu.Walk.{Point, at}
use redisq.Close.State.{arrive_exact, dot_v}

-- The loop over the further points, and the keyframe that hides the dot.
walk_from : ℕ → ℕ → ℕ × ℕ → List (ℕ × ℕ) → List Point × ℕ
walk_from v t p [] = (at (10 * v) (t + 500 * v) p.0 p.1 0 none ∷ [], t)
walk_from v t p (q ∷ pts) =
    let t' = t + 10000 * (dist q.0 p.0 + dist q.1 p.1) in
    let rest = walk_from v t' q pts in (at (10 * v) t' q.0 q.1 1 none ∷ rest.0, rest.1)

-- The keyframes that `walk` hands to `kf`, and the time of arrival, from the exact time `t` on.
pub walk : ℕ → ℕ → List (ℕ × ℕ) → Result (List Point × ℕ)
unfolding walk_from
walk v t [] = raise index_error
walk v t (p ∷ pts) =
    let rest = walk_from v (t + 500 * v) p pts in
    ok (at (10 * v) t p.0 p.1 0 none ∷ at (10 * v) (t + 500 * v) p.0 p.1 1 none ∷ rest.0, rest.1)

dist_comm : (a b : ℕ) → dist a b ≡ dist b a
unfolding dist
dist_comm a b = omega arith

walk_from-plen :
    (v t : ℕ) (p : ℕ × ℕ) (pts : List (ℕ × ℕ))
    → (walk_from v t p pts).1 ≡ t + 10000 * plen (p ∷ pts)
unfolding walk_from plen
walk_from-plen v t p [] = omega arith
walk_from-plen v t p (q ∷ pts) = omega (
  arith,
  walk_from-plen v (t + 10000 * (dist q.0 p.0 + dist q.1 p.1)) q pts,
  dist_comm q.0 p.0,
  dist_comm q.1 p.1,
)

-- A dot that is drawn on a path of at least one point, at the speed of the dots, arrives at the exact time at
-- which the simulation lets the message arrive that travels this path.
pub walk-arrive_exact :
    (t : ℕ) (p : ℕ × ℕ) (pts : List (ℕ × ℕ))
    → (out : List Point) × (walk dot_v (t * dot_v) (p ∷ pts) ≡ ok (out, arrive_exact t (p ∷ pts)))
unfolding walk arrive_exact
walk-arrive_exact t p pts =
    let s = t * dot_v + 500 * dot_v in
    let out : List Point =
      at (10 * dot_v) (t * dot_v) p.0 p.1 0 none
      ∷ at (10 * dot_v) s p.0 p.1 1 none
      ∷ (walk_from dot_v s p pts).0 in
    let same : (walk_from dot_v s p pts).1 ≡ (t + 500) * 520 + plen (p ∷ pts) * 10000 =
      omega (arith, walk_from-plen dot_v s p pts) in
    (out, ap (λ u. ok (out, u)) same)
