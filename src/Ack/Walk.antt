-- ===== src/Ack/Walk.antt =====
-- assets/diagrams/gen/gen_ack.py, path_len and walk: a dot on an edge. Times are exact, in parts of 1/420 ms,
-- so that a pixel at DOT_V takes 1000 of them; keyframes stand at the rounded milliseconds.
use redisq.Base.{
  ap, ℕ, ◌+◌, ◌-◌, ◌*◌, ◌≡◌, List, [], ◌∷◌, Result, ok, raise, index_error, none, arith,
}
use redisq.Kfu.Walk.{Point, at}

-- DOT_V, and .05 s.
abbrev pub dot_v : ℕ
dot_v = 420

abbrev pub blink : ℕ
blink = 21000

unfoldable pub dist : ℕ → ℕ → ℕ
dist a b = a - b + (b - a)

unfoldable pub path_len : List (ℕ × ℕ) → ℕ
unfolding dist
path_len [] = 0
path_len (p ∷ []) = 0
path_len (p ∷ q ∷ pts) = dist q.0 p.0 + dist q.1 p.1 + path_len (q ∷ pts)

-- The loop over the further points, and the keyframe that hides the dot.
walk_from : ℕ → ℕ × ℕ → List (ℕ × ℕ) → List Point × ℕ
unfolding dist
walk_from t p [] = (at dot_v (t + blink) p.0 p.1 0 none ∷ [], t)
walk_from t p (q ∷ pts) =
    let t' = t + 1000 * (dist q.0 p.0 + dist q.1 p.1) in
    let rest = walk_from t' q pts in (at dot_v t' q.0 q.1 1 none ∷ rest.0, rest.1)

-- The keyframes that `walk` hands to `kf`, and the time of arrival.
unfoldable pub walk : ℕ → List (ℕ × ℕ) → Result (List Point × ℕ)
unfolding walk_from
walk t [] = raise index_error
walk t (p ∷ pts) =
    let rest = walk_from (t + blink) p pts in
    ok (at dot_v t p.0 p.1 0 none ∷ at dot_v (t + blink) p.0 p.1 1 none ∷ rest.0, rest.1)

walk_from-path_len :
    (t : ℕ) (p : ℕ × ℕ) (pts : List (ℕ × ℕ)) → (walk_from t p pts).1 ≡ t + 1000 * path_len (p ∷ pts)
unfolding walk_from path_len
walk_from-path_len t p [] = omega arith
walk_from-path_len t p (q ∷ pts) =
    omega (arith, walk_from-path_len (t + 1000 * (dist q.0 p.0 + dist q.1 p.1)) q pts)

-- A dot that walks at all arrives .05 s after its start, plus the time that the length of the path takes at
-- DOT_V pixels a second.
pub walk_arrives :
    (t : ℕ) (pts : List (ℕ × ℕ)) (out : List Point) (arrive : ℕ)
    → walk t pts ≡ ok (out, arrive)
    → arrive ≡ t + blink + 1000 * path_len pts
unfolding walk
walk_arrives t [] out arrive g = absurd (cc)
walk_arrives t (p ∷ pts) out arrive g =
    let same : (walk_from (t + blink) p pts).1 ≡ arrive = ground arith in
    omega (arith, same, walk_from-path_len (t + blink) p pts)

pub walk_goes :
    (t : ℕ) (p : ℕ × ℕ) (pts : List (ℕ × ℕ))
    → (out : List Point) × (walk t (p ∷ pts) ≡ ok (out, t + blink + 1000 * path_len (p ∷ pts)))
unfolding walk
walk_goes t p pts =
    let out : List Point =
      at dot_v t p.0 p.1 0 none
      ∷ at dot_v (t + blink) p.0 p.1 1 none
      ∷ (walk_from (t + blink) p pts).0 in
    (out, ap (λ u. ok (out, u)) (walk_from-path_len (t + blink) p pts))
