-- ===== src/Kfu/Walk.antt =====
-- assets/diagrams/gen/kfu.py, at and class Path: a walk at constant speed. Positions are whole pixels, and
-- `fill` is a colour by number. `t` is exact: milliseconds times the speed, in parts of a pixel.
use redisq.Base.{ℕ, ◌+◌, ◌-◌, ◌*◌, ◌/◌, ◌≡◌, List, [], ◌∷◌, ◌++◌, Option, none, some, arith}

-- A keyframe; an absent fill sets no fill.
pub record Point : Type 0 where
  pub time : ℕ
  pub x : ℕ
  pub y : ℕ
  pub opacity : ℕ
  pub fill : Option ℕ

-- `round(t, 3)`, for a time in parts of 1/v ms.
rounded : ℕ → ℕ → ℕ
rounded v t = (2 * t + v) / (2 * v)

-- `at`, for a time in parts of 1/v ms.
unfoldable pub at : ℕ → ℕ → ℕ → ℕ → ℕ → Option ℕ → Point
unfolding rounded
at v t x y op fill = record { time = rounded v t; x = x; y = y; opacity = op; fill = fill }

pub record Walk : Type 0 where
  pub t : ℕ
  pub x : ℕ
  pub y : ℕ
  pub v : ℕ
  pub op : ℕ
  pub pts : List Point

pub init : ℕ → ℕ → ℕ → ℕ → Option ℕ → Walk
unfolding at
init t x y speed fill = record {
  t = t * speed;
  x = x;
  y = y;
  v = speed;
  op = 0;
  pts = at speed (t * speed) x y 0 fill ∷ [];
}

dist : ℕ → ℕ → ℕ
dist a b = a - b + (b - a)

shown : ℕ → Option ℕ → ℕ
shown op none = op
shown op (some o) = o

pub to : Walk → ℕ → ℕ → Option ℕ → Option ℕ → Walk
unfolding at dist shown
to p x y op fill =
    let t = p.t + 1000 * (dist x p.x + dist y p.y) in
    let o = shown p.op op in
    record p { t = t; x = x; y = y; op = o; pts = p.pts ++ at p.v t x y o fill ∷ [] }

pub wait : Walk → ℕ → Option ℕ → Option ℕ → Walk
unfolding at shown
wait p dt op fill =
    let t = p.t + dt * p.v in
    let o = shown p.op op in record p { t = t; op = o; pts = p.pts ++ at p.v t p.x p.y o fill ∷ [] }

-- A walk through points, each with what `to` is given.
pub follow : Walk → List (ℕ × ℕ) → Walk
follow p [] = p
follow p (q ∷ qs) = follow (to p q.0 q.1 none none) qs

pub route : ℕ → ℕ → List (ℕ × ℕ) → ℕ
unfolding dist
route x y [] = 0
route x y (q ∷ qs) = dist q.0 x + dist q.1 y + route q.0 q.1 qs

follow-t : (p : Walk) (qs : List (ℕ × ℕ)) → (follow p qs).t ≡ p.t + 1000 * route p.x p.y qs
unfolding follow route to
follow-t p [] = omega arith
follow-t p (q ∷ qs) = omega (arith, follow-t (to p q.0 q.1 none none) qs)

-- Following points takes the length of the route, at the path's speed: `t` grows by a second's parts for
-- each pixel, whatever was shown before, and a wait first adds its own time.
pub follow_time :
    (p : Walk) (dt : ℕ) (op fill : Option ℕ) (qs : List (ℕ × ℕ))
    → (follow (wait p dt op fill) qs).t ≡ p.t + dt * p.v + 1000 * route p.x p.y qs
unfolding wait
follow_time p dt op fill qs = follow-t (wait p dt op fill) qs
