-- ===== src/Dead/Vis.antt =====
-- assets/diagrams/gen/gen_dead.py, vis and walk: what is shown over spans of time, and a dot on an edge. Times are whole
-- milliseconds; a walk's are exact, in parts of 1/v ms.
pub mod Shows
mod Tests
use redisq.Base.{
  ℕ, suc, ◌+◌, ◌*◌, ◌≤◌, Bool, true, false, Option, none, some, List, [], ◌∷◌, ◌++◌, leb, any,
  if◌then◌else◌, Result, ok, raise, index_error,
}
use redisq.Base.Sort.{sorted}
use redisq.Kfu.Keyframes.{by_time}
use redisq.Kfu.Walk.{Point, at}
use redisq.Wake.Simulate.{dist}
use redisq.Dead.Swap.{CrossFade}

-- From, or since the loop's start; to, or until the cross-fade.
abbrev pub Span : Type 0
Span = Option ℕ × Option ℕ

-- The key -1 of an absent start comes before all others.
span_key : Span → ℕ
span_key (none, e) = 0
span_key (some s, e) = suc s

unfoldable pub by_start : Span → Span → Bool
unfolding span_key
by_start p q = leb (span_key p) (span_key q)

is_open : Option ℕ → Bool
is_open none = true
is_open (some t) = false

rise_at : ℕ → ℕ → Option ℕ → List (ℕ × ℕ)
rise_at peak fade none = []
rise_at peak fade (some s) = (s, 0) ∷ (s + fade, peak) ∷ []

fall_at : ℕ → ℕ → Option ℕ → List (ℕ × ℕ)
fall_at peak fade none = []
fall_at peak fade (some e) = (e, peak) ∷ (e + fade, 0) ∷ []

span_points : ℕ → ℕ → List Span → List (ℕ × ℕ)
unfolding rise_at fall_at
span_points peak fade [] = []
span_points peak fade ((s, e) ∷ spans) =
    rise_at peak fade s ++ (fall_at peak fade e ++ span_points peak fade spans)

-- The end state leaves over the first half of the cross-fade, the start state comes back over the second.
cross_points : CrossFade → ℕ → Bool → Bool → List (ℕ × ℕ)
cross_points xf peak true true = []
cross_points xf peak true false = (xf.middle, 0) ∷ (xf.end, peak) ∷ []
cross_points xf peak false true = (xf.start, peak) ∷ (xf.middle, 0) ∷ []
cross_points xf peak false false = []

unfoldable pub vis : CrossFade → List Span → ℕ → ℕ → List (ℕ × ℕ)
unfolding by_start is_open span_points cross_points
vis xf spans peak fade =
    let on0 = any (λ p. is_open p.0) spans in
    let on_end = any (λ p. is_open p.1) spans in
    sorted by_time (
      (0, if on0 then peak else 0) ∷ span_points peak fade (sorted by_start spans)
      ++ cross_points xf peak on0 on_end)

-- `walk`, at 300 px/s in `draw_row`; the time of arrival is exact.
walk_from : ℕ → ℕ → ℕ × ℕ → List (ℕ × ℕ) → List Point × ℕ
walk_from v t p [] = (at v (t + 50 * v) p.0 p.1 0 none ∷ [], t)
walk_from v t p (q ∷ pts) =
    let t' = t + 1000 * (dist q.0 p.0 + dist q.1 p.1) in
    let rest = walk_from v t' q pts in (at v t' q.0 q.1 1 none ∷ rest.0, rest.1)

unfoldable pub walk : ℕ → List (ℕ × ℕ) → ℕ → Result (List Point × ℕ)
unfolding walk_from
walk t [] v = raise index_error
walk t (p ∷ pts) v =
    let rest = walk_from v (t + 50 * v) p pts in
    ok (at v t p.0 p.1 0 none ∷ at v (t + 50 * v) p.0 p.1 1 none ∷ rest.0, rest.1)

-- Spans in order from `t` on: each longer than the fade, the first may be open at its start and the last at its
-- end, and all are over, faded, when the cross-fade starts.
abbrev pub AreShown : CrossFade → ℕ → ℕ → List Span → Type 0
AreShown xf fade t [] = t ≤ xf.start
AreShown xf fade t ((some s, some e) ∷ spans) =
    (t ≤ s) × (s + fade ≤ e) × AreShown xf fade (e + fade) spans
AreShown xf fade t ((some s, none) ∷ []) = (t ≤ s) × (s + fade ≤ xf.start)
AreShown xf fade t ((some s, none) ∷ p ∷ spans) = ⊥
AreShown xf fade t ((none, e) ∷ spans) = ⊥
