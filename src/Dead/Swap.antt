-- ===== src/Dead/Swap.antt =====
-- assets/diagrams/gen/gen_dead.py, swap: one text for each state, with a cross-fade back to the start. Times are
-- whole milliseconds. XF0, XFM and XF1, the start, the middle and the end of the cross-fade, are parameters.
pub mod Apart
mod Tests
use redisq.Base.{
  ℕ, zero, suc, ◌+◌, Bool, Option, none, some, List, [], ◌∷◌, leb, ◌==◌, if◌then◌else◌, Result, ok,
  raise, ◌>>=◌, ◌>>◌, assert, index_error,
}
use redisq.Base.Sort.{sorted}
use redisq.Kfu.Keyframes.{by_time}

-- XF0, XFM and XF1.
pub record CrossFade : Type 0 where
  pub start : ℕ
  pub middle : ℕ
  pub end : ℕ

-- `(t, state)` or `(t, state, fade)`.
pub record Change : Type 0 where
  pub time : ℕ
  pub state : ℕ
  pub fade : Option ℕ

abbrev pub by_change : Change → Change → Bool
by_change a b = leb a.time b.time

-- `int(i == k)`, and the length of a fade.
abbrev pub on : ℕ → ℕ → ℕ
on k i = if i == k then 1 else 0

abbrev pub fade_of : ℕ → Change → ℕ
fade_of fade c = elim c.fade [ none ↦ fade | some f ↦ f ]

-- What one change adds to the rule of state `k`, which shows `cur`: nothing, the half of the cross-fade that
-- is its own, or a fade.
change_points : CrossFade → ℕ → ℕ → ℕ → Change → List (ℕ × ℕ) → List (ℕ × ℕ)
change_points xf fade k cur c rest =
    if on k c.state == cur
    then rest
    else (if c.time == xf.start
        then (if cur == 1
            then (xf.start, 1) ∷ (xf.middle, 0) ∷ rest
            else (xf.middle, 0) ∷ (xf.end, 1) ∷ rest)
        else (c.time, cur) ∷ (c.time + fade_of fade c, on k c.state) ∷ rest)

later_points : CrossFade → ℕ → ℕ → ℕ → List Change → List (ℕ × ℕ)
unfolding change_points
later_points xf fade k cur [] = []
later_points xf fade k cur (c ∷ cs) =
    change_points xf fade k cur c (later_points xf fade k (on k c.state) cs)

-- The rule of state `k`, whose first keyframe stands at 0.
pub swap_rule : CrossFade → ℕ → ℕ → List Change → List (ℕ × ℕ)
unfolding later_points
swap_rule xf fade k [] = []
swap_rule xf fade k (c ∷ cs) =
    sorted by_time ((0, on k c.state) ∷ later_points xf fade k (on k c.state) cs)

unfoldable pub swap_rules : CrossFade → ℕ → List Change → ℕ → ℕ → List (List (ℕ × ℕ))
unfolding swap_rule
swap_rules xf fade changes k zero = []
swap_rules xf fade changes k (suc n) =
    swap_rule xf fade k changes ∷ swap_rules xf fade changes (suc k) n

unfoldable pub starts_at_0 : List Change → Result Bool
starts_at_0 [] = raise index_error
starts_at_0 (c ∷ cs) = ok (c.time == 0)

-- The rule of state `k` is the k-th of the result.
unfoldable pub swap : CrossFade → List Change → ℕ → ℕ → Result (List (List (ℕ × ℕ)))
unfolding swap_rules starts_at_0
swap xf changes n fade = do
  at_0 ← starts_at_0 (sorted by_change changes)
  assert at_0
  ok (swap_rules xf fade (sorted by_change changes) 0 n)
