-- ===== src/Dead/Build.antt =====
-- assets/diagrams/gen/gen_dead.py, draw_row and build: both rows' keyframes, the clock, the assertions on the facts, and
-- the one on the loop's seam. The template is filled elsewhere.
pub mod Seam
pub mod Tracks
mod Tests
use redisq.Base.{
  ℕ, zero, suc, ◌+◌, ◌-◌, ◌*◌, ◌/◌, Bool, true, false, ◌&&◌, ◌||◌, not, some, List, [], ◌∷◌, ◌++◌,
  ltb, leb, ◌==◌, all, Result, ok, raise, ◌>>=◌, ◌>>◌, assert, value_error, index_error,
}
use redisq.Kfu.Keyframes.{padded, last_of}
use redisq.Dead.Store.Simulate.Facts.{Facts}
use redisq.Dead.TimeMap.{Knot, Drawn, call, build_map}
use redisq.Dead.Swap.{CrossFade, Change}
use redisq.Dead.Vis.{vis}
use redisq.Dead.Row.{
  Look, Transform, plain, scale_x, scale, place, Rule, Rules, clk, ff, replay, moments, drawn,
  change, back, swapped, faded, consumer, subscription, pulses,
}
use redisq.Dead.Row.Texts.{stopped, heartbeat, captions, narration}
use redisq.Dead.Row.Moves.{jobs, work_rules}

-- `(p1, v1), (p2, v2) = ...`.
two_pops : List (ℕ × ℕ) → Result ((ℕ × ℕ) × (ℕ × ℕ))
two_pops (p ∷ q ∷ []) = ok (p, q)
two_pops [] = raise value_error
two_pops (p ∷ []) = raise value_error
two_pops (p ∷ q ∷ r ∷ l) = raise value_error

pub draw_row : Bool → CrossFade → List Knot → Facts → Result Rules
unfolding two_pops moments consumer subscription stopped heartbeat captions narration pulses jobs
    work_rules
draw_row row_a xf knots f = do
  m ← moments xf knots f
  (first, second) ← two_pops m.pops
  stops ← stopped row_a xf m
  hb ← heartbeat xf knots f m
  captions ← captions row_a xf knots f m
  narration ← narration row_a xf m
  pulses ← pulses m
  jobs ← jobs xf f m first.0 first.1 second.0 second.1
  work ← work_rules xf m first.0 first.1 second.0 second.1
  ok (
      consumer xf m
      ++ (subscription row_a xf m
          ++ (stops ++ hb ∷ captions ++ (narration ++ (pulses ∷ jobs ++ work)))))

-- Each second of the clock: `(M(i), i, .08)`.
seconds : List Knot → ℕ → ℕ → Result (List Change)
seconds knots i zero = ok []
seconds knots i (suc n) = do
  d ← drawn knots (1000 * i)
  rest ← seconds knots (i + 1) n
  ok (record { time = d; state = i; fade = some 80 } ∷ rest)

append_change : List Change → Change → List Change
append_change l c = l ++ c ∷ []

pub clock : CrossFade → List Knot → Result Rules
unfolding seconds append_change drawn swapped
clock xf knots = do
  ticks ← seconds knots 1 34
  swapped xf clk (change 0 0 ∷ append_change ticks (back xf)) 35 150

-- The fast-forward skips nothing: every acknowledgment is half a second before it, the end of the heartbeat a second
-- after it, and its sweeps find nothing to do.
is_nil {ℓ} : {A : Type ℓ} → List A → Bool
is_nil [] = true
is_nil (x ∷ xs) = false

idle_sweeps : Facts → Bool
unfolding is_nil
idle_sweeps f = all (λ e. not (ltb 9000 e.0 && ltb e.0 29000) || e.1 && is_nil e.2) f.sweeps

skips_nothing : Facts → Facts → Bool
skips_nothing fa fb = all (λ a. leb (a.0 + 500) 9000) fa.acks && leb (29000 + 1000) fb.hb_out

-- `round(M(11.5), 2)`, in milliseconds; a drawn time is in tenths of one.
hundredths : Drawn → ℕ
hundredths d = (2 * d.num + 100 * d.den) / (200 * d.den) * 10

-- `kfu.D`: whole seconds, half a second or more after the cross-fade.
loop_end : ℕ → ℕ
loop_end xf1 = (xf1 + 500 + 999) / 1000 * 1000

same_transform : Transform → Transform → Bool
same_transform plain plain = true
same_transform plain (scale_x s) = false
same_transform plain (scale s) = false
same_transform plain (place x y) = false
same_transform (scale_x s) (scale_x t) = s == t
same_transform (scale_x s) plain = false
same_transform (scale_x s) (scale t) = false
same_transform (scale_x s) (place x y) = false
same_transform (scale s) (scale t) = s == t
same_transform (scale s) plain = false
same_transform (scale s) (scale_x t) = false
same_transform (scale s) (place x y) = false
same_transform (place x y) (place v w) = x == v && y == w
same_transform (place x y) plain = false
same_transform (place x y) (scale_x s) = false
same_transform (place x y) (scale s) = false

-- The two ends are the same, or both hidden.
unfoldable pub meets : Look → Look → Bool
unfolding same_transform
meets a b =
    a.opacity == b.opacity && same_transform a.transform b.transform
    || a.opacity == 0 && b.opacity == 0

-- The first and the last keyframe of a rule; both are asked for when it is there.
seam_of : Rule → Result (Look × Look)
unfolding last_of
seam_of [] = raise index_error
seam_of (p ∷ pts) = ok (p.1, (last_of p pts).1)

-- The seam of one track: every keyframe is inside `D`, and the padded rule ends as it starts.
pub check_seam : ℕ → Rule → Result (Unit {0})
unfolding seam_of meets
check_seam d rule = do pts ← padded d rule; ends ← seam_of pts; assert (meets ends.0 ends.1)

pub check_seams : ℕ → Rules → Result (Unit {0})
unfolding check_seam
check_seams d [] = ok tt
check_seams d ((name, rule) ∷ rules) = check_seam d rule >> check_seams d rules

-- What `build` makes: the rules, the loop's end and the still.
pub record Drawing : Type 0 where
  pub rules : Rules
  pub end : ℕ
  pub still : ℕ

unfoldable pub build : Facts → Facts → Result Drawing
unfolding hundredths draw_row clock idle_sweeps skips_nothing loop_end check_seams
build fa fb = do
  assert (ltb fa.reap fb.reap)
  assert (skips_nothing fa fb)
  assert (idle_sweeps fa && idle_sweeps fb)
  knots ← build_map fa fb
  xf0 ← drawn knots 34600
  let xf : CrossFade = record { start = xf0; middle = xf0 + 350; end = xf0 + 700 }
  let d = loop_end xf.end
  row_a ← draw_row true xf knots fa
  row_b ← draw_row false xf knots fb
  clocks ← clock xf knots
  from ← drawn knots 9000
  to ← drawn knots 29000
  let notes : Rules =
      (ff, faded (vis xf ((some from, some to) ∷ []) 100 150))
      ∷ (replay, faded (vis xf ((some (xf.start - 300), some (xf.end + 300)) ∷ []) 100 150))
      ∷ []
  at ← call knots 11500
  let rules = row_a ++ (row_b ++ (clocks ++ notes))
  check_seams d rules
  ok (record { rules = rules; end = d; still = hundredths at })
