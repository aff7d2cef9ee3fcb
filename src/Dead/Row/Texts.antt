-- ===== src/Dead/Row/Texts.antt =====
-- assets/diagrams/gen/gen_dead.py, draw_row: the captions, the narration, and the heartbeat with its bar. Times are
-- whole milliseconds.
use redisq.Base.{
  ℕ, ◌+◌, ◌-◌, min, Bool, true, false, List, [], ◌∷◌, ◌++◌, map, ltb, leb, if◌then◌else◌, elem,
  select, Result, ok, ◌>>=◌, or_raise, type_error,
}
use redisq.Base.Sort.{sorted}
use redisq.Dead.Store.Simulate.Facts.{Facts}
use redisq.Dead.TimeMap.{Knot}
use redisq.Dead.Swap.{CrossFade}
use redisq.Dead.Row.{
  Rule, Track, Rules, c2_cap, stx, hb, hbc, mkc, gr, nar, sx, kf, swapped, change, back, drawn,
  Moments,
}

-- The captions of consumer 2 and of its subscription, which in row B are those of the first check.
unfoldable pub stopped : Bool → CrossFade → Moments → Result Rules
unfolding swapped
stopped row_a xf m = do
  cap ← swapped xf c2_cap (change 0 0 ∷ change m.kill 1 ∷ back xf ∷ []) 2 150
  state ←
      swapped xf stx (change 0 0 ∷ change (if row_a then m.kill else m.check) 1 ∷ back xf ∷ []) 2
        150
  ok (cap ++ state)

-- The knots of the heartbeat's bar: `sorted({...})`.
distinct : List ℕ → List ℕ
distinct [] = []
distinct (x ∷ xs) = let rest = distinct xs in if elem x xs then rest else x ∷ rest

bar_knots : List Knot → Facts → List ℕ
unfolding distinct
bar_knots knots f = sorted leb (
    distinct
      (select (λ t. leb t f.reap) (map (λ p. p.0) knots) ++ f.reap ∷ min f.hb_out f.reap ∷ []))

bar_points : List Knot → Facts → List ℕ → Result Rule
unfolding drawn
bar_points knots f [] = ok []
bar_points knots f (s ∷ ss) = do
  rest ← bar_points knots f ss
  d ← drawn knots s
  ok ((d, sx 1 (f.hb_out - s)) ∷ rest)

-- The heartbeat runs out unless a reap drops it first; `f.hb_out - s` is what is left of it at `s`.
unfoldable pub heartbeat : CrossFade → List Knot → Facts → Moments → Result (Track × Rule)
unfolding bar_knots bar_points kf
heartbeat xf knots f m = do
  pts ← bar_points knots f (select (λ s. ltb 0 s) (bar_knots knots f))
  ok (
      kf hb (
        ((0, sx 1 f.hb_out) ∷ (m.c2_sweep, sx 1 f.hb_out) ∷ pts)
        ++ (m.reap + 300, sx 0 (f.hb_out - f.reap))
          ∷ (xf.middle, sx 0 30000)
          ∷ (xf.end, sx 1 30000)
          ∷ []))

-- The captions of the heartbeat, the presence mark and the bar of the grace period.
unfoldable pub captions : Bool → CrossFade → List Knot → Facts → Moments → Result Rules
unfolding swapped kf drawn
captions true xf knots f m = do
  heart ← swapped xf hbc (change 0 0 ∷ change m.kill 1 ∷ change m.reap 2 ∷ back xf ∷ []) 3 150
  mark ← or_raise type_error f.mark
  at_mark ← drawn knots mark
  presence ←
      swapped xf mkc
        (change 0 0 ∷ change at_mark 1 ∷ change m.reap 2 ∷ change (m.reap + 1600) 3 ∷ back xf ∷ [])
        4 150
  let grace = kf gr (
      (0, sx 0 30000)
      ∷ (at_mark - 10, sx 0 30000)
      ∷ (at_mark, sx 1 30000)
      ∷ (m.reap, sx 1 0)
      ∷ (m.reap + 300, sx 0 0)
      ∷ [])
  ok (heart ++ (grace ∷ presence))
captions false xf knots f m = do
  out ← drawn knots f.hb_out
  heart ←
      swapped xf hbc
        (change 0 0 ∷ change m.kill 1 ∷ change out 2 ∷ change (m.reap + 600) 3 ∷ back xf ∷ []) 4 150
  presence ← swapped xf mkc (change 0 0 ∷ change (m.reap + 600) 1 ∷ back xf ∷ []) 2 150
  ok (heart ++ presence)

-- What each sweep that matters did; row B goes silent again while it waits.
unfoldable pub narration : Bool → CrossFade → Moments → Result Rules
unfolding swapped
narration row_a xf m =
    let silent = if row_a then [] else change (m.check + 2400) 0 ∷ [] in
    swapped xf nar
      (change 0 0
        ∷ change m.c2_sweep 1
        ∷ change m.skip 2
        ∷ change m.check 3
        ∷ (silent
            ++ change m.reap 4 ∷ change m.wake 5 ∷ change (m.last_ack + 200) 6 ∷ back xf ∷ []))
      7 150
