-- ===== src/Wake/Tracks.antt =====
-- assets/diagrams/gen/gen_wake.py, build: the tracks that it draws from the logs, without the bars and the markup, and
-- the still. Times are tenths of a millisecond, those of `at` and of `pulse` whole milliseconds, and those of
-- the logs are 0.4 s or later.
mod Tests
use redisq.Base.{
  ℕ, ◌+◌, ◌-◌, ◌*◌, ◌/◌, min, ◌&&◌, none, List, [], ◌∷◌, ◌++◌, map, ltb, leb, ◌==◌, if◌then◌else◌,
  any, select, length, Result, ok, raise, ◌>>=◌, ◌>>◌, assert, or_raise, value_error,
  stop_iteration,
}
use redisq.Kfu.Walk.{at}
use redisq.Kfu.Spans.{Span, flash}
use redisq.Kfu.States.{states}
use redisq.Wake.Simulate.{Sim, cons, wake_route, pop_route, wake_v, pop_v, dist, is_nil}
use redisq.Wake.Simulate.Log.{enq, first, busy_spans, inside, check_log}
use redisq.Wake.Walk.{walk}
use redisq.Wake.Pulse.{pulse}
use redisq.Wake.Chips.{
  Track, Rule, Rules, faded, pulsed, item, wake_text, pop_dot, wake_line, wake_dot, glow, ring,
  poke, enq_glow, status, placed, each, draw_chip,
}

-- An item: from the producer into the list, popped from the head.
draw_item : Sim → ℕ × ℕ → Result Rules
unfolding first placed at
draw_item s (t, job) = do
  p ← or_raise stop_iteration (first (λ p. p.2 == job) s.pop_log)
  e ← or_raise stop_iteration (first (λ e. e.1 == job) s.enq_log)
  assert (e.2 == 1)
  ok (
      (
        item job,
        placed (
            at 10 (t - 4000) 100 326 0 none
            ∷ at 10 (t - 4000 + 1000) 112 326 1 none
            ∷ at 10 t 392 326 1 none
            ∷ at 10 p.0 392 326 1 none
            ∷ at 10 (p.0 + 1500) 400 326 0 none
            ∷ []),
      )
      ∷ [])

-- The wakes: the edge lights up, and a dot runs to the consumer's channel.
draw_wakes : ℕ → List (ℕ × ℕ × ℕ × ℕ) → Result Rules
unfolding placed flash walk
draw_wakes i [] = ok []
draw_wakes i ((t, c, arrive, job) ∷ wakes) = do
  (out, got) ← walk ((t - 400) * wake_v) (wake_route c) wake_v 0 0
  rest ← draw_wakes (i + 1) wakes
  ok ((wake_line i, faded (flash ((t, arrive) ∷ []) 55 600 3000)) ∷ (wake_dot i, placed out) ∷ rest)

-- The captions of the wakes, one at a time.
caption : ℕ → ℕ → ℕ → Result Rules
caption t job end = do
  assert (ltb (t + 5000) end)
  ok ((wake_text job, faded (flash ((t, end) ∷ []) 100 1200 2500)) ∷ [])

captions : List (ℕ × ℕ × ℕ × List ℕ × List ℕ) → Result Rules
unfolding caption
captions [] = ok []
captions (e ∷ []) = caption e.0 e.1 (e.0 + 12000)
captions (e ∷ next ∷ enqs) = do
  let end = min (e.0 + 12000) (next.0 - 3000)
  rules ← caption e.0 e.1 end
  assert (leb (end + 2500) next.0)
  rest ← captions (next ∷ enqs)
  ok (rules ++ rest)

-- A pop: a dot from the head into the consumer, which arrives when the simulation says.
draw_pop : ℕ × ℕ × ℕ × ℕ → Result Rules
unfolding placed walk
draw_pop (t, c, job, arrive) = do
  (out, got) ← walk ((t - 400) * pop_v) (pop_route c) pop_v 0 0
  assert (ltb (dist got (arrive * pop_v)) (100 * pop_v))
  ok ((pop_dot job, placed out) ∷ [])

-- A consumer: its glow, its status, the pulses of its nudges, and its pokes.
changes : ℕ → List Span → List (ℕ × ℕ)
changes k [] = []
changes k ((s, e) ∷ runs) = (s, k) ∷ (e, 0) ∷ changes (k + 1) runs

status_rules : ℕ → ℕ → List (List (ℕ × ℕ)) → Rules
status_rules c k [] = []
status_rules c k (rule ∷ rules) = (status c k, faded rule) ∷ status_rules c (k + 1) rules

draw_consumer : ℕ → Sim → ℕ → Result Rules
unfolding changes status_rules states pulse flash
draw_consumer d s c = do
  let runs = map (λ r. (r.2, r.3)) (select (λ r. r.0 == c) s.run_log)
  rules ← states ((0, 0) ∷ changes 1 runs) (length runs + 1) 800
  nudges ← pulse (d / 10) (if c == 1 then 300 else 800)
  let pokes = map (λ n. n.0) (select (λ n. n.1 == c && ltb 0 n.2) s.nudge_log)
  ok (
      ((glow c, faded (flash runs 14 1200 2500)) ∷ status_rules c 0 rules)
      ++ (ring c, pulsed nudges)
        ∷ (if is_nil pokes
            then []
            else (poke c, faded (flash (map (λ t. (t, t + 5000)) pokes) 100 1200 2500)) ∷ []))

-- The still: the second job's wake on its way, while consumer 1 is busy and left out.
unfoldable pub still : Sim → Result ℕ
unfolding first busy_spans inside
still s = do
  w ← or_raise stop_iteration (first (λ w. w.3 == 2) s.wakes)
  let at_half = (w.0 + w.2 + 100) / 200 * 100
  assert (ltb (w.0 + 1000) at_half && ltb (at_half + 1000) w.2)
  assert (inside at_half (busy_spans s 1))
  let stays = select (λ x. x.1 == 1 && ltb x.0 at_half) s.stay_log
  if is_nil (map (λ x. x.0) stays) then raise value_error else assert (any (λ x. ltb 0 x.0) stays)
  ok at_half

-- What `build` makes: the rules, the loop's end and the still.
pub record Drawing : Type 0 where
  pub rules : List (Track × Rule)
  pub end : ℕ
  pub still : ℕ

pub build : Sim → Result Drawing
unfolding each draw_item draw_wakes captions draw_pop draw_chip draw_consumer still
build s = do
  d ← check_log s
  items ← each (draw_item s) enq
  wakes ← draw_wakes 0 s.wakes
  texts ← captions s.enq_log
  pops ← each draw_pop s.pop_log
  chips ← each (draw_chip s) cons
  consumers ← each (draw_consumer d s) cons
  at_half ← still s
  ok (record {
    rules =
        items
        ++ (enq_glow, faded (flash (map (λ e. (e.0 - 4000, e.0)) enq) 25 1200 2500))
          ∷ (wakes ++ (texts ++ (pops ++ (chips ++ consumers))));
    end = d;
    still = at_half;
  })
