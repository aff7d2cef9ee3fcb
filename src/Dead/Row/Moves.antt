-- ===== src/Dead/Row/Moves.antt =====
-- assets/diagrams/gen/gen_dead.py, draw_row: the way of the two jobs, the dots of the pops and of the wake, and what
-- consumer 1 shows while it is busy.
use redisq.Base.{
  ℕ, ◌+◌, ◌-◌, ◌*◌, ◌/◌, min, none, some, List, [], ◌∷◌, ◌++◌, map, leb, ◌==◌, if◌then◌else◌,
  select, Result, ok, raise, ◌>>=◌, ◌>>◌, assert, or_raise, key_error, ℕ_discrete,
}
use redisq.Base.Dict
use redisq.Kfu.Walk.{Point}
use redisq.Kfu.Spans.{flash}
use redisq.Kfu.Bar.{bar}
use redisq.Dead.Store.Simulate.Facts.{Facts}
use redisq.Dead.Swap.{CrossFade}
use redisq.Dead.Vis.{vis, walk}
use redisq.Dead.Row.{
  Rule, Rules, Track, Moments, job, pop_dot, own1, own2a, own2b, acked, wk, c1_glow, c1_bar, place,
  scale, faded, kf,
}

-- P and SLOT.
pending_place : ℕ → Result (ℕ × ℕ)
pending_place i =
    if i == 0 then ok (424, 129) else (if i == 1 then ok (540, 129) else raise key_error)

list_place : ℕ → Result (ℕ × ℕ)
list_place i = if i == 0 then ok (656, 53) else (if i == 1 then ok (620, 53) else raise key_error)

-- A place of a job: the job, the time, the point, the opacity.
abbrev Move : Type 0
Move = ℕ × ℕ × (ℕ × ℕ) × ℕ

-- The start: pending under consumer 2, in pop order.
start_moves : ℕ → List Move
start_moves reap =
    (1, 0, (424, 129), 1)
    ∷ (1, reap, (424, 129), 1)
    ∷ (2, 0, (540, 129), 1)
    ∷ (2, reap, (540, 129), 1)
    ∷ []

-- The requeue: right along the row, then up into the list.
requeue_moves : ℕ → ℕ → List ℕ → Result (List Move)
unfolding list_place
requeue_moves reap i [] = ok []
requeue_moves reap i (v ∷ order) = do
  slot ← list_place i
  rest ← requeue_moves reap (i + 1) order
  ok ((v, reap + 300, (slot.0, 129), 1) ∷ (v, reap + 500, slot, 1) ∷ rest)

-- The way from the list's column into pending row `k`, at 600 px/s.
ride : ℕ → ℕ
ride x = ((656 - x) * 1000 * 2 + 600) / (600 * 2)

-- A pop takes the head, down, left into pending; then the acknowledgment.
pop_moves : List (ℕ × ℕ) → ℕ → ℕ → ℕ → Result (List Move)
unfolding pending_place ride
pop_moves acks k pd v = do
  p ← pending_place k
  ack ← or_raise key_error (Dict.get ℕ_discrete v (map (λ a. (a.1, a.0)) acks))
  ok (
      (v, pd, (656, 53), 1)
      ∷ (v, pd + 200, (656, p.1), 1)
      ∷ (v, pd + 200 + ride p.0, p, 1)
      ∷ (v, ack, p, 1)
      ∷ (v, ack + 300, p, 0)
      ∷ [])

-- The rest moves up to the head.
move_up : ℕ → ℕ → List Move
move_up pd v = (v, pd + 250, (620, 53), 1) ∷ (v, pd + 450, (656, 53), 1) ∷ []

end_moves : CrossFade → List Move
end_moves xf =
    (1, xf.middle, (424, 129), 0)
    ∷ (1, xf.end, (424, 129), 1)
    ∷ (2, xf.middle, (540, 129), 0)
    ∷ (2, xf.end, (540, 129), 1)
    ∷ []

looks : List Move → Rule
looks = map (λ m. (m.1, record { opacity = 100 * m.3; transform = place m.2.0 m.2.1 }))

dots : List Point → Rule
dots = map (λ p. (p.time, record { opacity = 100 * p.opacity; transform = place p.x p.y }))

-- Both pops, with `ack_d[v]` for the mark of consumer 1 at the entry.
owned : CrossFade → List (ℕ × ℕ) → ℕ → ℕ → ℕ → Result (Track × Rule)
unfolding pending_place ride faded
owned xf acks k pd v = do
  p ← pending_place k
  ack ← or_raise key_error (Dict.get ℕ_discrete v (map (λ a. (a.1, a.0)) acks))
  ok (own1 k, faded (vis xf ((some (pd + 200 + ride p.0), some ack) ∷ []) 100 150))

-- A dot at 300 px/s, and when it arrives.
dot : Track → ℕ → List (ℕ × ℕ) → Result ((Track × Rule) × ℕ)
unfolding dots kf
dot name t path = do
  (out, got) ← walk (t * 300) path 300
  ok (kf name (dots out), (2 * got + 300) / (2 * 300))

unfoldable pub jobs : CrossFade → Facts → Moments → ℕ → ℕ → ℕ → ℕ → Result Rules
unfolding start_moves requeue_moves pop_moves move_up end_moves looks kf
jobs xf f m p₁ v₁ p₂ v₂ = do
  requeued ← requeue_moves m.reap 0 f.order
  first ← pop_moves m.acks 0 p₁ v₁
  assert (leb (p₁ + 450) p₂)
  second ← pop_moves m.acks 1 p₂ v₂
  let all =
      start_moves m.reap ++ (requeued ++ (first ++ (move_up p₁ v₂ ++ (second ++ end_moves xf))))
  ok (
      kf (job 1) (looks (select (λ x. x.0 == 1) all))
      ∷ kf (job 2) (looks (select (λ x. x.0 == 2) all))
      ∷ [])

-- The dots of the pops and the wake, the acknowledgment's label, and consumer 1 while it is busy.
unfoldable pub work_rules : CrossFade → Moments → ℕ → ℕ → ℕ → ℕ → Result Rules
unfolding faded owned dot
work_rules xf m p₁ v₁ p₂ v₂ = do
  (first, got₁) ← dot (pop_dot 1) p₁ ((702, 68) ∷ (776, 68) ∷ [])
  own_first ← owned xf m.acks 0 p₁ v₁
  (second, got₂) ← dot (pop_dot 2) p₂ ((702, 68) ∷ (776, 68) ∷ [])
  own_second ← owned xf m.acks 1 p₂ v₂
  let shown : ℕ × ℕ = (m.last_ack + 300, min (m.last_ack + 2000) (xf.start - 300))
  assert (leb (shown.0 + 900) shown.1)
  (wake, got) ← dot wk m.wake ((712, 40) ∷ (776, 40) ∷ [])
  bars ← bar (record { start = min got₁ got₂; stop = m.last_ack; part = none } ∷ [])
  ok (
      (own2a, faded (vis xf ((none, some m.reap) ∷ []) 100 150))
      ∷ (own2b, faded (vis xf ((none, some m.reap) ∷ []) 100 150))
      ∷ first
      ∷ own_first
      ∷ second
      ∷ own_second
      ∷ (acked, faded (vis xf ((some shown.0, some shown.1) ∷ []) 100 150))
      ∷ wake
      ∷ (c1_glow, faded (flash ((min got₁ got₂, m.last_ack) ∷ []) 14 120 250))
      ∷ (c1_bar, map (λ p. (p.0, record { opacity = 100 * p.1; transform = scale p.2 })) bars)
      ∷ [])
