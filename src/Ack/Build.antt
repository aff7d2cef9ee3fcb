-- ===== src/Ack/Build.antt =====
-- assets/diagrams/gen/gen_ack.py, build: the pops, acknowledgements and the sweep. Jobs "A" and "B" are 1 and
-- 2. What is drawn of it (flash, bar, ring and the template) is left out. Times as in Ack/Walk.
use redisq.Base.{
  ℕ, zero, suc, ◌+◌, ◌-◌, Bool, Option, none, some, List, [], ◌∷◌, ◌++◌, ltb, leb, ◌==◌,
  if◌then◌else◌, length, Result, ok, raise, ◌>>=◌, ◌>>◌, assert, or_raise, key_error, index_error,
  value_error, stop_iteration, ℕ_discrete,
}
use redisq.Base.Dict
use redisq.Base.Sort.{sorted}
use redisq.Kfu.Walk.{Point, at}
use redisq.Ack.Walk.{dot_v, walk}

-- VT, WORK and SWEEP_PHASE, and a second.
abbrev pub vt : ℕ
vt = 1680000

abbrev pub work : ℕ
work = 840000

abbrev pub sweep_phase : ℕ
sweep_phase = 126000

abbrev pub second : ℕ
second = 420000

-- ENQ: .4 s and .9 s.
abbrev pub enq : List (ℕ × ℕ)
enq = (1, 168000) ∷ (2, 378000) ∷ []

-- SLOT, ROW, POP_EDGE and ACK_EDGE.
unfoldable pub slot_at : ℕ → Result ℕ
slot_at i =
    if i == 0 then ok 420 else if i == 1 then ok 384 else if i == 2 then ok 348 else raise key_error

unfoldable pub row_at : ℕ → Result (ℕ × ℕ)
row_at r = if r == 0 then ok (212, 273) else if r == 1 then ok (212, 321) else raise key_error

abbrev pub pop_edge : List (ℕ × ℕ)
pop_edge = (470, 175) ∷ (740, 175) ∷ []

abbrev pub ack_edge : List (ℕ × ℕ)
ack_edge = (780, 210) ∷ (780, 240) ∷ (450, 240) ∷ (450, 260) ∷ []

pub data Place : Type 0 where
  in_list in_pending is_done : Place

pub data Dot : Type 0 where
  dot ackd : ℕ → Dot

-- The local variables of `build`, and the rules that `walk` adds. A bar's span has the drawn length, where the
-- source has its share of VT, when the job is acknowledged.
pub record State : Type 0 where
  pub item : ℕ → List Point
  pub places : List (ℕ × ℕ × Place)
  pub lst : List ℕ
  pub pops : List (ℕ × ℕ)
  pub acks : List (ℕ × ℕ)
  pub busy : List (ℕ × ℕ)
  pub deadlines : List (ℕ × ℕ)
  pub bars : List (ℕ × ℕ × ℕ × Option ℕ)
  pub rows_free : List ℕ
  pub dots : List Dot
  pub ack_dots : List Dot
  pub rows : List ℕ
  pub rules : List (Dot × List Point)

abbrev pub init : State
init = record {
  item = λ k. [];
  places = [];
  lst = [];
  pops = [];
  acks = [];
  busy = [];
  deadlines = [];
  bars = [];
  rows_free = 0 ∷ 1 ∷ [];
  dots = Dot.dot 0 ∷ Dot.dot 1 ∷ Dot.dot 2 ∷ [];
  ack_dots = Dot.ackd 0 ∷ Dot.ackd 2 ∷ [];
  rows = 0 ∷ 1 ∷ 0 ∷ [];
  rules = [];
}

-- `item[k] += pts` and `place(k, t, p)`.
unfoldable pub draw : ℕ → List Point → State → State
draw k pts s = record s { item = λ j. if j == k then s.item j ++ pts else s.item j }

unfoldable pub place : ℕ → ℕ → Place → State → State
place k t p s = record s { places = s.places ++ (k, t, p) ∷ [] }

-- `at(t, x, y, op)`.
abbrev pub point : ℕ → ℕ → ℕ → ℕ → Point
point t x y op = at dot_v t x y op none

-- One round of the enqueue loop.
unfoldable pub enqueue : ℕ → ℕ → State → Result State
unfolding slot_at draw place
enqueue k t s = do
  let lst = s.lst ++ k ∷ []
  x ← slot_at (length s.lst)
  ok (
      place k (t + 294000) in_list (
        draw k (point t 90 160 0 ∷ point (t + 42000) 102 160 1 ∷ point (t + 294000) x 160 1 ∷ [])
          (record s { lst = lst })))

unfoldable pub enqueue_all : List (ℕ × ℕ) → State → Result State
unfolding enqueue
enqueue_all [] s = ok s
enqueue_all (e ∷ es) s = enqueue e.0 e.1 s >>= enqueue_all es

-- `list.pop(0)` and `next`, with the exception for an empty one; and `list.remove`.
unfoldable pub first_of {ℓ} : {A : Type ℓ} → List A → Option (A × List A)
first_of [] = none
first_of (x ∷ xs) = some (x, xs)

unfoldable pub remove : ℕ → List ℕ → Result (List ℕ)
remove r [] = raise value_error
remove r (x ∷ xs) = let rest = remove r xs >>= λ ys. ok (x ∷ ys) in if x == r then ok xs else rest

-- The rest move up one slot.
unfoldable pub move_up : ℕ → ℕ → List ℕ → State → Result State
unfolding slot_at draw
move_up t i [] s = ok s
move_up t i (other ∷ l) s = do
  x ← slot_at (suc i)
  x' ← slot_at i
  move_up t (suc i) l (draw other (point (t + 147000) x 160 1 ∷ point (t + 336000) x' 160 1 ∷ []) s)

-- `walk(next(dots), t, pts)`: the rule, sorted as `kf` does, and the time of arrival.
unfoldable pub send : Dot → ℕ → List (ℕ × ℕ) → State → Result (State × ℕ)
send name t pts s = do
  w ← walk t pts
  ok (record s { rules = s.rules ++ (name, sorted (λ p q. leb p.time q.time) w.0) ∷ [] }, w.1)

-- The first lines of `pop`, to the deadline: the job and its row.
unfoldable pub reserve : ℕ → State → Result (State × ℕ × ℕ)
unfolding row_at move_up draw place first_of remove slot_at
reserve t s = do
  h ← or_raise index_error (first_of s.lst)
  r ← or_raise stop_iteration (first_of s.rows)
  free ← remove r.0 s.rows_free
  y ← row_at r.0
  x ← slot_at 0
  let s₁ =
      draw h.0 (point t x 160 1 ∷ point (t + 147000) x y.1 1 ∷ point (t + 294000) y.0 y.1 1 ∷ [])
        (record s { lst = h.1; rows = r.1; rows_free = free })
  s₂ ← move_up t 0 h.1 s₁
  let s₃ = place h.0 t in_pending s₂
  ok (record s₃ { deadlines = Dict.insert ℕ_discrete h.0 (t + vt) s₃.deadlines }, h.0, r.0)

-- `Acknowledge`: the job is done at `a`, when its dot arrives, and its row is free again.
unfoldable pub acknowledge : ℕ → ℕ → ℕ → ℕ → State → Result (State × ℕ × Option ℕ × ℕ)
unfolding draw place first_of
acknowledge t k row done s = do
  d ← or_raise stop_iteration (first_of s.ack_dots)
  w ← send d.0 done ack_edge (record s { ack_dots = d.1 })
  y ← row_at row
  let s₁ =
      place k w.1 is_done (draw k (point w.1 y.0 y.1 1 ∷ point (w.1 + 126000) y.0 y.1 0 ∷ []) w.0)
  assert (ltb (w.1 - t) vt)
  ok (
    record s₁ {
      acks = s₁.acks ++ (w.1, k) ∷ [];
      bars = s₁.bars ++ (row, t, w.1, some (w.1 - t)) ∷ [];
      rows_free = s₁.rows_free ++ row ∷ [];
    },
    done,
    some w.1,
    row,
  )

-- `pop`: the state, when the run is done, when it is acknowledged if it is, and the row.
unfoldable pub pop : ℕ → Bool → State → Result (State × ℕ × Option ℕ × ℕ)
pop t acked s = do
  r ← reserve t s
  d ← or_raise stop_iteration (first_of r.0.dots)
  w ← send d.0 t pop_edge (record (r.0) { dots = d.1 })
  let done = w.1 + work
  let s₁ : State = record (w.0) {
    busy = w.0.busy ++ (w.1, done) ∷ [];
    pops = w.0.pops ++ (t, r.1) ∷ [];
  }
  let acknowledged = acknowledge t r.1 r.2 done s₁
  let late = ok (record s₁ { bars = s₁.bars ++ (r.2, t, t + vt, none) ∷ [] }, done, none, r.2)
  if acked then acknowledged else late

-- `next(s for s in ticks if s >= dl)` over the ticks from `tick` on.
unfoldable pub first_from : ℕ → ℕ → ℕ → Option ℕ
first_from zero tick dl = none
first_from (suc n) tick dl =
    let later = first_from n (tick + second) dl in if leb dl tick then some tick else later

unfoldable pub first_tick : ℕ → Result ℕ
unfolding first_from
first_tick dl = or_raise stop_iteration (first_from 40 sweep_phase dl)

-- The sweep gives job `k` of `row` back to the front of the list.
unfoldable pub requeue : ℕ → ℕ → ℕ → State → Result State
unfolding row_at draw place
requeue t k row s = do
  y ← row_at row
  let s₁ = draw k (point t y.0 y.1 1 ∷ point (t + 294000) 420 160 1 ∷ []) s
  ok (place k t in_list (record s₁ { lst = k ∷ s₁.lst; rows_free = s₁.rows_free ++ row ∷ [] }))
