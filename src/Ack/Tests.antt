-- ===== src/Ack/Tests.antt =====
-- gen_ack.py: the theorems at states of its run.
use redisq.Base.{ℕ, ◌+◌, ◌*◌, ◌≤◌, ◌<◌, ◌≡◌, refl, true, some, [], ◌∷◌, ◌++◌, count, ok, arith}
use redisq.Ack.Build.{
  State, Dot, in_pending, is_done, init, pop, first_tick, sweep_phase, second, vt,
}
use redisq.Ack.Sweep.{first_tick_in_time}
use redisq.Ack.Pop.{CanPop, done_at, acked_at, pop_acknowledged}

-- Both jobs wait.
abbrev queued : State
queued = record init { lst = 1 ∷ 2 ∷ [] }

queued-CanPop : CanPop queued 1 0 (2 ∷ [])
queued-CanPop = record {
  rows = 1 ∷ 0 ∷ [];
  next_dot = Dot.dot 0;
  dots = Dot.dot 1 ∷ Dot.dot 2 ∷ [];
  has_dot = refl;
  head = refl;
  few = omega arith;
  next_row = refl;
  is_row = omega arith;
  is_free = refl;
}

pop_acknowledged_example :
    (s' : State) × (pop 588000 true queued ≡ ok (s', done_at 588000, some (acked_at 588000), 0))
    × (s'.lst ≡ 2 ∷ [])
    × (s'.places
        ≡ (queued.places ++ (1, 588000, in_pending) ∷ []) ++ (1, acked_at 588000, is_done) ∷ [])
    × (s'.acks ≡ queued.acks ++ (acked_at 588000, 1) ∷ [])
    × (acked_at 588000 < 588000 + vt)
    × ((x : ℕ) → count x s'.rows_free ≡ count x queued.rows_free)
pop_acknowledged_example =
    pop_acknowledged 588000 1 0 (2 ∷ []) (Dot.ackd 0) (Dot.ackd 2 ∷ []) queued queued-CanPop refl

first_tick_in_time_example :
    (t i : ℕ) × (first_tick 3926000 ≡ ok t)
    × (t ≡ sweep_phase + i * second)
    × (3926000 ≤ t)
    × (t < 3926000 + second)
first_tick_in_time_example = first_tick_in_time 3926000 (omega arith)
