-- ===== src/Dead/Store/Tests.antt =====
-- gen_dead.py's queue on a small state: consumer 1 holds the jobs 7 and 8 and is gone, consumer 2 sweeps.
use redisq.Base.{
  add, discard, ℕ, ◌+◌, ◌<◌, ◌≤◌, ◌≡◌, ◌≢◌, ◌⊎◌, inl, inr, refl, Bool, true, false, not, Option,
  none, some, List, [], ◌∷◌, ◌==◌, if◌then◌else◌, ltb, leb, elem, length, Result, ok, ℕ_discrete,
  arith, Bool-cases,
}
use redisq.Base.Int.{ℤ, pos, ◌+ℤ◌}
use redisq.Base.Dict
use redisq.Dead.Store.{
  AckId, AckId-discrete, Redis, Swept, Note, mark, gone, waiting, reap, tick, begin, ack, pop_one,
  wake, move, moves_clock, subscribers, expired, present,
}
use redisq.Dead.Store.Conserve.{jobs, tick_conserves}
use redisq.Dead.Store.Reap.{find, is_dead, tick_reaps_exactly}
use redisq.Dead.Store.Valid.{IsValid}
use redisq.Dead.Store.Handover.{ack_removes}
use redisq.Dead.Store.Detect.{sweeps, sweeps_detect}
use redisq.Dead.Store.Marks.{IsMarked, IsCleared}
use redisq.Dead.Store.Wake.{wake_reaches, wake_enough}

abbrev id_at : ℕ → AckId
id_at i = record { owner = 1; index = i }

abbrev queue : Redis
queue = record {
  lst = 9 ∷ [];
  pending = (id_at 1, 7) ∷ (id_at 2, 8) ∷ [];
  dl = (id_at 1, pos 300000) ∷ (id_at 2, pos 300000) ∷ [];
  hb = (1, pos 40000) ∷ (2, pos 40000) ∷ [];
  pres = (1, pos 0) ∷ (2, pos 0) ∷ [];
  clock = some (pos 10000);
  subs = (2, 1) ∷ [];
  idle = 1 ∷ 2 ∷ [];
  seq = 3;
}

-- The queue after a sweep of consumer 2's at a time, with consumer 1's mark set at 11 s.
abbrev swept_at : ℤ → Redis
swept_at t = record queue {
  hb = (1, pos 40000) ∷ (2, t +ℤ pos 30000) ∷ [];
  pres = (1, pos 11000) ∷ (2, pos 0) ∷ [];
  clock = some t;
}

abbrev marked : Swept
marked = (swept_at (pos 11000), 0, true, mark 1 ∷ [])

-- After the sweep that finds consumer 1 gone: its jobs are back on the list, the last one popped in front.
abbrev reaped : Redis
reaped = record {
  lst = 8 ∷ 7 ∷ 9 ∷ [];
  pending = [];
  dl = [];
  hb = (2, pos 43600) ∷ [];
  pres = (2, pos 0) ∷ [];
  clock = some (pos 13600);
  subs = (2, 1) ∷ [];
  idle = 1 ∷ 2 ∷ [];
  seq = 3;
}

abbrev last : Swept
last = (reaped, 2, true, gone 1 ∷ reap (1 ∷ []) ∷ [])

marks : tick queue 2 (pos 11000) ≡ ok marked
unfolding tick redisq.Dead.Store.stalled ◌+ℤ◌ redisq.Dead.Store.finish redisq.Dead.Store.sweep
    moves_clock redisq.Base.Sort.sorted begin Dict.get ℕ_discrete Dict.insert subscribers
marks = refl

waits : sweeps ((2, pos 12500) ∷ []) (swept_at (pos 11000)) ≡ ok (swept_at (pos 12500))
unfolding sweeps tick redisq.Dead.Store.stalled ◌+ℤ◌ redisq.Dead.Store.finish
    redisq.Dead.Store.sweep moves_clock redisq.Base.Sort.sorted begin Dict.get ℕ_discrete
    Dict.insert subscribers
waits = refl

reaps : tick (swept_at (pos 12500)) 2 (pos 13600) ≡ ok last
unfolding tick redisq.Dead.Store.stalled ◌+ℤ◌ redisq.Dead.Store.finish redisq.Dead.Store.sweep
    moves_clock redisq.Base.Sort.sorted begin Dict.get ℕ_discrete Dict.insert subscribers add move
    Dict.erase AckId-discrete
reaps = refl

tick_conserves_example :
    ((v : ℕ) → jobs v reaped ≡ jobs v (swept_at (pos 12500)))
    × (length reaped.lst ≡ length queue.lst + 2)
tick_conserves_example = tick_conserves (swept_at (pos 12500)) 2 (pos 13600) last reaps

tick_reaps_exactly_example : find (id_at 1) reaped.pending ≡ (
    if is_dead (begin (swept_at (pos 12500)) 2 (pos 13600)) (pos 13600) true 1
    then none
    else find (id_at 1) queue.pending)
unfolding moves_clock begin ◌+ℤ◌
tick_reaps_exactly_example =
    tick_reaps_exactly (swept_at (pos 12500)) 2 (pos 13600) (pos 12500) last (id_at 1) refl reaps

queue-IsMarked : IsMarked 1 (pos 0) queue
unfolding subscribers Dict.get ℕ_discrete
queue-IsMarked = record { known = refl; unsubscribed = refl; since = refl }

sweeps_detect_example : IsCleared 1 reaped
unfolding moves_clock ◌+ℤ◌
sweeps_detect_example =
    sweeps_detect queue (swept_at (pos 12500)) 1 2 2 (pos 11000) (pos 13600) (pos 10000) (pos 12500)
      marked last ((2, pos 12500) ∷ []) queue-IsMarked (λ e. omega (arith, e))
      (λ e. omega (arith, e)) refl refl refl refl refl marks waits refl refl reaps

queue-IsValid : IsValid queue
queue-IsValid = record { synced = refl; fresh = refl; distinct = λ b. ground arith }

-- The queue after consumer 1 acknowledged job 7.
abbrev acked : Redis
acked = record queue { pending = (id_at 2, 8) ∷ []; dl = (id_at 2, pos 300000) ∷ [] }

acks : ack queue (id_at 1) ≡ ok acked
unfolding ack Dict.get AckId-discrete Dict.erase
acks = refl

ack_removes_example :
    (s : Redis) × (ack queue (id_at 1) ≡ ok s)
    × (find (id_at 1) s.pending ≡ none)
    × ((x : ℕ) → jobs x s + (if 7 == x then 1 else 0) ≡ jobs x queue)
    × ((b : AckId) → id_at 1 ≢ b → find b s.pending ≡ find b queue.pending)
unfolding Dict.get AckId-discrete
ack_removes_example = ack_removes queue (id_at 1) 7 queue-IsValid refl

-- A wake that picks consumer 1, which nobody listens for, and then consumer 2.
wakes : wake queue 1 (1 ∷ 2 ∷ []) ≡ (record queue { idle = [] }, 2 ∷ [])
unfolding wake subscribers Dict.get ℕ_discrete discard
wakes = refl

wake_reaches_example :
    (length (wake queue 1 (1 ∷ 2 ∷ [])).1 ≤ 1)
    × ((x : ℕ)
        → elem x (wake queue 1 (1 ∷ 2 ∷ [])).1 ≡ true
        → (elem x queue.idle ≡ true)
          × (ltb 0 (subscribers queue x) ≡ true)
          × (elem x (wake queue 1 (1 ∷ 2 ∷ [])).0.idle ≡ false))
    × ((x : ℕ) → elem x (wake queue 1 (1 ∷ 2 ∷ [])).0.idle ≡ true → elem x queue.idle ≡ true)
wake_reaches_example = wake_reaches queue 1 (1 ∷ 2 ∷ [])

wake_enough_example :
    (1 ≤ length (wake queue 1 (1 ∷ 2 ∷ [])).1) ⊎ (elem 2 (wake queue 1 (1 ∷ 2 ∷ [])).1 ≡ true)
unfolding subscribers Dict.get ℕ_discrete
wake_enough_example = wake_enough queue 1 (1 ∷ 2 ∷ []) 2 (λ y h. h) refl refl
