-- ===== src/Dead/Store/Simulate/Tests.antt =====
-- gen_dead.py's run, in row A (the connection closes with the process) and in row B (the host is lost).
use redisq.Base.{
  discard, add, ℕ_discrete, ℕ, ◌+◌, Bool, raise, stop_iteration, ◌>>=◌, true, false, ◌≡◌, refl,
  Option, none, some, List, [], ◌∷◌, Result, ok, arith,
}
use redisq.Base.Int.{ℤ, pos, negsuc, ◌+ℤ◌}
use redisq.Base.Dict
use redisq.Base.Sort.{sorted}
use redisq.Base.Heapq.{heappush}
use redisq.Dead.Store.{
  AckId-discrete, tick, stalled, pop_one, finish, begin, moves_clock, sweep, subscribers, move, ack,
  wake,
}
use redisq.Dead.Store.Valid.{IsValid}
use redisq.Dead.Store.Simulate.{
  Sim, Event, Place, in_pending, in_list, is_done, begun, simulate, handle, loop,
}
use redisq.Dead.Store.Simulate.Facts.{Facts, facts}
use redisq.Dead.Store.Queue.{view}
use redisq.Dead.Store.Simulate.Refines.{Does, Runs, handle-Does, loop-Runs}
use redisq.Dead.Store.Simulate.Stops.{Stops, loop-Stops}
use redisq.Dead.Store.Simulate.Valid.{handle-IsValid}

result_of : Result (Option Sim) → Sim
unfolding begun
result_of (ok (some s)) = s
result_of r = begun

-- Both jobs leave consumer 2's hands at the reap, are popped by consumer 1 the last one first, and are done.
abbrev places_after : ℕ → List (ℕ × ℤ × Place)
places_after reap =
    (1, negsuc 4999, in_pending 2)
    ∷ (2, negsuc 4999, in_pending 2)
    ∷ (2, pos reap, in_list)
    ∷ (1, pos reap, in_list)
    ∷ (2, pos (reap + 10), in_pending 1)
    ∷ (1, pos (reap + 15), in_pending 1)
    ∷ (2, pos (reap + 2010), is_done)
    ∷ (1, pos (reap + 2015), is_done)
    ∷ []

row_a_places : (result_of (simulate true)).places ≡ places_after 4300
unfolding simulate result_of heappush tick stalled pop_one Dict.insert AckId-discrete ◌+ℤ◌ finish
    begin Dict.get moves_clock sweep sorted subscribers discard add move ℕ_discrete Dict.erase ack
    wake
row_a_places = refl

row_b_places : (result_of (simulate false)).places ≡ places_after 30300
unfolding simulate result_of heappush tick stalled pop_one Dict.insert AckId-discrete ◌+ℤ◌ finish
    begin Dict.get moves_clock sweep sorted subscribers discard add move ℕ_discrete Dict.erase ack
    wake
row_b_places = refl

begun-IsValid : IsValid begun.redis
unfolding begun pop_one ◌+ℤ◌ Dict.insert AckId-discrete
begun-IsValid = record { synced = refl; fresh = refl; distinct = λ a. ground arith }

-- The start, with one sweep of consumer 2's left to come.
abbrev one_left : Sim
one_left = record begun { ev = record { time = 5000; order = 0; event = Event.sweep 2 } ∷ [] }

result : Result Sim → Sim
unfolding begun
result (ok s) = s
result r = begun

handle-IsValid_example : IsValid (result (handle true 5000 (Event.sweep 2) begun)).redis
unfolding handle result tick stalled pop_one Dict.insert AckId-discrete ◌+ℤ◌
handle-IsValid_example =
    handle-IsValid true 5000 (Event.sweep 2) begun (result (handle true 5000 (Event.sweep 2) begun))
      refl begun-IsValid

-- Consumer 1 pops a job that waits.
abbrev waiting : Sim
waiting = record begun { redis = record (begun.redis) { lst = 7 ∷ [] } }

waiting-IsValid : IsValid waiting.redis
unfolding begun pop_one ◌+ℤ◌ Dict.insert AckId-discrete
waiting-IsValid = record { synced = refl; fresh = refl; distinct = λ a. ground arith }

handle-Does_example :
    Does
      (Event.pop 1)
      (view waiting.redis)
      (view (result (handle true 9305 (Event.pop 1) waiting)).redis)
unfolding handle result pop_one Dict.insert AckId-discrete ◌+ℤ◌ begun
handle-Does_example =
    handle-Does true 9305 (Event.pop 1) waiting (result (handle true 9305 (Event.pop 1) waiting))
      refl waiting-IsValid

loop-Runs_example :
    (es : List Event) × Runs es
      (view one_left.redis)
      (view (result_of (loop true 2 one_left)).redis)
unfolding loop begun result_of tick stalled pop_one Dict.insert AckId-discrete ◌+ℤ◌ finish
loop-Runs_example = loop-Runs true 2 one_left (result_of (loop true 2 one_left)) refl begun-IsValid

loop-Stops_example : Stops (loop true 7 one_left)
loop-Stops_example = loop-Stops true 7 one_left (omega arith)

-- The moments of the two rows.
facts_of : Bool → Result Facts
unfolding begun
facts_of row_a = simulate row_a >>= λ o. elim o [
  | none ↦ raise stop_iteration
  | some s ↦ facts row_a s.redis s.start s.log s.places
]

row_a_facts :
    (facts_of true >>= λ f. ok (record f { sweeps = [] }))
    ≡ ok (record {
      kill = 100;
      c2_last = 0;
      skip = 300;
      mark = some 1300;
      reap = 4300;
      wake = 4305;
      pops = (4310, 2) ∷ (4315, 1) ∷ [];
      acks = (6310, 2) ∷ (6315, 1) ∷ [];
      hb_out = 30000;
      order = 2 ∷ 1 ∷ [];
      woken = 1 ∷ [];
      sweeps = [];
    })
unfolding facts facts_of simulate heappush tick stalled pop_one Dict.insert AckId-discrete ◌+ℤ◌
    finish begin Dict.get moves_clock sweep sorted subscribers discard add move ℕ_discrete
    Dict.erase ack wake
row_a_facts = refl

row_b_facts :
    (facts_of false >>= λ f. ok (record f { sweeps = [] }))
    ≡ ok (record {
      kill = 100;
      c2_last = 0;
      skip = 300;
      mark = none;
      reap = 30300;
      wake = 30305;
      pops = (30310, 2) ∷ (30315, 1) ∷ [];
      acks = (32310, 2) ∷ (32315, 1) ∷ [];
      hb_out = 30000;
      order = 2 ∷ 1 ∷ [];
      woken = 1 ∷ [];
      sweeps = [];
    })
unfolding facts facts_of simulate heappush tick stalled pop_one Dict.insert AckId-discrete ◌+ℤ◌
    finish begin Dict.get moves_clock sweep sorted subscribers discard add move ℕ_discrete
    Dict.erase ack wake
row_b_facts = refl
