-- ===== src/Dead/Store/Simulate.antt =====
-- assets/diagrams/gen/gen_dead.py, simulate: the run of the sweeps until the dead consumer's jobs are
-- done elsewhere. The heap's times are counted from T0, five seconds before time 0.
mod Valid
pub mod Refines
pub mod Facts
pub mod Reads
pub mod Stops
mod Tests
use redisq.Base.{
  ℕ, zero, suc, ◌+◌, ◌-◌, ◌*◌, min, Bool, true, false, ◌&&◌, ◌==◌, Option, none, some, List, [],
  ◌∷◌, ◌++◌, map, ltb, leb, if◌then◌else◌, any, all, elem, discard, length, Result, ok, ◌>>=◌, ◌>>◌,
  assert, or_raise, key_error, type_error, ℕ_discrete,
}
use redisq.Base.Int.{ℤ, pos, sub_ℕ}
use redisq.Base.Dict
use redisq.Base.Sort.{sorted}
use redisq.Base.Heapq.{Entry, heappush}
use redisq.Dead.Store.{
  AckId, AckId-discrete, Redis, Note, Swept, ran_out, mark, gone, waiting, reap, init, pop_one, ack,
  tick, wake,
}

-- T0, KILL, END, WORK, CONC, WAKE_MS, POP_MS, and the phases; jobs J1 and J2 are 1 and 2.
abbrev from_t0 : ℕ
from_t0 = 5000

abbrev kill_time : ℕ
kill_time = 100

abbrev end_time : ℕ
end_time = 34600

abbrev work : ℕ
work = 2000

abbrev conc : ℕ
conc = 2

abbrev wake_ms : ℕ
wake_ms = 5

abbrev pop_ms : ℕ
pop_ms = 5

abbrev c2_phase : ℕ
c2_phase = 0

abbrev c1_phase : ℕ
c1_phase = 300

abbrev pub time_of : ℕ → ℤ
time_of n = sub_ℕ n from_t0

pub data Event : Type 0 where
  kill sweep : ℕ → Event
  wake_up : ℕ → Event
  pop : ℕ → Event
  acknowledge : AckId → Event

pub data Logged : Type 0 where
  killed : Logged
  swept : ℕ → Bool → List Note → Option ℤ → Option ℤ → List ℕ → Logged
  woke : ℕ → List ℕ → List ℕ → Logged
  popped : ℕ → AckId → Logged
  acked : ℕ → Logged

pub data Place : Type 0 where
  in_pending : ℕ → Place
  in_list is_done : Place

-- `places` holds what `where` holds per job; `start` is the queue when consumer 2 is killed.
pub record Sim : Type 0 where
  pub redis : Redis
  pub ev : List (Entry Event)
  pub seq : ℕ
  pub alive : List ℕ
  pub busy : List (AckId × ℕ)
  pub start : Option Redis
  pub log : List (ℤ × Logged)
  pub places : List (ℕ × ℤ × Place)

pub push : ℕ → Event → Sim → Sim
push t e s = record s {
  ev = heappush (record { time = t; order = s.seq; event = e }) s.ev;
  seq = suc s.seq;
}

on_kill : Bool → ℕ → ℕ → Sim → Sim
on_kill row_a t m s = record s {
  start = some s.redis;
  alive = discard m s.alive;
  redis =
      if row_a
      then record (s.redis) { subs = Dict.insert ℕ_discrete m 0 s.redis.subs }
      else s.redis;
  log = s.log ++ (time_of t, killed) ∷ [];
}

is_reap : Note → Bool
is_reap (reap ms) = true
is_reap (ran_out m) = false
is_reap (mark m) = false
is_reap (gone m) = false
is_reap (waiting m) = false

-- What the loop does with what a sweep returned.
pub after_sweep : ℕ → ℕ → Sim → Swept → Sim
unfolding is_reap push
after_sweep t me s (r, n, ticked, notes) =
    let noted : Logged =
      swept me ticked notes (Dict.get ℕ_discrete 2 r.pres) (Dict.get ℕ_discrete 2 r.hb) r.lst in
    let s' : Sim = record s {
      redis = r;
      log = s.log ++ (time_of t, noted) ∷ [];
      places =
          if any is_reap notes
          then s.places ++ map (λ v. (v, time_of t, in_list)) r.lst
          else s.places;
    } in
    if ltb 0 n && me == 1 then push (t + wake_ms) (wake_up n) s' else s'

on_sweep : ℕ → ℕ → Sim → Result Sim
unfolding after_sweep
on_sweep t me s =
    let swept_by = tick s.redis me (time_of t) >>= λ x. ok (after_sweep t me s x) in
    if elem me s.alive then swept_by else ok s

-- `itertools.permutations`, in some order.
insert_each : ℕ → List ℕ → List (List ℕ)
insert_each x [] = (x ∷ []) ∷ []
insert_each x (y ∷ ys) = (x ∷ y ∷ ys) ∷ map (λ l. y ∷ l) (insert_each x ys)

insert_all : ℕ → List (List ℕ) → List (List ℕ)
unfolding insert_each
insert_all x [] = []
insert_all x (l ∷ ls) = insert_each x l ++ insert_all x ls

permutations : List ℕ → List (List ℕ)
unfolding insert_all
permutations [] = [] ∷ []
permutations (x ∷ xs) = insert_all x (permutations xs)

-- `_copy`: the idle set and the subscribers.
copy : Redis → Redis
copy r = record init { idle = r.idle; subs = r.subs }

push_pops : ℕ → ℕ → ℕ → Sim → Sim
unfolding push
push_pops t i zero s = s
push_pops t i (suc k) s = push_pops t (i + 1) k (push (t + pop_ms * (i + 1)) (pop 1) s)

-- What the loop does with whom a wake of `count` reached.
pub after_wake : ℕ → ℕ → List ℕ → Sim → Redis × List ℕ → Sim
unfolding push_pops
after_wake t count members s w =
    push_pops t 0 (min (conc - length s.busy) (length w.0.lst))
      (record s { redis = w.0; log = s.log ++ (time_of t, woke count w.1 members) ∷ [] })

on_wake : ℕ → ℕ → Sim → Result Sim
unfolding permutations copy after_wake
on_wake t count s = do
  let members = sorted leb s.redis.idle
  assert (all (λ o. elem 1 (wake (copy s.redis) count o).1) (permutations members))
  ok (after_wake t count members s (wake s.redis count members))

on_pop : ℕ → ℕ → Sim → Result Sim
unfolding push
on_pop t owner s = do
  let r = pop_one s.redis owner (time_of t)
  got ← or_raise type_error r.1
  ok (
      push (t + work) (acknowledge got.0) (record s {
        redis = r.0;
        busy = Dict.insert AckId-discrete got.0 got.1 s.busy;
        places = s.places ++ (got.1, time_of t, in_pending 1) ∷ [];
        log = s.log ++ (time_of t, popped got.1 got.0) ∷ [];
      }))

on_ack : ℕ → AckId → Sim → Result Sim
on_ack t aid s = do
  v ← or_raise key_error (Dict.get AckId-discrete aid s.busy)
  r ← ack s.redis aid
  ok (record s {
    redis = r;
    busy = Dict.erase AckId-discrete aid s.busy;
    places = s.places ++ (v, time_of t, is_done) ∷ [];
    log = s.log ++ (time_of t, acked v) ∷ [];
  })

-- The body of the loop; `row_a` tells row A, where the connection closes with the process.
pub handle : Bool → ℕ → Event → Sim → Result Sim
unfolding on_kill on_sweep on_wake on_pop on_ack
handle row_a t (kill m) s = ok (on_kill row_a t m s)
handle row_a t (sweep me) s = on_sweep t me s
handle row_a t (wake_up n) s = on_wake t n s
handle row_a t (pop owner) s = on_pop t owner s
handle row_a t (acknowledge aid) s = on_ack t aid s

-- `while ev`, with fuel; `none` means that the fuel ran out.
loop_from : (Sim → Result (Option Sim)) → Bool → Sim → List (Entry Event) → Result (Option Sim)
unfolding handle
loop_from again row_a s [] = ok (some s)
loop_from again row_a s (e ∷ ev) = handle row_a e.time e.event (record s { ev = ev }) >>= again

pub loop : Bool → ℕ → Sim → Result (Option Sim)
unfolding loop_from
loop row_a zero s = ok none
loop row_a (suc k) s = loop_from (loop row_a k) row_a s s.ev

push_if : ℕ → ℕ → Sim → Sim
unfolding push
push_if t who s = if ltb 0 t && leb t (end_time + from_t0) then push t (sweep who) s else s

-- Each second's two sweeps; `k` counts the seconds from T0.
push_sweeps : ℕ → ℕ → Sim → Sim
unfolding push_if
push_sweeps k zero s = s
push_sweeps k (suc n) s =
    push_sweeps (k + 1) n (push_if (k * 1000 + c1_phase) 1 (push_if (k * 1000 + c2_phase) 2 s))

-- The queue at T0: consumer 2 has popped J1 and J2.
history : Redis
history =
    let r : Redis = record init { subs = (1, 1) ∷ (2, 1) ∷ []; idle = 1 ∷ []; lst = 1 ∷ 2 ∷ [] } in
    (pop_one (pop_one r 2 (time_of 0)).0 2 (time_of 0)).0

pub begun : Sim
unfolding history push_sweeps push
begun = push (kill_time + from_t0) (kill 2) (
    push_sweeps 0 40 (record {
      redis = history;
      ev = [];
      seq = 0;
      alive = 1 ∷ 2 ∷ [];
      busy = [];
      start = none;
      log = [];
      places = (1, time_of 0, in_pending 2) ∷ (2, time_of 0, in_pending 2) ∷ [];
    }))

-- 79 sweeps, the kill, a wake, two pops and two acknowledgments are handled: 200 rounds are enough.
pub simulate : Bool → Result (Option Sim)
unfolding loop begun
simulate row_a = loop row_a 200 begun
