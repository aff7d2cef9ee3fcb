-- ===== src/Wake/Simulate.antt =====
-- assets/diagrams/gen/gen_wake.py, simulate: the event loop. Times are tenths of a millisecond, the
-- grain of `push`'s rounding; a consumer "C<n>" and a job are numbers.
pub mod Invariant
pub mod Jobs
pub mod Log
pub mod Members
pub mod Stops
mod Tests
use redisq.Base.{
  ℕ, zero, suc, ◌+◌, ◌*◌, ◌/◌, ◌-◌, ◌≡◌, refl, Bool, true, false, ◌&&◌, ◌||◌, not, Option, none,
  some, List, [], ◌∷◌, ◌++◌, map, arith, ltb, leb, ◌==◌, if◌then◌else◌, elem, add, discard, length,
  Result, ok, raise, ◌>>=◌, ◌>>◌, assert, assertion_error, stop_iteration, ℕ_discrete,
}
use redisq.Base.Dict
use redisq.Base.Heapq.{Entry, heappush}

-- WORK, LOCAL, HORIZON, WAKE_V and POP_V.
abbrev pub work : ℕ
work = 20000

abbrev pub local_gap : ℕ
local_gap = 400

abbrev pub horizon : ℕ
horizon = 120000

abbrev pub wake_v : ℕ
wake_v = 1200

abbrev pub pop_v : ℕ
pop_v = 900

-- CONS, X0, PORT, and the routes.
abbrev pub cons : List ℕ
cons = 1 ∷ 2 ∷ []

port : ℕ → ℕ
port c = (if c == 1 then 600 else 776) + 24

pub wake_route : ℕ → List (ℕ × ℕ)
unfolding port
wake_route c = (440, 173) ∷ (port c, 173) ∷ (port c, 222) ∷ []

pub pop_route : ℕ → List (ℕ × ℕ)
unfolding port
pop_route c = (440, 341) ∷ (port c, 341) ∷ (port c, 322) ∷ []

-- `abs(a - b)`.
unfoldable pub dist : ℕ → ℕ → ℕ
dist a b = a - b + (b - a)

unfoldable pub plen : List (ℕ × ℕ) → ℕ
unfolding dist
plen [] = 0
plen (p ∷ []) = 0
plen (p ∷ q ∷ pts) = dist p.0 q.0 + dist p.1 q.1 + plen (q ∷ pts)

-- `round(t + length / v, 4)` for a time `t` on the grain: the nearest grain.
unfoldable pub arrival : ℕ → ℕ → ℕ → ℕ
arrival t len v = t + (2 * 10000 * len + v) / (2 * v)

-- What varmq holds for a consumer: None, "dispatching" or the job that runs.
pub data Busy : Type 0 where
  free dispatching : Busy
  running : ℕ → Busy

pub data Kind : Type 0 where
  wake poke : Kind

pub data Event : Type 0 where
  enqueue : ℕ → Event
  nudge pop : ℕ → Event
  signal : ℕ → Kind → Event
  done : ℕ → ℕ → Event

pub data Why : Type 0 where
  spop len nudged pop_miss : Why

pub record Sim : Type 0 where
  pub ev : List (Entry Event)
  pub seq : ℕ
  pub queue : List ℕ
  pub idle : List ℕ
  pub busy : ℕ → Busy
  pub is_free : ℕ → Bool
  pub picks : List ℕ
  -- Jobs enqueued, jobs popped and jobs done with their consumer.
  pub enqueued : List ℕ
  pub popped : List (ℕ × ℕ)
  pub finished : List (ℕ × ℕ)
  -- The logs. Wakes: time, consumer, arrival, job; changes of membership: time, consumer, joined, reason;
  -- enqueues: time, job, the queue's length, the consumers woken, the idle set before.
  pub wakes : List (ℕ × ℕ × ℕ × ℕ)
  pub member_log : List (ℕ × ℕ × Bool × Why)
  pub enq_log : List (ℕ × ℕ × ℕ × List ℕ × List ℕ)
  -- Nudges: time, consumer, the queue's length, busy, free, in the idle set; signals: time, consumer, kind,
  -- taken; nudges that left a busy consumer out; pops: time, consumer, job, arrival; runs: consumer, job,
  -- start, end; and the state after each event: time, event, queue, idle set, what varmq holds.
  pub nudge_log : List (ℕ × ℕ × ℕ × Bool × Bool × Bool)
  pub signal_log : List (ℕ × ℕ × Kind × Bool)
  pub stay_log : List (ℕ × ℕ)
  pub pop_log : List (ℕ × ℕ × ℕ × ℕ)
  pub run_log : List (ℕ × ℕ × ℕ × ℕ)
  pub state_log : List (ℕ × Event × List ℕ × List ℕ × List Busy)

update {ℓ} : {A : Type ℓ} → (ℕ → A) → ℕ → A → ℕ → A
update f c a x = if c == x then a else f x

pub push : ℕ → Event → Sim → Sim
push t e s = record s {
  ev = heappush (record { time = t; order = s.seq; event = e }) s.ev;
  seq = suc s.seq;
}

same : Bool → Bool → Bool
same true b = b
same false b = not b

-- `member(t, c, now_in, why)`.
pub member : ℕ → ℕ → Bool → Why → Sim → Sim
unfolding same
member t c now_in why s = record s {
  member_log =
      if same (elem c s.idle) now_in
      then s.member_log
      else s.member_log ++ (t, c, now_in, why) ∷ [];
  idle = if now_in then add c s.idle else discard c s.idle;
}

pub pull_from : ℕ → ℕ → List ℕ → Sim → Sim
unfolding member push update
pull_from t c [] s =
    let s' = member t c true len s in record s' { is_free = update s'.is_free c true }
pull_from t c (j ∷ js) s =
    push (t + local_gap) (pop c) (record s { busy = update s.busy c dispatching })

pub pull : ℕ → ℕ → Sim → Sim
unfolding pull_from
pull t c s = pull_from t c s.queue s

pub is_idle : Busy → Bool
is_idle free = true
is_idle b = false

log_signal : ℕ → ℕ → Kind → Bool → Sim → Sim
log_signal t c kind taken s = record s { signal_log = s.signal_log ++ (t, c, kind, taken) ∷ [] }

-- A signal to a busy consumer is ignored.
pub take_signal : ℕ → ℕ → Kind → Sim → Sim
unfolding is_idle log_signal
take_signal t c kind s =
    let s' = pull t c (log_signal t c kind true s) in
    if is_idle (s.busy c) then s' else log_signal t c kind false s

pub is_nil : List ℕ → Bool
is_nil [] = true
is_nil (x ∷ xs) = false

-- One SPOP and its PUBLISH: the next pick, which must be a member, leaves the set and is sent a wake.
spop_from : ℕ → ℕ → Sim → List ℕ → Result (Sim × ℕ)
unfolding member push arrival plen wake_route
spop_from t job s [] = raise stop_iteration
spop_from t job s (c ∷ picks) = do
  assert (elem c s.idle)
  let s' = member t c false spop (record s { picks = picks })
  let arrive = arrival t (plen (wake_route c)) wake_v
  ok (push arrive (signal c wake) (record s' { wakes = s'.wakes ++ (t, c, arrive, job) ∷ [] }), c)

-- The loop `while len(woken) < n`: each round wakes one, so `k` is `n` less those woken so far.
pub wake_loop : ℕ → ℕ → ℕ → List ℕ → Sim → Result (Sim × List ℕ)
unfolding spop_from is_nil
wake_loop zero t job woken s = ok (s, woken)
wake_loop (suc k) t job woken s =
    let more = spop_from t job s s.picks >>= λ x. wake_loop k t job (woken ++ x.1 ∷ []) x.0 in
    if is_nil s.idle then ok (s, woken) else more

pub on_enqueue : ℕ → ℕ → Sim → Result Sim
unfolding wake_loop
on_enqueue t job s = do
  let s' : Sim = record s { queue = s.queue ++ job ∷ []; enqueued = s.enqueued ++ job ∷ [] }
  let n = length s'.queue
  (r, woken) ← wake_loop n t job [] s'
  ok (record r { enq_log = r.enq_log ++ (t, job, n, woken, s.idle) ∷ [] })

-- What a nudge of `c` logs, which found the state `s` and changed the membership in `s'`.
log_nudge : ℕ → ℕ → Sim → Sim → Sim
unfolding is_nil is_idle
log_nudge t c s s' = record s' {
  stay_log =
      if is_nil s.queue && not (s.is_free c) && not (elem c s.idle)
      then s'.stay_log ++ (t, c) ∷ []
      else s'.stay_log;
  nudge_log =
      s'.nudge_log
      ++ (t, c, length s.queue, not (is_idle (s.busy c)), s'.is_free c, elem c s'.idle) ∷ [];
}

pub on_nudge : ℕ → ℕ → Sim → Sim
unfolding member take_signal push is_nil log_nudge
on_nudge t c s =
    let waiting = not (is_nil s.queue) in
    let s' =
      if waiting
      then member t c false nudged s
      else if s.is_free c
      then member t c true nudged s
      else s in
    let noted = log_nudge t c s s' in
    let poked = take_signal t c poke noted in
    push (t + 10000) (nudge c) (if waiting then poked else noted)

pop_from : ℕ → ℕ → List ℕ → Sim → Sim
unfolding member push update arrival plen pop_route
pop_from t c [] s =
    let s' = member t c true pop_miss s in
    record s' { is_free = update s'.is_free c true; busy = update s'.busy c free }
pop_from t c (job ∷ queue) s =
    let arrive = arrival t (plen (pop_route c)) pop_v in
    push (arrive + work) (done c job) (record s {
      queue = queue;
      is_free = update s.is_free c false;
      busy = update s.busy c (running job);
      popped = s.popped ++ (c, job) ∷ [];
      pop_log = s.pop_log ++ (t, c, job, arrive) ∷ [];
      run_log = s.run_log ++ (c, job, arrive, arrive + work) ∷ [];
    })

on_done : ℕ → ℕ → ℕ → Sim → Sim
unfolding pull update
on_done t c job s =
    pull t c (record s { busy = update s.busy c free; finished = s.finished ++ (c, job) ∷ [] })

-- The body of the loop, for an event at `t` that has left the heap.
pub handle : ℕ → Event → Sim → Result Sim
unfolding on_enqueue on_nudge take_signal pop_from on_done
handle t (enqueue job) s = on_enqueue t job s
handle t (nudge c) s = ok (on_nudge t c s)
handle t (signal c kind) s = ok (take_signal t c kind s)
handle t (pop c) s = ok (pop_from t c s.queue s)
handle t (done c job) s = ok (on_done t c job s)

-- A pop that finds nothing continues with the next event and logs no state.
is_miss : Event → List ℕ → Bool
unfolding is_nil
is_miss (pop c) queue = is_nil queue
is_miss (enqueue job) queue = false
is_miss (nudge c) queue = false
is_miss (signal c kind) queue = false
is_miss (done c job) queue = false

-- The state after an event, which is the last thing that its round logs; `before` is the queue before it.
pub log_state : ℕ → Event → List ℕ → Sim → Sim
unfolding is_miss
log_state t e before s = record s {
  state_log =
      if is_miss e before
      then s.state_log
      else s.state_log ++ (t, e, s.queue, s.idle, map s.busy cons) ∷ [];
}

-- `while ev`, with fuel; `none` means that the fuel ran out.
loop_from : (Sim → Result (Option Sim)) → Sim → List (Entry Event) → Result (Option Sim)
unfolding handle log_state
loop_from again s [] = ok (some s)
loop_from again s (e ∷ ev) =
    let next = handle e.time e.event (record s { ev = ev }) >>= λ r.
    again (log_state e.time e.event s.queue r) in
    if ltb horizon e.time then ok (some (record s { ev = ev })) else next

pub loop : ℕ → Sim → Result (Option Sim)
unfolding loop_from
loop zero s = ok none
loop (suc k) s = loop_from (loop k) s s.ev

-- ENQ, PHASE and SPOP_PICK: jobs X (1) at .5 s and Y (2) at 1.85 s, nudges at .3 and .8 s.
pub start : Sim
unfolding push
start =
    push 8000 (nudge 2) (push 3000 (nudge 1) (push 18500 (enqueue 2) (push 5000 (enqueue 1) empty)))
  where
    empty : Sim
    empty = record {
      ev = [];
      seq = 0;
      queue = [];
      idle = cons;
      busy = λ c. free;
      is_free = λ c. true;
      picks = 1 ∷ 2 ∷ [];
      enqueued = [];
      popped = [];
      finished = [];
      wakes = [];
      member_log = [];
      enq_log = [];
      nudge_log = [];
      signal_log = [];
      stay_log = [];
      pop_log = [];
      run_log = [];
      state_log = [];
    }

unfoldable pub simulate : Result (Option Sim)
unfolding loop start
simulate = loop 200 start
