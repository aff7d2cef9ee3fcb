-- ===== src/Close/Sim.antt =====
-- assets/diagrams/gen/gen_close.py, class Sim: the events of the simulation. Keyframes and the printed
-- log are left out, and of `mark` what only the drawing and its assertions read.
pub mod Keeps
pub mod Release
pub mod Events
pub mod Stops
pub mod Booked
mod Tests
use redisq.Base.{
  ℕ, zero, suc, ◌+◌, ◌-◌, ◌*◌, ◌≡◌, Bool, true, false, ◌&&◌, ◌||◌, not, Option, none, some, List,
  [], ◌∷◌, ◌++◌, map, ltb, leb, ◌==◌, if◌then◌else◌, elem, select, get_elem?, set, length, Result,
  ok, raise, ◌>>=◌, ◌>>◌, assert, or_raise, key_error, index_error, stop_iteration, ℕ_discrete,
}
use redisq.Base.Dict
use redisq.Base.Sort.{sorted}
use redisq.Base.Heapq.{Entry}
use redisq.Close.State.{
  Sim, Consumer, Held, Run, Why, Event, Place, enqueue, push, wake_arrive, nudge, subscribe, close,
  release, exit, loop, release_wake, job_ends, by_wake, by_nudge, by_job_end, leaving, subscribing,
  nudging, in_list, is_done, conc, enq_fly, work, leave_time, rel_time, exit_after, horizon, slot_x,
  at, set_consumer, sadd, srem, busy_down, len, wake, is_nil, update,
}
use redisq.Close.Pull.{pull_loop, signal}

-- `SLOT_X[len(self.lst) - 1]` and `self.lst.index(j)`.
pub on_push : ℕ → ℕ → Sim → Result Sim
unfolding wake
on_push t job s = do
  x ← or_raise index_error (get_elem? slot_x (length s.lst))
  let s₁ : Sim = record s {
    lst = s.lst ++ job ∷ [];
    x = Dict.insert ℕ_discrete job x s.x;
    places = s.places ++ (job, t, in_list) ∷ [];
  }
  let n = length s₁.lst
  w ← wake t n s₁
  ok (record (w.0) { push_wakes = w.0.push_wakes ++ (job, n, w.1) ∷ [] })

pub on_nudge : ℕ → ℕ → Sim → Result Sim
unfolding set_consumer is_nil sadd srem at signal
on_nudge t m s =
    let st = s.c m in
    let s₁ = set_consumer m (record st { ticks = st.ticks ++ t ∷ [] }) s in
    let again = λ (r : Sim). if leb (t + 10000) horizon then at (t + 10000) (nudge m) r else r in
    let empty = if st.is_free then sadd t m nudging s₁ else s₁ in
    let waiting = signal t m by_nudge (srem t m nudging s₁) in
    if not st.consumer
    then ok s
    else if is_nil s.lst
    then ok (again empty)
    else (waiting >>= λ r. ok (again r))

pub on_subscribe : ℕ → ℕ → Sim → Sim
unfolding set_consumer sadd at
on_subscribe t m s =
    let st : Consumer = record (s.c m) {
      alive = true;
      consumer = true;
      sub = true;
      is_free = true;
    } in
    at (t + 10000) (nudge m) (sadd t m subscribing (set_consumer m st s))

pub on_close : ℕ → ℕ → Sim → Sim
unfolding set_consumer srem at
on_close t m s =
    let st : Consumer = record (s.c m) { closed = true; consumer = false } in
    at (t + leave_time + 200) (release m) (srem t m leaving (set_consumer m st s))

-- The jobs of `m` in pop order: sorted by their numbers.
abbrev by_number : ℕ × ℕ → ℕ × ℕ → Bool
by_number p q = ltb p.0 q.0 || p.0 == q.0 && leb p.1 q.1

pub held_by : ℕ → List (ℕ × Held) → List (ℕ × ℕ)
held_by m pending =
    sorted by_number (map (λ e. (e.1.number, e.0)) (select (λ e. e.1.owner == m) pending))

-- `for _, j in ids: self.lst.insert(0, j)`.
pub push_front : List (ℕ × ℕ) → List ℕ → List ℕ
push_front [] l = l
push_front (p ∷ ids) l = push_front ids (p.1 ∷ l)

index_of : ℕ → List ℕ → Option ℕ
index_of j [] = none
index_of j (x ∷ xs) =
    if x == j then some 0 else elim (index_of j xs) [ none ↦ none | some i ↦ some (suc i) ]

hand_back : ℕ → List (ℕ × ℕ) → Sim → Result Sim
unfolding index_of
hand_back t [] s = ok s
hand_back t (p ∷ ids) s = do
  _ ← or_raise key_error (Dict.get ℕ_discrete p.1 s.pending)
  i ← or_raise index_error (index_of p.1 s.lst)
  x ← or_raise index_error (get_elem? slot_x i)
  hand_back t ids (record s {
    pending = Dict.erase ℕ_discrete p.1 s.pending;
    x = Dict.insert ℕ_discrete p.1 x s.x;
    places = s.places ++ (p.1, t, in_list) ∷ [];
  })

pub on_release : ℕ → ℕ → Sim → Result Sim
unfolding held_by push_front hand_back set_consumer at
on_release t m s = do
  let ids = held_by m s.pending
  r ← hand_back t ids (record s { lst = push_front ids s.lst })
  let r₁ = set_consumer m (record (r.c m) { beat = false }) r
  ok (at (t + rel_time) (release_wake m (length ids)) r₁)

pub on_release_wake : ℕ → ℕ → ℕ → Sim → Result Sim
unfolding wake set_consumer at
on_release_wake t m n s = do
  w ← wake t n s
  ok (at (t + exit_after) (exit m) (set_consumer m (record (w.0.c m) { sub = false }) w.0))

-- The runs of `m` that are cut off, each in its middle.
cut_run : ℕ → ℕ → Run → Result Run
cut_run t m r = do
  let now = t * 520
  assert (ltb r.start now && ltb now (r.start + work r.job * 520))
  ok (record r { end_time = some t; frac = some (now - r.start) })

is_open : Option ℕ → Bool
is_open none = true
is_open (some t) = false

cut_runs : ℕ → ℕ → List Run → Result (List Run)
unfolding cut_run is_open
cut_runs t m [] = ok []
cut_runs t m (r ∷ runs) = do
  r' ← (let cut = cut_run t m r in if r.by == m && is_open r.end_time then cut else ok r)
  rest ← cut_runs t m runs
  ok (r' ∷ rest)

pub on_exit : ℕ → ℕ → Sim → Result Sim
unfolding set_consumer cut_runs
on_exit t m s = do
  runs ← cut_runs t m s.runs
  ok (set_consumer m (record (s.c m) { alive = false }) (record s { runs = runs }))

-- `next(r for r in self.runs if …)` ends.
end_run : ℕ → ℕ → ℕ → ℕ → List Run → Result (List Run)
unfolding is_open
end_run t m slot job [] = raise stop_iteration
end_run t m slot job (r ∷ runs) =
    let rest = end_run t m slot job runs >>= λ rs. ok (r ∷ rs) in
    if r.by == m && (r.slot == slot && (r.job == job && is_open r.end_time))
    then ok (record r { end_time = some t } ∷ runs)
    else rest

acknowledge : ℕ → ℕ → ℕ → Sim → Result Sim
acknowledge t m job s = do
  p ← or_raise key_error (Dict.get ℕ_discrete job s.pending)
  assert (p.owner == m)
  ok (record s {
    pending = Dict.erase ℕ_discrete job s.pending;
    acks = s.acks ++ (t, m, job) ∷ [];
    places = s.places ++ (job, t, is_done) ∷ [];
  })

-- What follows when the run is found; a consumer that is closed cannot acknowledge.
pub settle : ℕ → ℕ → ℕ → Sim → Result Sim
unfolding acknowledge
settle t m job s =
    let done = acknowledge t m job s in
    if (s.c m).closed
    then ok (record s { failed_acks = s.failed_acks ++ (t, m, job) ∷ [] })
    else done

finish_job : ℕ → ℕ → ℕ → ℕ → Sim → Result Sim
unfolding end_run settle
finish_job t m slot job s = do
  runs ← end_run t m slot job s.runs
  settle t m job (record s { runs = runs })

end_job : ℕ → ℕ → ℕ → ℕ → Sim → Result Sim
unfolding finish_job set_consumer busy_down len signal
end_job t m slot job s = do
  s₁ ← finish_job t m slot job s
  let st : Consumer = record (s₁.c m) { slots = set (s₁.c m).slots slot none }
  s₂ ← busy_down t m (set_consumer m st s₁)
  signal t m by_job_end (len t m s₂)

pub on_job_end : ℕ → ℕ → ℕ → ℕ → Sim → Result Sim
unfolding end_job
on_job_end t m slot job s =
    let ended = end_job t m slot job s in if (s.c m).alive then ended else ok s

-- `getattr(self, "on_" + kind)(t, *a)`.
pub handle : ℕ → Event → Sim → Result Sim
unfolding on_push on_nudge on_subscribe on_close on_release on_release_wake on_exit on_job_end
    signal pull_loop at
handle t (enqueue job) s =
    ok (at (t + enq_fly) (push job t) (record s { calls = s.calls ++ t ∷ [] }))
handle t (push job called) s = on_push t job s
handle t (wake_arrive m) s = signal t m by_wake s
handle t (nudge m) s = on_nudge t m s
handle t (subscribe m) s = ok (on_subscribe t m s)
handle t (close m) s = ok (on_close t m s)
handle t (release m) s = on_release t m s
handle t (exit m) s = on_exit t m s
handle t (loop m why) s = pull_loop t m why s
handle t (release_wake m n) s = on_release_wake t m n s
handle t (job_ends m slot job) s = on_job_end t m slot job s

run_from : (Sim → Result (Option Sim)) → Sim → List (Entry Event) → Result (Option Sim)
unfolding handle
run_from again s [] = ok (some s)
run_from again s (e ∷ ev) =
    let next = handle e.time e.event (record s { ev = ev }) >>= again in
    if ltb horizon e.time then ok (some (record s { ev = ev })) else next

-- `run`, with fuel; `none` means that the fuel ran out.
pub run : ℕ → Sim → Result (Option Sim)
unfolding run_from
run zero s = ok none
run (suc k) s = run_from (run k) s s.ev

-- `Sim()` and the events that `build` starts with.
pub idle_consumer : Bool → Consumer
idle_consumer up = record {
  alive = up;
  consumer = up;
  sub = up;
  closed = false;
  busy = 0;
  slots = none ∷ none ∷ none ∷ [];
  pulling = false;
  signalled = false;
  seq = 0;
  beat = false;
  ticks = [];
  is_free = up;
}

pub init : Sim
unfolding idle_consumer
init = record {
  ev = [];
  n = 0;
  lst = [];
  x = [];
  pending = [];
  idle = 2 ∷ [];
  idle_log = [];
  c = λ m. idle_consumer (m == 2);
  places = [];
  runs = [];
  pops = [];
  acks = [];
  failed_acks = [];
  wakes = [];
  push_wakes = [];
  busy_log = [];
  calls = [];
}

pub start : Sim
unfolding at init
start = at 34000 (close 2) (
    at 24000 (subscribe 1)
      (at 8000 (nudge 2) (at 5200 (enqueue 3) (at 4600 (enqueue 2) (at 4000 (enqueue 1) init)))))
