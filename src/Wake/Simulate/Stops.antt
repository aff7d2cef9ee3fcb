-- ===== src/Wake/Simulate/Stops.antt =====
-- gen_wake.py, simulate: every run comes to its end. An event within the horizon is weighed by the rounds
-- that it and the events that it starts can take within the horizon.
use redisq.Base.{
  ℕ, zero, suc, ◌+◌, ◌-◌, ◌*◌, ◌≤◌, ◌<◌, ◌≡◌, refl, inl, inr, Bool, true, false, not, Option, none,
  some, List, [], ◌∷◌, ◌++◌, arith, ltb, ltb→le, if◌then◌else◌, elem, length, Bool-cases, Result,
  ok, raise, Result-cases, >>=-eq-ok, ap, ltb→lt, Error,
}
use redisq.Base.Sort.{total}
use redisq.Base.Heapq.{Entry, total-heappush}
use redisq.Wake.Simulate.{
  Sim, Event, enqueue, nudge, pop, signal, done, free, dispatching, wake, push, pull, take_signal,
  handle, pull_from, update, local_gap, is_nil, arrival, plen, wake_route, wake_v, on_enqueue,
  on_nudge, pop_from, on_done, wake_loop, spop_from, member, Kind, Why, poke, nudged, log_signal,
  log_nudge, log_state, loop, loop_from, horizon,
}

-- The time that an event has left, counted so that it is 0 past the horizon.
abbrev left : ℕ → ℕ
left t = horizon + 1 - t

-- A nudge comes again and again, each time with a pop of its own.
abbrev rounds : ℕ → Event → ℕ
rounds t (nudge c) = left t * (horizon + 1)
rounds t (enqueue job) = left t
rounds t (signal c kind) = left t
rounds t (pop c) = left t
rounds t (done c job) = left t

abbrev entry_rounds : Entry Event → ℕ
entry_rounds x = rounds x.time x.event

-- Each pick of SPOP that is left stands for one wake.
abbrev pub all_rounds : Sim → ℕ
all_rounds s = total entry_rounds s.ev + length s.picks * (horizon + 1)

push-rounds : (t : ℕ) (e : Event) (s : Sim) → all_rounds (push t e s) ≡ rounds t e + all_rounds s
unfolding push
push-rounds t e s =
    omega (arith, total-heappush entry_rounds (record { time = t; order = s.seq; event = e }) s.ev)

member-rounds :
    (t c : ℕ) (b : Bool) (why : Why) (s : Sim) → all_rounds (member t c b why s) ≡ all_rounds s
unfolding member
member-rounds t c b why s = refl

pull-rounds :
    (t c : ℕ) (q : List ℕ) (s : Sim) → all_rounds (pull_from t c q s) ≤ left (t + 1) + all_rounds s
unfolding pull_from member
pull-rounds t c [] s = omega arith
pull-rounds t c (j ∷ js) s =
    omega
      (arith, push-rounds (t + local_gap) (pop c) (record s { busy = update s.busy c dispatching }))

take_signal-rounds :
    (t c : ℕ) (kind : Kind) (s : Sim)
    → all_rounds (take_signal t c kind s) ≤ left (t + 1) + all_rounds s
unfolding take_signal pull log_signal
take_signal-rounds t c kind s = ground (arith, pull-rounds t c s.queue (log_signal t c kind true s))

on_done-rounds : (t c i : ℕ) (s : Sim) → all_rounds (on_done t c i s) ≤ left (t + 1) + all_rounds s
unfolding on_done pull
on_done-rounds t c i s = omega (
  arith,
  pull-rounds t c s.queue
      (record s { busy = update s.busy c free; finished = s.finished ++ (c, i) ∷ [] }),
)

pop_from-rounds :
    (t c : ℕ) (q : List ℕ) (s : Sim) → all_rounds (pop_from t c q s) ≤ left (t + 1) + all_rounds s
unfolding pop_from member arrival
pop_from-rounds t c [] s = omega arith
pop_from-rounds t c (job ∷ q) s = omega (arith, push-rounds _ (done c job) _)

nudged-rounds :
    (t c : ℕ) (s' s : Sim)
    → all_rounds s' ≤ left (t + 1) + all_rounds s
    → all_rounds (push (t + 10000) (nudge c) s')
      ≤ left (t + 10000) * (horizon + 1) + left (t + 1) + all_rounds s
nudged-rounds t c s' s h = omega (arith, push-rounds (t + 10000) (nudge c) s')

on_nudge-rounds :
    (t c : ℕ) (s : Sim)
    → all_rounds (on_nudge t c s) ≤ left (t + 10000) * (horizon + 1) + left (t + 1) + all_rounds s
unfolding on_nudge log_nudge
on_nudge-rounds t c s =
    let waiting = not (is_nil s.queue) in
    let s' : Sim =
      if waiting
      then member t c false nudged s
      else if s.is_free c
      then member t c true nudged s
      else s in
    let noted : Sim = log_nudge t c s s' in
    let poked : Sim = take_signal t c poke noted in
    nudged-rounds t c (if waiting then poked else noted) s (
      ground (
        arith,
        take_signal-rounds t c poke (log_nudge t c s (member t c false nudged s)),
        member-rounds t c false nudged s,
        member-rounds t c true nudged s,
      ))

-- A call that returns leaves at most `n` rounds.
abbrev Leaves : {A : Type 0} → ℕ → Result (Sim × A) → Type 0
Leaves n (raise e) = Unit {0}
Leaves n (ok x) = all_rounds x.0 ≤ n

Leaves-weaken : {A : Type 0} (n m : ℕ) (x : Result (Sim × A)) → n ≤ m → Leaves n x → Leaves m x
Leaves-weaken n m (raise e) h l = tt
Leaves-weaken n m (ok x) h l = omega arith

ok-Leaves :
    {A : Type 0} (n : ℕ) (x : Result (Sim × A)) (r : Sim × A)
    → x ≡ ok r
    → Leaves n x
    → all_rounds r.0 ≤ n
ok-Leaves n (ok y) r g h = let same : y ≡ r = ground arith in rw (← same) h
ok-Leaves n (raise e) r g h = absurd (cc)

-- Each wake has its pick.
spop-Leaves :
    (t job : ℕ) (s : Sim) (picks : List ℕ)
    → s.picks ≡ picks
    → Leaves (all_rounds s) (spop_from t job s picks)
unfolding spop_from member
spop-Leaves t job s [] e = tt
spop-Leaves t job s (c ∷ picks) e = elim (Bool-cases (elem c s.idle)) [
  | inl m ↦ rw m (
      omega (
        arith,
        total-heappush entry_rounds
            (record {
              time = arrival t (plen (wake_route c)) wake_v;
              order = s.seq;
              event = signal c wake;
            })
            s.ev,
        ap (length {A = ℕ}) e,
      ))
  | inr m ↦ rw m tt
]

wake_loop-Leaves :
    (k t job : ℕ) (woken : List ℕ) (s : Sim) → Leaves (all_rounds s) (wake_loop k t job woken s)
unfolding wake_loop
wake_loop-Leaves zero t job woken s = omega arith
wake_loop-Leaves (suc k) t job woken s = elim (Bool-cases (is_nil s.idle)) [
  | inl e ↦ rw e (omega arith)
  | inr e ↦ rw e (elim (Result-cases (spop_from t job s s.picks)) [
    | inl (z, g) ↦ rw g tt
    | inr (x, g) ↦ rw g (
        Leaves-weaken (all_rounds x.0) (all_rounds s) _
          (ok-Leaves (all_rounds s) _ x g (spop-Leaves t job s s.picks refl))
          (wake_loop-Leaves k t job (woken ++ x.1 ∷ []) x.0))
  ])
]

on_enqueue-rounds :
    (t job : ℕ) (s r : Sim) → on_enqueue t job s ≡ ok r → all_rounds r ≤ all_rounds s
unfolding on_enqueue
on_enqueue-rounds t job s r g =
    let s' : Sim = record s { queue = s.queue ++ job ∷ []; enqueued = s.enqueued ++ job ∷ [] } in
    let n = length s'.queue in
    let (x, f, h) =
      >>=-eq-ok (wake_loop n t job [] s')
        (λ x. ok (record (x.0) { enq_log = x.0.enq_log ++ (t, job, n, x.1, s.idle) ∷ [] })) g in
    let same : ◌≡◌ {A = Sim}
        (record (x.0) { enq_log = x.0.enq_log ++ (t, job, n, x.1, s.idle) ∷ [] }) r =
      ground arith in
    rw (← same) (ok-Leaves (all_rounds s) _ x f (wake_loop-Leaves n t job [] s'))

-- Each handling within the horizon leaves fewer rounds than there were with its event.
handle-rounds :
    (t : ℕ) (e : Event) (s r : Sim)
    → t ≤ horizon
    → handle t e s ≡ ok r
    → all_rounds r < rounds t e + all_rounds s
unfolding handle
handle-rounds t (enqueue job) s r h g = omega (arith, on_enqueue-rounds t job s r g)
handle-rounds t (nudge c) s r h g =
    let same : on_nudge t c s ≡ r = ground arith in
    rw (← same) (omega (arith, on_nudge-rounds t c s))
handle-rounds t (signal c kind) s r h g =
    let same : take_signal t c kind s ≡ r = ground arith in
    rw (← same) (omega (arith, take_signal-rounds t c kind s))
handle-rounds t (pop c) s r h g =
    let same : pop_from t c s.queue s ≡ r = ground arith in
    rw (← same) (omega (arith, pop_from-rounds t c s.queue s))
handle-rounds t (done c i) s r h g =
    let same : on_done t c i s ≡ r = ground arith in
    rw (← same) (omega (arith, on_done-rounds t c i s))

-- What the loop is to do from a state: to end when no event is left, or at the first one past the horizon, which is
-- taken off the heap; to raise what the handling of the first one raises; or to go on from where it leads.
pub data Runs : Sim → Result Sim → Type 0 where
  drained : (s : Sim) → s.ev ≡ [] → Runs s (ok s)
  beyond :
      (s : Sim) (x : Entry Event) (ev : List (Entry Event))
      → s.ev ≡ x ∷ ev
      → horizon < x.time
      → Runs s (ok (record s { ev = ev }))
  raised :
      (s : Sim) (x : Entry Event) (ev : List (Entry Event)) (z : Error)
      → s.ev ≡ x ∷ ev
      → x.time ≤ horizon
      → handle x.time x.event (record s { ev = ev }) ≡ raise z
      → Runs s (raise z)
  next :
      (s r : Sim) (x : Entry Event) (ev : List (Entry Event)) (out : Result Sim)
      → s.ev ≡ x ∷ ev
      → x.time ≤ horizon
      → handle x.time x.event (record s { ev = ev }) ≡ ok r
      → Runs (log_state x.time x.event s.queue r) out
      → Runs s out

-- A call that is not out of fuel, and does what the loop is to do.
abbrev pub IsOver : Sim → Result (Option Sim) → Type 0
IsOver s (raise z) = Runs s (raise z)
IsOver s (ok none) = ⊥
IsOver s (ok (some r)) = Runs s (ok r)

next-IsOver :
    (s r : Sim) (x : Entry Event) (ev : List (Entry Event)) (out : Result (Option Sim))
    → s.ev ≡ x ∷ ev
    → x.time ≤ horizon
    → handle x.time x.event (record s { ev = ev }) ≡ ok r
    → IsOver (log_state x.time x.event s.queue r) out
    → IsOver s out
next-IsOver s r x ev (raise z) e h g o = next s r x ev (raise z) e h g o
next-IsOver s r x ev (ok none) e h g o = o
next-IsOver s r x ev (ok (some u)) e h g o = next s r x ev (ok u) e h g o

loop_from-IsOver :
    (again : Sim → Result (Option Sim)) (k : ℕ) (s : Sim) (ev : List (Entry Event))
    → ((r : Sim) → all_rounds r < k → IsOver r (again r))
    → s.ev ≡ ev
    → all_rounds s < suc k
    → IsOver s (loop_from again s ev)
unfolding loop_from
loop_from-IsOver again k s [] ih e h = drained s e
loop_from-IsOver again k s (x ∷ ev) ih e h = elim (Bool-cases (ltb horizon x.time)) [
  | inl late ↦ rw late (beyond s x ev e (ltb→lt _ _ late))
  | inr early ↦
      let s' : Sim = record s { ev = ev } in
      let in_time : x.time ≤ horizon = ltb→le _ _ early in
      rw early (elim (Result-cases (handle x.time x.event s')) [
        | inl (z, g) ↦ rw g (raised s x ev z e in_time g)
        | inr (r, g) ↦ rw g (
            next-IsOver s r x ev (again (log_state x.time x.event s.queue r)) e in_time g (
              ih (log_state x.time x.event s.queue r) (
                unfold log_state in
                omega
                  (arith, handle-rounds x.time x.event s' r in_time g, ap (total entry_rounds) e))))
      ])
]

-- A run from any state, with more fuel than the rounds of the events that wait, comes to its end: handling the
-- events one by one, it returns the state in which none is left, or the one at the first event past the
-- horizon, or it raises what the handling of an event raises. A nudge counts the time to the horizon
-- times the whole, every other event the time to the horizon, and each pick of SPOP that is left the whole.
pub loop-IsOver : (k : ℕ) (s : Sim) → all_rounds s < k → IsOver s (loop k s)
unfolding loop
loop-IsOver zero s h = absurd (omega arith)
loop-IsOver (suc k) s h = loop_from-IsOver (loop k) k s s.ev (λ r l. loop-IsOver k r l) refl h
