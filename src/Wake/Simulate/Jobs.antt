-- ===== src/Wake/Simulate/Jobs.antt =====
-- assets/diagrams/gen/gen_wake.py, simulate: what holds between two events of any run.
use mathlib.Core.List.{append_assoc, map-append}
use redisq.Base.{
  ℕ, zero, suc, ◌<◌, ◌+◌, ◌≡◌, refl, sym, ap, subst, ◌∙◌, inl, inr, true, false, not, Option, some,
  List, [], ◌∷◌, ◌++◌, map, arith, ltb, ltb→lt, Bool-cases, elem, length, Result, ok, raise, assert,
  >>=-eq-ok, append-cons,
}
use redisq.Base.Heapq.{Entry}
use redisq.Wake.Simulate.{
  Sim, Event, enqueue, nudge, pop, signal, done, free, running, wake, poke, nudged, spop, log_nudge,
  log_state, push, handle, update, is_nil, arrival, plen, pop_route, pop_v, work, wake_route,
  wake_v, on_enqueue, on_nudge, pop_from, on_done, wake_loop, spop_from, member, loop, loop_from,
  horizon,
}
use redisq.Wake.Simulate.Invariant.{
  pops, dones, tally-append, Holds, push-pops, push-dones, push_other, member-Holds, logged-Holds,
  pull-Holds, take_signal-Holds,
}

-- The event that the rest of the heap stands for: none in hand.
abbrev pub none_in_hand : Event
none_in_hand = nudge 0

on_nudge-Holds : (t c : ℕ) (s : Sim) → Holds (nudge c) s → Holds none_in_hand (on_nudge t c s)
unfolding on_nudge log_nudge
on_nudge-Holds t c s h =
    let h0 : Holds none_in_hand s = record {
      fifo = h.fifo;
      popping = h.popping;
      ending = h.ending;
      done_once = h.done_once;
      found_work = h.found_work;
    } in
    elim (Bool-cases (not (is_nil s.queue))) [
      | inl w ↦ rw w (
          push_other none_in_hand (nudge c) _ _ (λ d. refl) (λ d j. refl)
            (take_signal-Holds none_in_hand t c poke _ (
              logged-Holds (member t c false nudged s) _ refl
                (member-Holds none_in_hand t c false nudged s h0))))
      | inr w ↦ rw w (
          push_other none_in_hand (nudge c) _ _ (λ d. refl) (λ d j. refl)
            (elim (Bool-cases (s.is_free c)) [
              | inl f ↦ rw f (
                  logged-Holds (member t c true nudged s) _ refl
                    (member-Holds none_in_hand t c true nudged s h0))
              | inr f ↦ rw f (logged-Holds s _ refl h0)
            ]))
    ]

pop_from-Holds :
    (t c : ℕ) (q : List ℕ) (s : Sim)
    → s.queue ≡ q
    → Holds (pop c) s
    → Holds none_in_hand (pop_from t c q s)
unfolding pop_from
pop_from-Holds t c [] s e h = record {
  fifo = h.fifo;
  popping = λ d. ground (arith, h.popping d);
  ending = λ d j. ground (arith, h.ending d j, h.popping d);
  done_once = λ d j. ground (arith, h.done_once d j, h.popping d);
  found_work = λ d j r. ground (arith, h.found_work d j);
}
pop_from-Holds t c (i ∷ q) s e h =
    let end = arrival t (plen (pop_route c)) pop_v + work in
    let s' : Sim = record s {
      queue = q;
      is_free = update s.is_free c false;
      busy = update s.busy c (running i);
      popped = s.popped ++ (c, i) ∷ [];
      pop_log = s.pop_log ++ (t, c, i, arrival t (plen (pop_route c)) pop_v) ∷ [];
      run_log = s.run_log ++ (c, i, arrival t (plen (pop_route c)) pop_v, end) ∷ [];
    } in
    record {
      fifo = rw (map-append, append-cons) (ap (λ l. map (λ p. p.1) s.popped ++ l) (sym e) ∙ h.fifo);
      popping = λ d. ground (arith, push-pops d end (done c i) s', h.popping d);
      ending = λ d j. ground (arith, push-dones d j end (done c i) s', h.ending d j, h.popping d);
      done_once = λ d j.
          ground (arith, tally-append d j s.popped ((c, i) ∷ []), h.done_once d j, h.popping d);
      found_work = λ d j r. ground (arith, h.found_work d j);
    }

on_done-Holds : (t c i : ℕ) (s : Sim) → Holds (done c i) s → Holds none_in_hand (on_done t c i s)
unfolding on_done
on_done-Holds t c i s h =
    let s' : Sim = record s { busy = update s.busy c free; finished = s.finished ++ (c, i) ∷ [] } in
    pull-Holds none_in_hand t c s.queue s' (ground arith) (record {
      fifo = h.fifo;
      popping = λ d. ground (arith, h.popping d, h.ending d i);
      ending = λ d j. ground (arith, h.ending d j, h.ending d i);
      done_once = λ d j. ground (
        arith,
        tally-append d j s.finished ((c, i) ∷ []),
        h.done_once d j,
        h.ending d i,
        h.ending d j,
      );
      found_work = λ d j r. ground (arith, h.found_work d j);
    })

abbrev StateHolds : {A : Type 0} → Event → Result (Sim × A) → Type 0
StateHolds e (ok x) = Holds e x.0
StateHolds e (raise x) = Unit {0}

spop-Holds :
    (e : Event) (t job : ℕ) (s : Sim) (picks : List ℕ) (x : Sim × ℕ)
    → spop_from t job s picks ≡ ok x
    → Holds e s
    → Holds e x.0
unfolding spop_from
spop-Holds e t job s [] x g h = cc
spop-Holds e t job s (c ∷ picks) x g h =
    let s' = member t c false spop (record s { picks = picks }) in
    let arrive = arrival t (plen (wake_route c)) wake_v in
    let s'' : Sim = record s' { wakes = s'.wakes ++ (t, c, arrive, job) ∷ [] } in
    let kept : Holds e s'' = record {
      fifo = h.fifo;
      popping = h.popping;
      ending = h.ending;
      done_once = h.done_once;
      found_work = h.found_work;
    } in
    let (u, _, eq) =
      >>=-eq-ok (assert (elem c s.idle)) (λ _. ok (push arrive (signal c wake) s'', c)) g in
    subst (λ (y : Result (Sim × ℕ)). StateHolds e y) eq
      (push_other e (signal c wake) arrive s'' (λ d. refl) (λ d j. refl) kept)

wake_loop-Holds :
    (e : Event) (k t job : ℕ) (woken : List ℕ) (s : Sim) (x : Sim × List ℕ)
    → wake_loop k t job woken s ≡ ok x
    → Holds e s
    → Holds e x.0
unfolding wake_loop
wake_loop-Holds e zero t job woken s x g h =
    subst (λ (y : Result (Sim × List ℕ)). StateHolds e y) g h
wake_loop-Holds e (suc k) t job woken s x g h = elim (Bool-cases (is_nil s.idle)) [
  | inl n ↦ subst (λ (y : Result (Sim × List ℕ)). StateHolds e y) (rw n at g) h
  | inr n ↦
      let (y, f, r) =
        >>=-eq-ok (spop_from t job s s.picks) (λ x. wake_loop k t job (woken ++ x.1 ∷ []) x.0)
          (rw n at g) in
      wake_loop-Holds e k t job (woken ++ y.1 ∷ []) y.0 x r (spop-Holds e t job s s.picks y f h)
]

abbrev SimHolds : Result Sim → Type 0
SimHolds (ok s) = Holds none_in_hand s
SimHolds (raise x) = Unit {0}

on_enqueue-Holds :
    (t job : ℕ) (s r : Sim)
    → on_enqueue t job s ≡ ok r
    → Holds (enqueue job) s
    → Holds none_in_hand r
unfolding on_enqueue
on_enqueue-Holds t job s r g h =
    let s' : Sim = record s { queue = s.queue ++ job ∷ []; enqueued = s.enqueued ++ job ∷ [] } in
    let h' : Holds none_in_hand s' = record {
      fifo =
          sym (append_assoc (map (λ p. p.1) s.popped) s.queue (job ∷ []))
          ∙ ap (λ l. l ++ job ∷ []) h.fifo;
      popping = h.popping;
      ending = h.ending;
      done_once = h.done_once;
      found_work = h.found_work;
    } in
    let (y, f, e) =
      >>=-eq-ok (wake_loop (length s'.queue) t job [] s')
        (λ x.
          ok
            (record (x.0) { enq_log = x.0.enq_log ++ (t, job, length s'.queue, x.1, s.idle) ∷ [] }))
        g in
    let w = wake_loop-Holds none_in_hand (length s'.queue) t job [] s' y f h' in
    subst (λ (y : Result Sim). SimHolds y) e
      (record {
        fifo = w.fifo;
        popping = w.popping;
        ending = w.ending;
        done_once = w.done_once;
        found_work = w.found_work;
      })

-- The invariant is: jobs leave the queue in the order in which they were enqueued; a pop is on its way
-- exactly for each consumer that dispatches, and the end of a job exactly for the consumer that runs it;
-- what a consumer popped it has done, each job as often, but for the one that it runs; and a consumer that
-- runs a job counts as one whose last look found work. Handling an event that has left the heap keeps it,
-- whatever the event and the time, if the handling does not raise.
pub handle-Holds :
    (t : ℕ) (e : Event) (s r : Sim) → handle t e s ≡ ok r → Holds e s → Holds none_in_hand r
unfolding handle
handle-Holds t (enqueue job) s r g h = on_enqueue-Holds t job s r g h
handle-Holds t (nudge c) s r g h =
    subst (Holds none_in_hand) (ground arith) (on_nudge-Holds t c s h)
handle-Holds t (signal c kind) s r g h = subst (Holds none_in_hand) (ground arith) (
    take_signal-Holds none_in_hand t c kind s (record {
      fifo = h.fifo;
      popping = h.popping;
      ending = h.ending;
      done_once = h.done_once;
      found_work = h.found_work;
    }))
handle-Holds t (pop c) s r g h =
    subst (Holds none_in_hand) (ground arith) (pop_from-Holds t c s.queue s refl h)
handle-Holds t (done c i) s r g h =
    subst (Holds none_in_hand) (ground arith) (on_done-Holds t c i s h)

popped-Holds :
    (s : Sim) (x : Entry Event) (ev : List (Entry Event))
    → s.ev ≡ x ∷ ev
    → Holds none_in_hand s
    → Holds x.event (record s { ev = ev })
popped-Holds s x ev e h = record {
  fifo = h.fifo;
  popping = λ c. omega (arith, h.popping c, ap (pops c) e);
  ending = λ c j. omega (arith, h.ending c j, ap (dones c j) e);
  done_once = h.done_once;
  found_work = h.found_work;
}

-- How a run ends: with the heap empty and the invariant, or at an event past the horizon, with the
-- invariant for that event.
pub data Ends (r : Sim) : Type 0 where
  drained : r.ev ≡ [] → Holds none_in_hand r → Ends r
  past : (x : Entry Event) → horizon < x.time → Holds x.event r → Ends r

loop_from-Ends :
    (again : Sim → Result (Option Sim)) (s r : Sim) (ev : List (Entry Event))
    → ((s' : Sim) → again s' ≡ ok (some r) → Holds none_in_hand s' → Ends r)
    → s.ev ≡ ev
    → loop_from again s ev ≡ ok (some r)
    → Holds none_in_hand s
    → Ends r
unfolding loop_from log_state
loop_from-Ends again s r [] ih e g h = subst Ends (ground arith) (drained e h)
loop_from-Ends again s r (x ∷ ev) ih e g h = elim (Bool-cases (ltb horizon x.time)) [
  | inl late ↦ subst Ends (ground arith) (past x (ltb→lt _ _ late) (popped-Holds s x ev e h))
  | inr early ↦
      let (s', f, g') =
        >>=-eq-ok (handle x.time x.event (record s { ev = ev }))
          (λ r. again (log_state x.time x.event s.queue r)) (rw early at g) in
      ih (log_state x.time x.event s.queue s') g' (
        logged-Holds s' _ refl
          (handle-Holds x.time x.event (record s { ev = ev }) s' f (popped-Holds s x ev e h)))
]

-- A run from any state where the invariant of `Holds` holds, if it does not raise and its fuel is enough,
-- ends with the heap empty and the invariant, or at an event past the horizon, with the invariant for that
-- event.
pub loop-Ends : (k : ℕ) (s r : Sim) → loop k s ≡ ok (some r) → Holds none_in_hand s → Ends r
unfolding loop
loop-Ends zero s r g h = cc
loop-Ends (suc k) s r g h =
    loop_from-Ends (loop k) s r s.ev (λ s' e i. loop-Ends k s' r e i) refl g h
