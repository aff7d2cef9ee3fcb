-- ===== src/Wake/Simulate/Invariant.antt =====
-- gen_wake.py, simulate: what holds of the jobs between the events, and the steps that keep it.
use redisq.Base.{
  ℕ, ◌+◌, ◌≡◌, refl, sym, subst, inl, inr, Bool, true, false, ◌&&◌, List, [], ◌∷◌, ◌++◌, map, arith,
  ◌==◌, if◌then◌else◌, Bool-cases,
}
use redisq.Base.Sort.{total}
use redisq.Base.Heapq.{Entry, total-heappush}
use redisq.Wake.Simulate.{
  Sim, Event, Busy, enqueue, nudge, pop, signal, done, free, dispatching, running, push, pull,
  take_signal, pull_from, update, local_gap, is_idle, member, Why, Kind, log_signal,
}

-- Whether an event is a pop by `c`, or the end of job `j` at `c`.
abbrev pop_of : ℕ → Event → ℕ
pop_of c (pop d) = if d == c then 1 else 0
pop_of c (enqueue j) = 0
pop_of c (nudge d) = 0
pop_of c (signal d k) = 0
pop_of c (done d j) = 0

abbrev done_of : ℕ → ℕ → Event → ℕ
done_of c j (done d i) = if d == c && i == j then 1 else 0
done_of c j (enqueue i) = 0
done_of c j (nudge d) = 0
done_of c j (signal d k) = 0
done_of c j (pop d) = 0

abbrev pub pops : ℕ → List (Entry Event) → ℕ
pops c = total (λ x. pop_of c x.event)

abbrev pub dones : ℕ → ℕ → List (Entry Event) → ℕ
dones c j = total (λ x. done_of c j x.event)

abbrev pub dispatches : Busy → ℕ
dispatches dispatching = 1
dispatches free = 0
dispatches (running j) = 0

abbrev pub runs : ℕ → Busy → ℕ
runs j (running i) = if i == j then 1 else 0
runs j free = 0
runs j dispatching = 0

-- How often job `j` stands under consumer `c` in a log.
abbrev pub tally : ℕ → ℕ → List (ℕ × ℕ) → ℕ
tally c j [] = 0
tally c j ((d, i) ∷ l) = (if d == c && i == j then 1 else 0) + tally c j l

pub tally-append :
    (c j : ℕ) (xs ys : List (ℕ × ℕ)) → tally c j (xs ++ ys) ≡ tally c j xs + tally c j ys
tally-append c j [] ys = omega arith
tally-append c j (x ∷ xs) ys = omega (arith, tally-append c j xs ys)

-- The invariant; `e` is the event that is being handled, which has left the heap.
pub record Holds (e : Event) (s : Sim) : Type 0 where
  -- jobs leave the queue in the order in which they were enqueued
  pub fifo : map (λ p. p.1) s.popped ++ s.queue ≡ s.enqueued
  -- a pop is on its way exactly for a consumer that dispatches
  pub popping : (c : ℕ) → pop_of c e + pops c s.ev ≡ dispatches (s.busy c)
  -- the end of a job is on its way exactly for the consumer that runs it
  pub ending : (c j : ℕ) → done_of c j e + dones c j s.ev ≡ runs j (s.busy c)
  -- what a consumer popped it has done, but for the job that it runs
  pub done_once : (c j : ℕ) → tally c j s.finished + runs j (s.busy c) ≡ tally c j s.popped
  -- a consumer that runs a job counts as one whose last look found work
  pub found_work : (c j : ℕ) → runs j (s.busy c) ≡ 1 → s.is_free c ≡ false

pub push-pops : (c t : ℕ) (e : Event) (s : Sim) → pops c (push t e s).ev ≡ pop_of c e + pops c s.ev
unfolding push
push-pops c t e s = total-heappush _ _ s.ev

pub push-dones :
    (c j t : ℕ) (e : Event) (s : Sim) → dones c j (push t e s).ev ≡ done_of c j e + dones c j s.ev
unfolding push
push-dones c j t e s = total-heappush _ _ s.ev

-- An event that is neither is pushed.
pub push_other :
    (e x : Event) (t : ℕ) (s : Sim)
    → ((c : ℕ) → pop_of c x ≡ 0)
    → ((c j : ℕ) → done_of c j x ≡ 0)
    → Holds e s
    → Holds e (push t x s)
unfolding push
push_other e x t s p d h = record {
  fifo = h.fifo;
  popping = λ c. omega (arith, push-pops c t x s, p c, h.popping c);
  ending = λ c j. omega (arith, push-dones c j t x s, d c j, h.ending c j);
  done_once = h.done_once;
  found_work = h.found_work;
}

-- The invariant does not read the logs of nudges, signals and states.
pub logged-Holds :
    {e : Event} (s : Sim) (r : Sim)
    → r ≡ record s {
      nudge_log = r.nudge_log;
      signal_log = r.signal_log;
      stay_log = r.stay_log;
      state_log = r.state_log;
    }
    → Holds e s
    → Holds e r
logged-Holds {e} s r same h = subst (Holds e) (sym same) (record {
  fifo = h.fifo;
  popping = h.popping;
  ending = h.ending;
  done_once = h.done_once;
  found_work = h.found_work;
})

pub member-Holds :
    (e : Event) (t c : ℕ) (b : Bool) (why : Why) (s : Sim)
    → Holds e s
    → Holds e (member t c b why s)
unfolding member
member-Holds e t c b why s h = record {
  fifo = h.fifo;
  popping = h.popping;
  ending = h.ending;
  done_once = h.done_once;
  found_work = h.found_work;
}

-- A consumer that neither runs nor dispatches is marked free, or dispatches.
pub pull-Holds :
    (x : Event) (t c : ℕ) (q : List ℕ) (s : Sim)
    → s.busy c ≡ free
    → Holds x s
    → Holds x (pull_from t c q s)
unfolding pull_from
pull-Holds x t c [] s b h = record {
  fifo = h.fifo;
  popping = h.popping;
  ending = h.ending;
  done_once = h.done_once;
  found_work = λ d j r. ground (arith, h.found_work d j);
}
pull-Holds x t c (i ∷ q) s b h =
    let s' : Sim = record s { busy = update s.busy c dispatching } in
    record {
      fifo = h.fifo;
      popping = λ d. ground (arith, push-pops d (t + local_gap) (pop c) s', h.popping d);
      ending = λ d j. ground (arith, push-dones d j (t + local_gap) (pop c) s', h.ending d j);
      done_once = λ d j. ground (arith, h.done_once d j);
      found_work = λ d j r. ground (arith, h.found_work d j);
    }

pub take_signal-Holds :
    (x : Event) (t c : ℕ) (kind : Kind) (s : Sim) → Holds x s → Holds x (take_signal t c kind s)
unfolding take_signal pull log_signal
take_signal-Holds x t c kind s h = elim (Bool-cases (is_idle (s.busy c))) [
  | inl e ↦ rw e (
      pull-Holds x t c s.queue (log_signal t c kind true s) (free_of (s.busy c) e)
        (logged-Holds s (log_signal t c kind true s) refl h))
  | inr e ↦ rw e (logged-Holds s (log_signal t c kind false s) refl h)
]
  where
    free_of : (b : Busy) → is_idle b ≡ true → b ≡ free
    free_of free e = refl
    free_of dispatching e = cc
    free_of (running j) e = cc
