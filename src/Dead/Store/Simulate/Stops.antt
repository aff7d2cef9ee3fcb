-- ===== src/Dead/Store/Simulate/Stops.antt =====
-- gen_dead.py, simulate: every run comes to its end. An event is weighed by the rounds that it and the
-- events that it starts can take: a sweep may start a wake, a wake two pops, and a pop an acknowledgment.
use redisq.Base.{
  ℕ, zero, suc, ◌+◌, ◌-◌, ◌*◌, ◌≤◌, ◌<◌, ◌≡◌, min, refl, inl, inr, Bool, true, false, Option, none,
  some, List, [], ◌∷◌, arith, leb, length, Bool-cases, Result, ok, raise, assert, or_raise,
  type_error, ◌>>=◌, ◌>>◌, Result-cases, ap, ◌++◌, elem,
}
use redisq.Base.Dict
use redisq.Base.Sort.{sorted, total}
use redisq.Base.Heapq.{Entry, total-heappush}
use redisq.Dead.Store.{Redis, AckId, AckId-discrete, Swept, pop_one, tick, wake}
use redisq.Dead.Store.Simulate.{
  Sim, Event, kill, sweep, wake_up, pop, acknowledge, time_of, push, on_kill, after_sweep, conc,
  after_wake, on_sweep, on_wake, push_pops, on_pop, on_ack, handle, loop_from, loop, work, woke,
  popped, in_pending,
}

abbrev rounds : Event → ℕ
rounds (kill m) = 1
rounds (sweep me) = 6
rounds (wake_up n) = 5
rounds (pop owner) = 2
rounds (acknowledge aid) = 1

abbrev pub all_rounds : Sim → ℕ
all_rounds s = total (λ e. rounds e.event) s.ev

-- A handling that returns leaves at most `n` rounds.
abbrev Leaves : ℕ → Result Sim → Type 0
Leaves n (raise e) = Unit {0}
Leaves n (ok s) = all_rounds s ≤ n

ok-Leaves : (n : ℕ) (x : Result Sim) (r : Sim) → x ≡ ok r → Leaves n x → all_rounds r < suc n
ok-Leaves n (ok y) r g h = let same : y ≡ r = ground arith in rw (← same) (omega arith)
ok-Leaves n (raise e) r g h = absurd (cc)

push-rounds : (t : ℕ) (e : Event) (s : Sim) → all_rounds (push t e s) ≡ rounds e + all_rounds s
unfolding push
push-rounds t e s = total-heappush _ _ s.ev

push_pops-rounds : (t i k : ℕ) (s : Sim) → all_rounds (push_pops t i k s) ≡ 2 * k + all_rounds s
unfolding push_pops
push_pops-rounds t i zero s = omega arith
push_pops-rounds t i (suc k) s = omega (
  arith,
  push_pops-rounds t (i + 1) k (push (t + 5 * (i + 1)) (pop 1) s),
  push-rounds (t + 5 * (i + 1)) (pop 1) s,
)

after_sweep-rounds :
    (t me : ℕ) (s : Sim) (x : Swept) → all_rounds (after_sweep t me s x) ≤ 5 + all_rounds s
unfolding after_sweep push
after_sweep-rounds t me s (r, n, ticked, notes) = ground (
  arith,
  total-heappush (λ (x : Entry Event). rounds x.event)
      (record { time = t + 5; order = s.seq; event = wake_up n }) s.ev,
)

swept-Leaves :
    (t me : ℕ) (s : Sim) (x : Result Swept)
    → Leaves (5 + all_rounds s) (x >>= λ y. ok (after_sweep t me s y))
swept-Leaves t me s (raise e) = tt
swept-Leaves t me s (ok x) = after_sweep-rounds t me s x

on_sweep-Leaves : (t me : ℕ) (s : Sim) → Leaves (5 + all_rounds s) (on_sweep t me s)
unfolding on_sweep
on_sweep-Leaves t me s = elim (Bool-cases (elem me s.alive)) [
  | inl e ↦ rw e (swept-Leaves t me s (tick s.redis me (time_of t)))
  | inr e ↦ rw e (omega arith)
]

after_wake-rounds :
    (t n : ℕ) (members : List ℕ) (s : Sim) (w : Redis × List ℕ)
    → all_rounds (after_wake t n members s w) ≤ 4 + all_rounds s
unfolding after_wake
after_wake-rounds t n members s w =
    let s' : Sim = record s { redis = w.0; log = s.log ++ (time_of t, woke n w.1 members) ∷ [] } in
    omega (arith, push_pops-rounds t 0 (min (conc - length s.busy) (length w.0.lst)) s')

asserted-Leaves : (n : ℕ) (b : Bool) (s : Sim) → all_rounds s ≤ n → Leaves n (assert b >> ok s)
asserted-Leaves n true s h = h
asserted-Leaves n false s h = tt

on_wake-Leaves : (t n : ℕ) (s : Sim) → Leaves (4 + all_rounds s) (on_wake t n s)
unfolding on_wake
on_wake-Leaves t n s =
    let members = sorted leb s.redis.idle in
    asserted-Leaves (4 + all_rounds s) _ _
      (after_wake-rounds t n members s (wake s.redis n members))

popped-Leaves :
    (t : ℕ) (s : Sim) (r : Redis) (got : Option (AckId × ℕ))
    → Leaves (1 + all_rounds s) (
        or_raise type_error got >>= λ x. ok (
          push (t + work) (acknowledge x.0) (record s {
            redis = r;
            busy = Dict.insert AckId-discrete x.0 x.1 s.busy;
            places = s.places ++ (x.1, time_of t, in_pending 1) ∷ [];
            log = s.log ++ (time_of t, popped x.1 x.0) ∷ [];
          })))
unfolding push
popped-Leaves t s r none = tt
popped-Leaves t s r (some x) = omega (
  arith,
  total-heappush (λ (x : Entry Event). rounds x.event)
      (record { time = t + work; order = s.seq; event = acknowledge x.0 }) s.ev,
)

on_pop-Leaves : (t m : ℕ) (s : Sim) → Leaves (1 + all_rounds s) (on_pop t m s)
unfolding on_pop
on_pop-Leaves t m s = let r = pop_one s.redis m (time_of t) in popped-Leaves t s r.0 r.1

on_ack-Leaves : (t : ℕ) (a : AckId) (s : Sim) → Leaves (all_rounds s) (on_ack t a s)
unfolding on_ack
on_ack-Leaves t a s = ground arith

-- Each handling leaves fewer rounds than there were with its event.
handle-Leaves :
    (row_a : Bool) (t : ℕ) (e : Event) (s r : Sim)
    → handle row_a t e s ≡ ok r
    → all_rounds r < rounds e + all_rounds s
unfolding handle on_kill
handle-Leaves row_a t (kill m) s r g =
    omega (arith, ok-Leaves (all_rounds s) (ok (on_kill row_a t m s)) r g (omega arith))
handle-Leaves row_a t (sweep me) s r g =
    omega (arith, ok-Leaves (5 + all_rounds s) (on_sweep t me s) r g (on_sweep-Leaves t me s))
handle-Leaves row_a t (wake_up n) s r g =
    omega (arith, ok-Leaves (4 + all_rounds s) (on_wake t n s) r g (on_wake-Leaves t n s))
handle-Leaves row_a t (pop m) s r g =
    omega (arith, ok-Leaves (1 + all_rounds s) (on_pop t m s) r g (on_pop-Leaves t m s))
handle-Leaves row_a t (acknowledge a) s r g =
    omega (arith, ok-Leaves (all_rounds s) (on_ack t a s) r g (on_ack-Leaves t a s))

-- How a run stops: by an exception, or with no event left; `none` is a run out of fuel.
abbrev pub Stops : Result (Option Sim) → Type 0
Stops (raise e) = Unit {0}
Stops (ok none) = ⊥
Stops (ok (some s)) = s.ev ≡ []

loop_from-Stops :
    (again : Sim → Result (Option Sim)) (row_a : Bool) (k : ℕ) (s : Sim) (ev : List (Entry Event))
    → ((r : Sim) → all_rounds r < k → Stops (again r))
    → s.ev ≡ ev
    → all_rounds s < suc k
    → Stops (loop_from again row_a s ev)
unfolding loop_from
loop_from-Stops again row_a k s [] ih e h = e
loop_from-Stops again row_a k s (x ∷ ev) ih e h =
    let s' : Sim = record s { ev = ev } in
    elim (Result-cases (handle row_a x.time x.event s')) [
      | inl (z, g) ↦ rw g tt
      | inr (r, g) ↦ rw g (
          ih r (
            omega (
              arith,
              handle-Leaves row_a x.time x.event s' r g,
              ap (total (λ (x : Entry Event). rounds x.event)) e,
            )))
    ]

-- A run from any state, with more fuel than the rounds of the events that wait, comes to its end: it
-- raises, or it handles every event. A sweep counts 6, a wake 5, a pop 2, every other event 1.
pub loop-Stops : (row_a : Bool) (k : ℕ) (s : Sim) → all_rounds s < k → Stops (loop row_a k s)
unfolding loop
loop-Stops row_a zero s h = absurd (omega arith)
loop-Stops row_a (suc k) s h =
    loop_from-Stops (loop row_a k) row_a k s s.ev (λ r l. loop-Stops row_a k r l) refl h
