-- ===== src/Close/Sim/Keeps.antt =====
-- gen_close.py, class Sim: what handling an event keeps of the jobs, the capacity and the closed consumers.
pub mod Quiet
pub mod Jobs
pub mod Whole
use redisq.Base.{
  ℕ, suc, ◌+◌, ◌-◌, ◌*◌, ◌≤◌, ◌≡◌, refl, ap, ◌∙◌, sym, inl, inr, Bool, true, false, ◌&&◌, not,
  Option, none, some, List, [], ◌∷◌, ◌++◌, arith, ltb, leb, ◌==◌, if◌then◌else◌, Bool-cases,
  Result-cases, elem, ite, subst, set, map, length, get_elem?, Result, ok, raise, ◌>>=◌, ◌>>◌,
  >>=-eq-ok, assert, or_raise, key_error, index_error, ℕ_discrete,
}
use redisq.Base.Dict
use redisq.Base.Dict.{occurs}
use redisq.Base.Heapq.{Entry, total-heappush}
use redisq.Close.State.{
  Sim, Consumer, Held, Run, Why, Event, Place, enqueue, push, wake_arrive, nudge, subscribe, close,
  release, exit, loop, release_wake, job_ends, conc, slot_x, at, set_consumer, busy_down, len, wake,
  is_nil, in_list, horizon, sadd, subscribing, update, exit_after, srem, leaving, nudging,
  leave_time, rel_time, is_done, enq_fly, by_wake, by_nudge, by_job_end,
}
use redisq.Close.Jobs.{
  in_hand, occurs_present, brings, coming, acked, Moves, Moves-trans, MovesTo, after-MovesTo,
  then-MovesTo, bind-MovesTo, if-MovesTo, ok-Moves, same-Moves,
}
use redisq.Close.Jobs.Steps.{
  set_consumer-Moves, at-Moves, sadd-Moves, srem-Moves, busy_down-MovesTo, len-Moves, WakesTo,
  wake-WakesTo,
}
use redisq.Close.Sim.Release.{on_release-Moves}
use redisq.Close.Pull.{pull_loop, signal}
use redisq.Close.Pull.Moves.{pull_loop-MovesTo, signal-MovesTo}
use redisq.Close.Sim.{
  on_push, on_nudge, on_subscribe, on_close, on_release, on_release_wake, on_exit, on_job_end,
  cut_runs, settle, acknowledge, finish_job, end_job, end_run, handle,
}

-- Where a job can be: on its way into the list, in the list or pending, or acknowledged.
abbrev pub all_jobs : ℕ → Sim → ℕ
all_jobs j s = coming j s.ev + in_hand j s + acked j s.acks

-- How often consumer `m` acknowledged.
abbrev pub acked_by : ℕ → List (ℕ × ℕ × ℕ) → ℕ
acked_by m [] = 0
acked_by m ((t, i, j) ∷ l) = ite (ℕ_discrete i m) 1 0 + acked_by m l

-- What handling `e` keeps: the jobs, the capacity, and the silence of who is closed.
pub record Keeps (e : Event) (s r : Sim) : Type 0 where
  pub same_jobs :
      ((j : ℕ) → brings j e + all_jobs j s ≤ 1) → (j : ℕ) → all_jobs j r ≡ brings j e + all_jobs j s
  pub within : ((m : ℕ) → (s.c m).busy ≤ conc) → (m : ℕ) → (r.c m).busy ≤ conc
  pub stays_closed : (m : ℕ) → (s.c m).closed ≡ true → (r.c m).closed ≡ true
  pub silent : (m : ℕ) → (s.c m).closed ≡ true → acked_by m r.acks ≡ acked_by m s.acks

abbrev pub KeepsTo : Event → Sim → Result Sim → Type 0
KeepsTo e s (raise x) = Unit {0}
KeepsTo e s (ok r) = Keeps e s r

pub Keeps-then : (e : Event) (s r u : Sim) → Keeps e s r → Moves r u → Keeps e s u
Keeps-then e s r u f g = record {
  same_jobs = λ k j.
      let fits : (i : ℕ) → in_hand i r ≤ 1 = λ i. omega (arith, f.same_jobs k i, k i) in
      omega (arith, f.same_jobs k j, g.same_coming j, g.same_hand fits j, ap (acked j) g.same_acks);
  within = λ k. g.within (f.within k);
  stays_closed = λ m k. g.same_closed m ∙ f.stays_closed m k;
  silent = λ m k. ap (acked_by m) g.same_acks ∙ f.silent m k;
}

pub kept-KeepsTo :
    (e : Event) (s r : Sim) (x : Result Sim) → Keeps e s r → MovesTo r x → KeepsTo e s x
kept-KeepsTo e s r (raise z) f h = tt
kept-KeepsTo e s r (ok u) f h = Keeps-then e s r u f h

pub then-KeepsTo :
    (e : Event) (s : Sim) (call : Result Sim) (next : Sim → Result Sim)
    → KeepsTo e s call
    → ((r : Sim) → MovesTo r (next r))
    → KeepsTo e s (call >>= next)
then-KeepsTo e s (raise z) next h k = tt
then-KeepsTo e s (ok r) next h k = kept-KeepsTo e s r (next r) h (k r)

pub same-Keeps : (e : Event) (s : Sim) → ((j : ℕ) → brings j e ≡ 0) → Keeps e s s
same-Keeps e s n = record {
  same_jobs = λ k j. omega (arith, n j);
  within = λ k. k;
  stays_closed = λ m k. k;
  silent = λ m k. refl;
}

pub moved-KeepsTo :
    (e : Event) (s : Sim) (x : Result Sim)
    → ((j : ℕ) → brings j e ≡ 0)
    → MovesTo s x
    → KeepsTo e s x
moved-KeepsTo e s x n h = kept-KeepsTo e s s x (same-Keeps e s n) h

pub bind-KeepsTo :
    {A : Type 0} (e : Event) (s : Sim) (call : Result A) (next : A → Result Sim)
    → ((a : A) → call ≡ ok a → KeepsTo e s (next a))
    → KeepsTo e s (call >>= next)
bind-KeepsTo e s (raise z) next k = tt
bind-KeepsTo e s (ok a) next k = k a refl

pub if-KeepsTo :
    (e : Event) (s : Sim) (b : Bool) (x y : Result Sim)
    → (b ≡ true → KeepsTo e s x)
    → (b ≡ false → KeepsTo e s y)
    → KeepsTo e s (if b then x else y)
if-KeepsTo e s true x y h k = h refl
if-KeepsTo e s false x y h k = k refl
