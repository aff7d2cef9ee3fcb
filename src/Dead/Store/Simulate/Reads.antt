-- ===== src/Dead/Store/Simulate/Reads.antt =====
-- assets/diagrams/gen/gen_dead.py, facts: what is read off the log of a run. Times are whole milliseconds.
use redisq.Base.{
  ℕ, Bool, true, false, Option, List, [], ◌∷◌, map, ◌==◌, if◌then◌else◌, any, select, Result, ok,
  raise, ◌>>=◌, value_error, stop_iteration,
}
use redisq.Base.Int.{ℤ, leb_ℤ, ltb_ℤ, eqb_ℤ}
use redisq.Dead.Store.{Note, ran_out, mark, gone, waiting, reap}
use redisq.Dead.Store.Simulate.{Logged, killed, swept, woke, popped, acked, is_reap}

-- What the log holds of a sweep.
pub record Sweep : Type 0 where
  pub time : ℤ
  pub who : ℕ
  pub ticked : Bool
  pub notes : List Note
  pub mark_left : Option ℤ
  pub hb_left : Option ℤ
  pub list_left : List ℕ

pub record Woke : Type 0 where
  pub time : ℤ
  pub wanted : ℕ
  pub woken : List ℕ

abbrev pub Log : Type 0
Log = List (ℤ × Logged)

sweeps_of : Log → List Sweep
sweeps_of [] = []
sweeps_of ((t, swept m ticked notes left hb lst) ∷ log) =
    record {
      time = t;
      who = m;
      ticked = ticked;
      notes = notes;
      mark_left = left;
      hb_left = hb;
      list_left = lst;
    }
    ∷ sweeps_of log
sweeps_of ((t, killed) ∷ log) = sweeps_of log
sweeps_of ((t, woke n woken before) ∷ log) = sweeps_of log
sweeps_of ((t, popped v aid) ∷ log) = sweeps_of log
sweeps_of ((t, acked v) ∷ log) = sweeps_of log

kills_of : Log → List ℤ
kills_of [] = []
kills_of ((t, killed) ∷ log) = t ∷ kills_of log
kills_of ((t, swept m ticked notes left hb lst) ∷ log) = kills_of log
kills_of ((t, woke n woken before) ∷ log) = kills_of log
kills_of ((t, popped v aid) ∷ log) = kills_of log
kills_of ((t, acked v) ∷ log) = kills_of log

wakes_of : Log → List Woke
wakes_of [] = []
wakes_of ((t, woke n woken before) ∷ log) =
    record { time = t; wanted = n; woken = woken } ∷ wakes_of log
wakes_of ((t, killed) ∷ log) = wakes_of log
wakes_of ((t, swept m ticked notes left hb lst) ∷ log) = wakes_of log
wakes_of ((t, popped v aid) ∷ log) = wakes_of log
wakes_of ((t, acked v) ∷ log) = wakes_of log

unfoldable pub pops_of : Log → List (ℤ × ℕ)
pops_of [] = []
pops_of ((t, popped v aid) ∷ log) = (t, v) ∷ pops_of log
pops_of ((t, killed) ∷ log) = pops_of log
pops_of ((t, swept m ticked notes left hb lst) ∷ log) = pops_of log
pops_of ((t, woke n woken before) ∷ log) = pops_of log
pops_of ((t, acked v) ∷ log) = pops_of log

unfoldable pub acks_of : Log → List (ℤ × ℕ)
acks_of [] = []
acks_of ((t, acked v) ∷ log) = (t, v) ∷ acks_of log
acks_of ((t, killed) ∷ log) = acks_of log
acks_of ((t, swept m ticked notes left hb lst) ∷ log) = acks_of log
acks_of ((t, woke n woken before) ∷ log) = acks_of log
acks_of ((t, popped v aid) ∷ log) = acks_of log

-- `next(x for x in ... if ...)`, `max` and `min`.
unfoldable pub first {ℓ} : {A : Type ℓ} → (A → Bool) → List A → Result A
first p [] = raise stop_iteration
first p (x ∷ xs) = let rest = first p xs in if p x then ok x else rest

unfoldable pub extreme : (ℤ → ℤ → Bool) → List ℤ → Result ℤ
extreme le [] = raise value_error
extreme le (t ∷ []) = ok t
extreme le (t ∷ u ∷ ts) = extreme le (u ∷ ts) >>= λ m. ok (if le t m then t else m)

-- Whether a note of a kind is about consumer 2.
pub data About : Type 0 where
  marked is_gone still_waiting timed_out : About

says : About → Note → Bool
says marked (mark m) = m == 2
says marked (reap ms) = false
says marked (ran_out m) = false
says marked (gone m) = false
says marked (waiting m) = false
says is_gone (gone m) = m == 2
says is_gone (reap ms) = false
says is_gone (ran_out m) = false
says is_gone (mark m) = false
says is_gone (waiting m) = false
says still_waiting (waiting m) = m == 2
says still_waiting (reap ms) = false
says still_waiting (ran_out m) = false
says still_waiting (mark m) = false
says still_waiting (gone m) = false
says timed_out (ran_out m) = m == 2
says timed_out (reap ms) = false
says timed_out (mark m) = false
says timed_out (gone m) = false
says timed_out (waiting m) = false

unfoldable pub notes_of : About → Sweep → Bool
unfolding says
notes_of a e = any (says a) e.notes

-- What is read off the log first.
pub record Moments : Type 0 where
  pub sweeps : List Sweep
  pub c1 : List Sweep
  pub kill : ℤ
  pub reap : ℤ
  pub reaper : Sweep
  pub wake : Woke
  pub c2_last : ℤ
  pub c2_first : ℤ
  pub first_after : Sweep

unfoldable pub moments : Log → Result Moments
unfolding sweeps_of kills_of wakes_of first extreme is_reap
moments log = do
  let sweeps = sweeps_of log
  kill ← first (λ t. true) (kills_of log)
  let c1 = select (λ e. e.who == 1) sweeps
  reaping ← first (λ e. any is_reap e.notes) sweeps
  reaper ← first (λ e. eqb_ℤ e.time reaping.time) sweeps
  wake ← first (λ w. true) (wakes_of log)
  let c2 = map (λ e. e.time) (select (λ e. e.who == 2) sweeps)
  c2_last ← extreme (λ t u. leb_ℤ u t) c2
  first_after ← first (λ e. ltb_ℤ kill e.time) c1
  c2_first ← extreme leb_ℤ c2
  ok (record {
    sweeps = sweeps;
    c1 = c1;
    kill = kill;
    reap = reaping.time;
    reaper = reaper;
    wake = wake;
    c2_last = c2_last;
    c2_first = c2_first;
    first_after = first_after;
  })
