-- ===== src/Close/Sim/Stops.antt =====
-- gen_close.py, Sim.run: every run ends, at the horizon at the latest.
use redisq.Base.{
  ℕ, zero, suc, ◌+◌, ◌-◌, ◌*◌, ◌≤◌, ◌<◌, ◌≡◌, refl, ap, inl, inr, Option, none, some, List, [], ◌∷◌,
  arith, ltb, Bool-cases, Result, ok, raise, ◌>>=◌, ltb→le,
}
use redisq.Base.Sort.{total}
use redisq.Base.Heapq.{Entry}
use redisq.Close.State.{Sim, Event, horizon}
use redisq.Close.Rounds.{tree, tree_mono, rounds, entry_rounds, Within, itself}
use redisq.Close.Sim.{handle, run, run_from}
use redisq.Close.Sim.Events.{handle-Within}

-- An event at `t` that is handled takes one round more than the six that may follow.
spent : (t : ℕ) → t ≤ horizon → 6 * tree (horizon - t) < tree (horizon + 1 - t)
unfolding tree
spent t h = let same : horizon + 1 - t ≡ suc (horizon - t) = omega arith in rw same (omega arith)

later_less : (t x : ℕ) → t < x → tree (horizon + 1 - x) ≤ tree (horizon - t)
later_less t x h = tree_mono (horizon + 1 - x) (horizon - t) (omega arith)

-- A run that has raised, or has come to an end with fuel.
abbrev pub IsOver : Result (Option Sim) → Type 0
IsOver (raise e) = Unit {0}
IsOver (ok none) = ⊥
IsOver (ok (some s)) = Unit {0}

then-IsOver :
    (n : ℕ) (call : Result Sim) (next : Sim → Result (Option Sim))
    → Within n itself call
    → ((r : Sim) → rounds r ≤ n → IsOver (next r))
    → IsOver (call >>= next)
then-IsOver n (raise e) next h k = tt
then-IsOver n (ok r) next h k = k r h

run_from-IsOver :
    (again : Sim → Result (Option Sim)) (k : ℕ) (s : Sim) (ev : List (Entry Event))
    → ((r : Sim) → rounds r < k → IsOver (again r))
    → s.ev ≡ ev
    → rounds s < suc k
    → IsOver (run_from again s ev)
unfolding run_from
run_from-IsOver again k s [] ih e h = tt
run_from-IsOver again k s (x ∷ ev) ih e h = elim (Bool-cases (ltb horizon x.time)) [
  | inl late ↦ rw late tt
  | inr early ↦
      let s' : Sim = record s { ev = ev } in
      let u = tree (horizon - x.time) in
      rw early (
        then-IsOver (rounds s' + 6 * u) (handle x.time x.event s') again
          (handle-Within x.time u (later_less x.time) x.event s')
          (λ r f. ih r (
            omega (
              arith,
              f,
              h,
              ap (total entry_rounds) e,
              spent x.time (ltb→le horizon x.time early),
            ))))
]

-- From any state a run with enough fuel ends, by an exception or with a result, and never for want of fuel:
-- enough are the rounds of the events on the heap, where an event counts one and six times what an event a step
-- of the clock later counts, and nothing past the horizon.
pub run-IsOver : (k : ℕ) (s : Sim) → rounds s < k → IsOver (run k s)
unfolding run
run-IsOver zero s h = absurd (omega (arith, h))
run-IsOver (suc k) s h = run_from-IsOver (run k) k s s.ev (λ r f. run-IsOver k r f) refl h
