-- ===== src/Close/Sim/Keeps/Whole.antt =====
-- gen_close.py, Sim.run: what holds over a whole run.
use redisq.Base.{
  ℕ, zero, suc, ◌+◌, ◌≤◌, ◌≡◌, refl, ◌∙◌, ap, inl, inr, true, Option, some, List, [], ◌∷◌, arith,
  ltb, Bool-cases, subst, Result, ok, ◌>>=◌, >>=-eq-ok,
}
use redisq.Base.Heapq.{Entry}
use redisq.Close.State.{Sim, Event, conc, horizon}
use redisq.Close.Jobs.{brings, coming}
use redisq.Close.Sim.{handle, run, run_from}
use redisq.Base.Sort.{total}
use redisq.Close.Booked.{ends, ending, IsBooked}
use redisq.Close.Sim.Booked.{none_more, handle-IsBooked}
use redisq.Close.Sim.Keeps.{all_jobs, acked_by, Keeps, KeepsTo}
use redisq.Close.Sim.Keeps.Jobs.{handle-KeepsTo}

handle-Keeps : (t : ℕ) (e : Event) (s r : Sim) → handle t e s ≡ ok r → Keeps e s r
handle-Keeps t e s r g = subst (KeepsTo e s) g (handle-KeepsTo t e s)

-- Handling an event that raises nothing keeps the jobs: when the event and the state bring every job at most
-- once, then afterwards each job stands as often as before on its way, in the list, in the pending hash or among
-- the acknowledged, and the job that the event brings once more.
pub handle_keeps_jobs :
    (t : ℕ) (e : Event) (s r : Sim)
    → handle t e s ≡ ok r
    → ((j : ℕ) → brings j e + all_jobs j s ≤ 1)
    → (j : ℕ) → all_jobs j r ≡ brings j e + all_jobs j s
handle_keeps_jobs t e s r g = (handle-Keeps t e s r g).same_jobs

-- What every event keeps holds at the end of a run.
module _ (P : Sim → Type 0)
    (drops : (e : Entry Event) (ev : List (Entry Event)) (s : Sim)
      → s.ev ≡ e ∷ ev
      → P s
      → P (record s { ev = ev }))
    (steps : (e : Entry Event) (ev : List (Entry Event)) (s r : Sim)
      → s.ev ≡ e ∷ ev
      → P s
      → handle e.time e.event (record s { ev = ev }) ≡ ok r
      → P r) where
  run_from-P :
      (again : Sim → Result (Option Sim)) (s r : Sim) (l : List (Entry Event))
      → s.ev ≡ l
      → ((x : Sim) → again x ≡ ok (some r) → P x → P r)
      → run_from again s l ≡ ok (some r)
      → P s
      → P r
  unfolding run_from
  run_from-P again s r [] h k g p = let same : s ≡ r = ground arith in subst P same p
  run_from-P again s r (e ∷ ev) h k g p = elim (Bool-cases (ltb horizon e.time)) [
    | inl late ↦
        let same : record s { ev = ev } ≡ r = ground arith in subst P same (drops e ev s h p)
    | inr early ↦
        let g' : (handle e.time e.event (record s { ev = ev }) >>= again) ≡ ok (some r) =
          rw early at g in
        let (x, f, f') = >>=-eq-ok (handle e.time e.event (record s { ev = ev })) again g' in
        k x f' (steps e ev s x h p f)
  ]

  run-P : (k : ℕ) (s r : Sim) → run k s ≡ ok (some r) → P s → P r
  unfolding run
  run-P zero s r g p = cc
  run-P (suc k) s r g p = run_from-P (run k) s r s.ev refl (λ x f. run-P k x r f) g p

-- The states that the run comes to between two events: it handles the first event that waits, up to the horizon.
pub data Reaches (s : Sim) : Sim → Type 0 where
  here : Reaches s s
  next :
      (r u : Sim) (x : Entry Event) (ev : List (Entry Event))
      → Reaches s r
      → r.ev ≡ x ∷ ev
      → x.time ≤ horizon
      → handle x.time x.event (record r { ev = ev }) ≡ ok u
      → Reaches s u

-- Take a state in which each job stands at most once on its way, in the list, in the pending hash or among the
-- acknowledged. In every state to which the run comes from there between two events it still does: no
-- pending job is in the list as well, and an acknowledged one is in neither and was not acknowledged twice.
pub run_no_job_twice :
    (s r : Sim) → ((j : ℕ) → all_jobs j s ≤ 1) → Reaches s r → (j : ℕ) → all_jobs j r ≤ 1
run_no_job_twice s r h here = h
run_no_job_twice s r h (next q u x ev to e l g) =
    let once = run_no_job_twice s q h to in
    λ j.
      let kept = handle-Keeps x.time x.event (record q { ev = ev }) r g in
      omega (
        arith,
        once j,
        ap (coming j) e,
        kept.same_jobs (λ i. omega (arith, once i, ap (coming i) e)) j,
      )

-- Take a run that returns, and starts with every job that is scheduled to end counted as busy, and with at most
-- CONC busy at each consumer. It ends like that, so that no consumer is left with more than CONC jobs that are scheduled to
-- end.
pub run_within_capacity :
    (k : ℕ) (s r : Sim)
    → run k s ≡ ok (some r)
    → IsBooked none_more s
    → ((m : ℕ) → (s.c m).busy ≤ conc)
    → (m : ℕ) → (ending m r ≤ (r.c m).busy) × ((r.c m).busy ≤ conc)
run_within_capacity k s r g b h m =
    let (b', h') =
      run-P (λ x. IsBooked none_more x × ((i : ℕ) → (x.c i).busy ≤ conc))
        (λ e ev x f p.
          ((λ i. omega (arith, p.0 i, ap (total (λ (y : Entry Event). ends i y.event)) f)), p.1))
        (λ e ev x y f p q.
          let started : IsBooked (λ i. ends i e.event) (record x { ev = ev }) =
            λ i. omega (arith, p.0 i, ap (total (λ (y : Entry Event). ends i y.event)) f) in
          (
            handle-IsBooked e.time e.event (record x { ev = ev }) y q started,
            (handle-Keeps e.time e.event (record x { ev = ev }) y q).within p.1,
          ))
        k s r g (b, h) in
    (omega (arith, b' m), h' m)

-- A consumer that is closed stays closed, and acknowledges nothing more in a run that returns.
pub run_closed_silent :
    (k m : ℕ) (s r : Sim)
    → run k s ≡ ok (some r)
    → (s.c m).closed ≡ true
    → ((r.c m).closed ≡ true) × (acked_by m r.acks ≡ acked_by m s.acks)
run_closed_silent k m s r g h =
    run-P (λ x. ((x.c m).closed ≡ true) × (acked_by m x.acks ≡ acked_by m s.acks)) (λ e ev x f p. p)
      (λ e ev x y f p q.
        let kept = handle-Keeps e.time e.event (record x { ev = ev }) y q in
        (kept.stays_closed m p.0, kept.silent m p.0 ∙ p.1))
      k s r g (h, refl)
