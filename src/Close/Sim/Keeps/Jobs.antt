-- ===== src/Close/Sim/Keeps/Jobs.antt =====
-- gen_close.py, class Sim: the events that bring a job, acknowledge it or close a consumer, and every event.
use redisq.Base.{
  ℕ, ◌+◌, ◌≡◌, refl, true, false, none, some, List, [], ◌∷◌, ◌++◌, arith, ◌==◌, ite, set, length,
  get_elem?, Result, ok, raise, assert, or_raise, key_error, index_error, ℕ_discrete,
}
use redisq.Base.Dict
use redisq.Base.Dict.{occurs}
use redisq.Base.Heapq.{Entry, total-heappush}
use redisq.Close.State.{
  Sim, Consumer, Run, Event, enqueue, push, wake_arrive, nudge, subscribe, close, release, exit,
  loop, release_wake, job_ends, slot_x, at, set_consumer, busy_down, len, wake, in_list, update,
  leaving, leave_time, enq_fly, by_wake, by_job_end,
}
use redisq.Close.Jobs.{
  occurs_present, brings, acked, Moves-trans, after-MovesTo, then-MovesTo, same-Moves,
}
use redisq.Close.Jobs.Steps.{
  set_consumer-Moves, at-Moves, srem-Moves, busy_down-MovesTo, len-Moves, wake-WakesTo,
}
use redisq.Close.Pull.Moves.{pull_loop-MovesTo, signal-MovesTo}
use redisq.Close.Sim.{
  on_push, on_subscribe, on_close, on_job_end, settle, acknowledge, finish_job, end_job, end_run,
  handle,
}
use redisq.Close.Sim.Keeps.{
  acked_by, Keeps, KeepsTo, Keeps-then, kept-KeepsTo, then-KeepsTo, same-Keeps, moved-KeepsTo,
  bind-KeepsTo, if-KeepsTo,
}
use redisq.Close.Sim.Keeps.Quiet.{
  on_nudge-MovesTo, on_subscribe-Moves, on_exit-MovesTo, woken-MovesTo, on_release_wake-MovesTo,
  on_release-MovesTo,
}

on_close-Keeps : (t m : ℕ) (s : Sim) → Keeps (close m) s (on_close t m s)
unfolding on_close set_consumer update
on_close-Keeps t m s =
    let st : Consumer = record (s.c m) { closed = true; consumer = false } in
    let s₁ : Sim = set_consumer m st s in
    let shut : Keeps (close m) s s₁ = record {
      same_jobs = λ k j. omega arith;
      within = λ k y. ground (arith, k y, k m);
      stays_closed = λ y k. ground (arith, k);
      silent = λ y k. refl;
    } in
    Keeps-then (close m) s s₁ _ shut (
      Moves-trans s₁ _ _ (srem-Moves t m leaving s₁)
        (at-Moves (t + leave_time + 200) (release m) _ (λ j. refl)))

occurs-snoc :
    (j i : ℕ) (l : List ℕ)
    → occurs ℕ_discrete j (l ++ i ∷ []) ≡ occurs ℕ_discrete j l + ite (ℕ_discrete i j) 1 0
occurs-snoc j i [] = omega arith
occurs-snoc j i (x ∷ l) = omega (arith, occurs-snoc j i l)

on_push-KeepsTo : (t job called : ℕ) (s : Sim) → KeepsTo (push job called) s (on_push t job s)
unfolding on_push
on_push-KeepsTo t job called s =
    bind-KeepsTo (push job called) s (or_raise index_error (get_elem? slot_x (length s.lst))) _
      λ x e.
        let s₁ : Sim = record s {
          lst = s.lst ++ job ∷ [];
          x = Dict.insert ℕ_discrete job x s.x;
          places = s.places ++ (job, t, in_list) ∷ [];
        } in
        let pushed : Keeps (push job called) s s₁ = record {
          same_jobs = λ k j. omega (arith, occurs-snoc j job s.lst);
          within = λ k. k;
          stays_closed = λ m k. k;
          silent = λ m k. refl;
        } in
        kept-KeepsTo (push job called) s s₁ _ pushed (
          woken-MovesTo s₁ (wake t (length s₁.lst) s₁) _ (wake-WakesTo t (length s₁.lst) s₁)
            λ w. same-Moves w.0 _ refl refl refl refl refl)

enqueued-Keeps :
    (t job : ℕ) (s : Sim)
    → Keeps (enqueue job) s (at (t + enq_fly) (push job t) (record s { calls = s.calls ++ t ∷ [] }))
unfolding at
enqueued-Keeps t job s = record {
  same_jobs = λ k j. omega (
    arith,
    total-heappush (λ (x : Entry Event). brings j x.event)
        (record { time = t + enq_fly; order = s.n + 1; event = push job t }) s.ev,
  );
  within = λ k. k;
  stays_closed = λ m k. k;
  silent = λ m k. refl;
}

acked-snoc :
    (j t m i : ℕ) (l : List (ℕ × ℕ × ℕ))
    → acked j (l ++ (t, m, i) ∷ []) ≡ acked j l + ite (ℕ_discrete i j) 1 0
acked-snoc j t m i [] = omega arith
acked-snoc j t m i ((u, k, x) ∷ l) = omega (arith, acked-snoc j t m i l)

acked_by-snoc :
    (y t m i : ℕ) (l : List (ℕ × ℕ × ℕ))
    → acked_by y (l ++ (t, m, i) ∷ []) ≡ acked_by y l + ite (ℕ_discrete m y) 1 0
acked_by-snoc y t m i [] = omega arith
acked_by-snoc y t m i ((u, k, x) ∷ l) = omega (arith, acked_by-snoc y t m i l)

acknowledge-KeepsTo :
    (t m slot job : ℕ) (s : Sim)
    → (s.c m).closed ≡ false
    → KeepsTo (job_ends m slot job) s (acknowledge t m job s)
unfolding acknowledge
acknowledge-KeepsTo t m slot job s opened =
    bind-KeepsTo (job_ends m slot job) s (or_raise key_error (Dict.get ℕ_discrete job s.pending)) _
      λ p e. bind-KeepsTo (job_ends m slot job) s (assert (p.owner == m)) _ λ u e'.
        let got : Dict.get ℕ_discrete job s.pending ≡ some p = ground arith in
        record {
          same_jobs = λ k j. omega (
            arith,
            acked-snoc j t m job s.acks,
            Dict.occurs-erase ℕ_discrete j job s.pending,
            occurs_present job j s.pending p got,
          );
          within = λ k. k;
          stays_closed = λ y k. k;
          silent = λ y k. elim (ℕ_discrete m y) [
            | yes same ↦ absurd (cc)
            | no other ↦ ground (arith, acked_by-snoc y t m job s.acks)
          ];
        }

-- The runs are no part of what is kept.
started-KeepsTo :
    (e : Event) (runs : List Run) (s : Sim) (x : Result Sim)
    → KeepsTo e (record s { runs = runs }) x
    → KeepsTo e s x
started-KeepsTo e runs s (raise z) h = tt
started-KeepsTo e runs s (ok r) h = record {
  same_jobs = h.same_jobs;
  within = h.within;
  stays_closed = h.stays_closed;
  silent = h.silent;
}

finish_job-KeepsTo :
    (t m slot job : ℕ) (s : Sim) → KeepsTo (job_ends m slot job) s (finish_job t m slot job s)
unfolding finish_job settle
finish_job-KeepsTo t m slot job s =
    bind-KeepsTo (job_ends m slot job) s (end_run t m slot job s.runs) _ λ runs e.
      if-KeepsTo (job_ends m slot job) s (s.c m).closed _ _
        (λ k.
          let r : Sim = record s { runs = runs; failed_acks = s.failed_acks ++ (t, m, job) ∷ [] } in
          Keeps-then (job_ends m slot job) s s r (same-Keeps (job_ends m slot job) s (λ j. refl))
            (same-Moves s r refl refl refl refl refl))
        (λ k.
          started-KeepsTo (job_ends m slot job) runs s _
            (acknowledge-KeepsTo t m slot job (record s { runs = runs }) k))

on_job_end-KeepsTo :
    (t m slot job : ℕ) (s : Sim) → KeepsTo (job_ends m slot job) s (on_job_end t m slot job s)
unfolding on_job_end end_job
on_job_end-KeepsTo t m slot job s =
    if-KeepsTo (job_ends m slot job) s (s.c m).alive _ (ok s)
      (λ k.
        then-KeepsTo (job_ends m slot job) s (finish_job t m slot job s) _
          (finish_job-KeepsTo t m slot job s)
          (λ s₁.
            let st : Consumer = record (s₁.c m) { slots = set (s₁.c m).slots slot none } in
            let s₂ : Sim = set_consumer m st s₁ in
            after-MovesTo s₁ s₂ _ (set_consumer-Moves m st s₁ refl (λ h. h)) (
              then-MovesTo s₂ (busy_down t m s₂) _ (busy_down-MovesTo t m s₂) λ s₃.
                after-MovesTo s₃ (len t m s₃) _ (len-Moves t m s₃)
                  (signal-MovesTo t m by_job_end (len t m s₃)))))
      (λ k. same-Keeps (job_ends m slot job) s (λ j. refl))

pub handle-KeepsTo : (t : ℕ) (e : Event) (s : Sim) → KeepsTo e s (handle t e s)
unfolding handle
handle-KeepsTo t (enqueue job) s = enqueued-Keeps t job s
handle-KeepsTo t (push job called) s = on_push-KeepsTo t job called s
handle-KeepsTo t (wake_arrive m) s =
    moved-KeepsTo (wake_arrive m) s _ (λ j. refl) (signal-MovesTo t m by_wake s)
handle-KeepsTo t (nudge m) s = moved-KeepsTo (nudge m) s _ (λ j. refl) (on_nudge-MovesTo t m s)
handle-KeepsTo t (subscribe m) s =
    moved-KeepsTo (subscribe m) s (ok (on_subscribe t m s)) (λ j. refl) (on_subscribe-Moves t m s)
handle-KeepsTo t (close m) s = on_close-Keeps t m s
handle-KeepsTo t (release m) s =
    moved-KeepsTo (release m) s _ (λ j. refl) (on_release-MovesTo t m s)
handle-KeepsTo t (exit m) s = moved-KeepsTo (exit m) s _ (λ j. refl) (on_exit-MovesTo t m s)
handle-KeepsTo t (loop m why) s =
    moved-KeepsTo (loop m why) s _ (λ j. refl) (pull_loop-MovesTo t m why s)
handle-KeepsTo t (release_wake m n) s =
    moved-KeepsTo (release_wake m n) s _ (λ j. refl) (on_release_wake-MovesTo t m n s)
handle-KeepsTo t (job_ends m slot job) s = on_job_end-KeepsTo t m slot job s
