-- ===== src/Close/Sim/Events.antt =====
-- gen_close.py, class Sim: an event brings at most six later ones.
use redisq.Base.{
  ℕ, ◌+◌, ◌-◌, ◌*◌, ◌≤◌, ◌<◌, ◌≡◌, refl, ap, inl, inr, Bool, true, false, not, none, [], ◌∷◌, ◌++◌,
  arith, leb, ◌==◌, if◌then◌else◌, Bool-cases, Result-cases, set, length, get_elem?, ok, assert,
  or_raise, key_error, index_error, ℕ_discrete,
}
use redisq.Base.Dict
use redisq.Base.Sort.{total}
use redisq.Base.Heapq.{Entry, total-heappush}
use redisq.Close.State.{
  Sim, Event, by_wake, by_nudge, by_job_end, enqueue, push, wake_arrive, nudge, subscribe, close,
  release, exit, loop, release_wake, job_ends, in_list, is_nil, horizon, slot_x, enq_fly, rel_time,
  exit_after, leave_time, leaving, subscribing, nudging, at, set_consumer, sadd, srem, busy_down,
  len, wake,
}
use redisq.Close.Rounds.{
  tree, rounds, entry_rounds, Within, itself, first, then-Within, any-Within, if-Within,
  Within-weaken, at-later, sadd-rounds, srem-rounds, len-rounds, busy_down-Within, wake-Within,
}
use redisq.Close.Pull.{signal, pull_loop}
use redisq.Close.Pull.Rounds.{signal-Within, pull_loop-Within}
use redisq.Close.Sim.{
  on_push, on_nudge, on_subscribe, on_close, on_release, on_release_wake, on_exit, on_job_end,
  cut_runs, settle, acknowledge, finish_job, end_job, end_run, held_by, handle,
}
use redisq.Close.Sim.Release.{on_release_lem}

module _ (t u : ℕ) (later : (x : ℕ) → t < x → tree (horizon + 1 - x) ≤ u) where
  on_push-Within : (job : ℕ) (s : Sim) → Within (rounds s + 6 * u) itself (on_push t job s)
  unfolding on_push
  on_push-Within job s =
      any-Within (rounds s + 6 * u) itself (or_raise index_error (get_elem? slot_x (length s.lst)))
        _
        λ x.
          let s₁ : Sim = record s {
            lst = s.lst ++ job ∷ [];
            x = Dict.insert ℕ_discrete job x s.x;
            places = s.places ++ (job, t, in_list) ∷ [];
          } in
          then-Within (rounds s + u) (rounds s + 6 * u) first itself (wake t (length s₁.lst) s₁) _
            (wake-Within t u later (length s₁.lst) s₁) λ w k. omega (arith, k)

  again-rounds :
      (m : ℕ) (s : Sim)
      → rounds (if leb (t + 10000) horizon then at (t + 10000) (nudge m) s else s) ≤ rounds s + u
  again-rounds m s = elim (Bool-cases (leb (t + 10000) horizon)) [
    | inl e ↦ rw e (at-later t u later (t + 10000) (nudge m) s (omega arith))
    | inr e ↦ rw e (omega arith)
  ]

  offered-rounds :
      (m : ℕ) (b : Bool) (s : Sim) → rounds (if b then sadd t m nudging s else s) ≡ rounds s
  offered-rounds m true s = sadd-rounds t m nudging s
  offered-rounds m false s = refl

  on_nudge-Within : (m : ℕ) (s : Sim) → Within (rounds s + 6 * u) itself (on_nudge t m s)
  unfolding on_nudge set_consumer
  on_nudge-Within m s =
      let s₁ : Sim = set_consumer m (record (s.c m) { ticks = (s.c m).ticks ++ t ∷ [] }) s in
      let empty : Sim = if (s.c m).is_free then sadd t m nudging s₁ else s₁ in
      let poked : Sim = srem t m nudging s₁ in
      if-Within (rounds s + 6 * u) itself (not (s.c m).consumer) (ok s) _ (omega arith) (
        if-Within (rounds s + 6 * u) itself (is_nil s.lst) _ _
          (omega (arith, again-rounds m empty, offered-rounds m (s.c m).is_free s₁))
          (then-Within (rounds poked + 4 * u) (rounds s + 6 * u) itself itself
            (signal t m by_nudge poked) _ (signal-Within t u later m by_nudge poked)
            λ r k. omega (arith, k, again-rounds m r, srem-rounds t m nudging s₁)))

  on_subscribe-rounds : (m : ℕ) (s : Sim) → rounds (on_subscribe t m s) ≤ rounds s + 6 * u
  unfolding on_subscribe set_consumer
  on_subscribe-rounds m s =
      let s₁ : Sim =
        set_consumer m
          (record (s.c m) { alive = true; consumer = true; sub = true; is_free = true }) s in
      omega (
        arith,
        at-later t u later (t + 10000) (nudge m) (sadd t m subscribing s₁) (omega arith),
        sadd-rounds t m subscribing s₁,
      )

  on_close-rounds : (m : ℕ) (s : Sim) → rounds (on_close t m s) ≤ rounds s + 6 * u
  unfolding on_close set_consumer
  on_close-rounds m s =
      let s₁ : Sim = set_consumer m (record (s.c m) { closed = true; consumer = false }) s in
      omega (
        arith,
        at-later t u later (t + leave_time + 200) (release m) (srem t m leaving s₁) (omega arith),
        srem-rounds t m leaving s₁,
      )

  on_release-Within : (m : ℕ) (s : Sim) → Within (rounds s + 6 * u) itself (on_release t m s)
  on_release-Within m s = elim (Result-cases (on_release t m s)) [
    | inl (e, g) ↦ rw g tt
    | inr (r, g) ↦
        let (_, _, ev) = on_release_lem t m s r g in
        let entry : Entry Event = record {
          time = t + rel_time;
          order = s.n + 1;
          event = release_wake m (length (held_by m s.pending));
        } in
        rw g (
          omega (
            arith,
            ap (total entry_rounds) ev,
            total-heappush entry_rounds entry s.ev,
            later (t + rel_time) (omega arith),
          ))
  ]

  on_release_wake-Within :
      (m n : ℕ) (s : Sim) → Within (rounds s + 6 * u) itself (on_release_wake t m n s)
  unfolding on_release_wake set_consumer
  on_release_wake-Within m n s =
      then-Within (rounds s + u) (rounds s + 6 * u) first itself (wake t n s) _
        (wake-Within t u later n s)
        λ w k.
          let s₁ : Sim = set_consumer m (record (w.0.c m) { sub = false }) w.0 in
          omega (arith, k, at-later t u later (t + exit_after) (exit m) s₁ (omega arith))

  on_exit-Within : (m : ℕ) (s : Sim) → Within (rounds s + 6 * u) itself (on_exit t m s)
  unfolding on_exit set_consumer
  on_exit-Within m s =
      any-Within (rounds s + 6 * u) itself (cut_runs t m s.runs) _ λ runs. omega arith

  acknowledge-Within : (m job : ℕ) (s : Sim) → Within (rounds s) itself (acknowledge t m job s)
  unfolding acknowledge
  acknowledge-Within m job s =
      any-Within (rounds s) itself (or_raise key_error (Dict.get ℕ_discrete job s.pending)) _
        λ p. any-Within (rounds s) itself (assert (p.owner == m)) _ λ e. omega arith

  finish_job-Within :
      (m slot job : ℕ) (s : Sim) → Within (rounds s) itself (finish_job t m slot job s)
  unfolding finish_job settle
  finish_job-Within m slot job s =
      any-Within (rounds s) itself (end_run t m slot job s.runs) _ λ runs.
        if-Within (rounds s) itself (s.c m).closed _ _ (omega arith)
          (acknowledge-Within m job (record s { runs = runs }))

  on_job_end-Within :
      (m slot job : ℕ) (s : Sim) → Within (rounds s + 6 * u) itself (on_job_end t m slot job s)
  unfolding on_job_end end_job set_consumer
  on_job_end-Within m slot job s =
      if-Within (rounds s + 6 * u) itself (s.c m).alive _ (ok s)
        (then-Within (rounds s) (rounds s + 6 * u) itself itself (finish_job t m slot job s) _
          (finish_job-Within m slot job s)
          λ s₁ h.
            let s₂ : Sim =
              set_consumer m (record (s₁.c m) { slots = set (s₁.c m).slots slot none }) s₁ in
            then-Within (rounds s₂) (rounds s + 6 * u) itself itself (busy_down t m s₂) _
              (busy_down-Within t m s₂)
              λ s₃ k.
                Within-weaken (rounds (len t m s₃) + 4 * u) (rounds s + 6 * u) itself
                  (signal t m by_job_end (len t m s₃)) (omega (arith, h, k, len-rounds t m s₃))
                  (signal-Within t u later m by_job_end (len t m s₃)))
        (omega arith)

  pub handle-Within : (e : Event) (s : Sim) → Within (rounds s + 6 * u) itself (handle t e s)
  unfolding handle
  handle-Within (enqueue job) s = omega (
    arith,
    at-later t u later (t + enq_fly) (push job t) (record s { calls = s.calls ++ t ∷ [] })
        (omega arith),
  )
  handle-Within (push job called) s = on_push-Within job s
  handle-Within (wake_arrive m) s =
      Within-weaken (rounds s + 4 * u) (rounds s + 6 * u) itself (signal t m by_wake s)
        (omega arith) (signal-Within t u later m by_wake s)
  handle-Within (nudge m) s = on_nudge-Within m s
  handle-Within (subscribe m) s = on_subscribe-rounds m s
  handle-Within (close m) s = on_close-rounds m s
  handle-Within (release m) s = on_release-Within m s
  handle-Within (exit m) s = on_exit-Within m s
  handle-Within (loop m why) s =
      Within-weaken (rounds s + 4 * u) (rounds s + 6 * u) itself (pull_loop t m why s) (omega arith)
        (pull_loop-Within t u later m why s)
  handle-Within (release_wake m n) s = on_release_wake-Within m n s
  handle-Within (job_ends m slot job) s = on_job_end-Within m slot job s
