-- ===== src/Close/Sim/Booked.antt =====
-- gen_close.py, class Sim: over every event, the jobs that are scheduled to end are counted as busy.
use redisq.Base.{
  ℕ, ◌+◌, ◌≡◌, refl, inl, inr, Bool, true, false, not, none, List, [], ◌∷◌, ◌++◌, arith, leb, ◌==◌,
  if◌then◌else◌, Bool-cases, set, length, get_elem?, ok, assert, or_raise, key_error, index_error,
  ℕ_discrete, subst,
}
use redisq.Base.Dict
use redisq.Close.State.{
  Sim, Consumer, Event, by_wake, by_nudge, by_job_end, enqueue, push, wake_arrive, nudge, subscribe,
  close, release, exit, loop, release_wake, job_ends, in_list, is_nil, horizon, slot_x, enq_fly,
  rel_time, exit_after, leave_time, leaving, subscribing, nudging, at, set_consumer, sadd, srem,
  busy_down, len, wake,
}
use redisq.Close.Booked.{
  ends, IsBooked, one_more, BooksTo, itself, first, then-BooksTo, any-BooksTo, if-BooksTo,
  set_consumer-IsBooked, at-IsBooked, sadd-IsBooked, srem-IsBooked, len-IsBooked, busy_down-BooksTo,
  wake-BooksTo,
}
use redisq.Close.Pull.{signal}
use redisq.Close.Pull.Booked.{signal-BooksTo, pull_loop-BooksTo}
use redisq.Close.Sim.{
  on_push, on_nudge, on_subscribe, on_close, on_release, on_release_wake, on_exit, on_job_end,
  hand_back, held_by, push_front, index_of, cut_runs, settle, acknowledge, finish_job, end_job,
  end_run, handle,
}

abbrev pub none_more : ℕ → ℕ
none_more m = 0

module _ (t : ℕ) where
  module _ (f : ℕ → ℕ) where
    on_push-BooksTo : (job : ℕ) (s : Sim) → IsBooked f s → BooksTo f itself (on_push t job s)
    unfolding on_push
    on_push-BooksTo job s h =
        any-BooksTo f itself (or_raise index_error (get_elem? slot_x (length s.lst))) _ λ x.
          let s₁ : Sim = record s {
            lst = s.lst ++ job ∷ [];
            x = Dict.insert ℕ_discrete job x s.x;
            places = s.places ++ (job, t, in_list) ∷ [];
          } in
          then-BooksTo f f first itself (wake t (length s₁.lst) s₁) _
            (wake-BooksTo f t (length s₁.lst) s₁ h) λ w k. k

    again-IsBooked :
        (m : ℕ) (s : Sim)
        → IsBooked f s
        → IsBooked f (if leb (t + 10000) horizon then at (t + 10000) (nudge m) s else s)
    again-IsBooked m s h = elim (Bool-cases (leb (t + 10000) horizon)) [
      | inl e ↦ rw e (at-IsBooked f (t + 10000) (nudge m) s (λ y. refl) h)
      | inr e ↦ rw e h
    ]

    offered-IsBooked :
        (m : ℕ) (b : Bool) (s : Sim)
        → IsBooked f s
        → IsBooked f (if b then sadd t m nudging s else s)
    offered-IsBooked m true s h = sadd-IsBooked f t m nudging s h
    offered-IsBooked m false s h = h

    on_nudge-BooksTo : (m : ℕ) (s : Sim) → IsBooked f s → BooksTo f itself (on_nudge t m s)
    unfolding on_nudge
    on_nudge-BooksTo m s h =
        let st : Consumer = record (s.c m) { ticks = (s.c m).ticks ++ t ∷ [] } in
        let s₁ : Sim = set_consumer m st s in
        let k : IsBooked f s₁ = set_consumer-IsBooked f m st s refl h in
        let empty : Sim = if (s.c m).is_free then sadd t m nudging s₁ else s₁ in
        let poked : Sim = srem t m nudging s₁ in
        if-BooksTo f itself (not (s.c m).consumer) (ok s) _ h (
          if-BooksTo f itself (is_nil s.lst) _ _
            (again-IsBooked m empty (offered-IsBooked m (s.c m).is_free s₁ k))
            (then-BooksTo f f itself itself (signal t m by_nudge poked) _
              (signal-BooksTo f t m by_nudge poked (srem-IsBooked f t m nudging s₁ k))
              λ r l. again-IsBooked m r l))

    on_subscribe-IsBooked : (m : ℕ) (s : Sim) → IsBooked f s → IsBooked f (on_subscribe t m s)
    unfolding on_subscribe
    on_subscribe-IsBooked m s h =
        let st : Consumer = record (s.c m) {
          alive = true;
          consumer = true;
          sub = true;
          is_free = true;
        } in
        let s₁ : Sim = set_consumer m st s in
        at-IsBooked f (t + 10000) (nudge m) (sadd t m subscribing s₁) (λ y. refl)
          (sadd-IsBooked f t m subscribing s₁ (set_consumer-IsBooked f m st s refl h))

    on_close-IsBooked : (m : ℕ) (s : Sim) → IsBooked f s → IsBooked f (on_close t m s)
    unfolding on_close
    on_close-IsBooked m s h =
        let st : Consumer = record (s.c m) { closed = true; consumer = false } in
        let s₁ : Sim = set_consumer m st s in
        at-IsBooked f (t + leave_time + 200) (release m) (srem t m leaving s₁) (λ y. refl)
          (srem-IsBooked f t m leaving s₁ (set_consumer-IsBooked f m st s refl h))

    hand_back-BooksTo :
        (ids : List (ℕ × ℕ)) (s : Sim) → IsBooked f s → BooksTo f itself (hand_back t ids s)
    unfolding hand_back
    hand_back-BooksTo [] s h = h
    hand_back-BooksTo (p ∷ ids) s h =
        any-BooksTo f itself (or_raise key_error (Dict.get ℕ_discrete p.1 s.pending)) _ λ v.
          any-BooksTo f itself (or_raise index_error (index_of p.1 s.lst)) _ λ i.
            any-BooksTo f itself (or_raise index_error (get_elem? slot_x i)) _
              λ x. hand_back-BooksTo ids _ h

    on_release-BooksTo : (m : ℕ) (s : Sim) → IsBooked f s → BooksTo f itself (on_release t m s)
    unfolding on_release
    on_release-BooksTo m s h =
        let ids = held_by m s.pending in
        let s₁ : Sim = record s { lst = push_front ids s.lst } in
        then-BooksTo f f itself itself (hand_back t ids s₁) _ (hand_back-BooksTo ids s₁ h) λ r k.
          let st : Consumer = record (r.c m) { beat = false } in
          at-IsBooked f (t + rel_time) (release_wake m (length ids)) (set_consumer m st r)
            (λ y. refl) (set_consumer-IsBooked f m st r refl k)

    on_release_wake-BooksTo :
        (m n : ℕ) (s : Sim) → IsBooked f s → BooksTo f itself (on_release_wake t m n s)
    unfolding on_release_wake
    on_release_wake-BooksTo m n s h =
        then-BooksTo f f first itself (wake t n s) _ (wake-BooksTo f t n s h) λ w k.
          let st : Consumer = record (w.0.c m) { sub = false } in
          at-IsBooked f (t + exit_after) (exit m) (set_consumer m st w.0) (λ y. refl)
            (set_consumer-IsBooked f m st w.0 refl k)

    on_exit-BooksTo : (m : ℕ) (s : Sim) → IsBooked f s → BooksTo f itself (on_exit t m s)
    unfolding on_exit
    on_exit-BooksTo m s h = any-BooksTo f itself (cut_runs t m s.runs) _ λ runs.
        set_consumer-IsBooked f m (record (s.c m) { alive = false }) (record s { runs = runs }) refl
          h

    finish_job-BooksTo :
        (m slot job : ℕ) (s : Sim) → IsBooked f s → BooksTo f itself (finish_job t m slot job s)
    unfolding finish_job settle acknowledge
    finish_job-BooksTo m slot job s h = any-BooksTo f itself (end_run t m slot job s.runs) _ λ runs.
        if-BooksTo f itself (s.c m).closed _ _ h (
          any-BooksTo f itself (or_raise key_error (Dict.get ℕ_discrete job s.pending)) _
            λ p. any-BooksTo f itself (assert (p.owner == m)) _ λ e. h)

  on_job_end-BooksTo :
      (m slot job : ℕ) (s : Sim)
      → IsBooked (one_more m none_more) s
      → BooksTo none_more itself (on_job_end t m slot job s)
  unfolding on_job_end end_job
  on_job_end-BooksTo m slot job s h =
      let f = one_more m none_more in
      if-BooksTo none_more itself (s.c m).alive _ (ok s)
        (then-BooksTo f none_more itself itself (finish_job t m slot job s) _
          (finish_job-BooksTo f m slot job s h)
          λ s₁ k.
            let st : Consumer = record (s₁.c m) { slots = set (s₁.c m).slots slot none } in
            let s₂ : Sim = set_consumer m st s₁ in
            then-BooksTo none_more none_more itself itself (busy_down t m s₂) _
              (busy_down-BooksTo none_more t m s₂ (set_consumer-IsBooked f m st s₁ refl k))
              λ s₃ l.
                signal-BooksTo none_more t m by_job_end (len t m s₃)
                  (len-IsBooked none_more t m s₃ l))
        (λ y. omega (arith, h y))

  handle-BooksTo :
      (e : Event) (s : Sim) → IsBooked (λ m. ends m e) s → BooksTo none_more itself (handle t e s)
  unfolding handle
  handle-BooksTo (enqueue job) s h =
      at-IsBooked none_more (t + enq_fly) (push job t) (record s { calls = s.calls ++ t ∷ [] })
        (λ y. refl) h
  handle-BooksTo (push job called) s h = on_push-BooksTo none_more job s h
  handle-BooksTo (wake_arrive m) s h = signal-BooksTo none_more t m by_wake s h
  handle-BooksTo (nudge m) s h = on_nudge-BooksTo none_more m s h
  handle-BooksTo (subscribe m) s h = on_subscribe-IsBooked none_more m s h
  handle-BooksTo (close m) s h = on_close-IsBooked none_more m s h
  handle-BooksTo (release m) s h = on_release-BooksTo none_more m s h
  handle-BooksTo (exit m) s h = on_exit-BooksTo none_more m s h
  handle-BooksTo (loop m why) s h = pull_loop-BooksTo none_more t m why s h
  handle-BooksTo (release_wake m n) s h = on_release_wake-BooksTo none_more m n s h
  handle-BooksTo (job_ends m slot job) s h =
      on_job_end-BooksTo m slot job s (λ y. omega (arith, h y))

pub handle-IsBooked :
    (t : ℕ) (e : Event) (s r : Sim)
    → handle t e s ≡ ok r
    → IsBooked (λ m. ends m e) s
    → IsBooked none_more r
handle-IsBooked t e s r g h = subst (BooksTo none_more itself) g (handle-BooksTo t e s h)
