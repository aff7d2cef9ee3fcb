-- ===== src/Close/Pull/Booked.antt =====
-- gen_close.py, class Sim: a pop counts its job before its end is scheduled.
use redisq.Base.{
  ℕ, ◌+◌, ◌-◌, ◌*◌, refl, inl, inr, Bool, true, false, ◌&&◌, not, some, none, List, [], ◌∷◌, ◌++◌,
  ltb, if◌then◌else◌, Bool-cases, map, set, take, drop, min, assert, or_raise, key_error,
  ℕ_discrete,
}
use redisq.Base.Dict
use redisq.Close.State.{
  Sim, Consumer, Held, Run, Why, loop, job_ends, in_pending, conc, pop_max, work, pop_gap, queued,
  pop_path, arrive_exact, rounded, at, set_consumer, sadd, short_pop, busy_up, len, is_nil,
}
use redisq.Close.Booked.{
  IsBooked, one_more, BooksTo, itself, then-BooksTo, any-BooksTo, if-BooksTo, set_consumer-IsBooked,
  at-IsBooked, at_end-IsBooked, sadd-IsBooked, len-IsBooked, busy_up-BooksTo,
}
use redisq.Close.Pull.{
  free_row, free_slot, take_job, take_jobs, is_short, pop_call, set_pulling, look_behind, look,
  loop_last, pull_loop, signal,
}

abbrev looked : Sim × Bool → Sim
looked x = x.0

module _ (f : ℕ → ℕ) (t : ℕ) where
  -- What follows once the consumer counts the job as busy.
  started-IsBooked :
      (m slot : ℕ) (why : Why) (job : ℕ) (run : Run) (x : List (ℕ × ℕ)) (until : ℕ) (s : Sim)
      → IsBooked (one_more m f) s
      → IsBooked f (
          at until (job_ends m slot job) (record s {
            x = x;
            places = s.places ++ (job, t, in_pending m) ∷ [];
            pops = s.pops ++ (t, m, job, why) ∷ [];
            runs = s.runs ++ run ∷ [];
          }))
  started-IsBooked m slot why job run x until s h =
      at_end-IsBooked f until m slot job
        (record s {
          x = x;
          places = s.places ++ (job, t, in_pending m) ∷ [];
          pops = s.pops ++ (t, m, job, why) ∷ [];
          runs = s.runs ++ run ∷ [];
        })
        h

  take_job-BooksTo :
      (m : ℕ) (why : Why) (job : ℕ) (s : Sim)
      → IsBooked f s
      → BooksTo f itself (take_job t m why job s)
  unfolding take_job
  take_job-BooksTo m why job s h =
      any-BooksTo f itself (free_row (map (λ e. e.1.row) s.pending)) _ λ row.
        any-BooksTo f itself (free_slot (s.c m).slots) _ λ slot.
          let held : Held = record { owner = m; row = row; since = t; number = (s.c m).seq + 1 } in
          let st : Consumer = record (s.c m) {
            seq = (s.c m).seq + 1;
            beat = true;
            slots = set (s.c m).slots slot (some job);
          } in
          let s₀ : Sim = record s { pending = Dict.insert ℕ_discrete job held s.pending } in
          let s₁ : Sim = set_consumer m st s₀ in
          then-BooksTo (one_more m f) f itself itself (busy_up t m s₁) _
            (busy_up-BooksTo f t m s₁ (set_consumer-IsBooked f m st s₀ refl h))
            λ s₂ k. any-BooksTo f itself (or_raise key_error (Dict.get ℕ_discrete job s₂.x)) _ λ x.
              started-IsBooked m slot why job
                (record {
                  by = m;
                  slot = slot;
                  job = job;
                  start = arrive_exact t (pop_path m);
                  end_time = none;
                  frac = none;
                })
                (Dict.erase ℕ_discrete job s₂.x)
                (rounded (arrive_exact t (pop_path m) + work job * 520)) s₂ k

  take_jobs-BooksTo :
      (m : ℕ) (why : Why) (jobs : List ℕ) (s : Sim)
      → IsBooked f s
      → BooksTo f itself (take_jobs t m why jobs s)
  unfolding take_jobs
  take_jobs-BooksTo m why [] s h = h
  take_jobs-BooksTo m why (j ∷ jobs) s h =
      then-BooksTo f f itself itself (take_job t m why j s) (take_jobs t m why jobs)
        (take_job-BooksTo m why j s h) (λ r k. take_jobs-BooksTo m why jobs r k)

  short-IsBooked :
      (m : ℕ) (b : Bool) (s : Sim)
      → IsBooked f s
      → IsBooked f (if b then sadd t m short_pop s else s)
  short-IsBooked m true s h = sadd-IsBooked f t m short_pop s h
  short-IsBooked m false s h = h

  pop_call-BooksTo :
      (m want : ℕ) (why : Why) (s : Sim) → IsBooked f s → BooksTo f itself (pop_call t m want why s)
  unfolding pop_call
  pop_call-BooksTo m want why s h =
      any-BooksTo f itself (assert (not (is_nil (take want s.lst)))) _ λ e.
        then-BooksTo f f itself itself
          (take_jobs t m why (take want s.lst) (record s { lst = drop want s.lst })) _
          (take_jobs-BooksTo m why (take want s.lst) (record s { lst = drop want s.lst }) h)
          λ r k.
            let short = is_short want (take want s.lst) r in
            let s₂ : Sim = if short && (r.c m).consumer then sadd t m short_pop r else r in
            set_consumer-IsBooked f m (record (s₂.c m) { is_free = short }) s₂ refl
              (short-IsBooked m (short && (r.c m).consumer) r k)

  set_pulling-IsBooked :
      (m : ℕ) (b : Bool) (s : Sim) → IsBooked f s → IsBooked f (set_pulling m b s)
  unfolding set_pulling
  set_pulling-IsBooked m b s h = set_consumer-IsBooked f m (record (s.c m) { pulling = b }) s refl h

  look_behind-BooksTo :
      (m : ℕ) (why : Why) (s : Sim) → IsBooked f s → BooksTo f looked (look_behind t m why s)
  unfolding look_behind
  look_behind-BooksTo m why s h =
      let s₁ : Sim = len t m s in
      let s₂ : Sim = set_pulling m true s₁ in
      let k : IsBooked f s₁ = len-IsBooked f t m s h in
      let want = min (conc - (s₁.c m).busy) pop_max in
      if-BooksTo f looked (is_nil s₁.lst) _ _ k (
        then-BooksTo f f itself looked (pop_call t m want why s₂) _
          (pop_call-BooksTo m want why s₂ (set_pulling-IsBooked m true s₁ k))
          λ r l. at-IsBooked f (t + pop_gap) (loop m why) r (λ y. refl) l)

  look-BooksTo : (m : ℕ) (why : Why) (s : Sim) → IsBooked f s → BooksTo f looked (look t m why s)
  unfolding look
  look-BooksTo m why s h =
      if-BooksTo f looked ((s.c m).alive && ltb (s.c m).busy conc) _ _
        (look_behind-BooksTo m why s h) h

  loop_last-BooksTo : (m : ℕ) (s : Sim) → IsBooked f s → BooksTo f itself (loop_last t m s)
  unfolding loop_last
  loop_last-BooksTo m s h =
      then-BooksTo f f looked itself (look t m queued s) _ (look-BooksTo m queued s h) λ x k.
        elim (Bool-cases x.1) [ inl e ↦ rw e k | inr e ↦ rw e (set_pulling-IsBooked m false x.0 k) ]

  pub pull_loop-BooksTo :
      (m : ℕ) (why : Why) (s : Sim) → IsBooked f s → BooksTo f itself (pull_loop t m why s)
  unfolding pull_loop
  pull_loop-BooksTo m why s h =
      then-BooksTo f f looked itself (look t m why s) _ (look-BooksTo m why s h) λ x k.
        let stopped : Sim = set_pulling m false x.0 in
        let l : IsBooked f stopped = set_pulling-IsBooked m false x.0 k in
        let st : Consumer = record (stopped.c m) { signalled = false } in
        if-BooksTo f itself x.1 _ _ k (
          if-BooksTo f itself (stopped.c m).signalled _ _
            (loop_last-BooksTo m (set_consumer m st stopped)
              (set_consumer-IsBooked f m st stopped refl l))
            l)

  pub signal-BooksTo :
      (m : ℕ) (why : Why) (s : Sim) → IsBooked f s → BooksTo f itself (signal t m why s)
  unfolding signal
  signal-BooksTo m why s h = if-BooksTo f itself (not (s.c m).alive) _ _ h (
      if-BooksTo f itself (s.c m).pulling _ _
        (set_consumer-IsBooked f m (record (s.c m) { signalled = true }) s refl h)
        (pull_loop-BooksTo m why s h))
