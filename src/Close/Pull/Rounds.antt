-- ===== src/Close/Pull/Rounds.antt =====
-- gen_close.py, class Sim: a pop and the pull loop bring at most four later events.
use redisq.Base.{
  ℕ, zero, suc, ◌+◌, ◌-◌, ◌*◌, ◌≤◌, ◌<◌, inl, inr, Bool, true, false, ◌&&◌, not, some, none, List,
  [], ◌∷◌, ◌++◌, arith, ltb, Bool-cases, map, set, take, drop, min, ok, assert, or_raise, key_error,
  ℕ_discrete,
}
use redisq.Base.Dict
use redisq.Close.State.{
  Sim, Consumer, Held, Run, Why, loop, job_ends, in_pending, conc, pop_max, work, pop_gap, queued,
  horizon, pop_path, arrive_exact, rounded, at, set_consumer, busy_up, len, is_nil,
}
use redisq.Close.Rounds.{
  tree, rounds, Within, itself, then-Within, any-Within, if-Within, Within-weaken, at-later,
  len-rounds, busy_up-Within, rounded_later,
}
use redisq.Close.Pull.{
  free_row, free_slot, take_job, take_jobs, pop_call, set_pulling, look_behind, look, loop_last,
  pull_loop, signal,
}

abbrev looked : Sim × Bool → Sim
looked x = x.0

module _ (t u : ℕ) (later : (x : ℕ) → t < x → tree (horizon + 1 - x) ≤ u) where
  started-rounds :
      (m slot : ℕ) (why : Why) (job : ℕ) (run : Run) (x : List (ℕ × ℕ)) (until : ℕ) (s : Sim)
      → t < until
      → rounds (
          at until (job_ends m slot job) (record s {
            x = x;
            places = s.places ++ (job, t, in_pending m) ∷ [];
            pops = s.pops ++ (t, m, job, why) ∷ [];
            runs = s.runs ++ run ∷ [];
          }))
        ≤ rounds s + u
  started-rounds m slot why job run x until s h =
      at-later t u later until (job_ends m slot job)
        (record s {
          x = x;
          places = s.places ++ (job, t, in_pending m) ∷ [];
          pops = s.pops ++ (t, m, job, why) ∷ [];
          runs = s.runs ++ run ∷ [];
        })
        h

  until_later : (m job : ℕ) → t < rounded (arrive_exact t (pop_path m) + work job * 520)
  unfolding arrive_exact
  until_later m job = rounded_later t (arrive_exact t (pop_path m) + work job * 520) (omega arith)

  take_job-Within :
      (m : ℕ) (why : Why) (job : ℕ) (s : Sim)
      → Within (rounds s + u) itself (take_job t m why job s)
  unfolding take_job set_consumer
  take_job-Within m why job s =
      any-Within (rounds s + u) itself (free_row (map (λ e. e.1.row) s.pending)) _ λ row.
        any-Within (rounds s + u) itself (free_slot (s.c m).slots) _ λ slot.
          let held : Held = record { owner = m; row = row; since = t; number = (s.c m).seq + 1 } in
          let st : Consumer = record (s.c m) {
            seq = (s.c m).seq + 1;
            beat = true;
            slots = set (s.c m).slots slot (some job);
          } in
          let s₁ : Sim =
            set_consumer m st (record s { pending = Dict.insert ℕ_discrete job held s.pending }) in
          then-Within (rounds s₁) (rounds s + u) itself itself (busy_up t m s₁) _
            (busy_up-Within t m s₁)
            λ s₂ h.
              any-Within (rounds s + u) itself (or_raise key_error (Dict.get ℕ_discrete job s₂.x)) _
                λ x.
                  let e =
                    started-rounds m slot why job
                      (record {
                        by = m;
                        slot = slot;
                        job = job;
                        start = arrive_exact t (pop_path m);
                        end_time = none;
                        frac = none;
                      })
                      (Dict.erase ℕ_discrete job s₂.x)
                      (rounded (arrive_exact t (pop_path m) + work job * 520)) s₂
                      (until_later m job) in
                  omega (arith, e, h)

  take_jobs-Within :
      (m : ℕ) (why : Why) (n : ℕ) (l : List ℕ) (s : Sim)
      → n ≤ 1
      → Within (rounds s + u) itself (take_jobs t m why (take n l) s)
  unfolding take_jobs
  take_jobs-Within m why zero l s h = omega arith
  take_jobs-Within m why (suc n) [] s h = omega arith
  take_jobs-Within m why (suc zero) (j ∷ l) s h =
      then-Within (rounds s + u) (rounds s + u) itself itself (take_job t m why j s) ok
        (take_job-Within m why j s) (λ r k. k)
  take_jobs-Within m why (suc (suc n)) l s h = absurd (omega arith)

  pop_call-Within :
      (m want : ℕ) (why : Why) (s : Sim)
      → want ≤ 1
      → Within (rounds s + u) itself (pop_call t m want why s)
  unfolding pop_call set_consumer
  pop_call-Within m want why s h =
      any-Within (rounds s + u) itself (assert (not (is_nil (take want s.lst)))) _ λ e.
        then-Within (rounds s + u) (rounds s + u) itself itself
          (take_jobs t m why (take want s.lst) (record s { lst = drop want s.lst })) _
          (take_jobs-Within m why want s.lst (record s { lst = drop want s.lst }) h) λ r k. k

  look_behind-Within :
      (m : ℕ) (why : Why) (s : Sim) → Within (rounds s + 2 * u) looked (look_behind t m why s)
  unfolding look_behind set_pulling set_consumer
  look_behind-Within m why s =
      let s₁ : Sim = len t m s in
      let s₂ : Sim = set_pulling m true s₁ in
      let want = min (conc - (s₁.c m).busy) pop_max in
      if-Within (rounds s + 2 * u) looked (is_nil s₁.lst) _ _ (omega (arith, len-rounds t m s)) (
        then-Within (rounds s₂ + u) (rounds s + 2 * u) itself looked (pop_call t m want why s₂) _
          (pop_call-Within m want why s₂ (omega arith))
          λ r k. omega (
            arith,
            k,
            len-rounds t m s,
            at-later t u later (t + pop_gap) (loop m why) r (omega arith),
          ))

  look-Within : (m : ℕ) (why : Why) (s : Sim) → Within (rounds s + 2 * u) looked (look t m why s)
  unfolding look
  look-Within m why s =
      if-Within (rounds s + 2 * u) looked ((s.c m).alive && ltb (s.c m).busy conc) _ _
        (look_behind-Within m why s) (omega arith)

  loop_last-Within : (m : ℕ) (s : Sim) → Within (rounds s + 2 * u) itself (loop_last t m s)
  unfolding loop_last set_pulling set_consumer
  loop_last-Within m s =
      then-Within (rounds s + 2 * u) (rounds s + 2 * u) looked itself (look t m queued s) _
        (look-Within m queued s) λ x k. elim (Bool-cases x.1) [ inl e ↦ rw e k | inr e ↦ rw e k ]

  pub pull_loop-Within :
      (m : ℕ) (why : Why) (s : Sim) → Within (rounds s + 4 * u) itself (pull_loop t m why s)
  unfolding pull_loop set_pulling set_consumer
  pull_loop-Within m why s =
      then-Within (rounds s + 2 * u) (rounds s + 4 * u) looked itself (look t m why s) _
        (look-Within m why s)
        λ x k.
          let stopped : Sim = set_pulling m false x.0 in
          let cleared : Sim = set_consumer m (record (stopped.c m) { signalled = false }) stopped in
          if-Within (rounds s + 4 * u) itself x.1 _ _ (omega (arith, k)) (
            if-Within (rounds s + 4 * u) itself (stopped.c m).signalled _ _
              (Within-weaken (rounds cleared + 2 * u) (rounds s + 4 * u) itself
                (loop_last t m cleared) (omega (arith, k)) (loop_last-Within m cleared))
              (omega (arith, k)))

  pub signal-Within :
      (m : ℕ) (why : Why) (s : Sim) → Within (rounds s + 4 * u) itself (signal t m why s)
  unfolding signal set_consumer
  signal-Within m why s =
      if-Within (rounds s + 4 * u) itself (not (s.c m).alive) _ _ (omega arith) (
        if-Within (rounds s + 4 * u) itself (s.c m).pulling _ _ (omega arith)
          (pull_loop-Within m why s))
