-- ===== src/Wake/Simulate/Members.antt =====
-- assets/diagrams/gen/gen_wake.py, simulate: who is in the idle set, and whom an enqueue wakes.
use redisq.Base.{
  ℕ, ◌≢◌, zero, suc, ◌+◌, ◌≤◌, ◌≡◌, refl, sym, ap, subst, ◌∙◌, ◌⊎◌, inl, inr, true, false, not,
  List, [], ◌∷◌, ◌++◌, arith, Bool-cases, elem, discard, elem-add, elem-discard,
  length-discard-elem, length, length-append, ok, >>=-eq-ok,
}
use redisq.Wake.Simulate.{
  Sim, Event, Busy, enqueue, nudge, pop, signal, done, free, dispatching, running, pull,
  take_signal, handle, pull_from, update, is_idle, is_nil, on_enqueue, on_nudge, pop_from, on_done,
  wake_loop, spop_from, member, Kind, poke, nudged, log_signal, log_nudge,
}
use redisq.Wake.Simulate.Invariant.{Holds, runs}

-- What one SPOP does to the set.
spop_lem :
    (t job : ℕ) (s : Sim) (picks : List ℕ) (x : Sim × ℕ)
    → spop_from t job s picks ≡ ok x
    → (elem x.1 s.idle ≡ true) × (x.0.idle ≡ discard x.1 s.idle) × (x.0.enq_log ≡ s.enq_log)
unfolding spop_from
spop_lem t job s [] x g = cc
spop_lem t job s (c ∷ picks) x g = ground arith

-- What the wake loop, with `k` rounds to go, does for consumer `c`.
pub record Woken (k : ℕ) (woken : List ℕ) (s : Sim) (x : Sim × List ℕ) : Type 0 where
  pub few : length x.1 ≤ length woken + k
  pub taken : length x.1 + length x.0.idle ≤ length woken + length s.idle
  pub enough : (length x.1 ≡ length woken + k) ⊎ (x.0.idle ≡ [])
  pub shrunk : (c : ℕ) → elem c x.0.idle ≡ true → elem c s.idle ≡ true
  pub same_log : x.0.enq_log ≡ s.enq_log

is_nil_iff : (l : List ℕ) → is_nil l ≡ true → l ≡ []
unfolding is_nil
is_nil_iff [] h = refl
is_nil_iff (x ∷ l) h = cc

pub wake_loop-Woken :
    (k t job : ℕ) (woken : List ℕ) (s : Sim) (x : Sim × List ℕ)
    → wake_loop k t job woken s ≡ ok x
    → Woken k woken s x
unfolding wake_loop
wake_loop-Woken zero t job woken s x g =
    let e : (s, woken) ≡ x = ground arith in
    subst (Woken 0 woken s) e (record {
      few = omega arith;
      taken = omega arith;
      enough = inl (omega arith);
      shrunk = λ c h. h;
      same_log = refl;
    })
wake_loop-Woken (suc k) t job woken s x g = elim (Bool-cases (is_nil s.idle)) [
  | inl n ↦
      let e : (s, woken) ≡ x = ground arith in
      subst (Woken (suc k) woken s) e (record {
        few = omega arith;
        taken = omega arith;
        enough = inr (is_nil_iff s.idle n);
        shrunk = λ c h. h;
        same_log = refl;
      })
  | inr n ↦
      let (y, f, r) =
        >>=-eq-ok (spop_from t job s s.picks) (λ x. wake_loop k t job (woken ++ x.1 ∷ []) x.0)
          (rw n at g) in
      let (m, d, l) = spop_lem t job s s.picks y f in
      let w = wake_loop-Woken k t job (woken ++ y.1 ∷ []) y.0 x r in
      let len = length-append woken (y.1 ∷ []) in
      let fewer = ap (length {A = ℕ}) d in
      record {
        few = omega (arith, w.few, len);
        taken = omega (arith, w.taken, len, fewer, length-discard-elem y.1 s.idle m);
        enough = elim w.enough [ inl e ↦ inl (omega (arith, e, len)) | inr e ↦ inr e ];
        shrunk = λ c h. ground (arith, w.shrunk c h, elem-discard c y.1 s.idle);
        same_log = w.same_log ∙ l;
      }
]

-- An enqueue that does not raise logs whom it woke: at most as many as items then wait, and with those
-- left in the idle set at most as many as were in it; either one for each item, or nobody is left in it.
pub enqueue_wakes :
    (t job : ℕ) (s r : Sim)
    → handle t (enqueue job) s ≡ ok r
    → (woken : List ℕ) × (r.enq_log ≡ s.enq_log ++ (t, job, length s.queue + 1, woken, s.idle) ∷ [])
      × (length woken ≤ length s.queue + 1)
      × (length woken + length r.idle ≤ length s.idle)
      × ((length woken ≡ length s.queue + 1) ⊎ (r.idle ≡ []))
unfolding handle on_enqueue
enqueue_wakes t job s r g =
    let s' : Sim = record s { queue = s.queue ++ job ∷ []; enqueued = s.enqueued ++ job ∷ [] } in
    let (y, f, e) =
      >>=-eq-ok (wake_loop (length s'.queue) t job [] s')
        (λ x.
          ok
            (record (x.0) { enq_log = x.0.enq_log ++ (t, job, length s'.queue, x.1, s.idle) ∷ [] }))
        g in
    let w = wake_loop-Woken (length s'.queue) t job [] s' y f in
    let len = length-append s.queue (job ∷ []) in
    let idle : y.0.idle ≡ r.idle = ground arith in
    let log : y.0.enq_log ++ (t, job, length s'.queue, y.1, s.idle) ∷ [] ≡ r.enq_log =
      ground arith in
    let n : length s'.queue ≡ length s.queue + 1 = omega (arith, len) in
    (
      y.1,
      sym log ∙ rw (w.same_log, n) refl,
      omega (arith, w.few, len),
      omega (arith, w.taken, ap (length {A = ℕ}) idle),
      elim w.enough [ inl q ↦ inl (omega (arith, q, len)) | inr q ↦ inr (sym idle ∙ q) ],
    )

pull_from-idle :
    (t c d : ℕ) (q : List ℕ) (s : Sim) → d ≢ c → elem d (pull_from t c q s).idle ≡ elem d s.idle
unfolding pull_from
pull_from-idle t c d [] s n = ground (arith, elem-add d c s.idle)
pull_from-idle t c d (j ∷ q) s n = refl

runs_not_idle : (b : Busy) (j : ℕ) → runs j b ≡ 1 → is_idle b ≡ false
unfolding is_idle
runs_not_idle free j r = absurd (omega arith)
runs_not_idle dispatching j r = refl
runs_not_idle (running i) j r = refl

take_signal-idle :
    (t c d j : ℕ) (kind : Kind) (s : Sim)
    → runs j (s.busy d) ≡ 1
    → elem d (take_signal t c kind s).idle ≡ elem d s.idle
unfolding take_signal pull log_signal
take_signal-idle t c d j kind s r = elim (Bool-cases (is_idle (s.busy c))) [
  | inl e ↦ rw e (
      pull_from-idle t c d s.queue (log_signal t c kind true s)
        (λ q. ground (arith, runs_not_idle (s.busy d) j r)))
  | inr e ↦ rw e refl
]

pull_from-busy :
    (t c j : ℕ) (q : List ℕ) (s : Sim) → s.busy c ≡ free → runs j ((pull_from t c q s).busy c) ≡ 0
unfolding pull_from
pull_from-busy t c j [] s b = ground arith
pull_from-busy t c j (i ∷ q) s b = ground arith

nudge-idle :
    (t c d j : ℕ) (s : Sim)
    → runs j (s.busy d) ≡ 1
    → s.is_free d ≡ false
    → elem d s.idle ≡ false
    → elem d (on_nudge t c s).idle ≡ false
unfolding on_nudge log_nudge
nudge-idle t c d j s r f n = elim (Bool-cases (not (is_nil s.queue))) [
  | inl w ↦ rw w (
      take_signal-idle t c d j poke (log_nudge t c s (member t c false nudged s)) r
      ∙ (ground (arith, elem-discard d c s.idle)))
  | inr w ↦ rw w (ground (arith, elem-add d c s.idle))
]

pop_from-idle :
    (t c d : ℕ) (q : List ℕ) (s : Sim) → d ≢ c → elem d (pop_from t c q s).idle ≡ elem d s.idle
unfolding pop_from
pop_from-idle t c d [] s n = ground (arith, elem-add d c s.idle)
pop_from-idle t c d (j ∷ q) s n = refl

done-idle :
    (t c d i j : ℕ) (s : Sim)
    → runs j ((on_done t c i s).busy d) ≡ 1
    → elem d (on_done t c i s).idle ≡ elem d s.idle
unfolding on_done
done-idle t c d i j s r = pull_from-idle t c d s.queue _ (λ e. absurd (
    ground (
      arith,
      pull_from-busy t c j s.queue
          (record s { busy = update s.busy c free; finished = s.finished ++ (c, i) ∷ [] }),
    )))

enqueue-idle :
    (t job d : ℕ) (s r : Sim)
    → on_enqueue t job s ≡ ok r
    → elem d s.idle ≡ false
    → elem d r.idle ≡ false
unfolding on_enqueue
enqueue-idle t job d s r g n =
    let s' : Sim = record s { queue = s.queue ++ job ∷ []; enqueued = s.enqueued ++ job ∷ [] } in
    let (y, f, e) =
      >>=-eq-ok (wake_loop (length s'.queue) t job [] s')
        (λ x.
          ok
            (record (x.0) { enq_log = x.0.enq_log ++ (t, job, length s'.queue, x.1, s.idle) ∷ [] }))
        g in
    ground (arith, (wake_loop-Woken (length s'.queue) t job [] s' y f).shrunk d)

-- Take a state in which the invariant of `Holds` holds for an event that does not raise; by it a consumer that
-- runs a job counts as one whose last look found work. Then the event does not put a consumer into the idle set
-- that runs a job: one that runs job `j` before and after, and was out of the set, stays out.
pub no_rejoin :
    (t : ℕ) (e : Event) (s r : Sim) (d j : ℕ)
    → Holds e s
    → handle t e s ≡ ok r
    → runs j (s.busy d) ≡ 1
    → runs j (r.busy d) ≡ 1
    → elem d s.idle ≡ false
    → elem d r.idle ≡ false
unfolding handle
no_rejoin t (enqueue job) s r d j h g b a n = enqueue-idle t job d s r g n
no_rejoin t (nudge c) s r d j h g b a n =
    ground (arith, nudge-idle t c d j s b (h.found_work d j b) n)
no_rejoin t (signal c kind) s r d j h g b a n = ground (arith, take_signal-idle t c d j kind s b)
no_rejoin t (pop c) s r d j h g b a n =
    let apart : d ≢ c = ground (arith, h.popping c) in
    ground (arith, pop_from-idle t c d s.queue s apart)
no_rejoin t (done c i) s r d j h g b a n =
    let e : on_done t c i s ≡ r = ground arith in ground (arith, done-idle t c d i j s (rw e a))
