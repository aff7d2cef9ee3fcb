-- ===== src/Wake/Simulate/Log/Run.antt =====
-- gen_wake.py, build: the assertions on the enqueues, the wakes and the nudges hold of every run.
use redisq.Base.{
  ℕ, zero, suc, ◌+◌, ◌≤◌, ◌≡◌, refl, ap, subst, inl, inr, Bool, true, false, not, ◌&&◌, Option,
  some, List, [], ◌∷◌, ◌++◌, arith, ltb, Bool-cases, elem, all, length, Result, ok, raise,
  >>=-eq-ok, assert,
}
use redisq.Base.Heapq.{Entry}
use redisq.Wake.Simulate.{
  Sim, Event, Kind, enqueue, nudge, pop, done, signal, wake, poke, spop, len, nudged, pop_miss,
  free, member, push, is_nil, is_idle, take_signal, log_signal, pull, pull_from, log_nudge,
  log_state, on_nudge, on_done, pop_from, on_enqueue, handle, update, local_gap, arrival, plen,
  wake_route, wake_v, pop_route, pop_v, work, spop_from, wake_loop, loop, loop_from, horizon,
}
use redisq.Wake.Simulate.Log.{is_poke, check_enq, check_wake, check_nudge}
use redisq.Wake.Simulate.Log.Passes.{
  Passes, member-Passes, unlogged-Passes, push-Passes, on_enqueue-Passes,
}
use redisq.Wake.Simulate.Log.Nudges.{
  nudges, nudge_of, due, IsNudged, same-IsNudged, push-IsNudged, pull_from-IsNudged,
  take_wake-IsNudged,
}
use redisq.Wake.Simulate.Log.Nudging.{on_nudge-IsNudged}

-- Both parts, for a state between two events.
pub record IsSound (s : Sim) : Type 0 where
  pub passes : Passes s
  pub is_nudged : IsNudged s

pull_from-Passes : (t c : ℕ) (q : List ℕ) (s : Sim) → Passes s → Passes (pull_from t c q s)
unfolding pull_from
pull_from-Passes t c [] s h =
    unlogged-Passes (member t c true len s) _ refl refl refl (member-Passes t c true len s h)
pull_from-Passes t c (j ∷ js) s h =
    push-Passes (t + local_gap) (pop c) _ (unlogged-Passes s _ refl refl refl h)

take_signal-Passes : (t c : ℕ) (kind : Kind) (s : Sim) → Passes s → Passes (take_signal t c kind s)
unfolding take_signal pull log_signal
take_signal-Passes t c kind s h = elim (Bool-cases (is_idle (s.busy c))) [
  | inl e ↦ rw e (
      pull_from-Passes t c s.queue (log_signal t c kind true s)
        (unlogged-Passes s _ refl refl refl h))
  | inr e ↦ rw e (unlogged-Passes s _ refl refl refl h)
]

on_nudge-Passes : (t c : ℕ) (s : Sim) → Passes s → Passes (on_nudge t c s)
unfolding on_nudge log_nudge
on_nudge-Passes t c s h = elim (Bool-cases (not (is_nil s.queue))) [
  | inl w ↦ rw w (
      push-Passes (t + 10000) (nudge c) _ (
        take_signal-Passes t c poke (log_nudge t c s (member t c false nudged s)) (
          unlogged-Passes (member t c false nudged s) _ refl refl refl
            (member-Passes t c false nudged s h))))
  | inr w ↦ rw w (
      push-Passes (t + 10000) (nudge c) _ (elim (Bool-cases (s.is_free c)) [
        | inl f ↦ rw f (
            unlogged-Passes (member t c true nudged s) _ refl refl refl
              (member-Passes t c true nudged s h))
        | inr f ↦ rw f (unlogged-Passes s _ refl refl refl h)
      ]))
]

pop_from-Passes : (t c : ℕ) (q : List ℕ) (s : Sim) → Passes s → Passes (pop_from t c q s)
unfolding pop_from
pop_from-Passes t c [] s h =
    unlogged-Passes (member t c true pop_miss s) _ refl refl refl
      (member-Passes t c true pop_miss s h)
pop_from-Passes t c (job ∷ q) s h =
    push-Passes (arrival t (plen (pop_route c)) pop_v + work) (done c job) _
      (unlogged-Passes s _ refl refl refl h)

pop_from-IsNudged : (t c : ℕ) (q : List ℕ) (s : Sim) → IsNudged s → IsNudged (pop_from t c q s)
unfolding pop_from member
pop_from-IsNudged t c [] s h = same-IsNudged s _ refl refl refl h
pop_from-IsNudged t c (job ∷ q) s h =
    push-IsNudged (arrival t (plen (pop_route c)) pop_v + work) (done c job) _ (λ d. refl) refl
      (same-IsNudged s _ refl refl refl h)

-- A call that returns a state keeps it.
abbrev StateNudged : {A : Type 0} → Result (Sim × A) → Type 0
StateNudged (ok x) = IsNudged x.0
StateNudged (raise e) = Unit {0}

-- The wakes of an enqueue.
spop-IsNudged :
    (t job : ℕ) (s : Sim) (picks : List ℕ) (x : Sim × ℕ)
    → spop_from t job s picks ≡ ok x
    → IsNudged s
    → IsNudged x.0
unfolding spop_from member is_poke
spop-IsNudged t job s [] x g h = cc
spop-IsNudged t job s (c ∷ picks) x g h =
    let s' = member t c false spop (record s { picks = picks }) in
    let arrive = arrival t (plen (wake_route c)) wake_v in
    let s'' : Sim = record s' { wakes = s'.wakes ++ (t, c, arrive, job) ∷ [] } in
    let (u, _, eq) =
      >>=-eq-ok (assert (elem c s.idle)) (λ _. ok (push arrive (signal c wake) s'', c)) g in
    subst (λ (y : Result (Sim × ℕ)). StateNudged y) eq
      (push-IsNudged arrive (signal c wake) s'' (λ d. refl) refl
        (same-IsNudged s s'' refl refl refl h))

wake_loop-IsNudged :
    (k t job : ℕ) (woken : List ℕ) (s : Sim) (x : Sim × List ℕ)
    → wake_loop k t job woken s ≡ ok x
    → IsNudged s
    → IsNudged x.0
unfolding wake_loop
wake_loop-IsNudged zero t job woken s x g h =
    subst (λ (y : Result (Sim × List ℕ)). StateNudged y) g h
wake_loop-IsNudged (suc k) t job woken s x g h = elim (Bool-cases (is_nil s.idle)) [
  | inl n ↦ subst (λ (y : Result (Sim × List ℕ)). StateNudged y) (rw n at g) h
  | inr n ↦
      let (y, f, r) =
        >>=-eq-ok (spop_from t job s s.picks) (λ x. wake_loop k t job (woken ++ x.1 ∷ []) x.0)
          (rw n at g) in
      wake_loop-IsNudged k t job (woken ++ y.1 ∷ []) y.0 x r (spop-IsNudged t job s s.picks y f h)
]

on_enqueue-IsNudged : (t job : ℕ) (s r : Sim) → on_enqueue t job s ≡ ok r → IsNudged s → IsNudged r
unfolding on_enqueue
on_enqueue-IsNudged t job s r g h =
    let s' : Sim = record s { queue = s.queue ++ job ∷ []; enqueued = s.enqueued ++ job ∷ [] } in
    let n = length s'.queue in
    let (x, f, e) =
      >>=-eq-ok (wake_loop n t job [] s')
        (λ x. ok (record (x.0) { enq_log = x.0.enq_log ++ (t, job, n, x.1, s.idle) ∷ [] })) g in
    let w = wake_loop-IsNudged n t job [] s' x f (same-IsNudged s s' refl refl refl h) in
    subst IsNudged (ground arith) (
      same-IsNudged x.0 (record (x.0) { enq_log = x.0.enq_log ++ (t, job, n, x.1, s.idle) ∷ [] })
        refl refl refl w)

-- Handling an event that has left the heap.
handle-IsSound :
    (t : ℕ) (e : Event) (s r : Sim)
    → handle t e s ≡ ok r
    → due s.nudge_log s.signal_log t e ≡ true
    → ((c : ℕ) → nudge_of c e + nudges c s.ev ≤ 1)
    → IsSound s
    → IsSound r
unfolding handle is_poke on_done pull
handle-IsSound t (enqueue job) s r g d one h = record {
  passes = on_enqueue-Passes t job s r g h.passes;
  is_nudged = on_enqueue-IsNudged t job s r g h.is_nudged;
}
handle-IsSound t (nudge c) s r g d one h =
    let last : nudges c s.ev ≡ 0 = ground (arith, one c) in
    subst IsSound (ground arith) (record {
      passes = on_nudge-Passes t c s h.passes;
      is_nudged = on_nudge-IsNudged t c s last d h.is_nudged;
    })
handle-IsSound t (signal c poke) s r g d one h = cc
handle-IsSound t (signal c wake) s r g d one h = subst IsSound (ground arith) (record {
  passes = take_signal-Passes t c wake s h.passes;
  is_nudged = take_wake-IsNudged t c s h.is_nudged;
})
handle-IsSound t (pop c) s r g d one h = subst IsSound (ground arith) (record {
  passes = pop_from-Passes t c s.queue s h.passes;
  is_nudged = pop_from-IsNudged t c s.queue s h.is_nudged;
})
handle-IsSound t (done c i) s r g d one h =
    let s' : Sim = record s { busy = update s.busy c free; finished = s.finished ++ (c, i) ∷ [] } in
    subst IsSound (ground arith) (record {
      passes = pull_from-Passes t c s.queue s' (unlogged-Passes s s' refl refl refl h.passes);
      is_nudged = pull_from-IsNudged t c s.queue s' (same-IsNudged s s' refl refl refl h.is_nudged);
    })

-- An event that leaves the heap, and what the others keep.
left-IsNudged :
    (s : Sim) (x : Entry Event) (ev : List (Entry Event))
    → s.ev ≡ x ∷ ev
    → IsNudged s
    → (due s.nudge_log s.signal_log x.time x.event ≡ true)
      × ((c : ℕ) → nudge_of c x.event + nudges c ev ≤ 1)
      × IsNudged (record s { ev = ev })
left-IsNudged s x ev e h =
    let all_due : (due s.nudge_log s.signal_log x.time x.event
          && all (λ y. due s.nudge_log s.signal_log y.time y.event) ev)
        ≡ true =
      subst (λ l. all (λ y. due s.nudge_log s.signal_log y.time y.event) l ≡ true) e h.fresh in
    (
      ground (arith, all_due),
      λ c. omega (arith, h.single c, ap (nudges c) e),
      record {
        checked = h.checked;
        single = λ c. omega (arith, h.single c, ap (nudges c) e);
        fresh = ground (arith, all_due);
      },
    )

loop_from-IsSound :
    (again : Sim → Result (Option Sim)) (s r : Sim) (ev : List (Entry Event))
    → ((s' : Sim) → again s' ≡ ok (some r) → IsSound s' → IsSound r)
    → s.ev ≡ ev
    → loop_from again s ev ≡ ok (some r)
    → IsSound s
    → IsSound r
unfolding loop_from log_state
loop_from-IsSound again s r [] ih e g h = subst IsSound (ground arith) h
loop_from-IsSound again s r (x ∷ ev) ih e g h =
    let s₁ : Sim = record s { ev = ev } in
    let (d, one, n) = left-IsNudged s x ev e h.is_nudged in
    let h₁ : IsSound s₁ = record {
      passes = unlogged-Passes s s₁ refl refl refl h.passes;
      is_nudged = n;
    } in
    elim (Bool-cases (ltb horizon x.time)) [
      | inl late ↦ subst IsSound (ground arith) h₁
      | inr early ↦
          let (s', f, g') =
            >>=-eq-ok (handle x.time x.event s₁) (λ r. again (log_state x.time x.event s.queue r))
              (rw early at g) in
          let h' = handle-IsSound x.time x.event s₁ s' f d one h₁ in
          ih (log_state x.time x.event s.queue s') g' (record {
            passes = unlogged-Passes s' _ refl refl refl h'.passes;
            is_nudged = same-IsNudged s' _ refl refl refl h'.is_nudged;
          })
    ]

loop-IsSound : (k : ℕ) (s r : Sim) → loop k s ≡ ok (some r) → IsSound s → IsSound r
unfolding loop
loop-IsSound zero s r g h = cc
loop-IsSound (suc k) s r g h =
    loop_from-IsSound (loop k) s r s.ev (λ s' e i. loop-IsSound k s' r e i) refl g h

-- No poke is a signal on its way.
abbrev pub no_pokes : List (Entry Event) → Bool
no_pokes ev = all (λ x. due [] [] x.time x.event) ev

-- Take a run that returns, from any state whose logs of enqueues, wakes, nudges and signals are empty, in which
-- each consumer has at most one nudge on its way and no poke is on its way. Of its logs hold what the
-- generator asserts of every enqueue (at most as many woken as items wait, and as members), every wake (SPOP
-- took the member out first) and every nudge (while items wait its consumer is out of the set, and else in
-- it if its last look found no work; it pokes exactly while items wait).
pub run_passes :
    (k : ℕ) (s r : Sim)
    → s.enq_log ≡ []
    → s.wakes ≡ []
    → s.nudge_log ≡ []
    → s.signal_log ≡ []
    → ((c : ℕ) → nudges c s.ev ≤ 1)
    → no_pokes s.ev ≡ true
    → loop k s ≡ ok (some r)
    → (all check_enq r.enq_log ≡ true)
      × (all (check_wake r.member_log) r.wakes ≡ true)
      × (all (check_nudge r.signal_log) r.nudge_log ≡ true)
run_passes k s r e w n g one p l =
    let h = loop-IsSound k s r l (record {
      passes = record { enqs = rw e refl; wakes = rw w refl };
      is_nudged = record { checked = rw n refl; single = one; fresh = rw (n, g) p };
    }) in
    (h.passes.enqs, h.passes.wakes, h.is_nudged.checked)
