-- ===== src/Wake/Simulate/Log/Nudges.antt =====
-- gen_wake.py, build: the assertions on the nudges hold of every run. A consumer has one nudge on its way,
-- later than all that its nudges have logged.
use redisq.Base.{
  ℕ, ◌+◌, ◌≤◌, ◌≡◌, refl, ◌∙◌, inl, inr, Bool, true, false, ◌&&◌, ◌||◌, not, List, [], ◌∷◌, ◌++◌,
  arith, ltb, ◌==◌, if◌then◌else◌, Bool-cases, all, any,
}
use redisq.Base.Sort.{total}
use redisq.Base.Heapq.{Entry, heappush, total-heappush}
use redisq.Wake.Simulate.{
  Sim, Event, Kind, enqueue, nudge, pop, done, poke, signal, wake, member, push, is_idle,
  take_signal, log_signal, pull, pull_from, update, local_gap, dispatching,
}
use redisq.Wake.Simulate.Log.{is_poke, is_poke_at, check_nudge}
use redisq.Wake.Simulate.Log.Passes.{all-append, any-append}

abbrev pub Signal : Type 0
Signal = ℕ × ℕ × Kind × Bool

abbrev pub Nudge : Type 0
Nudge = ℕ × ℕ × ℕ × Bool × Bool × Bool

abbrev pub nudge_of : ℕ → Event → ℕ
nudge_of c (nudge d) = if d == c then 1 else 0
nudge_of c (enqueue job) = 0
nudge_of c (signal d k) = 0
nudge_of c (pop d) = 0
nudge_of c (done d job) = 0

abbrev pub nudges : ℕ → List (Entry Event) → ℕ
nudges c = total (λ x. nudge_of c x.event)

-- What a nudge of `c` at `t` has behind it.
abbrev pub nudged_before : ℕ → ℕ → Nudge → Bool
nudged_before c t n = not (n.1 == c) || ltb n.0 t

unfoldable pub poked_before : ℕ → ℕ → Signal → Bool
unfolding is_poke
poked_before c t g = not (g.1 == c && is_poke g.2) || ltb g.0 t

-- A nudge comes later than all that its consumer's nudges have logged, and no poke is on its way.
abbrev pub due : List Nudge → List Signal → ℕ → Event → Bool
due ns gs t (nudge c) = all (nudged_before c t) ns && all (poked_before c t) gs
due ns gs t (enqueue job) = true
due ns gs t (signal d k) = not (is_poke k)
due ns gs t (pop d) = true
due ns gs t (done d job) = true

abbrev pub entry_due : List Nudge → List Signal → Entry Event → Bool
entry_due ns gs x = due ns gs x.time x.event

pub all-heappush {ℓ} :
    {E : Type ℓ} (p : Entry E → Bool) (x : Entry E) (ys : List (Entry E))
    → all p (heappush x ys) ≡ (p x && all p ys)
unfolding heappush
all-heappush p x [] = refl
all-heappush p x (y ∷ ys) = ground (arith, all-heappush p x ys)

-- What is asserted of the nudges, and what keeps it.
pub record IsNudged (s : Sim) : Type 0 where
  pub checked : all (check_nudge s.signal_log) s.nudge_log ≡ true
  pub single : (c : ℕ) → nudges c s.ev ≤ 1
  pub fresh : all (λ x. due s.nudge_log s.signal_log x.time x.event) s.ev ≡ true

pub same-IsNudged :
    (s r : Sim)
    → r.ev ≡ s.ev
    → r.nudge_log ≡ s.nudge_log
    → r.signal_log ≡ s.signal_log
    → IsNudged s
    → IsNudged r
same-IsNudged s r e n g h = record {
  checked = rw (n, g) h.checked;
  single = λ c. rw e (h.single c);
  fresh = rw (e, n, g) h.fresh;
}

-- An event that is no nudge and no poke is pushed.
pub push-IsNudged :
    (t : ℕ) (x : Event) (s : Sim)
    → ((c : ℕ) → nudge_of c x ≡ 0)
    → due s.nudge_log s.signal_log t x ≡ true
    → IsNudged s
    → IsNudged (push t x s)
unfolding push
push-IsNudged t x s n d h = record {
  checked = h.checked;
  single = λ c. omega (
    arith,
    total-heappush (λ x. nudge_of c x.event) (record { time = t; order = s.seq; event = x }) s.ev,
    n c,
    h.single c,
  );
  fresh = ground (
    arith,
    d,
    h.fresh,
    all-heappush (entry_due s.nudge_log s.signal_log)
        (record { time = t; order = s.seq; event = x }) s.ev,
  );
}

-- A wake that is taken or ignored is not seen by what is asserted of the nudges.
check_nudge-wake :
    (gs : List Signal) (t c : ℕ) (b : Bool) (ns : List Nudge)
    → all (check_nudge (gs ++ (t, c, wake, b) ∷ [])) ns ≡ all (check_nudge gs) ns
unfolding check_nudge is_poke_at is_poke
check_nudge-wake gs t c b [] = refl
check_nudge-wake gs t c b (n ∷ ns) =
    ground (
      arith,
      check_nudge-wake gs t c b ns,
      any-append (is_poke_at n.0 n.1) gs ((t, c, wake, b) ∷ []),
    )

due-wake :
    (ns : List Nudge) (gs : List Signal) (t c : ℕ) (b : Bool) (u : ℕ) (e : Event)
    → due ns (gs ++ (t, c, wake, b) ∷ []) u e ≡ due ns gs u e
unfolding poked_before is_poke
due-wake ns gs t c b u (nudge d) =
    ground (arith, all-append (poked_before d u) gs ((t, c, wake, b) ∷ []))
due-wake ns gs t c b u (enqueue job) = refl
due-wake ns gs t c b u (signal d k) = refl
due-wake ns gs t c b u (pop d) = refl
due-wake ns gs t c b u (done d job) = refl

all_due-wake :
    (ns : List Nudge) (gs : List Signal) (t c : ℕ) (b : Bool) (ev : List (Entry Event))
    → all (entry_due ns (gs ++ (t, c, wake, b) ∷ [])) ev ≡ all (entry_due ns gs) ev
all_due-wake ns gs t c b [] = refl
all_due-wake ns gs t c b (x ∷ ev) =
    ground (arith, due-wake ns gs t c b x.time x.event, all_due-wake ns gs t c b ev)

log_wake-IsNudged : (t c : ℕ) (b : Bool) (s : Sim) → IsNudged s → IsNudged (log_signal t c wake b s)
unfolding log_signal
log_wake-IsNudged t c b s h = record {
  checked = check_nudge-wake s.signal_log t c b s.nudge_log ∙ h.checked;
  single = h.single;
  fresh = all_due-wake s.nudge_log s.signal_log t c b s.ev ∙ h.fresh;
}

pub pull_from-IsNudged :
    (t c : ℕ) (q : List ℕ) (s : Sim) → IsNudged s → IsNudged (pull_from t c q s)
unfolding pull_from member
pull_from-IsNudged t c [] s h = record { checked = h.checked; single = h.single; fresh = h.fresh }
pull_from-IsNudged t c (j ∷ js) s h =
    push-IsNudged (t + local_gap) (pop c) (record s { busy = update s.busy c dispatching })
      (λ d. refl) refl (record { checked = h.checked; single = h.single; fresh = h.fresh })

pub take_wake-IsNudged : (t c : ℕ) (s : Sim) → IsNudged s → IsNudged (take_signal t c wake s)
unfolding take_signal pull
take_wake-IsNudged t c s h = elim (Bool-cases (is_idle (s.busy c))) [
  | inl e ↦
      rw e (
        pull_from-IsNudged t c s.queue (log_signal t c wake true s)
          (log_wake-IsNudged t c true s h))
  | inr e ↦ rw e (log_wake-IsNudged t c false s h)
]

-- An own lemma for each part of what a nudge of `c` at `t` changes.
pub not_yet_poked :
    (c t : ℕ) (gs : List Signal)
    → all (poked_before c t) gs ≡ true
    → any (is_poke_at t c) gs ≡ false
unfolding poked_before is_poke_at
not_yet_poked c t [] h = refl
not_yet_poked c t (g ∷ gs) h = ground (arith, not_yet_poked c t gs)

-- The nudges logged before do not see a poke by this one.
pub check_nudge-later :
    (gs : List Signal) (t c : ℕ) (k : Kind) (b : Bool) (ns : List Nudge)
    → all (nudged_before c t) ns ≡ true
    → all (check_nudge gs) ns ≡ true
    → all (check_nudge (gs ++ (t, c, k, b) ∷ [])) ns ≡ true
unfolding check_nudge is_poke_at
check_nudge-later gs t c k b [] h a = refl
check_nudge-later gs t c k b (n ∷ ns) h a =
    ground (
      arith,
      check_nudge-later gs t c k b ns,
      any-append (is_poke_at n.0 n.1) gs ((t, c, k, b) ∷ []),
    )

due-others :
    (ns : List Nudge) (gs : List Signal) (c u : ℕ) (n : Nudge) (x : Event)
    → n.1 ≡ c
    → nudge_of c x ≡ 0
    → due ns gs u x ≡ true
    → due (ns ++ n ∷ []) gs u x ≡ true
due-others ns gs c u n (nudge d) e z h = ground (arith, all-append (nudged_before d u) ns (n ∷ []))
due-others ns gs c u n (enqueue job) e z h = refl
due-others ns gs c u n (signal d k) e z h = h
due-others ns gs c u n (pop d) e z h = refl
due-others ns gs c u n (done d job) e z h = refl

due-poke :
    (ns : List Nudge) (gs : List Signal) (t c u : ℕ) (b : Bool) (x : Event)
    → nudge_of c x ≡ 0
    → due ns gs u x ≡ true
    → due ns (gs ++ (t, c, poke, b) ∷ []) u x ≡ true
unfolding poked_before is_poke
due-poke ns gs t c u b (nudge d) z h =
    ground (arith, all-append (poked_before d u) gs ((t, c, poke, b) ∷ []))
due-poke ns gs t c u b (enqueue job) z h = refl
due-poke ns gs t c u b (signal d k) z h = h
due-poke ns gs t c u b (pop d) z h = refl
due-poke ns gs t c u b (done d job) z h = refl

pub all_due-others :
    (ns : List Nudge) (gs : List Signal) (c : ℕ) (n : Nudge) (ev : List (Entry Event))
    → n.1 ≡ c
    → nudges c ev ≡ 0
    → all (entry_due ns gs) ev ≡ true
    → all (entry_due (ns ++ n ∷ []) gs) ev ≡ true
all_due-others ns gs c n [] e z h = refl
all_due-others ns gs c n (x ∷ ev) e z h =
    ground (arith, due-others ns gs c x.time n x.event e, all_due-others ns gs c n ev e)

pub all_due-poke :
    (ns : List Nudge) (gs : List Signal) (t c : ℕ) (b : Bool) (ev : List (Entry Event))
    → nudges c ev ≡ 0
    → all (entry_due ns gs) ev ≡ true
    → all (entry_due ns (gs ++ (t, c, poke, b) ∷ [])) ev ≡ true
all_due-poke ns gs t c b [] z h = refl
all_due-poke ns gs t c b (x ∷ ev) z h =
    ground (arith, due-poke ns gs t c x.time b x.event, all_due-poke ns gs t c b ev)

-- A later time leaves more behind it.
pub behind-later :
    (c t u : ℕ) (ns : List Nudge)
    → t ≤ u
    → all (nudged_before c t) ns ≡ true
    → all (nudged_before c u) ns ≡ true
behind-later c t u [] h a = refl
behind-later c t u (n ∷ ns) h a = ground (arith, behind-later c t u ns h)

pub poked-later :
    (c t u : ℕ) (gs : List Signal)
    → t ≤ u
    → all (poked_before c t) gs ≡ true
    → all (poked_before c u) gs ≡ true
unfolding poked_before
poked-later c t u [] h a = refl
poked-later c t u (g ∷ gs) h a = ground (arith, poked-later c t u gs h)
