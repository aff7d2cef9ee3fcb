-- ===== src/Wake/Simulate/Log/Passes.antt =====
-- gen_wake.py, build: the assertions on the enqueues, the wakes and the nudges hold of every run. Here the logs of
-- enqueues and wakes.
use redisq.Base.{
  ℕ, zero, suc, ◌≡◌, refl, subst, inl, inr, Bool, true, false, ◌&&◌, ◌||◌, List, [], ◌∷◌, ◌++◌,
  arith, Bool-cases, elem, all, any, length, Result, ok, raise, >>=-eq-ok,
}
use redisq.Wake.Simulate.{
  Sim, Event, same, Why, spop, signal, wake, member, push, arrival, plen, wake_route, wake_v,
  spop_from, wake_loop, is_nil, on_enqueue,
}
use redisq.Wake.Simulate.Members.{wake_loop-Woken}
use redisq.Wake.Simulate.Log.{is_spop, takes_out, check_wake, check_enq}

pub all-append {ℓ} :
    {A : Type ℓ} (p : A → Bool) (xs ys : List A) → all p (xs ++ ys) ≡ (all p xs && all p ys)
all-append p [] ys = refl
all-append p (x ∷ xs) ys = ground (arith, all-append p xs ys)

pub any-append {ℓ} :
    {A : Type ℓ} (p : A → Bool) (xs ys : List A) → any p (xs ++ ys) ≡ (any p xs || any p ys)
any-append p [] ys = refl
any-append p (x ∷ xs) ys = ground (arith, any-append p xs ys)

pub all_weaken {ℓ} :
    {A : Type ℓ} (p q : A → Bool) (xs : List A)
    → ((x : A) → p x ≡ true → q x ≡ true)
    → all p xs ≡ true
    → all q xs ≡ true
all_weaken p q [] w h = refl
all_weaken p q (x ∷ xs) w h = ground (arith, w x, all_weaken p q xs w)

-- What build asserts of each wake stays true as the log of memberships grows.
pub wakes-append :
    (members more : List (ℕ × ℕ × Bool × Why)) (wakes : List (ℕ × ℕ × ℕ × ℕ))
    → all (check_wake members) wakes ≡ true
    → all (check_wake (members ++ more)) wakes ≡ true
unfolding check_wake
wakes-append members more wakes h =
    all_weaken (check_wake members) (check_wake (members ++ more)) wakes
      (λ w e. ground (arith, any-append (takes_out w.0 w.1) members more)) h

-- What holds of the logs of enqueues, wakes and memberships.
pub record Passes (s : Sim) : Type 0 where
  pub enqs : all check_enq s.enq_log ≡ true
  pub wakes : all (check_wake s.member_log) s.wakes ≡ true

pub member-Passes :
    (t c : ℕ) (b : Bool) (why : Why) (s : Sim) → Passes s → Passes (member t c b why s)
unfolding member
member-Passes t c b why s h = record {
  enqs = h.enqs;
  wakes = elim (Bool-cases (same (elem c s.idle) b)) [
    | inl e ↦ rw e h.wakes
    | inr e ↦ rw e (wakes-append s.member_log ((t, c, b, why) ∷ []) s.wakes h.wakes)
  ];
}

-- Steps that leave these logs alone.
pub unlogged-Passes :
    (s r : Sim)
    → r.enq_log ≡ s.enq_log
    → r.member_log ≡ s.member_log
    → r.wakes ≡ s.wakes
    → Passes s
    → Passes r
unlogged-Passes s r e m w h = record { enqs = rw e h.enqs; wakes = rw (m, w) h.wakes }

pub push-Passes : (t : ℕ) (x : Event) (s : Sim) → Passes s → Passes (push t x s)
unfolding push
push-Passes t x s h = record { enqs = h.enqs; wakes = h.wakes }

-- The wake's member was in the set, so its leaving is logged.
taken_out :
    (t c : ℕ) (s : Sim) (arrive job : ℕ)
    → elem c s.idle ≡ true
    → check_wake (member t c false spop s).member_log (t, c, arrive, job) ≡ true
unfolding check_wake takes_out member same is_spop
taken_out t c s arrive job e =
    ground (arith, e, any-append (takes_out t c) s.member_log ((t, c, false, spop) ∷ []))

spop-Passes :
    (t job : ℕ) (s : Sim) (picks : List ℕ) (x : Sim × ℕ)
    → spop_from t job s picks ≡ ok x
    → Passes s
    → Passes x.0
unfolding spop_from
spop-Passes t job s [] x g h = cc
spop-Passes t job s (c ∷ picks) x g h = elim (Bool-cases (elem c s.idle)) [
  | inr e ↦ absurd (ground (arith, e, g))
  | inl e ↦
      let s' = member t c false spop (record s { picks = picks }) in
      let arrive = arrival t (plen (wake_route c)) wake_v in
      let s'' : Sim = record s' { wakes = s'.wakes ++ (t, c, arrive, job) ∷ [] } in
      let out : check_wake s'.member_log (t, c, arrive, job) ≡ true =
        taken_out t c (record s { picks = picks }) arrive job e in
      let kept =
        member-Passes t c false spop (record s { picks = picks })
          (record { enqs = h.enqs; wakes = h.wakes }) in
      let logged : Passes s'' = record {
        enqs = kept.enqs;
        wakes = ground (
          arith,
          kept.wakes,
          out,
          all-append (check_wake s'.member_log) s'.wakes ((t, c, arrive, job) ∷ []),
        );
      } in
      let same : ◌≡◌ {A = Sim × ℕ} (push arrive (signal c wake) s'', c) x = ground (arith, e, g) in
      subst (λ (y : Sim × ℕ). Passes y.0) same (push-Passes arrive (signal c wake) s'' logged)
]

-- A call that returns a state passes.
abbrev StatePasses : {A : Type 0} → Result (Sim × A) → Type 0
StatePasses (ok x) = Passes x.0
StatePasses (raise e) = Unit {0}

wake_loop-Passes :
    (k t job : ℕ) (woken : List ℕ) (s : Sim) (x : Sim × List ℕ)
    → wake_loop k t job woken s ≡ ok x
    → Passes s
    → Passes x.0
unfolding wake_loop
wake_loop-Passes zero t job woken s x g h = subst (λ (y : Result (Sim × List ℕ)). StatePasses y) g h
wake_loop-Passes (suc k) t job woken s x g h = elim (Bool-cases (is_nil s.idle)) [
  | inl n ↦ subst (λ (y : Result (Sim × List ℕ)). StatePasses y) (rw n at g) h
  | inr n ↦
      let (y, f, r) =
        >>=-eq-ok (spop_from t job s s.picks) (λ x. wake_loop k t job (woken ++ x.1 ∷ []) x.0)
          (rw n at g) in
      wake_loop-Passes k t job (woken ++ y.1 ∷ []) y.0 x r (spop-Passes t job s s.picks y f h)
]

pub on_enqueue-Passes : (t job : ℕ) (s r : Sim) → on_enqueue t job s ≡ ok r → Passes s → Passes r
unfolding on_enqueue check_enq
on_enqueue-Passes t job s r g h =
    let s' : Sim = record s { queue = s.queue ++ job ∷ []; enqueued = s.enqueued ++ job ∷ [] } in
    let n = length s'.queue in
    let (x, f, e) =
      >>=-eq-ok (wake_loop n t job [] s')
        (λ x. ok (record (x.0) { enq_log = x.0.enq_log ++ (t, job, n, x.1, s.idle) ∷ [] })) g in
    let p = wake_loop-Passes n t job [] s' x f (record { enqs = h.enqs; wakes = h.wakes }) in
    let w = wake_loop-Woken n t job [] s' x f in
    let entry : check_enq (t, job, n, x.1, s.idle) ≡ true = ground (arith, w.few, w.taken) in
    let logged : Passes (record (x.0) { enq_log = x.0.enq_log ++ (t, job, n, x.1, s.idle) ∷ [] }) =
      record {
        enqs = ground (
          arith,
          p.enqs,
          entry,
          all-append check_enq x.0.enq_log ((t, job, n, x.1, s.idle) ∷ []),
        );
        wakes = p.wakes;
      } in
    subst Passes (ground arith) logged
