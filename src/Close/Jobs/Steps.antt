-- ===== src/Close/Jobs/Steps.antt =====
-- gen_close.py, class Sim: its plumbing and the wake script leave the jobs alone.
use redisq.Base.{
  ◌&&◌, ◌++◌, leb→le, ℕ, ◌+◌, ◌-◌, ◌≤◌, ◌≡◌, refl, inl, inr, true, false, List, [], ◌∷◌, arith, ltb,
  leb, Bool-cases, elem, Result, ok, raise,
}
use redisq.Base.Heapq.{Entry, total-heappush}
use redisq.Close.State.{
  Sim, Consumer, Event, Why, wake_arrive, conc, at, set_consumer, sadd, srem, len, busy_up,
  busy_down, update, len_from, len_zero, wake, wake_loop, wake_member, is_nil, spop,
}
use redisq.Close.Jobs.{brings, Moves, Moves-trans, MovesTo, same-Moves}

pub set_consumer-Moves :
    (m : ℕ) (st : Consumer) (s : Sim)
    → st.closed ≡ (s.c m).closed
    → ((s.c m).busy ≤ conc → st.busy ≤ conc)
    → Moves s (set_consumer m st s)
unfolding set_consumer update
set_consumer-Moves m st s closed busy = record {
  same_acks = refl;
  same_closed = λ y. ground (arith, closed);
  same_coming = λ j. refl;
  same_hand = λ h j. refl;
  within = λ h y. ground (arith, h y, busy (h m));
}

pub at-Moves : (t : ℕ) (e : Event) (s : Sim) → ((j : ℕ) → brings j e ≡ 0) → Moves s (at t e s)
unfolding at
at-Moves t e s n = record {
  same_acks = refl;
  same_closed = λ y. refl;
  same_coming = λ j. omega (
    arith,
    n j,
    total-heappush (λ (x : Entry Event). brings j x.event)
        (record { time = t; order = s.n + 1; event = e }) s.ev,
  );
  same_hand = λ h j. refl;
  within = λ h y. h y;
}

pub sadd-Moves : (t m : ℕ) (why : Why) (s : Sim) → Moves s (sadd t m why s)
unfolding sadd
sadd-Moves t m why s = elim (Bool-cases (elem m s.idle)) [
  | inl e ↦ rw e (same-Moves s s refl refl refl refl refl)
  | inr e ↦ rw e (same-Moves s _ refl refl refl refl refl)
]

pub srem-Moves : (t m : ℕ) (why : Why) (s : Sim) → Moves s (srem t m why s)
unfolding srem
srem-Moves t m why s = elim (Bool-cases (elem m s.idle)) [
  | inl e ↦ rw e (same-Moves s _ refl refl refl refl refl)
  | inr e ↦ rw e (same-Moves s s refl refl refl refl refl)
]

-- The count of a busy consumer changes, and its log.
busy-Moves :
    (t m b : ℕ) (s : Sim)
    → b ≤ conc
    → Moves s (record (set_consumer m (record (s.c m) { busy = b }) s) {
      busy_log = s.busy_log ++ (m, t, b) ∷ [];
    })
unfolding set_consumer
busy-Moves t m b s h =
    Moves-trans s _ _ (set_consumer-Moves m (record (s.c m) { busy = b }) s refl (λ k. h))
      (same-Moves (set_consumer m (record (s.c m) { busy = b }) s) _ refl refl refl refl refl)

pub busy_up-MovesTo : (t m : ℕ) (s : Sim) → MovesTo s (busy_up t m s)
unfolding busy_up set_consumer
busy_up-MovesTo t m s = elim (Bool-cases (leb ((s.c m).busy + 1) conc)) [
  | inl e ↦ rw e (busy-Moves t m ((s.c m).busy + 1) s (leb→le _ _ e))
  | inr e ↦ rw e tt
]

pub busy_down-MovesTo : (t m : ℕ) (s : Sim) → MovesTo s (busy_down t m s)
unfolding busy_down set_consumer
busy_down-MovesTo t m s = elim (Bool-cases (ltb 0 (s.c m).busy && leb ((s.c m).busy - 1) conc)) [
  | inl e ↦ rw e (busy-Moves t m ((s.c m).busy - 1) s (ground (arith, e)))
  | inr e ↦ rw e tt
]

len_from-Moves : (t m : ℕ) (l : List ℕ) (s : Sim) → Moves s (len_from t m l s)
unfolding len_from
len_from-Moves t m [] s =
    let s' : Sim = sadd t m len_zero s in
    elim (Bool-cases (s.c m).consumer) [
      | inl e ↦ rw e (
          Moves-trans s s' _ (sadd-Moves t m len_zero s)
            (set_consumer-Moves m (record (s'.c m) { is_free = true }) s' refl (λ h. h)))
      | inr e ↦ rw e (same-Moves s s refl refl refl refl refl)
    ]
len_from-Moves t m (j ∷ js) s = same-Moves s s refl refl refl refl refl

pub len-Moves : (t m : ℕ) (s : Sim) → Moves s (len t m s)
unfolding len
len-Moves t m s = len_from-Moves t m s.lst s

wake_member-Moves : (t m : ℕ) (s : Sim) → Moves s (wake_member t m s)
unfolding wake_member
wake_member-Moves t m s = elim (Bool-cases (s.c m).sub) [
  | inl e ↦
      let s' : Sim = record s { wakes = s.wakes ++ (t, m) ∷ [] } in
      rw e (
        Moves-trans s s' _ (same-Moves s s' refl refl refl refl refl)
          (at-Moves _ (wake_arrive m) s' (λ j. refl)))
  | inr e ↦ rw e (same-Moves s s refl refl refl refl refl)
]

-- A wake that returns has moved.
abbrev pub WakesTo : Sim → Result (Sim × ℕ × List ℕ) → Type 0
WakesTo s (raise e) = Unit {0}
WakesTo s (ok x) = Moves s x.0

after-WakesTo : (s r : Sim) (x : Result (Sim × ℕ × List ℕ)) → Moves s r → WakesTo r x → WakesTo s x
after-WakesTo s r (raise e) h k = tt
after-WakesTo s r (ok u) h k = Moves-trans s r u.0 h k

wake_loop-WakesTo :
    (t count : ℕ) (l : List ℕ) (woken : ℕ) (spopped : List ℕ) (s : Sim)
    → WakesTo s (wake_loop t count l woken spopped s)
unfolding wake_loop
wake_loop-WakesTo t count [] woken spopped s = same-Moves s s refl refl refl refl refl
wake_loop-WakesTo t count (m ∷ rest) woken spopped s =
    let s' : Sim = record s { idle = rest; idle_log = s.idle_log ++ (m, t, false, spop) ∷ [] } in
    let moved : Moves s (wake_member t m s') =
      Moves-trans s s' _ (same-Moves s s' refl refl refl refl refl) (wake_member-Moves t m s') in
    elim (Bool-cases (ltb woken count)) [
      | inl e ↦ rw e (elim (Bool-cases (is_nil rest)) [
        | inl n ↦ rw n (
            after-WakesTo s (wake_member t m s') _ moved
              (wake_loop-WakesTo t count rest _ _ (wake_member t m s')))
        | inr n ↦ rw n tt
      ])
      | inr e ↦ rw e (same-Moves s s refl refl refl refl refl)
    ]

pub wake-WakesTo : (t count : ℕ) (s : Sim) → WakesTo s (wake t count s)
unfolding wake
wake-WakesTo t count s = wake_loop-WakesTo t count s.idle 0 [] s
