-- ===== src/Close/Booked.antt =====
-- gen_close.py, class Sim: a job that is scheduled to end is counted as busy.
use redisq.Base.{
  ℕ, ◌+◌, ◌-◌, ◌≤◌, ◌≡◌, refl, inl, inr, Bool, true, false, ◌&&◌, List, [], ◌∷◌, ◌++◌, arith, ltb,
  leb, ◌==◌, if◌then◌else◌, Bool-cases, elem, Result, ok, raise, ◌>>=◌, assert,
}
use redisq.Base.Sort.{total}
use redisq.Base.Heapq.{Entry, total-heappush}
use redisq.Close.State.{
  Sim, Consumer, Event, Why, enqueue, push, wake_arrive, nudge, subscribe, close, release, exit,
  loop, release_wake, job_ends, conc, at, set_consumer, update, sadd, srem, len, len_from, len_zero,
  busy_up, busy_down, wake, wake_loop, wake_member, is_nil, spop,
}

-- Whether an event ends a job of consumer `m`.
abbrev pub ends : ℕ → Event → ℕ
ends m (enqueue j) = 0
ends m (push j called) = 0
ends m (wake_arrive i) = 0
ends m (nudge i) = 0
ends m (subscribe i) = 0
ends m (close i) = 0
ends m (release i) = 0
ends m (exit i) = 0
ends m (loop i why) = 0
ends m (release_wake i n) = 0
ends m (job_ends i slot j) = if i == m then 1 else 0

-- How many jobs of `m` are scheduled to end.
abbrev pub ending : ℕ → Sim → ℕ
ending m s = total (λ x. ends m x.event) s.ev

-- Those, and `f m` more, are counted as busy.
abbrev pub IsBooked : (ℕ → ℕ) → Sim → Type 0
IsBooked f s = (m : ℕ) → ending m s + f m ≤ (s.c m).busy

abbrev pub one_more : ℕ → (ℕ → ℕ) → ℕ → ℕ
one_more m f y = (if m == y then 1 else 0) + f y

-- A call whose result, if it returns one, is booked.
abbrev pub BooksTo {ℓ} : {A : Type ℓ} → (ℕ → ℕ) → (A → Sim) → Result A → Type 0
BooksTo f state (raise e) = Unit {0}
BooksTo f state (ok a) = IsBooked f (state a)

pub then-BooksTo :
    {A B : Type 0} (f g : ℕ → ℕ) (state : A → Sim) (state' : B → Sim) (call : Result A)
    (next : A → Result B)
    → BooksTo f state call
    → ((a : A) → IsBooked f (state a) → BooksTo g state' (next a))
    → BooksTo g state' (call >>= next)
then-BooksTo f g state state' (raise e) next h k = tt
then-BooksTo f g state state' (ok a) next h k = k a h

pub any-BooksTo :
    {A B : Type 0} (f : ℕ → ℕ) (state : B → Sim) (call : Result A) (next : A → Result B)
    → ((a : A) → BooksTo f state (next a))
    → BooksTo f state (call >>= next)
any-BooksTo f state (raise e) next k = tt
any-BooksTo f state (ok a) next k = k a

pub if-BooksTo :
    {A : Type 0} (f : ℕ → ℕ) (state : A → Sim) (b : Bool) (x y : Result A)
    → BooksTo f state x
    → BooksTo f state y
    → BooksTo f state (if b then x else y)
if-BooksTo f state true x y h k = h
if-BooksTo f state false x y h k = k

pub set_consumer-IsBooked :
    (f : ℕ → ℕ) (m : ℕ) (st : Consumer) (s : Sim)
    → st.busy ≡ (s.c m).busy
    → IsBooked f s
    → IsBooked f (set_consumer m st s)
unfolding set_consumer update
set_consumer-IsBooked f m st s e h y = ground (arith, e, h y)

pub at-IsBooked :
    (f : ℕ → ℕ) (t : ℕ) (e : Event) (s : Sim)
    → ((y : ℕ) → ends y e ≡ 0)
    → IsBooked f s
    → IsBooked f (at t e s)
unfolding at
at-IsBooked f t e s n h y = omega (
  arith,
  n y,
  h y,
  total-heappush (λ (x : Entry Event). ends y x.event)
      (record { time = t; order = s.n + 1; event = e }) s.ev,
)

-- The end of a job that is counted is scheduled.
pub at_end-IsBooked :
    (f : ℕ → ℕ) (t m slot job : ℕ) (s : Sim)
    → IsBooked (one_more m f) s
    → IsBooked f (at t (job_ends m slot job) s)
unfolding at
at_end-IsBooked f t m slot job s h y = omega (
  arith,
  h y,
  total-heappush (λ (x : Entry Event). ends y x.event)
      (record { time = t; order = s.n + 1; event = job_ends m slot job }) s.ev,
)

pub sadd-IsBooked :
    (f : ℕ → ℕ) (t m : ℕ) (why : Why) (s : Sim) → IsBooked f s → IsBooked f (sadd t m why s)
unfolding sadd
sadd-IsBooked f t m why s h = elim (Bool-cases (elem m s.idle)) [ inl e ↦ rw e h | inr e ↦ rw e h ]

pub srem-IsBooked :
    (f : ℕ → ℕ) (t m : ℕ) (why : Why) (s : Sim) → IsBooked f s → IsBooked f (srem t m why s)
unfolding srem
srem-IsBooked f t m why s h = elim (Bool-cases (elem m s.idle)) [ inl e ↦ rw e h | inr e ↦ rw e h ]

len_from-IsBooked :
    (f : ℕ → ℕ) (t m : ℕ) (l : List ℕ) (s : Sim) → IsBooked f s → IsBooked f (len_from t m l s)
unfolding len_from
len_from-IsBooked f t m [] s h =
    let s' : Sim = sadd t m len_zero s in
    elim (Bool-cases (s.c m).consumer) [
      | inl e ↦ rw e (
          set_consumer-IsBooked f m (record (s'.c m) { is_free = true }) s' refl
            (sadd-IsBooked f t m len_zero s h))
      | inr e ↦ rw e h
    ]
len_from-IsBooked f t m (j ∷ js) s h = h

pub len-IsBooked : (f : ℕ → ℕ) (t m : ℕ) (s : Sim) → IsBooked f s → IsBooked f (len t m s)
unfolding len
len-IsBooked f t m s h = len_from-IsBooked f t m s.lst s h

abbrev pub itself : Sim → Sim
itself s = s

pub busy_up-BooksTo :
    (f : ℕ → ℕ) (t m : ℕ) (s : Sim) → IsBooked f s → BooksTo (one_more m f) itself (busy_up t m s)
unfolding busy_up set_consumer update
busy_up-BooksTo f t m s h = elim (Bool-cases (leb ((s.c m).busy + 1) conc)) [
  | inl e ↦ rw e (λ y. ground (arith, h y))
  | inr e ↦ rw e tt
]

pub busy_down-BooksTo :
    (f : ℕ → ℕ) (t m : ℕ) (s : Sim) → IsBooked (one_more m f) s → BooksTo f itself (busy_down t m s)
unfolding busy_down set_consumer update
busy_down-BooksTo f t m s h =
    elim (Bool-cases (ltb 0 (s.c m).busy && leb ((s.c m).busy - 1) conc)) [
      | inl e ↦ rw e (λ y. ground (arith, h y))
      | inr e ↦ rw e tt
    ]

abbrev pub first : Sim × ℕ × List ℕ → Sim
first w = w.0

wake_member-IsBooked :
    (f : ℕ → ℕ) (t m : ℕ) (s : Sim) → IsBooked f s → IsBooked f (wake_member t m s)
unfolding wake_member
wake_member-IsBooked f t m s h = elim (Bool-cases (s.c m).sub) [
  | inl e ↦
      rw e (
        at-IsBooked f _ (wake_arrive m) (record s { wakes = s.wakes ++ (t, m) ∷ [] }) (λ y. refl) h)
  | inr e ↦ rw e h
]

wake_loop-BooksTo :
    (f : ℕ → ℕ) (t count : ℕ) (l : List ℕ) (woken : ℕ) (spopped : List ℕ) (s : Sim)
    → IsBooked f s
    → BooksTo f first (wake_loop t count l woken spopped s)
unfolding wake_loop
wake_loop-BooksTo f t count [] woken spopped s h = h
wake_loop-BooksTo f t count (m ∷ rest) woken spopped s h =
    let s' : Sim = record s { idle = rest; idle_log = s.idle_log ++ (m, t, false, spop) ∷ [] } in
    if-BooksTo f first (ltb woken count) _ _
      (any-BooksTo f first (assert (is_nil rest)) _ λ e.
        wake_loop-BooksTo f t count rest _ _ (wake_member t m s') (wake_member-IsBooked f t m s' h))
      h

pub wake-BooksTo :
    (f : ℕ → ℕ) (t count : ℕ) (s : Sim) → IsBooked f s → BooksTo f first (wake t count s)
unfolding wake
wake-BooksTo f t count s h = wake_loop-BooksTo f t count s.idle 0 [] s h
