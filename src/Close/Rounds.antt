-- ===== src/Close/Rounds.antt =====
-- gen_close.py, class Sim: how many rounds the events on the heap may take.
use redisq.Base.{
  ℕ, zero, suc, ◌+◌, ◌-◌, ◌*◌, ◌≤◌, ◌<◌, ◌≡◌, refl, inl, inr, Bool, true, false, ◌&&◌, List, [],
  ◌∷◌, ◌++◌, arith, ltb, leb, if◌then◌else◌, Bool-cases, Result, ok, raise, ◌>>=◌,
}
use redisq.Base.Sort.{total}
use redisq.Base.Heapq.{Entry, total-heappush}
use redisq.Close.State.{
  Sim, Event, Why, conc, horizon, at, set_consumer, sadd, srem, len, len_from, len_zero, busy_up,
  busy_down, wake, wake_loop, wake_member, wake_arrive, wake_path, is_nil, spop, arrive_exact,
  rounded,
}

-- The rounds of an event that has `n` steps of the clock left, where each round brings at most six later ones.
unfoldable pub tree : ℕ → ℕ
tree zero = 0
tree (suc n) = 1 + 6 * tree n

pub tree_mono : (m n : ℕ) → m ≤ n → tree m ≤ tree n
unfolding tree
tree_mono zero n h = omega arith
tree_mono (suc m) zero h = absurd (omega arith)
tree_mono (suc m) (suc n) h = omega (arith, tree_mono m n (omega arith))

-- An event past the horizon takes none: the run ends there.
abbrev pub entry_rounds : Entry Event → ℕ
entry_rounds x = tree (horizon + 1 - x.time)

abbrev pub rounds : Sim → ℕ
rounds s = total entry_rounds s.ev

-- A call whose result, if it returns one, has at most `n` rounds to go.
abbrev pub Within {ℓ} : {A : Type ℓ} → ℕ → (A → Sim) → Result A → Type 0
Within n state (raise e) = Unit {0}
Within n state (ok a) = rounds (state a) ≤ n

abbrev pub itself : Sim → Sim
itself s = s

pub then-Within :
    {A B : Type 0} (n m : ℕ) (state : A → Sim) (state' : B → Sim) (call : Result A)
    (next : A → Result B)
    → Within n state call
    → ((a : A) → rounds (state a) ≤ n → Within m state' (next a))
    → Within m state' (call >>= next)
then-Within n m state state' (raise e) next h k = tt
then-Within n m state state' (ok a) next h k = k a h

pub any-Within :
    {A B : Type 0} (m : ℕ) (state : B → Sim) (call : Result A) (next : A → Result B)
    → ((a : A) → Within m state (next a))
    → Within m state (call >>= next)
any-Within m state (raise e) next k = tt
any-Within m state (ok a) next k = k a

pub if-Within :
    {A : Type 0} (n : ℕ) (state : A → Sim) (b : Bool) (x y : Result A)
    → Within n state x
    → Within n state y
    → Within n state (if b then x else y)
if-Within n state true x y h k = h
if-Within n state false x y h k = k

pub Within-weaken :
    {A : Type 0} (n m : ℕ) (state : A → Sim) (x : Result A)
    → n ≤ m
    → Within n state x
    → Within m state x
Within-weaken n m state (raise e) h k = tt
Within-weaken n m state (ok a) h k = omega (arith, k)

pub at-rounds :
    (t : ℕ) (e : Event) (s : Sim) → rounds (at t e s) ≡ tree (horizon + 1 - t) + rounds s
unfolding at
at-rounds t e s = total-heappush entry_rounds (record { time = t; order = s.n + 1; event = e }) s.ev

pub sadd-rounds : (t m : ℕ) (why : Why) (s : Sim) → rounds (sadd t m why s) ≡ rounds s
unfolding sadd
sadd-rounds t m why s = ground arith

pub srem-rounds : (t m : ℕ) (why : Why) (s : Sim) → rounds (srem t m why s) ≡ rounds s
unfolding srem
srem-rounds t m why s = ground arith

len_from-rounds : (t m : ℕ) (l : List ℕ) (s : Sim) → rounds (len_from t m l s) ≡ rounds s
unfolding len_from set_consumer
len_from-rounds t m [] s = ground (arith, sadd-rounds t m len_zero s)
len_from-rounds t m (j ∷ js) s = refl

pub len-rounds : (t m : ℕ) (s : Sim) → rounds (len t m s) ≡ rounds s
unfolding len
len-rounds t m s = len_from-rounds t m s.lst s

pub busy_up-Within : (t m : ℕ) (s : Sim) → Within (rounds s) itself (busy_up t m s)
unfolding busy_up set_consumer
busy_up-Within t m s = elim (Bool-cases (leb ((s.c m).busy + 1) conc)) [
  | inl e ↦ rw e (omega arith)
  | inr e ↦ rw e tt
]

pub busy_down-Within : (t m : ℕ) (s : Sim) → Within (rounds s) itself (busy_down t m s)
unfolding busy_down set_consumer
busy_down-Within t m s = elim (Bool-cases (ltb 0 (s.c m).busy && leb ((s.c m).busy - 1) conc)) [
  | inl e ↦ rw e (omega arith)
  | inr e ↦ rw e tt
]

-- A time that is rounded from a later one.
pub rounded_later : (t x : ℕ) → (t + 500) * 520 ≤ x → t < rounded x
unfolding rounded
rounded_later t x h = omega (arith, h)

abbrev pub first : Sim × ℕ × List ℕ → Sim
first w = w.0

-- Handling at `t`; an event that is scheduled later takes at most `u` rounds.
module _ (t u : ℕ) (later : (x : ℕ) → t < x → tree (horizon + 1 - x) ≤ u) where
  pub at-later : (x : ℕ) (e : Event) (s : Sim) → t < x → rounds (at x e s) ≤ rounds s + u
  at-later x e s h = omega (arith, at-rounds x e s, later x h)

  wake_member-rounds : (m : ℕ) (s : Sim) → rounds (wake_member t m s) ≤ rounds s + u
  unfolding wake_member at rounded arrive_exact
  wake_member-rounds m s = elim (Bool-cases (s.c m).sub) [
    | inl e ↦ rw e (
        at-later (rounded (arrive_exact t (wake_path m))) (wake_arrive m)
          (record s { wakes = s.wakes ++ (t, m) ∷ [] })
          (rounded_later t (arrive_exact t (wake_path m)) (omega arith)))
    | inr e ↦ rw e (omega arith)
  ]

  wake_loop-Within :
      (count : ℕ) (l : List ℕ) (woken : ℕ) (spopped : List ℕ) (s : Sim)
      → Within (rounds s + u) first (wake_loop t count l woken spopped s)
  unfolding wake_loop is_nil
  wake_loop-Within count [] woken spopped s = omega arith
  wake_loop-Within count (m ∷ []) woken spopped s = elim (Bool-cases (ltb woken count)) [
    | inl e ↦ rw e (
        wake_member-rounds m
          (record s { idle = []; idle_log = s.idle_log ++ (m, t, false, spop) ∷ [] }))
    | inr e ↦ rw e (omega arith)
  ]
  wake_loop-Within count (m ∷ i ∷ rest) woken spopped s = elim (Bool-cases (ltb woken count)) [
    | inl e ↦ rw e tt
    | inr e ↦ rw e (omega arith)
  ]

  pub wake-Within : (count : ℕ) (s : Sim) → Within (rounds s + u) first (wake t count s)
  unfolding wake
  wake-Within count s = wake_loop-Within count s.idle 0 [] s
