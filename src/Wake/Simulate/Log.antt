-- ===== src/Wake/Simulate/Log.antt =====
-- assets/diagrams/gen/gen_wake.py, build: what it asserts on the logs of the run, before it draws. Times are tenths of a
-- millisecond.
pub mod Passes
pub mod Nudges
pub mod Nudging
pub mod Run
mod Tests
use redisq.Base.{
  ℕ, ◌+◌, ◌*◌, ◌/◌, max, Bool, true, false, ◌&&◌, ◌||◌, not, Option, none, some, List, [], ◌∷◌,
  ◌++◌, map, ltb, leb, ◌==◌, if◌then◌else◌, elem, any, all, select, length, Result, ok, raise,
  ◌>>=◌, ◌>>◌, assert, or_raise, value_error, index_error, key_error, stop_iteration, ℕ_discrete,
}
use redisq.Base.Dict
use redisq.Base.Sort.{sorted}
use redisq.Kfu.Spans.{span_le}
use redisq.Wake.Simulate.{
  Sim, Busy, Kind, Why, wake, poke, spop, len, nudged, pop_miss, cons, work, local_gap, same,
  is_idle, is_nil,
}

-- ENQ.
abbrev pub enq : List (ℕ × ℕ)
enq = (5000, 1) ∷ (18500, 2) ∷ []

unfoldable pub is_poke : Kind → Bool
is_poke poke = true
is_poke wake = false

pub is_spop : Why → Bool
is_spop spop = true
is_spop len = false
is_spop nudged = false
is_spop pop_miss = false

-- `max`, and `settle`: when the last change of membership and the last run are over.
maximum : List ℕ → Result ℕ
maximum [] = raise value_error
maximum (x ∷ []) = ok x
maximum (x ∷ y ∷ l) = maximum (y ∷ l) >>= λ m. ok (max x m)

settle : Sim → Result ℕ
unfolding maximum
settle s = maximum (map (λ m. m.0) s.member_log ++ map (λ r. r.3) s.run_log)

-- `kfu.D`: whole seconds, at least 1.5 s after the end.
loop_end : ℕ → ℕ
loop_end settled = (settled + 15000 + 9999) / 10000 * 10000

-- The state of the end: nothing waits, both are in the idle set and neither is busy.
is_calm : List ℕ → List ℕ → List Busy → Bool
unfolding is_nil is_idle
is_calm queue idle busy =
    is_nil queue && all (λ c. elem c idle) cons && all (λ c. elem c cons) idle && all is_idle busy

calm_from : ℕ → Sim → Bool
unfolding is_calm
calm_from settled s =
    let calm = select (λ x. leb settled x.0) s.state_log in
    ltb 0 (length calm) && all (λ x. is_calm x.2 x.3 x.4) calm

-- Wakes per enqueue: at most the items that wait, and at most the members.
pub check_enq : ℕ × ℕ × ℕ × List ℕ × List ℕ → Bool
check_enq (t, job, n, woken, before) = leb (length woken) n && leb (length woken) (length before)

-- SPOP took the member out.
pub takes_out : ℕ → ℕ → ℕ × ℕ × Bool × Why → Bool
unfolding is_spop
takes_out t c m = m.0 == t && m.1 == c && not m.2 && is_spop m.3

pub check_wake : List (ℕ × ℕ × Bool × Why) → ℕ × ℕ × ℕ × ℕ → Bool
unfolding takes_out
check_wake members w = any (takes_out w.0 w.1) members

-- Whether a poke of `c` is logged at `t`.
pub is_poke_at : ℕ → ℕ → ℕ × ℕ × Kind × Bool → Bool
unfolding is_poke
is_poke_at t c g = g.0 == t && g.1 == c && is_poke g.2

-- While items wait a nudge takes its consumer out and pokes it; with none it puts back only one whose last
-- look found no work.
pub check_nudge : List (ℕ × ℕ × Kind × Bool) → ℕ × ℕ × ℕ × Bool × Bool × Bool → Bool
unfolding is_poke_at same
check_nudge signals (t, c, n, was_busy, is_free, in_idle) =
    (if ltb 0 n then not in_idle else if is_free then in_idle else true)
    && same (ltb 0 n) (any (is_poke_at t c) signals)

-- `busy_spans`: from the pop to the job's end.
unfoldable pub busy_spans : Sim → ℕ → List (ℕ × ℕ)
busy_spans s c = map (λ p. (p.0, p.3 + work)) (select (λ p. p.1 == c) s.pop_log)

unfoldable pub inside : ℕ → List (ℕ × ℕ) → Bool
inside t spans = any (λ x. leb x.0 t && ltb t x.1) spans

no_rejoins : Sim → Bool
unfolding busy_spans inside
no_rejoins s = all (λ m. not m.2 || not (inside m.0 (busy_spans s m.1))) s.member_log

all_taken : Sim → Bool
unfolding busy_spans inside
all_taken s = all (λ g. g.3 && not (inside g.0 (busy_spans s g.1))) s.signal_log

-- One job at a time.
pub are_apart : List (ℕ × ℕ) → Bool
are_apart [] = true
are_apart (x ∷ []) = true
are_apart (x ∷ y ∷ l) = leb x.1 y.0 && are_apart (y ∷ l)

pub one_at_a_time : Sim → ℕ → Bool
unfolding are_apart busy_spans
one_at_a_time s c = are_apart (sorted span_le (busy_spans s c))

-- The first that passes a test: `next(x for x in ... if ...)`.
unfoldable pub first {ℓ} : {A : Type ℓ} → (A → Bool) → List A → Option A
first p [] = none
first p (x ∷ xs) = let rest = first p xs in if p x then some x else rest

last {ℓ} : {A : Type ℓ} → List A → Option A
last [] = none
last (x ∷ []) = some x
last (x ∷ y ∷ l) = last (y ∷ l)

same_list {ℓ} : {A : Type ℓ} → (A → A → Bool) → List A → List A → Bool
same_list eq [] [] = true
same_list eq [] (y ∷ ys) = false
same_list eq (x ∷ xs) [] = false
same_list eq (x ∷ xs) (y ∷ ys) = eq x y && same_list eq xs ys

abbrev same_pair : ℕ × ℕ → ℕ × ℕ → Bool
same_pair a b = a.0 == b.0 && a.1 == b.1

-- The pop came through its own wake, at once.
check_pop : Sim → ℕ × ℕ × ℕ × ℕ → Result (Unit {0})
unfolding is_poke
check_pop s (t, c, job, arrive) = do
  assert (any (λ g. g.0 + local_gap == t && g.1 == c && not (is_poke g.2)) s.signal_log)
  at ← or_raise key_error (Dict.get ℕ_discrete job (map (λ e. (e.1, e.0)) enq))
  assert (ltb t (at + 5000))

each {ℓ} : {A : Type ℓ} → (A → Result (Unit {0})) → List A → Result (Unit {0})
each check [] = ok tt
each check (x ∷ xs) = check x >> each check xs

-- The membership and the signals that the description tells.
same_why : Why → Why → Bool
unfolding is_spop
same_why spop w = is_spop w
same_why len len = true
same_why len w = false
same_why nudged nudged = true
same_why nudged w = false
same_why pop_miss pop_miss = true
same_why pop_miss w = false

same_change : ℕ × Bool × Why → ℕ × Bool × Why → Bool
unfolding same same_why
same_change a b = a.0 == b.0 && same a.1 b.1 && same_why a.2 b.2

member_story : Sim → Bool
unfolding same_list same_change
member_story s =
    same_list same_change (map (λ m. (m.1, m.2, m.3)) s.member_log)
      ((1, false, spop) ∷ (2, false, spop) ∷ (1, true, len) ∷ (2, true, len) ∷ [])

same_signal : ℕ × Kind × Bool → ℕ × Kind × Bool → Bool
unfolding same is_poke
same_signal a b = a.0 == b.0 && same (is_poke a.1) (is_poke b.1) && same a.2 b.2

signal_story : Sim → Bool
unfolding same_list same_signal
signal_story s =
    same_list same_signal (map (λ g. (g.1, g.2, g.3)) s.signal_log)
      ((1, wake, true) ∷ (2, wake, true) ∷ [])

-- `flights`: a consumer, how long before a time the flight starts, the time, and the arrival.
flights : Sim → List (ℕ × ℕ × ℕ × ℕ)
flights s = map (λ w. (w.1, 0, w.0, w.2)) s.wakes ++ map (λ p. (p.1, local_gap, p.0, p.3)) s.pop_log

check_flight : Sim → ℕ × ℕ × ℕ × ℕ → Bool
check_flight s (c, early, t, arrive) =
    let within = λ (u : ℕ). ltb t (u + early) && ltb u arrive in
    not (any (λ n. n.1 == c && within n.0) s.nudge_log) && not (any (λ e. within e.0) enq)

-- The assertions on the run, in order; the result is the loop's end `D`.
unfoldable pub check_log : Sim → Result ℕ
unfolding settle loop_end calm_from check_enq check_wake check_nudge no_rejoins all_taken
    one_at_a_time first last same_list check_pop each member_story signal_story flights check_flight
    is_calm
check_log s = do
  settled ← settle s
  let d = loop_end settled
  assert (calm_from settled s)
  assert (all (λ m. leb (m.0 + 15000) d) s.member_log)
  assert (all check_enq s.enq_log)
  assert (all (check_wake s.member_log) s.wakes)
  assert (all (check_nudge s.signal_log) s.nudge_log)
  assert (no_rejoins s)
  assert (any (same_pair (13000, 1)) s.stay_log)
  assert (all_taken s)
  assert (all (one_at_a_time s) cons)
  wake_y ← or_raise stop_iteration (first (λ w. w.3 == 2) s.wakes)
  enq_y ← or_raise stop_iteration (first (λ e. e.1 == 2) s.enq_log)
  assert (all (λ c. c == 2) enq_y.4 && elem 2 enq_y.4 && wake_y.1 == 2)
  assert (same_list same_pair (map (λ p. (p.2, p.1)) s.pop_log) ((1, 1) ∷ (2, 2) ∷ []))
  pop_y ← or_raise stop_iteration (first (λ p. p.2 == 2) s.pop_log)
  each (check_pop s) s.pop_log
  end ← or_raise index_error (last s.state_log)
  assert (is_calm end.2 end.3 end.4)
  assert (member_story s)
  assert (signal_story s)
  assert (all (check_flight s) (flights s))
  assert (same_list (◌==◌) (1 ∷ 2 ∷ []) (map (λ w. w.1) s.wakes))
  ok d
