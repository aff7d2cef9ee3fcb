-- ===== src/Dead/Store/Simulate/Valid.antt =====
-- gen_dead.py, simulate: the queue stays well formed through every event.
use redisq.Base.{
  ℕ, zero, suc, ◌+◌, ◌≡◌, refl, inl, inr, Bool, true, false, Option, some, List, [], ◌∷◌, arith,
  subst, leb, elem, all, Bool-cases, Result, ok, assert, or_raise, key_error, type_error,
  ℕ_discrete, >>=-eq-ok,
}
use redisq.Base.Dict
use redisq.Base.Sort.{sorted}
use redisq.Base.Heapq.{Entry}
use redisq.Dead.Store.{Redis, AckId, AckId-discrete, Swept, pop_one, ack, tick, wake}
use redisq.Dead.Store.Valid.{
  IsValid, same-IsValid, pop_one-IsValid, tick-IsValid, ack-IsValid, wake-IsValid,
}
use redisq.Dead.Store.Simulate.{
  Sim, Event, kill, sweep, wake_up, pop, acknowledge, time_of, push, on_kill, after_sweep,
  after_wake, on_sweep, on_wake, push_pops, on_pop, on_ack, handle, loop_from, loop, permutations,
  copy,
}

ok-IsValid : (a b : Sim) → ◌≡◌ {A = Result Sim} (ok a) (ok b) → IsValid a.redis → IsValid b.redis
ok-IsValid a b e h = let same : a ≡ b = ground arith in subst (λ (y : Sim). IsValid y.redis) same h

push_pops-redis : (t i k : ℕ) (s : Sim) → (push_pops t i k s).redis ≡ s.redis
unfolding push_pops push
push_pops-redis t i zero s = refl
push_pops-redis t i (suc k) s = push_pops-redis t (i + 1) k _

pub after_sweep-redis : (t me : ℕ) (s : Sim) (x : Swept) → (after_sweep t me s x).redis ≡ x.0
unfolding after_sweep push
after_sweep-redis t me s (r, n, ticked, notes) = ground arith

pub after_wake-redis :
    (t n : ℕ) (members : List ℕ) (s : Sim) (w : Redis × List ℕ)
    → (after_wake t n members s w).redis ≡ w.0
unfolding after_wake
after_wake-redis t n members s w = search push_pops-redis

on_kill-IsValid :
    (row_a : Bool) (t m : ℕ) (s : Sim) → IsValid s.redis → IsValid (on_kill row_a t m s).redis
unfolding on_kill
on_kill-IsValid true t m s h =
    same-IsValid s.redis (record (s.redis) { subs = Dict.insert ℕ_discrete m 0 s.redis.subs })
      (refl, refl, refl) h
on_kill-IsValid false t m s h = h

on_sweep-IsValid :
    (t me : ℕ) (s s' : Sim) → on_sweep t me s ≡ ok s' → IsValid s.redis → IsValid s'.redis
unfolding on_sweep
on_sweep-IsValid t me s s' g h = elim (Bool-cases (elem me s.alive)) [
  | inl e ↦
      let (x, f, k) =
        >>=-eq-ok (tick s.redis me (time_of t)) (λ x. ok (after_sweep t me s x)) (rw e at g) in
      ok-IsValid (after_sweep t me s x) s' k
        (rw (after_sweep-redis t me s x) (tick-IsValid s.redis me (time_of t) x h f))
  | inr e ↦ ok-IsValid s s' (rw e at g) h
]

on_wake-IsValid :
    (t n : ℕ) (s s' : Sim) → on_wake t n s ≡ ok s' → IsValid s.redis → IsValid s'.redis
unfolding on_wake
on_wake-IsValid t n s s' g h =
    let w = wake s.redis n (sorted leb s.redis.idle) in
    let (x, f, k) =
      >>=-eq-ok
        (assert
          (all (λ o. elem 1 (wake (copy s.redis) n o).1) (permutations (sorted leb s.redis.idle))))
        (λ x. ok (after_wake t n (sorted leb s.redis.idle) s w)) g in
    ok-IsValid (after_wake t n (sorted leb s.redis.idle) s w) s' k (
      rw (after_wake-redis t n (sorted leb s.redis.idle) s w)
        (wake-IsValid s.redis n (sorted leb s.redis.idle) h))

on_pop-IsValid : (t m : ℕ) (s s' : Sim) → on_pop t m s ≡ ok s' → IsValid s.redis → IsValid s'.redis
unfolding on_pop push
on_pop-IsValid t m s s' g h =
    let (x, f, k) = >>=-eq-ok (or_raise type_error (pop_one s.redis m (time_of t)).1) _ g in
    ok-IsValid _ s' k (pop_one-IsValid s.redis m (time_of t) h)

on_ack-IsValid :
    (t : ℕ) (a : AckId) (s s' : Sim) → on_ack t a s ≡ ok s' → IsValid s.redis → IsValid s'.redis
unfolding on_ack
on_ack-IsValid t a s s' g h =
    let (v, f, k) = >>=-eq-ok (or_raise key_error (Dict.get AckId-discrete a s.busy)) _ g in
    let (r, f', k') = >>=-eq-ok (ack s.redis a) _ k in
    ok-IsValid _ s' k' (ack-IsValid s.redis r a h f')

-- A queue is valid if every pending item has its deadline, in the same order, all ids handed out are below
-- the next one, and none occurs twice. Whatever event is handled at whatever time, in row A or B, a valid
-- queue stays valid if the handling does not raise.
pub handle-IsValid :
    (row_a : Bool) (t : ℕ) (e : Event) (s s' : Sim)
    → handle row_a t e s ≡ ok s'
    → IsValid s.redis
    → IsValid s'.redis
unfolding handle
handle-IsValid row_a t (kill m) s s' g h =
    ok-IsValid (on_kill row_a t m s) s' g (on_kill-IsValid row_a t m s h)
handle-IsValid row_a t (sweep me) s s' g h = on_sweep-IsValid t me s s' g h
handle-IsValid row_a t (wake_up n) s s' g h = on_wake-IsValid t n s s' g h
handle-IsValid row_a t (pop m) s s' g h = on_pop-IsValid t m s s' g h
handle-IsValid row_a t (acknowledge a) s s' g h = on_ack-IsValid t a s s' g h

loop_from-IsValid :
    (again : Sim → Result (Option Sim)) (row_a : Bool) (s s' : Sim) (ev : List (Entry Event))
    → ((x : Sim) → again x ≡ ok (some s') → IsValid x.redis → IsValid s'.redis × (s'.ev ≡ []))
    → s.ev ≡ ev
    → loop_from again row_a s ev ≡ ok (some s')
    → IsValid s.redis
    → IsValid s'.redis × (s'.ev ≡ [])
unfolding loop_from
loop_from-IsValid again row_a s s' [] ih e g h =
    let same : s ≡ s' = ground arith in
    subst (λ (y : Sim). IsValid y.redis × (y.ev ≡ [])) same (h, e)
loop_from-IsValid again row_a s s' (x ∷ ev) ih e g h =
    let (r, f, k) = >>=-eq-ok (handle row_a x.time x.event (record s { ev = ev })) again g in
    ih r k (handle-IsValid row_a x.time x.event (record s { ev = ev }) r f h)

-- A run from a state with a valid queue that does not raise, and has fuel, ends with the heap empty and
-- the queue valid.
pub loop-IsValid :
    (row_a : Bool) (k : ℕ) (s s' : Sim)
    → loop row_a k s ≡ ok (some s')
    → IsValid s.redis
    → IsValid s'.redis × (s'.ev ≡ [])
unfolding loop
loop-IsValid row_a zero s s' g h = cc
loop-IsValid row_a (suc k) s s' g h =
    loop_from-IsValid (loop row_a k) row_a s s' s.ev (λ x e v. loop-IsValid row_a k x s' e v) refl g
      h
