-- ===== src/Dead/Store/Simulate/Refines.antt =====
-- gen_dead.py, simulate: every event does to the queue what it promises.
use redisq.Base.{
  ℕ, zero, suc, ◌≡◌, refl, subst, Bool, true, false, Option, some, List, [], ◌∷◌, arith, inl, inr,
  Bool-cases, elem, all, leb, Result, ok, raise, ◌>>=◌, assert, or_raise, key_error, type_error,
  >>=-eq-ok, ℕ_discrete,
}
use redisq.Base.Dict
use redisq.Base.Sort.{sorted}
use redisq.Base.Heapq.{Entry}
use redisq.Dead.Store.{AckId, AckId-discrete, pop_one, ack, tick, wake}
use redisq.Dead.Store.Valid.{IsValid}
use redisq.Dead.Store.Queue.{
  Queue, view, IsSame, IsTaken, IsFinished, AreReturned, all_back, IsSame-refl,
}
use redisq.Dead.Store.Implements.{
  IsSame-view, pop_one-IsTaken, ack-IsFinished, tick-AreReturned, wake-IsSame,
}
use redisq.Dead.Store.Simulate.{
  Sim, Event, kill, sweep, wake_up, pop, acknowledge, time_of, push, on_kill, on_sweep, on_wake,
  on_pop, on_ack, handle, loop_from, loop, permutations, copy,
}
use redisq.Dead.Store.Simulate.Valid.{after_sweep-redis, after_wake-redis, handle-IsValid}

-- What the queue promises of an event: a pop takes the first job, an acknowledgment finishes its own, a sweep
-- brings jobs back, and the others leave it alone.
pub Does : Event → Queue → Queue → Type 0
Does (kill m) q p = IsSame q p
Does (sweep me) q p = (back : List AckId) × AreReturned back q p
Does (wake_up n) q p = IsSame q p
Does (pop owner) q p = IsTaken owner q p
Does (acknowledge id) q p = IsFinished id q p

-- A handling whose result, if it returns one, is what the event promises.
abbrev DoesTo : Event → Queue → Result Sim → Type 0
DoesTo e q (raise x) = Unit {0}
DoesTo e q (ok s) = Does e q (view s.redis)

on_kill-IsSame :
    (row_a : Bool) (t m : ℕ) (s : Sim) → IsSame (view s.redis) (view (on_kill row_a t m s).redis)
unfolding on_kill
on_kill-IsSame true t m s =
    IsSame-view s.redis (record (s.redis) { subs = Dict.insert ℕ_discrete m 0 s.redis.subs }) refl
      refl
on_kill-IsSame false t m s = IsSame-refl (view s.redis)

on_kill-DoesTo :
    (row_a : Bool) (t m : ℕ) (s : Sim) → DoesTo (kill m) (view s.redis) (ok (on_kill row_a t m s))
unfolding Does
on_kill-DoesTo row_a t m s = on_kill-IsSame row_a t m s

bind-DoesTo :
    {A : Type 0} (e : Event) (q : Queue) (call : Result A) (next : A → Result Sim)
    → ((a : A) → call ≡ ok a → DoesTo e q (next a))
    → DoesTo e q (call >>= next)
bind-DoesTo e q (raise x) next k = tt
bind-DoesTo e q (ok a) next k = k a refl

on_sweep-DoesTo :
    (t me : ℕ) (s : Sim) → IsValid s.redis → DoesTo (sweep me) (view s.redis) (on_sweep t me s)
unfolding on_sweep Does
on_sweep-DoesTo t me s h = elim (Bool-cases (elem me s.alive)) [
  | inl e ↦ rw e (
      bind-DoesTo (sweep me) (view s.redis) (tick s.redis me (time_of t)) _
        λ x f. rw (after_sweep-redis t me s x) (tick-AreReturned s.redis me (time_of t) x h f))
  | inr e ↦ rw e ([], all_back _ _ (IsSame-refl (view s.redis)))
]

on_wake-DoesTo : (t n : ℕ) (s : Sim) → DoesTo (wake_up n) (view s.redis) (on_wake t n s)
unfolding on_wake Does
on_wake-DoesTo t n s =
    let members = sorted leb s.redis.idle in
    bind-DoesTo (wake_up n) (view s.redis)
      (assert (all (λ o. elem 1 (wake (copy s.redis) n o).1) (permutations members))) _
      λ u f.
        rw (after_wake-redis t n members s (wake s.redis n members)) (wake-IsSame s.redis n members)

on_pop-DoesTo :
    (t owner : ℕ) (s : Sim) → IsValid s.redis → DoesTo (pop owner) (view s.redis) (on_pop t owner s)
unfolding on_pop push Does
on_pop-DoesTo t owner s h =
    bind-DoesTo (pop owner) (view s.redis)
      (or_raise type_error (pop_one s.redis owner (time_of t)).1) _
      λ got f. pop_one-IsTaken s.redis owner (time_of t) got h (ground arith)

on_ack-DoesTo :
    (t : ℕ) (id : AckId) (s : Sim)
    → IsValid s.redis
    → DoesTo (acknowledge id) (view s.redis) (on_ack t id s)
unfolding on_ack Does
on_ack-DoesTo t id s h =
    bind-DoesTo (acknowledge id) (view s.redis)
      (or_raise key_error (Dict.get AckId-discrete id s.busy)) _
      λ v f.
        bind-DoesTo (acknowledge id) (view s.redis) (ack s.redis id) _
          λ r g. ack-IsFinished s.redis r id h g

handle-DoesTo :
    (row_a : Bool) (t : ℕ) (e : Event) (s : Sim)
    → IsValid s.redis
    → DoesTo e (view s.redis) (handle row_a t e s)
unfolding handle
handle-DoesTo row_a t (kill m) s h = on_kill-DoesTo row_a t m s
handle-DoesTo row_a t (sweep me) s h = on_sweep-DoesTo t me s h
handle-DoesTo row_a t (wake_up n) s h = on_wake-DoesTo t n s
handle-DoesTo row_a t (pop owner) s h = on_pop-DoesTo t owner s h
handle-DoesTo row_a t (acknowledge id) s h = on_ack-DoesTo t id s h

-- What one event does to the queue is what the queue promises, whatever the time and in row A or B: for a valid
-- queue, handling that does not raise takes the first job under a new id when the event is a pop, drops the job
-- of the id when it is an acknowledgment, puts held jobs back at the front one by one when it is a sweep, and
-- changes nothing in the list and the pending hash when it is a kill or a wake.
pub handle-Does :
    (row_a : Bool) (t : ℕ) (e : Event) (s s' : Sim)
    → handle row_a t e s ≡ ok s'
    → IsValid s.redis
    → Does e (view s.redis) (view s'.redis)
handle-Does row_a t e s s' g h = subst (DoesTo e (view s.redis)) g (handle-DoesTo row_a t e s h)

-- A run of the queue under a sequence of events.
pub data Runs : List Event → Queue → Queue → Type 0 where
  over : (q p : Queue) → IsSame q p → Runs [] q p
  after :
      (e : Event) (es : List Event) (q p u : Queue) → Does e q p → Runs es p u → Runs (e ∷ es) q u

loop_from-Runs :
    (again : Sim → Result (Option Sim)) (row_a : Bool) (s s' : Sim) (ev : List (Entry Event))
    → ((x : Sim)
        → again x ≡ ok (some s')
        → IsValid x.redis
        → (es : List Event) × Runs es (view x.redis) (view s'.redis))
    → loop_from again row_a s ev ≡ ok (some s')
    → IsValid s.redis
    → (es : List Event) × Runs es (view s.redis) (view s'.redis)
unfolding loop_from
loop_from-Runs again row_a s s' [] ih g h =
    let same : s ≡ s' = ground arith in
    subst (λ (y : Sim). (es : List Event) × Runs es (view s.redis) (view y.redis)) same
      ([], over _ _ (IsSame-refl (view s.redis)))
loop_from-Runs again row_a s s' (x ∷ ev) ih g h =
    let (r, f, k) = >>=-eq-ok (handle row_a x.time x.event (record s { ev = ev })) again g in
    let s₁ : Sim = record s { ev = ev } in
    let (es, runs) = ih r k (handle-IsValid row_a x.time x.event s₁ r f h) in
    (x.event ∷ es, after x.event es _ _ _ (handle-Does row_a x.time x.event s₁ r f h) runs)

-- A run from a valid queue that does not raise, and has fuel, is a run of the abstract queue: there is a
-- sequence of events of which each does what the queue promises, from what the list and the pending hash were
-- to what they are at the end.
pub loop-Runs :
    (row_a : Bool) (k : ℕ) (s s' : Sim)
    → loop row_a k s ≡ ok (some s')
    → IsValid s.redis
    → (es : List Event) × Runs es (view s.redis) (view s'.redis)
unfolding loop
loop-Runs row_a zero s s' g h = cc
loop-Runs row_a (suc k) s s' g h =
    loop_from-Runs (loop row_a k) row_a s s' s.ev (λ x e v. loop-Runs row_a k x s' e v) g h
