-- ===== src/Close/Sim/Keeps/Quiet.antt =====
-- gen_close.py, class Sim: the events that neither bring a job nor acknowledge one.
use redisq.Base.{
  ℕ, ◌+◌, refl, inl, inr, Bool, true, false, not, List, [], ◌∷◌, ◌++◌, leb, if◌then◌else◌,
  Bool-cases, Result-cases, Result, ok, raise, ◌>>=◌,
}
use redisq.Close.State.{
  Sim, Consumer, nudge, exit, at, set_consumer, wake, is_nil, horizon, sadd, subscribing,
  exit_after, srem, nudging, by_nudge,
}
use redisq.Close.Jobs.{
  Moves, Moves-trans, MovesTo, after-MovesTo, then-MovesTo, bind-MovesTo, if-MovesTo, same-Moves,
}
use redisq.Close.Jobs.Steps.{
  set_consumer-Moves, at-Moves, sadd-Moves, srem-Moves, WakesTo, wake-WakesTo,
}
use redisq.Close.Sim.Release.{on_release-Moves}
use redisq.Close.Pull.{signal}
use redisq.Close.Pull.Moves.{signal-MovesTo}
use redisq.Close.Sim.{on_nudge, on_subscribe, on_release, on_release_wake, on_exit, cut_runs}

again-Moves :
    (t m : ℕ) (s : Sim)
    → Moves s (if leb (t + 10000) horizon then at (t + 10000) (nudge m) s else s)
again-Moves t m s = elim (Bool-cases (leb (t + 10000) horizon)) [
  | inl e ↦ rw e (at-Moves (t + 10000) (nudge m) s (λ j. refl))
  | inr e ↦ rw e (same-Moves s s refl refl refl refl refl)
]

offered-Moves : (t m : ℕ) (b : Bool) (s : Sim) → Moves s (if b then sadd t m nudging s else s)
offered-Moves t m true s = sadd-Moves t m nudging s
offered-Moves t m false s = same-Moves s s refl refl refl refl refl

pub on_nudge-MovesTo : (t m : ℕ) (s : Sim) → MovesTo s (on_nudge t m s)
unfolding on_nudge
on_nudge-MovesTo t m s =
    let st : Consumer = record (s.c m) { ticks = (s.c m).ticks ++ t ∷ [] } in
    let s₁ : Sim = set_consumer m st s in
    let first : Moves s s₁ = set_consumer-Moves m st s refl (λ h. h) in
    let empty : Sim = if (s.c m).is_free then sadd t m nudging s₁ else s₁ in
    let added : Moves s₁ empty = offered-Moves t m (s.c m).is_free s₁ in
    let poked : MovesTo s (signal t m by_nudge (srem t m nudging s₁)) =
      after-MovesTo s (srem t m nudging s₁) _ (Moves-trans s s₁ _ first (srem-Moves t m nudging s₁))
        (signal-MovesTo t m by_nudge (srem t m nudging s₁)) in
    if-MovesTo s (not (s.c m).consumer) (ok s) _ (same-Moves s s refl refl refl refl refl) (
      if-MovesTo s (is_nil s.lst) _ _
        (Moves-trans s empty _ (Moves-trans s s₁ empty first added) (again-Moves t m empty))
        (then-MovesTo s (signal t m by_nudge (srem t m nudging s₁)) _ poked
          (λ r. again-Moves t m r)))

pub on_subscribe-Moves : (t m : ℕ) (s : Sim) → Moves s (on_subscribe t m s)
unfolding on_subscribe
on_subscribe-Moves t m s =
    let st : Consumer = record (s.c m) {
      alive = true;
      consumer = true;
      sub = true;
      is_free = true;
    } in
    let s₁ : Sim = set_consumer m st s in
    Moves-trans s s₁ _ (set_consumer-Moves m st s refl (λ h. h)) (
      Moves-trans s₁ _ _ (sadd-Moves t m subscribing s₁)
        (at-Moves (t + 10000) (nudge m) _ (λ j. refl)))

pub on_exit-MovesTo : (t m : ℕ) (s : Sim) → MovesTo s (on_exit t m s)
unfolding on_exit
on_exit-MovesTo t m s = bind-MovesTo s (cut_runs t m s.runs) _ λ runs e.
    let s₁ : Sim = record s { runs = runs } in
    Moves-trans s s₁ _ (same-Moves s s₁ refl refl refl refl refl)
      (set_consumer-Moves m (record (s.c m) { alive = false }) s₁ refl (λ h. h))

pub woken-MovesTo :
    (s : Sim) (x : Result (Sim × ℕ × List ℕ)) (next : Sim × ℕ × List ℕ → Result Sim)
    → WakesTo s x
    → ((w : Sim × ℕ × List ℕ) → MovesTo w.0 (next w))
    → MovesTo s (x >>= next)
woken-MovesTo s (raise e) next h k = tt
woken-MovesTo s (ok w) next h k = after-MovesTo s w.0 (next w) h (k w)

pub on_release_wake-MovesTo : (t m n : ℕ) (s : Sim) → MovesTo s (on_release_wake t m n s)
unfolding on_release_wake
on_release_wake-MovesTo t m n s = woken-MovesTo s (wake t n s) _ (wake-WakesTo t n s) λ w.
    let st : Consumer = record (w.0.c m) { sub = false } in
    Moves-trans w.0 (set_consumer m st w.0) _ (set_consumer-Moves m st w.0 refl (λ h. h))
      (at-Moves (t + exit_after) (exit m) _ (λ j. refl))

pub on_release-MovesTo : (t m : ℕ) (s : Sim) → MovesTo s (on_release t m s)
on_release-MovesTo t m s = elim (Result-cases (on_release t m s)) [
  | inl (e, g) ↦ rw g tt
  | inr (r, g) ↦ rw g (on_release-Moves t m s r g)
]
