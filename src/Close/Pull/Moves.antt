-- ===== src/Close/Pull/Moves.antt =====
-- gen_close.py, class Sim: a pop and the pull loop leave every job where it can be found.
use redisq.Base.{
  zero, ◌⊎◌, ℕ, suc, ◌+◌, ◌-◌, ◌≤◌, ◌≡◌, refl, sym, inl, inr, Bool, true, false, ◌&&◌, not, some,
  List, [], ◌∷◌, ◌++◌, arith, ltb, if◌then◌else◌, Bool-cases, ite, set, map, take, drop, min,
  Result, ok, raise, ◌>>=◌, or_raise, key_error, ℕ_discrete,
}
use redisq.Base.Dict
use redisq.Base.Dict.{occurs}
use redisq.Close.State.{
  Sim, Consumer, Held, Run, Why, loop, job_ends, in_pending, conc, pop_max, pop_gap, queued, at,
  set_consumer, sadd, short_pop, busy_up, len, is_nil,
}
use redisq.Close.Jobs.{
  Moves, Moves-trans, MovesTo, after-MovesTo, then-MovesTo, bind-MovesTo, if-MovesTo, same-Moves,
}
use redisq.Close.Jobs.Steps.{set_consumer-Moves, at-Moves, sadd-Moves, busy_up-MovesTo, len-Moves}
use redisq.Close.Pull.{
  free_row, free_slot, take_job, take_jobs, is_short, pop_call, set_pulling, look_behind, look,
  loop_last, pull_loop, signal,
}

-- The front of the list when `jobs` are about to be put into the pending hash: they are in hand still.
abbrev with_front : List ℕ → Sim → Sim
with_front jobs s = record s { lst = jobs ++ s.lst }

insert-occurs :
    (j i : ℕ) (v : Held) (d : List (ℕ × Held))
    → occurs ℕ_discrete i (Dict.keys d) ≡ 0
    → occurs ℕ_discrete j (Dict.keys (Dict.insert ℕ_discrete i v d))
      ≡ ite (ℕ_discrete i j) 1 0 + occurs ℕ_discrete j (Dict.keys d)
unfolding Dict.insert
insert-occurs j i v [] h = omega arith
insert-occurs j i v ((k, w) ∷ d) h = ground (arith, insert-occurs j i v d)

-- A job that stands at the front of the list moves to the pending hash.
pended-Moves :
    (job : ℕ) (v : Held) (s : Sim)
    → Moves
        (with_front (job ∷ []) s)
        (record s { pending = Dict.insert ℕ_discrete job v s.pending })
pended-Moves job v s = record {
  same_acks = refl;
  same_closed = λ m. refl;
  same_coming = λ j. refl;
  same_hand = λ h j. omega (arith, insert-occurs j job v s.pending (ground (arith, h job)));
  within = λ h m. h m;
}

-- What follows once the consumer counts the job as busy.
started-Moves :
    (t m slot : ℕ) (why : Why) (job : ℕ) (run : Run) (x : List (ℕ × ℕ)) (until : ℕ) (s : Sim)
    → Moves s (
        at until (job_ends m slot job) (record s {
          x = x;
          places = s.places ++ (job, t, in_pending m) ∷ [];
          pops = s.pops ++ (t, m, job, why) ∷ [];
          runs = s.runs ++ run ∷ [];
        }))
started-Moves t m slot why job run x until s =
    let s' : Sim = record s {
      x = x;
      places = s.places ++ (job, t, in_pending m) ∷ [];
      pops = s.pops ++ (t, m, job, why) ∷ [];
      runs = s.runs ++ run ∷ [];
    } in
    Moves-trans s s' _ (same-Moves s s' refl refl refl refl refl)
      (at-Moves until (job_ends m slot job) s' (λ j. refl))

take_job-MovesTo :
    (t m : ℕ) (why : Why) (job : ℕ) (s : Sim)
    → MovesTo (with_front (job ∷ []) s) (take_job t m why job s)
unfolding take_job
take_job-MovesTo t m why job s =
    bind-MovesTo (with_front (job ∷ []) s) (free_row (map (λ e. e.1.row) s.pending)) _ λ row f.
      bind-MovesTo (with_front (job ∷ []) s) (free_slot (s.c m).slots) _ λ slot f'.
        let held : Held = record { owner = m; row = row; since = t; number = (s.c m).seq + 1 } in
        let st : Consumer = record (s.c m) {
          seq = (s.c m).seq + 1;
          beat = true;
          slots = set (s.c m).slots slot (some job);
        } in
        let s₀ : Sim = record s { pending = Dict.insert ℕ_discrete job held s.pending } in
        let s₁ : Sim = set_consumer m st s₀ in
        after-MovesTo (with_front (job ∷ []) s) s₁ _
          (Moves-trans (with_front (job ∷ []) s) s₀ s₁ (pended-Moves job held s)
            (set_consumer-Moves m st s₀ refl (λ h. h)))
          (then-MovesTo s₁ (busy_up t m s₁) _ (busy_up-MovesTo t m s₁) λ s₂.
            bind-MovesTo s₂ (or_raise key_error (Dict.get ℕ_discrete job s₂.x)) _
              λ x f''. started-Moves t m slot why job _ _ _ s₂)

-- What a pop does once its jobs are pending.
popped-Moves :
    (t m : ℕ) (short : Bool) (s : Sim)
    → Moves s (
        let s₂ : Sim = if short && (s.c m).consumer then sadd t m short_pop s else s in
        set_consumer m (record (s₂.c m) { is_free = short }) s₂)
popped-Moves t m short s = elim (Bool-cases (short && (s.c m).consumer)) [
  | inl e ↦
      let s₂ : Sim = sadd t m short_pop s in
      rw e (
        Moves-trans s s₂ _ (sadd-Moves t m short_pop s)
          (set_consumer-Moves m (record (s₂.c m) { is_free = short }) s₂ refl (λ h. h)))
  | inr e ↦ rw e (set_consumer-Moves m (record (s.c m) { is_free = short }) s refl (λ h. h))
]

-- At most one item is taken.
take_one :
    (n : ℕ) (l : List ℕ)
    → n ≤ 1
    → (take n l ≡ []) ⊎ ((j : ℕ) × (take n l ≡ j ∷ []) × (l ≡ j ∷ drop n l))
take_one zero l h = inl refl
take_one (suc n) [] h = inl refl
take_one (suc zero) (x ∷ l) h = inr (x, refl, refl)
take_one (suc (suc n)) (x ∷ l) h = absurd (omega arith)

-- The pop of one job.
pop_call-MovesTo :
    (t m want : ℕ) (why : Why) (s : Sim) → want ≤ 1 → MovesTo s (pop_call t m want why s)
unfolding pop_call is_nil take_jobs set_consumer
pop_call-MovesTo t m want why s h = elim (take_one want s.lst h) [
  | inl e ↦ rw e tt
  | inr (job, e, e') ↦
      let s₀ : Sim = record s { lst = drop want s.lst } in
      let front : Moves s (with_front (job ∷ []) s₀) =
        same-Moves s (with_front (job ∷ []) s₀) refl (sym e') refl refl refl in
      rw e (
        then-MovesTo s (take_jobs t m why (job ∷ []) s₀) _
          (then-MovesTo s (take_job t m why job s₀) ok
            (after-MovesTo s (with_front (job ∷ []) s₀) _ front (take_job-MovesTo t m why job s₀))
            (λ r. same-Moves r r refl refl refl refl refl))
          (λ r. popped-Moves t m (is_short want (job ∷ []) r) r))
]

set_pulling-Moves : (m : ℕ) (b : Bool) (s : Sim) → Moves s (set_pulling m b s)
unfolding set_pulling
set_pulling-Moves m b s = set_consumer-Moves m (record (s.c m) { pulling = b }) s refl (λ h. h)

-- A look whose result, if it returns one, has moved.
abbrev LooksTo : Sim → Result (Sim × Bool) → Type 0
LooksTo s (raise e) = Unit {0}
LooksTo s (ok x) = Moves s x.0

looped-LooksTo :
    (t m : ℕ) (why : Why) (s : Sim) (x : Result Sim)
    → MovesTo s x
    → LooksTo s (x >>= λ r. ok (at (t + pop_gap) (loop m why) r, true))
looped-LooksTo t m why s (raise e) h = tt
looped-LooksTo t m why s (ok r) h =
    Moves-trans s r _ h (at-Moves (t + pop_gap) (loop m why) r (λ j. refl))

look_behind-LooksTo : (t m : ℕ) (why : Why) (s : Sim) → LooksTo s (look_behind t m why s)
unfolding look_behind
look_behind-LooksTo t m why s =
    let s₁ : Sim = len t m s in
    let s₂ : Sim = set_pulling m true s₁ in
    let moved : Moves s s₂ = Moves-trans s s₁ s₂ (len-Moves t m s) (set_pulling-Moves m true s₁) in
    let want = min (conc - (s₁.c m).busy) pop_max in
    elim (Bool-cases (is_nil s₁.lst)) [
      | inl e ↦ rw e (len-Moves t m s)
      | inr e ↦ rw e (
          looped-LooksTo t m why s _
            (after-MovesTo s s₂ _ moved (pop_call-MovesTo t m want why s₂ (omega arith))))
    ]

look-LooksTo : (t m : ℕ) (why : Why) (s : Sim) → LooksTo s (look t m why s)
unfolding look
look-LooksTo t m why s = elim (Bool-cases ((s.c m).alive && ltb (s.c m).busy conc)) [
  | inl e ↦ rw e (look_behind-LooksTo t m why s)
  | inr e ↦ rw e (same-Moves s s refl refl refl refl refl)
]

looked-MovesTo :
    (s : Sim) (x : Result (Sim × Bool)) (next : Sim × Bool → Result Sim)
    → LooksTo s x
    → ((y : Sim × Bool) → MovesTo y.0 (next y))
    → MovesTo s (x >>= next)
looked-MovesTo s (raise e) next h k = tt
looked-MovesTo s (ok y) next h k = after-MovesTo s y.0 (next y) h (k y)

loop_last-MovesTo : (t m : ℕ) (s : Sim) → MovesTo s (loop_last t m s)
unfolding loop_last
loop_last-MovesTo t m s = looked-MovesTo s (look t m queued s) _ (look-LooksTo t m queued s) λ x.
    elim (Bool-cases x.1) [
      | inl e ↦ rw e (same-Moves x.0 x.0 refl refl refl refl refl)
      | inr e ↦ rw e (set_pulling-Moves m false x.0)
    ]

pub pull_loop-MovesTo : (t m : ℕ) (why : Why) (s : Sim) → MovesTo s (pull_loop t m why s)
unfolding pull_loop
pull_loop-MovesTo t m why s = looked-MovesTo s (look t m why s) _ (look-LooksTo t m why s) λ x.
    let stopped : Sim = set_pulling m false x.0 in
    let cleared : Sim = set_consumer m (record (stopped.c m) { signalled = false }) stopped in
    elim (Bool-cases x.1) [
      | inl e ↦ rw e (same-Moves x.0 x.0 refl refl refl refl refl)
      | inr e ↦ rw e (elim (Bool-cases (stopped.c m).signalled) [
        | inl g ↦ rw g (
            after-MovesTo x.0 cleared _
              (Moves-trans x.0 stopped cleared (set_pulling-Moves m false x.0) (
                set_consumer-Moves m (record (stopped.c m) { signalled = false }) stopped refl
                  (λ h. h)))
              (loop_last-MovesTo t m cleared))
        | inr g ↦ rw g (set_pulling-Moves m false x.0)
      ])
    ]

pub signal-MovesTo : (t m : ℕ) (why : Why) (s : Sim) → MovesTo s (signal t m why s)
unfolding signal
signal-MovesTo t m why s =
    if-MovesTo s (not (s.c m).alive) (ok s) _ (same-Moves s s refl refl refl refl refl) (
      if-MovesTo s (s.c m).pulling _ (pull_loop t m why s)
        (set_consumer-Moves m (record (s.c m) { signalled = true }) s refl (λ h. h))
        (pull_loop-MovesTo t m why s))
