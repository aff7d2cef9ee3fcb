-- ===== src/Close/Jobs.antt =====
-- gen_close.py, class Sim: where the jobs are, and what a step that leaves them alone changes.
pub mod Steps
use redisq.Base.{
  ◌&&◌, ◌++◌, leb→le, ℕ, ◌+◌, ◌-◌, ◌≤◌, ◌≡◌, refl, ◌∙◌, inl, inr, Bool, true, false, List, [], ◌∷◌,
  some, arith, ltb, leb, if◌then◌else◌, Bool-cases, elem, ite, subst, Result, ok, raise, ◌>>=◌,
  ℕ_discrete,
}
use redisq.Base.Dict
use redisq.Base.Dict.{occurs}
use redisq.Base.Sort.{total}
use redisq.Base.Heapq.{Entry, total-heappush}
use redisq.Close.State.{
  Sim, Consumer, Held, Event, Why, enqueue, push, wake_arrive, nudge, subscribe, close, release,
  exit, loop, release_wake, job_ends, conc, at, set_consumer, sadd, srem, len, busy_up, busy_down,
  update, len_from, len_zero, wake, wake_loop, wake_member, is_nil, spop,
}

-- How often a job is in the list or in the pending hash.
abbrev pub in_hand : ℕ → Sim → ℕ
in_hand j s = occurs ℕ_discrete j s.lst + occurs ℕ_discrete j (Dict.keys s.pending)

-- Whether an event brings job `j` into the list: its Enqueue, or the RPUSH of it.
abbrev pub brings : ℕ → Event → ℕ
brings j (enqueue i) = ite (ℕ_discrete i j) 1 0
brings j (push i called) = ite (ℕ_discrete i j) 1 0
brings j (wake_arrive m) = 0
brings j (nudge m) = 0
brings j (subscribe m) = 0
brings j (close m) = 0
brings j (release m) = 0
brings j (exit m) = 0
brings j (loop m why) = 0
brings j (release_wake m n) = 0
brings j (job_ends m slot i) = 0

abbrev pub coming : ℕ → List (Entry Event) → ℕ
coming j = total (λ x. brings j x.event)

-- How often a job was acknowledged.
abbrev pub acked : ℕ → List (ℕ × ℕ × ℕ) → ℕ
acked j [] = 0
acked j ((t, m, i) ∷ l) = ite (ℕ_discrete i j) 1 0 + acked j l

pub occurs_present :
    (j i : ℕ) (d : List (ℕ × Held)) (v : Held)
    → Dict.get ℕ_discrete j d ≡ some v
    → ite (ℕ_discrete j i) 1 0 - occurs ℕ_discrete i (Dict.keys d) ≡ 0
unfolding Dict.get
occurs_present j i [] v h = cc
occurs_present j i ((k, w) ∷ d) v h = ground (arith, occurs_present j i d v)

-- A step that acknowledges nothing, closes nobody, brings no job, and keeps the jobs at hand and the
-- consumers within their capacity.
pub record Moves (s r : Sim) : Type 0 where
  pub same_acks : r.acks ≡ s.acks
  pub same_closed : (m : ℕ) → (r.c m).closed ≡ (s.c m).closed
  pub same_coming : (j : ℕ) → coming j r.ev ≡ coming j s.ev
  pub same_hand : ((j : ℕ) → in_hand j s ≤ 1) → (j : ℕ) → in_hand j r ≡ in_hand j s
  pub within : ((m : ℕ) → (s.c m).busy ≤ conc) → (m : ℕ) → (r.c m).busy ≤ conc

pub Moves-trans : (s r u : Sim) → Moves s r → Moves r u → Moves s u
Moves-trans s r u f g = record {
  same_acks = g.same_acks ∙ f.same_acks;
  same_closed = λ m. g.same_closed m ∙ f.same_closed m;
  same_coming = λ j. g.same_coming j ∙ f.same_coming j;
  same_hand = λ h j. g.same_hand (λ i. rw (f.same_hand h i) (h i)) j ∙ f.same_hand h j;
  within = λ h m. g.within (f.within h) m;
}

-- A call whose result, if it returns one, has moved.
abbrev pub MovesTo : Sim → Result Sim → Type 0
MovesTo s (raise e) = Unit {0}
MovesTo s (ok r) = Moves s r

pub after-MovesTo : (s r : Sim) (x : Result Sim) → Moves s r → MovesTo r x → MovesTo s x
after-MovesTo s r (raise e) h k = tt
after-MovesTo s r (ok u) h k = Moves-trans s r u h k

pub then-MovesTo :
    (s : Sim) (call : Result Sim) (next : Sim → Result Sim)
    → MovesTo s call
    → ((r : Sim) → MovesTo r (next r))
    → MovesTo s (call >>= next)
then-MovesTo s (raise e) next h k = tt
then-MovesTo s (ok r) next h k = after-MovesTo s r (next r) h (k r)

pub bind-MovesTo :
    {A : Type 0} (s : Sim) (call : Result A) (next : A → Result Sim)
    → ((a : A) → call ≡ ok a → MovesTo s (next a))
    → MovesTo s (call >>= next)
bind-MovesTo s (raise e) next k = tt
bind-MovesTo s (ok a) next k = k a refl

pub if-MovesTo :
    (s : Sim) (b : Bool) (x y : Result Sim)
    → MovesTo s x
    → MovesTo s y
    → MovesTo s (if b then x else y)
if-MovesTo s true x y h k = h
if-MovesTo s false x y h k = k

pub ok-Moves : (s r : Sim) (call : Result Sim) → call ≡ ok r → MovesTo s call → Moves s r
ok-Moves s r (ok u) g h = let same : u ≡ r = ground arith in subst (Moves s) same h
ok-Moves s r (raise e) g h = absurd (cc)

pub same-Moves :
    (s r : Sim)
    → r.acks ≡ s.acks
    → r.lst ≡ s.lst
    → r.pending ≡ s.pending
    → r.ev ≡ s.ev
    → r.c ≡ s.c
    → Moves s r
same-Moves s r a l p e c = record {
  same_acks = a;
  same_closed = λ m. rw c refl;
  same_coming = λ j. rw e refl;
  same_hand = λ h j. rw (l, p) refl;
  within = λ h m. rw c (h m);
}
