-- ===== src/Close/Pull/Full.antt =====
-- gen_close.py, signal and its pull loop at a consumer that has no free slot.
use redisq.Base.{
  ℕ, ◌≤◌, ◌≡◌, refl, inl, inr, Bool, true, false, Bool-cases, ltb, if◌then◌else◌, ok, arith, ◌∙◌,
  not,
}
use redisq.Close.State.{Sim, Consumer, Why, conc, set_consumer, update, queued}
use redisq.Close.Pull.{signal, pull_loop, loop_last, look, set_pulling}

-- What a signal leaves alone: the list, the pending hash, the pops, the heap, and what each consumer is busy with.
pub record Untouched (s r : Sim) : Type 0 where
  pub same_list : r.lst ≡ s.lst
  pub same_pending : r.pending ≡ s.pending
  pub same_pops : r.pops ≡ s.pops
  pub same_heap : r.ev ≡ s.ev
  pub same_busy : (i : ℕ) → (r.c i).busy ≡ (s.c i).busy

look-full : (t m : ℕ) (why : Why) (s : Sim) → conc ≤ (s.c m).busy → look t m why s ≡ ok (s, false)
unfolding look
look-full t m why s h =
    let full : ltb (s.c m).busy conc ≡ false = ground (arith, h) in ground (arith, full)

untouched : (s : Sim) → Untouched s s
untouched s = record {
  same_list = refl;
  same_pending = refl;
  same_pops = refl;
  same_heap = refl;
  same_busy = λ i. refl;
}

Untouched-trans : (s r u : Sim) → Untouched s r → Untouched r u → Untouched s u
Untouched-trans s r u f g = record {
  same_list = g.same_list ∙ f.same_list;
  same_pending = g.same_pending ∙ f.same_pending;
  same_pops = g.same_pops ∙ f.same_pops;
  same_heap = g.same_heap ∙ f.same_heap;
  same_busy = λ i. g.same_busy i ∙ f.same_busy i;
}

set_consumer-Untouched :
    (m : ℕ) (st : Consumer) (s : Sim) → st.busy ≡ (s.c m).busy → Untouched s (set_consumer m st s)
unfolding set_consumer update
set_consumer-Untouched m st s h = record {
  same_list = refl;
  same_pending = refl;
  same_pops = refl;
  same_heap = refl;
  same_busy = λ i. ground (arith, h);
}

set_pulling-Untouched : (m : ℕ) (s : Sim) → Untouched s (set_pulling m false s)
unfolding set_pulling
set_pulling-Untouched m s = set_consumer-Untouched m _ s refl

loop_last-full :
    (t m : ℕ) (s : Sim) → conc ≤ (s.c m).busy → loop_last t m s ≡ ok (set_pulling m false s)
unfolding loop_last
loop_last-full t m s h = rw (look-full t m queued s h) refl

pull_loop-full :
    (t m : ℕ) (why : Why) (s : Sim)
    → conc ≤ (s.c m).busy
    → (r : Sim) × (pull_loop t m why s ≡ ok r) × Untouched s r
unfolding pull_loop
pull_loop-full t m why s h =
    let stopped = set_pulling m false s in
    let still = set_pulling-Untouched m s in
    let clear = set_consumer m (record (stopped.c m) { signalled = false }) stopped in
    let cleared =
      set_consumer-Untouched m (record (stopped.c m) { signalled = false }) stopped refl in
    let so_far = Untouched-trans s stopped clear still cleared in
    elim (Bool-cases (stopped.c m).signalled) [
      | inl again ↦ (
        set_pulling m false clear,
        rw (look-full t m why s h, again) (loop_last-full t m clear (rw (so_far.same_busy m) h)),
        Untouched-trans s clear (set_pulling m false clear) so_far (set_pulling-Untouched m clear),
      )
      | inr once ↦ (stopped, rw (look-full t m why s h, once) refl, still)
    ]

choice {ℓ} :
    {A : Type ℓ} (a p : Bool) (x y z : A)
    → a ≡ true
    → p ≡ false
    → (if not a then x else if p then y else z) ≡ z
choice a p x y z g h = rw (g, h) refl

signal-goes :
    (t m : ℕ) (why : Why) (s : Sim)
    → (s.c m).alive ≡ true
    → (s.c m).pulling ≡ false
    → signal t m why s ≡ pull_loop t m why s
unfolding signal
signal-goes t m why s alive idle = choice (s.c m).alive (s.c m).pulling _ _ _ alive idle

-- A signal to a consumer that has no free slot raises nothing, whatever waits in the list, and pops nothing: the list,
-- the pending hash, the pops, the events that wait and every consumer's busy count stay as they are.
pub signal_when_full :
    (t m : ℕ) (why : Why) (s : Sim)
    → conc ≤ (s.c m).busy
    → (r : Sim) × (signal t m why s ≡ ok r) × Untouched s r
unfolding signal
signal_when_full t m why s h = elim (Bool-cases (s.c m).alive) [
  | inr dead ↦ (s, rw dead refl, untouched s)
  | inl alive ↦ elim (Bool-cases (s.c m).pulling) [
    | inl queues ↦ (
      set_consumer m (record (s.c m) { signalled = true }) s,
      rw (alive, queues) refl,
      set_consumer-Untouched m (record (s.c m) { signalled = true }) s refl,
    )
    | inr idle ↦
        let (r, e, u) = pull_loop-full t m why s h in (r, signal-goes t m why s alive idle ∙ e, u)
  ]
]
