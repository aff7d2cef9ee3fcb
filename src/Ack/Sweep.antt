-- ===== src/Ack/Sweep.antt =====
-- assets/diagrams/gen/gen_ack.py, build: the tick that requeues a job.
use redisq.Base.{
  ℕ, zero, suc, ◌+◌, ◌*◌, ◌≤◌, ◌<◌, ◌≡◌, refl, Bool-cases, inl, inr, some, leb, leb→le, leb→lt, ok,
  arith,
}
use redisq.Ack.Build.{first_from, first_tick, sweep_phase, second}

first_from_finds :
    (n tick dl : ℕ)
    → dl + second ≤ tick + n * second
    → tick < dl + second
    → (t i : ℕ) × (first_from n tick dl ≡ some t)
      × (t ≡ tick + i * second)
      × (dl ≤ t)
      × (t < dl + second)
unfolding first_from
first_from_finds zero tick dl h k = absurd (omega arith)
first_from_finds (suc n) tick dl h k = elim (Bool-cases (leb dl tick)) [
  | inl e ↦ (tick, 0, rw e refl, omega arith, leb→le dl tick e, k)
  | inr e ↦
      let early : tick < dl = leb→lt dl tick e in
      let (t, i, f, g, b, c) = first_from_finds n (tick + second) dl (omega arith) (omega arith) in
      (t, i + 1, rw e f, omega (arith, g), b, c)
]

-- For a deadline up to the last of the 40 ticks the sweep that requeues the job comes at a tick at or after
-- the deadline and less than a second after it, so that no tick before it would do: the generator's assertion
-- on it does not fail.
pub first_tick_in_time :
    (dl : ℕ)
    → dl ≤ sweep_phase + 39 * second
    → (t i : ℕ) × (first_tick dl ≡ ok t)
      × (t ≡ sweep_phase + i * second)
      × (dl ≤ t)
      × (t < dl + second)
unfolding first_tick
first_tick_in_time dl h =
    let (t, i, f, g, b, c) = first_from_finds 40 sweep_phase dl (omega arith) (omega arith) in
    (t, i, rw f refl, g, b, c)
