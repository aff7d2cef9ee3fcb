-- ===== src/Close/Pull.antt =====
-- assets/diagrams/gen/gen_close.py, class Sim: pop_call, and varmq's pull loop. Keyframes are left out.
pub mod Moves
pub mod Rounds
pub mod Booked
pub mod Full
use redisq.Base.{
  ℕ, suc, ◌+◌, ◌-◌, ◌*◌, min, Bool, true, false, ◌&&◌, not, Option, none, some, List, [], ◌∷◌, ◌++◌,
  map, ltb, if◌then◌else◌, elem, set, take, drop, length, Result, ok, raise, ◌>>=◌, ◌>>◌, assert,
  or_raise, key_error, value_error, ℕ_discrete,
}
use redisq.Base.Dict
use redisq.Close.State.{
  Sim, Consumer, Held, Run, Why, queued, loop, job_ends, in_pending, conc, pop_max, work, pop_gap,
  pop_path, arrive_exact, rounded, at, set_consumer, sadd, short_pop, busy_up, len, is_nil,
}

-- `max(r for r in range(3) if r not in used)`.
free_row : List ℕ → Result ℕ
free_row used =
    if not (elem 2 used)
    then ok 2
    else if not (elem 1 used)
    then ok 1
    else if not (elem 0 used)
    then ok 0
    else raise value_error

-- `st["slots"].index(None)`.
free_slot : List (Option ℕ) → Result ℕ
free_slot [] = raise value_error
free_slot (none ∷ slots) = ok 0
free_slot (some j ∷ slots) = free_slot slots >>= λ i. ok (suc i)

-- The body of `for job in got`.
take_job : ℕ → ℕ → Why → ℕ → Sim → Result Sim
unfolding free_row free_slot set_consumer at rounded arrive_exact busy_up
take_job t m why job s = do
  let number = (s.c m).seq + 1
  row ← free_row (map (λ e. e.1.row) s.pending)
  slot ← free_slot (s.c m).slots
  let held : Held = record { owner = m; row = row; since = t; number = number }
  let st : Consumer = record (s.c m) {
    seq = number;
    beat = true;
    slots = set (s.c m).slots slot (some job);
  }
  let s₁ = set_consumer m st (record s { pending = Dict.insert ℕ_discrete job held s.pending })
  s₂ ← busy_up t m s₁
  _ ← or_raise key_error (Dict.get ℕ_discrete job s₂.x)
  let start = arrive_exact t (pop_path m)
  let run : Run = record {
    by = m;
    slot = slot;
    job = job;
    start = start;
    end_time = none;
    frac = none;
  }
  let s₃ : Sim = record s₂ {
    x = Dict.erase ℕ_discrete job s₂.x;
    places = s₂.places ++ (job, t, in_pending m) ∷ [];
    pops = s₂.pops ++ (t, m, job, why) ∷ [];
    runs = s₂.runs ++ run ∷ [];
  }
  ok (at (rounded (start + work job * 520)) (job_ends m slot job) s₃)

take_jobs : ℕ → ℕ → Why → List ℕ → Sim → Result Sim
unfolding take_job
take_jobs t m why [] s = ok s
take_jobs t m why (job ∷ jobs) s = take_job t m why job s >>= take_jobs t m why jobs

-- The batch idle rule, for POP above 1.
is_short : ℕ → List ℕ → Sim → Bool
is_short want got s = ltb 1 pop_max && (is_nil s.lst && ltb (length got) want)

unfoldable pub pop_call : ℕ → ℕ → ℕ → Why → Sim → Result Sim
unfolding take_jobs is_short is_nil sadd set_consumer
pop_call t m want why s = do
  let got = take want s.lst
  assert (not (is_nil got))
  s₁ ← take_jobs t m why got (record s { lst = drop want s.lst })
  let short = is_short want got s₁
  let s₂ = if short && (s₁.c m).consumer then sadd t m short_pop s₁ else s₁
  ok (set_consumer m (record (s₂.c m) { is_free = short }) s₂)

set_pulling : ℕ → Bool → Sim → Sim
unfolding set_consumer
set_pulling m b s = set_consumer m (record (s.c m) { pulling = b }) s

-- One look of the pull loop: a pop while the consumer is alive, has a free slot and reads Len() > 0. The
-- flag says whether it popped. Len() is read only behind the other two tests.
look_behind : ℕ → ℕ → Why → Sim → Result (Sim × Bool)
unfolding set_pulling pop_call at len
look_behind t m why s =
    let s₁ = len t m s in
    let more = pop_call t m (min (conc - (s₁.c m).busy) pop_max) why (set_pulling m true s₁) in
    if is_nil s₁.lst
    then ok (s₁, false)
    else (more >>= λ s₂. ok (at (t + pop_gap) (loop m why) s₂, true))

look : ℕ → ℕ → Why → Sim → Result (Sim × Bool)
unfolding look_behind
look t m why s =
    let r = look_behind t m why s in
    if (s.c m).alive && ltb (s.c m).busy conc then r else ok (s, false)

-- The call for a queued signal: the flag is clear then, so it makes no further one.
loop_last : ℕ → ℕ → Sim → Result Sim
unfolding look set_pulling
loop_last t m s = do x ← look t m queued s; ok (if x.1 then x.0 else set_pulling m false x.0)

unfoldable pub pull_loop : ℕ → ℕ → Why → Sim → Result Sim
unfolding look set_pulling loop_last set_consumer
pull_loop t m why s = do
  x ← look t m why s
  let stopped = set_pulling m false x.0
  let again = loop_last t m (set_consumer m (record (stopped.c m) { signalled = false }) stopped)
  if x.1 then ok x.0 else if (stopped.c m).signalled then again else ok stopped

-- `signal`: while the loop runs the signal is queued. At full capacity the source prints a line and
-- goes on into the loop, as this does.
unfoldable pub signal : ℕ → ℕ → Why → Sim → Result Sim
unfolding pull_loop set_consumer
signal t m why s =
    let st = s.c m in
    let go = pull_loop t m why s in
    if not st.alive
    then ok s
    else if st.pulling
    then ok (set_consumer m (record st { signalled = true }) s)
    else go
