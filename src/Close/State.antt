-- ===== src/Close/State.antt =====
-- assets/diagrams/gen/gen_close.py, class Sim: its state, its plumbing and the wake script. Times are
-- tenths of a millisecond, the grain to which `at_` rounds; jobs and consumers ("J<n>", "C<n>") are
-- numbers. The keyframes of the job squares and the printed log are left out.
use redisq.Base.{
  ℕ, ◌+◌, ◌-◌, ◌*◌, ◌/◌, Bool, true, false, ◌&&◌, Option, List, [], ◌∷◌, ◌++◌, ltb, leb, ◌==◌,
  if◌then◌else◌, elem, add, discard, Result, ok, ◌>>◌, assert,
}
use redisq.Base.Heapq.{Entry, heappush}
use redisq.Wake.Simulate.{plen}

-- CONC, POP, ENQ_FLY, WORK, LEAVE, REL, EXIT_AFTER, POP_GAP, HORIZON and the speeds.
abbrev pub conc : ℕ
conc = 3

abbrev pub pop_max : ℕ
pop_max = 1

abbrev pub enq_fly : ℕ
enq_fly = 5000

abbrev pub work : ℕ → ℕ
work j = if j == 1 then 26000 else if j == 2 then 29000 else 32000

abbrev pub leave_time : ℕ
leave_time = 2000

abbrev pub rel_time : ℕ
rel_time = 3200

abbrev pub exit_after : ℕ
exit_after = 3000

abbrev pub pop_gap : ℕ
pop_gap = 500

abbrev pub horizon : ℕ
horizon = 300000

abbrev pub dot_v : ℕ
dot_v = 520

abbrev pub slot_x : List ℕ
slot_x = 420 ∷ 384 ∷ 348 ∷ []

-- POP_PATH and WAKE_PATH.
unfoldable pub pop_path : ℕ → List (ℕ × ℕ)
pop_path m =
    if m == 1
    then (470, 165) ∷ (740, 165) ∷ []
    else (470, 165) ∷ (500, 165) ∷ (500, 370) ∷ (740, 370) ∷ []

unfoldable pub wake_path : ℕ → List (ℕ × ℕ)
wake_path m =
    if m == 1
    then (690, 248) ∷ (716, 248) ∷ (716, 180) ∷ (740, 180) ∷ []
    else (690, 270) ∷ (716, 270) ∷ (716, 296) ∷ (740, 296) ∷ []

-- `t + travel(pts, 520)`, exactly, in parts of 1/520 grain; and rounded to the grain.
unfoldable pub arrive_exact : ℕ → List (ℕ × ℕ) → ℕ
arrive_exact t pts = (t + 500) * 520 + plen pts * 10000

unfoldable pub rounded : ℕ → ℕ
rounded x = (2 * x + 520) / 1040

pub data Why : Type 0 where
  by_wake by_nudge by_job_end queued short_pop spop len_zero leaving subscribing nudging : Why

pub data Event : Type 0 where
  enqueue : ℕ → Event
  push : ℕ → ℕ → Event
  wake_arrive nudge subscribe close release exit : ℕ → Event
  loop : ℕ → Why → Event
  release_wake : ℕ → ℕ → Event
  job_ends : ℕ → ℕ → ℕ → Event

pub record Consumer : Type 0 where
  pub alive : Bool
  pub consumer : Bool
  pub sub : Bool
  pub closed : Bool
  pub busy : ℕ
  pub slots : List (Option ℕ)
  pub pulling : Bool
  pub signalled : Bool
  pub seq : ℕ
  pub beat : Bool
  pub ticks : List ℕ
  pub is_free : Bool

-- `self.pending[job]`.
pub record Held : Type 0 where
  pub owner : ℕ
  pub row : ℕ
  pub since : ℕ
  pub number : ℕ

-- A run: `start` in parts of 1/520 grain; `frac` in the same parts, where the source divides by WORK.
pub record Run : Type 0 where
  pub by : ℕ
  pub slot : ℕ
  pub job : ℕ
  pub start : ℕ
  pub end_time : Option ℕ
  pub frac : Option ℕ

pub data Place : Type 0 where
  in_list is_done : Place
  in_pending : ℕ → Place

pub record Sim : Type 0 where
  pub ev : List (Entry Event)
  pub n : ℕ
  pub lst : List ℕ
  pub x : List (ℕ × ℕ)
  pub pending : List (ℕ × Held)
  pub idle : List ℕ
  pub idle_log : List (ℕ × ℕ × Bool × Why)
  pub c : ℕ → Consumer
  pub places : List (ℕ × ℕ × Place)
  pub runs : List Run
  pub pops : List (ℕ × ℕ × ℕ × Why)
  pub acks : List (ℕ × ℕ × ℕ)
  pub failed_acks : List (ℕ × ℕ × ℕ)
  pub wakes : List (ℕ × ℕ)
  pub push_wakes : List (ℕ × ℕ × ℕ)
  pub busy_log : List (ℕ × ℕ × ℕ)
  pub calls : List ℕ

unfoldable pub update {ℓ} : {A : Type ℓ} → (ℕ → A) → ℕ → A → ℕ → A
update f m a y = if m == y then a else f y

-- `at_`, for a time that stands on the grain.
unfoldable pub at : ℕ → Event → Sim → Sim
at t e s = record s {
  ev = heappush (record { time = t; order = s.n + 1; event = e }) s.ev;
  n = s.n + 1;
}

unfoldable pub set_consumer : ℕ → Consumer → Sim → Sim
unfolding update
set_consumer m st s = record s { c = update s.c m st }

unfoldable pub sadd : ℕ → ℕ → Why → Sim → Sim
sadd t m why s =
    if elem m s.idle
    then s
    else record s { idle = add m s.idle; idle_log = s.idle_log ++ (m, t, true, why) ∷ [] }

unfoldable pub srem : ℕ → ℕ → Why → Sim → Sim
srem t m why s =
    if elem m s.idle
    then record s { idle = discard m s.idle; idle_log = s.idle_log ++ (m, t, false, why) ∷ [] }
    else s

-- `length`: Len() of a consumer, which joins the idle set when it reads 0.
unfoldable pub len_from : ℕ → ℕ → List ℕ → Sim → Sim
unfolding sadd set_consumer
len_from t m [] s =
    let s' = sadd t m len_zero s in
    if (s.c m).consumer then set_consumer m (record (s'.c m) { is_free = true }) s' else s
len_from t m (j ∷ js) s = s

unfoldable pub len : ℕ → ℕ → Sim → Sim
unfolding len_from
len t m s = len_from t m s.lst s

-- `set_busy(t, m, +1)` and `set_busy(t, m, -1)`.
unfoldable pub busy_up : ℕ → ℕ → Sim → Result Sim
unfolding set_consumer
busy_up t m s = do
  let b = (s.c m).busy + 1
  assert (leb b conc)
  let s' = set_consumer m (record (s.c m) { busy = b }) s
  ok (record s' { busy_log = s'.busy_log ++ (m, t, b) ∷ [] })

unfoldable pub busy_down : ℕ → ℕ → Sim → Result Sim
unfolding set_consumer
busy_down t m s = do
  assert (ltb 0 (s.c m).busy && leb ((s.c m).busy - 1) conc)
  let b = (s.c m).busy - 1
  let s' = set_consumer m (record (s.c m) { busy = b }) s
  ok (record s' { busy_log = s'.busy_log ++ (m, t, b) ∷ [] })

unfoldable pub is_nil : List ℕ → Bool
is_nil [] = true
is_nil (j ∷ js) = false

-- `wake`: the set is named twice, as the list that the loop walks and as the state's; SPOP takes the
-- only member.
unfoldable pub wake_member : ℕ → ℕ → Sim → Sim
unfolding at rounded arrive_exact
wake_member t m s =
    if (s.c m).sub
    then at (rounded (arrive_exact t (wake_path m))) (wake_arrive m)
        (record s { wakes = s.wakes ++ (t, m) ∷ [] })
    else s

unfoldable pub wake_loop : ℕ → ℕ → List ℕ → ℕ → List ℕ → Sim → Result (Sim × ℕ × List ℕ)
unfolding wake_member is_nil
wake_loop t count [] woken spopped s = ok (s, woken, spopped)
wake_loop t count (m ∷ rest) woken spopped s =
    let s' : Sim = record s { idle = rest; idle_log = s.idle_log ++ (m, t, false, spop) ∷ [] } in
    let one = if (s.c m).sub then 1 else 0 in
    let again = wake_loop t count rest (woken + one) (spopped ++ m ∷ []) (wake_member t m s') in
    if ltb woken count then (assert (is_nil rest) >> again) else ok (s, woken, spopped)

unfoldable pub wake : ℕ → ℕ → Sim → Result (Sim × ℕ × List ℕ)
unfolding wake_loop
wake t count s = wake_loop t count s.idle 0 [] s
