-- ===== src/Ack/Run.antt =====
-- assets/diagrams/gen/gen_ack.py, build: its main line, with the assertions.
mod Tests
use redisq.Base.{
  ℕ, ◌+◌, ◌*◌, ◌/◌, Bool, true, false, ◌&&◌, List, [], ◌∷◌, map, ltb, leb, ◌==◌, all, select,
  Result, ok, ◌>>=◌, ◌>>◌, assert, or_raise, key_error, type_error, ℕ_discrete,
}
use redisq.Base.Dict
use redisq.Base.Sort.{sorted}
use redisq.Ack.Walk.{walk}
use redisq.Ack.Build.{
  reserve, send, acknowledge, row_at, slot_at, first_of, State, Place, in_list, in_pending, is_done,
  init, enq, second, enqueue_all, pop, requeue, first_tick,
}

same_numbers : List ℕ → List ℕ → Bool
same_numbers [] [] = true
same_numbers (x ∷ xs) (y ∷ ys) = x == y && same_numbers xs ys
same_numbers _ _ = false

-- A place, as a number.
place_code : Place → ℕ
place_code in_list = 0
place_code in_pending = 1
place_code is_done = 2

-- `log == sorted(log)`.
in_order : ℕ → List ℕ → Bool
in_order t [] = true
in_order t (u ∷ us) = leb t u && in_order u us

-- `e <= s2` for each job and the next one.
one_at_a_time : ℕ → List (ℕ × ℕ) → Bool
one_at_a_time e [] = true
one_at_a_time e (b ∷ bs) = leb e b.0 && one_at_a_time b.1 bs

places_of : ℕ → State → List (ℕ × ℕ × Place)
places_of k s = select (λ p. p.0 == k) s.places

-- The assertion on one job's log.
one_place : ℕ → List ℕ → State → Bool
unfolding places_of same_numbers in_order place_code
one_place k expected s =
    same_numbers (map (λ p. place_code p.2) (places_of k s)) expected
    && in_order 0 (map (λ p. p.1) (places_of k s))

is_empty : List ℕ → Bool
is_empty [] = true
is_empty (x ∷ xs) = false

-- The invariants at the end; `d` is kfu.D, in seconds.
check : ℕ → State → Result (Unit {0})
unfolding same_numbers one_place one_at_a_time is_empty
check d s = do
  assert (same_numbers (map (λ p. p.1) s.pops) (1 ∷ 2 ∷ 2 ∷ []))
  assert (same_numbers (map (λ a. a.1) s.acks) (1 ∷ 2 ∷ []))
  assert (one_place 1 (0 ∷ 1 ∷ 2 ∷ []) s && one_place 2 (0 ∷ 1 ∷ 0 ∷ 1 ∷ 2 ∷ []) s)
  assert (one_at_a_time 0 s.busy)
  assert (is_empty s.lst && same_numbers (sorted leb s.rows_free) (0 ∷ 1 ∷ []))
  assert (all (λ b. leb b.1 (d * second)) s.busy)

-- `float(int(end + 1.5) + 1)`, in seconds.
pub loop_length : ℕ → ℕ
loop_length end = (end + 630000) / second + 1

-- The times that `build` returns, the loop's length and the final state.
pub record Built : Type 0 where
  pub state : State
  pub deadline : ℕ
  pub requeued : ℕ
  pub length : ℕ

-- A's pop at 1.4 s; B's at the poll after the ack; the sweep; B again at the next poll, to the end.
last_poll : ℕ → ℕ → ℕ → State → Result Built
unfolding pop reserve send walk acknowledge row_at slot_at first_of check loop_length
last_poll row dl req s = do
  p ← pop (req + 378000) true s
  a ← or_raise type_error p.2
  let end = a + 126000
  let d = loop_length end
  assert (leb (end + second) (d * second))
  _ ← check d p.0
  assert (row == 1 && p.3 == 0)
  ok (record { state = p.0; deadline = dl; requeued = req; length = d })

pub build : Result Built
unfolding enqueue_all pop reserve send walk acknowledge row_at slot_at first_of requeue first_tick
    last_poll
build = do
  s ← enqueue_all enq init
  p ← pop 588000 true s
  a ← or_raise type_error p.2
  q ← pop (a + 126000) false p.0
  dl ← or_raise key_error (Dict.get ℕ_discrete 2 q.0.deadlines)
  assert (ltb q.1 dl)
  req ← first_tick dl
  assert (leb dl req && ltb req (dl + second))
  r ← requeue req 2 q.3 q.0
  last_poll q.3 dl req r
