-- ===== src/Kfu/Pool.antt =====
-- assets/diagrams/gen/kfu.py, class Pool: workers spawned on demand up to a limit, idle ones reused
-- last in first out. Times are whole milliseconds; `alive` is a list over the workers 0 to limit - 1.
pub mod Take
pub mod Release
use redisq.Base.{
  ℕ, zero, suc, ◌+◌, ◌≤◌, ◌<◌, ◌≡◌, ◌≢◌, refl, ap, ◌∙◌, inl, inr, Bool, true, false, ◌&&◌, not,
  Option, none, some, List, [], ◌∷◌, ◌++◌, arith, ltb, ◌==◌, if◌then◌else◌, Bool-cases,
  Option-cases, elem, count, count-append, elem-append, elem-count, length, get_elem?, set, Result,
  ok, raise, ◌>>=◌, assertion_error, index_error,
}

-- The lifetimes of one worker: start, and end if it has one.
abbrev pub Lives : Type 0
Lives = List (ℕ × Option ℕ)

pub record Pool : Type 0 where
  pub limit : ℕ
  pub idle : List ℕ
  pub alive : List Lives

-- `list(range(n))`.
range_from : ℕ → ℕ → List ℕ
range_from i zero = []
range_from i (suc n) = i ∷ range_from (suc i) n

first_lives : ℕ → ℕ → ℕ → List Lives
first_lives idle w zero = []
first_lives idle w (suc n) =
    (if ltb w idle then (0, none) ∷ [] else []) ∷ first_lives idle (suc w) n

pub init : ℕ → ℕ → Pool
unfolding range_from first_lives
init limit idle = record {
  limit = limit;
  idle = range_from 0 idle;
  alive = first_lives idle 0 limit;
}

-- `self.idle.pop()`: the last item and those before it.
pub pop_last : ℕ → List ℕ → List ℕ × ℕ
pop_last x [] = ([], x)
pop_last x (y ∷ ys) = let (rest, z) = pop_last y ys in (x ∷ rest, z)

-- The last lifetime has no end.
unfoldable pub is_open_last : Option ℕ → Lives → Bool
is_open_last none [] = true
is_open_last (some e) [] = false
is_open_last e (l ∷ ls) = is_open_last l.1 ls

unfoldable pub is_open : Lives → Bool
unfolding is_open_last
is_open [] = false
is_open (l ∷ ls) = is_open_last l.1 ls

-- `next((w for w in range(limit) if not alive[w] or alive[w][-1][1] is not None), None)`: `alive` has a row for each
-- `w` of the range from the start on.
pub free_slot : ℕ → List Lives → Option ℕ
free_slot w [] = none
free_slot w (l ∷ ls) = if is_open l then free_slot (suc w) ls else some w

abbrev pub lives_at : List Lives → ℕ → Lives
lives_at alive w = elim (get_elem? alive w) [ none ↦ [] | some l ↦ l ]

abbrev pub lives : Pool → ℕ → Lives
lives p w = lives_at p.alive w

pub spawn : Pool → ℕ → Option ℕ → Result (Pool × ℕ)
spawn p t none = raise assertion_error
spawn p t (some w) = ok (record p { alive = set p.alive w (lives p w ++ (t, none) ∷ []) }, w)

pub take_from : Pool → ℕ → List ℕ → Result (Pool × ℕ)
unfolding pop_last spawn
take_from p t [] = spawn p t (free_slot 0 p.alive)
take_from p t (x ∷ xs) = let (rest, w) = pop_last x xs in ok (record p { idle = rest }, w)

pub take : Pool → ℕ → Result (Pool × ℕ)
unfolding take_from
take p t = take_from p t p.idle

-- `alive[w][-1] = (alive[w][-1][0], end)`.
pub close_from : ℕ → ℕ × Option ℕ → Lives → Lives
close_from e l [] = (l.0, some e) ∷ []
close_from e l (l' ∷ ls) = l ∷ close_from e l' ls

pub close_last : ℕ → Lives → Result Lives
unfolding close_from
close_last e [] = raise index_error
close_last e (l ∷ ls) = ok (close_from e l ls)

pub release : Pool → ℕ → ℕ → Bool → ℕ → Result Pool
unfolding close_last
release p w t true exit_in = ok (record p { idle = p.idle ++ w ∷ [] })
release p w t false exit_in = do
  l ← close_last (t + exit_in) (lives p w)
  ok (record p { alive = set p.alive w l })

-- `w` is at work: its last lifetime is open, and it is not idle.
abbrev pub is_busy : Pool → ℕ → Bool
is_busy p w = is_open (lives p w) && not (elem w p.idle)

-- Idle workers are alive, each idle once.
pub record IsValid (p : Pool) : Type 0 where
  pub open_idle : (w : ℕ) → elem w p.idle ≡ true → is_open (lives p w) ≡ true
  pub once : (w : ℕ) → count w p.idle ≤ 1
