-- ===== src/Dead/Store/Simulate/Facts.antt =====
-- assets/diagrams/gen/gen_dead.py, facts: the moments that are drawn, and what is asserted of the run. What is
-- read off its log stands in Reads. Times are whole milliseconds.
use redisq.Base.{
  ℕ, suc, Bool, true, false, ◌&&◌, not, Option, none, some, List, [], ◌∷◌, map, leb, ◌==◌,
  if◌then◌else◌, elem, all, select, length, Result, ok, raise, ◌>>=◌, ◌>>◌, assert, or_raise,
  index_error, type_error,
}
use redisq.Base.Int.{ℤ, pos, pos_part, ◌+ℤ◌, leb_ℤ, ltb_ℤ, eqb_ℤ}
use redisq.Base.Sort.{sorted}
use redisq.Dead.Store.{Redis, Note, hbt, grace, tick_min}
use redisq.Dead.Store.Simulate.{Place, in_pending, in_list, is_done}
use redisq.Dead.Store.Simulate.Reads.{
  Log, Moments, marked, is_gone, still_waiting, timed_out, pops_of, acks_of, notes_of, first,
  extreme, moments,
}

is_nil {ℓ} : {A : Type ℓ} → List A → Bool
is_nil [] = true
is_nil (x ∷ xs) = false

eq_option : Option ℤ → ℤ → Bool
eq_option none t = false
eq_option (some s) t = eqb_ℤ s t

is_none : Option ℤ → Bool
is_none none = true
is_none (some t) = false

same_list : List ℕ → List ℕ → Bool
same_list [] [] = true
same_list [] (y ∷ ys) = false
same_list (x ∷ xs) [] = false
same_list (x ∷ xs) (y ∷ ys) = x == y && same_list xs ys

-- Whether a dict holds the time `t` of consumer 2 and nothing else.
is_only : ℤ → List (ℕ × ℤ) → Bool
is_only t [] = false
is_only t ((m, s) ∷ []) = m == 2 && eqb_ℤ s t
is_only t (x ∷ y ∷ d) = false

-- The start state, just before consumer 2 stops.
check_start : ℤ → Redis → Result (Unit {0})
unfolding eq_option is_only is_nil same_list
check_start c2_last start = do
  assert (eqb_ℤ c2_last (pos 0) && eq_option start.clock (pos 0))
  assert (is_only hbt start.hb && is_only (pos 0) start.pres && is_nil start.lst)
  assert (
      same_list (sorted leb (map (λ e. e.1) start.pending)) (1 ∷ 2 ∷ [])
      && all (λ e. e.0.owner == 2) start.pending)

-- While consumer 2 lived its sweeps moved the clock and consumer 1's did not, nor does the first after the kill.
check_clock : Moments → Result (Unit {0})
unfolding is_nil
check_clock m = do
  assert
      (all (λ e. not e.ticked) (select (λ e. ltb_ℤ m.c2_first e.time && ltb_ℤ e.time m.kill) m.c1))
  assert (all (λ e. e.ticked) (select (λ e. e.who == 2 && ltb_ℤ m.c2_first e.time) m.sweeps))
  assert (
      not m.first_after.ticked
      && ltb_ℤ m.first_after.time (m.c2_last +ℤ tick_min)
      && is_nil m.first_after.notes)

pub marks_of : Moments → List ℤ
unfolding notes_of
marks_of m = map (λ e. e.time) (select (notes_of marked) m.sweeps)

-- Row A: the mark, and the reap the grace period after it; the result is when the mark was set.
pub check_row_a : Moments → ℤ → Result ℤ
unfolding marks_of notes_of first eq_option is_nil
check_row_a m hb_out = do
  let marks = marks_of m
  at ← elim marks [ [] ↦ raise index_error | t ∷ ts ↦ ok t ]
  moved ← first (λ e. ltb_ℤ m.kill e.time && e.ticked) m.c1
  assert (length marks == 1 && eqb_ℤ at moved.time)
  assert (
      all (λ e. eq_option e.mark_left (pos 0))
        (select (λ e. leb_ℤ m.c2_first e.time && ltb_ℤ e.time at) m.sweeps))
  due ← first (λ e. ltb_ℤ at e.time && e.ticked && leb_ℤ (at +ℤ grace) e.time) m.c1
  assert (eqb_ℤ m.reap due.time)
  assert (notes_of is_gone m.reaper && not (notes_of timed_out m.reaper))
  assert (is_nil (select (λ e. e.who == 2 && leb_ℤ at e.time && leb_ℤ e.time m.reap) m.sweeps))
  assert (
      all (λ e. e.ticked && notes_of still_waiting e)
        (select (λ e. ltb_ℤ at e.time && ltb_ℤ e.time m.reap) m.c1))
  assert (ltb_ℤ m.reap hb_out)
  assert (leb_ℤ (m.kill +ℤ grace) m.reap && leb_ℤ m.reap (m.kill +ℤ grace +ℤ pos 2500))
  ok at

-- Row B: no mark; the reap is the first sweep of consumer 1 at or after the end of the heartbeat.
pub check_row_b : Moments → ℤ → Result (Unit {0})
unfolding marks_of notes_of eq_option is_nil extreme
check_row_b m hb_out = do
  assert (
      is_nil (marks_of m)
      && all (λ e. eq_option e.mark_left (pos 0))
          (select (λ e. leb_ℤ m.c2_first e.time && ltb_ℤ e.time m.reap) m.sweeps))
  due ← extreme leb_ℤ (map (λ e. e.time) (select (λ e. leb_ℤ hb_out e.time) m.c1))
  assert (eqb_ℤ m.reap due)
  assert (notes_of timed_out m.reaper)
  assert (leb_ℤ (pos 30000) m.reap && leb_ℤ m.reap (pos 31000))

-- Where a job was, and in order of time.
same_place : Place → Place → Bool
same_place (in_pending m) (in_pending n) = m == n
same_place (in_pending m) in_list = false
same_place (in_pending m) is_done = false
same_place in_list (in_pending n) = false
same_place in_list in_list = true
same_place in_list is_done = false
same_place is_done (in_pending n) = false
same_place is_done in_list = false
same_place is_done is_done = true

same_places : List Place → List Place → Bool
unfolding same_place
same_places [] [] = true
same_places [] (q ∷ qs) = false
same_places (p ∷ ps) [] = false
same_places (p ∷ ps) (q ∷ qs) = same_place p q && same_places ps qs

in_order : List ℤ → Bool
in_order [] = true
in_order (t ∷ []) = true
in_order (t ∷ u ∷ ts) = leb_ℤ t u && in_order (u ∷ ts)

check_places : List (ℕ × ℤ × Place) → ℕ → Bool
unfolding same_places in_order
check_places places v =
    let own = select (λ p. p.0 == v) places in
    same_places (map (λ p. p.2) own) (in_pending 2 ∷ in_list ∷ in_pending 1 ∷ is_done ∷ [])
    && in_order (map (λ p. p.1) own)

distinct : List ℕ → ℕ
distinct [] = 0
distinct (x ∷ xs) = let rest = distinct xs in if elem x xs then rest else suc rest

-- What both rows end with.
check_end : Moments → List (ℤ × ℕ) → List (ℤ × ℕ) → Redis → List (ℕ × ℤ × Place) → Result (Unit {0})
unfolding is_none same_list is_nil distinct check_places
check_end m pops acks r places = do
  assert (m.reaper.who == 1 && is_none m.reaper.hb_left && is_none m.reaper.mark_left)
  assert (same_list m.reaper.list_left (2 ∷ 1 ∷ []))
  assert (m.wake.wanted == 2 && elem 1 m.wake.woken && ltb_ℤ m.wake.time (m.reap +ℤ pos 1000))
  assert (same_list (map (λ p. p.1) pops) m.reaper.list_left)
  assert (distinct (map (λ p. p.1) acks) == 2 && is_nil r.lst && is_nil r.pending)
  assert (all (check_places places) (1 ∷ 2 ∷ []))

-- The moments of a row, in milliseconds; those that are drawn are not before 0.
pub record Facts : Type 0 where
  pub kill : ℕ
  pub c2_last : ℕ
  pub skip : ℕ
  pub mark : Option ℕ
  pub reap : ℕ
  pub wake : ℕ
  pub pops : List (ℕ × ℕ)
  pub acks : List (ℕ × ℕ)
  pub hb_out : ℕ
  pub order : List ℕ
  pub woken : List ℕ
  pub sweeps : List (ℕ × Bool × List Note)

whole : ℤ × ℕ → ℕ × ℕ
whole p = (pos_part p.0, p.1)

-- The end of the heartbeat of consumer 2 at the start.
end_of_heartbeat : Redis → Result ℤ
end_of_heartbeat start = elim start.hb [ [] ↦ raise index_error | e ∷ d ↦ ok e.1 ]

unfoldable pub facts : Bool → Redis → Option Redis → Log → List (ℕ × ℤ × Place) → Result Facts
unfolding moments check_start check_clock check_row_a check_row_b check_end pops_of acks_of whole
    end_of_heartbeat
facts row_a r start log places = do
  m ← moments log
  let pops = pops_of log
  let acks = acks_of log
  start ← or_raise type_error start
  check_start m.c2_last start
  check_clock m
  hb_out ← end_of_heartbeat start
  marked_at ←
      if row_a
      then (check_row_a m hb_out >>= λ t. ok (if eqb_ℤ t (pos 0) then none else some (pos_part t)))
      else (check_row_b m hb_out >> ok none)
  check_end m pops acks r places
  ok (record {
    kill = pos_part m.kill;
    c2_last = pos_part m.c2_last;
    skip = pos_part m.first_after.time;
    mark = marked_at;
    reap = pos_part m.reap;
    wake = pos_part m.wake.time;
    pops = map whole pops;
    acks = map whole acks;
    hb_out = pos_part hb_out;
    order = m.reaper.list_left;
    woken = m.wake.woken;
    sweeps =
        map (λ e. (pos_part e.time, e.ticked, e.notes)) (select (λ e. ltb_ℤ m.kill e.time) m.c1);
  })
