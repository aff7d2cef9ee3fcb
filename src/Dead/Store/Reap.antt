-- ===== src/Dead/Store/Reap.antt =====
-- assets/diagrams/gen/gen_dead.py, class Redis: whose items a sweep takes, and whose it leaves.
use redisq.Base.{
  ℕ, ◌+◌, ◌-◌, ◌≡◌, ◌≢◌, refl, sym, ap, ◌∙◌, inl, inr, ite, Bool, true, false, ◌&&◌, ◌||◌, not,
  Option, none, some, List, [], ◌∷◌, arith, ltb, leb, ok, ◌==◌, if◌then◌else◌, Bool-cases,
  Option-cases, select, elem, elem-add, ℕ_discrete,
}
use redisq.Base.Int.{ℤ, pos, leb_ℤ, eqb_ℤ, ◌+ℤ◌, +ℤ_parts}
use redisq.Base.Dict
use redisq.Base.Dict.{occurs}
use redisq.Base.Sort.{total, total-sorted, elem-sorted, sorted}
use redisq.Dead.Store.{
  Redis, AckId, AckId-discrete, Seen, Swept, move, move_all, reap_dead, dead_ids, aid_le,
  check_member, check_members, grace, subscribers, find_dead, sweep, tick, moves_clock, begin,
  finish, expired, present,
}
use redisq.Dead.Store.Conserve.{forget_store, tick-eq-ok, begin_store}

abbrev pub find : AckId → List (AckId × ℕ) → Option ℕ
find = Dict.get AckId-discrete

abbrev pub among : AckId → List AckId → ℕ
among = occurs AckId-discrete

move-among :
    (r : Redis) (a b : AckId)
    → among a (Dict.keys (move r b).0.pending)
      ≡ among a (Dict.keys r.pending) - ite (AckId-discrete b a) 1 0
unfolding move
move-among r a b = elim (Option-cases (find b r.pending)) [
  | inl e ↦
      rw (e, move)
        (omega (
          arith,
          Dict.occurs-erase AckId-discrete a b r.pending,
          ap (λ d. among a (Dict.keys d)) (Dict.erase_absent AckId-discrete b r.pending e),
        ))
  | inr (w, e) ↦ rw (e, move) (Dict.occurs-erase AckId-discrete a b r.pending)
]

move_all-among :
    (ids : List AckId) (r : Redis) (n : ℕ) (a : AckId)
    → among a (Dict.keys (move_all ids r n).0.pending) ≡ among a (Dict.keys r.pending) - among a ids
unfolding move_all
move_all-among [] r n a = omega arith
move_all-among (b ∷ ids) r n a =
    omega (arith, move_all-among ids (move r b).0 (n + (move r b).1) a, move-among r a b)

move-find : (r : Redis) (a b : AckId) → b ≢ a → find a (move r b).0.pending ≡ find a r.pending
unfolding move
move-find r a b h = ground (arith, Dict.get-erase_ne AckId-discrete b a r.pending h)

move_all-find :
    (ids : List AckId) (r : Redis) (n : ℕ) (a : AckId)
    → among a ids ≡ 0
    → find a (move_all ids r n).0.pending ≡ find a r.pending
unfolding move_all
move_all-find [] r n a h = refl
move_all-find (b ∷ ids) r n a h =
    ground (arith, move_all-find ids (move r b).0 (n + (move r b).1) a, move-find r a b)

among-total :
    (a : AckId) (ids : List AckId) → among a ids ≡ total (λ b. ite (AckId-discrete b a) 1 0) ids
among-total a [] = refl
among-total a (b ∷ ids) = omega (arith, among-total a ids)

among-select :
    (a : AckId) (dead : List ℕ) (ids : List AckId)
    → among a (select (λ b. elem b.owner dead) ids) ≡ (if elem a.owner dead then among a ids else 0)
among-select a dead [] = ground arith
among-select a dead (b ∷ ids) = ground (arith, among-select a dead ids)

dead_ids-among :
    (a : AckId) (dead : List ℕ) (pending : List (AckId × ℕ))
    → among a (dead_ids dead pending)
      ≡ (if elem a.owner dead then among a (Dict.keys pending) else 0)
unfolding dead_ids
dead_ids-among a dead pending =
    among-total a _
    ∙ total-sorted aid_le _ _
    ∙ sym (among-total a _)
    ∙ among-select a dead (Dict.keys pending)

-- A reap takes every item of a dead owner, and leaves every other item where it is.
pub reap-find :
    (r : Redis) (dead : List ℕ) (a : AckId)
    → find a (reap_dead r dead).0.pending ≡ (if elem a.owner dead then none else find a r.pending)
unfolding reap_dead
reap-find r dead a =
    let ids = dead_ids dead r.pending in
    let (_, p, _, _) = forget_store dead (move_all ids r 0).0 in
    let taken = λ (b : Bool). if b then among a (Dict.keys r.pending) else 0 in
    rw p (elim (Bool-cases (elem a.owner dead)) [
      | inl e ↦ rw e (
          Dict.occurs-get AckId-discrete a _
            (omega (arith, move_all-among ids r 0 a, dead_ids-among a dead r.pending, ap taken e)))
      | inr e ↦ rw e (move_all-find ids r 0 a (dead_ids-among a dead r.pending ∙ ap taken e))
    ])

-- Member `m` has had no subscriber for the grace period: its mark says since when, 0 is no mark.
abbrev pub is_gone : Redis → ℤ → List (ℕ × ℤ) → ℕ → Bool
is_gone r now pres m = not (ltb 0 (subscribers r m)) && elim (Dict.get ℕ_discrete m pres) [
  | none ↦ false
  | some s ↦ not (eqb_ℤ s (pos 0)) && leb_ℤ (s +ℤ grace) now
]

-- A round of the loop, for the member itself or another one, decides the same of `m` afterwards.
check_member-is_gone :
    (r : Redis) (now : ℤ) (c : Seen) (x m : ℕ)
    → is_gone r now (check_member r now c x).pres m ≡ is_gone r now c.pres m
unfolding check_member
check_member-is_gone r now c x m = ground (
  arith,
  Dict.get-insert ℕ_discrete x m (pos 0) c.pres,
  Dict.get-insert ℕ_discrete x m now c.pres,
  +ℤ_parts now grace,
)

check_member-dead :
    (r : Redis) (now : ℤ) (c : Seen) (x m : ℕ)
    → elem m (check_member r now c x).dead ≡ (elem m c.dead || x == m && is_gone r now c.pres m)
unfolding check_member
check_member-dead r now c x m = ground (arith, elem-add m x c.dead)

check_members-dead :
    (r : Redis) (now : ℤ) (ms : List ℕ) (c : Seen) (m : ℕ)
    → elem m (check_members r now ms c).dead
      ≡ (elem m c.dead || elem m ms && is_gone r now c.pres m)
unfolding check_members
check_members-dead r now [] c m = ground arith
check_members-dead r now (x ∷ ms) c m = ground (
  arith,
  check_members-dead r now ms (check_member r now c x) m,
  check_member-dead r now c x m,
  check_member-is_gone r now c x m,
)

-- When a sweep counts an owner as dead: a heartbeat of it ran out, or the sweep moved the clock and
-- the owner, by heartbeat alive, is gone.
abbrev pub is_dead : Redis → ℤ → Bool → ℕ → Bool
is_dead r now ticked m =
    elem m (expired now r.hb) || ticked && (elem m (present now r.hb) && is_gone r now r.pres m)

pub find_dead-is_dead :
    (r : Redis) (now : ℤ) (ticked : Bool) (m : ℕ)
    → elem m (find_dead r now ticked).dead ≡ is_dead r now ticked m
unfolding find_dead
find_dead-is_dead r now true m =
    check_members-dead r now (sorted leb (present now r.hb)) _ m
    ∙ ap (λ b. elem m (expired now r.hb) || b && is_gone r now r.pres m)
        (elem-sorted m (present now r.hb))
find_dead-is_dead r now false m = ground arith

finish-find :
    (last : Option ℤ) (r : Redis) (now : ℤ) (ticked : Bool) (a : AckId) {l : ℤ}
    → last ≡ some l
    → find a (finish last r now ticked).0.pending
      ≡ (if is_dead r now ticked a.owner then none else find a r.pending)
unfolding finish sweep
finish-find none r now ticked a h = cc
finish-find (some _) r now ticked a h =
    let c = find_dead r now ticked in
    reap-find (record r { pres = c.pres }) c.dead a
    ∙ ap (λ b. if b then none else find a r.pending) (find_dead-is_dead r now ticked a.owner)

-- A sweep that does not raise, on a queue whose clock was set, takes from the pending hash exactly
-- the entries whose owner is dead by `is_dead`, read in the state after the sweep moved the clock
-- and renewed its own heartbeat; every other entry keeps its item.
pub tick_reaps_exactly :
    (r : Redis) (me : ℕ) (now last : ℤ) (s : Swept) (a : AckId)
    → r.clock ≡ some last
    → tick r me now ≡ ok s
    → find a s.0.pending ≡ (
        if is_dead (begin r me now) now (moves_clock r.clock now) a.owner
        then none
        else find a r.pending)
tick_reaps_exactly r me now last s a set h =
    let (_, p, _, _) = begin_store r me now in
    rw (tick-eq-ok r me now s h)
      (finish-find r.clock (begin r me now) now (moves_clock r.clock now) a set ∙ rw p refl)
