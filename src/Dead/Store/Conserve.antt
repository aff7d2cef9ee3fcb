-- ===== src/Dead/Store/Conserve.antt =====
-- assets/diagrams/gen/gen_dead.py, class Redis: no method loses a job or makes one up.
use redisq.Base.{
  ℕ, ◌+◌, ◌≡◌, refl, ap, ◌∙◌, inl, inr, Bool, Option, none, some, List, [], ◌∷◌, arith, ◌==◌,
  if◌then◌else◌, Option-cases, count, length, ok,
}
use redisq.Base.Int.{ℤ}
use redisq.Base.Dict
use redisq.Dead.Store.{
  Redis, AckId, AckId-discrete, Swept, move, move_all, forget, reap_dead, sweep, finish, begin,
  renew, tick, moves_clock, find_dead, dead_ids,
}

-- How often job `v` stands in the list or in the pending hash.
abbrev pub jobs : ℕ → Redis → ℕ
jobs v r = count v r.lst + count v (Dict.values r.pending)

module _ {K : Type 0} (dec : Discrete K) where
  pub count-erase :
      (v w : ℕ) (k : K) (d : List (K × ℕ))
      → Dict.get dec k d ≡ some w
      → count v (Dict.values (Dict.erase dec k d)) + (if w == v then 1 else 0)
        ≡ count v (Dict.values d)
  unfolding Dict.get Dict.erase
  count-erase v w k [] h = cc
  count-erase v w k ((j, x) ∷ d) h = ground (arith, count-erase v w k d)

-- What a method must keep: every job's count, and one more list entry for each item moved.
pub record Keeps (r : Redis) (n : ℕ) (s : Redis) (m : ℕ) : Type 0 where
  pub same_jobs : (v : ℕ) → jobs v s ≡ jobs v r
  pub moved : length s.lst + n ≡ length r.lst + m

move-Keeps : (r : Redis) (a : AckId) (n : ℕ) → Keeps r n (move r a).0 (n + (move r a).1)
unfolding move
move-Keeps r a n = elim (Option-cases (Dict.get AckId-discrete a r.pending)) [
  | inl e ↦ rw (e, move) (record { same_jobs = λ v. refl; moved = omega arith })
  | inr (w, e) ↦
      rw (e, move)
        (record {
          same_jobs = λ v. omega (arith, count-erase AckId-discrete v w a r.pending e);
          moved = omega arith;
        })
]

Keeps-trans : {r s t : Redis} {n m k : ℕ} → Keeps r n s m → Keeps s m t k → Keeps r n t k
Keeps-trans p q = record {
  same_jobs = λ v. q.same_jobs v ∙ p.same_jobs v;
  moved = omega (arith, p.moved, q.moved);
}

move_all-Keeps :
    (ids : List AckId) (r : Redis) (n : ℕ) → Keeps r n (move_all ids r n).0 (move_all ids r n).1
unfolding move_all
move_all-Keeps [] r n = record { same_jobs = λ v. refl; moved = refl }
move_all-Keeps (a ∷ ids) r n =
    Keeps-trans (move-Keeps r a n) (move_all-Keeps ids (move r a).0 (n + (move r a).1))

pub forget_store :
    (ms : List ℕ) (r : Redis)
    → ((forget ms r).lst ≡ r.lst)
      × ((forget ms r).pending ≡ r.pending)
      × ((forget ms r).dl ≡ r.dl)
      × ((forget ms r).seq ≡ r.seq)
unfolding forget
forget_store [] r = (refl, refl, refl, refl)
forget_store (m ∷ ms) r = forget_store ms _

reap-Keeps : (r : Redis) (dead : List ℕ) → Keeps r 0 (reap_dead r dead).0 (reap_dead r dead).1
unfolding reap_dead
reap-Keeps r dead =
    let moved = move_all-Keeps (dead_ids dead r.pending) r 0 in
    let (l, p, _, _) = forget_store dead (move_all (dead_ids dead r.pending) r 0).0 in
    record { same_jobs = λ v. rw (l, p) (moved.same_jobs v); moved = rw l moved.moved }

-- The start of a sweep touches neither the jobs nor their deadlines.
pub begin_store :
    (r : Redis) (me : ℕ) (now : ℤ)
    → ((begin r me now).lst ≡ r.lst)
      × ((begin r me now).pending ≡ r.pending)
      × ((begin r me now).dl ≡ r.dl)
      × ((begin r me now).seq ≡ r.seq)
unfolding begin moves_clock renew
begin_store r me now = ground arith

finish-Keeps :
    (last : Option ℤ) (r : Redis) (now : ℤ) (ticked : Bool)
    → Keeps r 0 (finish last r now ticked).0 (finish last r now ticked).1
unfolding finish sweep
finish-Keeps none r now ticked = record { same_jobs = λ v. refl; moved = refl }
finish-Keeps (some _) r now ticked =
    let c = find_dead r now ticked in
    let k = reap-Keeps (record r { pres = c.pres }) c.dead in
    record { same_jobs = k.same_jobs; moved = k.moved }

-- A sweep that does not raise: what it returns.
pub tick-eq-ok :
    (r : Redis) (me : ℕ) (now : ℤ) (s : Swept)
    → tick r me now ≡ ok s
    → s ≡ finish r.clock (begin r me now) now (moves_clock r.clock now)
unfolding tick
tick-eq-ok r me now s h = ground arith

-- A sweep that does not raise keeps every job, in the list or in the pending hash, as often as it
-- was there; the number that it returns is the number of items that it put back on the list.
pub tick_conserves :
    (r : Redis) (me : ℕ) (now : ℤ) (s : Swept)
    → tick r me now ≡ ok s
    → ((v : ℕ) → jobs v s.0 ≡ jobs v r) × (length s.0.lst ≡ length r.lst + s.1)
tick_conserves r me now s h =
    let (l, p, _, _) = begin_store r me now in
    let k = finish-Keeps r.clock (begin r me now) now (moves_clock r.clock now) in
    rw (tick-eq-ok r me now s h)
      ((λ v. k.same_jobs v ∙ rw (l, p) refl), omega (arith, k.moved, ap (length {A = ℕ}) l))
