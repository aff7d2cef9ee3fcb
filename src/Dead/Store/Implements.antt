-- ===== src/Dead/Store/Implements.antt =====
-- assets/diagrams/gen/gen_dead.py, class Redis: its scripts do to the queue what it promises.
use mathlib.Core.Logic.{if_pos, if_neg}
use redisq.Base.{
  ℕ, ◌+◌, ◌≡◌, refl, ◌∙◌, subst, Bool, true, false, Option, none, some, List, [], ◌∷◌, ite, arith,
  inl, inr, Option-cases, elem, leb, not, ◌||◌, if◌then◌else◌, discard, length, ok,
}
use redisq.Base.Int.{ℤ}
use redisq.Base.Dict
use redisq.Dead.Store.{
  Redis, AckId, AckId-discrete, Swept, move, move_all, pop_one, pop_item, ack, tick, finish, sweep,
  reap_dead, find_dead, dead_ids, begin, moves_clock, wake, wake_loop,
}
use redisq.Dead.Store.Conserve.{forget_store, begin_store, tick-eq-ok}
use redisq.Dead.Store.Reap.{find}
use redisq.Dead.Store.Valid.{IsValid, same-IsValid, move-IsValid, next_id, next_absent, ack-eq-ok}
use redisq.Dead.Store.Queue.{
  view, IsSame, IsTaken, IsFinished, AreReturned, all_back, one_back, IsSame-refl, same-AreReturned,
}

-- An id that is erased stands for nothing.
find-erase :
    (r : Redis) (id a : AckId)
    → IsValid r
    → find a (Dict.erase AckId-discrete id r.pending)
      ≡ ite (AckId-discrete id a) none (find a r.pending)
find-erase r id a h = elim (AckId-discrete id a) [
  | yes e ↦
      rw (if_pos _ e, e)
        (Dict.occurs-get AckId-discrete a (Dict.erase AckId-discrete a r.pending)
          (ground (arith, Dict.occurs-erase AckId-discrete a a r.pending, h.distinct a)))
  | no e ↦ rw (if_neg _ e) (Dict.get-erase_ne AckId-discrete id a r.pending e)
]

pub IsSame-view : (r s : Redis) → s.lst ≡ r.lst → s.pending ≡ r.pending → IsSame (view r) (view s)
IsSame-view r s l p = record { same_list = l; same_held = λ a. rw p refl }

move_all-AreReturned :
    (ids : List AckId) (r : Redis) (n : ℕ)
    → IsValid r
    → (back : List AckId) × AreReturned back (view r) (view (move_all ids r n).0)
unfolding move move_all
move_all-AreReturned [] r n h = ([], all_back _ _ (IsSame-refl (view r)))
move_all-AreReturned (a ∷ ids) r n h =
    let (back, k) = move_all-AreReturned ids (move r a).0 (n + (move r a).1) (move-IsValid r a h) in
    elim (Option-cases (find a r.pending)) [
      | inl e ↦ (
        back,
        same-AreReturned back (view r) (view (move r a).0) _ (rw (e, move) (IsSame-refl (view r)))
            k,
      )
      | inr (v, e) ↦ (
        a ∷ back,
        one_back a back (view r) (view (move r a).0) _
            (rw (e, move)
              (record { job = v; was_held = e; first = refl; now_held = λ b. find-erase r a b h }))
            k,
      )
    ]

pop_item-IsTaken :
    (r : Redis) (owner : ℕ) (now : ℤ) (l : List ℕ) (got : AckId × ℕ)
    → r.lst ≡ l
    → IsValid r
    → (pop_item r owner now l).1 ≡ some got
    → IsTaken owner (view r) (view (pop_item r owner now l).0)
unfolding pop_item
pop_item-IsTaken r owner now [] got e h g = absurd (cc)
pop_item-IsTaken r owner now (v ∷ rest) got e h g = record {
  job = v;
  id = next_id r owner;
  own = refl;
  first = e;
  new = next_absent r owner h;
  now_held = λ a. Dict.get-insert AckId-discrete (next_id r owner) a v r.pending;
}

pub ack-IsFinished :
    (r s : Redis) (a : AckId) → IsValid r → ack r a ≡ ok s → IsFinished a (view r) (view s)
unfolding ack
ack-IsFinished r s a h g = elim (Option-cases (find a r.pending)) [
  | inl e ↦ absurd (ground (arith, e, g))
  | inr (v, e) ↦
      let same : record r {
        pending = Dict.erase AckId-discrete a r.pending;
        dl = Dict.erase AckId-discrete a r.dl;
      }
          ≡ s =
        ground (arith, ack-eq-ok r a v h e, g) in
      subst (λ x. IsFinished a (view r) (view x)) same
        (record { job = v; was_held = e; same_list = refl; now_held = λ b. find-erase r a b h })
]

finish-AreReturned :
    (last : Option ℤ) (r : Redis) (now : ℤ) (ticked : Bool)
    → IsValid r
    → (back : List AckId) × AreReturned back (view r) (view (finish last r now ticked).0)
unfolding finish sweep reap_dead
finish-AreReturned none r now ticked h = ([], all_back _ _ (IsSame-refl (view r)))
finish-AreReturned (some _) r now ticked h =
    let c = find_dead r now ticked in
    let r' : Redis = record r { pres = c.pres } in
    let ids = dead_ids c.dead r.pending in
    let (l, p, _, _) = forget_store c.dead (move_all ids r' 0).0 in
    let (back, k) = move_all-AreReturned ids r' 0 (same-IsValid r r' (refl, refl, refl) h) in
    (back, rw (l, p) k)

pub tick-AreReturned :
    (r : Redis) (me : ℕ) (now : ℤ) (s : Swept)
    → IsValid r
    → tick r me now ≡ ok s
    → (back : List AckId) × AreReturned back (view r) (view s.0)
tick-AreReturned r me now s h e =
    let (l, p, d, q) = begin_store r me now in
    let (back, k) =
      finish-AreReturned r.clock (begin r me now) now (moves_clock r.clock now)
        (same-IsValid r (begin r me now) (p, d, q) h) in
    rw (tick-eq-ok r me now s e) (
      back,
      same-AreReturned back (view r) (view (begin r me now)) _ (IsSame-view r (begin r me now) l p)
          k,
    )

discard_store :
    (b : Bool) (m : ℕ) (r : Redis)
    → ((if b then r else record r { idle = discard m r.idle }).lst ≡ r.lst)
      × ((if b then r else record r { idle = discard m r.idle }).pending ≡ r.pending)
discard_store true m r = (refl, refl)
discard_store false m r = (refl, refl)

wake_loop-store :
    (order woken : List ℕ) (n : ℕ) (r : Redis)
    → ((wake_loop order n r woken).0.lst ≡ r.lst)
      × ((wake_loop order n r woken).0.pending ≡ r.pending)
unfolding wake_loop
wake_loop-store [] woken n r = (refl, refl)
wake_loop-store (m ∷ order) woken n r =
    let (l, p) = wake_loop-store order _ n _ in
    let (l', p') = discard_store (leb n (length woken) || not (elem m r.idle)) m r in
    (l ∙ l', p ∙ p')

pub wake-IsSame : (r : Redis) (n : ℕ) (order : List ℕ) → IsSame (view r) (view (wake r n order).0)
unfolding wake
wake-IsSame r n order =
    let (l, p) = wake_loop-store order [] n r in IsSame-view r (wake r n order).0 l p

pub pop_one-IsTaken :
    (r : Redis) (owner : ℕ) (now : ℤ) (got : AckId × ℕ)
    → IsValid r
    → (pop_one r owner now).1 ≡ some got
    → IsTaken owner (view r) (view (pop_one r owner now).0)
unfolding pop_one
pop_one-IsTaken r owner now got h g = pop_item-IsTaken r owner now r.lst got refl h g
