-- ===== src/Dead/Store/Valid.antt =====
-- assets/diagrams/gen/gen_dead.py, class Redis: the invariant of the ack IDs, and what it buys.
use mathlib.Core.List.{map-append}
use mathlib.Core.Logic.{if_pos, if_neg}
use redisq.Base.{
  leb, discard, length, ◌||◌, elem, not, Bool-cases, ℕ, suc, ◌+◌, ◌≤◌, ◌≡◌, refl, sym, ap, ◌∙◌, inl,
  inr, Bool, true, Option, none, some, List, [], ◌∷◌, ◌++◌, arith, ltb, all, ok, Option-cases,
}
use redisq.Base.Int.{ℤ, ◌+ℤ◌}
use redisq.Base.Dict
use redisq.Base.Dict.{occurs}
use redisq.Dead.Store.{
  wake, wake_loop, Redis, AckId, AckId-discrete, Swept, pop_one, pop_item, ack, vt, move, move_all,
  finish, sweep, reap_dead, find_dead, dead_ids, begin, tick, moves_clock,
}
use redisq.Dead.Store.Conserve.{forget_store, begin_store, tick-eq-ok}
use redisq.Dead.Store.Reap.{find, among}

-- Every pending item has a deadline, the ids handed out are below the next one, and no id occurs twice.
pub record IsValid (r : Redis) : Type 0 where
  pub synced : Dict.keys r.dl ≡ Dict.keys r.pending
  pub fresh : all (λ a. ltb a.index r.seq) (Dict.keys r.pending) ≡ true
  pub distinct : (a : AckId) → among a (Dict.keys r.pending) ≤ 1

among-append : (a : AckId) (xs ys : List AckId) → among a (xs ++ ys) ≡ among a xs + among a ys
among-append a [] ys = omega arith
among-append a (x ∷ xs) ys = omega (arith, among-append a xs ys)

fresh_weaken :
    (n : ℕ) (ids : List AckId)
    → all (λ a. ltb a.index n) ids ≡ true
    → all (λ a. ltb a.index (suc n)) ids ≡ true
fresh_weaken n [] h = refl
fresh_weaken n (a ∷ ids) h = ground (arith, fresh_weaken n ids)

fresh_append :
    (n : ℕ) (ids : List AckId) (b : AckId)
    → all (λ a. ltb a.index n) ids ≡ true
    → ltb b.index n ≡ true
    → all (λ a. ltb a.index n) (ids ++ b ∷ []) ≡ true
fresh_append n [] b h k = ground arith
fresh_append n (a ∷ ids) b h k = ground (arith, fresh_append n ids b)

fresh_absent :
    (n : ℕ) (ids : List AckId) (b : AckId)
    → all (λ a. ltb a.index n) ids ≡ true
    → n ≤ b.index
    → among b ids ≡ 0
fresh_absent n [] b h k = refl
fresh_absent n (a ∷ ids) b h k = ground (arith, fresh_absent n ids b)

keys-find :
    {V : Type 0} (a : AckId) (p : List (AckId × ℕ)) (d : List (AckId × V)) (v : ℕ)
    → Dict.keys d ≡ Dict.keys p
    → find a p ≡ some v
    → (w : V) × (Dict.get AckId-discrete a d ≡ some w)
unfolding Dict.get
keys-find a [] d v e h = cc
keys-find a ((j, x) ∷ p) [] v e h = cc
keys-find a ((j, x) ∷ p) ((k, y) ∷ d) v e h = elim (AckId-discrete k a) [
  | yes q ↦ (y, rw (if_pos _ q))
  | no q ↦ let (w, g) = keys-find a p d v (ground arith) (ground arith) in (w, rw (if_neg _ q) g)
]

keys-erase :
    {V W : Type 0} (a : AckId) (p : List (AckId × V)) (d : List (AckId × W))
    → Dict.keys d ≡ Dict.keys p
    → Dict.keys (Dict.erase AckId-discrete a d) ≡ Dict.keys (Dict.erase AckId-discrete a p)
unfolding Dict.erase
keys-erase a [] [] e = refl
keys-erase a [] (x ∷ d) e = cc
keys-erase a (x ∷ p) [] e = cc
keys-erase a ((j, x) ∷ p) ((k, y) ∷ d) e = ground (arith, keys-erase a p d)

fresh_erase :
    {V : Type 0} (n : ℕ) (a : AckId) (p : List (AckId × V))
    → all (λ b. ltb b.index n) (Dict.keys p) ≡ true
    → all (λ b. ltb b.index n) (Dict.keys (Dict.erase AckId-discrete a p)) ≡ true
unfolding Dict.erase
fresh_erase n a [] h = refl
fresh_erase n a ((j, x) ∷ p) h = ground (arith, fresh_erase n a p)

keys-append :
    {V : Type 0} (p : List (AckId × V)) (a : AckId) (v : V)
    → Dict.keys (p ++ (a, v) ∷ []) ≡ Dict.keys p ++ a ∷ []
keys-append p a v = map-append _ p ((a, v) ∷ [])

-- The id that the next pop hands out.
abbrev pub next_id : Redis → ℕ → AckId
next_id r owner = record { owner = owner; index = r.seq }

pub next_absent : (r : Redis) (owner : ℕ) → IsValid r → find (next_id r owner) r.pending ≡ none
next_absent r owner h =
    Dict.occurs-get AckId-discrete _ _
      (fresh_absent r.seq (Dict.keys r.pending) (next_id r owner) h.fresh (omega arith))

next_absent_dl :
    (r : Redis) (owner : ℕ) → IsValid r → Dict.get AckId-discrete (next_id r owner) r.dl ≡ none
next_absent_dl r owner h = Dict.occurs-get AckId-discrete _ _ (
    ap (among (next_id r owner)) h.synced
    ∙ fresh_absent r.seq (Dict.keys r.pending) (next_id r owner) h.fresh (omega arith))

pop_item-IsValid :
    (r : Redis) (owner : ℕ) (now : ℤ) (l : List ℕ) → IsValid r → IsValid (pop_item r owner now l).0
unfolding pop_item
pop_item-IsValid r owner now [] h = record {
  synced = h.synced;
  fresh = h.fresh;
  distinct = h.distinct;
}
pop_item-IsValid r owner now (v ∷ rest) h =
    let a = next_id r owner in
    let ks : Dict.keys (Dict.insert AckId-discrete a v r.pending) ≡ Dict.keys r.pending ++ a ∷ [] =
      rw (Dict.insert_new AckId-discrete a v r.pending (next_absent r owner h))
        (keys-append r.pending a v) in
    let ds : Dict.keys (Dict.insert AckId-discrete a (now +ℤ vt) r.dl) ≡ Dict.keys r.dl ++ a ∷ [] =
      rw (Dict.insert_new AckId-discrete a (now +ℤ vt) r.dl (next_absent_dl r owner h))
        (keys-append r.dl a (now +ℤ vt)) in
    record {
      synced = ds ∙ rw h.synced (sym ks);
      fresh = rw ks (
          fresh_append (suc r.seq) (Dict.keys r.pending) a
            (fresh_weaken r.seq (Dict.keys r.pending) h.fresh) (ground arith));
      distinct = λ b. rw ks (
          ground (
            arith,
            among-append b (Dict.keys r.pending) (a ∷ []),
            fresh_absent r.seq (Dict.keys r.pending) a h.fresh,
            h.distinct b,
          ));
    }

-- A pop on a valid queue, of an empty list too, leaves it valid.
pub pop_one-IsValid :
    (r : Redis) (owner : ℕ) (now : ℤ) → IsValid r → IsValid (pop_one r owner now).0
unfolding pop_one
pop_one-IsValid r owner now h = pop_item-IsValid r owner now r.lst h

erase-IsValid :
    (r s : Redis) (a : AckId)
    → IsValid r
    → s.pending ≡ Dict.erase AckId-discrete a r.pending
    → s.dl ≡ Dict.erase AckId-discrete a r.dl
    → s.seq ≡ r.seq
    → IsValid s
erase-IsValid r s a h p d q = record {
  synced = rw (p, d) (keys-erase a r.pending r.dl h.synced);
  fresh = rw (p, q) (fresh_erase r.seq a r.pending h.fresh);
  distinct =
      λ b. rw p (omega (arith, Dict.occurs-erase AckId-discrete b a r.pending, h.distinct b));
}

pub move-IsValid : (r : Redis) (a : AckId) → IsValid r → IsValid (move r a).0
unfolding move
move-IsValid r a h = elim (Option-cases (find a r.pending)) [
  | inl e ↦
      rw (e, move)
        (erase-IsValid r _ a h (sym (Dict.erase_absent AckId-discrete a r.pending e)) refl refl)
  | inr (v, e) ↦ rw (e, move) (erase-IsValid r _ a h refl refl refl)
]

move_all-IsValid : (ids : List AckId) (r : Redis) (n : ℕ) → IsValid r → IsValid (move_all ids r n).0
unfolding move_all
move_all-IsValid [] r n h = h
move_all-IsValid (a ∷ ids) r n h =
    move_all-IsValid ids (move r a).0 (n + (move r a).1) (move-IsValid r a h)

pub same-IsValid :
    (r s : Redis)
    → (s.pending ≡ r.pending) × (s.dl ≡ r.dl) × (s.seq ≡ r.seq)
    → IsValid r
    → IsValid s
same-IsValid r s (p, d, q) h = record {
  synced = rw (p, d) h.synced;
  fresh = rw (p, q) h.fresh;
  distinct = λ a. rw p (h.distinct a);
}

finish-IsValid :
    (last : Option ℤ) (r : Redis) (now : ℤ) (ticked : Bool)
    → IsValid r
    → IsValid (finish last r now ticked).0
unfolding finish sweep reap_dead
finish-IsValid none r now ticked h = h
finish-IsValid (some _) r now ticked h =
    let c = find_dead r now ticked in
    let ids = dead_ids c.dead r.pending in
    let r' : Redis = record r { pres = c.pres } in
    let (_, p, d, q) = forget_store c.dead (move_all ids r' 0).0 in
    same-IsValid (move_all ids r' 0).0 _ (p, d, q)
      (move_all-IsValid ids r' 0 (same-IsValid r r' (refl, refl, refl) h))

-- A queue is valid if every pending item has its deadline, in the same order, all ids handed out are below
-- the next one, and none occurs twice. A sweep of a valid queue that does not raise, by any object at any
-- time, leaves it valid.
pub tick-IsValid :
    (r : Redis) (me : ℕ) (now : ℤ) (s : Swept) → IsValid r → tick r me now ≡ ok s → IsValid s.0
tick-IsValid r me now s h e =
    let (_, p, d, q) = begin_store r me now in
    rw (tick-eq-ok r me now s e) (
      finish-IsValid r.clock (begin r me now) now (moves_clock r.clock now)
        (same-IsValid r (begin r me now) (p, d, q) h))

pub ack-eq-ok :
    (r : Redis) (a : AckId) (v : ℕ)
    → IsValid r
    → find a r.pending ≡ some v
    → ack r a
      ≡ ok (record r {
        pending = Dict.erase AckId-discrete a r.pending;
        dl = Dict.erase AckId-discrete a r.dl;
      })
unfolding ack
ack-eq-ok r a v h e = let (w, g) = keys-find a r.pending r.dl v h.synced e in rw (e, g)

-- An acknowledgment on a valid queue that does not raise leaves it valid.
pub ack-IsValid : (r s : Redis) (a : AckId) → IsValid r → ack r a ≡ ok s → IsValid s
unfolding ack
ack-IsValid r s a h e = erase-IsValid r s a h (ground arith) (ground arith) (ground arith)

wake_loop-IsValid :
    (order woken : List ℕ) (n : ℕ) (r : Redis) → IsValid r → IsValid (wake_loop order n r woken).0
unfolding wake_loop
wake_loop-IsValid [] woken n r h = h
wake_loop-IsValid (m ∷ order) woken n r h =
    wake_loop-IsValid order _ n _ (elim (Bool-cases (leb n (length woken) || not (elem m r.idle))) [
      | inl e ↦ rw e h
      | inr e ↦ rw e (same-IsValid r (record r { idle = discard m r.idle }) (refl, refl, refl) h)
    ])

pub wake-IsValid : (r : Redis) (n : ℕ) (order : List ℕ) → IsValid r → IsValid (wake r n order).0
unfolding wake
wake-IsValid r n order h = wake_loop-IsValid order [] n r h
