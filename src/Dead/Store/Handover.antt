-- ===== src/Dead/Store/Handover.antt =====
-- assets/diagrams/gen/gen_dead.py, Redis.pop_one and Redis.ack: one job changes hands.
use redisq.Base.{
  ℕ, ◌+◌, ◌≡◌, ◌≢◌, refl, ap, none, some, List, [], ◌∷◌, ◌++◌, arith, ◌==◌, if◌then◌else◌, count,
  ok,
}
use redisq.Base.Int.{ℤ}
use redisq.Base.Dict
use redisq.Base.Dict.{occurs}
use redisq.Dead.Store.{Redis, AckId, AckId-discrete, pop_one, pop_item, ack}
use redisq.Dead.Store.Conserve.{jobs, count-erase}
use redisq.Dead.Store.Reap.{find}
use redisq.Base.{count}
use redisq.Dead.Store.Conserve.{jobs, count-erase}
use redisq.Dead.Store.Valid.{IsValid, next_id, next_absent, ack-eq-ok}

find-erase_self :
    (r : Redis) (a : AckId) → IsValid r → find a (Dict.erase AckId-discrete a r.pending) ≡ none
find-erase_self r a h =
    Dict.occurs-get AckId-discrete a _
      (ground (arith, Dict.occurs-erase AckId-discrete a a r.pending, h.distinct a))

-- On a valid queue an acknowledgment of a pending id succeeds and removes exactly that entry: one job
-- fewer of its kind, none of another, the id is pending no more, and every other entry keeps its item.
pub ack_removes :
    (r : Redis) (a : AckId) (v : ℕ)
    → IsValid r
    → find a r.pending ≡ some v
    → (s : Redis) × (ack r a ≡ ok s)
      × (find a s.pending ≡ none)
      × ((x : ℕ) → jobs x s + (if v == x then 1 else 0) ≡ jobs x r)
      × ((b : AckId) → a ≢ b → find b s.pending ≡ find b r.pending)
ack_removes r a v h e = (
  _,
  ack-eq-ok r a v h e,
  find-erase_self r a h,
  λ x. omega (arith, count-erase AckId-discrete x v a r.pending e),
  λ b n. Dict.get-erase_ne AckId-discrete a b r.pending n,
)

count_insert :
    (x v : ℕ) (a : AckId) (p : List (AckId × ℕ))
    → count x (Dict.values (p ++ (a, v) ∷ [])) ≡ (if v == x then 1 else 0) + count x (Dict.values p)
count_insert x v a [] = omega arith
count_insert x v a ((b, w) ∷ p) = omega (arith, count_insert x v a p)

-- On a valid queue a pop of a list with a head takes that head: it returns it under an id that was not
-- pending, leaves the rest of the list, stores the job under the id, and keeps every job.
pub pop_one_takes_head :
    (r : Redis) (owner : ℕ) (now : ℤ) (v : ℕ) (rest : List ℕ)
    → IsValid r
    → r.lst ≡ v ∷ rest
    → (find (next_id r owner) r.pending ≡ none)
      × ((pop_one r owner now).1 ≡ some (next_id r owner, v))
      × ((pop_one r owner now).0.lst ≡ rest)
      × (find (next_id r owner) (pop_one r owner now).0.pending ≡ some v)
      × ((x : ℕ) → jobs x (pop_one r owner now).0 ≡ jobs x r)
unfolding pop_one pop_item
pop_one_takes_head r owner now v rest h e =
    let new = next_absent r owner h in
    (
      new,
      rw (e, pop_item) refl,
      rw (e, pop_item) refl,
      rw (e, pop_item)
          (ground (
            arith,
            Dict.get-insert AckId-discrete (next_id r owner) (next_id r owner) v r.pending,
          )),
      λ x.
          rw (e, pop_item)
            (omega (
              arith,
              count_insert x v (next_id r owner) r.pending,
              ap (λ d. count x (Dict.values d))
                  (Dict.insert_new AckId-discrete (next_id r owner) v r.pending new),
            )),
    )
