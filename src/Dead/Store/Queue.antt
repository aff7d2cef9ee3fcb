-- ===== src/Dead/Store/Queue.antt =====
-- assets/diagrams/gen/gen_dead.py, class Redis: what a queue promises, without its keys. Of the pending hash
-- only which job an ack ID stands for is kept, and nothing of deadlines, heartbeats, presence and the clock.
use redisq.Base.{ℕ, ◌≡◌, refl, ◌∙◌, sym, Option, none, some, List, [], ◌∷◌, ite}
use redisq.Dead.Store.{Redis, AckId, AckId-discrete}
use redisq.Dead.Store.Reap.{find}

pub record Queue : Type 0 where
  pub waiting : List ℕ
  pub held : AckId → Option ℕ

abbrev pub view : Redis → Queue
view r = record { waiting = r.lst; held = λ a. find a r.pending }

pub record IsSame (q p : Queue) : Type 0 where
  pub same_list : p.waiting ≡ q.waiting
  pub same_held : (a : AckId) → p.held a ≡ q.held a

-- `owner` takes the first job under a new id.
pub record IsTaken (owner : ℕ) (q p : Queue) : Type 0 where
  pub job : ℕ
  pub id : AckId
  pub own : id.owner ≡ owner
  pub first : q.waiting ≡ job ∷ p.waiting
  pub new : q.held id ≡ none
  pub now_held : (a : AckId) → p.held a ≡ ite (AckId-discrete id a) (some job) (q.held a)

-- The job of `id` is done with.
pub record IsFinished (id : AckId) (q p : Queue) : Type 0 where
  pub job : ℕ
  pub was_held : q.held id ≡ some job
  pub same_list : p.waiting ≡ q.waiting
  pub now_held : (a : AckId) → p.held a ≡ ite (AckId-discrete id a) none (q.held a)

-- The job of `id` comes back as the first one.
pub record IsReturned (id : AckId) (q p : Queue) : Type 0 where
  pub job : ℕ
  pub was_held : q.held id ≡ some job
  pub first : p.waiting ≡ job ∷ q.waiting
  pub now_held : (a : AckId) → p.held a ≡ ite (AckId-discrete id a) none (q.held a)

-- Jobs come back one after the other.
pub data AreReturned : List AckId → Queue → Queue → Type 0 where
  all_back : (q p : Queue) → IsSame q p → AreReturned [] q p
  one_back :
      (id : AckId) (ids : List AckId) (q p u : Queue)
      → IsReturned id q p
      → AreReturned ids p u
      → AreReturned (id ∷ ids) q u

pub IsSame-refl : (q : Queue) → IsSame q q
IsSame-refl q = record { same_list = refl; same_held = λ a. refl }

same-IsReturned : (id : AckId) (q p u : Queue) → IsSame q p → IsReturned id p u → IsReturned id q u
same-IsReturned id q p u s h = record {
  job = h.job;
  was_held = sym (s.same_held id) ∙ h.was_held;
  first = rw (sym s.same_list) h.first;
  now_held = λ a. rw (sym (s.same_held a)) (h.now_held a);
}

pub same-AreReturned :
    (ids : List AckId) (q p u : Queue) → IsSame q p → AreReturned ids p u → AreReturned ids q u
same-AreReturned ids q p u s (all_back _ _ h) = all_back q u (record {
  same_list = h.same_list ∙ s.same_list;
  same_held = λ a. h.same_held a ∙ s.same_held a;
})
same-AreReturned ids q p u s (one_back id rest _ x _ h k) =
    one_back id rest q x u (same-IsReturned id q p x s h) k
