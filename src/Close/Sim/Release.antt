-- ===== src/Close/Sim/Release.antt =====
-- gen_close.py, on_release: what the release script hands back.
use mathlib.Core.List.{reverse-cons}
use redisq.Base.{
  append-cons, ℕ, ◌+◌, ◌≡◌, refl, ◌∙◌, sym, List, [], ◌∷◌, ◌++◌, map, reverse, some, arith, length,
  ok, or_raise, key_error, index_error, >>=-eq-ok, get_elem?, subst, ℕ_discrete, false, select,
  ◌==◌, ◌&&◌, if◌then◌else◌,
}
use redisq.Base.Dict
use redisq.Base.Dict.{occurs}
use redisq.Base.Sort.{total, total-sorted, IsOrderedBy, sorted-IsOrderedBy}
use redisq.Base.Heapq.{Entry, heappush, total-heappush}
use redisq.Close.State.{Sim, Held, Event, release_wake, update, rel_time, at, set_consumer, slot_x}
use redisq.Close.Jobs.{in_hand, occurs_present, brings, Moves}
use redisq.Close.Sim.{on_release, held_by, by_number, push_front, hand_back, index_of}

abbrev pub jobs_of : List (ℕ × ℕ) → List ℕ
jobs_of = map (λ p. p.1)

push_front-occurs :
    (j : ℕ) (ids : List (ℕ × ℕ)) (l : List ℕ)
    → occurs ℕ_discrete j (push_front ids l)
      ≡ occurs ℕ_discrete j (jobs_of ids) + occurs ℕ_discrete j l
unfolding push_front
push_front-occurs j [] l = omega arith
push_front-occurs j (p ∷ ids) l = omega (arith, push_front-occurs j ids (p.1 ∷ l))

-- What handing back `ids` leaves.
record Hands (ids : List (ℕ × ℕ)) (s r : Sim) : Type 0 where
  same_list : r.lst ≡ s.lst
  same_heap : r.ev ≡ s.ev
  same_count : r.n ≡ s.n
  same_acks : r.acks ≡ s.acks
  same_consumers : r.c ≡ s.c
  taken :
      (j : ℕ)
      → occurs ℕ_discrete j (jobs_of ids) + occurs ℕ_discrete j (Dict.keys r.pending)
        ≡ occurs ℕ_discrete j (Dict.keys s.pending)

hand_back-Hands :
    (t : ℕ) (ids : List (ℕ × ℕ)) (s r : Sim) → hand_back t ids s ≡ ok r → Hands ids s r
unfolding hand_back
hand_back-Hands t [] s r g =
    let same : s ≡ r = ground arith in
    subst (Hands [] s) same (record {
      same_list = refl;
      same_heap = refl;
      same_count = refl;
      same_acks = refl;
      same_consumers = refl;
      taken = λ j. omega arith;
    })
hand_back-Hands t (p ∷ ids) s r g =
    let (v, f, k) = >>=-eq-ok (or_raise key_error (Dict.get ℕ_discrete p.1 s.pending)) _ g in
    let (i, f', k') = >>=-eq-ok (or_raise index_error (index_of p.1 s.lst)) _ k in
    let (x, f'', k'') = >>=-eq-ok (or_raise index_error (get_elem? slot_x i)) _ k' in
    let h = hand_back-Hands t ids _ r k'' in
    let got : Dict.get ℕ_discrete p.1 s.pending ≡ some v = ground arith in
    record {
      same_list = h.same_list;
      same_heap = h.same_heap;
      same_count = h.same_count;
      same_acks = h.same_acks;
      same_consumers = h.same_consumers;
      taken = λ j. omega (
        arith,
        h.taken j,
        Dict.occurs-erase ℕ_discrete j p.1 s.pending,
        occurs_present p.1 j s.pending v got,
      );
    }

reverse-cons-append :
    (xs : List ℕ) (y : ℕ) (l : List ℕ) → reverse (y ∷ xs) ++ l ≡ reverse xs ++ (y ∷ l)
reverse-cons-append xs y l = rw (reverse-cons y xs) (append-cons (reverse xs) y l)

push_front-reverse :
    (ids : List (ℕ × ℕ)) (l : List ℕ) → push_front ids l ≡ reverse (jobs_of ids) ++ l
unfolding push_front
push_front-reverse [] l = refl
push_front-reverse (p ∷ ids) l =
    push_front-reverse ids (p.1 ∷ l) ∙ sym (reverse-cons-append (jobs_of ids) p.1 l)

pub on_release_lem :
    (t m : ℕ) (s r : Sim)
    → on_release t m s ≡ ok r
    → (r.lst ≡ reverse (jobs_of (held_by m s.pending)) ++ s.lst)
      × ((j : ℕ) → in_hand j r ≡ in_hand j s)
      × (r.ev
          ≡ heappush
              (record {
                time = t + rel_time;
                order = s.n + 1;
                event = release_wake m (length (held_by m s.pending));
              })
              s.ev)
unfolding on_release at set_consumer
on_release_lem t m s r g =
    let ids = held_by m s.pending in
    let (x, f, k) = >>=-eq-ok (hand_back t ids (record s { lst = push_front ids s.lst })) _ g in
    let h = hand_back-Hands t ids (record s { lst = push_front ids s.lst }) x f in
    let lst : x.lst ≡ r.lst = ground arith in
    let pending : x.pending ≡ r.pending = ground arith in
    let ev : heappush
          (record { time = t + rel_time; order = x.n + 1; event = release_wake m (length ids) })
          x.ev
        ≡ r.ev =
      ground arith in
    (
      sym lst ∙ h.same_list ∙ push_front-reverse ids s.lst,
      λ j.
          rw (sym lst, sym pending, h.same_list)
            (omega (arith, h.taken j, push_front-occurs j ids s.lst)),
      sym ev ∙ rw (h.same_heap, h.same_count) refl,
    )

pub on_release-Moves : (t m : ℕ) (s r : Sim) → on_release t m s ≡ ok r → Moves s r
unfolding on_release at set_consumer update
on_release-Moves t m s r g =
    let ids = held_by m s.pending in
    let (x, f, k) = >>=-eq-ok (hand_back t ids (record s { lst = push_front ids s.lst })) _ g in
    let h = hand_back-Hands t ids (record s { lst = push_front ids s.lst }) x f in
    let acks : x.acks ≡ r.acks = ground arith in
    let c : update x.c m (record (x.c m) { beat = false }) ≡ r.c = ground arith in
    let (e, hand, ev) = on_release_lem t m s r g in
    record {
      same_acks = sym acks ∙ h.same_acks;
      same_closed = λ y. rw (sym c, h.same_consumers) (ground arith);
      same_coming = λ j. rw ev (
          omega (
            arith,
            total-heappush (λ (x : Entry Event). brings j x.event)
                (record {
                  time = t + rel_time;
                  order = s.n + 1;
                  event = release_wake m (length ids);
                })
                s.ev,
          ));
      same_hand = λ n j. hand j;
      within = λ n y. rw (sym c, h.same_consumers) (ground (arith, n y, n m));
    }

-- How often job `j` with pop number `n` stands in a list, and is pending for `m`.
abbrev pub numbered : ℕ → ℕ → List (ℕ × ℕ) → ℕ
numbered n j = total (λ p. if p.0 == n && p.1 == j then 1 else 0)

abbrev pub pending_for : ℕ → ℕ → ℕ → List (ℕ × Held) → ℕ
pending_for m n j = total (λ e. if e.1.owner == m && (e.1.number == n && e.0 == j) then 1 else 0)

select-pending_for :
    (m n j : ℕ) (pending : List (ℕ × Held))
    → numbered n j (map (λ e. (e.1.number, e.0)) (select (λ e. e.1.owner == m) pending))
      ≡ pending_for m n j pending
select-pending_for m n j [] = refl
select-pending_for m n j (e ∷ pending) = ground (arith, select-pending_for m n j pending)

held_by-pending_for :
    (m n j : ℕ) (pending : List (ℕ × Held))
    → numbered n j (held_by m pending) ≡ pending_for m n j pending
unfolding held_by
held_by-pending_for m n j pending = total-sorted by_number _ _ ∙ select-pending_for m n j pending

held_by-IsOrderedBy :
    (m : ℕ) (pending : List (ℕ × Held)) → IsOrderedBy (λ p. p.0) 0 (held_by m pending)
unfolding held_by
held_by-IsOrderedBy m pending =
    sorted-IsOrderedBy by_number (λ p. p.0) (λ p q h. ground arith) (λ p q h. ground arith) _

-- Take a release that does not raise. The entries of the pending hash that belong to `m`, each as often as it stands
-- there and no other, are put in the order of their pop numbers, and their jobs stand at the front of the list,
-- the last one popped first; no job is lost or doubled between the list and the pending hash; and the wake for
-- as many jobs is on its way, to come after the drawn length of the release.
pub release_hands_back :
    (t m : ℕ) (s r : Sim)
    → on_release t m s ≡ ok r
    → (ids : List (ℕ × ℕ)) × ((n j : ℕ) → numbered n j ids ≡ pending_for m n j s.pending)
      × IsOrderedBy (λ p. p.0) 0 ids
      × (r.lst ≡ reverse (jobs_of ids) ++ s.lst)
      × ((j : ℕ) → in_hand j r ≡ in_hand j s)
      × (r.ev
          ≡ heappush
              (record { time = t + rel_time; order = s.n + 1; event = release_wake m (length ids) })
              s.ev)
release_hands_back t m s r g =
    let (lst, hand, ev) = on_release_lem t m s r g in
    (
      held_by m s.pending,
      λ n j. held_by-pending_for m n j s.pending,
      held_by-IsOrderedBy m s.pending,
      lst,
      hand,
      ev,
    )
