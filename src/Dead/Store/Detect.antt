-- ===== src/Dead/Store/Detect.antt =====
-- assets/diagrams/gen/gen_dead.py, Redis.tick: an owner that lost its subscription is found dead.
use redisq.Base.{
  ℕ, ◌≡◌, ◌≢◌, refl, ◌∙◌, ◌⊎◌, inl, inr, Bool, true, false, not, none, some, List, [], ◌∷◌, arith,
  ltb, leb, ◌==◌, Bool-cases, Option-cases, all, elem, Result, ok, ◌>>=◌, >>=-eq-ok,
}
use redisq.Base.Int.{ℤ, pos, leb_ℤ, eqb_ℤ, ◌+ℤ◌}
use redisq.Base.Dict
use redisq.Base.Sort.{sorted, elem-sorted}
use redisq.Dead.Store.{
  Redis, Swept, tick, begin, finish, sweep, reap_dead, move_all, dead_ids, find_dead, subscribers,
  moves_clock, present, grace,
}
use redisq.Dead.Store.Conserve.{begin_store, tick-eq-ok}
use redisq.Dead.Store.Reap.{is_dead, find_dead-is_dead, tick_reaps_exactly}
use redisq.Dead.Store.Marks.{
  marks, IsMarked, IsCleared, forget-IsMarked, move_all_members, check_members-pres,
  check_members-mark, expired_or_present, begin_members, begin_known, subscribers_of,
}

tick_first :
    (r : Redis) (me : ℕ) (now : ℤ) (x : Swept)
    → r.clock ≡ none
    → tick r me now ≡ ok x
    → x.0 ≡ begin r me now
unfolding finish
tick_first r me now x c e = ground (arith, tick-eq-ok r me now x e)

tick_later :
    (r : Redis) (me : ℕ) (now last : ℤ) (x : Swept)
    → r.clock ≡ some last
    → tick r me now ≡ ok x
    → x ≡ sweep (begin r me now) now (moves_clock r.clock now)
unfolding finish
tick_later r me now last x c e = ground (arith, tick-eq-ok r me now x e)

begin-IsMarked :
    (r : Redis) (me m : ℕ) (now s : ℤ) → me ≢ m → IsMarked m s r → IsMarked m s (begin r me now)
begin-IsMarked r me m now s n h =
    let (p, u) = begin_members r me m now n in
    record {
      known = begin_known r me m now h.known;
      unsubscribed = rw (subscribers_of r (begin r me now) m u) h.unsubscribed;
      since = p ∙ h.since;
    }

-- A member that is not found dead keeps the mark that the loop leaves it.
sweep-IsMarked :
    (r : Redis) (now : ℤ) (ticked : Bool) (m : ℕ) (s : ℤ)
    → elem m (Dict.keys r.hb) ≡ true
    → ltb 0 (subscribers r m) ≡ false
    → elem m (find_dead r now ticked).dead ≡ false
    → marks m (find_dead r now ticked).pres ≡ some s
    → IsMarked m s (sweep r now ticked).0
unfolding sweep reap_dead
sweep-IsMarked r now ticked m s k u n g =
    let c = find_dead r now ticked in
    let r' : Redis = record r { pres = c.pres } in
    let ids = dead_ids c.dead r.pending in
    let (hb, pres, subs) = move_all_members ids r' 0 in
    forget-IsMarked m s c.dead (move_all ids r' 0).0 n (record {
      known = rw hb k;
      unsubscribed = rw (subscribers_of r (move_all ids r' 0).0 m subs) u;
      since = rw pres g;
    })

find_dead-pres :
    (r : Redis) (now : ℤ) (ticked : Bool) (m : ℕ) (s : ℤ)
    → IsMarked m s r
    → eqb_ℤ s (pos 0) ≡ false
    → marks m (find_dead r now ticked).pres ≡ some s
unfolding find_dead
find_dead-pres r now true m s h z =
    check_members-pres r now (sorted leb (present now r.hb)) _ m s h.unsubscribed h.since z
find_dead-pres r now false m s h z = h.since

-- What becomes of an owner that has been without subscriber since `s`.
abbrev pub Outcome : ℕ → ℤ → Redis → Type 0
Outcome m s r = IsMarked m s r ⊎ IsCleared m r

tick-IsCleared :
    (r : Redis) (me m : ℕ) (now : ℤ) (x : Swept)
    → tick r me now ≡ ok x
    → IsCleared m r
    → IsCleared m x.0
tick-IsCleared r me m now x e h a o = elim (Option-cases r.clock) [
  | inl c ↦ rw (tick_first r me now x c e, (begin_store r me now).1) (h a o)
  | inr (last, c) ↦ tick_reaps_exactly r me now last x a c e ∙ ground (arith, h a o)
]

dead-IsCleared :
    (r : Redis) (me m : ℕ) (now last : ℤ) (x : Swept)
    → r.clock ≡ some last
    → tick r me now ≡ ok x
    → is_dead (begin r me now) now (moves_clock r.clock now) m ≡ true
    → IsCleared m x.0
dead-IsCleared r me m now last x c e d a o =
    tick_reaps_exactly r me now last x a c e ∙ rw (o, d) refl

tick-Outcome :
    (r : Redis) (me m : ℕ) (now s : ℤ) (x : Swept)
    → me ≢ m
    → eqb_ℤ s (pos 0) ≡ false
    → tick r me now ≡ ok x
    → Outcome m s r
    → Outcome m s x.0
unfolding finish
tick-Outcome r me m now s x n z e (inr h) = inr (tick-IsCleared r me m now x e h)
tick-Outcome r me m now s x n z e (inl h) = elim (Option-cases r.clock) [
  | inl c ↦ inl (rw (tick_first r me now x c e) (begin-IsMarked r me m now s n h))
  | inr (last, c) ↦
      let b = begin r me now in
      let h' = begin-IsMarked r me m now s n h in
      let ticked = moves_clock r.clock now in
      elim (Bool-cases (is_dead b now ticked m)) [
        | inl d ↦ inr (dead-IsCleared r me m now last x c e d)
        | inr d ↦ inl (
            rw (tick_later r me now last x c e) (
              sweep-IsMarked b now ticked m s h'.known h'.unsubscribed
                (find_dead-is_dead b now ticked m ∙ d) (find_dead-pres b now ticked m s h' z)))
      ]
]

-- The first sweep that moves the clock and finds no subscriber marks the owner, or takes its items.
tick-mark :
    (r : Redis) (me m : ℕ) (now last : ℤ) (x : Swept)
    → me ≢ m
    → IsMarked m (pos 0) r
    → eqb_ℤ now (pos 0) ≡ false
    → r.clock ≡ some last
    → moves_clock r.clock now ≡ true
    → tick r me now ≡ ok x
    → Outcome m now x.0
unfolding find_dead
tick-mark r me m now last x n h z c t e =
    let b = begin r me now in
    let h' = begin-IsMarked r me m now (pos 0) n h in
    elim (Bool-cases (is_dead b now true m)) [
      | inl d ↦ inr (dead-IsCleared r me m now last x c e (rw t d))
      | inr d ↦
          let p = expired_or_present m now b.hb h'.known (ground arith) in
          inl (
            rw (tick_later r me now last x c e, t)
              (sweep-IsMarked b now true m now h'.known h'.unsubscribed
                (find_dead-is_dead b now true m ∙ d)
                (check_members-mark b now (sorted leb (present now b.hb)) _ m h'.unsubscribed
                  h'.since (elem-sorted m (present now b.hb) ∙ p) z)))
    ]

-- A sweep that moves the clock when the grace period is over takes the owner's items.
tick-grace :
    (r : Redis) (me m : ℕ) (now last s : ℤ) (x : Swept)
    → me ≢ m
    → eqb_ℤ s (pos 0) ≡ false
    → leb_ℤ (s +ℤ grace) now ≡ true
    → r.clock ≡ some last
    → moves_clock r.clock now ≡ true
    → tick r me now ≡ ok x
    → Outcome m s r
    → IsCleared m x.0
tick-grace r me m now last s x n z g c t e (inr h) = tick-IsCleared r me m now x e h
tick-grace r me m now last s x n z g c t e (inl h) =
    let b = begin r me now in
    let h' = begin-IsMarked r me m now s n h in
    dead-IsCleared r me m now last x c e
      (rw t (ground (arith, expired_or_present m now b.hb h'.known)))

-- Sweeps one after the other, each by an object at a time.
unfoldable pub sweeps : List (ℕ × ℤ) → Redis → Result Redis
sweeps [] r = ok r
sweeps ((me, now) ∷ rest) r = do x ← tick r me now; sweeps rest x.0

sweeps-Outcome :
    (l : List (ℕ × ℤ)) (r r' : Redis) (m : ℕ) (s : ℤ)
    → all (λ e. not (e.0 == m)) l ≡ true
    → eqb_ℤ s (pos 0) ≡ false
    → sweeps l r ≡ ok r'
    → Outcome m s r
    → Outcome m s r'
unfolding sweeps
sweeps-Outcome [] r r' m s o z e h = ground arith
sweeps-Outcome ((me, now) ∷ l) r r' m s o z e h =
    let (x, f, g) = >>=-eq-ok (tick r me now) (λ x. sweeps l x.0) e in
    sweeps-Outcome l x.0 r' m s (ground arith) z g
      (tick-Outcome r me m now s x (ground arith) z f h)

-- Take a queue whose clock was set, an owner in it with a heartbeat, no subscriber and mark 0, and sweeps by
-- other objects that do not raise: one at time `t`, not 0, that moves the clock; then any others; then one that moves the clock
-- the grace period after `t` or later. Then nothing that the owner dequeued is pending any more.
pub sweeps_detect :
    (r r' : Redis) (m me you : ℕ) (t now last last' : ℤ) (x y : Swept) (between : List (ℕ × ℤ))
    → IsMarked m (pos 0) r
    → me ≢ m
    → you ≢ m
    → all (λ e. not (e.0 == m)) between ≡ true
    → eqb_ℤ t (pos 0) ≡ false
    → leb_ℤ (t +ℤ grace) now ≡ true
    → r.clock ≡ some last
    → moves_clock r.clock t ≡ true
    → tick r me t ≡ ok x
    → sweeps between x.0 ≡ ok r'
    → r'.clock ≡ some last'
    → moves_clock r'.clock now ≡ true
    → tick r' you now ≡ ok y
    → IsCleared m y.0
sweeps_detect r r' m me you t now last last' x y between h a b o z g c mv e s c' mv' e' =
    tick-grace r' you m now last' t y b z g c' mv' e'
      (sweeps-Outcome between x.0 r' m t o z s (tick-mark r me m t last x a h z c mv e))
