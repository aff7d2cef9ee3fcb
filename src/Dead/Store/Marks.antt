-- ===== src/Dead/Store/Marks.antt =====
-- gen_dead.py, class Redis: what a sweep does to the presence mark of a member.
use redisq.Base.{
  ℕ, ◌+◌, ◌≡◌, ◌≢◌, refl, ap, ◌∙◌, inl, inr, true, false, Option, none, some, List, [], ◌∷◌, arith,
  ltb, ◌==◌, Bool-cases, elem, ℕ_discrete,
}
use redisq.Base.Int.{ℤ, pos, eqb_ℤ, ◌+ℤ◌}
use redisq.Base.Dict
use redisq.Dead.Store.{
  Redis, AckId, Seen, begin, renew, forget, move, move_all, check_member, check_members,
  subscribers, moves_clock, expired, present, hbt,
}
use redisq.Dead.Store.Reap.{find}

abbrev pub marks : ℕ → List (ℕ × ℤ) → Option ℤ
marks = Dict.get ℕ_discrete

-- `m` is a member with a heartbeat, has no subscriber, and its presence mark is `s`.
pub record IsMarked (m : ℕ) (s : ℤ) (r : Redis) : Type 0 where
  pub known : elem m (Dict.keys r.hb) ≡ true
  pub unsubscribed : ltb 0 (subscribers r m) ≡ false
  pub since : Dict.get ℕ_discrete m r.pres ≡ some s

-- Nothing that `m` dequeued is pending any more.
abbrev pub IsCleared : ℕ → Redis → Type 0
IsCleared m r = (a : AckId) → a.owner ≡ m → find a r.pending ≡ none

keys-insert :
    (m x : ℕ) (v : ℤ) (d : List (ℕ × ℤ))
    → elem m (Dict.keys d) ≡ true
    → elem m (Dict.keys (Dict.insert ℕ_discrete x v d)) ≡ true
unfolding Dict.insert
keys-insert m x v [] h = cc
keys-insert m x v ((j, w) ∷ d) h = ground (arith, keys-insert m x v d)

keys-erase :
    (m x : ℕ) (d : List (ℕ × ℤ))
    → x ≢ m
    → elem m (Dict.keys d) ≡ true
    → elem m (Dict.keys (Dict.erase ℕ_discrete x d)) ≡ true
unfolding Dict.erase
keys-erase m x [] n h = cc
keys-erase m x ((j, w) ∷ d) n h = ground (arith, keys-erase m x d n)

pub forget-IsMarked :
    (m : ℕ) (s : ℤ) (ms : List ℕ) (r : Redis)
    → elem m ms ≡ false
    → IsMarked m s r
    → IsMarked m s (forget ms r)
unfolding forget subscribers
forget-IsMarked m s [] r n h = h
forget-IsMarked m s (x ∷ ms) r n h =
    let apart : x ≢ m = ground arith in
    forget-IsMarked m s ms _ (ground arith) (record {
      known = keys-erase m x r.hb apart h.known;
      unsubscribed = h.unsubscribed;
      since = Dict.get-erase_ne ℕ_discrete x m r.pres apart ∙ h.since;
    })

-- What a requeue leaves alone.
pub move_all_members :
    (ids : List AckId) (r : Redis) (n : ℕ)
    → ((move_all ids r n).0.hb ≡ r.hb)
      × ((move_all ids r n).0.pres ≡ r.pres)
      × ((move_all ids r n).0.subs ≡ r.subs)
unfolding move_all move
move_all_members [] r n = (refl, refl, refl)
move_all_members (a ∷ ids) r n =
    ground (arith, move_all_members ids (move r a).0 (n + (move r a).1))

check_member-pres :
    (r : Redis) (now : ℤ) (c : Seen) (x m : ℕ) (s : ℤ)
    → ltb 0 (subscribers r m) ≡ false
    → marks m c.pres ≡ some s
    → eqb_ℤ s (pos 0) ≡ false
    → marks m (check_member r now c x).pres ≡ some s
unfolding check_member
check_member-pres r now c x m s u g z = ground (
  arith,
  Dict.get-insert ℕ_discrete x m (pos 0) c.pres,
  Dict.get-insert ℕ_discrete x m now c.pres,
)

check_member-other :
    (r : Redis) (now : ℤ) (c : Seen) (x m : ℕ)
    → x ≢ m
    → marks m (check_member r now c x).pres ≡ marks m c.pres
unfolding check_member
check_member-other r now c x m n = ground (
  arith,
  Dict.get-insert ℕ_discrete x m (pos 0) c.pres,
  Dict.get-insert ℕ_discrete x m now c.pres,
)

check_member-mark :
    (r : Redis) (now : ℤ) (c : Seen) (x m : ℕ)
    → ltb 0 (subscribers r m) ≡ false
    → marks m c.pres ≡ some (pos 0)
    → x ≡ m
    → marks m (check_member r now c x).pres ≡ some now
unfolding check_member
check_member-mark r now c x m u g e = ground (arith, Dict.get-insert ℕ_discrete x m now c.pres)

-- The loop keeps the mark of a member without subscriber, and replaces a mark of 0 by the time.
pub check_members-pres :
    (r : Redis) (now : ℤ) (ms : List ℕ) (c : Seen) (m : ℕ) (s : ℤ)
    → ltb 0 (subscribers r m) ≡ false
    → marks m c.pres ≡ some s
    → eqb_ℤ s (pos 0) ≡ false
    → marks m (check_members r now ms c).pres ≡ some s
unfolding check_members
check_members-pres r now [] c m s u g z = g
check_members-pres r now (x ∷ ms) c m s u g z =
    check_members-pres r now ms (check_member r now c x) m s u
      (check_member-pres r now c x m s u g z) z

pub check_members-mark :
    (r : Redis) (now : ℤ) (ms : List ℕ) (c : Seen) (m : ℕ)
    → ltb 0 (subscribers r m) ≡ false
    → marks m c.pres ≡ some (pos 0)
    → elem m ms ≡ true
    → eqb_ℤ now (pos 0) ≡ false
    → marks m (check_members r now ms c).pres ≡ some now
unfolding check_members
check_members-mark r now [] c m u g h z = cc
check_members-mark r now (x ∷ ms) c m u g h z = elim (Bool-cases (x == m)) [
  | inl e ↦
      check_members-pres r now ms (check_member r now c x) m now u
        (check_member-mark r now c x m u g (ground arith)) z
  | inr e ↦
      check_members-mark r now ms (check_member r now c x) m u
        (check_member-other r now c x m (ground arith) ∙ g) (ground arith) z
]

-- A heartbeat has run out, or is checked.
pub expired_or_present :
    (m : ℕ) (now : ℤ) (hb : List (ℕ × ℤ))
    → elem m (Dict.keys hb) ≡ true
    → elem m (expired now hb) ≡ false
    → elem m (present now hb) ≡ true
expired_or_present m now [] h n = cc
expired_or_present m now ((x, t) ∷ hb) h n = ground (arith, expired_or_present m now hb)

-- A sweep of another object starts without touching what is known of `m`.
pub begin_members :
    (r : Redis) (me m : ℕ) (now : ℤ)
    → me ≢ m
    → (marks m (begin r me now).pres ≡ marks m r.pres) × ((begin r me now).subs ≡ r.subs)
unfolding begin renew moves_clock
begin_members r me m now n = ground (arith, Dict.get-insert ℕ_discrete me m (pos 0) r.pres)

pub begin_known :
    (r : Redis) (me m : ℕ) (now : ℤ)
    → elem m (Dict.keys r.hb) ≡ true
    → elem m (Dict.keys (begin r me now).hb) ≡ true
unfolding begin renew moves_clock
begin_known r me m now h = ground (arith, keys-insert m me (now +ℤ hbt) r.hb h)

pub subscribers_of : (r s : Redis) (m : ℕ) → s.subs ≡ r.subs → subscribers s m ≡ subscribers r m
unfolding subscribers
subscribers_of r s m e = ap (λ d. elim (Dict.get ℕ_discrete m d) [ none ↦ 0 | some k ↦ k ]) e
