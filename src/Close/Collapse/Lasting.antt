-- ===== src/Close/Collapse/Lasting.antt =====
-- assets/diagrams/gen/gen_close.py, collapse: the states that last are drawn.
use redisq.Base.{
  ℕ, ◌+◌, ◌-◌, ◌≤◌, ◌≡◌, refl, ap, ◌∙◌, inl, inr, Bool, true, false, ◌&&◌, not, List, [], ◌∷◌, ◌++◌,
  some, ltb, leb, ◌==◌, all, Bool-cases, arith,
}
use redisq.Kfu.Keyframes.{last_of}
use redisq.Close.Collapse.{
  drop_quick, add_change, collapse_run, AreShown, last_state, drop_quick_lem, add_change_lem,
}

-- No change of a list drops `p`.
abbrev keeps : ℕ → ℕ × ℕ → List (ℕ × ℕ) → Bool
keeps gap p = all (λ d. not (ltb (d.0 - p.0) gap && ltb 0 p.0))

-- The list is some that pass a test, then `p`, then `below`.
record Above (f : ℕ × ℕ → Bool) (p : ℕ × ℕ) (below out : List (ℕ × ℕ)) : Type 0 where
  new : List (ℕ × ℕ)
  split : out ≡ new ++ (p ∷ below)
  passes : all f new ≡ true

drop-Above :
    (gap t : ℕ) (f : ℕ × ℕ → Bool) (p : ℕ × ℕ) (below new : List (ℕ × ℕ))
    → (ltb (t - p.0) gap && ltb 0 p.0) ≡ false
    → all f new ≡ true
    → Above f p below (drop_quick gap t (new ++ (p ∷ below)))
unfolding drop_quick
drop-Above gap t f p below [] h a = rw h (record { new = []; split = refl; passes = refl })
drop-Above gap t f p below (q ∷ new) h a = elim (Bool-cases (ltb (t - q.0) gap && ltb 0 q.0)) [
  | inl e ↦ rw e (drop-Above gap t f p below new h (ground arith))
  | inr e ↦ rw e (record { new = q ∷ new; split = refl; passes = a })
]

add-Above :
    (f : ℕ × ℕ → Bool) (c p : ℕ × ℕ) (below new : List (ℕ × ℕ))
    → f c ≡ true
    → all f new ≡ true
    → Above f p below (add_change c (new ++ (p ∷ below)))
unfolding add_change
add-Above f c p below [] h a = elim (Bool-cases (p.1 == c.1)) [
  | inl e ↦ rw e (record { new = []; split = refl; passes = refl })
  | inr e ↦ rw e (record { new = c ∷ []; split = refl; passes = ground arith })
]
add-Above f c p below (q ∷ new) h a = elim (Bool-cases (q.1 == c.1)) [
  | inl e ↦ rw e (record { new = q ∷ new; split = refl; passes = a })
  | inr e ↦ rw e (record { new = c ∷ q ∷ new; split = refl; passes = ground arith })
]

run-Above :
    (gap : ℕ) (f : ℕ × ℕ → Bool) (p : ℕ × ℕ) (below changes out : List (ℕ × ℕ))
    → keeps gap p changes ≡ true
    → all f changes ≡ true
    → Above f p below out
    → Above f p below (collapse_run gap out changes)
unfolding collapse_run
run-Above gap f p below [] out k a h = h
run-Above gap f p below (c ∷ changes) out k a h =
    let dropped : Above f p below (drop_quick gap c.0 out) =
      rw h.split (drop-Above gap c.0 f p below h.new (ground (arith, k)) h.passes) in
    let added : Above f p below (add_change c (drop_quick gap c.0 out)) =
      rw dropped.split (add-Above f c p below dropped.new (ground (arith, a)) dropped.passes) in
    run-Above gap f p below changes (add_change c (drop_quick gap c.0 out)) (ground (arith, k))
      (ground (arith, a)) added

collapse_run-append :
    (gap : ℕ) (xs ys out : List (ℕ × ℕ))
    → collapse_run gap out (xs ++ ys) ≡ collapse_run gap (collapse_run gap out xs) ys
unfolding collapse_run
collapse_run-append gap [] ys out = refl
collapse_run-append gap (c ∷ xs) ys out = collapse_run-append gap xs ys _

run-shows :
    (gap : ℕ) (v : ℕ × ℕ) (changes out : List (ℕ × ℕ))
    → AreShown gap out
    → last_state out ≡ some v.1
    → AreShown gap (collapse_run gap out changes)
      × (last_state (collapse_run gap out changes) ≡ some (last_of v changes).1)
unfolding collapse_run last_of
run-shows gap v [] out h e = (h, e)
run-shows gap v (c ∷ changes) out h e =
    let (a, f) = drop_quick_lem gap c.0 out h in
    let (shows, last) = add_change_lem gap c (drop_quick gap c.0 out) a f in
    run-shows gap c changes _ shows last

last_of-append :
    (v c : ℕ × ℕ) (pre post : List (ℕ × ℕ)) → last_of v (pre ++ (c ∷ post)) ≡ last_of c post
unfolding last_of
last_of-append v c [] post = refl
last_of-append v c (d ∷ pre) post = last_of-append d c pre post

-- The states before a change are earlier, and the last one after it is its own.
add-last :
    (c : ℕ × ℕ) (out : List (ℕ × ℕ))
    → all (λ x. leb x.0 c.0) out ≡ true
    → (p : ℕ × ℕ) × (below : List (ℕ × ℕ)) × (add_change c out ≡ p ∷ below)
      × (p.0 ≤ c.0)
      × (p.1 ≡ c.1)
unfolding add_change
add-last c [] h = (c, [], refl, omega arith, refl)
add-last c (p ∷ out) h = elim (Bool-cases (p.1 == c.1)) [
  | inl e ↦ (p, out, rw e refl, ground arith, ground arith)
  | inr e ↦ (c, p ∷ out, rw e refl, omega arith, refl)
]

drop-all :
    (gap t : ℕ) (f : ℕ × ℕ → Bool) (out : List (ℕ × ℕ))
    → all f out ≡ true
    → all f (drop_quick gap t out) ≡ true
unfolding drop_quick
drop-all gap t f [] h = refl
drop-all gap t f (p ∷ out) h = ground (arith, h, drop-all gap t f out)

all-append :
    (f : ℕ × ℕ → Bool) (xs ys : List (ℕ × ℕ))
    → all f xs ≡ true
    → all f ys ≡ true
    → all f (xs ++ ys) ≡ true
all-append f [] ys a b = b
all-append f (x ∷ xs) ys a b = ground (arith, a, all-append f xs ys)

keeps-lasting :
    (gap t : ℕ) (p : ℕ × ℕ) (post : List (ℕ × ℕ))
    → p.0 ≤ t
    → all (λ d. leb (t + gap) d.0) post ≡ true
    → keeps gap p post ≡ true
keeps-lasting gap t p [] h a = refl
keeps-lasting gap t p (d ∷ post) h a = ground (arith, h, keeps-lasting gap t p post)

keeps-first : (gap i : ℕ) (changes : List (ℕ × ℕ)) → keeps gap (0, i) changes ≡ true
keeps-first gap i [] = refl
keeps-first gap i (c ∷ changes) = ground (arith, keeps-first gap i changes)

all-true : (xs : List (ℕ × ℕ)) → all (λ x. true) xs ≡ true
all-true [] = refl
all-true (x ∷ xs) = ground (arith, all-true xs)

-- Take the loop over changes of which the first stands at 0, and among them one, `c`, that lasts: those before it are
-- no later, and those after it come the gap or more after it. Each state that is kept differs from the one
-- before it, and comes the gap or more after it unless that one stands at 0; the last one kept has
-- the state of the last change. The state of `c` is kept, from the
-- time of `c` or before it, until a time the gap or more after `c`; and the first state is kept, from 0 on.
pub collapse_keeps_lasting :
    (gap i : ℕ) (c : ℕ × ℕ) (pre post : List (ℕ × ℕ))
    → all (λ d. leb d.0 c.0) pre ≡ true
    → all (λ d. leb (c.0 + gap) d.0) post ≡ true
    → let out = collapse_run gap [] ((0, i) ∷ pre ++ (c ∷ post)) in
      AreShown gap out
      × (last_state out ≡ some (last_of c post).1)
      × (later earlier : List (ℕ × ℕ)) × (p : ℕ × ℕ) × (out ≡ later ++ (p ∷ earlier))
      × (p.1 ≡ c.1)
      × (p.0 ≤ c.0)
      × (all (λ d. leb (c.0 + gap) d.0) later ≡ true)
      × (rest : List (ℕ × ℕ)) × (out ≡ rest ++ ((0, i) ∷ []))
unfolding collapse_run drop_quick add_change
collapse_keeps_lasting gap i c pre post before after =
    let start : List (ℕ × ℕ) = (0, i) ∷ [] in
    let first =
      run-Above gap (λ d. leb d.0 c.0) (0, i) [] pre start (keeps-first gap i pre) before
        (record { new = []; split = refl; passes = refl }) in
    let o = collapse_run gap start pre in
    let no_later : all (λ d. leb d.0 c.0) o ≡ true =
      rw first.split
        (all-append (λ d. leb d.0 c.0) first.new ((0, i) ∷ []) first.passes (ground arith)) in
    let (p, earlier, e, early, own) =
      add-last c (drop_quick gap c.0 o) (drop-all gap c.0 (λ d. leb d.0 c.0) o no_later) in
    let lasting =
      run-Above gap (λ d. leb (c.0 + gap) d.0) p earlier post (add_change c (drop_quick gap c.0 o))
        (keeps-lasting gap c.0 p post early after) after
        (record { new = []; split = e; passes = refl }) in
    let whole =
      run-Above gap (λ d. true) (0, i) [] (pre ++ (c ∷ post)) start
        (keeps-first gap i (pre ++ (c ∷ post))) (all-true (pre ++ (c ∷ post)))
        (record { new = []; split = refl; passes = refl }) in
    let same = collapse_run-append gap pre (c ∷ post) start in
    let (shows, last) = run-shows gap (0, i) (pre ++ (c ∷ post)) start tt refl in
    (
      shows,
      last ∙ ap (λ x. some x.1) (last_of-append (0, i) c pre post),
      lasting.new,
      earlier,
      p,
      same ∙ lasting.split,
      own,
      early,
      lasting.passes,
      whole.new,
      whole.split,
    )
