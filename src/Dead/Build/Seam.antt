-- ===== src/Dead/Build/Seam.antt =====
-- gen_dead.py, build: the loop has no seam in the tracks of consumer 2, its subscription and the narration.
use redisq.Base.{
  ℕ, zero, suc, ◌+◌, ◌*◌, ◌≤◌, ◌≡◌, refl, true, List, [], ◌∷◌, ◌++◌, map, le→leb, ok, >>=-eq-ok,
  arith,
}
use redisq.Base.Sort.{sorted}
use redisq.Kfu.Keyframes.{by_time, IsOrdered, last_of, sorted_ordered, padded, held_ends}
use redisq.Dead.Swap.{CrossFade, Change, by_change, on, swap, swap_rule, swap_rules, starts_at_0}
use redisq.Dead.Swap.Apart.{IsSplit, AreApart, rule_frame}
use redisq.Dead.Row.{Look, Rule, Rules, Track, opaque, faded, kf, numbered, swapped}
use redisq.Dead.Build.{meets, seam_of, check_seam, check_seams}

-- A rule whose ends meet, and that is over in time, passes the check.
pub check_seam-ok :
    (d : ℕ) (p : ℕ × Look) (pts : Rule)
    → (last_of p pts).0 ≤ d
    → meets p.1 (last_of p pts).1 ≡ true
    → check_seam d (p ∷ pts) ≡ ok tt
unfolding check_seam padded seam_of
check_seam-ok d p pts l m =
    let (q, qs, e, first, last) = held_ends d p pts in rw (le→leb _ _ l, e, first, last, m) refl

pub kf-seam :
    (d : ℕ) (name : Track) (p : ℕ × Look) (pts : Rule)
    → IsOrdered 0 (p ∷ pts)
    → (last_of p pts).0 ≤ d
    → meets p.1 (last_of p pts).1 ≡ true
    → check_seam d (kf name (p ∷ pts)).1 ≡ ok tt
unfolding kf
kf-seam d name p pts o l m = rw (sorted_ordered 0 (p ∷ pts) o) (check_seam-ok d p pts l m)

faded-last :
    (p : ℕ × ℕ) (pts : List (ℕ × ℕ))
    → last_of (p.0, opaque p.1) (faded pts) ≡ ((last_of p pts).0, opaque (last_of p pts).1)
unfolding faded last_of
faded-last p [] = refl
faded-last p (q ∷ pts) = faded-last q pts

same_meets : (a : ℕ) → meets (opaque a) (opaque a) ≡ true
unfolding meets
same_meets a = ground arith

-- The same for rules that set the opacity only.
faded-seam :
    (d : ℕ) (p : ℕ × ℕ) (pts : List (ℕ × ℕ))
    → (last_of p pts).0 ≤ d
    → (last_of p pts).1 ≡ p.1
    → check_seam d (faded (p ∷ pts)) ≡ ok tt
unfolding faded
faded-seam d p pts l e =
    check_seam-ok d (p.0, opaque p.1) (faded pts) (rw (faded-last p pts) l)
      (rw (faded-last p pts, e) (same_meets p.1))

pub sorted-seam :
    (d : ℕ) (p : ℕ × ℕ) (pts : List (ℕ × ℕ))
    → IsOrdered 0 (p ∷ pts)
    → (last_of p pts).0 ≤ d
    → (last_of p pts).1 ≡ p.1
    → check_seam d (faded (sorted by_time (p ∷ pts))) ≡ ok tt
sorted-seam d p pts o l e = rw (sorted_ordered 0 (p ∷ pts) o) (faded-seam d p pts l e)

pub check_seams-append :
    (d : ℕ) (xs ys : Rules)
    → check_seams d xs ≡ ok tt
    → check_seams d ys ≡ ok tt
    → check_seams d (xs ++ ys) ≡ ok tt
unfolding check_seams
check_seams-append d [] ys g h = h
check_seams-append d ((name, rule) ∷ xs) ys g h =
    let (u, e, r) = >>=-eq-ok (check_seam d rule) (λ nothing. check_seams d xs) g in
    rw e (check_seams-append d xs ys r h)

check_seams-cons :
    (d : ℕ) (name : Track) (rule : Rule) (xs : Rules)
    → check_seam d rule ≡ ok tt
    → check_seams d xs ≡ ok tt
    → check_seams d ((name, rule) ∷ xs) ≡ ok tt
unfolding check_seams
check_seams-cons d name rule xs g h = rw g h

-- Each rule of a list passes.
abbrev pub AllPass : ℕ → Rules → Type 0
AllPass d [] = Unit {0}
AllPass d ((name, rule) ∷ rules) = (check_seam d rule ≡ ok tt) × AllPass d rules

pub AllPass-seams : (d : ℕ) (rules : Rules) → AllPass d rules → check_seams d rules ≡ ok tt
unfolding check_seams
AllPass-seams d [] h = refl
AllPass-seams d ((name, rule) ∷ rules) h =
    check_seams-cons d name rule rules h.0 (AllPass-seams d rules h.1)

-- The rules of a swap, which set an opacity of 1 or 0.
abbrev scaled : List (ℕ × ℕ) → List (ℕ × ℕ)
scaled = map (λ p. (p.0, 100 * p.1))

scaled-last :
    (p : ℕ × ℕ) (pts : List (ℕ × ℕ))
    → last_of (p.0, 100 * p.1) (scaled pts) ≡ ((last_of p pts).0, 100 * (last_of p pts).1)
unfolding last_of
scaled-last p [] = refl
scaled-last p (q ∷ pts) = scaled-last q pts

-- A swap as `swap_cross_fades` has it.
module _ (xf : CrossFade) (d fade : ℕ) (name : ℕ → Track) (c : Change) (cs : List Change)
    (split : IsSplit xf) (apart : AreApart xf fade c.state 0 cs) (inside : xf.end ≤ d) where
  swap_rule-seam : (k : ℕ) → check_seam d (faded (scaled (swap_rule xf fade k (c ∷ cs)))) ≡ ok tt
  swap_rule-seam k =
      let (pts, e, last, over) = rule_frame xf fade c cs split apart k in
      rw e (
        faded-seam d (0, 100 * on k c.state) (scaled pts)
          (rw (scaled-last (0, on k c.state) pts) (omega (arith, over, inside)))
          (rw (scaled-last (0, on k c.state) pts, last) refl))

  numbered-seams :
      (n j k : ℕ) → check_seams d (numbered name j (swap_rules xf fade (c ∷ cs) k n)) ≡ ok tt
  unfolding numbered swap_rules check_seams
  numbered-seams zero j k = refl
  numbered-seams (suc n) j k =
      check_seams-cons d (name j) _ _ (swap_rule-seam k) (numbered-seams n (j + 1) (suc k))

  pub swapped-seams :
      (changes : List Change) (n : ℕ)
      → sorted by_change changes ≡ c ∷ cs
      → c.time ≡ 0
      → (rules : Rules) × (swapped xf name changes n fade ≡ ok rules)
        × (check_seams d rules ≡ ok tt)
  unfolding swapped swap starts_at_0
  swapped-seams changes n e z =
      (numbered name 0 (swap_rules xf fade (c ∷ cs) 0 n), rw (e, z) refl, numbered-seams n 0 0)
