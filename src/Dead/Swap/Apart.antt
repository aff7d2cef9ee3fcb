-- ===== src/Dead/Swap/Apart.antt =====
-- gen_dead.py, swap: a rule ends as it starts, and in the cross-fade no two texts overlap.
use redisq.Base.{
  ℕ, zero, suc, ◌+◌, ◌≤◌, ◌<◌, ◌≡◌, ◌≢◌, refl, sym, ap, ◌∙◌, subst, inl, inr, Bool, true, false,
  ◌&&◌, ◌||◌, some, List, [], ◌∷◌, arith, ltb, leb, ◌==◌, if◌then◌else◌, Bool-cases, get_elem?, ok,
}
use redisq.Base.Sort.{sorted, IsOrderedBy-weaken}
use redisq.Kfu.Keyframes.{IsOrdered, last_of, sorted_ordered}
use redisq.Dead.Swap.{
  CrossFade, Change, by_change, on, fade_of, change_points, later_points, swap_rule, swap_rules,
  swap, starts_at_0,
}

-- Whether something is seen at `t` of a rule that shows `v` from time `a` on: what it shows is above 0, or on its
-- way to a keyframe above 0.
abbrev pub is_lit : ℕ → ℕ → ℕ → List (ℕ × ℕ) → Bool
is_lit t a v [] = ltb 0 v
is_lit t a v ((b, w) ∷ pts) =
    let after = is_lit t b w pts in if leb b t then after else ltb 0 v || (ltb 0 w && ltb a t)

abbrev pub is_seen : ℕ → List (ℕ × ℕ) → Bool
is_seen t [] = false
is_seen t ((a, v) ∷ pts) = leb a t && is_lit t a v pts

-- Changes one after another, each when the fade before is over, then one back to `i` when the cross-fade starts.
abbrev pub AreApart : CrossFade → ℕ → ℕ → ℕ → List Change → Type 0
AreApart xf fade i t [] = ⊥
AreApart xf fade i t (c ∷ []) = (t ≤ xf.start) × (c.time ≡ xf.start) × (c.state ≡ i)
AreApart xf fade i t (c ∷ d ∷ cs) =
    (t ≤ c.time) × (c.time < xf.start) × AreApart xf fade i (c.time + fade_of fade c) (d ∷ cs)

-- The cross-fade has two parts.
abbrev pub IsSplit : CrossFade → Type 0
IsSplit xf = (xf.start < xf.middle) × (xf.middle < xf.end)

later-IsOrdered :
    (xf : CrossFade) (fade k i t cur : ℕ) (cs : List Change)
    → IsSplit xf
    → AreApart xf fade i t cs
    → IsOrdered t (later_points xf fade k cur cs)
unfolding later_points change_points
later-IsOrdered xf fade k i t cur [] s a = absurd a
later-IsOrdered xf fade k i t cur (c ∷ []) s a = ground (arith, a, s)
later-IsOrdered xf fade k i t cur (c ∷ d ∷ cs) s a =
    let rest = later_points xf fade k (on k c.state) (d ∷ cs) in
    let ordered : IsOrdered (c.time + fade_of fade c) rest =
      later-IsOrdered xf fade k i (c.time + fade_of fade c) (on k c.state) (d ∷ cs) s a.2 in
    let early : (c.time == xf.start) ≡ false = ground (arith, a) in
    elim (Bool-cases (on k c.state == cur)) [
      | inl e ↦ rw e (
          IsOrderedBy-weaken (λ p. p.0) t (c.time + fade_of fade c) rest (omega (arith, a)) ordered)
      | inr e ↦ rw (e, early) (a.0, (omega arith, ordered))
    ]

AreApart-le :
    (xf : CrossFade) (fade i t : ℕ) (cs : List Change) → AreApart xf fade i t cs → t ≤ xf.start
AreApart-le xf fade i t [] a = absurd a
AreApart-le xf fade i t (c ∷ []) a = a.0
AreApart-le xf fade i t (c ∷ d ∷ cs) a = omega (arith, a)

-- The state that is shown when the cross-fade starts.
abbrev shown_before : ℕ → List Change → ℕ
shown_before j [] = j
shown_before j (c ∷ []) = j
shown_before j (c ∷ d ∷ cs) = shown_before c.state (d ∷ cs)

later-last :
    (xf : CrossFade) (fade k i j t : ℕ) (p : ℕ × ℕ) (cs : List Change)
    → p.1 ≡ on k j
    → AreApart xf fade i t cs
    → (last_of p (later_points xf fade k (on k j) cs)).1 ≡ on k i
unfolding later_points change_points last_of
later-last xf fade k i j t p [] e a = absurd a
later-last xf fade k i j t p (c ∷ []) e a = ground (arith, e, a)
later-last xf fade k i j t p (c ∷ d ∷ cs) e a =
    let early : (c.time == xf.start) ≡ false = ground (arith, a) in
    elim (Bool-cases (on k c.state == on k j)) [
      | inl q ↦ rw q (
          later-last xf fade k i c.state (c.time + fade_of fade c) p (d ∷ cs) (ground (arith, e, q))
            a.2)
      | inr q ↦
          rw (q, early)
            (later-last xf fade k i c.state (c.time + fade_of fade c)
              (c.time + fade_of fade c, on k c.state) (d ∷ cs) refl a.2)
    ]

later-over :
    (xf : CrossFade) (fade k i j t : ℕ) (p : ℕ × ℕ) (cs : List Change)
    → IsSplit xf
    → p.0 ≤ xf.start
    → AreApart xf fade i t cs
    → (last_of p (later_points xf fade k (on k j) cs)).0 ≤ xf.end
unfolding later_points change_points last_of
later-over xf fade k i j t p [] s e a = absurd a
later-over xf fade k i j t p (c ∷ []) s e a = ground (arith, s, e, a)
later-over xf fade k i j t p (c ∷ d ∷ cs) s e a =
    let early : (c.time == xf.start) ≡ false = ground (arith, a) in
    let near = AreApart-le xf fade i (c.time + fade_of fade c) (d ∷ cs) a.2 in
    elim (Bool-cases (on k c.state == on k j)) [
      | inl q ↦ rw q (later-over xf fade k i c.state (c.time + fade_of fade c) p (d ∷ cs) s e a.2)
      | inr q ↦
          rw (q, early)
            (later-over xf fade k i c.state (c.time + fade_of fade c)
              (c.time + fade_of fade c, on k c.state) (d ∷ cs) s near a.2)
    ]

-- Who is seen from the start of the cross-fade on: the old state before the middle, the first one after it.
abbrev may_be_seen : CrossFade → ℕ → ℕ → ℕ → ℕ → Bool
may_be_seen xf i j k t = k == i && (j == i || ltb xf.middle t) || (k == j && ltb t xf.middle)

lit-may_be_seen :
    (xf : CrossFade) (fade k i j t a u : ℕ) (cs : List Change)
    → IsSplit xf
    → AreApart xf fade i t cs
    → xf.start ≤ u
    → is_lit u a (on k j) (later_points xf fade k (on k j) cs) ≡ true
    → may_be_seen xf i (shown_before j cs) k u ≡ true
unfolding later_points change_points
lit-may_be_seen xf fade k i j t a u [] s h l g = absurd h
lit-may_be_seen xf fade k i j t a u (c ∷ []) s h l g = ground (arith, s, h, l, g)
lit-may_be_seen xf fade k i j t a u (c ∷ d ∷ cs) s h l g =
    let early : (c.time == xf.start) ≡ false = ground (arith, h) in
    let over = AreApart-le xf fade i (c.time + fade_of fade c) (d ∷ cs) h.2 in
    elim (Bool-cases (on k c.state == on k j)) [
      | inl q ↦
          let same : on k j ≡ on k c.state = ground (arith, q) in
          lit-may_be_seen xf fade k i c.state (c.time + fade_of fade c) a u (d ∷ cs) s h.2 l
            (rw same at (rw q at g))
      | inr q ↦
          let begun : leb c.time u ≡ true = ground (arith, h, l) in
          let faded : leb (c.time + fade_of fade c) u ≡ true = ground (arith, over, l) in
          lit-may_be_seen xf fade k i c.state (c.time + fade_of fade c) (c.time + fade_of fade c) u
            (d ∷ cs) s h.2 l (rw (q, early, begun, faded) at g)
    ]

swap_rules-get :
    (xf : CrossFade) (fade k n j : ℕ) (changes : List Change) (rule : List (ℕ × ℕ))
    → get_elem? (swap_rules xf fade changes k n) j ≡ some rule
    → rule ≡ swap_rule xf fade (k + j) changes
unfolding swap_rules
swap_rules-get xf fade k zero j changes rule g = cc
swap_rules-get xf fade k (suc n) zero changes rule g =
    let e : k ≡ k + 0 = omega arith in
    let r : swap_rule xf fade k changes ≡ rule = ground (arith, g) in
    sym r ∙ ap (λ x. swap_rule xf fade x changes) e
swap_rules-get xf fade k (suc n) (suc j) changes rule g =
    let e : suc k + j ≡ k + suc j = omega arith in
    swap_rules-get xf fade (suc k) n j changes rule g ∙ ap (λ x. swap_rule xf fade x changes) e

-- A rule of `swap`: in order, and at its end what it is at its start.
pub record Loops (rule : List (ℕ × ℕ)) : Type 0 where
  pub first : ℕ × ℕ
  pub later : List (ℕ × ℕ)
  pub is_rule : rule ≡ first ∷ later
  pub starts : first.0 ≡ 0
  pub in_order : IsOrdered 0 rule
  pub ends : (last_of first later).1 ≡ first.1

module _ (xf : CrossFade) (fade : ℕ) (c : Change) (cs : List Change) (s : IsSplit xf)
    (a : AreApart xf fade c.state 0 cs) where
  rule-points :
      (k : ℕ)
      → swap_rule xf fade k (c ∷ cs) ≡ (0, on k c.state) ∷ later_points xf fade k (on k c.state) cs
  unfolding swap_rule
  rule-points k =
      sorted_ordered 0 ((0, on k c.state) ∷ later_points xf fade k (on k c.state) cs)
        (omega arith, later-IsOrdered xf fade k c.state 0 (on k c.state) cs s a)

  rule-Loops : (k : ℕ) → Loops (swap_rule xf fade k (c ∷ cs))
  rule-Loops k = record {
    first = (0, on k c.state);
    later = later_points xf fade k (on k c.state) cs;
    is_rule = rule-points k;
    starts = refl;
    in_order =
        rw (rule-points k)
          ((omega arith, later-IsOrdered xf fade k c.state 0 (on k c.state) cs s a));
    ends = later-last xf fade k c.state c.state 0 (0, on k c.state) cs refl a;
  }

  -- A rule is over with the cross-fade, and ends as it starts.
  pub rule_frame :
      (k : ℕ)
      → (pts : List (ℕ × ℕ)) × (swap_rule xf fade k (c ∷ cs) ≡ (0, on k c.state) ∷ pts)
        × ((last_of (0, on k c.state) pts).1 ≡ on k c.state)
        × ((last_of (0, on k c.state) pts).0 ≤ xf.end)
  rule_frame k = (
    later_points xf fade k (on k c.state) cs,
    rule-points k,
    later-last xf fade k c.state c.state 0 (0, on k c.state) cs refl a,
    later-over xf fade k c.state c.state 0 (0, on k c.state) cs s (omega arith) a,
  )

  seen-may_be_seen :
      (k u : ℕ)
      → xf.start ≤ u
      → is_seen u (swap_rule xf fade k (c ∷ cs)) ≡ true
      → may_be_seen xf c.state (shown_before c.state cs) k u ≡ true
  seen-may_be_seen k u l g =
      let seen : is_seen u ((0, on k c.state) ∷ later_points xf fade k (on k c.state) cs) ≡ true =
        rw (rule-points k) at g in
      let lit : is_lit u 0 (on k c.state) (later_points xf fade k (on k c.state) cs) ≡ true =
        ground (arith, seen) in
      lit-may_be_seen xf fade k c.state c.state 0 0 u cs s a l lit

-- Take changes in order, the first at 0, each when the fade before is over, the last one back to the first state
-- when the cross-fade starts. `swap` returns rules whose keyframes stand in order and end with what they start
-- with, so that the loop has no jump; and from the start of the cross-fade on, no two of the texts are seen at
-- one time.
pub swap_cross_fades :
    (xf : CrossFade) (fade n : ℕ) (changes : List Change) (c : Change) (cs : List Change)
    → IsSplit xf
    → sorted by_change changes ≡ c ∷ cs
    → c.time ≡ 0
    → AreApart xf fade c.state 0 cs
    → (rules : List (List (ℕ × ℕ))) × (swap xf changes n fade ≡ ok rules)
      × ((k : ℕ) (rule : List (ℕ × ℕ)) → get_elem? rules k ≡ some rule → Loops rule)
      × ((j k u : ℕ) (rule other : List (ℕ × ℕ))
          → get_elem? rules j ≡ some rule
          → get_elem? rules k ≡ some other
          → j ≢ k
          → xf.start ≤ u
          → is_seen u rule ≡ true
          → is_seen u other ≡ false)
unfolding swap starts_at_0
swap_cross_fades xf fade n changes c cs s e z a = (
  swap_rules xf fade (c ∷ cs) 0 n,
  rw (e, z) refl,
  λ k rule g.
      let r = swap_rules-get xf fade 0 n k (c ∷ cs) rule g in
      subst Loops (sym r) (rule-Loops xf fade c cs s a (0 + k)),
  λ j k u rule other g h d l seen.
      let r = swap_rules-get xf fade 0 n j (c ∷ cs) rule g in
      let o = swap_rules-get xf fade 0 n k (c ∷ cs) other h in
      let one = seen-may_be_seen xf fade c cs s a (0 + j) u l (rw r at seen) in
      elim (Bool-cases (is_seen u other)) [
        | inr dark ↦ dark
        | inl two ↦
            let also = seen-may_be_seen xf fade c cs s a (0 + k) u l (rw o at two) in
            absurd (ground (arith, one, also, d))
      ],
)
