-- ===== src/Kfu/States.antt =====
-- assets/diagrams/gen/kfu.py, states: one text for each state, of which one is shown at a time. Times are
-- whole milliseconds.
use redisq.Base.{
  ℕ, zero, suc, ◌+◌, ◌≤◌, ◌<◌, ◌≡◌, refl, ap, ◌∙◌, inl, inr, Bool, true, false, ◌&&◌, ◌||◌, some,
  List, [], ◌∷◌, arith, ltb, leb, ◌==◌, if◌then◌else◌, Bool-cases, get_elem?, Result, ok, ◌>>◌,
  assert, sym, subst, leb→le,
}
use redisq.Base.Sort.{sorted, IsOrderedBy-weaken}
use redisq.Kfu.Keyframes.{by_time, IsOrdered, sorted_ordered}
use redisq.Kfu.Spans.{span_le}
use redisq.Kfu.Reading.{between, shown, IsAt, holds}

-- `states`: the keyframes of state `k` after the first change; `cur` is its opacity (1 or 0).
abbrev on : ℕ → ℕ → ℕ
on k i = if i == k then 1 else 0

state_points : ℕ → ℕ → ℕ → List (ℕ × ℕ) → List (ℕ × ℕ)
state_points fade k cur [] = []
state_points fade k cur ((t, i) ∷ changes) =
    let rest = state_points fade k (on k i) changes in
    if on k i == cur then rest else (t, cur) ∷ (t + fade, on k i) ∷ rest

state_rule : ℕ → ℕ → List (ℕ × ℕ) → List (ℕ × ℕ)
unfolding state_points
state_rule fade k [] = []
state_rule fade k ((t, i) ∷ changes) =
    sorted by_time ((0, on k i) ∷ state_points fade k (on k i) changes)

state_rules : ℕ → List (ℕ × ℕ) → ℕ → ℕ → List (List (ℕ × ℕ))
state_rules fade changes k zero = []
state_rules fade changes k (suc n) = state_rule fade k changes ∷ state_rules fade changes (suc k) n

starts_at_0 : List (ℕ × ℕ) → Bool
starts_at_0 [] = false
starts_at_0 ((t, i) ∷ changes) = t == 0

-- The rule of state `k` is the k-th of the result.
unfoldable pub states : List (ℕ × ℕ) → ℕ → ℕ → Result (List (List (ℕ × ℕ)))
unfolding state_rules state_rule starts_at_0
states changes n fade = do
  assert (starts_at_0 (sorted span_le changes))
  ok (state_rules fade (sorted span_le changes) 0 n)

-- The state at time `t`, from state `v` on: that of the last change up to `t`.
abbrev pub value_at : ℕ → ℕ → List (ℕ × ℕ) → ℕ
value_at t v [] = v
value_at t v ((s, w) ∷ pts) = let later = value_at t w pts in if leb s t then later else v

-- Changes follow one another by at least the fade.
abbrev pub AreFaded : ℕ → ℕ → List (ℕ × ℕ) → Type 0
AreFaded fade t [] = Unit {0}
AreFaded fade t ((s, i) ∷ changes) = (t ≤ s) × AreFaded fade (s + fade) changes

-- `t` lies in no fade.
abbrev pub is_settled : ℕ → ℕ → List (ℕ × ℕ) → Bool
is_settled fade t [] = true
is_settled fade t ((s, i) ∷ changes) = (ltb t s || leb (s + fade) t) && is_settled fade t changes

state_points-IsOrdered :
    (fade k cur t : ℕ) (changes : List (ℕ × ℕ))
    → AreFaded fade t changes
    → IsOrdered t (state_points fade k cur changes)
unfolding state_points
state_points-IsOrdered fade k cur t [] a = tt
state_points-IsOrdered fade k cur t ((s, i) ∷ changes) a = elim (Bool-cases (on k i == cur)) [
  | inl e ↦ rw e (
      IsOrderedBy-weaken (λ p. p.0) t (s + fade) _ (omega arith)
        (state_points-IsOrdered fade k (on k i) (s + fade) changes a.1))
  | inr e ↦ rw e (a.0, (omega arith, state_points-IsOrdered fade k (on k i) (s + fade) changes a.1))
]

same_refl : (n : ℕ) → (n == n) ≡ true
same_refl n = ground arith

value_at_before :
    (fade t s i : ℕ) (changes : List (ℕ × ℕ))
    → AreFaded fade s changes
    → t < s
    → value_at t i changes ≡ i
value_at_before fade t s i [] a h = refl
value_at_before fade t s i ((c, j) ∷ changes) a h = ground (arith, a.0)

-- From a keyframe with what state `i` shows, at a time after it that lies in no fade.
state_points-shown :
    (fade k i cur b t s : ℕ) (changes : List (ℕ × ℕ))
    → cur ≡ on k i
    → AreFaded fade s changes
    → b ≤ t
    → is_settled fade t changes ≡ true
    → IsAt (on k (value_at t i changes)) (between (b, cur) (state_points fade k cur changes) t)
unfolding state_points
state_points-shown fade k i cur b t s [] e a l h = rw e (omega arith, omega arith)
state_points-shown fade k i cur b t s ((c, j) ∷ changes) e a l h = elim (Bool-cases (leb c t)) [
  | inl late ↦
      let over : leb (c + fade) t ≡ true = ground (arith, late, h) in
      let settled : is_settled fade t changes ≡ true = ground (arith, h) in
      elim (Bool-cases (on k j == cur)) [
        | inl same ↦
            let q : cur ≡ on k j = ground (arith, same) in
            rw (late, q)
              (rw (same_refl (on k j))
                (state_points-shown fade k j (on k j) b t (c + fade) changes refl a.1 l settled))
        | inr new ↦
            rw (new, late, over)
              (state_points-shown fade k j (on k j) (c + fade) t (c + fade) changes refl a.1
                (leb→le _ _ over) settled)
      ]
  | inr early ↦
      let soon : t < c = ground (arith, early) in
      let settled : is_settled fade t changes ≡ true = ground (arith, h) in
      elim (Bool-cases (on k j == cur)) [
        | inl same ↦
            let q : cur ≡ on k j = ground (arith, same) in
            let still = value_at_before fade t (c + fade) j changes a.1 (omega (arith, soon)) in
            let x =
              state_points-shown fade k j (on k j) b t (c + fade) changes refl a.1 l settled in
            rw (early, sym e, q, same_refl (on k j))
              (subst
                (λ y. IsAt (on k y) (between (b, on k j) (state_points fade k (on k j) changes) t))
                still x)
        | inr new ↦ rw (new, early, sym e) (holds cur b c t l soon)
      ]
]

-- The state at time `t`: that of the last change up to `t`.
abbrev pub state_at : ℕ → List (ℕ × ℕ) → ℕ
state_at t [] = 0
state_at t ((s, i) ∷ changes) = value_at t i changes

state_rule_lem :
    (fade k t i : ℕ) (changes : List (ℕ × ℕ))
    → AreFaded fade fade changes
    → is_settled fade t changes ≡ true
    → IsAt (on k (value_at t i changes)) (shown t (state_rule fade k ((0, i) ∷ changes)))
unfolding state_rule
state_rule_lem fade k t i changes a h =
    rw
      (sorted_ordered 0 ((0, on k i) ∷ state_points fade k (on k i) changes) (
        omega arith,
        IsOrderedBy-weaken (λ p. p.0) 0 fade _ (omega arith)
            (state_points-IsOrdered fade k (on k i) fade changes a),
      ))
      (state_points-shown fade k i (on k i) 0 t fade changes refl a (omega arith) h)

state_rules-get :
    (fade k n j : ℕ) (changes : List (ℕ × ℕ))
    → j < n
    → get_elem? (state_rules fade changes k n) j ≡ some (state_rule fade (k + j) changes)
unfolding state_rules
state_rules-get fade k zero j changes h = absurd (omega arith)
state_rules-get fade k (suc n) zero changes h =
    let e : k ≡ k + 0 = omega arith in ap (λ x. some (state_rule fade x changes)) e
state_rules-get fade k (suc n) (suc j) changes h =
    let e : suc k + j ≡ k + suc j = omega arith in
    state_rules-get fade (suc k) n j changes (omega arith)
    ∙ ap (λ x. some (state_rule fade x changes)) e

-- Changes in order, the first at 0, each at least a fade after the one before, make `states` return a
-- rule for each state below `n`. Keyframes are read as CSS does, with a line from each to the next: at a time that
-- lies in no fade the rule of the state that the last change up to then chose shows 1, and the rule of every
-- other state 0.
pub states_show_one :
    (changes later : List (ℕ × ℕ)) (n fade i t : ℕ)
    → sorted span_le changes ≡ (0, i) ∷ later
    → AreFaded fade fade later
    → is_settled fade t later ≡ true
    → (rules : List (List (ℕ × ℕ))) × (states changes n fade ≡ ok rules)
      × ((k : ℕ)
          → k < n
          → (rule : List (ℕ × ℕ)) × (get_elem? rules k ≡ some rule)
            × IsAt (if state_at t ((0, i) ∷ later) == k then 1 else 0) (shown t rule))
unfolding states starts_at_0
states_show_one changes later n fade i t e a h = (
  state_rules fade ((0, i) ∷ later) 0 n,
  rw e refl,
  λ k lt. (
    state_rule fade k ((0, i) ∷ later),
    state_rules-get fade 0 n k ((0, i) ∷ later) lt
        ∙ (let z : 0 + k ≡ k = omega arith in
            ap (λ x. some (state_rule fade x ((0, i) ∷ later))) z),
    state_rule_lem fade k t i later a h,
  ),
)
