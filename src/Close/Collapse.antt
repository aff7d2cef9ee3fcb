-- ===== src/Close/Collapse.antt =====
-- assets/diagrams/gen/gen_close.py, collapse and pulse: which states of a consumer's text are drawn, and
-- its pulses. Times are whole milliseconds; opacities and scales are in hundredths.
pub mod Lasting
use redisq.Base.{
  ℕ, ◌+◌, ◌-◌, ◌≤◌, ◌≡◌, ◌⊎◌, refl, inl, inr, false, ◌&&◌, List, [], ◌∷◌, reverse, ltb, ◌==◌,
  if◌then◌else◌, Bool-cases, arith, Option, none, some,
}
use redisq.Base.Sort.{sorted}
use redisq.Kfu.Spans.{span_le}

-- `while out and t - out[-1][0] < gap and out[-1][0] > 0: out.pop()`, with the last item first.
drop_quick : ℕ → ℕ → List (ℕ × ℕ) → List (ℕ × ℕ)
drop_quick gap t [] = []
drop_quick gap t (p ∷ out) =
    let rest = drop_quick gap t out in if ltb (t - p.0) gap && ltb 0 p.0 then rest else p ∷ out

add_change : ℕ × ℕ → List (ℕ × ℕ) → List (ℕ × ℕ)
add_change c [] = c ∷ []
add_change c (p ∷ out) = if p.1 == c.1 then p ∷ out else c ∷ p ∷ out

-- The loop, with the last item of `out` first.
pub collapse_run : ℕ → List (ℕ × ℕ) → List (ℕ × ℕ) → List (ℕ × ℕ)
unfolding drop_quick add_change
collapse_run gap out [] = out
collapse_run gap out (c ∷ changes) =
    collapse_run gap (add_change c (drop_quick gap c.0 out)) changes

pub collapse : List (ℕ × ℕ) → ℕ → List (ℕ × ℕ)
unfolding collapse_run
collapse changes gap = reverse (collapse_run gap [] (sorted span_le changes))

pub pulse : List ℕ → List (ℕ × ℕ × ℕ)
pulse times = (0, 0, 100) ∷ each times
  where
    each : List ℕ → List (ℕ × ℕ × ℕ)
    each [] = []
    each (t ∷ ts) = (t, 0, 100) ∷ (t + 100, 90, 130) ∷ (t + 600, 0, 240) ∷ each ts

-- With the last one first: each state differs from the one before it, and comes `gap` or more after it
-- unless that one stands at 0.
abbrev pub AreShown : ℕ → List (ℕ × ℕ) → Type 0
AreShown gap [] = Unit {0}
AreShown gap (p ∷ []) = Unit {0}
AreShown gap (p ∷ q ∷ out) =
    ((q.1 == p.1) ≡ false) × (((gap ≤ p.0 - q.0) ⊎ (q.0 ≡ 0)) × AreShown gap (q ∷ out))

-- The state of the last one.
abbrev pub last_state : List (ℕ × ℕ) → Option ℕ
last_state [] = none
last_state (p ∷ out) = some p.1

-- The change at `t` may follow the list.
abbrev IsFree : ℕ → ℕ → List (ℕ × ℕ) → Type 0
IsFree gap t [] = Unit {0}
IsFree gap t (p ∷ out) = (gap ≤ t - p.0) ⊎ (p.0 ≡ 0)

AreShown-rest :
    (gap : ℕ) (p : ℕ × ℕ) (out : List (ℕ × ℕ)) → AreShown gap (p ∷ out) → AreShown gap out
AreShown-rest gap p [] h = tt
AreShown-rest gap p (q ∷ out) h = h.1.1

drop_quick_lem :
    (gap t : ℕ) (out : List (ℕ × ℕ))
    → AreShown gap out
    → AreShown gap (drop_quick gap t out) × IsFree gap t (drop_quick gap t out)
unfolding drop_quick
drop_quick_lem gap t [] h = (tt, tt)
drop_quick_lem gap t (p ∷ out) h = elim (Bool-cases (ltb (t - p.0) gap && ltb 0 p.0)) [
  | inl e ↦ rw e (drop_quick_lem gap t out (AreShown-rest gap p out h))
  | inr e ↦ rw e (h, ground arith)
]

add_change_lem :
    (gap : ℕ) (c : ℕ × ℕ) (out : List (ℕ × ℕ))
    → AreShown gap out
    → IsFree gap c.0 out
    → AreShown gap (add_change c out) × (last_state (add_change c out) ≡ some c.1)
unfolding add_change
add_change_lem gap c [] h f = (tt, refl)
add_change_lem gap c (p ∷ out) h f = elim (Bool-cases (p.1 == c.1)) [
  | inl e ↦ rw e (h, ground arith)
  | inr e ↦ rw e ((e, (f, h)), refl)
]
