-- ===== src/Wake/Pulse.antt =====
-- assets/diagrams/gen/gen_wake.py, pulse: the nudges of a consumer as one pulse a second, cut at the loop's end. Times are
-- whole milliseconds, counted from one second before the loop's start; opacities and scales are hundredths, and
-- thousandths where a value is printed.
mod Tests
use redisq.Base.{
  ℕ, zero, suc, ◌+◌, ◌-◌, ◌*◌, ◌/◌, ◌%◌, ◌≤◌, ◌<◌, ◌≡◌, refl, ap, ◌∙◌, inl, inr, Bool, true, ◌&&◌,
  List, [], ◌∷◌, ◌++◌, map, ltb, leb, ◌==◌, if◌then◌else◌, select, Bool-cases, Result, ok, raise,
  ◌>>=◌, ◌>>◌, assert, assertion_error, arith,
}

-- A point of the train: time, opacity, scale.
abbrev pub Point : Type 0
Point = ℕ × ℕ × ℕ

-- `n` pulses, the first at `t`.
train : ℕ → ℕ → List Point
train t zero = []
train t (suc n) = (t, 0, 100) ∷ (t + 80, 90, 125) ∷ (t + 600, 0, 240) ∷ train (t + 1000) n

-- A value between two: a fraction of hundredths.
abbrev Fraction : Type 0
Fraction = ℕ × ℕ

mix : ℕ → ℕ → ℕ → ℕ → ℕ → Fraction
mix a u b v x = (u * (b - x) + v * (x - a), b - a)

-- `f`: in the first segment that holds `x`.
value_from : Point → List Point → ℕ → Result (Fraction × Fraction)
unfolding mix
value_from p [] x = raise assertion_error
value_from p (q ∷ pts) x =
    let later = value_from q pts x in
    if leb p.0 x && leb x q.0 then ok (mix p.0 p.1 q.0 q.1 x, mix p.0 p.2 q.0 q.2 x) else later

value_at : List Point → ℕ → Result (Fraction × Fraction)
unfolding value_from
value_at [] x = raise assertion_error
value_at (p ∷ pts) x = value_from p pts x

-- `f"{o:.3f}"`.
thousandths : Fraction → ℕ
thousandths v = (2 * 10 * v.0 + v.1) / (2 * v.1)

-- The seam, in exact arithmetic.
same_value : Fraction → Fraction → Bool
same_value v w = v.0 * w.1 == w.0 * v.1

-- A keyframe on the loop's own clock.
keyframe : ℕ → Fraction → Fraction → Point
unfolding thousandths
keyframe t o s = (t, thousandths o, thousandths s)

inner : ℕ → List Point → List Point
unfolding keyframe
inner d pts =
    map (λ p. keyframe (p.0 - 1000) (p.1, 1) (p.2, 1))
      (select (λ p. ltb 1000 p.0 && ltb p.0 (1000 + d)) pts)

unfoldable pub pulse : ℕ → ℕ → Result (List Point)
unfolding train value_at same_value keyframe inner
pulse d phase = do
  assert (d % 1000 == 0)
  let pts = train phase (d / 1000 + 2)
  (o, s) ← value_at pts 1000
  (o', s') ← value_at pts (1000 + d)
  assert (same_value o o' && same_value s s')
  ok (keyframe 0 o s ∷ inner d pts ++ keyframe d o' s' ∷ [])

-- A second later the train looks the same.
later_value :
    (t n x : ℕ)
    → t < x
    → value_at (train t (suc (suc n))) (x + 1000) ≡ value_at (train (t + 1000) (suc n)) (x + 1000)
unfolding value_at value_from train
later_value t n x h = ground (arith, h)

value_from-shift :
    (a u v t n x : ℕ)
    → value_from (a + 1000, u, v) (train (t + 1000) n) (x + 1000)
      ≡ value_from (a, u, v) (train t n) x
unfolding value_from mix train
value_from-shift a u v t zero x = refl
value_from-shift a u v t (suc n) x =
    let e : t + 1000 + 80 ≡ t + 80 + 1000 = omega arith in
    let f : t + 1000 + 600 ≡ t + 600 + 1000 = omega arith in
    let rest = value_from-shift (t + 600) 0 240 (t + 1000) n x in rw (e, f) (ground (arith, rest))

value_at-shift :
    (t n x : ℕ) → value_at (train (t + 1000) (suc n)) (x + 1000) ≡ value_at (train t (suc n)) x
unfolding value_at train value_from mix
value_at-shift t n x =
    let e : t + 1000 + 80 ≡ t + 80 + 1000 = omega arith in
    let f : t + 1000 + 600 ≡ t + 600 + 1000 = omega arith in
    let rest = value_from-shift (t + 600) 0 240 (t + 1000) n x in rw (e, f) (ground (arith, rest))

-- In the first second after its start only the first pulses count.
first_value :
    (t n x : ℕ) → t ≤ x → x ≤ t + 1000 → value_at (train t (suc (suc n))) x ≡ value_at (train t 2) x
unfolding value_at value_from train
first_value t n x h k = ground (arith, h, k)

-- The train after `k` seconds.
value_after :
    (k t x : ℕ)
    → t < x
    → x ≤ t + 1000
    → value_at (train t (k + 2)) (x + 1000 * k) ≡ value_at (train t 2) x
value_after zero t x h l = let e : x + 1000 * 0 ≡ x = omega arith in ap (value_at (train t 2)) e
value_after (suc k) t x h l =
    let e : x + 1000 * suc k ≡ x + 1000 * k + 1000 = omega arith in
    let n : suc k + 2 ≡ suc (suc (suc k)) = omega arith in
    let m : k + 2 ≡ suc (suc k) = omega arith in
    let same : value_at (train t (suc (suc k))) (x + 1000 * k) ≡ value_at (train t 2) x =
      rw m at (value_after k t x h l) in
    rw (n, e)
      (later_value t (suc k) (x + 1000 * k) (omega (arith, h))
        ∙ (value_at-shift t (suc k) (x + 1000 * k) ∙ same))

-- The value at the loop's start is there: in the first pulse, or between it and the next.
start_value : (t : ℕ) → t < 1000 → (v : Fraction × Fraction) × (value_at (train t 2) 1000 ≡ ok v)
unfolding value_at train value_from
start_value t h = elim (Bool-cases (leb 1000 (t + 80))) [
  | inl a ↦ ((mix t 0 (t + 80) 90 1000, mix t 100 (t + 80) 125 1000), ground (arith, h, a))
  | inr a ↦ elim (Bool-cases (leb 1000 (t + 600))) [
    | inl b ↦ (
      (mix (t + 80) 90 (t + 600) 0 1000, mix (t + 80) 125 (t + 600) 240 1000),
      ground (arith, h, a, b),
    )
    | inr b ↦ (
      (mix (t + 600) 0 (t + 1000) 0 1000, mix (t + 600) 240 (t + 1000) 100 1000),
      ground (arith, h, a, b),
    )
  ]
]

same_value_refl : (v : Fraction) → same_value v v ≡ true
unfolding same_value
same_value_refl v = ground arith

-- For a phase of less than a second and a loop of whole seconds `pulse` returns a rule: it starts at 0 and ends at the
-- loop's end, and shows the same at both, so that the train has no seam.
pub pulse_has_no_seam :
    (seconds phase : ℕ)
    → phase < 1000
    → (opacity scale : ℕ) × (between : List Point) × (pulse (1000 * seconds) phase
        ≡ ok ((0, opacity, scale) ∷ between ++ (1000 * seconds, opacity, scale) ∷ []))
unfolding pulse keyframe
pulse_has_no_seam seconds phase h =
    let ((o, s), e) = start_value phase h in
    let n : 1000 * seconds / 1000 ≡ seconds = omega arith in
    let whole : (1000 * seconds % 1000 == 0) ≡ true = ground arith in
    let at_end = value_after seconds phase 1000 h (omega arith) ∙ e in
    let two : seconds + 2 ≡ suc (suc seconds) = omega arith in
    let at_start : value_at (train phase (seconds + 2)) 1000 ≡ ok (o, s) =
      rw two (first_value phase seconds 1000 (omega (arith, h)) (omega arith) ∙ e) in
    (
      thousandths o,
      thousandths s,
      inner (1000 * seconds) (train phase (seconds + 2)),
      rw (whole, n, at_start, at_end, same_value_refl o, same_value_refl s) refl,
    )
