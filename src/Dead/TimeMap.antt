-- ===== src/Dead/TimeMap.antt =====
-- assets/diagrams/gen/gen_dead.py, class TimeMap and build_map: real time to drawn time. Real times are whole
-- milliseconds from the start of the drawing on, drawn times tenths of one, and what a map returns is exact.
mod Tests
use native.Mathlib.Nat.{mul-le-mul_left, mul-le-mul_right}
use redisq.Base.{
  ℕ, ◌+◌, ◌-◌, ◌*◌, ◌≤◌, ◌<◌, ◌≡◌, refl, inl, inr, Bool, true, false, ◌&&◌, Bool-cases, List, [],
  ◌∷◌, ◌++◌, ltb, leb, ◌==◌, if◌then◌else◌, leb→le, leb→lt, Result, ok, raise, ◌>>=◌, ◌>>◌, assert,
  index_error, value_error, subst, Option, none, some, or_raise, type_error, get_elem?, arith,
}
use redisq.Dead.Store.Simulate.Facts.{Facts}

abbrev pub Knot : Type 0
Knot = ℕ × ℕ

-- A drawn time: `num / den`.
pub record Drawn : Type 0 where
  pub num : ℕ
  pub den : ℕ

abbrev pub rises : Knot → List Knot → Bool
rises p [] = true
rises p (q ∷ qs) = (ltb p.0 q.0 && ltb p.1 q.1) && rises q qs

abbrev pub all_rise : List Knot → Bool
all_rise [] = true
all_rise (p ∷ qs) = rises p qs

-- `TimeMap(knots)`.
pub time_map : List Knot → Result (List Knot)
time_map knots = do assert (all_rise knots); ok knots

segment : Knot → Knot → ℕ → Drawn
segment p q s = record { num = p.1 * (q.0 - p.0) + (s - p.0) * (q.1 - p.1); den = q.0 - p.0 }

call_from : Knot → List Knot → ℕ → Result Drawn
unfolding segment
call_from p [] s = raise value_error
call_from p (q ∷ qs) s =
    let later = call_from q qs s in if leb s q.0 then ok (segment p q s) else later

-- `__call__`.
unfoldable pub call : List Knot → ℕ → Result Drawn
unfolding call_from
call [] s = raise index_error
call (p ∷ qs) s =
    let inside = call_from p qs s in
    if leb s p.0 then ok (record { num = p.1; den = 1 }) else inside

-- `lin` and `slow`, for the list of knots in reverse.
lin : ℕ → List Knot → Result (List Knot)
lin s [] = raise index_error
lin s (p ∷ k) = ok ((s, p.1 + (s - p.0) * 7) ∷ p ∷ k)

slow_to : ℕ → List Knot → Result (List Knot)
slow_to s [] = raise index_error
slow_to s (p ∷ k) = ok ((s, p.1 + 5000) ∷ p ∷ k)

-- `f["pops"][i][0]`.
pop_time : Facts → ℕ → Result ℕ
pop_time f i = or_raise index_error (get_elem? f.pops i) >>= λ p. ok p.0

slow : Facts → List Knot → Result (List Knot)
unfolding slow_to pop_time
slow f k = do
  pop_first ← pop_time f 0
  pop_second ← pop_time f 1
  k₁ ← slow_to f.wake k
  k₂ ← slow_to pop_first k₁
  slow_to pop_second k₂

-- The knot at the end of the fast-forward, which lasts 2.5 s drawn.
fast_to : ℕ → List Knot → Result (List Knot)
fast_to s [] = raise index_error
fast_to s (p ∷ k) = ok ((s, p.1 + 25000) ∷ p ∷ k)

back_to_front : List Knot → List Knot → List Knot
back_to_front [] l = l
back_to_front (p ∷ k) l = back_to_front k (p ∷ l)

unfoldable pub build_map : Facts → Facts → Result (List Knot)
unfolding lin slow fast_to back_to_front time_map
build_map fa fb = do
  assert (fa.skip == fb.skip && fa.kill == fb.kill)
  mark ← or_raise type_error fa.mark
  k₁ ← lin fa.reap ((mark, 30000) ∷ (fa.skip, 18000) ∷ (fa.kill, 10000) ∷ (0, 4000) ∷ [])
  k₂ ← slow fa k₁
  k₃ ← lin 9000 k₂
  k₄ ← fast_to 29000 k₃
  k₅ ← lin fb.reap k₄
  k₆ ← slow fb k₅
  k₇ ← lin 34600 k₆
  time_map (back_to_front k₇ [])

-- One drawn time is no later than another.
abbrev pub IsNoLater : Drawn → Drawn → Type 0
IsNoLater v w = v.num * w.den ≤ w.num * v.den

-- A point of the segment with length `w` and height `h`, at `x`.
climb_le : (d w h x : ℕ) → x ≤ w → d * w + x * h ≤ (d + h) * w
climb_le d w h x k = omega (arith, mul-le-mul_right h k)

climb_mono : (d w h x y : ℕ) → x ≤ y → (d * w + x * h) * w ≤ (d * w + y * h) * w
climb_mono d w h x y k =
    let up : d * w + x * h ≤ d * w + y * h = omega (arith, mul-le-mul_right h k) in
    mul-le-mul_right w up

below_above : (a b c u v : ℕ) → a ≤ b * u → b * v ≤ c → a * v ≤ c * u
below_above a b c u v h k = omega (arith, mul-le-mul_right v h, mul-le-mul_right u k)

-- In a segment the drawn time stays between the two knots.
segment_below :
    (p q : Knot) (s : ℕ)
    → ltb p.1 q.1 ≡ true
    → s ≤ q.0
    → (segment p q s).num ≤ q.1 * (segment p q s).den
unfolding segment
segment_below p q s u h =
    let top : p.1 + (q.1 - p.1) ≡ q.1 = ground (arith, u) in
    let near : s - p.0 ≤ q.0 - p.0 = omega (arith, h) in
    subst (λ e. p.1 * (q.0 - p.0) + (s - p.0) * (q.1 - p.1) ≤ e * (q.0 - p.0)) top
      (climb_le p.1 (q.0 - p.0) (q.1 - p.1) (s - p.0) near)

-- Behind a knot the drawn time is not before the knot's.
call_from_above :
    (p : Knot) (qs : List Knot) (s : ℕ) (v : Drawn)
    → rises p qs ≡ true
    → call_from p qs s ≡ ok v
    → p.1 * v.den ≤ v.num
unfolding call_from
call_from_above p [] s v r g = absurd (cc)
call_from_above p (q ∷ qs) s v r g = elim (Bool-cases (leb s q.0)) [
  | inl e ↦
      let same : segment p q s ≡ v = ground (arith, e, g) in
      subst (λ (x : Drawn). p.1 * x.den ≤ x.num) same (omega arith)
  | inr e ↦
      let h = call_from_above q qs s v (ground (arith, r)) (ground (arith, e, g)) in
      let up : p.1 ≤ q.1 = ground (arith, r) in omega (arith, h, mul-le-mul_right v.den up)
]

call_from_mono :
    (p : Knot) (qs : List Knot) (s s' : ℕ) (v v' : Drawn)
    → rises p qs ≡ true
    → s ≤ s'
    → call_from p qs s ≡ ok v
    → call_from p qs s' ≡ ok v'
    → IsNoLater v v'
unfolding call_from
call_from_mono p [] s s' v v' r h g g' = absurd (cc)
call_from_mono p (q ∷ qs) s s' v v' r h g g' = elim (Bool-cases (leb s q.0)) [
  | inl e ↦
      let same : segment p q s ≡ v = ground (arith, e, g) in
      elim (Bool-cases (leb s' q.0)) [
        | inl e' ↦
            let same' : segment p q s' ≡ v' = ground (arith, e', g') in
            let near : s - p.0 ≤ s' - p.0 = omega (arith, h) in
            subst (λ x. IsNoLater x v') same
              (subst (λ x. IsNoLater (segment p q s) x) same'
                (climb_mono p.1 (q.0 - p.0) (q.1 - p.1) (s - p.0) (s' - p.0) near))
        | inr e' ↦
            let above = call_from_above q qs s' v' (ground (arith, r)) (ground (arith, e', g')) in
            let below = segment_below p q s (ground (arith, r)) (leb→le s q.0 e) in
            subst (λ x. IsNoLater x v') same
              (below_above (segment p q s).num q.1 v'.num (segment p q s).den v'.den below above)
      ]
  | inr e ↦
      let late : leb s' q.0 ≡ false = ground (arith, e, h) in
      call_from_mono q qs s s' v v' (ground (arith, r)) h (ground (arith, e, g))
        (ground (arith, late, g'))
]

-- A map whose knots rise, as TimeMap asserts, keeps the order of time: of two real times at which it returns,
-- the later one is drawn no earlier, before the first knot, in one segment or across several.
pub call-IsNoLater :
    (knots : List Knot) (s s' : ℕ) (v v' : Drawn)
    → time_map knots ≡ ok knots
    → s ≤ s'
    → call knots s ≡ ok v
    → call knots s' ≡ ok v'
    → IsNoLater v v'
unfolding call time_map
call-IsNoLater [] s s' v v' r h g g' = absurd (cc)
call-IsNoLater (p ∷ qs) s s' v v' r h g g' =
    let up : rises p qs ≡ true = ground (arith, r) in
    elim (Bool-cases (leb s p.0)) [
      | inl e ↦
          let same : record { num = p.1; den = 1 } ≡ v = ground (arith, e, g) in
          subst (λ x. IsNoLater x v') same
            (elim (Bool-cases (leb s' p.0)) [
              | inl e' ↦
                  let same' : record { num = p.1; den = 1 } ≡ v' = ground (arith, e', g') in
                  subst (λ (x : Drawn). IsNoLater (record { num = p.1; den = 1 }) x) same'
                    (omega arith)
              | inr e' ↦
                  let above = call_from_above p qs s' v' up (ground (arith, e', g')) in
                  omega (arith, above)
            ])
      | inr e ↦
          let late : leb s' p.0 ≡ false = ground (arith, e, h) in
          call_from_mono p qs s s' v v' up h (ground (arith, e, g)) (ground (arith, late, g'))
    ]

abbrev pub last_knot : Knot → List Knot → Knot
last_knot p [] = p
last_knot p (q ∷ qs) = last_knot q qs

rises-last_knot : (p : Knot) (qs : List Knot) → rises p qs ≡ true → p.1 ≤ (last_knot p qs).1
rises-last_knot p [] r = omega arith
rises-last_knot p (q ∷ qs) r = ground (arith, r, rises-last_knot q qs)

-- A drawn time that stands between two whole ones.
pub record IsBetween (low high : ℕ) (v : Drawn) : Type 0 where
  pub positive : 0 < v.den
  pub above : low * v.den ≤ v.num
  pub below : v.num ≤ high * v.den

call_from-IsBetween :
    (p : Knot) (qs : List Knot) (s : ℕ)
    → rises p qs ≡ true
    → p.0 < s
    → s ≤ (last_knot p qs).0
    → (v : Drawn) × (call_from p qs s ≡ ok v) × IsBetween p.1 (last_knot p qs).1 v
unfolding call_from
call_from-IsBetween p [] s r h k = absurd (omega (arith, h, k))
call_from-IsBetween p (q ∷ qs) s r h k = elim (Bool-cases (leb s q.0)) [
  | inl e ↦
      let top : q.1 ≤ (last_knot q qs).1 = rises-last_knot q qs (ground (arith, r)) in
      let below = segment_below p q s (ground (arith, r)) (leb→le s q.0 e) in
      (
        segment p q s,
        rw e refl,
        record {
          positive = ground (arith, r);
          above = omega arith;
          below = omega (arith, below, mul-le-mul_right (q.0 - p.0) top);
        },
      )
  | inr e ↦
      let (v, f, b) = call_from-IsBetween q qs s (ground (arith, r)) (leb→lt s q.0 e) k in
      let up : p.1 ≤ q.1 = ground (arith, r) in
      (
        v,
        rw e f,
        record {
          positive = b.positive;
          above = omega (arith, b.above, mul-le-mul_right v.den up);
          below = b.below;
        },
      )
]

-- A map whose knots rise returns for every real time up to its last knot, and what it returns lies between the
-- drawn times of its first and its last knot.
pub call-IsBetween :
    (p : Knot) (qs : List Knot) (s : ℕ)
    → time_map (p ∷ qs) ≡ ok (p ∷ qs)
    → s ≤ (last_knot p qs).0
    → (v : Drawn) × (call (p ∷ qs) s ≡ ok v) × IsBetween p.1 (last_knot p qs).1 v
unfolding call time_map
call-IsBetween p qs s r k =
    let up : rises p qs ≡ true = ground (arith, r) in
    elim (Bool-cases (leb s p.0)) [
      | inl e ↦ (
        record { num = p.1; den = 1 },
        rw e refl,
        record {
          positive = omega arith;
          above = omega arith;
          below = omega (arith, rises-last_knot p qs up);
        },
      )
      | inr e ↦ let (v, f, b) = call_from-IsBetween p qs s up (leb→lt s p.0 e) k in (v, rw e f, b)
    ]
