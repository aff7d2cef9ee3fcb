-- ===== src/Kfu/Pulses.antt =====
-- assets/diagrams/gen/kfu.py, ring: pulses that coalesce like a one-slot channel. Times are whole milliseconds, opacities and scales hundredths.
use redisq.Base.{
  ℕ, ◌+◌, ◌-◌, ◌≤◌, ◌<◌, ◌≡◌, ◌∙◌, sym, inl, inr, Bool, true, ◌&&◌, List, [], ◌∷◌, arith, ltb, leb,
  if◌then◌else◌, Bool-cases, elem, any, leb→le, ltb→le,
}
use redisq.Base.Sort.{sorted, elem-sorted, IsOrderedBy, sorted-IsOrderedBy, IsOrderedBy-weaken}

-- `ring`: `next` is `last + gap`. `last` starts at -9 s, so `next` starts at `gap` less 9 s, which for
-- times from 0 on is the truncated difference.
ring_times : ℕ → ℕ → List ℕ → List ℕ
ring_times gap next [] = []
ring_times gap next (t ∷ times) =
    let kept = ring_times gap (t + gap) times in
    let dropped = ring_times gap next times in if ltb t next then dropped else t ∷ kept

ring_points : List ℕ → List (ℕ × ℕ × ℕ)
ring_points [] = []
ring_points (t ∷ times) = (t, 0, 100) ∷ (t + 100, 90, 104) ∷ (t + 600, 0, 118) ∷ ring_points times

abbrev by_instant : ℕ × ℕ × ℕ → ℕ × ℕ × ℕ → Bool
by_instant p q = leb p.0 q.0

unfoldable pub pulses : List ℕ → ℕ → List ℕ
unfolding ring_times
pulses times gap = ring_times gap (gap - 9000) (sorted leb times)

unfoldable pub ring : List ℕ → ℕ → List (ℕ × ℕ × ℕ)
unfolding ring_points
ring times gap = sorted by_instant ((0, 0, 100) ∷ ring_points (pulses times gap))

-- Each pulse comes `gap` or more after the one before, the first at `next` or later.
abbrev pub AreSpaced : ℕ → ℕ → List ℕ → Type 0
AreSpaced gap next [] = Unit {0}
AreSpaced gap next (t ∷ times) = (next ≤ t) × AreSpaced gap (t + gap) times

-- A pulse stands for `t`: it begins no later, and less than `gap` before.
abbrev pub stands_for : ℕ → ℕ → List ℕ → Bool
stands_for gap t = any (λ k. leb k t && ltb t (k + gap))

ring_times-AreSpaced :
    (gap next : ℕ) (times : List ℕ) → AreSpaced gap next (ring_times gap next times)
unfolding ring_times
ring_times-AreSpaced gap next [] = tt
ring_times-AreSpaced gap next (t ∷ times) = elim (Bool-cases (ltb t next)) [
  | inl e ↦ rw e (ring_times-AreSpaced gap next times)
  | inr e ↦ rw e (ltb→le _ _ e, ring_times-AreSpaced gap (t + gap) times)
]

ring_times-elem :
    (gap next x : ℕ) (times : List ℕ)
    → elem x (ring_times gap next times) ≡ true
    → elem x times ≡ true
unfolding ring_times
ring_times-elem gap next x [] h = h
ring_times-elem gap next x (t ∷ times) h =
    ground (arith, ring_times-elem gap next x times, ring_times-elem gap (t + gap) x times)

-- `k` is the last pulse kept, and `next` is `k + gap`.
ring_times-stands_for :
    (gap k x : ℕ) (times : List ℕ)
    → 0 < gap
    → IsOrderedBy (λ t. t) k times
    → elem x times ≡ true
    → stands_for gap x (k ∷ ring_times gap (k + gap) times) ≡ true
unfolding ring_times
ring_times-stands_for gap k x [] g o h = cc
ring_times-stands_for gap k x (t ∷ times) g o h = ground (
  arith,
  ring_times-stands_for gap k x times g (IsOrderedBy-weaken (λ t. t) k t times o.0 o.1),
  ring_times-stands_for gap t x times g o.1,
)

first-stands_for :
    (gap x : ℕ) (times : List ℕ)
    → 0 < gap
    → IsOrderedBy (λ t. t) 0 times
    → elem x times ≡ true
    → stands_for gap x (ring_times gap 0 times) ≡ true
unfolding ring_times
first-stands_for gap x [] g o h = cc
first-stands_for gap x (t ∷ times) g o h = ground (arith, ring_times-stands_for gap t x times g o.1)

-- For a gap of at most 9 s and above 0, pulses come the gap or more apart, each at one of the given
-- times, and each given time has a pulse that stands for it: at it, or less than the gap before it.
pub pulses_coalesce :
    (times : List ℕ) (gap : ℕ)
    → 0 < gap
    → gap ≤ 9000
    → AreSpaced gap 0 (pulses times gap)
      × ((x : ℕ) → elem x (pulses times gap) ≡ true → elem x times ≡ true)
      × ((x : ℕ) → elem x times ≡ true → stands_for gap x (pulses times gap) ≡ true)
unfolding pulses
pulses_coalesce times gap pos le =
    let z : gap - 9000 ≡ 0 = omega arith in
    let o = sorted-IsOrderedBy leb (λ t. t) (λ a b h. leb→le a b h) (λ a b h. ground arith) times in
    rw z (
      ring_times-AreSpaced gap 0 (sorted leb times),
      λ x h. sym (elem-sorted x times) ∙ ring_times-elem gap 0 x (sorted leb times) h,
      λ x h. first-stands_for gap x (sorted leb times) pos o (elem-sorted x times ∙ h),
    )
