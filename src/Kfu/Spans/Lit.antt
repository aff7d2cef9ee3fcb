-- ===== src/Kfu/Spans/Lit.antt =====
-- assets/diagrams/gen/kfu.py, flash: when a flash is seen.
use redisq.Base.{
  ℕ, ◌+◌, ◌-◌, ◌≤◌, ◌<◌, ◌≡◌, inl, inr, Bool, true, false, ◌&&◌, List, [], ◌∷◌, ltb, leb, any,
  Bool-cases, arith,
}
use redisq.Kfu.Reading.{between, shown, IsAt, holds}
use redisq.Kfu.Spans.{
  Span, merge, AreApart, AreLong, flash, flash_spans, flash_in_order, merge_exact, merge-AreLong,
}

-- At time `t` some span has risen and not ended; some span has begun and not faded.
abbrev pub is_up : ℕ → ℕ → List Span → Bool
is_up rise t = any (λ p. leb (p.0 + rise) t && leb t p.1)

abbrev pub is_lit : ℕ → ℕ → List Span → Bool
is_lit fall t = any (λ p. ltb p.0 t && ltb t (p.1 + fall))

abbrev StartsAfter : ℕ → List Span → Type 0
StartsAfter t [] = Unit {0}
StartsAfter t (p ∷ spans) = t < p.0

none_up :
    (pad rise t : ℕ) (spans : List Span)
    → AreApart pad spans
    → AreLong rise spans
    → StartsAfter t spans
    → is_up rise t spans ≡ false
none_up pad rise t [] a l h = ground arith
none_up pad rise t (p ∷ []) a l h = ground (arith, h)
none_up pad rise t (p ∷ q ∷ spans) a l h =
    let rest = none_up pad rise t (q ∷ spans) a.1 l.1 (omega (arith, a.0, l.0, h)) in
    ground (arith, h, rest)

after_first :
    (pad t : ℕ) (p : Span) (spans : List Span)
    → AreApart pad (p ∷ spans)
    → t ≤ p.1 + pad
    → StartsAfter t spans
after_first pad t p [] a h = tt
after_first pad t p (q ∷ spans) a h = omega (arith, a.0, h)

apart_rest :
    (pad : ℕ) (p : Span) (spans : List Span) → AreApart pad (p ∷ spans) → AreApart pad spans
apart_rest pad p [] a = tt
apart_rest pad p (q ∷ spans) a = a.1

abbrev Reads : ℕ → ℕ → ℕ → ℕ → List Span → ℕ × ℕ → Type 0
Reads peak rise fall t spans x =
    (is_up rise t spans ≡ true → IsAt peak x) × (is_lit fall t spans ≡ false → IsAt 0 x)

module _ (peak rise fall : ℕ) (quick : 0 < rise) (slow : 0 < fall) where
  flash_spans-Reads :
      (b t : ℕ) (spans : List Span)
      → AreApart (rise + fall) spans
      → AreLong rise spans
      → b ≤ t
      → Reads peak rise fall t spans (between (b, 0) (flash_spans peak rise fall spans) t)
  unfolding flash_spans
  flash_spans-Reads b t [] a l h = (λ u. cc, λ d. (omega arith, omega arith))
  flash_spans-Reads b t ((s, e) ∷ spans) a l h =
      let next = apart_rest (rise + fall) (s, e) spans a in
      elim (Bool-cases (leb s t)) [
        | inr c₁ ↦
            let none = none_up (rise + fall) rise t ((s, e) ∷ spans) a l (ground (arith, c₁)) in
            rw c₁ (λ u. cc, λ d. holds 0 b s t h (ground (arith, c₁)))
        | inl c₁ ↦ elim (Bool-cases (leb (s + rise) t)) [
          | inr c₂ ↦
              let none =
                none_up (rise + fall) rise t spans next l.1
                  (after_first (rise + fall) t (s, e) spans a (ground (arith, c₂, l.0))) in
              rw (c₁, c₂)
                (
                  λ u. absurd (ground (arith, u, none, c₂)),
                  λ d.
                      let q : s ≡ t = ground (arith, d, c₁, c₂, l.0) in
                      let z : t - s ≡ 0 = omega (arith, q) in
                      (rw z (omega arith), omega (arith, quick)),
                )
          | inl c₂ ↦ elim (Bool-cases (leb e t)) [
            | inr c₃ ↦
                rw (c₁, c₂, c₃)
                  (
                    λ u. holds peak (s + rise) e t (ground (arith, c₂)) (ground (arith, c₃)),
                    λ d. absurd (ground (arith, d, c₂, c₃, quick)),
                  )
            | inl c₃ ↦ elim (Bool-cases (leb (e + fall) t)) [
              | inr c₄ ↦
                  let none =
                    none_up (rise + fall) rise t spans next l.1
                      (after_first (rise + fall) t (s, e) spans a (ground (arith, c₄))) in
                  rw (c₁, c₂, c₃, c₄)
                    (
                      λ u.
                          let q : e ≡ t = ground (arith, u, none, c₃) in
                          let z : e + fall - t ≡ fall = omega (arith, q) in
                          let w : e + fall - e ≡ fall = omega arith in
                          (rw (z, w) (omega arith), omega (arith, slow)),
                      λ d. absurd (ground (arith, d, c₂, c₃, c₄, quick)),
                    )
              | inl c₄ ↦
                  let (up, dark) =
                    flash_spans-Reads (e + fall) t spans next l.1 (ground (arith, c₄)) in
                  rw (c₁, c₂, c₃, c₄)
                    (λ u. up (ground (arith, u, c₄, slow)), λ d. dark (ground (arith, d)))
            ]
          ]
        ]
      ]

-- Where every span is as long as the rise, and rise and fall are not 0, a flash is read as CSS does, with a line
-- from each keyframe to the next: it shows the peak from when a merged span has risen until it ends, and
-- nothing where no merged span is between its start and the end of its fall.
pub flash_shows :
    (spans : List Span) (peak rise fall t : ℕ)
    → 0 < rise
    → 0 < fall
    → AreLong rise spans
    → (is_up rise t (merge (rise + fall) spans) ≡ true
        → IsAt peak (shown t (flash spans peak rise fall)))
      × (is_lit fall t (merge (rise + fall) spans) ≡ false
          → IsAt 0 (shown t (flash spans peak rise fall)))
flash_shows spans peak rise fall t quick slow l = rw (flash_in_order spans peak rise fall l) (
    flash_spans-Reads peak rise fall quick slow 0 t (merge (rise + fall) spans)
      (merge_exact (rise + fall) spans).0 (merge-AreLong rise (rise + fall) spans l) (omega arith))
