-- ===== src/Kfu/Reading.antt =====
-- assets/diagrams/gen/kfu.py: what a rule of numbers shows at a time, which is a line from each keyframe to the next (with any
-- other timing function a stretch between two keyframes of one value is read alike).
-- Times are whole milliseconds; a value is a fraction.
use native.Mathlib.Nat.{mul-add}
use redisq.Base.{
  ℕ, ◌+◌, ◌-◌, ◌*◌, ◌≤◌, ◌<◌, ◌≡◌, ap, ◌∙◌, sym, List, [], ◌∷◌, leb, if◌then◌else◌, arith,
}

abbrev pub between : ℕ × ℕ → List (ℕ × ℕ) → ℕ → ℕ × ℕ
between p [] t = (p.1, 1)
between p (q ∷ pts) t =
    let after = between q pts t in
    if leb q.0 t then after else (p.1 * (q.0 - t) + q.1 * (t - p.0), q.0 - p.0)

abbrev pub shown : ℕ → List (ℕ × ℕ) → ℕ × ℕ
shown t [] = (0, 1)
shown t (p ∷ pts) = between p pts t

-- A fraction that is the number `v`.
abbrev pub IsAt : ℕ → ℕ × ℕ → Type 0
IsAt v x = (x.0 ≡ v * x.1) × (0 < x.1)

-- Between two keyframes of one value.
pub holds : (v a b t : ℕ) → a ≤ t → t < b → IsAt v (v * (b - t) + v * (t - a), b - a)
holds v a b t h l =
    let split : (b - t) + (t - a) ≡ b - a = omega arith in
    (sym (mul-add v (b - t) (t - a)) ∙ ap (λ (x : ℕ). v * x) split, omega arith)
