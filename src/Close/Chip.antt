-- ===== src/Close/Chip.antt =====
-- assets/diagrams/gen/gen_close.py, chip: a consumer's chip in the picture of the idle set. Times are whole
-- milliseconds; a chip that is out stands 16 pixels aside.
use mathlib.Core.List.{append-nil}
use redisq.Base.{
  ap, ℕ, ◌+◌, ◌≤◌, ◌≡◌, refl, ◌∙◌, inl, inr, Bool, true, false, not, Bool-cases, List, [], ◌∷◌,
  ◌++◌, if◌then◌else◌, arith,
}
use redisq.Base.Sort.{sorted, IsOrderedBy-weaken}
use redisq.Kfu.Keyframes.{by_time, IsOrdered, last_of, sorted_ordered}

-- Opacity and offset.
abbrev pub Look : Type 0
Look = ℕ × ℕ

abbrev pub look : Bool → Look
look true = (1, 0)
look false = (0, 16)

-- CHIP_IN, CHIP_OUT and XFADE.
abbrev pub slide : Bool → ℕ
slide true = 250
slide false = 150

abbrev pub cross_fade : ℕ
cross_fade = 500

-- The loop over the log.
slides : List (ℕ × Bool) → List (ℕ × Look)
slides [] = []
slides ((t, member) ∷ log) = (t, look (not member)) ∷ (t + slide member, look member) ∷ slides log

-- `log[-1][1] if log else start_in`.
abbrev pub end_in : Bool → List (ℕ × Bool) → Bool
end_in start_in [] = start_in
end_in start_in ((t, member) ∷ log) = end_in member log

same_bool : Bool → Bool → Bool
same_bool true b = b
same_bool false b = not b

pub chip : List (ℕ × Bool) → Bool → ℕ → List (ℕ × Look)
unfolding slides same_bool last_of
chip log start_in xf0 =
    let pts = slides log in
    let leave =
      (xf0, (last_of (0, look start_in) pts).1) ∷ (xf0 + cross_fade, look start_in) ∷ [] in
    sorted by_time
      ((0, look start_in) ∷ pts ++ (if same_bool (end_in start_in log) start_in then [] else leave))

-- The changes come one after another, each when the slide before is over, and the last one is over at `xf0`.
abbrev pub AreSlid : ℕ → List (ℕ × Bool) → ℕ → Type 0
AreSlid t [] xf0 = t ≤ xf0
AreSlid t ((u, member) ∷ log) xf0 = (t ≤ u) × AreSlid (u + slide member) log xf0

slides-last_of :
    (p : ℕ × Look) (start_in : Bool) (log : List (ℕ × Bool))
    → p.1 ≡ look start_in
    → (last_of p (slides log)).1 ≡ look (end_in start_in log)
unfolding slides last_of
slides-last_of p start_in [] h = h
slides-last_of p start_in ((t, member) ∷ log) h =
    slides-last_of (t + slide member, look member) member log refl

append-last_of :
    (p q : ℕ × Look) (xs ys : List (ℕ × Look)) → last_of p (xs ++ q ∷ ys) ≡ last_of q ys
unfolding last_of
append-last_of p q [] ys = refl
append-last_of p q (x ∷ xs) ys = append-last_of x q xs ys

slides-IsOrdered :
    (t : ℕ) (log : List (ℕ × Bool)) (xf0 : ℕ) (rest : List (ℕ × Look))
    → AreSlid t log xf0
    → IsOrdered xf0 rest
    → IsOrdered t (slides log ++ rest)
unfolding slides
slides-IsOrdered t [] xf0 rest h k = IsOrderedBy-weaken (λ p. p.0) t xf0 rest h k
slides-IsOrdered t ((u, member) ∷ log) xf0 rest h k =
    (h.0, (omega arith, slides-IsOrdered (u + slide member) log xf0 rest h.1 k))

same_eq : (a b : Bool) → same_bool a b ≡ true → a ≡ b
unfolding same_bool
same_eq true true h = refl
same_eq true false h = cc
same_eq false true h = cc
same_eq false false h = refl

-- A chip's changes that come one after another, and are over when the cross-fade begins, make a rule whose
-- keyframes stand in order and whose last look is its first one, so that the loop has no jump at its end.
pub chip_loops :
    (log : List (ℕ × Bool)) (start_in : Bool) (xf0 : ℕ)
    → AreSlid 0 log xf0
    → IsOrdered 0 (chip log start_in xf0)
      × (pts : List (ℕ × Look)) × (chip log start_in xf0 ≡ (0, look start_in) ∷ pts)
      × ((last_of (0, look start_in) pts).1 ≡ look start_in)
unfolding chip
chip_loops log start_in xf0 h = elim (Bool-cases (same_bool (end_in start_in log) start_in)) [
  | inl e ↦
      let pts = slides log ++ [] in
      let ordered : IsOrdered 0 ((0, look start_in) ∷ pts) =
        (omega arith, slides-IsOrdered 0 log xf0 [] h tt) in
      let same = sorted_ordered 0 ((0, look start_in) ∷ pts) ordered in
      let ends : (last_of (0, look start_in) pts).1 ≡ look start_in = rw (append-nil (slides log)) (
        slides-last_of (0, look start_in) start_in log refl
        ∙ ap look (same_eq (end_in start_in log) start_in e)) in
      rw (e, same) (ordered, pts, refl, ends)
  | inr e ↦
      let now = (last_of (0, look start_in) (slides log)).1 in
      let leave = (xf0, now) ∷ (xf0 + cross_fade, look start_in) ∷ [] in
      let pts = slides log ++ leave in
      let ordered : IsOrdered 0 ((0, look start_in) ∷ pts) =
        (omega arith, slides-IsOrdered 0 log xf0 leave h (omega arith, (omega arith, tt))) in
      let same = sorted_ordered 0 ((0, look start_in) ∷ pts) ordered in
      let ends : (last_of (0, look start_in) pts).1 ≡ look start_in =
        rw
          (append-last_of (0, look start_in) (xf0, now) (slides log)
            ((xf0 + cross_fade, look start_in) ∷ []))
          refl in
      rw (e, same) (ordered, pts, refl, ends)
]
