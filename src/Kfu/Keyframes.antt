-- ===== src/Kfu/Keyframes.antt =====
-- assets/diagrams/gen/kfu.py, kf and padded: a rule's keyframes in order of time, and as CSS gets
-- them. Times are whole milliseconds; what a keyframe sets is any type.
use mathlib.Core.List.{append-nil}
use redisq.Base.{
  ℕ, ◌≤◌, ◌≡◌, refl, ap, ◌∙◌, inl, inr, Bool, Option, none, some, List, [], ◌∷◌, ◌++◌, arith, ltb,
  leb, if◌then◌else◌, Bool-cases, ltb→le, le→leb, leb→le, Result, ok, raise, ◌>>◌, assert,
  index_error,
}
use redisq.Base.Sort.{sorted, insert_sorted, IsOrderedBy, sorted-IsOrderedBy}

module _ {ℓ} {V : Type ℓ} where
  -- `sorted(pts, key=lambda p: p[0])`.
  abbrev pub by_time : ℕ × V → ℕ × V → Bool
  by_time p q = leb p.0 q.0

  -- The times from a lower bound on, in order.
  abbrev pub IsOrdered : ℕ → List (ℕ × V) → Type 0
  IsOrdered = IsOrderedBy (λ p. p.0)

  unfoldable pub last_of : ℕ × V → List (ℕ × V) → ℕ × V
  last_of p [] = p
  last_of p (q ∷ pts) = last_of q pts

  -- `padded`: the first and last values are held to 0 and to the loop's end.
  hold_end : ℕ → ℕ × V → List (ℕ × V)
  hold_end d p = if ltb p.0 d then (d, p.1) ∷ [] else []

  hold_start : ℕ × V → List (ℕ × V)
  hold_start p = if ltb 0 p.0 then (0, p.1) ∷ [] else []

  unfoldable pub held : ℕ → ℕ × V → List (ℕ × V) → List (ℕ × V)
  unfolding hold_start hold_end last_of
  held d p pts = hold_start p ++ (p ∷ pts ++ hold_end d (last_of p pts))

  -- The point added at the end stands at `d`, so the assertion is about the last one given.
  unfoldable pub padded : ℕ → List (ℕ × V) → Result (List (ℕ × V))
  unfolding held last_of
  padded d [] = raise index_error
  padded d (p ∷ pts) = do assert (leb (last_of p pts).0 d); ok (held d p pts)

  IsOrdered-weaken : (s t : ℕ) (pts : List (ℕ × V)) → s ≤ t → IsOrdered t pts → IsOrdered s pts
  IsOrdered-weaken s t [] h o = tt
  IsOrdered-weaken s t (p ∷ pts) h o = (omega arith, o.1)

  pub sorted-IsOrdered : (pts : List (ℕ × V)) → IsOrdered 0 (sorted by_time pts)
  sorted-IsOrdered =
      sorted-IsOrderedBy by_time (λ p. p.0) (λ p q h. leb→le _ _ h) (λ p q h. ground arith)

  -- Keyframes that stand in order are left as they are.
  insert_first :
      (p : ℕ × V) (pts : List (ℕ × V)) → IsOrdered p.0 pts → insert_sorted by_time p pts ≡ p ∷ pts
  unfolding insert_sorted
  insert_first p [] o = refl
  insert_first p (q ∷ pts) o = ground arith

  pub sorted_ordered : (s : ℕ) (pts : List (ℕ × V)) → IsOrdered s pts → sorted by_time pts ≡ pts
  unfolding sorted
  sorted_ordered s [] o = refl
  sorted_ordered s (p ∷ pts) o =
      ap (insert_sorted by_time p) (sorted_ordered p.0 pts o.1) ∙ insert_first p pts o.1

  -- How the rule looks at the loop's two ends.
  abbrev pub first_time : List (ℕ × V) → Option ℕ
  first_time [] = none
  first_time (p ∷ pts) = some p.0

  pub last_time : List (ℕ × V) → Option ℕ
  last_time [] = none
  last_time (p ∷ []) = some p.0
  last_time (p ∷ q ∷ pts) = last_time (q ∷ pts)

  last_time_of : (p : ℕ × V) (pts : List (ℕ × V)) → last_time (p ∷ pts) ≡ some (last_of p pts).0
  unfolding last_time last_of
  last_time_of p [] = refl
  last_time_of p (q ∷ pts) = last_time_of q pts

  last_time-append : (pts : List (ℕ × V)) (p : ℕ × V) → last_time (pts ++ p ∷ []) ≡ some p.0
  unfolding last_time
  last_time-append [] p = refl
  last_time-append (x ∷ []) p = refl
  last_time-append (x ∷ y ∷ pts) p = last_time-append (y ∷ pts) p

  append-IsOrdered :
      (s : ℕ) (p : ℕ × V) (pts : List (ℕ × V)) (q : ℕ × V)
      → s ≤ p.0
      → IsOrdered p.0 pts
      → (last_of p pts).0 ≤ q.0
      → IsOrdered s (p ∷ pts ++ q ∷ [])
  unfolding last_of
  append-IsOrdered s p [] q h o k = (h, (k, tt))
  append-IsOrdered s p (x ∷ pts) q h o k = (h, append-IsOrdered p.0 x pts q o.0 o.1 k)

  append-nil-IsOrdered :
      (s : ℕ) (p : ℕ × V) (pts : List (ℕ × V))
      → s ≤ p.0
      → IsOrdered p.0 pts
      → IsOrdered s (p ∷ pts ++ [])
  append-nil-IsOrdered s p pts h o = rw append-nil (h, o)

  -- The part from the first keyframe given on.
  hold_end_frame :
      (d s : ℕ) (p : ℕ × V) (pts : List (ℕ × V))
      → s ≤ p.0
      → IsOrdered p.0 pts
      → (last_of p pts).0 ≤ d
      → (last_time (p ∷ pts ++ hold_end d (last_of p pts)) ≡ some d)
        × IsOrdered s (p ∷ pts ++ hold_end d (last_of p pts))
  unfolding hold_end
  hold_end_frame d s p pts h o k = elim (Bool-cases (ltb (last_of p pts).0 d)) [
    | inl e ↦ rw e (
      last_time-append (p ∷ pts) (d, (last_of p pts).1),
      append-IsOrdered s p pts (d, (last_of p pts).1) h o k,
    )
    | inr e ↦
        rw (e, append-nil) (last_time_of p pts ∙ ap some (omega (arith, ltb→le _ _ e)), (h, o))
  ]

  last_of-append : (q p : ℕ × V) (xs ys : List (ℕ × V)) → last_of q (xs ++ p ∷ ys) ≡ last_of p ys
  unfolding last_of
  last_of-append q p [] ys = refl
  last_of-append q p (x ∷ xs) ys = last_of-append x p xs ys

  hold_end-last :
      (d : ℕ) (q p : ℕ × V) (pts : List (ℕ × V))
      → last_of q pts ≡ p
      → (last_of q (pts ++ hold_end d p)).1 ≡ p.1
  unfolding hold_end last_of
  hold_end-last d q p pts e = elim (Bool-cases (ltb p.0 d)) [
    | inl h ↦ rw (h, last_of-append q (d, p.1) pts []) refl
    | inr h ↦ rw (h, append-nil pts) (ap (λ x. x.1) e)
  ]

  -- A padded rule shows at its two ends what the rule shows at its own.
  pub held_ends :
      (d : ℕ) (p : ℕ × V) (pts : List (ℕ × V))
      → (q : ℕ × V) × (qs : List (ℕ × V)) × (held d p pts ≡ q ∷ qs)
        × (q.1 ≡ p.1)
        × ((last_of q qs).1 ≡ (last_of p pts).1)
  unfolding held hold_start last_of
  held_ends d p pts =
      let ends = hold_end-last d p (last_of p pts) pts refl in
      elim (Bool-cases (ltb 0 p.0)) [
        | inl h ↦ ((0, p.1), p ∷ pts ++ hold_end d (last_of p pts), rw h refl, refl, ends)
        | inr h ↦ (p, pts ++ hold_end d (last_of p pts), rw h refl, refl, ends)
      ]

  -- Keyframes in order of time, none past the loop's end `d`, are padded without an error: the result
  -- begins at 0, ends at `d` and is in order.
  pub padded_frame :
      (d : ℕ) (p : ℕ × V) (pts : List (ℕ × V))
      → IsOrdered 0 (p ∷ pts)
      → (last_of p pts).0 ≤ d
      → (padded d (p ∷ pts) ≡ ok (held d p pts))
        × (first_time (held d p pts) ≡ some 0)
        × (last_time (held d p pts) ≡ some d)
        × IsOrdered 0 (held d p pts)
  unfolding padded held hold_start last_time
  padded_frame d p pts o k =
      let (l, f) = hold_end_frame d 0 p pts o.0 o.1 k in
      (
        rw (le→leb _ _ k),
        elim (Bool-cases (ltb 0 p.0)) [
          | inl e ↦ rw e refl
          | inr e ↦ rw e (ap some (omega (arith, ltb→le _ _ e)))
        ],
        elim (Bool-cases (ltb 0 p.0)) [ inl e ↦ rw e l | inr e ↦ rw e l ],
        elim (Bool-cases (ltb 0 p.0)) [ inl e ↦ rw e (omega arith, f) | inr e ↦ rw e f ],
      )
