-- ===== src/Base/Sort.antt =====
-- `sorted(xs)`: a stable insertion sort by a test that stands for the order of the items.
use Prim.Native.Nat.{ℕ, ◌+◌, ◌≤◌}
use mathlib.Core.Logic.{inl, inr}
use mathlib.Core.Path.{◌≡◌, refl, sym, ap, ◌∙◌}
use mathlib.Core.Bool.{Bool, true, false}
use mathlib.Core.List.{List, [], ◌∷◌}
use native.Mathlib.Omega.{arith}
use redisq.Base.Tests.{if◌then◌else◌, ltb, leb, ◌==◌, Bool-cases}
use redisq.Base.Lists.{any, elem}

-- A sum over the items does not see their order.
abbrev pub total {ℓ} : {A : Type ℓ} → (A → ℕ) → List A → ℕ
total f [] = 0
total f (x ∷ xs) = f x + total f xs

module _ {ℓ} {A : Type ℓ} (le : A → A → Bool) where
  unfoldable pub insert_sorted : A → List A → List A
  insert_sorted a [] = a ∷ []
  insert_sorted a (x ∷ xs) = if le a x then a ∷ x ∷ xs else x ∷ insert_sorted a xs

  unfoldable pub sorted : List A → List A
  unfolding insert_sorted
  sorted [] = []
  sorted (x ∷ xs) = insert_sorted x (sorted xs)

  total-insert_sorted :
      (f : A → ℕ) (a : A) (xs : List A) → total f (insert_sorted a xs) ≡ f a + total f xs
  unfolding insert_sorted
  total-insert_sorted f a [] = refl
  total-insert_sorted f a (x ∷ xs) = ground (arith, total-insert_sorted f a xs)

  pub total-sorted : (f : A → ℕ) (xs : List A) → total f (sorted xs) ≡ total f xs
  unfolding sorted
  total-sorted f [] = refl
  total-sorted f (x ∷ xs) = omega (arith, total-insert_sorted f x (sorted xs), total-sorted f xs)

-- A test does not see the order of the items.
any-total {ℓ} :
    {A : Type ℓ} (p : A → Bool) (xs : List A)
    → any p xs ≡ ltb 0 (total (λ x. if p x then 1 else 0) xs)
any-total p [] = ground arith
any-total p (x ∷ xs) = ground (arith, any-total p xs)

pub any-sorted {ℓ} :
    {A : Type ℓ} (le : A → A → Bool) (p : A → Bool) (xs : List A) → any p (sorted le xs) ≡ any p xs
any-sorted le p xs =
    any-total p (sorted le xs) ∙ ap (ltb 0) (total-sorted le _ xs) ∙ sym (any-total p xs)

-- Keys in order, from a lower bound on.
abbrev pub IsOrderedBy {ℓ} : {A : Type ℓ} → (A → ℕ) → ℕ → List A → Type 0
IsOrderedBy key t [] = Unit {0}
IsOrderedBy key t (x ∷ xs) = (t ≤ key x) × IsOrderedBy key (key x) xs

-- An order test that agrees with the keys.
module _ {ℓ} {A : Type ℓ} (le : A → A → Bool) (key : A → ℕ)
    (below : (a b : A) → le a b ≡ true → key a ≤ key b)
    (above : (a b : A) → le a b ≡ false → key b ≤ key a) where
  insert-IsOrderedBy :
      (s : ℕ) (a : A) (xs : List A)
      → s ≤ key a
      → IsOrderedBy key s xs
      → IsOrderedBy key s (insert_sorted le a xs)
  unfolding insert_sorted
  insert-IsOrderedBy s a [] h o = (h, tt)
  insert-IsOrderedBy s a (x ∷ xs) h o = elim (Bool-cases (le a x)) [
    | inl e ↦ rw e (h, (below a x e, o.1))
    | inr e ↦ rw e (o.0, insert-IsOrderedBy (key x) a xs (above a x e) o.1)
  ]

  pub sorted-IsOrderedBy : (xs : List A) → IsOrderedBy key 0 (sorted le xs)
  unfolding sorted
  sorted-IsOrderedBy [] = tt
  sorted-IsOrderedBy (x ∷ xs) =
      insert-IsOrderedBy 0 x (sorted le xs) (omega arith) (sorted-IsOrderedBy xs)

pub IsOrderedBy-weaken {ℓ} :
    {A : Type ℓ} (key : A → ℕ) (s t : ℕ) (xs : List A)
    → s ≤ t
    → IsOrderedBy key t xs
    → IsOrderedBy key s xs
IsOrderedBy-weaken key s t [] h o = tt
IsOrderedBy-weaken key s t (x ∷ xs) h o = (omega arith, o.1)

count_elem : (m : ℕ) (xs : List ℕ) → elem m xs ≡ ltb 0 (total (λ x. if x == m then 1 else 0) xs)
count_elem m [] = ground arith
count_elem m (x ∷ xs) = ground (arith, count_elem m xs)

pub elem-sorted : (m : ℕ) (xs : List ℕ) → elem m (sorted leb xs) ≡ elem m xs
elem-sorted m xs =
    count_elem m (sorted leb xs) ∙ ap (ltb 0) (total-sorted leb _ xs) ∙ sym (count_elem m xs)
