-- ===== src/Base/Lists.antt =====
-- Lists measured by native numbers, sets of numbers as lists, and the lemmas on both.
use Prim.Native.Nat.{◌≤◌, ℕ, zero, suc, ◌+◌, ◌<◌}
use mathlib.Core.Path.{◌≡◌, refl, ap}
use mathlib.Core.Bool.{Bool, true, false, ◌&&◌, ◌||◌, not}
use mathlib.Core.List.{List, [], ◌∷◌, ◌++◌}
use mathlib.Core.Option.{Option, none, some}
use native.Mathlib.Omega.{arith}
use redisq.Base.Tests.{◌==◌, if◌then◌else◌}

module _ {ℓ} {A : Type ℓ} where
  abbrev pub length : List A → ℕ
  length [] = 0
  length (x ∷ xs) = suc (length xs)

  abbrev pub get_elem? : List A → ℕ → Option A
  get_elem? [] i = none
  get_elem? (x ∷ xs) zero = some x
  get_elem? (x ∷ xs) (suc i) = get_elem? xs i

  abbrev pub set : List A → ℕ → A → List A
  set [] i v = []
  set (x ∷ xs) zero v = v ∷ xs
  set (x ∷ xs) (suc i) v = x ∷ set xs i v

  abbrev pub take : ℕ → List A → List A
  take zero xs = []
  take (suc n) [] = []
  take (suc n) (x ∷ xs) = x ∷ take n xs

  abbrev pub drop : ℕ → List A → List A
  drop zero xs = xs
  drop (suc n) [] = []
  drop (suc n) (x ∷ xs) = drop n xs

  abbrev pub select : (A → Bool) → List A → List A
  select p [] = []
  select p (x ∷ xs) = let rest = select p xs in if p x then x ∷ rest else rest

  abbrev pub any : (A → Bool) → List A → Bool
  any p [] = false
  any p (x ∷ xs) = p x || any p xs

  abbrev pub all : (A → Bool) → List A → Bool
  all p [] = true
  all p (x ∷ xs) = p x && all p xs

  pub length-append : (xs ys : List A) → length (xs ++ ys) ≡ length xs + length ys
  length-append [] ys = omega arith
  length-append (x ∷ xs) ys = omega (arith, length-append xs ys)

  pub append-cons : (xs : List A) (y : A) (ys : List A) → (xs ++ y ∷ []) ++ ys ≡ xs ++ (y ∷ ys)
  append-cons [] y ys = refl
  append-cons (x ∷ xs) y ys = ap (◌∷◌ x) (append-cons xs y ys)

-- How often a number occurs.
abbrev pub count : ℕ → List ℕ → ℕ
count n [] = 0
count n (m ∷ rest) = let here = if m == n then 1 else 0 in here + count n rest

pub count-append :
    (n : ℕ) (front back : List ℕ) → count n (front ++ back) ≡ count n front + count n back
count-append n [] back = omega arith
count-append n (m ∷ front) back = omega (arith, count-append n front back)

abbrev pub elem : ℕ → List ℕ → Bool
elem a [] = false
elem a (x ∷ xs) = x == a || elem a xs

unfoldable pub add : ℕ → List ℕ → List ℕ
add a s = if elem a s then s else a ∷ s

unfoldable pub discard : ℕ → List ℕ → List ℕ
discard a s = select (λ x. not (x == a)) s

pub elem-add : (a b : ℕ) (s : List ℕ) → elem a (add b s) ≡ (b == a || elem a s)
unfolding add
elem-add a b s = ground (arith, elem_eq a b s)
  where
    elem_eq : (a b : ℕ) (s : List ℕ) → elem b s ≡ true → b ≡ a → elem a s ≡ true
    elem_eq a b s h e = ground arith

pub elem-select : (a : ℕ) (p : ℕ → Bool) (s : List ℕ) → elem a (select p s) ≡ (p a && elem a s)
elem-select a p [] = ground arith
elem-select a p (x ∷ s) = ground (arith, elem-select a p s)

pub elem-discard : (a b : ℕ) (s : List ℕ) → elem a (discard b s) ≡ (not (a == b) && elem a s)
unfolding discard
elem-discard a b s = elem-select a (λ x. not (x == b)) s

pub elem-append : (a : ℕ) (s t : List ℕ) → elem a (s ++ t) ≡ (elem a s || elem a t)
elem-append a [] t = refl
elem-append a (x ∷ s) t = ground (arith, elem-append a s t)

pub elem-count : (a : ℕ) (s : List ℕ) → elem a s ≡ true → 0 < count a s
elem-count a (x ∷ s) h = ground (arith, elem-count a s)
elem-count a [] h = cc

length-discard : (c : ℕ) (s : List ℕ) → length (discard c s) ≤ length s
unfolding discard
length-discard c [] = omega arith
length-discard c (x ∷ s) = ground (arith, length-discard c s)

pub length-discard-elem :
    (c : ℕ) (s : List ℕ) → elem c s ≡ true → length (discard c s) + 1 ≤ length s
unfolding discard
length-discard-elem c [] h = cc
length-discard-elem c (x ∷ s) h = ground (arith, length-discard-elem c s, length-discard c s)
