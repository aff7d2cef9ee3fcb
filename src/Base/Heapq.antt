-- ===== src/Base/Heapq.antt =====
-- `heapq` over entries `(t, seq, event)`: a list in order of time, then of sequence number. The numbers
-- never repeat, so the events themselves are never compared.
use Prim.Native.Nat.{ℕ}
use Prim.Native.Nat.{◌+◌}
use mathlib.Core.Path.{◌≡◌, refl}
use native.Mathlib.Omega.{arith}
use mathlib.Core.Bool.{Bool, ◌&&◌, ◌||◌}
use mathlib.Core.List.{List, [], ◌∷◌}
use redisq.Base.Sort.{total}
use redisq.Base.Tests.{ltb, leb, ◌==◌, if◌then◌else◌}

pub record Entry {ℓ} (E : Type ℓ) : Type ℓ where
  pub time : ℕ
  pub order : ℕ
  pub event : E

abbrev pub before {ℓ} : {E : Type ℓ} → Entry E → Entry E → Bool
before x y = ltb x.time y.time || x.time == y.time && leb x.order y.order

unfoldable pub heappush {ℓ} : {E : Type ℓ} → Entry E → List (Entry E) → List (Entry E)
heappush x [] = x ∷ []
heappush x (y ∷ ys) = if before x y then x ∷ y ∷ ys else y ∷ heappush x ys

-- A sum over the entries does not see where one was pushed.
pub total-heappush {ℓ} :
    {E : Type ℓ} (f : Entry E → ℕ) (x : Entry E) (ys : List (Entry E))
    → total f (heappush x ys) ≡ f x + total f ys
unfolding heappush
total-heappush f x [] = refl
total-heappush f x (y ∷ ys) = ground (arith, total-heappush f x ys)
