-- ===== src/Base/Dict.antt =====
-- Python's dict as an association list in insertion order: `d[k] = v` replaces the value where the
-- key stands or adds the pair at the end; `del d[k]` and `d.pop(k, None)` drop the pair.
use Prim.Native.Nat.{ℕ, ◌+◌, ◌-◌}
use mathlib.Core.Path.{◌≡◌, refl}
use mathlib.Core.Logic.{◌≢◌, ite}
use mathlib.Core.List.{List, [], ◌∷◌, ◌++◌, map}
use mathlib.Core.Option.{Option, none, some}
use native.Mathlib.Omega.{arith}

abbrev pub keys {ℓ} : {K V : Type ℓ} → List (K × V) → List K
keys = map (λ e. e.0)

abbrev pub values {ℓ} : {K V : Type ℓ} → List (K × V) → List V
values = map (λ e. e.1)

-- How often a key stands in a list of keys.
abbrev pub occurs : {K : Type 0} → Discrete K → K → List K → ℕ
occurs dec k [] = 0
occurs dec k (j ∷ js) = ite (dec j k) 1 0 + occurs dec k js

module _ {K V : Type 0} (dec : Discrete K) where
  unfoldable pub get : K → List (K × V) → Option V
  get k [] = none
  get k ((j, v) ∷ d) = ite (dec j k) (some v) (get k d)

  unfoldable pub insert : K → V → List (K × V) → List (K × V)
  insert k v [] = (k, v) ∷ []
  insert k v ((j, w) ∷ d) = ite (dec j k) ((j, v) ∷ d) ((j, w) ∷ insert k v d)

  unfoldable pub erase : K → List (K × V) → List (K × V)
  erase k [] = []
  erase k ((j, w) ∷ d) = ite (dec j k) d ((j, w) ∷ erase k d)

  pub get-insert :
      (k j : K) (v : V) (d : List (K × V)) → get j (insert k v d) ≡ ite (dec k j) (some v) (get j d)
  unfolding get insert
  get-insert k j v [] = refl
  get-insert k j v ((i, w) ∷ d) = ground (arith, get-insert k j v d)

  pub get-erase_ne : (k j : K) (d : List (K × V)) → k ≢ j → get j (erase k d) ≡ get j d
  unfolding get erase
  get-erase_ne k j [] h = refl
  get-erase_ne k j ((i, w) ∷ d) h = ground (arith, get-erase_ne k j d)

  pub erase_absent : (k : K) (d : List (K × V)) → get k d ≡ none → erase k d ≡ d
  unfolding get erase
  erase_absent k [] h = refl
  erase_absent k ((i, w) ∷ d) h = ground (arith, erase_absent k d)

  pub occurs-erase :
      (k j : K) (d : List (K × V))
      → occurs dec k (keys (erase j d)) ≡ occurs dec k (keys d) - ite (dec j k) 1 0
  unfolding erase
  occurs-erase k j [] = omega arith
  occurs-erase k j ((i, w) ∷ d) = ground (arith, occurs-erase k j d)

  pub occurs-get : (k : K) (d : List (K × V)) → occurs dec k (keys d) ≡ 0 → get k d ≡ none
  unfolding get
  occurs-get k [] h = refl
  occurs-get k ((i, w) ∷ d) h = ground (arith, occurs-get k d)

  pub insert_new :
      (k : K) (v : V) (d : List (K × V)) → get k d ≡ none → insert k v d ≡ d ++ (k, v) ∷ []
  unfolding get insert
  insert_new k v [] h = refl
  insert_new k v ((i, w) ∷ d) h = ground (arith, insert_new k v d)
