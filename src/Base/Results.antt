-- ===== src/Base/Results.antt =====
-- The exceptions that the generators raise, and what a call that may raise returns.
use mathlib.Core.Bool.{Bool, true, false}
use mathlib.Core.Option.{Option, none, some}
use mathlib.Core.Logic.{◌⊎◌, inl, inr}
use mathlib.Core.Path.{◌≡◌, refl}

pub data Error : Type 0 where
  assertion_error key_error index_error value_error type_error stop_iteration : Error

-- What a call gives back: an exception, or the value.
pub data Result {ℓ} (A : Type ℓ) : Type ℓ where
  raise : Error → Result A
  ok : A → Result A

-- `assert b`, and a look-up that raises when it finds nothing.
abbrev pub assert : Bool → Result (Unit {0})
assert false = raise assertion_error
assert true = ok tt

abbrev pub or_raise {ℓ} : {A : Type ℓ} → Error → Option A → Result A
or_raise e (some a) = ok a
or_raise e none = raise e

infixl 5 ◌>>◌
module _ {ℓ κ} {V : Type ℓ} {W : Type κ} where
  infixl 5 ◌>>=◌
  -- An exception skips what follows.
  abbrev pub ◌>>=◌ : Result V → (V → Result W) → Result W
  raise exception >>= next = raise exception
  ok value >>= next = next value

  pub >>=-eq-ok :
      (call : Result V) (next : V → Result W) {w : W}
      → (call >>= next) ≡ ok w
      → (v : V) × (call ≡ ok v) × (next v ≡ ok w)
  >>=-eq-ok (raise exception) next g = cc
  >>=-eq-ok (ok value) next g = (value, refl, g)

-- What follows an assertion.
abbrev pub ◌>>◌ {ℓ} : {W : Type ℓ} → Result (Unit {0}) → Result W → Result W
checked >> after = checked >>= λ nothing. after

-- To split on a call and keep the equation.
pub Result-cases {ℓ} :
    {V : Type ℓ} (call : Result V) → ((e : Error) × (call ≡ raise e)) ⊎ ((v : V) × (call ≡ ok v))
Result-cases (raise e) = inl (e, refl)
Result-cases (ok v) = inr (v, refl)
