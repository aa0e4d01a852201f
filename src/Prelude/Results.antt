-- ===== src/Prelude/Results.antt =====
-- A call that returns or raises: the value, or what was raised.
use mathlib.Core.Path.{◌≡◌, refl}
use mathlib.Core.Bool.{Bool, true, false}
use mathlib.Core.Logic.{◌⊎◌, inl, inr}
use mathlib.Core.Option.{Option, none, some}

pub data Result {ℓ κ} (Raised : Type κ) (Value : Type ℓ) : Type (ℓ ⊔ κ) where
  err : Raised → Result Raised Value
  ok : Value → Result Raised Value

-- `if not test: raise e` and `if test: raise e`
module _ {ε} {E : Type ε} where
  abbrev pub require : Bool → E → Result E (Unit {0})
  require test e = elim test [ true ↦ ok tt | false ↦ err e ]

  abbrev pub refuse : Bool → E → Result E (Unit {0})
  refuse test e = elim test [ true ↦ err e | false ↦ ok tt ]

module _ {ε ℓ} {E : Type ε} {A : Type ℓ} where
  -- A value that must not be `None`.
  abbrev pub or_raise : Option A → E → Result E A
  or_raise none e = err e
  or_raise (some x) e = ok x

  -- `except E as exc: raise f(exc)`
  abbrev pub map_err {φ} : {F : Type φ} → (E → F) → Result E A → Result F A
  map_err f (err e) = err (f e)
  map_err f (ok x) = ok x

  -- What a call does after another has returned; what the first raised ends both.
  infixl 5 ◌>>=◌
  abbrev pub ◌>>=◌ {μ} : {B : Type μ} → Result E A → (A → Result E B) → Result E B
  err raised >>= next = err raised
  ok value >>= next = next value

  pub Result-cases : (r : Result E A) → ((x : A) × (r ≡ ok x)) ⊎ ((e : E) × (r ≡ err e))
  Result-cases (err e) = inr (e, refl)
  Result-cases (ok x) = inl (x, refl)

  pub ok-injective : {x y : A} → ◌≡◌ {A = Result E A} (ok x) (ok y) → x ≡ y
  ok-injective same = cc

  -- Two calls in a row have returned only if each has.
  pub >>=-eq-ok {μ} :
      {B : Type μ} (first : Result E A) (next : A → Result E B) {y : B}
      → (first >>= next) ≡ ok y
      → (x : A) × (first ≡ ok x) × (next x ≡ ok y)
  >>=-eq-ok (err raised) next returned = cc
  >>=-eq-ok (ok value) next returned = (value, refl, returned)

infixl 5 ◌>>◌
abbrev pub ◌>>◌ {ε ℓ} : {E : Type ε} {B : Type ℓ} → Result E (Unit {0}) → Result E B → Result E B
check >> rest = check >>= λ _. rest

pub refuse-eq-ok {ε ℓ} :
    {E : Type ε} {A : Type ℓ} (test : Bool) (e : E) (rest : Result E A) {x : A}
    → (refuse test e >> rest) ≡ ok x
    → (test ≡ false) × (rest ≡ ok x)
refuse-eq-ok true e rest returned = absurd (cc)
refuse-eq-ok false e rest returned = (refl, returned)
