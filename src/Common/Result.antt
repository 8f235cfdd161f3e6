-- ===== src/Common/Result.antt =====
-- Go's `(value, error)` pairs. The constructors of Error are the sentinel errors that the sources wrap
-- with `%w`; `failed` is any other error, such as a row that `QueryRow` does not find.
use mathlib.Core.Path.{◌≡◌, refl}
use mathlib.Core.Logic.{◌⊎◌, inl, inr}

pub data Error : Type 0 where
  invalid_input not_found conflict target_archived failed : Error
  already_initialized invalid_credentials invalid_session : Error

pub data Result {ℓ} (Value : Type ℓ) : Type ℓ where
  err : Error → Result Value
  ok : Value → Result Value

module _ {ℓ κ} {First : Type ℓ} {Second : Type κ} where
  infixl 5 ◌>>=◌
  -- `if err != nil { return err }` between two calls.
  abbrev pub ◌>>=◌ : Result First → (First → Result Second) → Result Second
  err failure >>= next = err failure
  ok value >>= next = next value

  -- Two calls in a row succeed where both do.
  pub >>=-eq-ok :
      (call : Result First) (next : First → Result Second) {end : Second}
      → (call >>= next) ≡ ok end
      → (value : First) × (call ≡ ok value) × (next value ≡ ok end)
  >>=-eq-ok (err failure) next h = cc
  >>=-eq-ok (ok value) next h = (value, refl, h)

pub ok_eq {ℓ} : {Value : Type ℓ} {a b : Value} → ok a ≡ ok b → a ≡ b
ok_eq e = cc

pub Result-cases {ℓ} :
    {Value : Type ℓ} (r : Result Value)
    → ((e : Error) × (r ≡ err e)) ⊎ ((value : Value) × (r ≡ ok value))
Result-cases (err e) = inl (e, refl)
Result-cases (ok value) = inr (value, refl)
