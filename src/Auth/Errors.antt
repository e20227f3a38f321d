-- ===== src/Auth/Errors.antt =====
-- `ValidationError` of internal/auth/jwt.go, and the result of a step that may end in one.
use api_gateway_go.Base.{ℕ, ◌≡◌, refl, ◌⊎◌, inl, inr, Option, none, String}

-- The wrapped error is left out; of the details, only an expired token's carry anything.
pub record ValidationError : Type 0 where
  pub code : String
  pub message : String
  pub expired_at : Option ℕ

abbrev pub error_of : String → String → ValidationError
error_of code message = record { code = code; message = message; expired_at = none }

pub data Result (A : Type 0) : Type 0 where
  ok : A → Result A
  err : ValidationError → Result A

infixl 5 ◌>>=◌ ◌>>◌
abbrev pub ◌>>=◌ : {A B : Type 0} → Result A → (A → Result B) → Result B
ok a >>= f = f a
err e >>= f = err e

abbrev pub ◌>>◌ : {B : Type 0} → Result (Unit {0}) → Result B → Result B
m >> k = m >>= λ _. k

pub Result-cases :
    {A : Type 0} (r : Result A) → ((a : A) × (r ≡ ok a)) ⊎ ((e : ValidationError) × (r ≡ err e))
Result-cases (ok a) = inl (a, refl)
Result-cases (err e) = inr (e, refl)
