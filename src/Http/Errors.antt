-- ===== src/Http/Errors.antt =====
-- Exceptions as values.
use iskan.Prelude.{ℕ, String, Bool, true, false, Option, none, some, ⊤, ◌≡◌, refl, ◌⊎◌, inl, inr}

-- `http` is HTTPException(status, detail); the others carry the message of a Python exception.
pub data Error : Type 0 where
  http : ℕ → String → Error
  token_error : String → Error
  value_error : String → Error
  runtime_error : String → Error

pub data Result {ℓ} (A : Type ℓ) : Type ℓ where
  ok : A → Result A
  err : Error → Result A

infixl 5 ◌>>=◌ ◌>>◌
abbrev pub ◌>>=◌ : {A B : Type 0} → Result A → (A → Result B) → Result B
ok a >>= f = f a
err e >>= f = err e

abbrev pub ◌>>◌ : {A B : Type 0} → Result A → Result B → Result B
m >> k = m >>= λ _. k

abbrev pub raise_if : Bool → Error → Result ⊤
raise_if true e = err e
raise_if false e = ok tt

abbrev pub or_raise : {A : Type 0} → Option A → Error → Result A
or_raise none e = err e
or_raise (some a) e = ok a

pub Result-cases {ℓ} :
    {A : Type ℓ} (r : Result A) → ((a : A) × (r ≡ ok a)) ⊎ ((e : Error) × (r ≡ err e))
Result-cases (ok a) = inl (a, refl)
Result-cases (err e) = inr (e, refl)
