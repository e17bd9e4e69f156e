-- ===== src/Http.antt =====
-- What the handlers share: exceptions, the requests' errors and the step of a handler over its
-- tables (FastAPI's HTTPException, `conn.transaction()`).
pub mod Errors
use iskan.Prelude.{
  ◌≡◌, refl, ◌⊎◌, inl, inr, ℕ, String, Bool, true, false, Option, none, some, ⊤, if◌then◌else◌,
}
use iskan.Http.Errors.{Error, http, Result, ok, err}

-- A statement sequence over the state `S`. What was written before a raise stays written: each
-- statement commits by itself unless it stands in a transaction.
abbrev pub Action : Type 0 → Type 0 → Type 0
Action S A = S → Result A × S

module _ {S A : Type 0} where
  abbrev pub pure : A → Action S A
  pure a s = (ok a, s)

  abbrev pub raise : Error → Action S A
  raise e s = (err e, s)

  abbrev pub gets : (S → A) → Action S A
  gets f s = (ok (f s), s)

  -- `None` is refused with the error
  abbrev pub or_raise : Option A → Error → Action S A
  or_raise none e s = (err e, s)
  or_raise (some a) e s = (ok a, s)

  -- a call of a function without effects that may raise
  abbrev pub lift : Result A → Action S A
  lift r s = (r, s)

  -- `async with conn.transaction()`: a raise restores the tables.
  abbrev pub transaction : Action S A → Action S A
  transaction m s = let (r, s') = m s in elim r [ ok a ↦ (ok a, s') | err e ↦ (err e, s) ]

infixl 5 ◌>>=◌ ◌>>◌
abbrev pub ◌>>=◌ : {S A B : Type 0} → Action S A → (A → Action S B) → Action S B
◌>>=◌ m f s = let (r, s') = m s in elim r [ ok a ↦ f a s' | err e ↦ (err e, s') ]

abbrev pub ◌>>◌ : {S A B : Type 0} → Action S A → Action S B → Action S B
m >> k = m >>= λ _. k

abbrev pub modify : {S : Type 0} → (S → S) → Action S ⊤
modify f s = (ok tt, f s)

-- `if c: raise e`
abbrev pub raise_if : {S : Type 0} → Bool → Error → Action S ⊤
raise_if c e s = (if c then err e else ok tt, s)

-- `if c: m`
abbrev pub when : {S : Type 0} → Bool → Action S ⊤ → Action S ⊤
when c m s = if c then m s else (ok tt, s)

-- how a statement sequence ended
pub outcome :
    {S A : Type 0} (x : Result A × S)
    → ((a : A) × (s : S) × (x ≡ (ok a, s))) ⊎ ((e : Error) × (s : S) × (x ≡ (err e, s)))
outcome (ok a, s) = inl (a, s, refl)
outcome (err e, s) = inr (e, s, refl)

-- What holds of a sequence holds after its first part, however that ended.
module _ {ℓ} {S A B : Type 0} (P : Result B × S → Type ℓ) (m : Action S A)
    (f : A → Action S B) where
  pub >>=-elim :
      (s : S)
      → ((a : A) (s' : S) → m s ≡ (ok a, s') → P (f a s'))
      → ((e : Error) (s' : S) → m s ≡ (err e, s') → P (err e, s'))
      → P ((m >>= f) s)
  >>=-elim s good bad = go (m s) refl
    where
      go : (x : Result A × S) → m s ≡ x → P (elim x.0 [ ok a ↦ f a x.1 | err e ↦ (err e, x.1) ])
      go (ok a, s') e = good a s' e
      go (err e', s') e = bad e' s' e
