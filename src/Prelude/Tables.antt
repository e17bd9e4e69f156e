-- ===== src/Prelude/Tables.antt =====
-- A database table as the list of its rows: the SQL forms that the handlers use.
use Prim.Native.Nat.{ℕ, ◌+◌}
use mathlib.Core.Path.{◌≡◌, refl, subst}
use mathlib.Core.Bool.{Bool, true, false}
use mathlib.Core.Logic.{inl, inr}
use mathlib.Core.Option.{Option, none, some}
use mathlib.Core.List.{List, [], ◌∷◌}
use native.Mathlib.Omega.{arith}
use iskan.Prelude.Tests.{if◌then◌else◌, Bool-cases}
use iskan.Prelude.Lists.{All, Member, here, there}

module _ {ℓ} {A : Type ℓ} where
  -- `fetchrow("SELECT … WHERE p")`: the first row that fits
  abbrev pub find? : (A → Bool) → List A → Option A
  find? p [] = none
  find? p (x ∷ xs) = if p x then some x else find? p xs

  -- `fetch("SELECT … WHERE p")`
  abbrev pub select : (A → Bool) → List A → List A
  select p [] = []
  select p (x ∷ xs) = if p x then x ∷ select p xs else select p xs

  -- `execute("UPDATE … SET f WHERE p")`
  abbrev pub update_where : (A → Bool) → (A → A) → List A → List A
  update_where p f [] = []
  update_where p f (x ∷ xs) = (if p x then f x else x) ∷ update_where p f xs

  -- `execute("DELETE … WHERE p")`
  abbrev pub delete_where : (A → Bool) → List A → List A
  delete_where p [] = []
  delete_where p (x ∷ xs) = if p x then delete_where p xs else x ∷ delete_where p xs

  -- `fetchval("SELECT count(*) … WHERE p")`
  abbrev pub count_where : (A → Bool) → List A → ℕ
  count_where p [] = 0
  count_where p (x ∷ xs) = (if p x then 1 else 0) + count_where p xs

module _ {ℓ} {A : Type ℓ} where
  pub find?_holds : (p : A → Bool) (xs : List A) (a : A) → find? p xs ≡ some a → p a ≡ true
  find?_holds p [] a h = cc
  find?_holds p (x ∷ xs) a h = elim (Bool-cases (p x)) [
    | inl e ↦ ground arith
    | inr e ↦ find?_holds p xs a (rw e at h)
  ]

  pub find?-Member : (p : A → Bool) (xs : List A) (a : A) → find? p xs ≡ some a → Member a xs
  find?-Member p [] a h = cc
  find?-Member p (x ∷ xs) a h = elim (Bool-cases (p x)) [
    | inl e ↦ here (ground arith)
    | inr e ↦ there (find?-Member p xs a (rw e at h))
  ]

module _ {ℓ κ} {A : Type ℓ} (P : A → Type κ) where
  -- What every row has, and what the update keeps or gives, every row has afterwards.
  pub update_where-All :
      (p : A → Bool) (f : A → A) (xs : List A)
      → ((x : A) → P x → p x ≡ true → P (f x))
      → All P xs
      → All P (update_where p f xs)
  update_where-All p f [] keep h = tt
  update_where-All p f (x ∷ xs) keep h = elim (Bool-cases (p x)) [
    | inl e ↦ rw e (keep x h.0 e, update_where-All p f xs keep h.1)
    | inr e ↦ rw e (h.0, update_where-All p f xs keep h.1)
  ]

  pub delete_where-All : (p : A → Bool) (xs : List A) → All P xs → All P (delete_where p xs)
  delete_where-All p [] h = tt
  delete_where-All p (x ∷ xs) h = elim (Bool-cases (p x)) [
    | inl e ↦ rw e (delete_where-All p xs h.1)
    | inr e ↦ rw e (h.0, delete_where-All p xs h.1)
  ]

  pub Member-All : {a : A} {xs : List A} → All P xs → Member a xs → P a
  Member-All h (here e) = subst P e h.0
  Member-All h (there m) = Member-All h.1 m

module _ {ℓ} {A : Type ℓ} (p q : A → Bool) (f : A → A) where
  -- An update that does not touch what a test reads is seen behind the test.
  pub find?-update_where :
      ((x : A) → p (f x) ≡ p x)
      → (xs : List A) {a : A} → find? p xs ≡ some a
      → find? p (update_where q f xs) ≡ some (if q a then f a else a)
  find?-update_where same [] h = cc
  find?-update_where same (x ∷ xs) h = elim (Bool-cases (p x)) [
    | inl e ↦ ground (arith, same x)
    | inr e ↦ ground (arith, same x, find?-update_where same xs (rw e at h))
  ]

  -- An update that changes nothing the second time.
  pub update_where-again :
      ((x : A) → q (f x) ≡ q x)
      → ((x : A) → f (f x) ≡ f x)
      → (xs : List A) → update_where q f (update_where q f xs) ≡ update_where q f xs
  update_where-again same again [] = refl
  update_where-again same again (x ∷ xs) =
      ground (arith, same x, again x, update_where-again same again xs)

  -- An update of rows that a test leaves out, to rows that it leaves out, is not seen by it.
  pub select-update_where :
      (xs : List A)
      → All (λ x. q x ≡ true → p x ≡ false) xs
      → ((x : A) → p (f x) ≡ false)
      → select p (update_where q f xs) ≡ select p xs
  select-update_where [] h out = refl
  select-update_where (x ∷ xs) h out = ground (arith, h.0, out x, select-update_where xs h.1 out)

  -- If an update makes its rows fit a test that no other row fits, the first of them is found.
  pub find?-update_where_new :
      (xs : List A)
      → ((x : A) → q x ≡ true → p (f x) ≡ true)
      → All (λ x. q x ≡ false → p x ≡ false) xs
      → {a : A} → find? q xs ≡ some a
      → find? p (update_where q f xs) ≡ some (f a)
  find?-update_where_new [] fits others h = cc
  find?-update_where_new (x ∷ xs) fits others h = elim (Bool-cases (q x)) [
    | inl hit ↦ ground (arith, hit, fits x hit, h)
    | inr miss ↦
        ground (arith, miss, others.0 miss, find?-update_where_new xs fits others.1 (rw miss at h))
  ]

  -- If it leaves its rows unfit, and no other row fits, none is found.
  pub find?-update_where-none :
      (xs : List A)
      → ((x : A) → q x ≡ true → p (f x) ≡ false)
      → All (λ x. q x ≡ false → p x ≡ false) xs
      → find? p (update_where q f xs) ≡ none
  find?-update_where-none [] drops others = refl
  find?-update_where-none (x ∷ xs) drops others = elim (Bool-cases (q x)) [
    | inl hit ↦ ground (arith, hit, drops x hit, find?-update_where-none xs drops others.1)
    | inr miss ↦ ground (arith, miss, others.0 miss, find?-update_where-none xs drops others.1)
  ]
