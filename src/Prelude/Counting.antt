-- ===== src/Prelude/Counting.antt =====
-- How many rows fit a test, before and after a statement.
use Prim.Native.Nat.{◌+◌, ◌≤◌}
use mathlib.Core.Path.{◌≡◌, refl, sym, subst}
use mathlib.Core.Bool.{Bool, true, false}
use mathlib.Core.Logic.{inl, inr}
use mathlib.Core.Option.{some}
use mathlib.Core.List.{List, [], ◌∷◌}
use native.Mathlib.Omega.{arith}
use iskan.Prelude.Lists.{Member, here, there}
use iskan.Prelude.Tests.{Bool-cases}
use iskan.Prelude.Tables.{find?, update_where, delete_where, count_where}

module _ {ℓ} {A : Type ℓ} (p q : A → Bool) (f : A → A) where
  -- An update that makes no row fit makes the count no larger.
  pub count_where-update_le :
      ((x : A) → q x ≡ true → p (f x) ≡ true → p x ≡ true)
      → (xs : List A) → count_where p (update_where q f xs) ≤ count_where p xs
  count_where-update_le keep [] = omega arith
  count_where-update_le keep (x ∷ xs) = ground (arith, count_where-update_le keep xs, keep x)

  -- One that makes every row it touches unfit, and touches a fit one, makes it smaller.
  pub count_where-update_lt :
      ((x : A) → q x ≡ true → p (f x) ≡ false)
      → (xs : List A) {a : A} → find? q xs ≡ some a
      → p a ≡ true
      → count_where p (update_where q f xs) + 1 ≤ count_where p xs
  count_where-update_lt drop [] h e = cc
  count_where-update_lt drop (x ∷ xs) h e = elim (Bool-cases (q x)) [
    | inl hit ↦ ground (arith, drop x hit, count_where-update_le (λ y u v. absurd (clash y u v)) xs)
    | inr later ↦ ground (arith, count_where-update_lt drop xs (rw later at h) e)
  ]
    where
      clash : (y : A) → q y ≡ true → p (f y) ≡ true → ⊥
      clash y u v = cc (drop y u, v)

  -- An update of all the rows of a kind leaves none that fit.
  pub count_where-update_none :
      ((x : A) → q x ≡ true → p (f x) ≡ false)
      → ((x : A) → q x ≡ false → p x ≡ false)
      → (xs : List A) → count_where p (update_where q f xs) ≡ 0
  count_where-update_none drop rest [] = omega arith
  count_where-update_none drop rest (x ∷ xs) =
      ground (arith, drop x, rest x, count_where-update_none drop rest xs)

  -- A fit row is counted.
  pub count_where-find? :
      (xs : List A) {a : A} → find? q xs ≡ some a → p a ≡ true → 1 ≤ count_where p xs
  count_where-find? [] h e = cc
  count_where-find? (x ∷ xs) h e = elim (Bool-cases (q x)) [
    | inl hit ↦ ground arith
    | inr later ↦ ground (arith, count_where-find? xs (rw later at h) e)
  ]

  -- An update that keeps whether a row fits keeps the count.
  pub count_where-update :
      ((x : A) → q x ≡ true → p (f x) ≡ p x)
      → (xs : List A) → count_where p (update_where q f xs) ≡ count_where p xs
  count_where-update same [] = refl
  count_where-update same (x ∷ xs) = ground (arith, same x, count_where-update same xs)

module _ {ℓ} {A : Type ℓ} (p q : A → Bool) where
  -- A test that fits less counts less.
  pub count_where-le :
      ((x : A) → q x ≡ true → p x ≡ true) → (xs : List A) → count_where q xs ≤ count_where p xs
  count_where-le less [] = omega arith
  count_where-le less (x ∷ xs) = ground (arith, less x, count_where-le less xs)

  pub count_where-lt :
      ((x : A) → q x ≡ true → p x ≡ true)
      → (xs : List A) {a : A} → Member a xs
      → p a ≡ true
      → q a ≡ false
      → count_where q xs + 1 ≤ count_where p xs
  count_where-lt less [] m e f = elim m [ ]
  count_where-lt less (x ∷ xs) (here same) e f = ground (
    arith,
    subst (λ y. p y ≡ true) (sym same) e,
    subst (λ y. q y ≡ false) (sym same) f,
    count_where-le less xs,
  )
  count_where-lt less (x ∷ xs) (there m) e f = ground (arith, less x, count_where-lt less xs m e f)

  pub count_where-delete_le : (xs : List A) → count_where p (delete_where q xs) ≤ count_where p xs
  count_where-delete_le [] = omega arith
  count_where-delete_le (x ∷ xs) = ground (arith, count_where-delete_le xs)
