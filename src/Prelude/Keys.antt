-- ===== src/Prelude/Keys.antt =====
-- Rows that are members of a table, and tables with a primary key.
use Prim.Native.Nat.{ℕ}
use mathlib.Core.Path.{◌≡◌, sym, subst}
use mathlib.Core.Bool.{Bool, true, false}
use mathlib.Core.Logic.{◌⊎◌, inl, inr}
use mathlib.Core.Option.{none, some}
use mathlib.Core.List.{List, [], ◌∷◌}
use native.Mathlib.Omega.{arith}
use iskan.Prelude.Tests.{◌==◌, ==_iff, ==_refl, Bool-cases}
use iskan.Prelude.Lists.{any, Member, here, there}
use iskan.Prelude.Tables.{find?, select, delete_where}

pub Member-cons {ℓ} :
    {A : Type ℓ} {a x : A} {xs : List A} → Member a (x ∷ xs) → (x ≡ a) ⊎ Member a xs
Member-cons (here e) = inl e
Member-cons (there m) = inr m

module _ {ℓ} {A : Type ℓ} (q : A → Bool) where
  pub Member-delete_where :
      {a : A} (xs : List A) → Member a (delete_where q xs) → Member a xs × (q a ≡ false)
  Member-delete_where [] m = elim m [ ]
  Member-delete_where (x ∷ xs) m = elim (Bool-cases (q x)) [
    | inl hit ↦ let (m', e) = Member-delete_where xs (rw hit at m) in (there m', e)
    | inr miss ↦ elim (Member-cons (rw miss at m)) [
      | inl e ↦ (here e, subst (λ y. q y ≡ false) e miss)
      | inr k ↦ let (m', e) = Member-delete_where xs k in (there m', e)
    ]
  ]

  pub Member-select : {a : A} (xs : List A) → Member a (select q xs) → Member a xs × (q a ≡ true)
  Member-select [] m = elim m [ ]
  Member-select (x ∷ xs) m = elim (Bool-cases (q x)) [
    | inr miss ↦ let (m', e) = Member-select xs (rw miss at m) in (there m', e)
    | inl hit ↦ elim (Member-cons (rw hit at m)) [
      | inl e ↦ (here e, subst (λ y. q y ≡ true) e hit)
      | inr k ↦ let (m', e) = Member-select xs k in (there m', e)
    ]
  ]

  pub any-Member : {a : A} (xs : List A) → Member a xs → q a ≡ true → any q xs ≡ true
  any-Member [] m h = elim m [ ]
  any-Member (x ∷ xs) (here e) h = ground (arith, subst (λ y. q y ≡ true) (sym e) h)
  any-Member (x ∷ xs) (there m) h = ground (arith, any-Member xs m h)

  -- A row that is the first to fit, and is not deleted, is so afterwards.
  pub find?-delete_where :
      (p : A → Bool) (xs : List A) {a : A}
      → find? p xs ≡ some a
      → q a ≡ false
      → find? p (delete_where q xs) ≡ some a
  find?-delete_where p [] h e = cc
  find?-delete_where p (x ∷ xs) {a} h e = elim (Bool-cases (p x)) [
    | inl hit ↦
        let same : x ≡ a = ground (arith, h, hit) in
        ground (arith, subst (λ y. q y ≡ false) (sym same) e, hit, h)
    | inr miss ↦ ground (arith, miss, find?-delete_where p xs (rw miss at h) e)
  ]

  -- A deletion that spares the rows that fit leaves one that fits.
  pub any-delete_where :
      (p : A → Bool) (xs : List A)
      → ((x : A) → p x ≡ true → q x ≡ false)
      → any p xs ≡ true
      → any p (delete_where q xs) ≡ true
  any-delete_where p [] spared h = h
  any-delete_where p (x ∷ xs) spared h = elim (Bool-cases (p x)) [
    | inl hit ↦ ground (arith, hit, spared x hit)
    | inr miss ↦ ground (arith, miss, any-delete_where p xs spared (rw miss at h))
  ]

module _ {ℓ} {A : Type ℓ} (id : A → ℕ) where
  -- Every row is the one that its key finds.
  pub IsKeyed : List A → Type ℓ
  IsKeyed xs = (a : A) → Member a xs → find? (λ x. id x == id a) xs ≡ some a

  pub IsKeyed-insert :
      (a : A) (xs : List A) → find? (λ x. id x == id a) xs ≡ none → IsKeyed xs → IsKeyed (a ∷ xs)
  unfolding IsKeyed
  IsKeyed-insert a xs fresh h b (here e) =
      subst (λ c. find? (λ x. id x == id c) (a ∷ xs) ≡ some c) e (ground (arith, ==_refl (id a)))
  IsKeyed-insert a xs fresh h b (there m) = elim (Bool-cases (id a == id b)) [
    | inr miss ↦ ground (arith, miss, h b m)
    | inl hit ↦ absurd (
        cc (
          subst (λ n. find? (λ x. id x == n) xs ≡ none) ((==_iff (id a) (id b)).0 hit) fresh,
          h b m,
        ))
  ]

  pub IsKeyed-delete_where : (q : A → Bool) (xs : List A) → IsKeyed xs → IsKeyed (delete_where q xs)
  unfolding IsKeyed
  IsKeyed-delete_where q xs h a m =
      let (m', e) = Member-delete_where q xs m in
      find?-delete_where q (λ x. id x == id a) xs (h a m') e

  pub IsKeyed-find? :
      (xs : List A) (a : A) → IsKeyed xs → Member a xs → find? (λ x. id x == id a) xs ≡ some a
  unfolding IsKeyed
  IsKeyed-find? xs a h m = h a m

  pub IsKeyed-nil : IsKeyed []
  unfolding IsKeyed
  IsKeyed-nil a m = elim m [ ]
