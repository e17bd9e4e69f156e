-- ===== src/Auth/Scope/Departments.antt =====
-- The recursive query of `visible_employee_ids` finds the departments beneath the user's, and no other.
use iskan.Prelude.{
  ℕ, zero, suc, ◌+◌, ◌≤◌, ◌≡◌, refl, sym, subst, find?, Option-cases, count_where-lt, ◌↔◌,
  find?-Member, find?_holds, inl, inr, ◌==◌, ==_iff, ==_refl, Bool, true, not, List, [], ◌∷◌, ◌++◌,
  map, none, some, select, count_where, length, Member, here, there, Bool-cases, arith, All,
}
use iskan.Auth.Scope.{
  Department, ScopeTables, is_in, some_in, is_next, expand, of_user, visible_departments,
}

is_in-append-right : (n : ℕ) (ms ns : List ℕ) → is_in n ns ≡ true → is_in n (ms ++ ns) ≡ true
is_in-append-right n [] ns h = h
is_in-append-right n (m ∷ ms) ns h = ground (arith, is_in-append-right n ms ns h)

is_in-select :
    (p : Department → Bool) (ds : List Department) (d : Department) (ns : List ℕ)
    → Member d ds
    → p d ≡ true
    → is_in d.id (map (λ x. x.id) (select p ds) ++ ns) ≡ true
is_in-select p [] d ns m h = elim m [ ]
is_in-select p (x ∷ ds) d ns (here e) h =
    subst (λ y. is_in y.id (map (λ x. x.id) (select p (x ∷ ds)) ++ ns) ≡ true) e
      (ground (arith, ==_refl x.id, subst (λ y. p y ≡ true) (sym e) h))
is_in-select p (x ∷ ds) d ns (there m) h = ground (arith, is_in-select p ds d ns m h)

-- Every department with a parent in the list is in the list.
abbrev pub IsClosed : List ℕ → List Department → Type 0
IsClosed ids ds =
    (d : Department) → Member d ds → some_in d.parent_id ids ≡ true → is_in d.id ids ≡ true

-- A round finds somebody new, or there is nobody to be found.
next-none :
    (ids : List ℕ) (ds : List Department) (d : Department)
    → find? (is_next ids) ds ≡ none
    → Member d ds
    → some_in d.parent_id ids ≡ true
    → is_in d.id ids ≡ true
next-none ids [] d h m k = elim m [ ]
next-none ids (x ∷ ds) d h (here e) k =
    subst (λ y. is_in y.id ids ≡ true) e
      (ground (arith, h, subst (λ y. some_in y.parent_id ids ≡ true) (sym e) k))
next-none ids (x ∷ ds) d h (there m) k = next-none ids ds d (ground (arith, h)) m k

select-none :
    (ids : List ℕ) (ds : List Department)
    → find? (is_next ids) ds ≡ none
    → select (is_next ids) ds ≡ []
select-none ids [] h = refl
select-none ids (x ∷ ds) h = ground (arith, h, select-none ids ds)

abbrev unseen : List ℕ → List Department → ℕ
unseen ids ds = count_where (λ d. not (is_in d.id ids)) ds

expand-stays :
    (n : ℕ) (ids : List ℕ) (ds : List Department)
    → find? (is_next ids) ds ≡ none
    → expand n ds ids ≡ ids
unfolding expand
expand-stays zero ids ds h = refl
expand-stays (suc n) ids ds h = rw (select-none ids ds h) (expand-stays n ids ds h)

fewer :
    (ids : List ℕ) (ds : List Department) (d : Department)
    → find? (is_next ids) ds ≡ some d
    → unseen (map (λ x. x.id) (select (is_next ids) ds) ++ ids) ds + 1 ≤ unseen ids ds
fewer ids ds d found =
    count_where-lt (λ x. not (is_in x.id ids))
      (λ x. not (is_in x.id (map (λ y. y.id) (select (is_next ids) ds) ++ ids)))
      (λ x k.
        ground (arith, k, is_in-append-right x.id (map (λ y. y.id) (select (is_next ids) ds)) ids))
      ds (find?-Member (is_next ids) ds d found)
      (ground (arith, find?_holds (is_next ids) ds d found))
      (ground (
        arith,
        is_in-select (is_next ids) ds d ids (find?-Member (is_next ids) ds d found)
            (find?_holds (is_next ids) ds d found),
      ))

expand-IsClosed :
    (n : ℕ) (ids : List ℕ) (ds : List Department)
    → unseen ids ds ≤ n
    → IsClosed (expand n ds ids) ds
unfolding expand
expand-IsClosed zero ids ds few = elim (Option-cases (find? (is_next ids) ds)) [
  | inl stop ↦ λ d. next-none ids ds d stop
  | inr (d, found) ↦ absurd (omega (arith, few, fewer ids ds d found))
]
expand-IsClosed (suc n) ids ds few = elim (Option-cases (find? (is_next ids) ds)) [
  | inl stop ↦ rw (expand-stays (suc n) ids ds stop) (λ d. next-none ids ds d stop)
  | inr (d, found) ↦
      expand-IsClosed n (map (λ x. x.id) (select (is_next ids) ds) ++ ids) ds
        (omega (arith, few, fewer ids ds d found))
]

expand-keeps :
    (n : ℕ) (ids : List ℕ) (ds : List Department) (m : ℕ)
    → is_in m ids ≡ true
    → is_in m (expand n ds ids) ≡ true
unfolding expand
expand-keeps zero ids ds m h = h
expand-keeps (suc n) ids ds m h =
    expand-keeps n _ ds m (is_in-append-right m (map (λ x. x.id) (select (is_next ids) ds)) ids h)

-- A department that is assigned, or has an ancestor that is.
pub data Under (seeds : List ℕ) (ds : List Department) : ℕ → Type 0 where
  seed : {n : ℕ} → is_in n seeds ≡ true → Under seeds ds n
  child :
      {n parent : ℕ} (d : Department)
      → Member d ds
      → d.id ≡ n
      → d.parent_id ≡ some parent
      → Under seeds ds parent
      → Under seeds ds n

module _ (seeds : List ℕ) (ds : List Department) where
  is_in-Under :
      (ids : List ℕ) (n : ℕ) → All (Under seeds ds) ids → is_in n ids ≡ true → Under seeds ds n
  is_in-Under [] n hs h = absurd (cc h)
  is_in-Under (m ∷ ms) n hs h = elim (Bool-cases (m == n)) [
    | inl e ↦ subst (Under seeds ds) ((==_iff m n).0 e) hs.0
    | inr e ↦ is_in-Under ms n hs.1 (ground (arith, h, e))
  ]

  seeds-Under :
      (ids : List ℕ)
      → ((n : ℕ) → is_in n ids ≡ true → is_in n seeds ≡ true)
      → All (Under seeds ds) ids
  seeds-Under [] h = tt
  seeds-Under (m ∷ ms) h =
      (seed (h m (ground (arith, ==_refl m))), seeds-Under ms (λ n k. h n (ground (arith, k))))

  next-Under :
      (ids : List ℕ) (xs : List Department)
      → ((d : Department) → Member d xs → Member d ds)
      → All (Under seeds ds) ids
      → All (Under seeds ds) (map (λ d. d.id) (select (is_next ids) xs) ++ ids)
  next-Under ids [] within hs = hs
  next-Under ids (x ∷ xs) within hs = elim (Bool-cases (is_next ids x)) [
    | inr miss ↦ rw miss (next-Under ids xs (λ d m. within d (there m)) hs)
    | inl hit ↦ elim (Option-cases x.parent_id) [
      | inl root ↦ absurd (ground (arith, root, hit))
      | inr (parent, e) ↦ rw hit (
        child x (within x (here refl)) refl e (is_in-Under ids parent hs (ground (arith, hit, e))),
        next-Under ids xs (λ d m. within d (there m)) hs,
      )
    ]
  ]

  expand-Under :
      (n : ℕ) (ids : List ℕ) → All (Under seeds ds) ids → All (Under seeds ds) (expand n ds ids)
  unfolding expand
  expand-Under zero ids hs = hs
  expand-Under (suc n) ids hs = expand-Under n _ (next-Under ids ds (λ d m. m) hs)

  Under-is_in :
      (ids : List ℕ) (n : ℕ)
      → ((k : ℕ) → is_in k seeds ≡ true → is_in k ids ≡ true)
      → IsClosed ids ds
      → Under seeds ds n
      → is_in n ids ≡ true
  Under-is_in ids n keep closed (seed h) = keep n h
  Under-is_in ids n keep closed (child {parent = p} d m e f u) =
      subst (λ k. is_in k ids ≡ true) e (closed d m (rw f (Under-is_in ids p keep closed u)))

unseen_le : (ids : List ℕ) (ds : List Department) → unseen ids ds ≤ length ds
unseen_le ids [] = omega arith
unseen_le ids (d ∷ ds) = ground (arith, unseen_le ids ds)

-- The departments that the query finds are exactly those that the user was assigned and all
-- departments beneath them, however deep.
pub visible_departments-Under :
    (user_id : ℕ) (t : ScopeTables) (n : ℕ)
    → (is_in n (visible_departments user_id t) ≡ true)
      ↔ Under (of_user user_id t.department_scope) t.departments n
unfolding visible_departments
visible_departments-Under user_id t n =
    let seeds = of_user user_id t.department_scope in
    let ds = t.departments in
    (
      is_in-Under seeds ds (expand (length ds) ds seeds) n
          (expand-Under seeds ds (length ds) seeds (seeds-Under seeds ds seeds (λ k h. h))),
      Under-is_in seeds ds (expand (length ds) ds seeds) n
          (λ k. expand-keeps (length ds) seeds ds k)
          (expand-IsClosed (length ds) seeds ds (unseen_le seeds ds)),
    )
