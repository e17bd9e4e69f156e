-- ===== src/Rules/Best.antt =====
-- The rule that decides an event is the one of the least priority that applies to it, and the
-- first of these in the list.
use iskan.Prelude.{
  ℕ, ◌≤◌, ◌≡◌, refl, subst, inl, inr, leb, Bool, true, false, ◌&&◌, List, [], ◌∷◌, Option, none,
  some, find?, All, All-map, Member, here, there, Bool-cases, Option-cases, arith, if◌then◌else◌,
}
use iskan.Rules.{
  TextOps, Classifiable, ClassificationRule, is_preserved, insert_rule, sorted, applies,
  classify_result, result_of,
}

-- The first rule, among those that fit, of the least priority.
unfoldable pub best :
    (ClassificationRule → Bool) → List ClassificationRule → Option ClassificationRule
best p [] = none
best p (r ∷ rs) =
    let rest = best p rs in
    if p r
    then (elim rest [
      | none ↦ some r
      | some s ↦ if leb r.priority s.priority then some r else some s
    ])
    else rest

Ordered : List ClassificationRule → Type 0
Ordered [] = Unit
Ordered (r ∷ rs) = All (λ s. r.priority ≤ s.priority) rs × Ordered rs

insert_rule-All :
    (n : ℕ) (r : ClassificationRule) (rs : List ClassificationRule)
    → n ≤ r.priority
    → All (λ x. n ≤ x.priority) rs
    → All (λ x. n ≤ x.priority) (insert_rule r rs)
unfolding insert_rule
insert_rule-All n r [] le h = (le, tt)
insert_rule-All n r (s ∷ ss) le h = elim (Bool-cases (leb r.priority s.priority)) [
  | inl e ↦ rw e (le, h)
  | inr e ↦ rw e (h.0, insert_rule-All n r ss le h.1)
]

All-weaken :
    (m n : ℕ) (rs : List ClassificationRule)
    → m ≤ n
    → All (λ x. n ≤ x.priority) rs
    → All (λ x. m ≤ x.priority) rs
All-weaken m n [] le h = tt
All-weaken m n (r ∷ rs) le h = (omega (arith, le, h.0), All-weaken m n rs le h.1)

insert_rule-Ordered :
    (r : ClassificationRule) (rs : List ClassificationRule)
    → Ordered rs
    → Ordered (insert_rule r rs)
unfolding insert_rule Ordered
insert_rule-Ordered r [] h = (tt, tt)
insert_rule-Ordered r (s ∷ ss) h = elim (Bool-cases (leb r.priority s.priority)) [
  | inl e ↦
      rw e ((ground (arith, e), All-weaken r.priority s.priority ss (ground (arith, e)) h.0), h)
  | inr e ↦
      rw e (insert_rule-All s.priority r ss (ground (arith, e)) h.0, insert_rule-Ordered r ss h.1)
]

sorted-Ordered : (rs : List ClassificationRule) → Ordered (sorted rs)
unfolding sorted Ordered
sorted-Ordered [] = tt
sorted-Ordered (r ∷ rs) = insert_rule-Ordered r (sorted rs) (sorted-Ordered rs)

module _ (p : ClassificationRule → Bool) where
  find?-All :
      (n : ℕ) (rs : List ClassificationRule) (s : ClassificationRule)
      → All (λ x. n ≤ x.priority) rs
      → find? p rs ≡ some s
      → n ≤ s.priority
  find?-All n [] s h e = absurd (ground arith)
  find?-All n (r ∷ rs) s h e = elim (Bool-cases (p r)) [
    | inl hit ↦
        subst (λ (x : ClassificationRule). n ≤ x.priority) {x = r} {y = s} (ground (arith, hit, e))
          h.0
    | inr miss ↦ find?-All n rs s h.1 (ground (arith, miss, e))
  ]

  -- a rule put in its place is found where the best is sought
  find?-insert_rule :
      (r : ClassificationRule) (rs : List ClassificationRule)
      → Ordered rs
      → find? p (insert_rule r rs) ≡ (
          if p r
          then (elim (find? p rs) [
            | none ↦ some r
            | some s ↦ if leb r.priority s.priority then some r else some s
          ])
          else find? p rs)
  unfolding insert_rule Ordered
  find?-insert_rule r [] h = ground arith
  find?-insert_rule r (s ∷ ss) h = elim (Bool-cases (leb r.priority s.priority)) [
    | inr later ↦ ground (arith, later, find?-insert_rule r ss h.1)
    | inl first ↦ elim (Option-cases (find? p (s ∷ ss))) [
      | inl missing ↦ ground (arith, first, missing)
      | inr (x, e) ↦
          let le = find?-All s.priority (s ∷ ss) x (omega arith, h.0) e in
          ground (arith, first, e, le)
    ]
  ]

  find?-sorted : (rs : List ClassificationRule) → find? p (sorted rs) ≡ best p rs
  unfolding sorted best
  find?-sorted [] = refl
  find?-sorted (r ∷ rs) =
      subst
        (λ o. find? p (insert_rule r (sorted rs)) ≡ (
          if p r
          then (elim o [
            | none ↦ some r
            | some s ↦ if leb r.priority s.priority then some r else some s
          ])
          else o))
        (find?-sorted rs) (find?-insert_rule r (sorted rs) (sorted-Ordered rs))

  -- None is best only if none fits.
  best-none : (rs : List ClassificationRule) → best p rs ≡ none → All (λ s. p s ≡ false) rs
  unfolding best
  best-none [] h = tt
  best-none (r ∷ rs) h = elim (Bool-cases (p r)) [
    | inr miss ↦ (miss, best-none rs (ground (arith, h, miss)))
    | inl hit ↦ elim (Option-cases (best p rs)) [
      | inl none_left ↦ absurd (ground (arith, h, hit, none_left))
      | inr (s, found) ↦ absurd (ground (arith, h, hit, found))
    ]
  ]

  -- The best rule fits, and no rule that fits has a smaller priority.
  best-some :
      (rs : List ClassificationRule) (r : ClassificationRule)
      → best p rs ≡ some r
      → (p r ≡ true) × Member r rs × All (λ s. p s ≡ true → r.priority ≤ s.priority) rs
  unfolding best
  best-some [] r h = absurd (ground (arith, h))
  best-some (x ∷ rs) r h = elim (Option-cases (best p rs)) [
    | inl nobody ↦ elim (Bool-cases (p x)) [
      | inr miss ↦ absurd (ground (arith, h, miss, nobody))
      | inl hit ↦
          let same : x ≡ r = ground (arith, h, hit, nobody) in
          (
            subst (λ y. p y ≡ true) same hit,
            here same,
            (
              (λ _. subst (λ (y : ClassificationRule). y.priority ≤ x.priority) same (omega arith)),
              All-map (λ s. p s ≡ false) (λ s. p s ≡ true → r.priority ≤ s.priority) rs
                  (λ s u v. absurd (cc (u, v))) (best-none rs nobody),
            ),
          )
    ]
    | inr (y, found) ↦
        let (fits, member, all) = best-some rs y found in
        elim (Bool-cases (p x && leb x.priority y.priority)) [
          | inl first ↦ subst Best {x = x} {y = r} (ground (arith, h, found, first)) (
            ground (arith, first),
            here refl,
            (
              (λ _. omega arith),
              All-map (λ s. p s ≡ true → y.priority ≤ s.priority)
                  (λ s. p s ≡ true → x.priority ≤ s.priority) rs
                  (λ s u v. ground (arith, u v, first)) all,
            ),
          )
          | inr later ↦
              subst Best {x = y} {y = r} (ground (arith, h, found, later))
                (fits, there member, ((λ hit. ground (arith, hit, later)), all))
        ]
  ]
    where
      Best : ClassificationRule → Type 0
      Best z =
          (p z ≡ true)
          × Member z (x ∷ rs)
          × All (λ s. p s ≡ true → z.priority ≤ s.priority) (x ∷ rs)

module _ (t : TextOps) (e : Classifiable) where
  -- An event of a preserved state keeps it, without a category; any other gets what the first
  -- applicable rule of the least priority says, in whatever order the rules are listed, or
  -- NEUTRAL without a category if none applies.
  pub classify_result-best :
      (rules : List ClassificationRule)
      → classify_result t e rules ≡ (
          if is_preserved (t.upper e.state)
          then record { state = t.upper e.state; category_id = none }
          else result_of t (best (applies t e) rules))
  unfolding classify_result
  classify_result-best rules = rw (find?-sorted (applies t e) rules) refl
