-- ===== src/Catalog/Consistency.antt =====
-- The rules of the catalogue are usable, whatever the routes are asked.
use iskan.Prelude.{
  ℕ, ◌≡◌, subst, sym, ◌⊎◌, inl, inr, ◌==◌, String, ◌=s◌, any, true, false, not, ◌&&◌, ◌||◌, [], ◌∷◌,
  none, some, find?, arith, Bool-cases, Option-cases,
}
use iskan.Http.Errors.{http, value_error, token_error, runtime_error, Result, ok, err, Result-cases}
use iskan.Security.Crypto.{Text}
use iskan.Absences.Change.{value, is_sent}
use iskan.Catalog.{PatternOps, Rule, Db, validate_rule_pattern, refused}
use iskan.Catalog.Requests.{
  CategoryCreate, CategoryPatch, checked_category, checked_patch, category_changes, RuleCreate,
  RulePatch, checked_rule, checked_rule_patch, written,
}
use iskan.Catalog.Categories.{
  has_code, new_category, create_category, taken_code, rules_count, update_category,
  delete_category,
}
use iskan.Catalog.Rules.{
  is_category, new_rule, create_rule, effective_pattern, effective_type, is_unknown_category,
  update_rule, delete_rule,
}
use iskan.Catalog.Effects.{
  IsConsistent, Step, none_changed, rule_added, rule_written, rule_removed, category_added,
  category_written, category_removed, Step-IsConsistent,
}

-- a request to one of the catalogue's routes, with the id that an insertion draws
pub data Operation : Type 0 where
  add_category : CategoryCreate → ℕ → Operation
  patch_category : ℕ → CategoryPatch → Operation
  remove_category : ℕ → Operation
  add_rule : RuleCreate → ℕ → Operation
  patch_rule : ℕ → RulePatch → Operation
  remove_rule : ℕ → Operation

module _ (t : PatternOps) where
  -- the tables afterwards
  unfoldable pub run : Operation → Db → Db
  run (add_category p fresh) db = (create_category t p fresh db).1
  run (patch_category id p) db = (update_category t id p db).1
  run (remove_category id) db = (delete_category id db).1
  run (add_rule p fresh) db = (create_rule t p fresh db).1
  run (patch_rule id p) db = (update_rule t id p db).1
  run (remove_rule id) db = (delete_rule id db).1

abbrev pub IsUsable : PatternOps → String → Text → Type 0
IsUsable t m q =
    (elim q [ [] ↦ false | x ∷ xs ↦ true ] ≡ true)
    × ((m =s "regex") ≡ true → t.compile_error q ≡ none)

validate_rule_pattern-IsUsable :
    (t : PatternOps) (m : String) (p q : Text) → validate_rule_pattern t m p ≡ ok q → IsUsable t m q
unfolding validate_rule_pattern
validate_rule_pattern-IsUsable t m p q h = ground (arith, h)

create_category-Step :
    (t : PatternOps) (p : CategoryCreate) (id : ℕ) (db : Db)
    → Step t db (create_category t p id db).1
unfolding create_category
create_category-Step t p id db = elim (Result-cases (checked_category t p)) [
  | inr (e, bad) ↦ none_changed (ground (arith, bad)) (ground (arith, bad))
  | inl (c, good) ↦ elim (Bool-cases (any (has_code c.code) db.categories)) [
    | inl taken ↦ none_changed (ground (arith, good, taken)) (ground (arith, good, taken))
    | inr free ↦
        category_added (new_category id c) (ground (arith, good, free)) (ground (arith, good, free))
  ]
]

update_category-Step :
    (t : PatternOps) (id : ℕ) (p : CategoryPatch) (db : Db)
    → Step t db (update_category t id p db).1
unfolding update_category
update_category-Step t id p db = elim (Result-cases (checked_patch t p)) [
  | inr (e, bad) ↦ none_changed (ground (arith, bad)) (ground (arith, bad))
  | inl (q, good) ↦ elim (Option-cases (find? (λ c. c.id == id) db.categories)) [
    | inl missing ↦ none_changed (ground (arith, good, missing)) (ground (arith, good, missing))
    | inr (current, found) ↦ elim (Bool-cases (current.is_system && is_sent q.code)) [
      | inl kept ↦
          none_changed (ground (arith, good, found, kept)) (ground (arith, good, found, kept))
      | inr fine ↦ elim (Result-cases (category_changes q)) [
        | inr (e, bad) ↦
            none_changed (ground (arith, good, found, fine, bad))
              (ground (arith, good, found, fine, bad))
        | inl (c, set) ↦ elim (Bool-cases (taken_code c.code id db.categories)) [
          | inl taken ↦
              none_changed (ground (arith, good, found, fine, set, taken))
                (ground (arith, good, found, fine, set, taken))
          | inr free ↦
              category_written id c (ground (arith, good, found, fine, set, free))
                (ground (arith, good, found, fine, set, free))
        ]
      ]
    ]
  ]
]

checked_rule-IsUsable :
    (t : PatternOps) (p q : RuleCreate)
    → checked_rule t p ≡ ok q
    → IsUsable t q.match_type q.pattern
unfolding checked_rule
checked_rule-IsUsable t p q h =
    elim (Result-cases (validate_rule_pattern t p.match_type p.pattern)) [
      | inr (value_error m, bad) ↦ absurd (ground (arith, h, bad))
      | inr (http n m, bad) ↦ absurd (ground (arith, h, bad))
      | inr (token_error m, bad) ↦ absurd (ground (arith, h, bad))
      | inr (runtime_error m, bad) ↦ absurd (ground (arith, h, bad))
      | inl (pattern, good) ↦
          let usable = validate_rule_pattern-IsUsable t p.match_type p.pattern pattern good in
          let same : q.pattern ≡ pattern = ground (arith, h, good) in
          let type : q.match_type ≡ p.match_type = ground (arith, h, good) in
          subst (λ x. IsUsable t q.match_type x) (sym same)
            (subst (λ x. IsUsable t x pattern) (sym type) usable)
    ]

create_rule-Step :
    (t : PatternOps) (p : RuleCreate) (id : ℕ) (db : Db) → Step t db (create_rule t p id db).1
unfolding create_rule
create_rule-Step t p id db = elim (Result-cases (checked_rule t p)) [
  | inr (e, bad) ↦ none_changed (ground (arith, bad)) (ground (arith, bad))
  | inl (q, good) ↦ elim (Bool-cases (any (is_category q.category_id) db.categories)) [
    | inr unknown ↦ none_changed (ground (arith, good, unknown)) (ground (arith, good, unknown))
    | inl known ↦
        rule_added (new_rule id q) (checked_rule-IsUsable t p q good) known
          (ground (arith, good, known)) (ground (arith, good, known))
  ]
]

delete_category-Step : (t : PatternOps) (id : ℕ) (db : Db) → Step t db (delete_category id db).1
unfolding delete_category
delete_category-Step t id db = elim (Option-cases (find? (λ c. c.id == id) db.categories)) [
  | inl missing ↦ none_changed (ground (arith, missing)) (ground (arith, missing))
  | inr (c, found) ↦ elim (Bool-cases (c.is_system || not (rules_count id db.rules == 0))) [
    | inl kept ↦ none_changed (ground (arith, found, kept)) (ground (arith, found, kept))
    | inr fine ↦
        category_removed id (ground (arith, fine)) (ground (arith, found, fine))
          (ground (arith, found, fine))
  ]
]

delete_rule-Step : (t : PatternOps) (id : ℕ) (db : Db) → Step t db (delete_rule id db).1
unfolding delete_rule
delete_rule-Step t id db = elim (Option-cases (find? (λ r. r.id == id) db.rules)) [
  | inl missing ↦ none_changed (ground (arith, missing)) (ground (arith, missing))
  | inr (r, found) ↦ rule_removed id (ground (arith, found)) (ground (arith, found))
]

-- what is written of a row that has the pattern: its type is the one that the pattern was checked
-- for, and its category the row's or the one that is sent
written-lem :
    (p : RulePatch) (pattern : Text) (current row : Rule)
    → written p pattern current ≡ ok row
    → (row.pattern ≡ pattern)
      × (row.match_type ≡ effective_type p.match_type current.match_type)
      × ((row.category_id ≡ current.category_id) ⊎ (p.category_id ≡ value row.category_id))
written-lem p pattern current row h = ground (arith, h)

refused-ok : {A : Type 0} (r : Result A) (a : A) → refused r ≡ ok a → r ≡ ok a
refused-ok (ok b) a h = h
refused-ok (err (http n m)) a h = h
refused-ok (err (value_error m)) a h = cc h
refused-ok (err (token_error m)) a h = h
refused-ok (err (runtime_error m)) a h = h

module _ (t : PatternOps) (id : ℕ) (p q : RulePatch) (db : Db) (current : Rule) where
  -- the routine from the row that is found on
  patched-Step :
      checked_rule_patch t p ≡ ok q
      → find? (λ r. r.id == id) db.rules ≡ some current
      → Step t db (update_rule t id p db).1
  unfolding update_rule
  patched-Step good found = elim (Result-cases (effective_pattern q.pattern current.pattern)) [
    | inr (e, bad) ↦
        none_changed (ground (arith, good, found, bad)) (ground (arith, good, found, bad))
    | inl (old, has) ↦
        let m = effective_type q.match_type current.match_type in
        elim (Result-cases (refused (validate_rule_pattern t m old))) [
          | inr (e, bad) ↦
              none_changed (ground (arith, good, found, has, bad))
                (ground (arith, good, found, has, bad))
          | inl (pattern, checked) ↦
              elim (Bool-cases (is_unknown_category q.category_id db.categories)) [
                | inl unknown ↦
                    none_changed (ground (arith, good, found, has, checked, unknown))
                      (ground (arith, good, found, has, checked, unknown))
                | inr known ↦ elim (Result-cases (written q pattern current)) [
                  | inr (e, bad) ↦
                      none_changed (ground (arith, good, found, has, checked, known, bad))
                        (ground (arith, good, found, has, checked, known, bad))
                  | inl (row, wrote) ↦
                      let (same, type, category) = written-lem q pattern current row wrote in
                      rule_written row id
                        (subst (λ x. IsUsable t row.match_type x) (sym same)
                          (subst (λ x. IsUsable t x pattern) (sym type)
                            (validate_rule_pattern-IsUsable t m old pattern
                              (refused-ok (validate_rule_pattern t m old) pattern checked))))
                        (elim category [
                          | inl kept ↦ inl (current, found, kept)
                          | inr sent ↦ inr (ground (arith, known, sent))
                        ])
                        (ground (arith, good, found, has, checked, known, wrote))
                        (ground (arith, good, found, has, checked, known, wrote))
                ]
              ]
        ]
  ]

update_rule-Step :
    (t : PatternOps) (id : ℕ) (p : RulePatch) (db : Db) → Step t db (update_rule t id p db).1
unfolding update_rule
update_rule-Step t id p db = elim (Result-cases (checked_rule_patch t p)) [
  | inr (e, bad) ↦ none_changed (ground (arith, bad)) (ground (arith, bad))
  | inl (q, good) ↦ elim (Option-cases (find? (λ r. r.id == id) db.rules)) [
    | inl missing ↦ none_changed (ground (arith, good, missing)) (ground (arith, good, missing))
    | inr (current, found) ↦ patched-Step t id p q db current good found
  ]
]

run-Step : (t : PatternOps) (op : Operation) (db : Db) → Step t db (run t op db)
unfolding run
run-Step t (add_category p fresh) db = create_category-Step t p fresh db
run-Step t (patch_category id p) db = update_category-Step t id p db
run-Step t (remove_category id) db = delete_category-Step t id db
run-Step t (add_rule p fresh) db = create_rule-Step t p fresh db
run-Step t (patch_rule id p) db = update_rule-Step t id p db
run-Step t (remove_rule id) db = delete_rule-Step t id db

-- Whatever a request answers that adds, changes or removes a category or a rule: if every rule had
-- a category that exists, a pattern that is not empty, and one that compiles where it is a regular
-- expression, every rule has so afterwards.
pub run-IsConsistent :
    (t : PatternOps) (op : Operation) (db : Db) → IsConsistent t db → IsConsistent t (run t op db)
run-IsConsistent t op db h = Step-IsConsistent t db (run-Step t op db) h
