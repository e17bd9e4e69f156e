-- ===== src/Catalog/Rules.antt =====
-- admin.py: `create_rule`, `update_rule` and `delete_rule`, with the requests of admin_schemas.py.
use iskan.Prelude.{
  ℕ, ◌==◌, String, any, Bool, true, false, not, List, ◌∷◌, none, some, ⊤, find?, update_where,
  delete_where,
}
use iskan.Http.{Action, gets, modify, lift, raise_if, or_raise, ◌>>=◌, ◌>>◌}
use iskan.Http.Errors.{http, runtime_error, Result, ok, err}
use iskan.Security.Crypto.{Text}
use iskan.Absences.Change.{Change, unset, null, value}
use iskan.Catalog.{PatternOps, Category, Rule, Db, audit, validate_rule_pattern, refused}
use iskan.Catalog.Requests.{RuleCreate, RulePatch, checked_rule, checked_rule_patch, written}

abbrev pub is_category : ℕ → Category → Bool
is_category id c = c.id == id

abbrev pub is_unknown_category : Change ℕ → List Category → Bool
is_unknown_category unset categories = false
is_unknown_category null categories = true
is_unknown_category (value id) categories = not (any (is_category id) categories)

-- `changes.get(k, current[k])`, of which `None` has no `strip`
abbrev pub effective_pattern : Change Text → Text → Result Text
effective_pattern unset pattern = ok pattern
effective_pattern null pattern = err (runtime_error "AttributeError")
effective_pattern (value p) pattern = ok p

-- a match type of null is not `regex`
abbrev pub effective_type : Change String → String → String
effective_type unset match_type = match_type
effective_type null match_type = "None"
effective_type (value m) match_type = m

-- the row that the `INSERT` writes
abbrev pub new_rule : ℕ → RuleCreate → Rule
new_rule fresh p = record {
  id = fresh;
  priority = p.priority;
  match_field = p.match_field;
  match_type = p.match_type;
  pattern = p.pattern;
  category_id = p.category_id;
  enabled = p.enabled;
}

module _ (t : PatternOps) where
  -- `create_rule`
  unfoldable pub create_rule : RuleCreate → ℕ → Action Db ⊤
  create_rule payload fresh = do
    p ← lift (checked_rule t payload)
    categories ← gets (λ db. db.categories)
    raise_if (not (any (is_category p.category_id) categories)) (http 422 "Категория не найдена")
    modify (λ db. record db { rules = new_rule fresh p ∷ db.rules })
    audit "rule_created" fresh

  -- `update_rule`
  unfoldable pub update_rule : ℕ → RulePatch → Action Db ⊤
  update_rule rule_id payload = do
    p ← lift (checked_rule_patch t payload)
    found ← gets (λ db. find? (λ r. r.id == rule_id) db.rules)
    current ← or_raise found (http 404 "Правило не найдено")
    old ← lift (effective_pattern p.pattern current.pattern)
    pattern ←
        lift
          (refused (validate_rule_pattern t (effective_type p.match_type current.match_type) old))
    categories ← gets (λ db. db.categories)
    raise_if (is_unknown_category p.category_id categories) (http 422 "Категория не найдена")
    row ← lift (written p pattern current)
    modify (λ db. record db { rules = update_where (λ r. r.id == rule_id) (λ r. row) db.rules })
    audit "rule_updated" rule_id

-- `delete_rule`
unfoldable pub delete_rule : ℕ → Action Db ⊤
delete_rule rule_id = do
  found ← gets (λ db. find? (λ r. r.id == rule_id) db.rules)
  raise_if (elim found [ none ↦ true | some r ↦ false ]) (http 404 "Правило не найдено")
  modify (λ db. record db { rules = delete_where (λ r. r.id == rule_id) db.rules })
  audit "rule_deleted" rule_id
