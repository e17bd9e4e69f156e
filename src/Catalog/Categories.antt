-- ===== src/Catalog/Categories.antt =====
-- admin.py: `create_category`, `update_category` and `delete_category`, with the requests of
-- admin_schemas.py.
use iskan.Prelude.{
  ℕ, ◌==◌, strip, list_eq, any, Bool, false, not, ◌&&◌, List, ◌∷◌, Option, none, some, ⊤, find?,
  update_where, delete_where, count_where, or_else,
}
use iskan.Http.{Action, gets, modify, lift, raise_if, or_raise, ◌>>=◌, ◌>>◌}
use iskan.Http.Errors.{http}
use iskan.Security.Crypto.{Text}
use iskan.Absences.Change.{is_sent}
use iskan.Catalog.{PatternOps, Category, Rule, Db, audit}
use iskan.Catalog.Requests.{
  CategoryCreate, CategoryPatch, CategoryChanges, checked_category, checked_patch, category_changes,
}

-- the rows that have the code
abbrev pub has_code : Text → Category → Bool
has_code code c = list_eq c.code code

-- the row that the `INSERT` writes
abbrev pub new_category : ℕ → CategoryCreate → Category
new_category fresh p = record {
  id = fresh;
  code = p.code;
  name = strip p.name;
  productivity = p.productivity;
  color = p.color;
  is_system = false;
}

module _ (t : PatternOps) where
  -- `create_category`
  unfoldable pub create_category : CategoryCreate → ℕ → Action Db ⊤
  create_category payload fresh = do
    p ← lift (checked_category t payload)
    categories ← gets (λ db. db.categories)
    raise_if (any (has_code p.code) categories) (http 409 "Категория с таким кодом уже существует")
    modify (λ db. record db { categories = new_category fresh p ∷ db.categories })
    audit "category_created" fresh

abbrev pub taken_code : Option Text → ℕ → List Category → Bool
taken_code none id categories = false
taken_code (some code) id categories = any (λ c. has_code code c && not (c.id == id)) categories

abbrev pub write_category : CategoryChanges → Category → Category
write_category changes c = record c {
  code = or_else changes.code c.code;
  name = or_else changes.name c.name;
  productivity = or_else changes.productivity c.productivity;
  color = or_else changes.color c.color;
}

module _ (t : PatternOps) where
  -- `update_category`
  unfoldable pub update_category : ℕ → CategoryPatch → Action Db ⊤
  update_category category_id payload = do
    p ← lift (checked_patch t payload)
    found ← gets (λ db. find? (λ c. c.id == category_id) db.categories)
    current ← or_raise found (http 404 "Категория не найдена")
    raise_if (current.is_system && is_sent p.code)
        (http 409 "Код системной категории изменять нельзя")
    changes ← lift (category_changes p)
    categories ← gets (λ db. db.categories)
    raise_if (taken_code changes.code category_id categories)
        (http 409 "Категория с таким кодом уже существует")
    modify (λ db. record db {
      categories = update_where (λ c. c.id == category_id) (write_category changes) db.categories;
    })
    audit "category_updated" category_id

-- the rules of the category, which `category_by_id` counts
abbrev pub rules_count : ℕ → List Rule → ℕ
rules_count category_id rules = count_where (λ r. r.category_id == category_id) rules

-- `delete_category`
unfoldable pub delete_category : ℕ → Action Db ⊤
delete_category category_id = do
  found ← gets (λ db. find? (λ c. c.id == category_id) db.categories)
  row ← or_raise found (http 404 "Категория не найдена")
  raise_if row.is_system (http 409 "Системную категорию удалить нельзя")
  rules ← gets (λ db. db.rules)
  raise_if (not (rules_count category_id rules == 0))
      (http 409 "Сначала удалите правила этой категории")
  modify (λ db. record db { categories = delete_where (λ c. c.id == category_id) db.categories })
  audit "category_deleted" category_id
