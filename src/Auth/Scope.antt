-- ===== src/Auth/Scope.antt =====
-- auth.py: `require_permission` and `visible_employee_ids`, the employees that a user may see.
pub mod Departments
use iskan.Prelude.{
  ℕ, zero, suc, ◌==◌, String, ◌=s◌, any, Bool, true, false, not, ◌&&◌, List, [], ◌∷◌, ◌++◌, map,
  Option, none, some, ⊤, select, length, if◌then◌else◌,
}
use iskan.Http.{Action, raise_if}
use iskan.Http.Errors.{Error, http, Result, ok, err}
use iskan.Auth.Store.{CurrentUser}

pub record Department : Type 0 where
  pub id : ℕ
  pub parent_id : Option ℕ

pub record Employee : Type 0 where
  pub id : ℕ
  pub department_id : Option ℕ

-- the rows of `user_employee_scope` and `user_department_scope` are pairs of a user and an id
pub record ScopeTables : Type 0 where
  pub employee_scope : List (ℕ × ℕ)
  pub department_scope : List (ℕ × ℕ)
  pub departments : List Department
  pub employees : List Employee

abbrev pub is_in : ℕ → List ℕ → Bool
is_in n ns = any (λ m. m == n) ns

-- a join on a column that may be NULL
abbrev pub some_in : Option ℕ → List ℕ → Bool
some_in none ns = false
some_in (some n) ns = is_in n ns

-- a department of which the parent is there already, and which is not
abbrev pub is_next : List ℕ → Department → Bool
is_next ids d = some_in d.parent_id ids && not (is_in d.id ids)

-- the rounds of the recursive query; each department is new in at most one
unfoldable pub expand : ℕ → List Department → List ℕ → List ℕ
expand zero ds ids = ids
expand (suc n) ds ids = expand n ds (map (λ d. d.id) (select (is_next ids) ds) ++ ids)

abbrev pub of_user : ℕ → List (ℕ × ℕ) → List ℕ
of_user user_id rows = map (λ r. r.1) (select (λ r. r.0 == user_id) rows)

-- `visible_departments`
unfoldable pub visible_departments : ℕ → ScopeTables → List ℕ
visible_departments user_id t =
    expand (length t.departments) t.departments (of_user user_id t.department_scope)

abbrev pub own : Option ℕ → List ℕ
own none = []
own (some n) = n ∷ []

-- `visible_employee_ids`; `none` is everybody
unfoldable pub visible_employee_ids : CurrentUser → ScopeTables → Option (List ℕ)
visible_employee_ids user t =
    if user.scope_type =s "organization"
    then none
    else some (
        own user.employee_id
        ++ of_user user.id t.employee_scope
        ++ (if user.scope_type =s "department"
            then map (λ e. e.id)
                (select (λ e. some_in e.department_id (visible_departments user.id t)) t.employees)
            else []))

-- whether an employee is in what is visible
abbrev pub sees : Option (List ℕ) → ℕ → Bool
sees none n = true
sees (some ns) n = is_in n ns

-- `permission in user.permissions`
abbrev pub has_permission : String → CurrentUser → Bool
has_permission p user = any (λ q. q =s p) user.permissions

-- `require_permission`
abbrev pub require_permission : {S : Type 0} → String → CurrentUser → Action S ⊤
require_permission p user = raise_if (not (has_permission p user)) (http 403 "Недостаточно прав")
