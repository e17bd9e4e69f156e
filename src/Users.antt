-- ===== src/Users.antt =====
-- auth.py: `update_user` and `update_role_permissions`, by who may manage users.
pub mod Written
pub mod Protection
use iskan.Prelude.{
  ℕ, ◌==◌, String, ◌=s◌, one_of, any, all, Bool, true, false, not, ◌&&◌, ◌||◌, List, [], ◌∷◌, ◌++◌,
  map, Option, none, some, ⊤, find?, delete_where, update_where, is_number, if◌then◌else◌,
}
use iskan.Http.{
  Action, pure, raise, gets, modify, lift, raise_if, or_raise, transaction, when, ◌>>=◌, ◌>>◌,
}
use iskan.Http.Errors.{Error, http, runtime_error, Result, ok, err}
use iskan.Security.Crypto.{Crypto}
use iskan.Security.Password.{hash_password}
use iskan.Auth.Store.{User, Session, AuditRow, CurrentUser}
use iskan.Auth.Session.{revoke}
use iskan.Auth.Scope.{ScopeTables, Department, Employee}
use iskan.Absences.Change.{Change, unset, null, value, is_sent, changed, changed_option}

pub record Db : Type 0 where
  pub users : List User
  pub sessions : List Session
  pub scope : ScopeTables
  pub roles : List String
  pub permissions : List String
  pub role_permissions : List (String × String)
  pub audit : List AuditRow

-- `UserAdminPatch`
pub record UserAdminPatch : Type 0 where
  pub display_name : Change String
  pub password : Change String
  pub role_code : Change String
  pub employee_id : Change ℕ
  pub scope_type : Change String
  pub department_ids : Option (List ℕ)
  pub employee_ids : Option (List ℕ)
  pub is_active : Change Bool

abbrev pub is_superadmin : String → Bool
is_superadmin role = role =s "superadmin"

-- the new hash, if a password was sent; `len(None)` raises
abbrev pub new_hash : Crypto → Change String → Result (Change String)
new_hash c unset = ok unset
new_hash c null = err (runtime_error "TypeError")
new_hash c (value password) = elim (hash_password c password) [
  | err e ↦ err e
  | ok hash ↦ ok (value hash)
]

-- a column that is NOT NULL
abbrev pub required : {A : Type 0} → Change A → A → Result A
required unset a = ok a
required null a = err (runtime_error "NotNullViolationError")
required (value b) a = ok b

-- what the UPDATE writes
abbrev pub assigned : String → Change String → String → Option ℕ → String → Bool → User → User
assigned display_name hash role employee scope_type is_active u = record u {
  display_name = display_name;
  password_hash = elim hash [ value h ↦ h | _ ↦ u.password_hash ];
  role_code = role;
  employee_id = employee;
  scope_type = scope_type;
  is_active = is_active;
  totp_secret = if is_sent hash then none else u.totp_secret;
  totp_confirmed_at = if is_sent hash then none else u.totp_confirmed_at;
}

-- the employee is known and of no other user
abbrev pub check_employee : Option ℕ → ℕ → Db → Result ⊤
check_employee none user_id db = ok tt
check_employee (some e) user_id db =
    if any (λ u. is_number u.employee_id e && not (u.id == user_id)) db.users
    then err (http 409 "Сотрудник уже связан с другим пользователем")
    else (if any (λ x. x.id == e) db.scope.employees
        then ok tt
        else err (http 422 "Роль, сотрудник или отдел не найден"))

-- the rows of a scope, one by one: a second one of a pair and an unknown id are refused
abbrev pub insert_scope : (ℕ → Bool) → ℕ → List ℕ → List (ℕ × ℕ) → Result (List (ℕ × ℕ))
insert_scope known user_id [] rows = ok rows
insert_scope known user_id (n ∷ ns) rows =
    let rest = insert_scope known user_id ns ((user_id, n) ∷ rows) in
    if any (λ r. (r.0 == user_id) && (r.1 == n)) rows
    then err (http 409 "Сотрудник уже связан с другим пользователем")
    else (if known n then rest else err (http 422 "Роль, сотрудник или отдел не найден"))

-- `DELETE …; INSERT …` of a scope, if it was sent
abbrev pub replace_scope : (ℕ → Bool) → ℕ → Option (List ℕ) → List (ℕ × ℕ) → Result (List (ℕ × ℕ))
replace_scope known user_id none rows = ok rows
replace_scope known user_id (some ids) rows =
    insert_scope known user_id ids (delete_where (λ r. r.0 == user_id) rows)

-- `_replace_user_scopes`
unfoldable pub replace_user_scopes : ℕ → Option (List ℕ) → Option (List ℕ) → Action Db ⊤
replace_user_scopes user_id department_ids employee_ids = do
  t ← gets (λ db. db.scope)
  departments ← lift (
      replace_scope (λ n. any (λ d. d.id == n) t.departments) user_id department_ids
        t.department_scope)
  employees ←
      lift (
        replace_scope (λ n. any (λ e. e.id == n) t.employees) user_id employee_ids t.employee_scope)
  modify (λ db. record db {
    scope = record t { department_scope = departments; employee_scope = employees };
  })

-- `changes.get("is_active") is False`
abbrev pub is_false : Change Bool → Bool
is_false (value false) = true
is_false (value true) = false
is_false unset = false
is_false null = false

-- the session's end of a user that is disabled or has a new password
abbrev pub end_sessions : Bool → ℕ → ℕ → Action Db ⊤
end_sessions ends user_id now = when ends (
    modify (λ db. record db {
      sessions = update_where (λ s. s.user_id == user_id) (revoke now) db.sessions;
    }))

-- the transaction of `update_user`
unfoldable pub write_user : User → UserAdminPatch → Change String → ℕ → Action Db ⊤
write_user current p hash now = do
  display_name ← lift (required p.display_name current.display_name)
  role ← lift (required p.role_code current.role_code)
  scope_type ← lift (required p.scope_type current.scope_type)
  is_active ← lift (required p.is_active current.is_active)
  let employee = changed_option p.employee_id current.employee_id
  fits ← gets (check_employee employee current.id)
  fine ← lift fits
  modify (λ db. record db {
    users =
        update_where (λ u. u.id == current.id)
          (assigned display_name hash role employee scope_type is_active) db.users;
  })
  replace_user_scopes current.id p.department_ids p.employee_ids
  end_sessions (is_false p.is_active || is_sent hash) current.id now

abbrev pub audit : String → ℕ → Action Db ⊤
audit action object_id =
    modify λ db. record db { audit = record { action = action; object_id = object_id } ∷ db.audit }

-- `payload.role_code or current["role_code"]`
abbrev pub target_role : Change String → String → String
target_role unset role = role
target_role null role = role
target_role (value r) role = r

-- `update_user`; the role's values are checked by the schema
unfoldable pub update_user : Crypto → ℕ → UserAdminPatch → CurrentUser → ℕ → Action Db ⊤
update_user c user_id p actor now = do
  found ← gets (λ db. find? (λ u. u.id == user_id) db.users)
  current ← or_raise found (http 404 "Пользователь не найден")
  raise_if
      ((is_superadmin current.role_code
          || is_superadmin (target_role p.role_code current.role_code))
        && not (is_superadmin actor.role))
      (http 403 "Только superadmin может изменять superadmin")
  raise_if ((user_id == actor.id) && is_false p.is_active)
      (http 409 "Нельзя отключить собственную учётную запись")
  hash ← lift (new_hash c p.password)
  transaction (write_user current p hash now)
  audit "user_updated" user_id

-- `set(payload.permissions)`
abbrev pub set_of : List String → List String
set_of [] = []
set_of (p ∷ ps) = let rest = set_of ps in if one_of p rest then rest else p ∷ rest

abbrev pub keeps_control : List String → Bool
keeps_control requested =
    all (λ p. one_of p requested) ("users:manage" ∷ "settings:manage" ∷ "audit:view" ∷ [])

-- the rows of a role
abbrev pub grant : String → List String → List (String × String) → List (String × String)
grant role requested rows = map (λ p. (role, p)) requested ++ delete_where (λ r. r.0 =s role) rows

-- `update_role_permissions`; its audit row is of the role, which has no number
unfoldable pub update_role_permissions :
    String → List String → CurrentUser → Action Db (List String)
update_role_permissions role payload actor = do
  roles ← gets (λ db. db.roles)
  raise_if (not (one_of role roles)) (http 404 "Роль не найдена")
  raise_if (is_superadmin role && not (is_superadmin actor.role))
      (http 403 "Только superadmin может менять эту роль")
  let requested = set_of payload
  known ← gets (λ db. db.permissions)
  raise_if (not (all (λ p. one_of p known) requested)) (http 422 "Неизвестные права")
  raise_if (is_superadmin role && not (keeps_control requested))
      (http 409 "У superadmin должны оставаться права управления и аудита")
  modify (λ db. record db { role_permissions = grant role requested db.role_permissions })
  audit "role_permissions_updated" 0
  pure requested
