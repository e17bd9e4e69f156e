-- ===== src/Tests/Users.antt =====
-- The theorems on the management of users at concrete inputs.
use iskan.Prelude.{◌≡◌, refl, [], ◌∷◌, none, false, count_where, arith}
use iskan.Http.Errors.{http, err}
use iskan.Auth.Store.{User, CurrentUser}
use iskan.Absences.Change.{unset, value}
use iskan.Users.{Db, UserAdminPatch, update_user, write_user, replace_user_scopes}
use iskan.Users.Protection.{is_live_of, update_user-revokes, superadmins, update_user-superadmins}
use iskan.Tests.Data.{crypto, user, session}

abbrev admin : CurrentUser
admin = record {
  id = 2;
  login = "boris";
  display_name = "Boris";
  role = "admin";
  employee_id = none;
  scope_type = "organization";
  permissions = "users:manage" ∷ [];
}

abbrev root : User
root = record user { id = 3; login = "root"; role_code = "superadmin"; employee_id = none }

abbrev db : Db
db = record {
  users = user ∷ root ∷ [];
  sessions = session none ∷ [];
  scope = record {
    employee_scope = [];
    department_scope = [];
    departments = [];
    employees = record { id = 11; department_id = none } ∷ [];
  };
  roles = "admin" ∷ "superadmin" ∷ [];
  permissions = [];
  role_permissions = [];
  audit = [];
}

-- disable the user
abbrev disable : UserAdminPatch
disable = record {
  display_name = unset;
  password = unset;
  role_code = unset;
  employee_id = unset;
  scope_type = unset;
  department_ids = none;
  employee_ids = none;
  is_active = value false;
}

-- make the user a superadmin
abbrev promote : UserAdminPatch
promote = record disable { role_code = value "superadmin"; is_active = unset }

abbrev disabled : Db
disabled = (update_user crypto 1 disable admin 1500 db).1

update_user-revokes_example : count_where (is_live_of 1) disabled.sessions ≡ 0
unfolding update_user write_user replace_user_scopes
update_user-revokes_example = update_user-revokes crypto 1 disable admin 1500 db disabled refl refl

update_user-superadmins_example :
    superadmins (update_user crypto 1 promote admin 1500 db).1 ≡ superadmins db
unfolding update_user
update_user-superadmins_example =
    update_user-superadmins crypto 1 promote admin 1500 db db
      (err (http 403 "Только superadmin может изменять superadmin")) refl (omega arith) refl
