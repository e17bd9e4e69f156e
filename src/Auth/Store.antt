-- ===== src/Auth/Store.antt =====
-- The tables of auth.py as records (infra/postgres/init.sql), and the statements that several
-- handlers share. UUIDs are numbers, instants whole seconds; one request reads one clock.
use iskan.Prelude.{
  ◌≡◌, inl, inr, Option-cases, find?_holds, arith, ℕ, ◌+◌, ◌*◌, ◌==◌, leb, ltb, String, ◌=s◌, Bool,
  false, List, ◌∷◌, map, Option, none, some, ⊤, find?, select, update_where, if◌then◌else◌,
}
use iskan.Http.{Action, modify, ◌>>◌}
use iskan.Security.Crypto.{Text}

pub record User : Type 0 where
  pub id : ℕ
  pub login : String
  pub display_name : String
  pub password_hash : String
  pub role_code : String
  pub employee_id : Option ℕ
  pub scope_type : String
  pub is_active : Bool
  pub failed_login_attempts : ℕ
  pub locked_until : Option ℕ
  pub totp_secret : Option Text
  pub totp_confirmed_at : Option ℕ
  pub last_login_at : Option ℕ

-- a row of `refresh_sessions`
pub record Session : Type 0 where
  pub id : ℕ
  pub family_id : ℕ
  pub user_id : ℕ
  pub token_hash : Text
  pub expires_at : ℕ
  pub revoked_at : Option ℕ
  pub replaced_by : Option ℕ
  pub ip_address : Option String
  pub user_agent : String

-- a row of `audit_log`, without its details
pub record AuditRow : Type 0 where
  pub action : String
  pub object_id : ℕ

-- what the handler does to the two cookies of its response
pub data Cookies : Type 0 where
  untouched : Cookies
  set_auth : Text → Text → Cookies
  cleared : Cookies

pub record Db : Type 0 where
  pub users : List User
  pub sessions : List Session
  pub role_permissions : List (String × String)
  pub audit : List AuditRow
  pub cookies : Cookies

-- `CurrentUser`
pub record CurrentUser : Type 0 where
  pub id : ℕ
  pub login : String
  pub display_name : String
  pub role : String
  pub employee_id : Option ℕ
  pub scope_type : String
  pub permissions : List String

-- what `Settings` and the platform give: the secrets, the lifetimes and the text form of a UUID
pub record Settings : Type 0 where
  pub jwt_secret : Text
  pub jwt_issuer : String
  pub access_token_minutes : ℕ
  pub refresh_token_days : ℕ
  pub uuid_text : ℕ → String
  pub uuid_of : String → Option ℕ
  pub lower : String → String

-- the request: its moment, its client (the user agent cut to 500 characters) and the random values drawn for it (`uuid4()` for a session
-- and for a family, `generate_totp_secret()`)
pub record Request : Type 0 where
  pub now : ℕ
  pub client_ip : Option String
  pub user_agent : String
  pub fresh_session : ℕ
  pub fresh_family : ℕ
  pub fresh_secret : Text

-- `_auth_audit`
unfoldable pub auth_audit : String → ℕ → Action Db ⊤
auth_audit action user_id =
    modify λ db. record db { audit = record { action = action; object_id = user_id } ∷ db.audit }

abbrev pub set_user : ℕ → (User → User) → Action Db ⊤
set_user user_id f =
    modify λ db. record db { users = update_where (λ u. u.id == user_id) f db.users }

-- five failures lock the login for fifteen minutes; the count goes on
abbrev pub count_failure : ℕ → User → User
count_failure now u = record u {
  failed_login_attempts = u.failed_login_attempts + 1;
  locked_until =
      if leb 5 (u.failed_login_attempts + 1) then some (now + 15 * 60) else u.locked_until;
}

-- `_record_login_failure`
unfoldable pub record_login_failure : ℕ → ℕ → Action Db ⊤
unfolding auth_audit
record_login_failure user_id now = do
  set_user user_id (count_failure now)
  auth_audit "auth_login_failed" user_id

-- the permissions of a role; a role has each once
abbrev pub permissions_of : String → List (String × String) → List String
permissions_of role rows = map (λ r. r.1) (select (λ r. r.0 =s role) rows)

abbrev pub current_user : List (String × String) → User → CurrentUser
current_user rows u = record {
  id = u.id;
  login = u.login;
  display_name = u.display_name;
  role = u.role_code;
  employee_id = u.employee_id;
  scope_type = u.scope_type;
  permissions = permissions_of u.role_code rows;
}

-- the row, if it is there and active
abbrev pub active : Option User → Option User
active none = none
active (some u) = if u.is_active then some u else none

-- `load_current_user`
unfoldable pub load_current_user : ℕ → Db → Option CurrentUser
load_current_user user_id db = elim (active (find? (λ u. u.id == user_id) db.users)) [
  | none ↦ none
  | some u ↦ some (current_user db.role_permissions u)
]

-- `row["locked_until"] and row["locked_until"] > now`
abbrev pub is_locked : User → ℕ → Bool
is_locked u now = elim u.locked_until [ none ↦ false | some t ↦ ltb now t ]

-- The user that is loaded has the id that was asked for.
pub load_current_user-id :
    (user_id : ℕ) (db : Db) (u : CurrentUser)
    → load_current_user user_id db ≡ some u
    → u.id ≡ user_id
unfolding load_current_user
load_current_user-id user_id db u h = elim (Option-cases (find? (λ x. x.id == user_id) db.users)) [
  | inl missing ↦ absurd (ground arith)
  | inr (x, e) ↦ ground (arith, find?_holds (λ y. y.id == user_id) db.users x e)
]
