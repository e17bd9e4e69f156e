-- ===== src/Auth/Login.antt =====
-- auth.py: `login`, `confirm_totp`. The URI for the authenticator app is left out of the answer.
pub mod Justified
pub mod Lockout
use iskan.Prelude.{
  ℕ, ◌+◌, ◌*◌, ◌==◌, String, ◌=s◌, one_of, Bool, true, false, not, ◌&&◌, List, [], ◌∷◌, Option,
  none, some, ⊤, find?, is_none, coalesce, if◌then◌else◌,
}
use iskan.Http.Errors.{Error, http, runtime_error, Result, ok, err}
use iskan.Http.{Action, pure, raise, gets, or_raise, lift, modify, raise_if, when, ◌>>=◌, ◌>>◌}
use iskan.Security.Crypto.{Text, Value, text, Dict, Crypto}
use iskan.Security.Token.{encode_token, decode_token}
use iskan.Security.Password.{hash_password, verify_password, password_needs_rehash}
use iskan.Security.Totp.{verify_totp}
use iskan.Auth.Store.{
  User, Db, CurrentUser, Settings, Request, auth_audit, set_user, record_login_failure, active,
  load_current_user, is_locked,
}
use iskan.Auth.Session.{Granted, create_session, abort_if, non_empty, uuid_claim}

pub record LoginRequest : Type 0 where
  pub login : String
  pub password : String
  pub totp_code : Option Text

pub data AuthResponse : Type 0 where
  authenticated : Granted → AuthResponse
  totp_required : AuthResponse
  totp_setup_required : Text → Text → AuthResponse

-- `ADMIN_2FA_ROLES`
abbrev pub needs_totp : User → Bool
needs_totp u = one_of u.role_code ("admin" ∷ "superadmin" ∷ [])

abbrev pub reset_failures : ℕ → User → User
reset_failures now u = record u {
  failed_login_attempts = 0;
  locked_until = none;
  last_login_at = some now;
}

abbrev pub confirm : ℕ → User → User
confirm now u = record u {
  failed_login_attempts = 0;
  locked_until = none;
  totp_confirmed_at = coalesce u.totp_confirmed_at (some now);
  last_login_at = some now;
}

module _ (c : Crypto) (cfg : Settings) where
  unfoldable pub setup_token : ℕ → ℕ → Text
  setup_token user_id now =
      encode_token c (("sub", text (cfg.uuid_text user_id)) ∷ []) cfg.jwt_secret cfg.jwt_issuer
        (5 * 60) "totp_setup" now

  -- the row that `login` selects
  abbrev pub by_login : String → Db → Option User
  by_login name db = find? (λ u. cfg.lower u.login =s name) db.users

  -- `if not secret: secret = generate_totp_secret(); UPDATE users …`
  unfoldable pub ensure_secret : User → Request → Action Db Text
  ensure_secret row req = elim (non_empty row.totp_secret) [
    | some secret ↦ pure secret
    | none ↦
        set_user row.id (λ u. record u { totp_secret = some req.fresh_secret })
        >> pure req.fresh_secret
  ]

  -- the check of a code that was sent
  unfoldable pub check_code : User → Text → Text → Request → Action Db ⊤
  check_code row secret code req = do
    valid ← lift (verify_totp c secret code req.now)
    abort_if (not valid) (record_login_failure row.id req.now) (http 401 "Неверный одноразовый код")

  -- the block for administrators once the secret is there; `some` is an answer that ends the login
  unfoldable pub with_secret :
      User → LoginRequest → Request → Text → Action Db (Option AuthResponse)
  with_secret row payload req secret =
      if is_none row.totp_confirmed_at
      then pure (some (totp_setup_required (setup_token row.id req.now) secret))
      else (elim payload.totp_code [
        | none ↦ pure (some totp_required)
        | some code ↦ check_code row secret code req >> pure none
      ])

  -- `if row["role_code"] in ADMIN_2FA_ROLES:`
  unfoldable pub second_factor : User → LoginRequest → Request → Action Db (Option AuthResponse)
  second_factor row payload req =
      if not (needs_totp row)
      then pure none
      else (ensure_secret row req >>= with_secret row payload req)

  -- `if password_needs_rehash(…)`
  unfoldable pub rehash : User → LoginRequest → Action Db ⊤
  rehash row payload = when (password_needs_rehash c row.password_hash) (do
    fresh ← lift (hash_password c payload.password)
    set_user row.id (λ u. record u { password_hash = fresh }))

  -- a user that is gone by now has no `id`: an AttributeError
  abbrev pub start_session : ℕ → Request → Action Db AuthResponse
  start_session user_id req = do
    user ← gets (load_current_user user_id)
    current ← or_raise user (runtime_error "AttributeError")
    granted ← create_session c cfg current req none none
    pure (authenticated granted)

  -- the end of `login`, once every check has passed: the statements behind the new hash
  unfoldable pub admit : User → Request → ⊤ → Action Db AuthResponse
  admit row req done = do
    set_user row.id (reset_failures req.now)
    auth_audit "auth_login_succeeded" row.id
    start_session row.id req

  unfoldable pub finish_login : User → LoginRequest → Request → Action Db AuthResponse
  finish_login row payload req = rehash row payload >>= admit row req

  -- `login` behind the second factor's block
  unfoldable pub conclude :
      User → LoginRequest → Request → Option AuthResponse → Action Db AuthResponse
  conclude row payload req (some answer) = pure answer
  conclude row payload req none = finish_login row payload req

  unfoldable pub login : LoginRequest → Request → Action Db AuthResponse
  login payload req = do
    found ← gets (by_login payload.login)
    row ← or_raise (active found) (http 401 "Неверный логин или пароль")
    raise_if (is_locked row req.now) (http 423 "Вход временно заблокирован после пяти ошибок")
    abort_if (not (verify_password c row.password_hash payload.password))
        (record_login_failure row.id req.now) (http 401 "Неверный логин или пароль")
    second_factor row payload req >>= conclude row payload req

  -- `UUID(claims["sub"])` of a setup token; `none` is any exception of the `try`
  unfoldable pub setup_user : Text → ℕ → Option ℕ
  setup_user token now =
      elim (decode_token c token cfg.jwt_secret cfg.jwt_issuer "totp_setup" now) [
        | err e ↦ none
        | ok d ↦ uuid_claim c cfg "sub" d
      ]

  -- the checks of the row: that it is there, not locked, and that the code is right
  unfoldable pub check_setup : Option User → Text → Request → Action Db ⊤
  check_setup none code req = raise (http 401 "Неверный одноразовый код")
  check_setup (some row) code req = do
    raise_if (is_locked row req.now) (http 423 "Вход временно заблокирован после пяти ошибок")
    elim (non_empty row.totp_secret) [
      | none ↦
          abort_if true (record_login_failure row.id req.now) (http 401 "Неверный одноразовый код")
      | some secret ↦ check_code row secret code req
    ]

  unfoldable pub confirm_totp : Text → Text → Request → Action Db AuthResponse
  confirm_totp token code req = do
    user_id ← or_raise (setup_user token req.now) (http 401 "Настройка 2FA устарела")
    row ← gets (λ db. find? (λ u. (u.id == user_id) && u.is_active) db.users)
    check_setup row code req
    set_user user_id (confirm req.now)
    auth_audit "auth_totp_enabled" user_id
    start_session user_id req
