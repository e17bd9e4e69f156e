-- ===== src/Tests/Auth.antt =====
-- The theorems on sessions, logins and scopes at concrete inputs.
use iskan.Prelude.{ℕ, ◌≡◌, ◌↔◌, refl, [], ◌∷◌, none, some, ◌==◌, arith, true, false, String}
use iskan.Http.Errors.{http, err}
use iskan.Security.Password.{verify_password}
use iskan.Security.Token.{
  encode_token, decode_token, parse_token, has_signature, b64url_encode, b64url_decode, rstrip,
  split_dot, check_claims,
}
use iskan.Auth.Session.{refresh, refresh_token, refresh_ids, uuid_claim, hash_refresh_token}
use iskan.Auth.Session.Rotation.{IsLinear, live, refresh-IsLinear}
use iskan.Auth.Session.Reuse.{Replayed, refresh-Replayed, refresh-ended}
use iskan.Auth.Login.{LoginRequest, login}
use iskan.Auth.Login.Justified.{Grants, login-Grants}
use iskan.Auth.Login.Lockout.{WrongPassword, attempts, lockout}
use iskan.Auth.Scope.{ScopeTables, is_in, of_user, visible_departments}
use iskan.Auth.Scope.Departments.{Under, visible_departments-Under}
use iskan.Tests.Data.{crypto, settings, user, ids, token, session, db, request}

refresh-IsLinear_example :
    IsLinear (refresh crypto settings (some token) (request 2000) (db none)).1
refresh-IsLinear_example =
    refresh-IsLinear crypto settings (some token) (request 2000) (db none) (λ family. ground arith)
      refl

-- the token of a session that was revoked at 1500
replayed : Replayed crypto settings (some token) (request 2000) (db (some 1500)) ids
unfolding refresh_ids uuid_claim decode_token parse_token has_signature b64url_encode b64url_decode
    rstrip split_dot encode_token check_claims refresh_token hash_refresh_token
replayed = record {
  token = token;
  session = session (some 1500);
  given = refl;
  read = refl;
  found = refl;
  user_id = refl;
  family_id = refl;
  reused = refl;
}

refresh-Replayed_example :
    ((refresh crypto settings (some token) (request 2000) (db (some 1500))).0
      ≡ err (http 401 "Обнаружено повторное использование refresh-токена"))
    × (live 5 (refresh crypto settings (some token) (request 2000) (db (some 1500))).1 ≡ 0)
    × ((other : ℕ)
        → (other == 5) ≡ false
        → live other (refresh crypto settings (some token) (request 2000) (db (some 1500))).1
          ≡ live other (db (some 1500)))
refresh-Replayed_example =
    refresh-Replayed crypto settings (some token) (request 2000) (db (some 1500)) ids replayed

refresh-ended_example :
    live 5 (refresh crypto settings (some token) (request 2000) (db (some 1500))).1 ≡ 0
refresh-ended_example =
    refresh-ended crypto settings (some token) (request 2000) (db (some 1500)) 5 refl

abbrev attempt : String → LoginRequest
attempt password = record { login = "anna"; password = password; totp_code = none }

login-Grants_example :
    Grants crypto settings
      (attempt "secret")
      (request 2000)
      (db none)
      (login crypto settings (attempt "secret") (request 2000) (db none))
login-Grants_example = login-Grants crypto settings (attempt "secret") (request 2000) (db none)

wrong : WrongPassword crypto settings (attempt "guess") (db none) user
unfolding verify_password
wrong = record { found = refl; is_active = refl; wrong = refl }

-- Anna has failed three times: two more lock her login.
lockout_example :
    let db' =
      (login crypto settings
        (attempt "guess")
        (request 2100)
        (attempts crypto settings (attempt "guess") (request 2000 ∷ []) (db none))).1 in
    login crypto settings (attempt "secret") (request 2900) db'
    ≡ (err (http 423 "Вход временно заблокирован после пяти ошибок"), db')
lockout_example =
    lockout crypto settings (attempt "guess") (request 2000 ∷ []) (request 2100) (db none) user
      wrong refl refl (attempt "secret") (request 2900) refl (omega arith)

-- department 2 lies beneath 1, and 3 beneath 2
abbrev departments : ScopeTables
departments = record {
  employee_scope = [];
  department_scope = (7, 1) ∷ [];
  departments =
      record { id = 3; parent_id = some 2 }
      ∷ record { id = 2; parent_id = some 1 }
      ∷ record { id = 1; parent_id = none }
      ∷ [];
  employees = [];
}

visible_departments-Under_example :
    (is_in 3 (visible_departments 7 departments) ≡ true)
    ↔ Under (of_user 7 departments.department_scope) departments.departments 3
visible_departments-Under_example = visible_departments-Under 7 departments 3
