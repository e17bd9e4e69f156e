-- ===== src/Auth/Login/Lockout.antt =====
-- Wrong passwords: they are counted, and the fifth locks the login for fifteen minutes.
use iskan.Prelude.{
  ◌+◌, ◌*◌, ◌≤◌, ◌<◌, ◌≡◌, refl, ◌∙◌, ap, ◌==◌, ==_refl, ◌=s◌, true, false, List, [], ◌∷◌, none,
  some, find?-update_where, length, arith,
}
use iskan.Http.Errors.{http, err}
use iskan.Security.Crypto.{Crypto}
use iskan.Security.Password.{verify_password}
use iskan.Auth.Store.{
  User, Db, Settings, Request, is_locked, count_failure, auth_audit, record_login_failure,
}
use iskan.Auth.Login.{LoginRequest, by_login, login}

module _ (c : Crypto) (cfg : Settings) where
  -- The row of the login is there, active, and the password that is sent is not its password.
  pub record WrongPassword (payload : LoginRequest) (db : Db) (row : User) : Type 0 where
    pub found : by_login c cfg payload.login db ≡ some row
    pub is_active : row.is_active ≡ true
    pub wrong : verify_password c row.password_hash payload.password ≡ false

  -- several attempts with the same wrong password
  pub attempts : LoginRequest → List Request → Db → Db
  attempts payload [] db = db
  attempts payload (req ∷ reqs) db = attempts payload reqs (login c cfg payload req db).1

  -- A wrong password is answered by 401 and counted in the row, which stays the login's row.
  pub login-wrong :
      (payload : LoginRequest) (req : Request) (db : Db) (row : User)
      → WrongPassword payload db row
      → is_locked row req.now ≡ false
      → ((login c cfg payload req db).0 ≡ err (http 401 "Неверный логин или пароль"))
        × WrongPassword payload (login c cfg payload req db).1 (count_failure req.now row)
  unfolding login record_login_failure auth_audit
  login-wrong payload req db row w free =
      let found' =
        find?-update_where (λ u. cfg.lower u.login =s payload.login) (λ u. u.id == row.id)
          (count_failure req.now) (λ u. refl) db.users w.found in
      (
        ground (arith, w.found, w.is_active, w.wrong),
        record {
          found = ground (arith, w.found, w.is_active, w.wrong, found', ==_refl row.id);
          is_active = w.is_active;
          wrong = w.wrong;
        },
      )

  -- While the lock lasts every login is answered by 423, whatever the password, and changes nothing.
  pub login-locked :
      (payload : LoginRequest) (req : Request) (db : Db) (row : User)
      → by_login c cfg payload.login db ≡ some row
      → row.is_active ≡ true
      → is_locked row req.now ≡ true
      → login c cfg payload req db
        ≡ (err (http 423 "Вход временно заблокирован после пяти ошибок"), db)
  unfolding login
  login-locked payload req db row found live locked = ground arith

  counted :
      (payload : LoginRequest) (reqs : List Request) (db : Db) (row : User)
      → WrongPassword payload db row
      → row.locked_until ≡ none
      → row.failed_login_attempts + length reqs ≤ 4
      → (row' : User) × WrongPassword payload (attempts payload reqs db) row'
        × (row'.locked_until ≡ none)
        × (row'.failed_login_attempts ≡ row.failed_login_attempts + length reqs)
  unfolding attempts
  counted payload [] db row w free few = (row, w, free, omega arith)
  counted payload (req ∷ reqs) db row w free few =
      let (_, w') = login-wrong payload req db row w (ground arith) in
      let (row', w'', free', count) =
        counted payload reqs (login c cfg payload req db).1 (count_failure req.now row) w'
          (ground arith) (omega arith) in
      (row', w'', free', omega (arith, count))

  -- Four wrong passwords in a row and a fifth: for fifteen minutes from the fifth on every login
  -- of that account is refused with 423, also with the right password, and changes nothing.
  pub lockout :
      (payload : LoginRequest) (reqs : List Request) (last : Request) (db : Db) (row : User)
      → WrongPassword payload db row
      → row.locked_until ≡ none
      → row.failed_login_attempts + length reqs ≡ 4
      → (again : LoginRequest) (later : Request) → again.login ≡ payload.login
      → later.now < last.now + 15 * 60
      → let db' = (login c cfg payload last (attempts payload reqs db)).1 in
        login c cfg again later db'
        ≡ (err (http 423 "Вход временно заблокирован после пяти ошибок"), db')
  lockout payload reqs last db row w free four again later same soon =
      let (row', w', free', count) = counted payload reqs db row w free (omega (arith, four)) in
      let (_, w'') = login-wrong payload last (attempts payload reqs db) row' w' (ground arith) in
      login-locked again later _ (count_failure last.now row')
        (ap (λ n. by_login c cfg n (login c cfg payload last (attempts payload reqs db)).1) same
          ∙ w''.found)
        w''.is_active (ground arith)
