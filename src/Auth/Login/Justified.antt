-- ===== src/Auth/Login/Justified.antt =====
-- What a login or a confirmation that grants a session has checked, and what the others leave.
use iskan.Prelude.{
  ℕ, ◌≡◌, refl, ap, ◌∙◌, inl, inr, ◌==◌, true, false, ◌∷◌, Option, none, some, is_some, or_else,
  arith, Bool-cases, Option-cases, update_where,
}
use iskan.Http.Errors.{Result, ok, err}
use iskan.Http.{>>=-elim}
use iskan.Security.Crypto.{Text, Crypto}
use iskan.Security.Password.{verify_password}
use iskan.Security.Totp.{verify_totp}
use iskan.Auth.Store.{
  User, Db, Settings, Request, active, is_locked, auth_audit, record_login_failure,
  load_current_user, load_current_user-id,
}
use iskan.Auth.Session.{create_session, non_empty, new_session, new_ids}
use iskan.Auth.Login.{
  LoginRequest, AuthResponse, authenticated, totp_required, totp_setup_required, needs_totp,
  by_login, login, second_factor, with_secret, ensure_secret, check_code, rehash, finish_login,
  admit, conclude, start_session,
}

module _ (c : Crypto) (cfg : Settings) (payload : LoginRequest) (req : Request) where
  -- The facts that justify a login: an active account without a lock, the right password, and for
  -- an administrator a confirmed second factor with the right code.
  pub record Justified (db : Db) (row : User) : Type 0 where
    pub found : by_login c cfg payload.login db ≡ some row
    pub is_active : row.is_active ≡ true
    pub unlocked : is_locked row req.now ≡ false
    pub password : verify_password c row.password_hash payload.password ≡ true
    pub factor :
        needs_totp row ≡ true
        → (is_some row.totp_confirmed_at ≡ true)
          × ((code : Text) × (payload.totp_code ≡ some code)
              × (verify_totp c (or_else (non_empty row.totp_secret) req.fresh_secret) code req.now
                  ≡ ok true))

  -- What a login did, by its answer: a session for the row's user, or no session and no cookie.
  abbrev pub Grants : Db → Result AuthResponse × Db → Type 0
  Grants db (ok (authenticated g), db') =
      (row : User) × Justified db row
      × (g.user.id ≡ row.id)
      × (db'.sessions ≡ new_session c cfg (new_ids g.user req none) req ∷ db.sessions)
  Grants db (_, db') = (db'.sessions ≡ db.sessions) × (db'.cookies ≡ db.cookies)

  -- the second factor of a login that goes on, and what the block leaves alone
  abbrev FactorGrants : Db → User → Result (Option AuthResponse) × Db → Type 0
  FactorGrants db row (ok none, db') =
      (needs_totp row ≡ true
        → (is_some row.totp_confirmed_at ≡ true)
          × ((code : Text) × (payload.totp_code ≡ some code)
              × (verify_totp c (or_else (non_empty row.totp_secret) req.fresh_secret) code req.now
                  ≡ ok true)))
      × (db'.sessions ≡ db.sessions)
      × (db'.cookies ≡ db.cookies)
  FactorGrants db row (ok (some (authenticated g)), db') = ⊥
  FactorGrants db row (_, db') = (db'.sessions ≡ db.sessions) × (db'.cookies ≡ db.cookies)

  with_secret-grants :
      (db db₁ : Db) (row : User)
      → db₁.sessions ≡ db.sessions
      → db₁.cookies ≡ db.cookies
      → FactorGrants db row (
          with_secret c cfg row payload req
            (or_else (non_empty row.totp_secret) req.fresh_secret)
            db₁)
  unfolding with_secret check_code record_login_failure auth_audit
  with_secret-grants db db₁ row s k = ground arith

  second_factor-grants :
      (db : Db) (row : User) → FactorGrants db row (second_factor c cfg row payload req db)
  unfolding second_factor ensure_secret
  second_factor-grants db row = elim (Bool-cases (needs_totp row)) [
    | inr other ↦ rw (other, second_factor) ((λ k. cc (k, other)), refl, refl)
    | inl admin ↦ elim (Option-cases (non_empty row.totp_secret)) [
      | inl missing ↦
          rw (admin, second_factor, ensure_secret, missing)
            (rw missing at (
              with_secret-grants db
                (record db {
                  users =
                      update_where (λ u. u.id == row.id)
                        (λ u. record u { totp_secret = some req.fresh_secret }) db.users;
                })
                row refl refl))
      | inr (secret, e) ↦
          rw (admin, second_factor, ensure_secret, e)
            (rw e at (with_secret-grants db db row refl refl))
    ]
  ]

  -- what the end of a login did
  abbrev FinishGrants : Db → ℕ → Result AuthResponse × Db → Type 0
  FinishGrants db user_id (ok (authenticated g), db') =
      (g.user.id ≡ user_id)
      × (db'.sessions ≡ new_session c cfg (new_ids g.user req none) req ∷ db.sessions)
  FinishGrants db user_id (_, db') = (db'.sessions ≡ db.sessions) × (db'.cookies ≡ db.cookies)

  pub start_session-grants :
      (db db₁ : Db) (user_id : ℕ)
      → db₁.sessions ≡ db.sessions
      → db₁.cookies ≡ db.cookies
      → FinishGrants db user_id (start_session c cfg user_id req db₁)
  unfolding create_session
  start_session-grants db db₁ user_id s k = elim (Option-cases (load_current_user user_id db₁)) [
    | inl missing ↦ rw missing (s, k)
    | inr (user, e) ↦ rw e (
      load_current_user-id user_id db₁ user e,
      ap (λ x. new_session c cfg (new_ids user req none) req ∷ x) s,
    )
  ]

  rehash-keeps :
      (db : Db) (row : User)
      → let db' = (rehash c cfg row payload db).1 in
        (db'.sessions ≡ db.sessions) × (db'.cookies ≡ db.cookies)
  unfolding rehash
  rehash-keeps db row = ground arith

  finish_login-grants :
      (db : Db) (row : User) → FinishGrants db row.id (finish_login c cfg row payload req db)
  unfolding finish_login admit auth_audit
  finish_login-grants db row =
      >>=-elim (FinishGrants db row.id) (rehash c cfg row payload) (admit c cfg row req) db
        (λ _ db₁ e.
          let (s, k) = rw e at (rehash-keeps db row) in start_session-grants db _ row.id s k)
        (λ _ db₁ e. rw e at (rehash-keeps db row))

  after_factor :
      {db : Db} (db₁ : Db) {row : User}
      → Justified db row
      → db₁.sessions ≡ db.sessions
      → db₁.cookies ≡ db.cookies
      → (x : Result AuthResponse × Db) → FinishGrants db₁ row.id x
      → Grants db x
  after_factor db₁ {row} j s k (ok (authenticated g), db') (same, added) =
      (row, j, same, added ∙ ap (λ x. new_session c cfg (new_ids g.user req none) req ∷ x) s)
  after_factor db₁ j s k (ok totp_required, db') (s', k') = (s' ∙ s, k' ∙ k)
  after_factor db₁ j s k (ok (totp_setup_required t u), db') (s', k') = (s' ∙ s, k' ∙ k)
  after_factor db₁ j s k (err e, db') (s', k') = (s' ∙ s, k' ∙ k)

  answered :
      (db : Db) (row : User) (answer : AuthResponse) (db₁ : Db)
      → FactorGrants db row (ok (some answer), db₁)
      → Grants db (ok answer, db₁)
  answered db row (authenticated g) db₁ h = elim h [ ]
  answered db row totp_required db₁ h = h
  answered db row (totp_setup_required t u) db₁ h = h

  active-eq :
      (o : Option User) (row : User) → active o ≡ some row → (o ≡ some row) × (row.is_active ≡ true)
  active-eq none row h = cc
  active-eq (some u) row h = ground arith

  concluded :
      (db : Db) (row : User)
      → is_locked row req.now ≡ false
      → verify_password c row.password_hash payload.password ≡ true
      → (by_login c cfg payload.login db ≡ some row) × (row.is_active ≡ true)
      → (early : Option AuthResponse) (db₁ : Db)
      → second_factor c cfg row payload req db ≡ (ok early, db₁)
      → Grants db (conclude c cfg row payload req early db₁)
  unfolding conclude
  concluded db row free right (found, live) (some answer) db₁ f =
      answered db row answer db₁ (rw f at (second_factor-grants db row))
  concluded db row free right (found, live) none db₁ f =
      let (factor, s, k) = rw f at (second_factor-grants db row) in
      let j : Justified db row = record {
        found = found;
        is_active = live;
        unlocked = free;
        password = right;
        factor = factor;
      } in
      after_factor db₁ j s k _ (finish_login-grants db₁ row)

  -- A login grants a session only to an account that is active and not locked, for the right
  -- password, and to an administrator only with a confirmed second factor and its right code; the
  -- one new row is then that session. Any other answer, and any error, adds no session and sets
  -- no cookie.
  pub login-Grants : (db : Db) → Grants db (login c cfg payload req db)
  unfolding login record_login_failure auth_audit
  login-Grants db = elim (Option-cases (active (by_login c cfg payload.login db))) [
    | inl missing ↦ rw (missing, login) (refl, refl)
    | inr (row, e) ↦ elim (Bool-cases (is_locked row req.now)) [
      | inl locked ↦ rw (e, login, locked) (refl, refl)
      | inr free ↦ elim (Bool-cases (verify_password c row.password_hash payload.password)) [
        | inr wrong ↦ rw (e, login, free, wrong) (refl, refl)
        | inl right ↦
            rw (e, login, free, right)
              (>>=-elim (Grants db) (second_factor c cfg row payload req)
                (conclude c cfg row payload req) db
                (concluded db row free right (active-eq _ row e))
                (λ x db₁ f. rw f at (second_factor-grants db row)))
      ]
    ]
  ]
