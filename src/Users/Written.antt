-- ===== src/Users/Written.antt =====
-- What `update_user` has checked and written when it succeeds; when it fails it writes nothing.
use iskan.Prelude.{
  ℕ, ◌≡◌, inl, inr, ◌==◌, String, Bool, false, not, ◌&&◌, ◌||◌, List, Option, some, ⊤, find?,
  update_where, Option-cases, arith, if◌then◌else◌,
}
use iskan.Http.{outcome}
use iskan.Http.Errors.{Error, Result, ok, err, Result-cases}
use iskan.Security.Crypto.{Crypto}
use iskan.Auth.Store.{User, CurrentUser}
use iskan.Auth.Session.{revoke}
use iskan.Absences.Change.{Change, is_sent, changed_option}
use iskan.Users.{
  Db, UserAdminPatch, is_superadmin, new_hash, required, assigned, replace_user_scopes, is_false,
  write_user, target_role, update_user,
}

-- What the scopes' replacement does not touch.
replace_user_scopes-rest :
    (user_id : ℕ) (ds es : Option (List ℕ)) (db db' : Db) (r : Result ⊤)
    → replace_user_scopes user_id ds es db ≡ (r, db')
    → (db'.users ≡ db.users) × (db'.sessions ≡ db.sessions)
unfolding replace_user_scopes
replace_user_scopes-rest user_id ds es db db' r h = (ground (arith, h), ground (arith, h))

-- the rows when a user's data are written
abbrev written : User → (User → User) → Db → Db
written current f db = record db { users = update_where (λ u. u.id == current.id) f db.users }

pub record Written (current : User) (p : UserAdminPatch) (hash : Change String) (now : ℕ)
    (db db' : Db) : Type 0 where
  pub display_name : String
  pub role : String
  pub scope_type : String
  pub is_active : Bool
  pub given_role : required p.role_code current.role_code ≡ ok role
  pub users :
      db'.users
      ≡ update_where
          (λ u. u.id == current.id)
          (assigned display_name hash role
            (changed_option p.employee_id current.employee_id)
            scope_type
            is_active)
          db.users
  pub sessions : db'.sessions ≡ (
      if is_false p.is_active || is_sent hash
      then update_where (λ s. s.user_id == current.id) (revoke now) db.sessions
      else db.sessions)

write_user-Written :
    (current : User) (p : UserAdminPatch) (hash : Change String) (now : ℕ) (db db' : Db)
    → write_user current p hash now db ≡ (ok tt, db')
    → Written current p hash now db db'
unfolding write_user
write_user-Written current p hash now db db' h =
    elim (Result-cases (required p.display_name current.display_name)) [
      | inr (e, k) ↦ absurd (ground (arith, h, k))
      | inl (name, a) ↦ elim (Result-cases (required p.role_code current.role_code)) [
        | inr (e, k) ↦ absurd (ground (arith, h, a, k))
        | inl (role, b) ↦ elim (Result-cases (required p.scope_type current.scope_type)) [
          | inr (e, k) ↦ absurd (ground (arith, h, a, b, k))
          | inl (scope, c) ↦ elim (Result-cases (required p.is_active current.is_active)) [
            | inr (e, k) ↦ absurd (ground (arith, h, a, b, c, k))
            | inl (active, d) ↦
                let f =
                  assigned name hash role (changed_option p.employee_id current.employee_id) scope
                    active in
                let db₁ = written current f db in
                elim (outcome
                  (replace_user_scopes current.id p.department_ids p.employee_ids db₁)) [
                    | inr (e, db₂, k) ↦ absurd (ground (arith, h, a, b, c, d, k))
                    | inl (done, db₂, k) ↦
                        let (users, sessions) =
                          replace_user_scopes-rest current.id p.department_ids p.employee_ids db₁
                            db₂ (ok done) k in
                        record {
                          display_name = name;
                          role = role;
                          scope_type = scope;
                          is_active = active;
                          given_role = b;
                          users = ground (arith, h, a, b, c, d, k, users);
                          sessions = ground (arith, h, a, b, c, d, k, sessions);
                        }
                  ]
          ]
        ]
      ]
    ]

module _ (c : Crypto) (user_id : ℕ) (p : UserAdminPatch) (actor : CurrentUser) (now : ℕ)
    (db db' : Db) where
  -- what an update that succeeds has found and done
  pub record Updated : Type 0 where
    pub current : User
    pub hash : Change String
    pub found : find? (λ u. u.id == user_id) db.users ≡ some current
    pub allowed :
        ((is_superadmin current.role_code
            || is_superadmin (target_role p.role_code current.role_code))
          && not (is_superadmin actor.role))
        ≡ false
    pub hashed : new_hash c p.password ≡ ok hash
    pub done : Written current p hash now db db'

  pub update_user-Updated : update_user c user_id p actor now db ≡ (ok tt, db') → Updated
  unfolding update_user
  update_user-Updated h = elim (Option-cases (find? (λ u. u.id == user_id) db.users)) [
    | inl missing ↦ absurd (ground (arith, h, missing))
    | inr (current, found) ↦ elim (Result-cases (new_hash c p.password)) [
      | inr (e, k) ↦ absurd (ground (arith, h, found, k))
      | inl (hash, hashed) ↦ elim (outcome (write_user current p hash now db)) [
        | inr (e, db₁, k) ↦ absurd (ground (arith, h, found, hashed, k))
        | inl (done, db₁, k) ↦
            let w = write_user-Written current p hash now db db₁ k in
            record {
              current = current;
              hash = hash;
              found = found;
              allowed = ground (arith, h, found);
              hashed = hashed;
              done = record {
                display_name = w.display_name;
                role = w.role;
                scope_type = w.scope_type;
                is_active = w.is_active;
                given_role = w.given_role;
                users = ground (arith, h, found, hashed, k, w.users);
                sessions = ground (arith, h, found, hashed, k, w.sessions);
              };
            }
      ]
    ]
  ]

  pub update_user-err : (e : Error) → update_user c user_id p actor now db ≡ (err e, db') → db' ≡ db
  unfolding update_user
  update_user-err e h = elim (Option-cases (find? (λ u. u.id == user_id) db.users)) [
    | inl missing ↦ ground (arith, h, missing)
    | inr (current, found) ↦ elim (Result-cases (new_hash c p.password)) [
      | inr (x, k) ↦ ground (arith, h, found, k)
      | inl (hash, hashed) ↦ elim (outcome (write_user current p hash now db)) [
        | inr (x, db₁, k) ↦ ground (arith, h, found, hashed, k)
        | inl (done, db₁, k) ↦ ground (arith, h, found, hashed, k)
      ]
    ]
  ]
