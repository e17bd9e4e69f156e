-- ===== src/Users/Protection.antt =====
-- What managing users cannot do: touch a superadmin without being one, and leave a disabled user
-- a session.
use iskan.Prelude.{
  ℕ, ◌≤◌, ◌≡◌, refl, sym, subst, inl, inr, ◌==◌, ==_iff, String, Bool, true, false, ◌&&◌, ◌||◌,
  List, [], ◌∷◌, some, ⊤, find?, find?_holds, select, update_where, select-update_where,
  count_where, count_where-update_none, is_none, All, Bool-cases, arith, if◌then◌else◌,
}
use iskan.Http.Errors.{Result, ok, err}
use iskan.Security.Crypto.{Crypto}
use iskan.Auth.Store.{User, Session, CurrentUser}
use iskan.Auth.Session.{revoke}
use iskan.Absences.Change.{Change, unset, null, value, is_sent, changed_option}
use iskan.Users.{
  Db, UserAdminPatch, is_superadmin, new_hash, required, assigned, is_false, target_role,
  update_user,
}
use iskan.Users.Written.{update_user-Updated, update_user-err}

-- a session of a user that is not revoked
abbrev pub is_live_of : ℕ → Session → Bool
is_live_of user_id s = (s.user_id == user_id) && is_none s.revoked_at

-- When an update that disables a user or sets their password succeeds, the user has no session
-- left that is not revoked.
pub update_user-revokes :
    (c : Crypto) (user_id : ℕ) (p : UserAdminPatch) (actor : CurrentUser) (now : ℕ) (db db' : Db)
    → update_user c user_id p actor now db ≡ (ok tt, db')
    → (is_false p.is_active || is_sent p.password) ≡ true
    → count_where (is_live_of user_id) db'.sessions ≡ 0
update_user-revokes c user_id p actor now db db' h ends =
    let u = update_user-Updated c user_id p actor now db db' h in
    let same : u.current.id ≡ user_id =
      (==_iff u.current.id user_id).0
        (find?_holds (λ x. x.id == user_id) db.users u.current u.found) in
    let all : db'.sessions
        ≡ update_where (λ s. s.user_id == u.current.id) (revoke now) db.sessions =
      ended (is_false p.is_active || is_sent u.hash) db'.sessions _ db.sessions
        (sent p.password u.hash u.hashed ends) u.done.sessions in
    rw (all, same)
      (count_where-update_none (is_live_of user_id) (λ s. s.user_id == user_id) (revoke now)
        (λ s _. ground arith) (λ s e. ground (arith, e)) db.sessions)
  where
    sent :
        (password hash : Change String)
        → new_hash c password ≡ ok hash
        → (is_false p.is_active || is_sent password) ≡ true
        → (is_false p.is_active || is_sent hash) ≡ true
    sent unset hash k e = ground (arith, k, e)
    sent null hash k e = absurd (ground (arith, k))
    sent (value s) hash k e = ground (arith, k, e)

    ended : (b : Bool) (xs ys zs : List Session) → b ≡ true → xs ≡ (if b then ys else zs) → xs ≡ ys
    ended b xs ys zs e k = ground (arith, e, k)

-- the rows of superadmins
abbrev pub superadmins : Db → List User
superadmins db = select (λ u. is_superadmin u.role_code) db.users

not_among :
    (xs : List User) (user_id : ℕ) (current : User)
    → count_where (λ u. u.id == user_id) xs ≤ 1
    → find? (λ u. u.id == user_id) xs ≡ some current
    → is_superadmin current.role_code ≡ false
    → All (λ u. (u.id == user_id) ≡ true → is_superadmin u.role_code ≡ false) xs
not_among [] user_id current one found low = tt
not_among (x ∷ xs) user_id current one found low = elim (Bool-cases (x.id == user_id)) [
  | inr miss ↦ (
    (λ k. absurd (cc (k, miss))),
    not_among xs user_id current (ground (arith, one, miss)) (ground (arith, found, miss)) low,
  )
  | inl hit ↦ (
    λ _.
        subst (λ (u : User). is_superadmin u.role_code ≡ false) {x = current} {y = x}
          (sym (ground (arith, found, hit))) low,
    others xs (ground (arith, one, hit)),
  )
]
  where
    others :
        (ys : List User)
        → count_where (λ u. u.id == user_id) ys ≡ 0
        → All (λ u. (u.id == user_id) ≡ true → is_superadmin u.role_code ≡ false) ys
    others [] h = tt
    others (y ∷ ys) h = ((λ k. absurd (ground (arith, h, k))), others ys (ground (arith, h)))

-- An actor who is no superadmin leaves every superadmin's row as it is and makes nobody a
-- superadmin, whatever the update answers, if no two users have the id.
pub update_user-superadmins :
    (c : Crypto) (user_id : ℕ) (p : UserAdminPatch) (actor : CurrentUser) (now : ℕ) (db db' : Db)
    (r : Result ⊤)
    → is_superadmin actor.role ≡ false
    → count_where (λ u. u.id == user_id) db.users ≤ 1
    → update_user c user_id p actor now db ≡ (r, db')
    → superadmins db' ≡ superadmins db
update_user-superadmins c user_id p actor now db db' (err e) low one h =
    rw (update_user-err c user_id p actor now db db' e h) refl
update_user-superadmins c user_id p actor now db db' (ok tt) low one h =
    let u = update_user-Updated c user_id p actor now db db' h in
    let same : u.current.id ≡ user_id =
      (==_iff u.current.id user_id).0
        (find?_holds (λ x. x.id == user_id) db.users u.current u.found) in
    let apart = not_among db.users user_id u.current one u.found (ground (arith, u.allowed, low)) in
    rw (u.done.users, same)
      (select-update_where (λ x. is_superadmin x.role_code) (λ x. x.id == user_id)
        (assigned u.done.display_name u.hash u.done.role
          (changed_option p.employee_id u.current.employee_id) u.done.scope_type u.done.is_active)
        db.users apart
        (λ x.
          target p.role_code u.current.role_code u.done.role u.done.given_role
            (ground (arith, u.allowed, low))))
  where
    target :
        (change : Change String) (old new : String)
        → required change old ≡ ok new
        → is_superadmin (target_role change old) ≡ false
        → is_superadmin new ≡ false
    target unset old new k e = ground (arith, k, e)
    target null old new k e = absurd (ground (arith, k))
    target (value s) old new k e = ground (arith, k, e)
