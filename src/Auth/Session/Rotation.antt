-- ===== src/Auth/Session/Rotation.antt =====
-- Refresh tokens rotate: a family has at most one live session, and a reused token ends its family.
use iskan.Prelude.{
  subst, ℕ, ◌≤◌, ◌<◌, ◌≡◌, ◌⊎◌, inl, inr, ◌==◌, ==_iff, Bool, true, false, not, ◌&&◌, ◌||◌, List,
  ◌∷◌, Option, none, some, find?, update_where, count_where, count_where-update_le,
  count_where-update_lt, is_none, arith, Bool-cases, Option-cases,
}
use iskan.Http.Errors.{Error, ok, err}
use iskan.Http.{outcome}
use iskan.Security.Crypto.{Text, Crypto}
use iskan.Auth.Store.{Session, Db, CurrentUser, Settings, Request, load_current_user}
use iskan.Auth.Session.{
  Ids, Granted, revoke, replace, new_ids, new_session, create_session, refresh_ids, is_reused,
  check_refresh, commit_refresh, refresh, non_empty,
}

-- a session of the family that is not revoked
abbrev pub is_live : ℕ → Session → Bool
is_live family s = s.family_id == family && is_none s.revoked_at

abbrev pub live : ℕ → Db → ℕ
live family db = count_where (is_live family) db.sessions

-- No family has two live sessions.
abbrev pub IsLinear : Db → Type 0
IsLinear db = (family : ℕ) → live family db ≤ 1

module _ (c : Crypto) (cfg : Settings) (cookie : Option Text) (req : Request) where
  -- What a refresh that passes its checks has found; the tables are as before.
  pub record Passed (db : Db) (ids : Ids) (user : CurrentUser) : Type 0 where
    pub session : Session
    pub found : find? (λ s. s.id == ids.session_id) db.sessions ≡ some session
    pub user_id : session.user_id ≡ ids.user_id
    pub family_id : session.family_id ≡ ids.family_id
    pub unused : session.revoked_at ≡ none
    pub alive : req.now < session.expires_at
    pub loaded : load_current_user ids.user_id db ≡ some user

  check_refresh-Passed :
      (db db' : Db) (ids : Ids) (user : CurrentUser)
      → check_refresh c cfg cookie req db ≡ (ok (ids, user), db')
      → (db' ≡ db) × Passed db ids user
  unfolding check_refresh
  check_refresh-Passed db db' ids user h =
      elim (Option-cases (find? (λ s. s.id == ids.session_id) db.sessions)) [
        | inl missing ↦ absurd (ground arith)
        | inr (s, e) ↦ (
          ground arith,
          record {
            session = s;
            found = e;
            user_id = ground arith;
            family_id = ground arith;
            unused = ground arith;
            alive = ground arith;
            loaded = ground arith;
          },
        )
      ]

  -- A refresh that succeeds has passed its checks, and only adds the next session and marks the
  -- old one.
  pub refresh-ok :
      (db db' : Db) (g : Granted)
      → refresh c cfg cookie req db ≡ (ok g, db')
      → (ids : Ids) × (user : CurrentUser) × Passed db ids user
        × (g.user ≡ user)
        × (db'.sessions
            ≡ update_where
                (λ s. s.id == ids.session_id)
                (replace req.now req.fresh_session)
                (new_session c cfg (new_ids user req (some ids.family_id)) req ∷ db.sessions))
  unfolding refresh commit_refresh create_session
  refresh-ok db db' g h = elim (outcome (check_refresh c cfg cookie req db)) [
    | inr (e, db₁, failed) ↦ absurd (ground arith)
    | inl ((ids, user), db₁, passed) ↦
        let (same, p) = check_refresh-Passed db db₁ ids user passed in
        (ids, user, p, ground arith, ground arith)
  ]

-- Whether a new id is that of no session.
abbrev pub IsFresh : ℕ → Db → Type 0
IsFresh id db = find? (λ s. s.id == id) db.sessions ≡ none

distinct :
    (xs : List Session) (m n : ℕ) {s : Session}
    → find? (λ x. x.id == m) xs ≡ none
    → find? (λ x. x.id == n) xs ≡ some s
    → (m == n) ≡ false
distinct xs m n h k = elim (Bool-cases (m == n)) [
  | inr e ↦ e
  | inl e ↦ absurd (same ((==_iff m n).0 e))
]
  where
    same : m ≡ n → ⊥
    same e = cc (subst (λ z. find? (λ x. x.id == z) xs ≡ none) e h, k)

module _ (c : Crypto) (cfg : Settings) (cookie : Option Text) (req : Request) where
  -- A refresh keeps at most one live session in each family.
  refresh_ok-IsLinear :
      (db db' : Db) (g : Granted)
      → IsLinear db
      → IsFresh req.fresh_session db
      → refresh c cfg cookie req db ≡ (ok g, db')
      → IsLinear db'
  unfolding new_session
  refresh_ok-IsLinear db db' g linear fresh h family =
      let (ids, user, p, _, e) = refresh-ok c cfg cookie req db db' g h in
      let sid = ids.session_id in
      let new_id : (req.fresh_session == sid) ≡ false =
        distinct db.sessions req.fresh_session sid fresh p.found in
      let kept =
        count_where-update_le (is_live family) (λ s. s.id == sid)
          (replace req.now req.fresh_session) (λ s _ k. absurd (dead s k)) db.sessions in
      elim (Bool-cases (ids.family_id == family)) [
        | inr other ↦ rw (e, new_id, other) (omega (arith, kept, linear family))
        | inl same ↦
            let fewer =
              count_where-update_lt (is_live family) (λ s. s.id == sid)
                (replace req.now req.fresh_session) (λ s _. unlive s) db.sessions p.found
                (ground (arith, p.family_id, p.unused)) in
            rw (e, new_id, same) (omega (arith, fewer, linear family))
      ]
    where
      unlive : (s : Session) → is_live family (replace req.now req.fresh_session s) ≡ false
      unlive s = ground arith

      dead : (s : Session) → is_live family (replace req.now req.fresh_session s) ≡ true → ⊥
      dead s k = cc (unlive s, k)

  -- One that fails leaves the sessions, or revokes those of one family.
  pub refresh-err :
      (db db' : Db) (e : Error)
      → refresh c cfg cookie req db ≡ (err e, db')
      → (db'.sessions ≡ db.sessions)
        ⊎ ((family : ℕ) × (db'.sessions
              ≡ update_where (λ s. s.family_id == family) (revoke req.now) db.sessions))
  unfolding refresh commit_refresh create_session check_refresh
  refresh-err db db' e h = elim (Option-cases (non_empty cookie)) [
    | inl missing ↦ inl (ground arith)
    | inr (token, given) ↦ elim (Option-cases (refresh_ids c cfg token req.now)) [
      | inl invalid ↦ inl (ground arith)
      | inr (ids, read) ↦ elim (Option-cases (find? (λ s. s.id == ids.session_id) db.sessions)) [
        | inl unknown ↦ inl (ground arith)
        | inr (s, found) ↦ elim (Bool-cases (is_reused c cfg token s)) [
          | inr unused ↦ inl (ground arith)
          | inl used ↦
              elim (Bool-cases
                (not (s.user_id == ids.user_id) || not (s.family_id == ids.family_id))) [
                  | inl other ↦ inl (ground arith)
                  | inr same ↦ inr (ids.family_id, ground arith)
                ]
        ]
      ]
    ]
  ]

  refresh_err-IsLinear :
      (db db' : Db) (e : Error)
      → IsLinear db
      → refresh c cfg cookie req db ≡ (err e, db')
      → IsLinear db'
  refresh_err-IsLinear db db' e linear h family = elim (refresh-err db db' e h) [
    | inl same ↦ rw same (linear family)
    | inr (ended, all) ↦
        let fewer =
          count_where-update_le (is_live family) (λ s. s.family_id == ended) (revoke req.now)
            (λ s _ k. ground arith) db.sessions in
        rw all (omega (arith, fewer, linear family))
  ]

  -- Whatever a refresh answers, each family has at most one live session afterwards, if each had
  -- at most one before and the new session's id is new.
  pub refresh-IsLinear :
      (db : Db)
      → IsLinear db
      → IsFresh req.fresh_session db
      → IsLinear (refresh c cfg cookie req db).1
  refresh-IsLinear db linear fresh = elim (outcome (refresh c cfg cookie req db)) [
    | inl (g, db', e) ↦ rw e (refresh_ok-IsLinear db db' g linear fresh e)
    | inr (x, db', e) ↦ rw e (refresh_err-IsLinear db db' x linear e)
  ]
