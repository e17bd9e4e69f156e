-- ===== src/Auth/Session/Reuse.antt =====
-- A refresh token that is used again ends its family, and only that family.
use iskan.Prelude.{
  ℕ, ◌≤◌, ◌≡◌, ◌⊎◌, ◌∙◌, sym, inl, inr, ◌==◌, ==_iff, true, false, ◌∷◌, Option, some, find?,
  update_where, count_where-update_le, count_where-update, count_where-update_none,
  count_where-find?, arith, Bool-cases,
}
use iskan.Http.Errors.{http, err}
use iskan.Http.{outcome}
use iskan.Security.Crypto.{Text, Crypto}
use iskan.Auth.Store.{Session, Db, Settings, Request}
use iskan.Auth.Session.{
  Ids, revoke, replace, new_session, new_ids, refresh_ids, is_reused, check_refresh, refresh,
  non_empty,
}
use iskan.Auth.Session.Rotation.{is_live, live, refresh-ok, refresh-err}

module _ (c : Crypto) (cfg : Settings) (cookie : Option Text) (req : Request) where
  -- The cookie's token names a stored session, which was used before or holds another token.
  pub record Replayed (db : Db) (ids : Ids) : Type 0 where
    pub token : Text
    pub session : Session
    pub given : non_empty cookie ≡ some token
    pub read : refresh_ids c cfg token req.now ≡ some ids
    pub found : find? (λ s. s.id == ids.session_id) db.sessions ≡ some session
    pub user_id : session.user_id ≡ ids.user_id
    pub family_id : session.family_id ≡ ids.family_id
    pub reused : is_reused c cfg token session ≡ true

  Replayed-refused :
      (db : Db) (ids : Ids)
      → Replayed db ids
      → ((refresh c cfg cookie req db).0
          ≡ err (http 401 "Обнаружено повторное использование refresh-токена"))
        × ((refresh c cfg cookie req db).1.sessions
            ≡ update_where (λ s. s.family_id == ids.family_id) (revoke req.now) db.sessions)
  unfolding refresh check_refresh
  Replayed-refused db ids r =
      let same_user = (==_iff r.session.user_id ids.user_id).1 r.user_id in
      let same_family = (==_iff r.session.family_id ids.family_id).1 r.family_id in
      (
        ground (arith, r.given, r.read, r.found, same_user, same_family, r.reused),
        ground (arith, r.given, r.read, r.found, same_user, same_family, r.reused),
      )

  -- A token that is presented again, or a forged one for a stored session, is refused with 401;
  -- its family has no live session afterwards, and every other family as many as before.
  pub refresh-Replayed :
      (db : Db) (ids : Ids)
      → Replayed db ids
      → ((refresh c cfg cookie req db).0
          ≡ err (http 401 "Обнаружено повторное использование refresh-токена"))
        × (live ids.family_id (refresh c cfg cookie req db).1 ≡ 0)
        × ((other : ℕ)
            → (other == ids.family_id) ≡ false
            → live other (refresh c cfg cookie req db).1 ≡ live other db)
  refresh-Replayed db ids r =
      let (refused, all) = Replayed-refused db ids r in
      (
        refused,
        rw all (
            count_where-update_none (is_live ids.family_id) (λ s. s.family_id == ids.family_id)
              (revoke req.now) (λ s _. revoked s) (λ s e. ground arith) db.sessions),
        λ other apart. rw all (
            count_where-update (is_live other) (λ s. s.family_id == ids.family_id) (revoke req.now)
              (λ s e. elsewhere other apart s e) db.sessions),
      )
    where
      revoked : (s : Session) → is_live ids.family_id (revoke req.now s) ≡ false
      revoked s = ground arith

      elsewhere :
          (other : ℕ)
          → (other == ids.family_id) ≡ false
          → (s : Session) → (s.family_id == ids.family_id) ≡ true
          → is_live other (revoke req.now s) ≡ is_live other s
      elsewhere other apart s e = elim (Bool-cases (s.family_id == other)) [
        | inr away ↦ ground arith
        | inl at ↦ absurd (
            cc (
              apart,
              (==_iff other ids.family_id).1
                  (sym ((==_iff s.family_id other).0 at) ∙ (==_iff s.family_id ids.family_id).0 e),
            ))
      ]

  -- Whatever a refresh answers, it gives no live session to a family that has none.
  pub refresh-ended :
      (db : Db) (family : ℕ) → live family db ≡ 0 → live family (refresh c cfg cookie req db).1 ≡ 0
  unfolding new_session
  refresh-ended db family ended = elim (outcome (refresh c cfg cookie req db)) [
    | inr (x, db', e) ↦ rw e (elim (refresh-err c cfg cookie req db db' x e) [
      | inl same ↦ rw same ended
      | inr (f, all) ↦
          let fewer =
            count_where-update_le (is_live family) (λ s. s.family_id == f) (revoke req.now)
              (λ s _ k. ground arith) db.sessions in
          rw all (omega (arith, fewer, ended))
    ])
    | inl (g, db', e) ↦
        let (ids, user, p, _, all) = refresh-ok c cfg cookie req db db' g e in
        let apart : (ids.family_id == family) ≡ false =
          away ids (elim (Bool-cases (ids.family_id == family)) [
            | inr f ↦ inr f
            | inl t ↦ inl (
                count_where-find? (is_live family) (λ s. s.id == ids.session_id) (λ s. s)
                  db.sessions p.found (ground (arith, p.family_id, p.unused)))
          ]) in
        let fewer =
          count_where-update_le (is_live family) (λ s. s.id == ids.session_id)
            (replace req.now req.fresh_session) (λ s _ k. absurd (dead s k))
            (new_session c cfg (new_ids user req (some ids.family_id)) req ∷ db.sessions) in
        rw (e, all) (ground (arith, fewer, ended, apart))
  ]
    where
      away :
          (ids : Ids)
          → (1 ≤ live family db) ⊎ ((ids.family_id == family) ≡ false)
          → (ids.family_id == family) ≡ false
      away ids (inl some_live) = absurd (omega (arith, some_live, ended))
      away ids (inr f) = f

      dead : (s : Session) → is_live family (replace req.now req.fresh_session s) ≡ true → ⊥
      dead s k = cc (unlive s, k)
        where
          unlive : (s : Session) → is_live family (replace req.now req.fresh_session s) ≡ false
          unlive s = ground arith
