-- ===== src/Auth/Session.antt =====
-- auth.py: `_create_session`, `refresh`, `logout`.
pub mod Rotation
pub mod Reuse
use iskan.Prelude.{
  ℕ, ◌+◌, ◌*◌, ◌==◌, leb, ltb, String, ◌=s◌, list_eq, Bool, true, false, not, ◌&&◌, ◌||◌, List, [],
  ◌∷◌, Option, none, some, ⊤, find?, update_where, is_none, is_some, coalesce, or_else,
  if◌then◌else◌,
}
use iskan.Http.Errors.{Error, http, Result, ok, err}
use iskan.Http.{
  Action, pure, raise, gets, or_raise, modify, transaction, raise_if, when, ◌>>=◌, ◌>>◌,
}
use iskan.Security.Crypto.{Text, Value, text, Dict, Crypto}
use iskan.Security.Token.{lookup, encode_token, decode_token}
use iskan.Auth.Store.{
  User, Session, Cookies, untouched, set_auth, cleared, Db, CurrentUser, Settings, Request,
  load_current_user,
}

-- `hash_refresh_token`
unfoldable pub hash_refresh_token : Crypto → Text → Text → Text
hash_refresh_token c token secret = c.hmac_sha256_hex secret token

-- what a session's creation answers: the access token, its lifetime and the user
pub record Granted : Type 0 where
  pub access_token : Text
  pub expires_in : ℕ
  pub user : CurrentUser

-- the ids that a refresh token carries
pub record Ids : Type 0 where
  pub session_id : ℕ
  pub family_id : ℕ
  pub user_id : ℕ

-- `UPDATE refresh_sessions SET revoked_at=COALESCE(revoked_at, now())`
abbrev pub revoke : ℕ → Session → Session
revoke now s = record s { revoked_at = coalesce s.revoked_at (some now) }

-- `… SET revoked_at=now(), replaced_by=$1`
abbrev pub replace : ℕ → ℕ → Session → Session
replace now by s = record s { revoked_at = some now; replaced_by = some by }

abbrev pub insert_session : Session → Db → Db
insert_session s db = record db { sessions = s ∷ db.sessions }

abbrev pub update_sessions : (Session → Bool) → (Session → Session) → Action Db ⊤
update_sessions p f = modify λ db. record db { sessions = update_where p f db.sessions }

abbrev pub set_cookies : Cookies → Action Db ⊤
set_cookies k = modify λ db. record db { cookies = k }

-- `if c: m; raise e`
abbrev pub abort_if : Bool → Action Db ⊤ → Error → Action Db ⊤
abort_if c m e = if c then m >> raise e else pure tt

-- `if not refresh_cookie`
abbrev pub non_empty : Option Text → Option Text
non_empty none = none
non_empty (some []) = none
non_empty (some (x ∷ xs)) = some (x ∷ xs)

-- an exception of the `try` clears the cookies
abbrev pub or_clear : {A : Type 0} → Option A → Error → Action Db A
or_clear none e = set_cookies cleared >> raise e
or_clear (some a) e = pure a

-- `family_id or uuid4()`
abbrev pub new_ids : CurrentUser → Request → Option ℕ → Ids
new_ids user req family = record {
  session_id = req.fresh_session;
  family_id = or_else family req.fresh_family;
  user_id = user.id;
}

module _ (c : Crypto) (cfg : Settings) where
  unfoldable pub access_token : ℕ → ℕ → Text
  access_token user_id now =
      encode_token c (("sub", text (cfg.uuid_text user_id)) ∷ []) cfg.jwt_secret cfg.jwt_issuer
        (cfg.access_token_minutes * 60) "access" now

  unfoldable pub refresh_token : Ids → ℕ → Text
  refresh_token ids now =
      encode_token c
        (("sub", text (cfg.uuid_text ids.user_id))
          ∷ ("sid", text (cfg.uuid_text ids.session_id))
          ∷ ("fid", text (cfg.uuid_text ids.family_id))
          ∷ [])
        cfg.jwt_secret cfg.jwt_issuer (cfg.refresh_token_days * 86400) "refresh" now

  -- the row that `_create_session` inserts
  unfoldable pub new_session : Ids → Request → Session
  new_session ids req = record {
    id = ids.session_id;
    family_id = ids.family_id;
    user_id = ids.user_id;
    token_hash = hash_refresh_token c (refresh_token ids req.now) cfg.jwt_secret;
    expires_at = req.now + cfg.refresh_token_days * 86400;
    revoked_at = none;
    replaced_by = none;
    ip_address = req.client_ip;
    user_agent = req.user_agent;
  }

  -- `if replaces_session_id is not None:`
  abbrev pub replace_session : Option ℕ → Request → Action Db ⊤
  replace_session none req = pure tt
  replace_session (some old) req =
      update_sessions (λ s. s.id == old) (replace req.now req.fresh_session)

  -- `_create_session`
  unfoldable pub create_session : CurrentUser → Request → Option ℕ → Option ℕ → Action Db Granted
  create_session user req family replaces = do
    let ids = new_ids user req family
    modify (insert_session (new_session ids req))
    replace_session replaces req
    set_cookies (set_auth (access_token user.id req.now) (refresh_token ids req.now))
    pure (record {
      access_token = access_token user.id req.now;
      expires_in = cfg.access_token_minutes * 60;
      user = user;
    })

  -- `UUID(claims[k])`; `none` is a KeyError or a ValueError
  unfoldable pub uuid_claim : String → Dict → Option ℕ
  uuid_claim k d = elim (lookup k d) [
    | none ↦ none
    | some v ↦ elim v [ text s ↦ cfg.uuid_of s | _ ↦ none ]
  ]

  -- the first `try` of `refresh`: the ids of a token that decodes; `none` is any of its exceptions
  unfoldable pub refresh_ids : Text → ℕ → Option Ids
  refresh_ids token now = elim (decode_token c token cfg.jwt_secret cfg.jwt_issuer "refresh" now) [
    | err e ↦ none
    | ok d ↦ elim (uuid_claim "sid" d) [
      | none ↦ none
      | some sid ↦ elim (uuid_claim "fid" d) [
        | none ↦ none
        | some fid ↦ elim (uuid_claim "sub" d) [
          | none ↦ none
          | some sub ↦ some (record { session_id = sid; family_id = fid; user_id = sub })
        ]
      ]
    ]
  ]

  -- the session, if it is the one that the token names
  abbrev pub matching : Ids → Option Session → Option Session
  matching ids none = none
  matching ids (some s) =
      if not (s.user_id == ids.user_id) || not (s.family_id == ids.family_id) then none else some s

  -- a token that was used before, or is not the one that was stored
  abbrev pub is_reused : Text → Session → Bool
  is_reused token s =
      is_some s.revoked_at || not (list_eq s.token_hash (hash_refresh_token c token cfg.jwt_secret))

  -- the reads and the checks of `refresh`, up to its transaction
  unfoldable pub check_refresh : Option Text → Request → Action Db (Ids × CurrentUser)
  check_refresh cookie req = do
    token ← or_raise (non_empty cookie) (http 401 "Refresh-токен отсутствует")
    ids ← or_clear (refresh_ids token req.now) (http 401 "Refresh-токен недействителен")
    session ← gets (λ db. find? (λ s. s.id == ids.session_id) db.sessions)
    found ← or_raise (matching ids session) (http 401 "Refresh-сессия не найдена")
    abort_if (is_reused token found)
        (update_sessions (λ s. s.family_id == ids.family_id) (revoke req.now)
          >> set_cookies cleared)
        (http 401 "Обнаружено повторное использование refresh-токена")
    raise_if (leb found.expires_at req.now) (http 401 "Refresh-сессия истекла")
    user ← gets (load_current_user ids.user_id)
    current ← or_raise user (http 401 "Пользователь отключён")
    pure (ids, current)

  -- the transaction of `refresh`
  unfoldable pub commit_refresh : Request → Ids × CurrentUser → Action Db Granted
  commit_refresh req (ids, user) =
      transaction (create_session user req (some ids.family_id) (some ids.session_id))

  unfoldable pub refresh : Option Text → Request → Action Db Granted
  refresh cookie req = do checked ← check_refresh cookie req; commit_refresh req checked

  -- the `try` of `logout`: its exceptions pass
  unfoldable pub logout_session : Option Text → Request → Action Db ⊤
  logout_session none req = pure tt
  logout_session (some token) req =
      elim (decode_token c token cfg.jwt_secret cfg.jwt_issuer "refresh" req.now) [
        | err e ↦ pure tt
        | ok d ↦ elim (uuid_claim "sid" d) [
          | none ↦ pure tt
          | some sid ↦ update_sessions (λ s. s.id == sid) (revoke req.now)
        ]
      ]

  unfoldable pub logout : Option Text → Request → Action Db ⊤
  logout cookie req = do logout_session (non_empty cookie) req; set_cookies cleared
