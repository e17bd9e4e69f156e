-- ===== src/Tests/Data.antt =====
-- Primitives that are simple enough to compute with, one user, their session and their tokens.
use iskan.Prelude.{
  ℕ, ◌+◌, ◌-◌, ◌%◌, ◌≡◌, ◌≢◌, refl, ap, ◌=s◌, true, false, ltb, ◌==◌, true, false, [], ◌∷◌, ◌++◌,
  Option, none, some, All, length, arith, if◌then◌else◌,
}
use iskan.Security.Crypto.{Text, text, int, Dict, Json, obj, Crypto, IsBase64, replicate}
use iskan.Security.Token.{header}
use iskan.Auth.Store.{User, Session, Db, untouched, Settings, Request}
use iskan.Auth.Session.{Ids, refresh_token, hash_refresh_token}

-- one byte as a quartet
abbrev pub quartets : Text → Text
quartets [] = []
quartets (n ∷ ns) = b'A' ∷ b'A' ∷ b'A' ∷ (n + 100) ∷ quartets ns

abbrev pub bytes : Text → Option Text
bytes [] = some []
bytes (a ∷ []) = none
bytes (a ∷ b ∷ []) = none
bytes (a ∷ b ∷ c ∷ []) = none
bytes (a ∷ b ∷ c ∷ d ∷ ns) = elim (bytes ns) [ none ↦ none | some xs ↦ some ((d - 100) ∷ xs) ]

abbrev pub settings : Settings
settings = record {
  jwt_secret = 7 ∷ [];
  jwt_issuer = "iskan";
  access_token_minutes = 15;
  refresh_token_days = 1;
  uuid_text = λ n. if ltb n 2 then "one" else (if ltb n 3 then "two" else "five");
  uuid_of = λ s. if s =s "one" then some 1 else (if s =s "two" then some 2 else some 5);
  lower = λ s. s;
}

abbrev pub claims_of_setup : Dict
claims_of_setup = ("sub", text "one") ∷ []

-- the claims of the refresh token of session 2 in family 5, of user 1
abbrev pub claims : Dict
claims = ("sub", text "one") ∷ ("sid", text "two") ∷ ("fid", text "five") ∷ []

abbrev pub loaded_claims : Dict
loaded_claims =
    claims
    ++ (("iss", text "iskan")
        ∷ ("iat", int 1000)
        ∷ ("nbf", int 1000)
        ∷ ("exp", int 87400)
        ∷ ("typ", text "refresh")
        ∷ [])

-- what `json.loads` gives for a text that stands for an object of so many items
abbrev pub object : ℕ → Json
object n = if n == 2 then obj header else obj loaded_claims

abbrev pub loads : Text → Option Json
loads [] = none
loads (n ∷ ns) = some (object n)

abbrev pub crypto : Crypto
crypto = record {
  urlsafe_b64encode = quartets;
  urlsafe_b64decode = bytes;
  dumps = λ d. length d ∷ [];
  loads = loads;
  hmac_sha256 = λ key message. length message ∷ [];
  hmac_sha256_hex = λ key message. length message ∷ key;
  hmac_sha1 = λ key message. replicate 20 0;
  is_other_digit = λ x. false;
  b32decode = λ s. some s;
  verify = λ hash password. some (hash =s password);
  check_needs_rehash = λ hash. some false;
  argon2 = λ password. password;
}

quartets-alphabet : (x : Text) → All (λ d. (d ≢ b'=') × (d ≢ b'.')) (quartets x)
quartets-alphabet [] = tt
quartets-alphabet (n ∷ ns) = (
  (λ e. omega (arith, e), λ e. omega (arith, e)),
  (
    (λ e. omega (arith, e), λ e. omega (arith, e)),
    (
      (λ e. omega (arith, e), λ e. omega (arith, e)),
      ((λ e. omega (arith, e), λ e. omega (arith, e)), quartets-alphabet ns),
    ),
  ),
)

quartets-length : (x : Text) → (length (quartets x) + 0) % 4 ≡ 0
quartets-length [] = refl
quartets-length (n ∷ ns) = omega (arith, quartets-length ns)

bytes-quartets : (x : Text) → bytes (quartets x) ≡ some x
bytes-quartets [] = refl
bytes-quartets (n ∷ ns) = ground (arith, bytes-quartets ns)

++_nil : (x : Text) → x ≡ x ++ []
++_nil [] = refl
++_nil (n ∷ ns) = ap (λ ys. n ∷ ys) (++_nil ns)

pub crypto-IsBase64 : IsBase64 crypto
crypto-IsBase64 = record {
  body = quartets;
  pads = λ x. 0;
  encoded = λ x. ++_nil (quartets x);
  alphabet = quartets-alphabet;
  few = λ x. omega arith;
  quartets = quartets-length;
  decoded = bytes-quartets;
}

abbrev pub user : User
user = record {
  id = 1;
  login = "anna";
  display_name = "Anna";
  password_hash = "secret";
  role_code = "manager";
  employee_id = some 11;
  scope_type = "department";
  is_active = true;
  failed_login_attempts = 3;
  locked_until = none;
  totp_secret = none;
  totp_confirmed_at = none;
  last_login_at = none;
}

abbrev pub ids : Ids
ids = record { session_id = 2; family_id = 5; user_id = 1 }

-- the refresh token of session 2
abbrev pub token : Text
token = refresh_token crypto settings ids 1000

abbrev pub session : Option ℕ → Session
session revoked_at = record {
  id = 2;
  family_id = 5;
  user_id = 1;
  token_hash = hash_refresh_token crypto token settings.jwt_secret;
  expires_at = 87400;
  revoked_at = revoked_at;
  replaced_by = none;
  ip_address = none;
  user_agent = "agent";
}

abbrev pub db : Option ℕ → Db
db revoked_at = record {
  users = user ∷ [];
  sessions = session revoked_at ∷ [];
  role_permissions = ("manager", "stream:live") ∷ [];
  audit = [];
  cookies = untouched;
}

abbrev pub request : ℕ → Request
request now = record {
  now = now;
  client_ip = none;
  user_agent = "agent";
  fresh_session = 3;
  fresh_family = 6;
  fresh_secret = 1 ∷ 2 ∷ [];
}
