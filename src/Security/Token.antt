-- ===== src/Security/Token.antt =====
-- backend/app/security.py: `encode_token`, `decode_token`. A datetime is its POSIX time in whole
-- seconds: the code only uses `int(….timestamp())`.
pub mod Parts
pub mod Laws
use iskan.Prelude.{
  ℕ, zero, suc, ◌+◌, ◌-◌, ◌%◌, ◌<◌, ◌≡◌, refl, String, codes, ◌=s◌, list_eq, Bool, true, false, not,
  ◌&&◌, ◌||◌, List, [], ◌∷◌, ◌++◌, Option, none, some, length, all, ltb, leb, ◌==◌, if◌then◌else◌,
  or_else,
}
use iskan.Http.Errors.{
  Error, token_error, runtime_error, Result, ok, err, ◌>>=◌, ◌>>◌, raise_if, or_raise,
}
use iskan.Security.Crypto.{
  Text, Value, text, int, other, Dict, Json, obj, not_obj, Crypto, replicate,
}

abbrev pub lookup : String → Dict → Option Value
lookup k [] = none
lookup k ((j, v) ∷ d) = if j =s k then some v else lookup k d

-- `{**d, k: v}`
abbrev pub insert : String → Value → Dict → Dict
insert k v [] = (k, v) ∷ []
insert k v ((j, w) ∷ d) = if j =s k then (j, v) ∷ d else (j, w) ∷ insert k v d

-- the rest of a text without its trailing `=`, behind one more character
abbrev pub push : ℕ → Text → Text
push x [] = if x == b'=' then [] else x ∷ []
push x (y ∷ ys) = x ∷ y ∷ ys

-- `rstrip(b"=")`
unfoldable pub rstrip : Text → Text
rstrip [] = []
rstrip (x ∷ xs) = push x (rstrip xs)

-- `split(".")`
abbrev pub extend : ℕ → List Text → List Text
extend x [] = (x ∷ []) ∷ []
extend x (p ∷ ps) = (x ∷ p) ∷ ps

unfoldable pub split_dot : Text → List Text
split_dot [] = [] ∷ []
split_dot (x ∷ xs) = let rest = split_dot xs in if x == b'.' then [] ∷ rest else extend x rest

-- unpacking into three names; another number of parts is a ValueError
abbrev pub three : List Text → Option (Text × Text × Text)
three (a ∷ b ∷ c ∷ []) = some (a, b, c)
three _ = none

-- `header != {"alg": "HS256", "typ": "JWT"}`, the other way round
abbrev pub header : Dict
header = ("alg", text "HS256") ∷ ("typ", text "JWT") ∷ []

abbrev pub is_text : Option Value → String → Bool
is_text (some (text s)) t = s =s t
is_text _ t = false

abbrev pub is_header : Json → Bool
is_header (obj d) =
    (length d == 2) && is_text (lookup "alg" d) "HS256" && is_text (lookup "typ" d) "JWT"
is_header not_obj = false

-- the claims; `payload.get` on a payload that is no dict is an AttributeError
abbrev pub claims_of : Json → Result Dict
claims_of (obj d) = ok d
claims_of not_obj = err (runtime_error "AttributeError")

-- `not isinstance(v, int) or timestamp >= v`
abbrev pub is_past : Option Value → ℕ → Bool
is_past (some (int e)) t = leb e t
is_past _ t = true

-- `not isinstance(v, int) or timestamp < v`
abbrev pub is_early : Option Value → ℕ → Bool
is_early (some (int e)) t = ltb t e
is_early _ t = true

-- the parts of a token, with the header and the payload decoded
pub record Parsed : Type 0 where
  pub header_encoded : Text
  pub payload_encoded : Text
  pub signature_encoded : Text
  pub header : Json
  pub payload : Json

-- the checks of the claims, from the second `if` on
unfoldable pub check_claims : Dict → String → String → ℕ → Result Dict
check_claims payload issuer expected_type timestamp = do
  raise_if
      (not (is_text (lookup "iss" payload) issuer)
        || not (is_text (lookup "typ" payload) expected_type))
      (token_error "Токен выпущен для другого контекста")
  raise_if (is_past (lookup "exp" payload) timestamp) (token_error "Срок действия токена истёк")
  raise_if (is_early (lookup "nbf" payload) timestamp) (token_error "Токен ещё не действует")
  ok payload

module _ (c : Crypto) where
  -- `_b64url_encode`
  unfoldable pub b64url_encode : Text → Text
  b64url_encode value = rstrip (c.urlsafe_b64encode value)

  -- `_b64url_decode`; `-len(value) % 4` is never negative in Python
  unfoldable pub b64url_decode : Text → Option Text
  b64url_decode value = c.urlsafe_b64decode (value ++ replicate ((4 - length value % 4) % 4) b'=')

  -- the token's claims with those that `encode_token` sets
  abbrev pub payload_of : Dict → String → ℕ → ℕ → String → Dict
  payload_of claims issuer lifetime issued_at token_type = insert "typ" (text token_type) (
      insert "exp" (int (issued_at + lifetime)) (
        insert "nbf" (int issued_at)
          (insert "iat" (int issued_at) (insert "iss" (text issuer) claims))))

  abbrev pub signing_input : Text → Text → Text
  signing_input h p = h ++ (b'.' ∷ p)

  unfoldable pub encode_token : Dict → Text → String → ℕ → String → ℕ → Text
  encode_token claims secret issuer lifetime token_type issued_at =
      let payload = payload_of claims issuer lifetime issued_at token_type in
      let input =
        signing_input (b64url_encode (c.dumps header)) (b64url_encode (c.dumps payload)) in
      let signature = c.hmac_sha256 secret input in input ++ (b'.' ∷ b64url_encode signature)

  -- `json.loads(_b64url_decode(part))`
  abbrev pub read_part : Text → Option Json
  read_part part = elim (b64url_decode part) [ none ↦ none | some bytes ↦ c.loads bytes ]

  -- the `try` block: every exception in it becomes one TokenError
  unfoldable pub parse_token : Text → Result Parsed
  parse_token token = do
    (head, body, signature) ← or_raise (three (split_dot token)) (token_error "Некорректный токен")
    found ← or_raise (read_part head) (token_error "Некорректный токен")
    decoded ← or_raise (read_part body) (token_error "Некорректный токен")
    ok (record {
      header_encoded = head;
      payload_encoded = body;
      signature_encoded = signature;
      header = found;
      payload = decoded;
    })

  -- whether the token's signature is that of its first two parts
  unfoldable pub has_signature : Text → Parsed → Bool
  has_signature secret p =
      list_eq
        (b64url_encode (c.hmac_sha256 secret (signing_input p.header_encoded p.payload_encoded)))
        p.signature_encoded

  -- what `compare_digest` ends in where it does not hold: a text that is not ASCII is a TypeError,
  -- and never the text of base64 that it is compared with
  abbrev pub wrong_signature : Text → Error
  wrong_signature signature =
      if all (λ x. ltb x 128) signature
      then token_error "Некорректная подпись токена"
      else runtime_error "TypeError"

  unfoldable pub decode_token : Text → Text → String → String → ℕ → Result Dict
  decode_token token secret issuer expected_type timestamp = do
    p ← parse_token token
    raise_if (not (is_header p.header)) (token_error "Неподдерживаемый формат токена")
    raise_if (not (has_signature secret p)) (wrong_signature p.signature_encoded)
    payload ← claims_of p.payload
    check_claims payload issuer expected_type timestamp
