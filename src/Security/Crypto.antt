-- ===== src/Security/Crypto.antt =====
-- The primitives that security.py calls, as a parameter, and the documented laws of base64.
use iskan.Prelude.{
  ℕ, zero, suc, ◌+◌, ◌%◌, ◌<◌, ◌≡◌, ◌≢◌, String, Bool, List, [], ◌∷◌, ◌++◌, Option, some, All,
  length,
}

-- Byte strings, and texts as their code points.
abbrev pub Text : Type 0
Text = List ℕ

-- The values of a token's claims. `int` is what `isinstance(v, int)` holds of: also a bool, true as 1
-- and false as 0. `other` is any other JSON value; a negative number is counted among these, which
-- no claim that the code sets is.
pub data Value : Type 0 where
  text : String → Value
  int : ℕ → Value
  other : Value

abbrev pub Dict : Type 0
Dict = List (String × Value)

-- What `json.loads` may return.
pub data Json : Type 0 where
  obj : Dict → Json
  not_obj : Json

pub record Crypto : Type 0 where
  -- base64.urlsafe_b64encode and urlsafe_b64decode; `none` is an exception
  pub urlsafe_b64encode : Text → Text
  pub urlsafe_b64decode : Text → Option Text
  -- json.dumps(…, sort_keys=True).encode() and json.loads
  pub dumps : Dict → Text
  pub loads : Text → Option Json
  -- hmac.new(key, message, sha256).digest() and .hexdigest()
  pub hmac_sha256 : Text → Text → Text
  pub hmac_sha256_hex : Text → Text → Text
  -- hmac.new(key, message, sha1).digest() and base64.b32decode
  pub hmac_sha1 : Text → Text → Text
  pub b32decode : Text → Option Text
  -- `isdigit` of a character that is not ASCII
  pub is_other_digit : ℕ → Bool
  -- PasswordHasher.verify, check_needs_rehash (`none` is an exception) and hash
  pub verify : String → String → Option Bool
  pub check_needs_rehash : String → Option Bool
  pub argon2 : String → String

abbrev pub replicate : ℕ → ℕ → Text
replicate zero c = []
replicate (suc n) c = c ∷ replicate n c

-- RFC 4648: quartets, at most two `=` and those at the end, and no `.` in the alphabet.
pub record IsBase64 (c : Crypto) : Type 0 where
  pub body : Text → Text
  pub pads : Text → ℕ
  pub encoded : (x : Text) → c.urlsafe_b64encode x ≡ body x ++ replicate (pads x) b'='
  pub alphabet : (x : Text) → All (λ d. (d ≢ b'=') × (d ≢ b'.')) (body x)
  pub few : (x : Text) → pads x < 3
  pub quartets : (x : Text) → (length (body x) + pads x) % 4 ≡ 0
  pub decoded : (x : Text) → c.urlsafe_b64decode (c.urlsafe_b64encode x) ≡ some x
