-- ===== src/Security/Password.antt =====
-- backend/app/security.py: passwords.
use Prim.Native.String.{count}
use iskan.Prelude.{String, Bool, true, false, none, some, ltb}
use iskan.Http.Errors.{value_error, Result, ok, ◌>>◌, raise_if}
use iskan.Security.Crypto.{Crypto}

module _ (c : Crypto) where
  unfoldable pub hash_password : String → Result String
  hash_password password = do
    raise_if (ltb (count password) 12) (value_error "Пароль должен содержать не менее 12 символов")
    ok (c.argon2 password)

  unfoldable pub verify_password : String → String → Bool
  verify_password password_hash password = elim (c.verify password_hash password) [
    | none ↦ false
    | some valid ↦ valid
  ]

  unfoldable pub password_needs_rehash : String → Bool
  password_needs_rehash password_hash = elim (c.check_needs_rehash password_hash) [
    | none ↦ true
    | some old ↦ old
  ]
