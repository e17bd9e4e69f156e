-- ===== src/Security/Totp.antt =====
-- backend/app/security.py: `totp_code`, `verify_totp`. Texts are code points; `upper` is
-- that of ASCII, which base32 secrets are.
pub mod Laws
use iskan.Prelude.{
  ℕ, zero, suc, ◌+◌, ◌-◌, ◌*◌, ◌/◌, ◌%◌, ◌^◌, Bool, true, false, not, ◌&&◌, ◌||◌, List, [], ◌∷◌,
  ◌++◌, map, length, all, leb, ltb, ◌==◌, list_eq, if◌then◌else◌,
}
use iskan.Http.Errors.{value_error, runtime_error, Result, ok, err, ◌>>=◌, ◌>>◌, or_raise}
use iskan.Security.Crypto.{Text, Crypto, replicate}

abbrev pub upper : Text → Text
upper = map (λ x. if leb b'a' x && leb x b'z' then x - 32 else x)

abbrev pub is_ascii : ℕ → Bool
is_ascii x = ltb x 128

-- `isdigit` of a character of ASCII
abbrev pub is_digit : ℕ → Bool
is_digit x = leb b'0' x && leb x b'9'

-- `struct.pack(">Q", n)`: the lowest `k` bytes of `n`, the highest first
abbrev pub big_endian : ℕ → ℕ → Text
big_endian zero n = []
big_endian (suc k) n = (n / 256 ^ k % 256) ∷ big_endian k n

-- `struct.unpack(">I", digest[offset : offset + 4])[0]`
abbrev pub byte_at : Text → ℕ → ℕ
byte_at [] i = 0
byte_at (x ∷ xs) zero = x
byte_at (x ∷ xs) (suc i) = byte_at xs i

unfoldable pub unpack_word : Text → ℕ → ℕ
unpack_word digest offset =
    byte_at digest offset * 2 ^ 24
    + byte_at digest (offset + 1) * 2 ^ 16
    + byte_at digest (offset + 2) * 2 ^ 8
    + byte_at digest (offset + 3)

abbrev pub last_byte : Text → ℕ
last_byte digest = byte_at digest (length digest - 1)

-- `str(n)`, in front of what is there; one round for each digit
unfoldable pub str_loop : ℕ → ℕ → Text → Text
str_loop zero n acc = acc
str_loop (suc fuel) n acc =
    let digits = (b'0' + n % 10) ∷ acc in
    let rest = str_loop fuel (n / 10) digits in if n / 10 == 0 then digits else rest

-- `n + 1` rounds are more than `n` has digits.
unfoldable pub str : ℕ → Text
unfolding str_loop
str n = str_loop (n + 1) n []

unfoldable pub zfill : ℕ → Text → Text
zfill width t = replicate (width - length t) b'0' ++ t

module _ (c : Crypto) where
  -- the key that a secret stands for
  unfoldable pub totp_key : Text → Result Text
  totp_key secret =
      or_raise (c.b32decode (upper secret ++ replicate ((8 - length secret % 8) % 8) b'='))
        (value_error "Некорректный TOTP-секрет")

  -- `x & 0x0F` is `x % 2 ^ 4`, and `x & 0x7FFFFFFF` is `x % 2 ^ 31`.
  unfoldable pub code_at : Text → ℕ → Text
  code_at key counter =
      let digest = c.hmac_sha1 key (big_endian 8 counter) in
      let offset = last_byte digest % 2 ^ 4 in
      zfill 6 (str (unpack_word digest offset % 2 ^ 31 % 10 ^ 6))

  unfoldable pub totp_code : Text → ℕ → Result Text
  totp_code secret timestamp = do key ← totp_key secret; ok (code_at key (timestamp / 30))

  -- `any(…)`: the first step that fits ends it, and an exception of a step is the call's
  abbrev pub any_code : Text → List ℕ → Text → Result Bool
  any_code secret [] code = ok false
  any_code secret (timestamp ∷ later) code = do
    expected ← totp_code secret timestamp
    if list_eq expected code then ok true else any_code secret later code

  -- `isdigit` of a character
  abbrev pub isdigit : ℕ → Bool
  isdigit x = if is_ascii x then is_digit x else c.is_other_digit x

  -- what `any(…)` ends in for a code that is not ASCII: the first code is made, and
  -- `compare_digest` raises
  abbrev pub refused_code : Text → ℕ → Result Bool
  refused_code secret timestamp = do
    expected ← totp_code secret timestamp
    err (runtime_error "TypeError")

  -- with `window = 1`, from the step before to the one after
  unfoldable pub verify_totp : Text → Text → ℕ → Result Bool
  verify_totp secret code timestamp =
      if not (length code == 6) || not (all isdigit code)
      then ok false
      else (if all is_ascii code
          then any_code secret ((timestamp - 30) ∷ timestamp ∷ (timestamp + 30) ∷ []) code
          else refused_code secret (timestamp - 30))
