-- ===== src/Tests/Security.antt =====
-- The theorems on tokens and one-time codes at concrete inputs.
use iskan.Prelude.{ℕ, ◌≡◌, refl, [], ◌∷◌, ◌≤◌, ◌+◌, arith, true, String}
use iskan.Http.Errors.{ok}
use iskan.Security.Crypto.{Text}
use iskan.Security.Token.{
  header, lookup, payload_of, encode_token, decode_token, parse_token, has_signature, b64url_encode,
  b64url_decode, rstrip, split_dot, check_claims,
}
use iskan.Security.Token.Laws.{IsGenuine, Reloads, decode_token-IsGenuine, decode-encode}
use iskan.Security.Totp.{totp_code, verify_totp, totp_key, code_at, zfill, str, unpack_word}
use iskan.Security.Totp.Laws.{verify_totp-accepts, verify_totp_sound}
use iskan.Tests.Data.{crypto, crypto-IsBase64, claims, loaded_claims, token}
use iskan.Auth.Session.{refresh_token}

abbrev zeros : Text
zeros = b'0' ∷ b'0' ∷ b'0' ∷ b'0' ∷ b'0' ∷ b'0' ∷ []

Reloads-header : Reloads crypto header header
Reloads-header = record { loaded = refl; size = refl; items = λ k. refl }

Reloads-claims :
    Reloads crypto (payload_of crypto claims "iskan" 86400 1000 "refresh") loaded_claims
Reloads-claims = record { loaded = refl; size = refl; items = λ k. refl }

decode-encode_example :
    (decode_token crypto
        (encode_token crypto claims (7 ∷ []) "iskan" 86400 "refresh" 1000)
        (7 ∷ [])
        "iskan"
        "refresh"
        2000
      ≡ ok loaded_claims)
    × ((k : String)
        → lookup k loaded_claims ≡ lookup k (payload_of crypto claims "iskan" 86400 1000 "refresh"))
decode-encode_example =
    decode-encode crypto claims header loaded_claims (7 ∷ []) "iskan" "refresh" 86400 1000 2000
      crypto-IsBase64 Reloads-header Reloads-claims (omega arith) (omega arith)

decode_token-IsGenuine_example :
    IsGenuine crypto (7 ∷ []) "iskan" "refresh" 2000 token loaded_claims
unfolding decode_token parse_token has_signature b64url_encode b64url_decode rstrip split_dot
    encode_token check_claims refresh_token
decode_token-IsGenuine_example =
    decode_token-IsGenuine crypto token (7 ∷ []) "iskan" "refresh" 2000 loaded_claims refl

verify_totp-accepts_example : verify_totp crypto (1 ∷ []) zeros 100 ≡ ok true
unfolding totp_code totp_key code_at zfill str unpack_word
verify_totp-accepts_example =
    verify_totp-accepts crypto (1 ∷ []) 90 100 zeros (omega arith) refl (omega arith) (omega arith)

verify_totp_sound_example :
    (made : ℕ) × (totp_code crypto (1 ∷ []) made ≡ ok zeros) × (100 ≤ made + 30) × (made ≤ 100 + 30)
unfolding verify_totp totp_code totp_key code_at zfill str unpack_word
verify_totp_sound_example = verify_totp_sound crypto (1 ∷ []) 100 zeros refl
