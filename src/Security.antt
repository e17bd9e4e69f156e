-- ===== src/Security.antt =====
-- backend/app/security.py: signed tokens, passwords and one-time codes. The primitives that
-- the file calls (base64, json, HMAC, Argon2) are the record `Crypto`.
pub mod Crypto
pub mod Token
pub mod Password
pub mod Totp
