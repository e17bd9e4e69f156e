-- ===== src/Security/Token/Parts.antt =====
-- Lemmas on the texts of a token: stripping and padding base64, splitting at the dots.
use iskan.Prelude.{ℕ, zero, suc, ◌-◌, ◌%◌, ◌≡◌, refl, ◌≢◌, [], ◌∷◌, ◌++◌, some, All, length, arith}
use iskan.Security.Crypto.{Text, Crypto, replicate, IsBase64}
use iskan.Security.Token.{rstrip, push, split_dot, b64url_encode, b64url_decode}

rstrip-replicate : (k : ℕ) → rstrip (replicate k b'=') ≡ []
unfolding rstrip
rstrip-replicate zero = refl
rstrip-replicate (suc k) = rw (rstrip-replicate k)

rstrip-body :
    (body : Text) (k : ℕ)
    → All (λ d. (d ≢ b'=') × (d ≢ b'.')) body
    → rstrip (body ++ replicate k b'=') ≡ body
unfolding rstrip
rstrip-body [] k h = rstrip-replicate k
rstrip-body (x ∷ []) k h = rw (rstrip-replicate k, push) (ground arith)
rstrip-body (x ∷ y ∷ ys) k h = rw (rstrip-body (y ∷ ys) k h.1)

module _ (c : Crypto) (base : IsBase64 c) (x : Text) where
  pub b64url_encode-body : b64url_encode c x ≡ base.body x
  unfolding b64url_encode
  b64url_encode-body =
      rw (base.encoded x) (rstrip-body (base.body x) (base.pads x) (base.alphabet x))

  padding : (4 - length (base.body x) % 4) % 4 ≡ base.pads x
  padding = omega (arith, base.few x, base.quartets x)

  -- The padding that the encoder strips is what the decoder puts back.
  pub b64url_decode-encode : b64url_decode c (b64url_encode c x) ≡ some x
  unfolding b64url_decode
  b64url_decode-encode =
      rw (b64url_encode-body, b64url_decode, padding) (rw (← base.encoded x) (base.decoded x))

  pub b64url_encode-no_dot : All (λ d. d ≢ b'.') (b64url_encode c x)
  b64url_encode-no_dot = rw b64url_encode-body (drop_first (base.body x) (base.alphabet x))
    where
      drop_first : (t : Text) → All (λ d. (d ≢ b'=') × (d ≢ b'.')) t → All (λ d. d ≢ b'.') t
      drop_first [] h = tt
      drop_first (y ∷ ys) h = (h.0.1, drop_first ys h.1)

pub split_dot-last : (t : Text) → All (λ d. d ≢ b'.') t → split_dot t ≡ t ∷ []
unfolding split_dot
split_dot-last [] h = refl
split_dot-last (x ∷ xs) h = rw (split_dot-last xs h.1) (ground arith)

pub split_dot-append :
    (t rest : Text) → All (λ d. d ≢ b'.') t → split_dot (t ++ (b'.' ∷ rest)) ≡ t ∷ split_dot rest
unfolding split_dot
split_dot-append [] rest h = refl
split_dot-append (x ∷ xs) rest h = rw (split_dot-append xs rest h.1) (ground arith)
