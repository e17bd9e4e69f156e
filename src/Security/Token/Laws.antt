-- ===== src/Security/Token/Laws.antt =====
-- Tokens: what is encoded is decoded until it expires, and only what the secret signed is.
use iskan.Prelude.{
  ap, subst, ◌||◌, ℕ, ◌+◌, ◌≤◌, ◌<◌, ◌≡◌, refl, sym, ◌∙◌, inl, inr, String, ◌=s◌, =s_iff,
  list_eq_refl, list_eq_sound, Bool, true, false, not, List, [], ◌∷◌, ◌++◌, Option, none, some,
  length, arith, if◌then◌else◌,
}
use mathlib.Core.List.{append_assoc}
use iskan.Http.Errors.{ok, Result-cases}
use iskan.Security.Crypto.{
  Text, Value, text, int, other, Dict, Json, obj, not_obj, Crypto, IsBase64,
}
use iskan.Security.Token.{
  lookup, insert, three, split_dot, header, is_text, is_header, claims_of, is_past, is_early,
  b64url_encode, payload_of, signing_input, encode_token, decode_token, read_part, Parsed,
  parse_token, check_claims, has_signature,
}
use iskan.Security.Token.Parts.{
  b64url_decode-encode, b64url_encode-no_dot, split_dot-last, split_dot-append,
}

-- `json.loads` gives back a dict with the items of `d`, in an order of its own.
pub record Reloads (c : Crypto) (d d' : Dict) : Type 0 where
  pub loaded : c.loads (c.dumps d) ≡ some (obj d')
  pub size : length d' ≡ length d
  pub items : (k : String) → lookup k d' ≡ lookup k d

pub lookup-insert :
    (k j : String) (v : Value) (d : Dict)
    → lookup j (insert k v d) ≡ (if k =s j then some v else lookup j d)
lookup-insert k j v [] = refl
lookup-insert k j v ((i, w) ∷ d) =
    ground (arith, =s_iff k j, =s_iff i k, =s_iff i j, lookup-insert k j v d)

-- What a token that decodes has to be.
pub record IsGenuine (c : Crypto) (secret : Text) (issuer kind : String) (t : ℕ) (token : Text)
    (d : Dict) : Type 0 where
  pub header_part : Text
  pub payload_part : Text
  pub signature_part : Text
  pub expires : ℕ
  pub not_before : ℕ
  pub parts : split_dot token ≡ header_part ∷ payload_part ∷ signature_part ∷ []
  pub payload : read_part c payload_part ≡ some (obj d)
  pub signed :
      signature_part
      ≡ b64url_encode c (c.hmac_sha256 secret (signing_input c header_part payload_part))
  pub issued_by : lookup "iss" d ≡ some (text issuer)
  pub of_kind : lookup "typ" d ≡ some (text kind)
  pub expiry : lookup "exp" d ≡ some (int expires)
  pub start : lookup "nbf" d ≡ some (int not_before)
  pub alive : t < expires
  pub started : not_before ≤ t

is_text-eq : (v : Option Value) (s : String) → is_text v s ≡ true → v ≡ some (text s)
is_text-eq none s h = cc
is_text-eq (some (text u)) s h = ground (arith, =s_iff u s)
is_text-eq (some (int n)) s h = cc
is_text-eq (some other) s h = cc

not_past : (v : Option Value) (t : ℕ) → is_past v t ≡ false → (e : ℕ) × (v ≡ some (int e)) × (t < e)
not_past none t h = cc
not_past (some (text u)) t h = cc
not_past (some (int e)) t h = (e, refl, ground arith)
not_past (some other) t h = cc

not_early :
    (v : Option Value) (t : ℕ) → is_early v t ≡ false → (e : ℕ) × (v ≡ some (int e)) × (e ≤ t)
not_early none t h = cc
not_early (some (text u)) t h = cc
not_early (some (int e)) t h = (e, refl, ground arith)
not_early (some other) t h = cc

three-eq : (l : List Text) (x : Text × Text × Text) → three l ≡ some x → l ≡ x.0 ∷ x.1 ∷ x.2 ∷ []
three-eq [] x h = cc
three-eq (a ∷ []) x h = cc
three-eq (a ∷ b ∷ []) x h = cc
three-eq (a ∷ b ∷ c ∷ []) x h = ground arith
three-eq (a ∷ b ∷ c ∷ d ∷ l) x h = cc

claims_of-eq : (j : Json) (d : Dict) → claims_of j ≡ ok d → j ≡ obj d
claims_of-eq (obj e) d h = cc
claims_of-eq not_obj d h = cc

not-false : (b : Bool) → not b ≡ false → b ≡ true
not-false true h = refl
not-false false h = cc

neither : (a b : Bool) → (not a || not b) ≡ false → (a ≡ true) × (b ≡ true)
neither true b h = (refl, not-false b h)
neither false b h = cc

parse_token-ok :
    (c : Crypto) (token : Text) (p : Parsed)
    → parse_token c token ≡ ok p
    → (three (split_dot token) ≡ some (p.header_encoded, p.payload_encoded, p.signature_encoded))
      × (read_part c p.payload_encoded ≡ some p.payload)
unfolding parse_token
parse_token-ok c token p h = ground arith

check_claims-ok :
    (d d' : Dict) (issuer kind : String) (t : ℕ)
    → check_claims d issuer kind t ≡ ok d'
    → (d ≡ d')
      × (is_text (lookup "iss" d) issuer ≡ true)
      × (is_text (lookup "typ" d) kind ≡ true)
      × (is_past (lookup "exp" d) t ≡ false)
      × (is_early (lookup "nbf" d) t ≡ false)
unfolding check_claims
check_claims-ok d d' issuer kind t h = ground arith

decode_token-ok :
    (c : Crypto) (token secret : Text) (issuer kind : String) (t : ℕ) (d : Dict)
    → decode_token c token secret issuer kind t ≡ ok d
    → (p : Parsed) × (parse_token c token ≡ ok p)
      × (has_signature c secret p ≡ true)
      × (claims_of p.payload ≡ ok d)
      × (check_claims d issuer kind t ≡ ok d)
unfolding decode_token
decode_token-ok c token secret issuer kind t d h = elim (Result-cases (parse_token c token)) [
  | inr (x, e) ↦ absurd (ground arith)
  | inl (p, e) ↦ elim (Result-cases (claims_of p.payload)) [
    | inr (x, f) ↦ absurd (ground arith)
    | inl (q, f) ↦
        let checked : check_claims q issuer kind t ≡ ok d = ground arith in
        let same = (check_claims-ok q d issuer kind t checked).0 in
        (
          p,
          e,
          ground arith,
          rw (← same) f,
          subst (λ z. check_claims z issuer kind t ≡ ok d) same checked,
        )
  ]
]

-- A token that decodes was signed with the secret, by the issuer, for the use that is asked for,
-- and is neither expired nor early.
pub decode_token-IsGenuine :
    (c : Crypto) (token secret : Text) (issuer kind : String) (t : ℕ) (d : Dict)
    → decode_token c token secret issuer kind t ≡ ok d
    → IsGenuine c secret issuer kind t token d
unfolding has_signature
decode_token-IsGenuine c token secret issuer kind t d h =
    let (p, parsed, signed, claims, checked) = decode_token-ok c token secret issuer kind t d h in
    let (parts, payload) = parse_token-ok c token p parsed in
    let (same, issued, used, alive, started) = check_claims-ok d d issuer kind t checked in
    let (e, exp, late) = not_past (lookup "exp" d) t alive in
    let (n, nbf, early) = not_early (lookup "nbf" d) t started in
    record {
      header_part = p.header_encoded;
      payload_part = p.payload_encoded;
      signature_part = p.signature_encoded;
      expires = e;
      not_before = n;
      parts = three-eq (split_dot token) _ parts;
      payload = payload ∙ ap some (claims_of-eq p.payload d claims);
      signed = sym (list_eq_sound _ _ signed);
      issued_by = is_text-eq (lookup "iss" d) issuer issued;
      of_kind = is_text-eq (lookup "typ" d) kind used;
      expiry = exp;
      start = nbf;
      alive = late;
      started = early;
    }

-- the claims that `encode_token` sets
payload_of-items :
    (c : Crypto) (claims : Dict) (issuer kind : String) (lifetime issued : ℕ)
    → let d = payload_of c claims issuer lifetime issued kind in
      (lookup "iss" d ≡ some (text issuer))
      × (lookup "typ" d ≡ some (text kind))
      × (lookup "exp" d ≡ some (int (issued + lifetime)))
      × (lookup "nbf" d ≡ some (int issued))
payload_of-items c claims issuer kind lifetime issued =
    (simp lookup-insert, simp lookup-insert, simp lookup-insert, simp lookup-insert)

module _ (c : Crypto) (base : IsBase64 c) where
  split_dot-token :
      (x y z : Text)
      → split_dot
          (signing_input c (b64url_encode c x) (b64url_encode c y) ++ (b'.' ∷ b64url_encode c z))
        ≡ b64url_encode c x ∷ b64url_encode c y ∷ b64url_encode c z ∷ []
  split_dot-token x y z =
      let no_dot = b64url_encode-no_dot c base in
      rw (
        append_assoc,
        split_dot-append (b64url_encode c x) _ (no_dot x),
        split_dot-append (b64url_encode c y) _ (no_dot y),
        split_dot-last (b64url_encode c z) (no_dot z),
      )

  parse_token-encoded :
      (d₁ d₂ e₁ e₂ : Dict) (z : Text)
      → c.loads (c.dumps d₁) ≡ some (obj e₁)
      → c.loads (c.dumps d₂) ≡ some (obj e₂)
      → let h = b64url_encode c (c.dumps d₁) in
        let p = b64url_encode c (c.dumps d₂) in
        parse_token c (signing_input c h p ++ (b'.' ∷ b64url_encode c z))
        ≡ ok (record {
          header_encoded = h;
          payload_encoded = p;
          signature_encoded = b64url_encode c z;
          header = obj e₁;
          payload = obj e₂;
        })
  unfolding parse_token
  parse_token-encoded d₁ d₂ e₁ e₂ z r₁ r₂ = ground (
    arith,
    split_dot-token (c.dumps d₁) (c.dumps d₂) z,
    b64url_decode-encode c base (c.dumps d₁),
    b64url_decode-encode c base (c.dumps d₂),
  )

check_claims-holds :
    (d : Dict) (issuer kind : String) (e n t : ℕ)
    → lookup "iss" d ≡ some (text issuer)
    → lookup "typ" d ≡ some (text kind)
    → lookup "exp" d ≡ some (int e)
    → lookup "nbf" d ≡ some (int n)
    → n ≤ t
    → t < e
    → check_claims d issuer kind t ≡ ok d
unfolding check_claims
check_claims-holds d issuer kind e n t iss typ exp nbf early late =
    ground (arith, =s_iff issuer issuer, =s_iff kind kind)

is_header-holds :
    (d : Dict)
    → length d ≡ 2
    → lookup "alg" d ≡ some (text "HS256")
    → lookup "typ" d ≡ some (text "JWT")
    → is_header (obj d) ≡ true
is_header-holds d size alg typ = ground (arith, =s_iff "HS256" "HS256", =s_iff "JWT" "JWT")

-- A token that `encode_token` made is decoded, with every claim, from its issue until it expires.
pub decode-encode :
    (c : Crypto) (claims found d : Dict) (secret : Text) (issuer kind : String)
    (lifetime issued t : ℕ)
    → IsBase64 c
    → Reloads c header found
    → Reloads c (payload_of c claims issuer lifetime issued kind) d
    → issued ≤ t
    → t < issued + lifetime
    → (decode_token c
          (encode_token c claims secret issuer lifetime kind issued)
          secret
          issuer
          kind
          t
        ≡ ok d)
      × ((k : String) → lookup k d ≡ lookup k (payload_of c claims issuer lifetime issued kind))
unfolding encode_token decode_token has_signature
decode-encode c claims found d secret issuer kind lifetime issued t base rh rp early late =
    let all = payload_of c claims issuer lifetime issued kind in
    let (iss, typ, exp, nbf) = payload_of-items c claims issuer kind lifetime issued in
    let good = is_header-holds found rh.size (rh.items "alg" ∙ refl) (rh.items "typ" ∙ refl) in
    let valid =
      check_claims-holds d issuer kind (issued + lifetime) issued t (rp.items "iss" ∙ iss)
        (rp.items "typ" ∙ typ) (rp.items "exp" ∙ exp) (rp.items "nbf" ∙ nbf) early late in
    (
      rw (parse_token-encoded c base header all found d _ rh.loaded rp.loaded)
          (rw (good, list_eq_refl, valid)),
      rp.items,
    )
