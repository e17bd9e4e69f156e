-- ===== src/Security/Totp/Laws.antt =====
-- One-time codes: their form, and the window in which one is accepted.
use iskan.Prelude.{
  ℕ, zero, suc, ◌+◌, ◌-◌, ◌/◌, ◌%◌, ◌^◌, ◌≤◌, ◌<◌, ◌≡◌, ◌≢◌, refl, ◌∙◌, ap, inl, inr, true, List,
  [], ◌∷◌, ◌++◌, length, all, ◌==◌, list_eq, list_eq_refl, list_eq_sound, arith, Bool-cases, Member,
  here, there, Member-All,
}
use native.Mathlib.Nat.{pow-suc}
use iskan.Http.Errors.{ok, Result-cases}
use iskan.Security.Crypto.{Text, Crypto, replicate}
use iskan.Security.Totp.{
  is_ascii, is_digit, isdigit, refused_code, str_loop, str, zfill, totp_key, code_at, totp_code,
  any_code, verify_totp,
}

-- A number below 10 ^ (k + 1) has at most k + 1 digits.
length-str_loop :
    (fuel k n : ℕ) (acc : Text)
    → n < 10 ^ (suc k)
    → length (str_loop fuel n acc) ≤ suc k + length acc
unfolding str_loop
length-str_loop zero k n acc h = omega arith
length-str_loop (suc fuel) zero n acc h =
    let e : n / 10 ≡ 0 = omega arith in rw (e, str_loop) (omega arith)
length-str_loop (suc fuel) (suc k) n acc h =
    let smaller : n / 10 < 10 ^ (suc k) = omega (arith, pow-suc 10 (suc k)) in
    ground (arith, length-str_loop fuel k (n / 10) ((b'0' + n % 10) ∷ acc) smaller)

digit_of : (n : ℕ) → is_digit (b'0' + n % 10) ≡ true
digit_of n = ground arith

all-str_loop :
    (fuel n : ℕ) (acc : Text) → all is_digit acc ≡ true → all is_digit (str_loop fuel n acc) ≡ true
unfolding str_loop
all-str_loop zero n acc h = h
all-str_loop (suc fuel) n acc h =
    let more : all is_digit ((b'0' + n % 10) ∷ acc) ≡ true = rw (digit_of n) h in
    elim (Bool-cases (n / 10 == 0)) [
      | inl e ↦ rw e more
      | inr e ↦ rw e (all-str_loop fuel (n / 10) ((b'0' + n % 10) ∷ acc) more)
    ]

all-zeros : (k : ℕ) (t : Text) → all is_digit t ≡ true → all is_digit (replicate k b'0' ++ t) ≡ true
all-zeros zero t h = h
all-zeros (suc k) t h = all-zeros k t h

length-zeros : (k : ℕ) (t : Text) → length (replicate k b'0' ++ t) ≡ k + length t
length-zeros zero t = omega arith
length-zeros (suc k) t = omega (arith, length-zeros k t)

six_digits :
    (n : ℕ) → n < 10 ^ 6 → (length (zfill 6 (str n)) ≡ 6) × (all is_digit (zfill 6 (str n)) ≡ true)
unfolding zfill str
six_digits n h =
    let short : length (str_loop (n + 1) n []) ≤ 6 = length-str_loop (n + 1) 5 n [] h in
    (
      length-zeros (6 - length (str_loop (n + 1) n [])) _ ∙ omega (arith, short),
      all-zeros (6 - length (str_loop (n + 1) n [])) _ (all-str_loop (n + 1) n [] refl),
    )

module _ (c : Crypto) where
  code_at-digits :
      (key : Text) (n : ℕ)
      → (length (code_at c key n) ≡ 6) × (all is_digit (code_at c key n) ≡ true)
  unfolding code_at
  code_at-digits key n = six_digits _ (omega arith)

  any_code_sound :
      (secret : Text) (ts : List ℕ) (code : Text)
      → any_code c secret ts code ≡ ok true
      → (t : ℕ) × Member t ts × (totp_code c secret t ≡ ok code)
  any_code_sound secret [] code h = cc
  any_code_sound secret (t ∷ ts) code h = elim (Result-cases (totp_code c secret t)) [
    | inr (e, failed) ↦ absurd (ground arith)
    | inl (found, e) ↦ elim (Bool-cases (list_eq found code)) [
      | inl same ↦ (t, here refl, e ∙ ap ok (list_eq_sound found code same))
      | inr other ↦ let (u, m, f) = any_code_sound secret ts code (ground arith) in (u, there m, f)
    ]
  ]

-- digits of ASCII are digits and are ASCII
all-digits :
    (c : Crypto) (code : Text)
    → all is_digit code ≡ true
    → (all (isdigit c) code ≡ true) × (all is_ascii code ≡ true)
all-digits c [] h = (refl, refl)
all-digits c (x ∷ xs) h =
    let (digits, plain) = all-digits c xs (ground (arith, h)) in
    (ground (arith, h, digits), ground (arith, h, plain))

refused_code-fails : (c : Crypto) (secret : Text) (t : ℕ) → refused_code c secret t ≢ ok true
refused_code-fails c secret t h = elim (Result-cases (totp_code c secret t)) [
  | inl (found, e) ↦ absurd (ground (arith, h, e))
  | inr (x, e) ↦ absurd (ground (arith, h, e))
]

module _ (c : Crypto) (secret : Text) where
  totp_code-ok :
      (t : ℕ) (code : Text)
      → totp_code c secret t ≡ ok code
      → (key : Text) × (totp_key c secret ≡ ok key) × (code ≡ code_at c key (t / 30))
  unfolding totp_code
  totp_code-ok t code h = elim (Result-cases (totp_key c secret)) [
    | inr (e, failed) ↦ absurd (ground arith)
    | inl (key, e) ↦ (key, e, ground arith)
  ]

  -- Every code has six decimal digits.
  totp_code-digits :
      (t : ℕ) (code : Text)
      → totp_code c secret t ≡ ok code
      → (length code ≡ 6) × (all is_digit code ≡ true)
  totp_code-digits t code h =
      let (key, _, e) = totp_code-ok t code h in rw e (code_at-digits c key (t / 30))

  -- A code is accepted in its own step of 30 seconds and in the two beside it.
  pub verify_totp-accepts :
      (made now : ℕ) (code : Text)
      → 30 ≤ now
      → totp_code c secret made ≡ ok code
      → made / 30 ≤ now / 30 + 1
      → now / 30 ≤ made / 30 + 1
      → verify_totp c secret code now ≡ ok true
  unfolding verify_totp totp_code
  verify_totp-accepts made now code start h late early =
      let (key, k, e) = totp_code-ok made code h in
      let (six, digits) = totp_code-digits made code h in
      let (accepted, plain) = all-digits c code digits in
      let before : (now - 30) / 30 ≡ now / 30 - 1 = omega arith in
      let after : (now + 30) / 30 ≡ now / 30 + 1 = omega arith in ground (arith, list_eq_refl code)

  -- What is accepted is the code of a moment at most 30 seconds away.
  pub verify_totp_sound :
      (now : ℕ) (code : Text)
      → verify_totp c secret code now ≡ ok true
      → (made : ℕ) × (totp_code c secret made ≡ ok code) × (now ≤ made + 30) × (made ≤ now + 30)
  unfolding verify_totp
  verify_totp_sound now code h =
      let (t, m, e) =
        any_code_sound c secret ((now - 30) ∷ now ∷ (now + 30) ∷ []) code
          (ground (arith, h, refused_code-fails c secret (now - 30))) in
      let (low, high) = Member-All (λ s. (now ≤ s + 30) × (s ≤ now + 30)) (omega arith) m in
      (t, e, low, high)
