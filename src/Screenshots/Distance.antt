-- ===== src/Screenshots/Distance.antt =====
-- The distance of two perceptual hashes.
use iskan.Prelude.{ℕ, ◌≡◌, refl, ◌*◌, ◌/◌, ◌%◌, ◌≤◌, length, true, [], ◌∷◌, arith}
use iskan.Http.Errors.{ok}
use iskan.Security.Crypto.{Text}
use iskan.Screenshots.{is_phash, hex_value, differs, digit_distance, distance, phash_distance}

differs_sym : (a b : ℕ) → differs a b ≡ differs b a
differs_sym a b = ground arith

differs_le : (a b : ℕ) → differs a b ≤ 1
differs_le a b = ground arith

differs_refl : (a : ℕ) → differs a a ≡ 0
differs_refl a = ground arith

digit_distance_sym : (a b : ℕ) → digit_distance a b ≡ digit_distance b a
digit_distance_sym a b = omega (
  arith,
  differs_sym (a % 2) (b % 2),
  differs_sym (a / 2 % 2) (b / 2 % 2),
  differs_sym (a / 4 % 2) (b / 4 % 2),
  differs_sym (a / 8 % 2) (b / 8 % 2),
)

digit_distance_le : (a b : ℕ) → digit_distance a b ≤ 4
digit_distance_le a b = omega (
  arith,
  differs_le (a % 2) (b % 2),
  differs_le (a / 2 % 2) (b / 2 % 2),
  differs_le (a / 4 % 2) (b / 4 % 2),
  differs_le (a / 8 % 2) (b / 8 % 2),
)

digit_distance_refl : (a : ℕ) → digit_distance a a ≡ 0
digit_distance_refl a = omega (
  arith,
  differs_refl (a % 2),
  differs_refl (a / 2 % 2),
  differs_refl (a / 4 % 2),
  differs_refl (a / 8 % 2),
)

distance_sym : (xs ys : Text) → distance xs ys ≡ distance ys xs
distance_sym [] [] = refl
distance_sym [] (y ∷ ys) = refl
distance_sym (x ∷ xs) [] = refl
distance_sym (x ∷ xs) (y ∷ ys) =
    omega (arith, digit_distance_sym (hex_value x) (hex_value y), distance_sym xs ys)

distance_le : (xs ys : Text) → distance xs ys ≤ 4 * length xs
distance_le [] ys = omega arith
distance_le (x ∷ xs) [] = omega arith
distance_le (x ∷ xs) (y ∷ ys) =
    omega (arith, digit_distance_le (hex_value x) (hex_value y), distance_le xs ys)

distance_refl : (xs : Text) → distance xs xs ≡ 0
distance_refl [] = refl
distance_refl (x ∷ xs) = omega (arith, digit_distance_refl (hex_value x), distance_refl xs)

phash_distance_sym : (left right : Text) → phash_distance left right ≡ phash_distance right left
unfolding phash_distance
phash_distance_sym left right = ground (arith, distance_sym left right)

phash_distance_le : (left right : Text) (d : ℕ) → phash_distance left right ≡ ok d → d ≤ 64
unfolding phash_distance
phash_distance_le left right d h = ground (arith, distance_le left right, h)

phash_distance_refl : (left : Text) → is_phash left ≡ true → phash_distance left left ≡ ok 0
unfolding phash_distance
phash_distance_refl left h = ground (arith, distance_refl left, h)

-- The distance of two hashes is the same both ways, errors included; it is at most 64, and a hash's
-- distance to itself is 0.
phash_distance_lem :
    (left right : Text)
    → (phash_distance left right ≡ phash_distance right left)
      × ((d : ℕ) → phash_distance left right ≡ ok d → d ≤ 64)
      × (is_phash left ≡ true → phash_distance left left ≡ ok 0)
phash_distance_lem left right =
    (phash_distance_sym left right, phash_distance_le left right, phash_distance_refl left)
