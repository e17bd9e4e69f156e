-- ===== src/Prelude/Text.antt =====
-- Texts: the native `String` where the code only compares, the list of its code points where it
-- walks or splits one.
use Prim.Native.Char.{code}
use Prim.Native.Nat.{ℕ}
use Prim.Native.String.{String}
use mathlib.Core.Path.{◌≡◌, refl}
use mathlib.Core.Bool.{Bool, true, false, ◌&&◌, ◌||◌}
use mathlib.Core.Logic.{◌↔◌}
use mathlib.Core.List.{List, [], ◌∷◌}
use native.Mathlib.Omega.{arith}
use text.Mathlib.Text.{◌==◌ as str_eq}
use text.Mathlib.TextEquality.{eq_iff}
use iskan.Prelude.Tests.{◌==◌, leb, if◌then◌else◌}

-- The code points of a text.
abbrev pub codes : String → List ℕ
codes String.[] = []
codes (String.◌∷◌ c s) = code c ∷ codes s

infix 50 ◌=s◌
abbrev pub ◌=s◌ : String → String → Bool
s =s t = str_eq s t

pub =s_iff : (s t : String) → ((s =s t) ≡ true) ↔ (s ≡ t)
=s_iff s t = eq_iff s t

-- `s in {…}`
abbrev pub one_of : String → List String → Bool
one_of s [] = false
one_of s (t ∷ ts) = s =s t || one_of s ts

-- Equality of texts given by their code points.
abbrev pub list_eq : List ℕ → List ℕ → Bool
list_eq [] [] = true
list_eq (x ∷ xs) (y ∷ ys) = x == y && list_eq xs ys
list_eq _ _ = false

pub list_eq_refl : (xs : List ℕ) → list_eq xs xs ≡ true
list_eq_refl [] = refl
list_eq_refl (x ∷ xs) = ground (arith, list_eq_refl xs)

pub list_eq_sound : (xs ys : List ℕ) → list_eq xs ys ≡ true → xs ≡ ys
list_eq_sound [] [] h = refl
list_eq_sound [] (y ∷ ys) h = cc
list_eq_sound (x ∷ xs) [] h = cc
list_eq_sound (x ∷ xs) (y ∷ ys) h = ground (arith, list_eq_sound xs ys)

-- what `str.split()` and `str.strip()` take for space
abbrev pub is_space : ℕ → Bool
is_space x =
    (leb 9 x && leb x 13)
    || (leb 28 x && leb x 32)
    || (x == 133)
    || (x == 160)
    || (x == 5760)
    || (leb 8192 x && leb x 8202)
    || (x == 8232)
    || (x == 8233)
    || (x == 8239)
    || (x == 8287)
    || (x == 12288)

abbrev pub lstrip : List ℕ → List ℕ
lstrip [] = []
lstrip (x ∷ xs) = let rest = lstrip xs in if is_space x then rest else x ∷ xs

-- a character before what is left of the text's end
abbrev pub keep : ℕ → List ℕ → List ℕ
keep x [] = if is_space x then [] else x ∷ []
keep x (y ∷ ys) = x ∷ y ∷ ys

abbrev pub rstrip : List ℕ → List ℕ
rstrip [] = []
rstrip (x ∷ xs) = keep x (rstrip xs)

-- `text.strip()`
abbrev pub strip : List ℕ → List ℕ
strip text = lstrip (rstrip text)
