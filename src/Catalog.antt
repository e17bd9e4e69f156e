-- ===== src/Catalog.antt =====
-- admin.py and admin_validation.py: the catalogue of categories and classification rules.
-- `Categories` and `Rules` are the routes, `Consistency` is about the tables that they leave.
pub mod Requests
pub mod Categories
pub mod Rules
pub mod Effects
pub mod Consistency
use iskan.Prelude.{
  ℕ, ◌+◌, ◌==◌, leb, length, all, any, strip, codes, list_eq, String, ◌=s◌, Bool, true, false, not,
  ◌&&◌, ◌||◌, List, [], ◌∷◌, Option, none, some, ⊤, is_some, count_where, if◌then◌else◌,
}
use iskan.Http.{Action, modify}
use iskan.Http.Errors.{Error, http, value_error, Result, ok, err, ◌>>=◌}
use iskan.Security.Crypto.{Text}
use iskan.Screenshots.{is_hex}

-- what the platform gives: `str.lower` and `str.upper`, and the error of `re.compile`
pub record PatternOps : Type 0 where
  pub lower : Text → Text
  pub upper : Text → Text
  pub compile_error : Text → Option String

pub record Category : Type 0 where
  pub id : ℕ
  pub code : Text
  pub name : Text
  pub productivity : String
  pub color : Text
  pub is_system : Bool

pub record Rule : Type 0 where
  pub id : ℕ
  pub priority : ℕ
  pub match_field : String
  pub match_type : String
  pub pattern : Text
  pub category_id : ℕ
  pub enabled : Bool

pub record Db : Type 0 where
  pub categories : List Category
  pub rules : List Rule
  pub audit_log : List (String × ℕ)

abbrev pub audit : String → ℕ → Action Db ⊤
audit action id = modify (λ db. record db { audit_log = (action, id) ∷ db.audit_log })

-- a character of `[a-z0-9_-]`
abbrev pub is_lower : ℕ → Bool
is_lower x = leb b'a' x && leb x b'z'

abbrev pub is_code_char : ℕ → Bool
is_code_char x = is_lower x || (leb b'0' x && leb x b'9') || (x == b'_') || (x == b'-')

-- `CATEGORY_CODE_RE.fullmatch` and `HEX_COLOR_RE.fullmatch`
abbrev pub is_category_code : Text → Bool
is_category_code [] = false
is_category_code (x ∷ xs) =
    is_lower x && leb 1 (length xs) && leb (length xs) 49 && all is_code_char xs

abbrev pub is_hex_color : Text → Bool
is_hex_color [] = false
is_hex_color (x ∷ xs) = (x == b'#') && (length xs == 6) && all is_hex xs

abbrev pub require : Bool → Text → String → Result Text
require true value message = ok value
require false value message = err (value_error message)

module _ (t : PatternOps) where
  unfoldable pub validate_category_code : Text → Result Text
  validate_category_code value =
      let normalized = t.lower (strip value) in
      require (is_category_code normalized) normalized
        "Код должен начинаться с латинской буквы и содержать 2–50 символов"

  unfoldable pub validate_hex_color : Text → Result Text
  validate_hex_color value =
      let normalized = t.upper (strip value) in
      require (is_hex_color normalized) normalized "Цвет должен быть в формате #RRGGBB"

  -- `re.compile`, of a pattern of type `regex`
  abbrev pub check_regex : Option String → Text → Result Text
  check_regex none pattern = ok pattern
  check_regex (some message) pattern = err (value_error message)

  abbrev pub check_pattern : Bool → Text → Result Text
  check_pattern is_regex [] = err (value_error "Шаблон правила не может быть пустым")
  check_pattern true (x ∷ xs) = check_regex (t.compile_error (x ∷ xs)) (x ∷ xs)
  check_pattern false (x ∷ xs) = ok (x ∷ xs)

  unfoldable pub validate_rule_pattern : String → Text → Result Text
  validate_rule_pattern match_type pattern = check_pattern (match_type =s "regex") (strip pattern)

-- the validation of a request's body, and `except ValueError`, answer 422
abbrev pub refused : {A : Type 0} → Result A → Result A
refused (ok a) = ok a
refused (err (value_error message)) = err (http 422 message)
refused (err e) = err e
