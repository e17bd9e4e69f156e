-- ===== src/Screenshots.antt =====
-- screenshots.py: the table of screenshots, the distance of two perceptual hashes and what a
-- screenshot shows. A duplicate has no file of its own and names the screenshot that has.
pub mod Form
pub mod Upload
pub mod Distance
pub mod Retention
pub mod Linked
pub mod Gallery
pub mod Insert
pub mod Stored
pub mod Files
pub mod Response
pub mod Shown
use Prim.Native.String.{String}
use iskan.Prelude.{
  ℕ, ◌+◌, ◌*◌, ◌-◌, ◌/◌, ◌%◌, ◌==◌, leb, ltb, codes, ◌=s◌, length, all, Bool, true, false, not,
  ◌&&◌, ◌||◌, List, [], ◌∷◌, Option, none, some, ⊤, find?, or_else, coalesce, if◌then◌else◌,
}
use iskan.Http.{Action, pure, gets, raise_if, or_raise, ◌>>=◌, ◌>>◌}
use iskan.Http.Errors.{Error, http, value_error, Result, ok, err}
use iskan.Security.Crypto.{Text}
use iskan.Auth.Scope.{sees}

-- what is stored of a screenshot as it was sent
pub record Details : Type 0 where
  pub width : ℕ
  pub height : ℕ
  pub size_bytes : ℕ
  pub is_blurred : Bool
  pub state : Option String
  pub category_id : Option ℕ
  pub app_name : Option String
  pub url_domain : Option String

pub record Screenshot : Type 0 where
  pub id : ℕ
  pub employee_id : Option ℕ
  pub device_id : ℕ
  pub taken_at : ℕ
  pub monitor_index : ℕ
  pub storage_key : Option String
  pub thumb_key : Option String
  pub phash : Option Text
  pub duplicate_of_id : Option ℕ
  pub activity_event_id : Option ℕ
  pub details : Details

-- an event that a screenshot may lie in
pub record EventSpan : Type 0 where
  pub id : ℕ
  pub device_id : ℕ
  pub ts_start : ℕ
  pub ts_end : ℕ

-- an object of the storage
pub record Object : Type 0 where
  pub key : String
  pub content : Text

-- a row of `audit_log` about who has seen a screenshot
pub record View : Type 0 where
  pub user_id : ℕ
  pub action : String
  pub screenshot_id : ℕ
  pub target_employee_id : Option ℕ

-- `duplicate_of_id` refers to the table; `stored` is the object storage, the latest object first
pub record Db : Type 0 where
  pub screenshots : List Screenshot
  pub events : List EventSpan
  pub stored : List Object
  pub views : List View

abbrev pub has_key : String → Object → Bool
has_key key o = o.key =s key

-- a digit of `[0-9a-fA-F]`
abbrev pub is_hex : ℕ → Bool
is_hex x = (leb b'0' x && leb x b'9') || (leb b'a' x && leb x b'f') || (leb b'A' x && leb x b'F')

-- the value of a digit, in either case
abbrev pub hex_value : ℕ → ℕ
hex_value x = if leb x b'9' then x - b'0' else (if leb x b'F' then x - b'A' + 10 else x - b'a' + 10)

-- `PHASH_RE.fullmatch`
abbrev pub is_phash : Text → Bool
is_phash text = (length text == 16) && all is_hex text

-- whether two bits differ
abbrev pub differs : ℕ → ℕ → ℕ
differs a b = if a == b then 0 else 1

-- the bits of one digit that differ
abbrev pub digit_distance : ℕ → ℕ → ℕ
digit_distance a b =
    differs (a % 2) (b % 2)
    + differs (a / 2 % 2) (b / 2 % 2)
    + differs (a / 4 % 2) (b / 4 % 2)
    + differs (a / 8 % 2) (b / 8 % 2)

-- `(x ^ y).bit_count()` of two numbers of as many digits, digit by digit
abbrev pub distance : Text → Text → ℕ
distance [] ys = 0
distance (x ∷ xs) [] = 0
distance (x ∷ xs) (y ∷ ys) = digit_distance (hex_value x) (hex_value y) + distance xs ys

-- `phash_distance`
unfoldable pub phash_distance : Text → Text → Result ℕ
phash_distance left right =
    if not (is_phash left) || not (is_phash right)
    then err (value_error "pHash должен быть 16-символьным hex")
    else ok (distance left right)

-- the row, with the row that it is a duplicate of
abbrev pub source_of : Screenshot → List Screenshot → Option Screenshot
source_of s rows = elim s.duplicate_of_id [ none ↦ none | some r ↦ find? (λ x. x.id == r) rows ]

abbrev pub key_of : Option Screenshot → Option String
key_of none = none
key_of (some s) = s.storage_key

abbrev pub thumb_of : Option Screenshot → Option String
thumb_of none = none
thumb_of (some s) = s.thumb_key

-- `resolved_storage_key` and `resolved_thumb_key`
abbrev pub resolved_storage_key : Screenshot → List Screenshot → Option String
resolved_storage_key s rows = coalesce s.storage_key (key_of (source_of s rows))

abbrev pub resolved_thumb_key : Screenshot → List Screenshot → Option String
resolved_thumb_key s rows =
    coalesce s.thumb_key (coalesce (thumb_of (source_of s rows)) (key_of (source_of s rows)))

-- `ensure_employee_scope`
abbrev pub ensure_employee_scope : Option (List ℕ) → Option ℕ → Action Db ⊤
ensure_employee_scope visible none = pure tt
ensure_employee_scope visible (some e) =
    raise_if (not (sees visible e)) (http 404 "Сотрудник не найден")

-- `screenshot_object`; keys are never empty texts
unfoldable pub screenshot_object : ℕ → Option (List ℕ) → Bool → Action Db (Screenshot × String)
screenshot_object screenshot_id visible thumbnail = do
  rows ← gets (λ db. db.screenshots)
  row ← or_raise (find? (λ s. s.id == screenshot_id) rows) (http 404 "Скриншот не найден")
  ensure_employee_scope visible row.employee_id
  key ←
      or_raise (if thumbnail then resolved_thumb_key row rows else resolved_storage_key row rows)
        (http 404 "Файл скриншота не найден")
  pure (row, key)
