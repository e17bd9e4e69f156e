-- ===== src/Catalog/Requests.antt =====
-- admin_schemas.py: the requests to the catalogue's routes, and what validates them. A request with
-- several faults is answered with one of them.
use iskan.Prelude.{
  ℕ, leb, ltb, length, strip, String, one_of, Bool, true, not, ◌&&◌, ◌||◌, [], ◌∷◌, Option, none,
  some,
}
use iskan.Http.Errors.{http, runtime_error, Result, ok, err, raise_if, ◌>>=◌, ◌>>◌}
use iskan.Security.Crypto.{Text}
use iskan.Absences.Change.{Change, unset, null, value, is_sent}
use iskan.Catalog.{
  PatternOps, Rule, validate_category_code, validate_hex_color, validate_rule_pattern, refused,
}

-- `CategoryCreate` and `CategoryPatch`
pub record CategoryCreate : Type 0 where
  pub code : Text
  pub name : Text
  pub productivity : String
  pub color : Text

pub record CategoryPatch : Type 0 where
  pub code : Change Text
  pub name : Change Text
  pub productivity : Change String
  pub color : Change Text

-- the columns that an `UPDATE` sets; `none` is a column that it leaves
pub record CategoryChanges : Type 0 where
  pub code : Option Text
  pub name : Option Text
  pub productivity : Option String
  pub color : Option Text

-- `Productivity`
abbrev pub is_productivity : String → Bool
is_productivity s = one_of s ("PRODUCTIVE" ∷ "NEUTRAL" ∷ "UNPRODUCTIVE" ∷ [])

-- `Field(min_length=1, max_length=120)`
abbrev pub is_name : Text → Bool
is_name name = leb 1 (length name) && leb (length name) 120

module _ (t : PatternOps) where
  -- the request's body
  unfoldable pub checked_category : CategoryCreate → Result CategoryCreate
  checked_category p = do
    code ← (refused (validate_category_code t p.code))
    raise_if (not (is_name p.name)) (http 422 "name")
    raise_if (not (is_productivity p.productivity)) (http 422 "productivity")
    color ← (refused (validate_hex_color t p.color))
    ok (record p { code = code; color = color })

-- a value that is sent fits
abbrev pub fits : {A : Type 0} → (A → Bool) → Change A → Bool
fits test unset = true
fits test null = true
fits test (value a) = test a

-- a field with a validator, which calls `strip` also on a null that is sent
abbrev pub checked_change : {A : Type 0} → (A → Result A) → Change A → Result (Change A)
checked_change check unset = ok unset
checked_change check null = err (runtime_error "AttributeError")
checked_change check (value a) = elim (refused (check a)) [ ok b ↦ ok (value b) | err e ↦ err e ]

-- `require_change`
abbrev pub is_empty_patch : CategoryPatch → Bool
is_empty_patch p =
    not (is_sent p.code)
    && not (is_sent p.name)
    && not (is_sent p.productivity)
    && not (is_sent p.color)

module _ (t : PatternOps) where
  -- the patch's body
  unfoldable pub checked_patch : CategoryPatch → Result CategoryPatch
  checked_patch p = do
    code ← (checked_change (validate_category_code t) p.code)
    raise_if (not (fits is_name p.name)) (http 422 "name")
    raise_if (not (fits is_productivity p.productivity)) (http 422 "productivity")
    color ← (checked_change (validate_hex_color t) p.color)
    raise_if (is_empty_patch p) (http 422 "Нужно передать хотя бы одно изменение")
    ok (record p { code = code; color = color })

-- a column that is set; null is refused with the exception
abbrev pub set_column : {A : Type 0} → (A → A) → String → Change A → Result (Option A)
set_column normalize exception unset = ok none
set_column normalize exception null = err (runtime_error exception)
set_column normalize exception (value a) = ok (some (normalize a))

-- the columns of the `UPDATE`: the name, on which `strip` is called, and those that are NOT NULL
unfoldable pub category_changes : CategoryPatch → Result CategoryChanges
category_changes p = do
  name ← (set_column strip "AttributeError" p.name)
  code ← (set_column (λ c. c) "NotNullViolationError" p.code)
  productivity ← (set_column (λ s. s) "NotNullViolationError" p.productivity)
  color ← (set_column (λ c. c) "NotNullViolationError" p.color)
  ok (record { code = code; name = name; productivity = productivity; color = color })

-- `RuleCreate` and `RulePatch`
pub record RuleCreate : Type 0 where
  pub priority : ℕ
  pub match_field : String
  pub match_type : String
  pub pattern : Text
  pub category_id : ℕ
  pub enabled : Bool

pub record RulePatch : Type 0 where
  pub priority : Change ℕ
  pub match_field : Change String
  pub match_type : Change String
  pub pattern : Change Text
  pub category_id : Change ℕ
  pub enabled : Change Bool

-- `MatchField` and `MatchType`
abbrev pub is_match_field : String → Bool
is_match_field s =
    one_of s ("process_name" ∷ "window_title" ∷ "url_domain" ∷ "url_full" ∷ "file_path" ∷ [])

abbrev pub is_match_type : String → Bool
is_match_type s = one_of s ("exact" ∷ "contains" ∷ "wildcard" ∷ "regex" ∷ [])

-- the bounds of the requests' fields
abbrev pub is_priority : ℕ → Bool
is_priority n = leb n 100000

abbrev pub is_pattern : Text → Bool
is_pattern text = leb 1 (length text) && leb (length text) 500

-- the column afterwards; null is refused, since no column of a rule takes it
abbrev pub column : {A : Type 0} → Change A → A → Result A
column unset a = ok a
column null a = err (runtime_error "NotNullViolationError")
column (value b) a = ok b

module _ (t : PatternOps) where
  -- `RuleCreate`
  unfoldable pub checked_rule : RuleCreate → Result RuleCreate
  checked_rule p = do
    raise_if
        (not (
          is_priority p.priority
          && is_match_field p.match_field
          && is_match_type p.match_type
          && is_pattern p.pattern
          && ltb 0 p.category_id))
        (http 422 "RuleCreate")
    pattern ← (refused (validate_rule_pattern t p.match_type p.pattern))
    ok (record p { pattern = pattern })

  -- `RulePatch`: a pattern that is sent with its type is validated at once
  abbrev pub patched_pattern : Change String → Change Text → Result (Change Text)
  patched_pattern (value m) (value p) = elim (refused (validate_rule_pattern t m p)) [
    | ok q ↦ ok (value q)
    | err e ↦ err e
  ]
  patched_pattern m p = ok p

  unfoldable pub checked_rule_patch : RulePatch → Result RulePatch
  checked_rule_patch p = do
    raise_if
        (not (
          fits is_priority p.priority
          && fits is_match_field p.match_field
          && fits is_match_type p.match_type
          && fits is_pattern p.pattern
          && fits (ltb 0) p.category_id))
        (http 422 "RulePatch")
    raise_if
        (not (
          is_sent p.priority
          || is_sent p.match_field
          || is_sent p.match_type
          || is_sent p.pattern
          || is_sent p.category_id
          || is_sent p.enabled))
        (http 422 "Нужно передать хотя бы одно изменение")
    pattern ← (patched_pattern p.match_type p.pattern)
    ok (record p { pattern = pattern })

-- the row that the `UPDATE` writes
abbrev pub written : RulePatch → Text → Rule → Result Rule
written p pattern current = do
  priority ← (column p.priority current.priority)
  match_field ← (column p.match_field current.match_field)
  match_type ← (column p.match_type current.match_type)
  category_id ← (column p.category_id current.category_id)
  enabled ← (column p.enabled current.enabled)
  ok (record {
    id = current.id;
    priority = priority;
    match_field = match_field;
    match_type = match_type;
    pattern = pattern;
    category_id = category_id;
    enabled = enabled;
  })
