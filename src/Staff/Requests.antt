-- ===== src/Staff/Requests.antt =====
-- admin_schemas.py: the requests that write departments and employees, and what validates them.
use iskan.Prelude.{
  ℕ, leb, length, strip, String, one_of, Bool, true, false, not, ◌&&◌, ◌||◌, List, [], ◌∷◌, Option,
  none, some,
}
use iskan.Http.Errors.{http, runtime_error, Result, ok, err, raise_if, ◌>>=◌, ◌>>◌}
use iskan.Security.Crypto.{Text}
use iskan.Absences.Change.{Change, unset, null, value, is_sent}

pub record Department : Type 0 where
  pub id : ℕ
  pub name : Text
  pub parent_id : Option ℕ

pub record Employee : Type 0 where
  pub id : ℕ
  pub full_name : Text
  pub email : Option Text
  pub department_id : Option ℕ
  pub department_name : Option Text
  pub position_title : Option Text
  pub hire_date : Option ℕ
  pub timezone : Text
  pub planned_daily_minutes : ℕ
  pub status : String

pub record Db : Type 0 where
  pub departments : List Department
  pub employees : List Employee
  pub audit_log : List (String × ℕ)

-- `DepartmentCreate`, `EmployeeCreate` and `EmployeePatch`
pub record DepartmentCreate : Type 0 where
  pub name : Text
  pub parent_id : Option ℕ

pub record EmployeeCreate : Type 0 where
  pub full_name : Text
  pub email : Option Text
  pub department_id : Option ℕ
  pub position_title : Option Text
  pub hire_date : Option ℕ
  pub timezone : Text
  pub planned_daily_minutes : ℕ

pub record EmployeePatch : Type 0 where
  pub full_name : Change Text
  pub email : Change Text
  pub department_id : Change ℕ
  pub position_title : Change Text
  pub hire_date : Change ℕ
  pub timezone : Change Text
  pub status : Change String
  pub planned_daily_minutes : Change ℕ

-- the columns that the `UPDATE` sets
pub record EmployeeChanges : Type 0 where
  pub full_name : Option Text
  pub email : Change Text
  pub department_id : Change ℕ
  pub position_title : Change Text
  pub hire_date : Change ℕ
  pub timezone : Option Text
  pub status : Option String
  pub planned_daily_minutes : Option ℕ

-- `Field(min_length=low, max_length=high)`
abbrev pub is_sized : ℕ → ℕ → Text → Bool
is_sized low high text = leb low (length text) && leb (length text) high

abbrev pub fits_option : {A : Type 0} → (A → Bool) → Option A → Bool
fits_option test none = true
fits_option test (some a) = test a

abbrev pub fits : {A : Type 0} → (A → Bool) → Change A → Bool
fits test unset = true
fits test null = true
fits test (value a) = test a

-- `normalize_name`
unfoldable pub checked_department : DepartmentCreate → Result DepartmentCreate
checked_department p = do
  raise_if (not (is_sized 1 120 p.name)) (http 422 "DepartmentCreate")
  ok (record p { name = strip p.name })

-- `text or None`
abbrev pub or_none : Text → Option Text
or_none [] = none
or_none (x ∷ xs) = some (x ∷ xs)

abbrev pub as_change : Text → Change Text
as_change [] = null
as_change (x ∷ xs) = value (x ∷ xs)

module _ (lower : Text → Text) where
  -- `normalize_email`
  abbrev pub normalize_email : Option Text → Option Text
  normalize_email none = none
  normalize_email (some email) = or_none (lower (strip email))

  -- `EmployeeCreate`
  unfoldable pub checked_employee : EmployeeCreate → Result EmployeeCreate
  checked_employee p = do
    raise_if
        (not (
          is_sized 1 200 p.full_name
          && fits_option (is_sized 0 320) p.email
          && fits_option (is_sized 0 160) p.position_title
          && is_sized 1 80 p.timezone
          && leb p.planned_daily_minutes 1440))
        (http 422 "EmployeeCreate")
    ok (record p {
      full_name = strip p.full_name;
      timezone = strip p.timezone;
      email = normalize_email p.email;
    })

  -- the changes of the e-mail: an empty text is null
  abbrev pub normalized_email : Change Text → Change Text
  normalized_email unset = unset
  normalized_email null = null
  normalized_email (value email) = as_change (lower (strip email))

-- `EmployeePatch`
unfoldable pub checked_patch : EmployeePatch → Result EmployeePatch
checked_patch p = do
  raise_if
      (not (
        fits (is_sized 1 200) p.full_name
        && fits (is_sized 0 320) p.email
        && fits (is_sized 0 160) p.position_title
        && fits (is_sized 1 80) p.timezone
        && fits (λ s. one_of s ("active" ∷ "inactive" ∷ [])) p.status
        && fits (λ n. leb n 1440) p.planned_daily_minutes))
      (http 422 "EmployeePatch")
  raise_if
      (not (
        is_sent p.full_name
        || is_sent p.email
        || is_sent p.department_id
        || is_sent p.position_title
        || is_sent p.hire_date
        || is_sent p.timezone
        || is_sent p.status
        || is_sent p.planned_daily_minutes))
      (http 422 "Нужно передать хотя бы одно изменение")
  ok p

-- a text that is sent and must not be blank
abbrev pub required_text : String → Text → Result (Option Text)
required_text message [] = err (http 422 message)
required_text message (x ∷ xs) = ok (some (x ∷ xs))

abbrev pub required : String → Change Text → Result (Option Text)
required message unset = ok none
required message null = err (http 422 message)
required message (value text) = required_text message (strip text)

-- a column that is NOT NULL, if a row is written
abbrev pub not_null : {A : Type 0} → Bool → Change A → Result (Option A)
not_null written unset = ok none
not_null true null = err (runtime_error "NotNullViolationError")
not_null false null = ok none
not_null written (value a) = ok (some a)

-- the changes of `update_employee`, of which the NOT NULL columns are refused by the `UPDATE` alone
unfoldable pub employee_changes : (Text → Text) → EmployeePatch → Bool → Result EmployeeChanges
employee_changes lower p exists = do
  full_name ← (required "Имя не может быть пустым" p.full_name)
  timezone ← (required "Часовой пояс не может быть пустым" p.timezone)
  status ← (not_null exists p.status)
  minutes ← (not_null exists p.planned_daily_minutes)
  ok (record {
    full_name = full_name;
    email = normalized_email lower p.email;
    department_id = p.department_id;
    position_title = p.position_title;
    hire_date = p.hire_date;
    timezone = timezone;
    status = status;
    planned_daily_minutes = minutes;
  })
