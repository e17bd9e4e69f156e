-- ===== src/Absences/Change.antt =====
-- absences.py: `update_absence` and `delete_absence`.
use iskan.Prelude.{
  ℕ, ◌==◌, ltb, String, Bool, true, false, not, ◌&&◌, ◌||◌, List, [], ◌∷◌, Option, none, some, ⊤,
  find?, delete_where, is_some, if◌then◌else◌,
}
use iskan.Http.{Action, pure, gets, modify, raise_if, or_raise, lift, ◌>>=◌, ◌>>◌}
use iskan.Http.Errors.{http, runtime_error, Result, ok, err}
use iskan.Auth.Store.{CurrentUser}
use iskan.Absences.{
  Absence, AbsenceType, Db, audit, get_absence, ensure_employee_scope, update_absences, can_manage,
  is_own_open,
}

-- a field of a patch: not sent, sent as null, or sent with a value
pub data Change (A : Type 0) : Type 0 where
  unset : Change A
  null : Change A
  value : A → Change A

-- `AbsencePatch`
pub record AbsencePatch : Type 0 where
  pub type_id : Change ℕ
  pub date_from : Change ℕ
  pub date_to : Change ℕ
  pub minutes : Change ℕ
  pub reason : Change String
  pub comment : Change String
  pub severity : Change ℕ

abbrev pub is_sent : {A : Type 0} → Change A → Bool
is_sent unset = false
is_sent null = true
is_sent (value a) = true

-- `changes.get(k, current[k])`; `none` is None
abbrev pub changed : {A : Type 0} → Change A → A → Option A
changed unset a = some a
changed null a = none
changed (value b) a = some b

abbrev pub changed_option : {A : Type 0} → Change A → Option A → Option A
changed_option unset a = a
changed_option null a = none
changed_option (value b) a = some b

abbrev pub has_changes : AbsencePatch → Bool
has_changes p =
    is_sent p.type_id
    || is_sent p.date_from
    || is_sent p.date_to
    || is_sent p.minutes
    || is_sent p.reason
    || is_sent p.comment
    || is_sent p.severity

-- `date_to < date_from`, which None does not have
abbrev pub check_dates : Option ℕ → Option ℕ → Result (ℕ × ℕ)
check_dates none t = err (runtime_error "TypeError")
check_dates (some f) none = err (runtime_error "TypeError")
check_dates (some f) (some t) =
    if ltb t f then err (http 422 "Некорректный диапазон дат") else ok (f, t)

-- `type_id` is NOT NULL and refers to a type
abbrev pub check_reference : Option ℕ → List AbsenceType → Result ℕ
check_reference none types = err (runtime_error "NotNullViolationError")
check_reference (some n) types =
    if is_some (find? (λ t. t.id == n) types)
    then ok n
    else err (runtime_error "ForeignKeyViolationError")

abbrev pub patched : AbsencePatch → ℕ → ℕ → ℕ → Absence → Absence
patched p type_id from to a = record a {
  type_id = type_id;
  date_from = from;
  date_to = to;
  minutes = changed_option p.minutes a.minutes;
  reason = changed_option p.reason a.reason;
  comment = changed_option p.comment a.comment;
  severity = changed_option p.severity a.severity;
}

-- `get_absence(…)` is None, its employee out of sight, or the absence not the user's to touch
abbrev pub load_owned :
    ℕ → CurrentUser → (Absence → Bool) → String → Action Db (Absence × AbsenceType)
load_owned absence_id user allowed refusal = do
  row ← gets (get_absence absence_id)
  current ← or_raise row (http 404 "Событие не найдено")
  ensure_employee_scope user (current.0.employee_id ∷ [])
  raise_if (not (can_manage user) && not (allowed current.0)) (http 403 refusal)
  pure current

-- `update_absence`
unfoldable pub update_absence : ℕ → AbsencePatch → CurrentUser → Action Db ⊤
update_absence absence_id p user = do
  current ← load_owned absence_id user (is_own_open user) "Редактирование запрещено"
  raise_if (not (has_changes p)) (http 422 "Нет изменений")
  dates ←
      lift (
        check_dates (changed p.date_from current.0.date_from) (changed p.date_to current.0.date_to))
  types ← gets (λ db. db.types)
  type_id ← lift (check_reference (changed p.type_id current.0.type_id) types)
  update_absences absence_id (patched p type_id dates.0 dates.1)
  audit "absence_updated" absence_id

-- `delete_absence`
unfoldable pub delete_absence : ℕ → CurrentUser → Action Db ⊤
delete_absence absence_id user = do
  current ← load_owned absence_id user (is_own_open user) "Удаление запрещено"
  modify (λ db. record db { absences = delete_where (λ a. a.id == absence_id) db.absences })
  audit "absence_deleted" absence_id
