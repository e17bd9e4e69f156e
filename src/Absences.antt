-- ===== src/Absences.antt =====
-- absences.py: the tables, the guards that its handlers share, and the handlers that create,
-- change, delete and decide absences. A date is the number of its day.
pub mod Create
pub mod Change
pub mod Decide
pub mod Rows
pub mod Invariant
pub mod Finality
use iskan.Prelude.{
  ℕ, ◌==◌, leb, String, ◌=s◌, any, all, Bool, true, false, not, ◌&&◌, ◌||◌, List, [], ◌∷◌, ◌++◌,
  map, Option, none, some, ⊤, find?, select, update_where, is_some, is_number, if◌then◌else◌,
}
use iskan.Http.{Action, pure, gets, modify, raise, raise_if, or_raise, ◌>>=◌, ◌>>◌}
use iskan.Http.Errors.{Error, http, Result, ok, err}
use iskan.Auth.Store.{CurrentUser, AuditRow, User}
use iskan.Auth.Scope.{ScopeTables, visible_employee_ids, sees, has_permission, is_in}

-- `AbsenceStatus`
pub data Status : Type 0 where
  draft : Status
  pending : Status
  approved : Status
  rejected : Status

pub record Absence : Type 0 where
  pub id : ℕ
  pub employee_id : ℕ
  pub type_id : ℕ
  pub date_from : ℕ
  pub date_to : ℕ
  pub minutes : Option ℕ
  pub reason : Option String
  pub comment : Option String
  pub attachment_key : Option String
  pub severity : Option ℕ
  pub status : Status
  pub created_by : Option ℕ
  pub approved_by : Option ℕ
  pub approved_at : Option ℕ

pub record AbsenceType : Type 0 where
  pub id : ℕ
  pub code : String
  pub requires_document : Bool

pub record Notification : Type 0 where
  pub user_id : ℕ
  pub notification_type : String
  pub absence_id : ℕ

pub record Db : Type 0 where
  pub absences : List Absence
  pub types : List AbsenceType
  pub scope : ScopeTables
  pub users : List User
  pub notifications : List Notification
  pub audit : List AuditRow

-- `audit`
abbrev pub audit : String → ℕ → Action Db ⊤
audit action object_id =
    modify λ db. record db { audit = record { action = action; object_id = object_id } ∷ db.audit }

-- `get_absence`: the row joined to its type
abbrev pub get_absence : ℕ → Db → Option (Absence × AbsenceType)
get_absence absence_id db = elim (find? (λ a. a.id == absence_id) db.absences) [
  | none ↦ none
  | some a ↦ elim (find? (λ t. t.id == a.type_id) db.types) [ none ↦ none | some t ↦ some (a, t) ]
]

-- `ensure_employee_scope`
abbrev pub ensure_employee_scope : CurrentUser → List ℕ → Action Db ⊤
ensure_employee_scope user ids db =
    raise_if (not (all (sees (visible_employee_ids user db.scope)) ids))
      (http 404 "Сотрудник не найден") db

-- `"absence:manage" in user.permissions`
abbrev pub can_manage : CurrentUser → Bool
can_manage user = has_permission "absence:manage" user

-- `status in {"draft", "pending"}`
abbrev pub is_open : Status → Bool
is_open draft = true
is_open pending = true
is_open approved = false
is_open rejected = false

abbrev pub is_approved : Status → Bool
is_approved approved = true
is_approved draft = false
is_approved pending = false
is_approved rejected = false

-- a text that is there and not empty
abbrev pub is_filled : Option String → Bool
is_filled none = false
is_filled (some s) = not (s =s "")

-- What may be changed by who may not manage absences: the own ones that are open.
abbrev pub is_own_open : CurrentUser → Absence → Bool
is_own_open user a = is_number user.employee_id a.employee_id && is_open a.status

-- the moment of the request and the ids and the key that are drawn for it
pub record Request : Type 0 where
  pub now : ℕ
  pub fresh_id : ℕ → ℕ
  pub fresh_key : String

abbrev pub update_absences : ℕ → (Absence → Absence) → Action Db ⊤
update_absences absence_id f =
    modify λ db. record db { absences = update_where (λ a. a.id == absence_id) f db.absences }
