-- ===== src/Absences/Create.antt =====
-- absences.py: `create_absences`.
use iskan.Prelude.{
  ℕ, ◌==◌, String, ◌=s◌, one_of, list_eq, Bool, true, false, not, ◌&&◌, List, [], ◌∷◌, ◌++◌, map,
  Option, none, some, ⊤, find?, select, count_where, length, is_some, is_none, if◌then◌else◌,
}
use iskan.Http.{Action, pure, gets, modify, raise, raise_if, lift, transaction, when, ◌>>=◌, ◌>>◌}
use iskan.Http.Errors.{http, Result, ok, err}
use iskan.Auth.Store.{CurrentUser, User}
use iskan.Auth.Scope.{is_in}
use iskan.Absences.{
  Status, draft, pending, approved, rejected, Absence, AbsenceType, Db, audit,
  ensure_employee_scope, Request, can_manage, is_approved,
}

-- `AbsenceCreate`
pub record AbsenceCreate : Type 0 where
  pub employee_ids : List ℕ
  pub type_id : ℕ
  pub date_from : ℕ
  pub date_to : ℕ
  pub minutes : Option ℕ
  pub reason : Option String
  pub comment : Option String
  pub severity : Option ℕ
  pub status : Status

-- `set(payload.employee_ids)`, in the order of the last occurrences
abbrev pub distinct : List ℕ → List ℕ
distinct [] = []
distinct (n ∷ ns) = let rest = distinct ns in if is_in n ns then rest else n ∷ rest

-- the status of a new absence; without the permission it is the request of the employee themself
abbrev pub effective_status : CurrentUser → List ℕ → Status → Result Status
effective_status user ids status =
    if can_manage user
    then ok status
    else (if list_eq ids (elim user.employee_id [ none ↦ [] | some n ↦ n ∷ [] ])
          && is_some user.employee_id
        then ok pending
        else err (http 403 "Можно создать заявку только для себя"))

-- the row that is inserted
abbrev pub new_absence : AbsenceCreate → Status → CurrentUser → Request → ℕ → Absence
new_absence p status user req employee_id = record {
  id = req.fresh_id employee_id;
  employee_id = employee_id;
  type_id = p.type_id;
  date_from = p.date_from;
  date_to = p.date_to;
  minutes = p.minutes;
  reason = p.reason;
  comment = p.comment;
  attachment_key = none;
  severity = p.severity;
  status = status;
  created_by = some user.id;
  approved_by = if is_approved status then some user.id else none;
  approved_at = if is_approved status then some req.now else none;
}

abbrev pub is_pending : Status → Bool
is_pending pending = true
is_pending draft = false
is_pending approved = false
is_pending rejected = false

-- whoever is told of a request
abbrev pub is_notified : User → Bool
is_notified u = one_of u.role_code ("manager" ∷ "admin" ∷ "superadmin" ∷ []) && u.is_active

abbrev pub notify_pending : ℕ → Action Db ⊤
notify_pending absence_id = modify λ db. record db {
  notifications =
      map
        (λ u. record {
          user_id = u.id;
          notification_type = "absence_pending";
          absence_id = absence_id;
        })
        (select is_notified db.users)
      ++ db.notifications;
}

-- the loop over the employees
unfoldable pub insert_absences :
    AbsenceCreate → Status → CurrentUser → Request → List ℕ → Action Db ⊤
insert_absences p status user req [] = pure tt
insert_absences p status user req (e ∷ es) = do
  modify (λ db. record db { absences = new_absence p status user req e ∷ db.absences })
  audit "absence_created" (req.fresh_id e)
  when (is_pending status) (notify_pending (req.fresh_id e))
  insert_absences p status user req es

-- a violation needs its severity
abbrev pub check_type : Option ℕ → Option AbsenceType → Action Db ⊤
check_type severity none = raise (http 422 "Тип отсутствия не найден")
check_type severity (some t) =
    raise_if ((t.code =s "VIOLATION") && is_none severity)
      (http 422 "Для нарушения укажите серьёзность 1–5")

-- `create_absences`; it answers the ids of its rows
unfoldable pub create_absences : AbsenceCreate → CurrentUser → Request → Action Db (List ℕ)
create_absences p user req = do
  let ids = distinct p.employee_ids
  ensure_employee_scope user ids
  status ← lift (effective_status user ids p.status)
  existing ← gets (λ db. count_where (λ e. is_in e.id ids) db.scope.employees)
  raise_if (not (existing == length ids)) (http 404 "Один из сотрудников не найден")
  found ← gets (λ db. find? (λ t. t.id == p.type_id) db.types)
  check_type p.severity found
  transaction (insert_absences p status user req ids)
  pure (map req.fresh_id ids)
