-- ===== src/Absences/Decide.antt =====
-- absences.py: `decide_absence`, `approve_absence` and `reject_absence`.
use iskan.Prelude.{ℕ, ◌==◌, String, not, ◌&&◌, [], ◌∷◌, Option, none, some, ⊤, find?, coalesce}
use iskan.Http.{Action, gets, modify, raise_if, or_raise, ◌>>=◌, ◌>>◌}
use iskan.Http.Errors.{http}
use iskan.Auth.Store.{CurrentUser}
use iskan.Auth.Scope.{require_permission}
use iskan.Absences.{
  Status, draft, pending, approved, rejected, Absence, Db, audit, get_absence,
  ensure_employee_scope, Request, update_absences, is_open, is_approved, is_filled,
}

-- what a decision writes
abbrev pub decided : Status → Option String → ℕ → ℕ → Absence → Absence
decided decision comment user_id now a = record a {
  status = decision;
  approved_by = some user_id;
  approved_at = some now;
  comment = coalesce comment a.comment;
}

abbrev pub action_name : Status → String
action_name draft = "absence_draft"
action_name pending = "absence_pending"
action_name approved = "absence_approved"
action_name rejected = "absence_rejected"

-- the absence's creator is told
abbrev pub notify_creator : ℕ → Status → Action Db ⊤
notify_creator absence_id decision = modify λ db. record db {
  notifications = elim (find? (λ a. a.id == absence_id) db.absences) [
    | none ↦ db.notifications
    | some a ↦ elim a.created_by [
      | none ↦ db.notifications
      | some u ↦
          record { user_id = u; notification_type = action_name decision; absence_id = absence_id }
          ∷ db.notifications
    ]
  ];
}

-- `decide_absence`
unfoldable pub decide_absence : ℕ → Status → Option String → CurrentUser → Request → Action Db ⊤
decide_absence absence_id decision comment user req = do
  row ← gets (get_absence absence_id)
  current ← or_raise row (http 404 "Событие не найдено")
  ensure_employee_scope user (current.0.employee_id ∷ [])
  raise_if (not (is_open current.0.status)) (http 409 "Решение по событию уже принято")
  raise_if
      (is_approved decision
        && current.1.requires_document
        && not (is_filled current.0.attachment_key)
        && not (is_filled current.0.reason))
      (http 422 "Для этого типа нужен документ или его номер в причине")
  update_absences absence_id (decided decision comment user.id req.now)
  notify_creator absence_id decision
  audit (action_name decision) absence_id

-- `approve_absence`
unfoldable pub approve_absence : ℕ → Option String → CurrentUser → Request → Action Db ⊤
approve_absence absence_id comment user req =
    require_permission "absence:manage" user >> decide_absence absence_id approved comment user req

-- `reject_absence`
unfoldable pub reject_absence : ℕ → Option String → CurrentUser → Request → Action Db ⊤
reject_absence absence_id comment user req =
    require_permission "absence:manage" user >> decide_absence absence_id rejected comment user req
