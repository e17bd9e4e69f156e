-- ===== src/Tests/Absences.antt =====
-- The theorems on absences at concrete inputs.
use iskan.Prelude.{
  ◌+◌, String, ◌≡◌, ◌≤◌, refl, List, [], ◌∷◌, Option, none, some, All, arith, true, false, find?,
  ◌==◌,
}
use iskan.Http.Errors.{http, err}
use iskan.Auth.Store.{CurrentUser}
use iskan.Auth.Scope.{sees, visible_employee_ids}
use iskan.Absences.{Status, pending, approved, Absence, AbsenceType, Db, Request}
use iskan.Absences.Decide.{decided, decide_absence}
use iskan.Absences.Invariant.{
  Operation, create, run, IsSound, run-IsSound, approved_rows, run-unprivileged,
}
use iskan.Absences.Finality.{decide_absence-final}

-- somebody of the whole organization
abbrev person : List String → CurrentUser
person permissions = record {
  id = 1;
  login = "anna";
  display_name = "Anna";
  role = "manager";
  employee_id = some 11;
  scope_type = "organization";
  permissions = permissions;
}

abbrev absence : Absence
absence = record {
  id = 4;
  employee_id = 11;
  type_id = 2;
  date_from = 100;
  date_to = 103;
  minutes = none;
  reason = none;
  comment = none;
  attachment_key = none;
  severity = none;
  status = pending;
  created_by = some 1;
  approved_by = none;
  approved_at = none;
}

abbrev vacation : AbsenceType
vacation = record { id = 2; code = "VACATION"; requires_document = false }

abbrev db : Db
db = record {
  absences = absence ∷ [];
  types = vacation ∷ [];
  scope = record {
    employee_scope = [];
    department_scope = [];
    departments = [];
    employees = record { id = 11; department_id = none } ∷ [];
  };
  users = [];
  notifications = [];
  audit = [];
}

abbrev request : Request
request = record { now = 90; fresh_id = λ n. n + 1000; fresh_key = "key" }

-- a request for two days, which asks to be approved at once
abbrev two_days : Operation
two_days = create (record {
  employee_ids = 11 ∷ [];
  type_id = 2;
  date_from = 200;
  date_to = 201;
  minutes = none;
  reason = none;
  comment = none;
  severity = none;
  status = approved;
})

run-IsSound_example :
    All IsSound (run two_days (person ("absence:manage" ∷ [])) request db).absences
run-IsSound_example =
    run-IsSound two_days (person ("absence:manage" ∷ [])) request db (omega arith)
      ((omega arith, λ h. absurd (ground (arith, h))), tt)

run-unprivileged_example :
    approved_rows 1011 (run two_days (person []) request db) ≤ approved_rows 1011 db
run-unprivileged_example = run-unprivileged two_days (person []) request db 1011 refl

abbrev db_approved : Db
db_approved = (decide_absence 4 approved none (person []) request db).1

decide_absence-final_example :
    (find? (λ x. x.id == 4) db_approved.absences ≡ some (decided approved none 1 90 absence))
    × ((again : Status) (comment : Option String) (user : CurrentUser) (req : Request)
        → sees (visible_employee_ids user db.scope) 11 ≡ true
        → decide_absence 4 again comment user req db_approved
          ≡ (err (http 409 "Решение по событию уже принято"), db_approved))
unfolding decide_absence visible_employee_ids
decide_absence-final_example =
    decide_absence-final 4 approved none (person []) request db absence db_approved refl refl refl
