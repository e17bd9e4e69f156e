-- ===== src/Tests/Staff.antt =====
-- The theorem on employees at a concrete input.
use iskan.Prelude.{ℕ, ◌≡◌, refl, codes, [], ◌∷◌, none, some, All}
use iskan.Http.Errors.{ok}
use iskan.Absences.Change.{Change, unset, value}
use iskan.Staff.{create_employee, update_employee}
use iskan.Staff.Requests.{
  Employee, Db, EmployeeCreate, EmployeePatch, checked_employee, checked_patch, employee_changes,
}
use iskan.Staff.Named.{patch_employee, run, IsPlaced, run-IsPlaced}

abbrev employee : Employee
employee = record {
  id = 11;
  full_name = codes "Anna";
  email = some (codes "anna@a.example");
  department_id = some 1;
  department_name = some (codes "Sales");
  position_title = none;
  hire_date = none;
  timezone = codes "UTC";
  planned_daily_minutes = 480;
  status = "active";
}

abbrev db : Db
db = record {
  departments =
      record { id = 1; name = codes "Sales"; parent_id = none }
      ∷ record { id = 2; name = codes "Support"; parent_id = some 1 }
      ∷ [];
  employees = employee ∷ [];
  audit_log = [];
}

abbrev move_to : Change ℕ → EmployeePatch
move_to department = record {
  full_name = unset;
  email = unset;
  department_id = department;
  position_title = unset;
  hire_date = unset;
  timezone = unset;
  status = unset;
  planned_daily_minutes = unset;
}

-- the department's name follows
moved :
    (update_employee (λ s. s) 11 (move_to (value 2)) db).1.employees
    ≡ record employee { department_id = some 2; department_name = some (codes "Support") } ∷ []
unfolding update_employee checked_patch employee_changes
moved = refl

-- a name of spaces is taken by the creation and stored as an empty one
abbrev blank : EmployeeCreate
blank = record {
  full_name = codes "  ";
  email = none;
  department_id = none;
  position_title = none;
  hire_date = none;
  timezone = codes "UTC";
  planned_daily_minutes = 0;
}

blank_accepted : (create_employee (λ s. s) blank 12 db).0 ≡ ok tt
unfolding create_employee checked_employee
blank_accepted = refl

run-IsPlaced_example :
    All
      (IsPlaced (run (λ s. s) (patch_employee 11 (move_to (value 2))) db).departments)
      (run (λ s. s) (patch_employee 11 (move_to (value 2))) db).employees
run-IsPlaced_example =
    run-IsPlaced (λ s. s) (patch_employee 11 (move_to (value 2))) db tt ((refl, refl), tt)
