-- ===== src/Staff.antt =====
-- admin.py: `create_department`, `create_employee` and `update_employee`, with the requests of
-- admin_schemas.py. `Requests` validates, `Named` is about the names of the departments.
pub mod Requests
pub mod Named
use iskan.Prelude.{
  ℕ, ◌==◌, String, list_eq, any, Bool, true, false, not, ◌&&◌, ◌||◌, List, [], ◌∷◌, Option, none,
  some, ⊤, find?, update_where, is_some, is_none, or_else, if◌then◌else◌,
}
use iskan.Http.{Action, pure, gets, modify, lift, raise_if, or_raise, when, ◌>>=◌, ◌>>◌}
use iskan.Http.Errors.{Error, http, Result, ok, err}
use iskan.Security.Crypto.{Text}
use iskan.Absences.Change.{Change, unset, null, value, is_sent, changed_option}
use iskan.Staff.Requests.{
  Department, Employee, Db, DepartmentCreate, EmployeeCreate, EmployeePatch, EmployeeChanges,
  checked_department, checked_employee, checked_patch, employee_changes,
}

abbrev pub audit : String → ℕ → Action Db ⊤
audit action id = modify (λ db. record db { audit_log = (action, id) ∷ db.audit_log })

abbrev pub is_department : ℕ → Department → Bool
is_department id d = d.id == id

-- a foreign key that no row has
abbrev pub is_dangling : Option ℕ → List Department → Bool
is_dangling none ds = false
is_dangling (some id) ds = not (any (is_department id) ds)

abbrev pub name_of : Option Department → Option Text
name_of none = none
name_of (some d) = some d.name

-- `(SELECT name FROM departments WHERE id = …)`
abbrev pub department_name : Option ℕ → List Department → Option Text
department_name none ds = none
department_name (some id) ds = name_of (find? (is_department id) ds)

-- `create_department`; the unique index is looked at before the foreign key
unfoldable pub create_department : DepartmentCreate → ℕ → Action Db ⊤
create_department payload fresh = do
  p ← lift (checked_department payload)
  departments ← gets (λ db. db.departments)
  raise_if (any (λ d. list_eq d.name p.name) departments)
      (http 409 "Отдел с таким названием уже существует")
  raise_if (is_dangling p.parent_id departments) (http 422 "Родительский отдел не найден")
  modify (λ db. record db {
    departments = record { id = fresh; name = p.name; parent_id = p.parent_id } ∷ db.departments;
  })
  audit "department_created" fresh

module _ (lower : Text → Text) where
  -- `employees_email_unique_idx`: another employee has the address
  abbrev pub same_email : Option Text → Option Text → Bool
  same_email none b = false
  same_email (some a) none = false
  same_email (some a) (some b) = list_eq (lower a) (lower b)

  abbrev pub is_taken : Option Text → ℕ → List Employee → Bool
  is_taken email id es = any (λ e. not (e.id == id) && same_email email e.email) es

  abbrev pub new_employee : ℕ → EmployeeCreate → List Department → Employee
  new_employee fresh p ds = record {
    id = fresh;
    full_name = p.full_name;
    email = p.email;
    department_id = p.department_id;
    department_name = department_name p.department_id ds;
    position_title = p.position_title;
    hire_date = p.hire_date;
    timezone = p.timezone;
    planned_daily_minutes = p.planned_daily_minutes;
    status = "active";
  }

  -- `create_employee`
  unfoldable pub create_employee : EmployeeCreate → ℕ → Action Db ⊤
  create_employee payload fresh = do
    p ← lift (checked_employee lower payload)
    db ← gets (λ db. db)
    raise_if (is_taken p.email fresh db.employees)
        (http 409 "Сотрудник с таким email уже существует")
    raise_if (is_dangling p.department_id db.departments) (http 422 "Отдел не найден")
    modify (λ db. record db { employees = new_employee fresh p db.departments ∷ db.employees })
    audit "employee_created" fresh

  -- the row after both `UPDATE`s; the department's name is read only if the department is sent
  abbrev pub write_employee : EmployeeChanges → List Department → Employee → Employee
  write_employee c ds e = record e {
    full_name = or_else c.full_name e.full_name;
    email = changed_option c.email e.email;
    department_id = changed_option c.department_id e.department_id;
    department_name =
        if is_sent c.department_id
        then department_name (changed_option c.department_id none) ds
        else e.department_name;
    position_title = changed_option c.position_title e.position_title;
    hire_date = changed_option c.hire_date e.hire_date;
    timezone = or_else c.timezone e.timezone;
    planned_daily_minutes = or_else c.planned_daily_minutes e.planned_daily_minutes;
    status = or_else c.status e.status;
  }

  -- `update_employee`; an `UPDATE` of no row violates nothing
  unfoldable pub update_employee : ℕ → EmployeePatch → Action Db ⊤
  update_employee employee_id payload = do
    p ← lift (checked_patch payload)
    db ← gets (λ db. db)
    let found = find? (λ (e : Employee). e.id == employee_id) db.employees
    c ← lift (employee_changes lower p (is_some found))
    raise_if (is_some found && is_taken (changed_option c.email none) employee_id db.employees)
        (http 409 "Сотрудник с таким email уже существует")
    raise_if (is_some found && is_dangling (changed_option c.department_id none) db.departments)
        (http 422 "Отдел не найден")
    current ← or_raise found (http 404 "Сотрудник не найден")
    modify (λ db. record db {
      employees =
          update_where (λ e. e.id == employee_id) (write_employee c db.departments) db.employees;
    })
    audit "employee_updated" employee_id
