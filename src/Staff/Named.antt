-- ===== src/Staff/Named.antt =====
-- An employee's department exists, and the name that is stored with the employee is its name.
use iskan.Prelude.{
  ℕ, ◌≡◌, refl, sym, subst, ◌⊎◌, inl, inr, ◌==◌, ==_iff, list_eq, any, true, false, ◌||◌, List, ◌∷◌,
  none, find?, update_where, update_where-All, All, All-map, Bool-cases, Option-cases, arith,
}
use iskan.Http.Errors.{Result-cases}
use iskan.Security.Crypto.{Text}
use iskan.Absences.Change.{changed_option}
use iskan.Staff.{
  is_department, is_dangling, department_name, create_department, is_taken, new_employee,
  create_employee, write_employee, update_employee,
}
use iskan.Staff.Requests.{
  Department, Employee, Db, DepartmentCreate, EmployeeCreate, EmployeePatch, EmployeeChanges,
  checked_department, checked_employee, checked_patch, employee_changes,
}

-- a request to one of the routes, with the id that an insertion draws
pub data Operation : Type 0 where
  add_department : DepartmentCreate → ℕ → Operation
  add_employee : EmployeeCreate → ℕ → Operation
  patch_employee : ℕ → EmployeePatch → Operation

-- the tables afterwards
unfoldable pub run : (Text → Text) → Operation → Db → Db
run lower (add_department p fresh) db = (create_department p fresh db).1
run lower (add_employee p fresh) db = (create_employee lower p fresh db).1
run lower (patch_employee id p) db = (update_employee lower id p db).1

-- the id that an inserted department draws is new
abbrev pub IsFresh : Operation → Db → Type 0
IsFresh (add_department p fresh) db = any (is_department fresh) db.departments ≡ false
IsFresh (add_employee p fresh) db = Unit
IsFresh (patch_employee id p) db = Unit

abbrev pub IsPlaced : List Department → Employee → Type 0
IsPlaced ds e =
    (is_dangling e.department_id ds ≡ false)
    × (e.department_name ≡ department_name e.department_id ds)

IsPlaced-added :
    (d : Department) (ds : List Department) (e : Employee)
    → any (is_department d.id) ds ≡ false
    → IsPlaced ds e
    → IsPlaced (d ∷ ds) e
IsPlaced-added d ds e fresh (known, named) = elim (Option-cases e.department_id) [
  | inl nowhere ↦ (ground (arith, nowhere), ground (arith, nowhere, named))
  | inr (id, place) ↦ elim (Bool-cases (d.id == id)) [
    | inl same ↦ absurd (
        ground (
          arith,
          place,
          known,
          subst (λ n. any (is_department n) ds ≡ false) ((==_iff d.id id).0 same) fresh,
        ))
    | inr other ↦ (ground (arith, place, other, known), ground (arith, place, other, named))
  ]
]

create_department-tables :
    (p : DepartmentCreate) (fresh : ℕ) (db : Db)
    → ((create_department p fresh db).1.employees ≡ db.employees)
      × (((create_department p fresh db).1.departments ≡ db.departments)
          ⊎ ((d : Department) × (d.id ≡ fresh)
              × ((create_department p fresh db).1.departments ≡ d ∷ db.departments)))
unfolding create_department
create_department-tables p fresh db = elim (Result-cases (checked_department p)) [
  | inr (e, bad) ↦ (ground (arith, bad), inl (ground (arith, bad)))
  | inl (q, good) ↦
      elim (Bool-cases (
        any (λ d. list_eq d.name q.name) db.departments
        || is_dangling q.parent_id db.departments)) [
          | inl refused ↦ (ground (arith, good, refused), inl (ground (arith, good, refused)))
          | inr fine ↦
              let row : Department = record {
                id = fresh;
                name = q.name;
                parent_id = q.parent_id;
              } in
              (ground (arith, good, fine), inr (row, refl, ground (arith, good, fine)))
        ]
]

module _ (lower : Text → Text) where
  create_employee-tables :
      (p : EmployeeCreate) (fresh : ℕ) (db : Db)
      → ((create_employee lower p fresh db).1.departments ≡ db.departments)
        × (((create_employee lower p fresh db).1.employees ≡ db.employees)
            ⊎ ((e : Employee) × IsPlaced db.departments e
                × ((create_employee lower p fresh db).1.employees ≡ e ∷ db.employees)))
  unfolding create_employee
  create_employee-tables p fresh db = elim (Result-cases (checked_employee lower p)) [
    | inr (e, bad) ↦ (ground (arith, bad), inl (ground (arith, bad)))
    | inl (q, good) ↦
        elim (Bool-cases (
          is_taken lower q.email fresh db.employees
          || is_dangling q.department_id db.departments)) [
            | inl refused ↦ (ground (arith, good, refused), inl (ground (arith, good, refused)))
            | inr fine ↦ (
              ground (arith, good, fine),
              inr (
                new_employee lower fresh q db.departments,
                (ground (arith, fine), refl),
                ground (arith, good, fine),
              ),
            )
          ]
  ]

  write_employee-IsPlaced :
      (c : EmployeeChanges) (ds : List Department) (e : Employee)
      → is_dangling (changed_option c.department_id none) ds ≡ false
      → IsPlaced ds e
      → IsPlaced ds (write_employee lower c ds e)
  write_employee-IsPlaced c ds e fine (known, named) =
      (ground (arith, known, fine), ground (arith, named))

  update_employee-tables :
      (id : ℕ) (p : EmployeePatch) (db : Db)
      → ((update_employee lower id p db).1.departments ≡ db.departments)
        × (((update_employee lower id p db).1.employees ≡ db.employees)
            ⊎ ((c : EmployeeChanges) × (is_dangling
                    (changed_option c.department_id none)
                    db.departments
                  ≡ false)
                × ((update_employee lower id p db).1.employees
                    ≡ update_where
                        (λ e. e.id == id)
                        (write_employee lower c db.departments)
                        db.employees)))
  unfolding update_employee
  update_employee-tables id p db = elim (Result-cases (checked_patch p)) [
    | inr (e, bad) ↦ (ground (arith, bad), inl (ground (arith, bad)))
    | inl (q, good) ↦ elim (Option-cases (find? (λ (e : Employee). e.id == id) db.employees)) [
      | inl missing ↦ elim (Result-cases (employee_changes lower q false)) [
        | inr (e, bad) ↦
            (ground (arith, good, missing, bad), inl (ground (arith, good, missing, bad)))
        | inl (c, set) ↦
            (ground (arith, good, missing, set), inl (ground (arith, good, missing, set)))
      ]
      | inr (current, found) ↦ elim (Result-cases (employee_changes lower q true)) [
        | inr (e, bad) ↦ (ground (arith, good, found, bad), inl (ground (arith, good, found, bad)))
        | inl (c, set) ↦
            elim (Bool-cases (
              is_taken lower (changed_option c.email none) id db.employees
              || is_dangling (changed_option c.department_id none) db.departments)) [
                | inl refused ↦ (
                  ground (arith, good, found, set, refused),
                  inl (ground (arith, good, found, set, refused)),
                )
                | inr fine ↦ (
                  ground (arith, good, found, set, fine),
                  inr (c, ground (arith, fine), ground (arith, good, found, set, fine)),
                )
              ]
      ]
    ]
  ]

moved :
    {ds' ds : List Department} {es' es : List Employee}
    → ds' ≡ ds
    → es' ≡ es
    → All (IsPlaced ds) es
    → All (IsPlaced ds') es'
moved {ds' = ds'} {es = es} ed ee h =
    subst (λ xs. All (IsPlaced ds') xs) (sym ee) (subst (λ ds. All (IsPlaced ds) es) (sym ed) h)

-- Whatever a request answers that adds a department or adds or changes an employee: if every
-- employee's department existed and the name stored with the employee was its name, and there was
-- none where there was no department, that is so afterwards, if a new department's id is new.
pub run-IsPlaced :
    (lower : Text → Text) (op : Operation) (db : Db)
    → IsFresh op db
    → All (IsPlaced db.departments) db.employees
    → All (IsPlaced (run lower op db).departments) (run lower op db).employees
unfolding run
run-IsPlaced lower (add_department p fresh) db new h =
    let (es, ds) = create_department-tables p fresh db in
    elim ds [
      | inl same ↦ moved same es h
      | inr (d, drawn, all) ↦ moved all es (
          All-map (IsPlaced db.departments) (IsPlaced (d ∷ db.departments)) db.employees
            (λ e k.
              IsPlaced-added d db.departments e
                (subst (λ n. any (is_department n) db.departments ≡ false) (sym drawn) new) k)
            h)
    ]
run-IsPlaced lower (add_employee p fresh) db new h =
    let (ds, es) = create_employee-tables lower p fresh db in
    elim es [ inl same ↦ moved ds same h | inr (e, placed, all) ↦ moved ds all (placed, h) ]
run-IsPlaced lower (patch_employee id p) db new h =
    let (ds, es) = update_employee-tables lower id p db in
    elim es [
      | inl same ↦ moved ds same h
      | inr (c, fine, all) ↦ moved ds all (
          update_where-All (IsPlaced db.departments) (λ e. e.id == id)
            (write_employee lower c db.departments) db.employees
            (λ e k _. write_employee-IsPlaced lower c db.departments e fine k) h)
    ]
