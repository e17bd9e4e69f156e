-- ===== src/Screenshots/Retention.antt =====
-- retention_jobs.py: `_effective_days` and `purge_screenshots`. The instants are in seconds, and
-- those at which the pass asks the clock are one instant.
use iskan.Prelude.{
  ℕ, zero, suc, ◌+◌, ◌*◌, ◌==◌, leb, ltb, String, ◌=s◌, Bool, false, not, ◌&&◌, ◌||◌, List, [], ◌∷◌,
  map, length, any, Option, none, some, find?, select, delete_where, is_number, is_some, is_none,
  if◌then◌else◌,
}
use iskan.Auth.Scope.{is_in}
use iskan.Screenshots.{Screenshot, Db}

-- a row of `retention_policies`
pub record Policy : Type 0 where
  pub data_type : String
  pub scope_type : String
  pub scope_id : Option ℕ
  pub days : ℕ

-- an employee's department
pub record Place : Type 0 where
  pub employee_id : ℕ
  pub department_id : Option ℕ

-- the tables that the days are read from
pub record Policies : Type 0 where
  pub policies : List Policy
  pub places : List Place

abbrev pub same_id : Option ℕ → Option ℕ → Bool
same_id none b = false
same_id (some a) b = is_number b a

abbrev pub is_for : String → String → Option ℕ → Policy → Bool
is_for data_type scope_type id p =
    (p.data_type =s data_type)
    && (p.scope_type =s scope_type)
    && (same_id p.scope_id id || (scope_type =s "global"))

abbrev pub days_of : Option Policy → ℕ
days_of none = 0
days_of (some p) = p.days

abbrev pub or_policy : Option Policy → Option Policy → Option Policy
or_policy none other = other
or_policy (some p) other = some p

abbrev pub default_days : String → ℕ
default_days data_type =
    if data_type =s "screenshots" then 30 else (if data_type =s "video" then 7 else 365)

-- `_effective_days`; no days, and zero days, are the default
unfoldable pub effective_days : Policies → String → Option ℕ → Option ℕ → ℕ
effective_days db data_type employee_id department_id =
    let of_employee = find? (is_for data_type "employee" employee_id) db.policies in
    let of_department = find? (is_for data_type "department" department_id) db.policies in
    let of_all = find? (is_for data_type "global" none) db.policies in
    let value = days_of (or_policy of_employee (or_policy of_department of_all)) in
    if value == 0 then default_days data_type else value

-- the department of the row that the join finds
abbrev pub department_of : Option Place → Option ℕ
department_of none = none
department_of (some p) = p.department_id

abbrev pub department : Policies → Option ℕ → Option ℕ
department db none = none
department db (some e) = department_of (find? (λ p. p.employee_id == e) db.places)

-- `row["taken_at"] < now - timedelta(days=days)`
unfoldable pub is_expired : Policies → ℕ → Screenshot → Bool
is_expired db now s =
    ltb
      (s.taken_at
        + effective_days db "screenshots" s.employee_id (department db s.employee_id) * 86400)
      now

-- `ORDER BY (s.duplicate_of_id IS NULL), s.taken_at`
abbrev pub is_before : Screenshot → Screenshot → Bool
is_before s r =
    if is_some s.duplicate_of_id
    then is_none r.duplicate_of_id || leb s.taken_at r.taken_at
    else is_none r.duplicate_of_id && leb s.taken_at r.taken_at

unfoldable pub insert_by : Screenshot → List Screenshot → List Screenshot
insert_by s [] = s ∷ []
insert_by s (r ∷ rs) = let rest = insert_by s rs in if is_before s r then s ∷ r ∷ rs else r ∷ rest

unfoldable pub in_order : List Screenshot → List Screenshot
in_order [] = []
in_order (s ∷ ss) = insert_by s (in_order ss)

unfoldable pub limit : ℕ → List Screenshot → List Screenshot
limit zero ss = []
limit (suc n) [] = []
limit (suc n) (s ∷ ss) = s ∷ limit n ss

unfoldable pub expired : Policies → ℕ → List Screenshot → List Screenshot
expired policies now rows = select (is_expired policies now) (limit 2000 (in_order rows))

abbrev pub is_duplicate : Screenshot → Bool
is_duplicate s = is_some s.duplicate_of_id

abbrev pub ids : List Screenshot → List ℕ
ids = map (λ s. s.id)

-- `DELETE FROM screenshots WHERE id=ANY(…)`
unfoldable pub delete_duplicates : List Screenshot → List Screenshot → List Screenshot
delete_duplicates batch rows = delete_where (λ s. is_in s.id (ids (select is_duplicate batch))) rows

-- whether a screenshot is a duplicate of the row
abbrev pub refers_to : ℕ → Screenshot → Bool
refers_to id s = is_number s.duplicate_of_id id

abbrev pub is_key_of : Screenshot → String → Bool
is_key_of s key = elim s.storage_key [
  | none ↦ elim s.thumb_key [ none ↦ false | some t ↦ t =s key ]
  | some k ↦ (k =s key) || elim s.thumb_key [ none ↦ false | some t ↦ t =s key ]
]

-- the body of the loop over the roots; a removal that the storage refuses is passed over, and the
-- object stays
unfoldable pub purge_root : (String → Bool) → Screenshot → Db → ℕ × Db
purge_root removes row db = if any (refers_to row.id) db.screenshots then (0, db) else (
  1,
  record db {
    screenshots = delete_where (λ s. s.id == row.id) db.screenshots;
    stored = delete_where (λ o. is_key_of row o.key && removes o.key) db.stored;
  },
)

unfoldable pub purge_roots : (String → Bool) → List Screenshot → Db → ℕ × Db
purge_roots removes [] db = (0, db)
purge_roots removes (row ∷ rows) db =
    let (first, db') = purge_root removes row db in
    let (others, db'') = purge_roots removes rows db' in (first + others, db'')

-- `purge_screenshots`
unfoldable pub purge_screenshots : Policies → (String → Bool) → ℕ → Db → ℕ × Db
purge_screenshots policies removes now db =
    let batch = expired policies now db.screenshots in
    let rest = record db { screenshots = delete_duplicates batch db.screenshots } in
    let (roots, db') = purge_roots removes (select (λ s. not (is_duplicate s)) batch) rest in
    (length (select is_duplicate batch) + roots, db')
