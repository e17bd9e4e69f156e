-- ===== src/Absences/Invariant.antt =====
-- What every absence has at all times, and who can approve one.
use iskan.Prelude.{
  ℕ, ◌≤◌, ◌≡◌, refl, ◌⊎◌, inl, inr, ◌==◌, String, Bool, true, false, ◌&&◌, List, [], ◌∷◌, Option, ⊤,
  count_where, update_where-All, delete_where-All, count_where-update_le, count_where-delete_le,
  All, is_some, Bool-cases, arith,
}
use iskan.Http.{Action, ◌>>◌}
use iskan.Auth.Store.{CurrentUser}
use iskan.Auth.Scope.{require_permission}
use iskan.Absences.{
  Status, pending, approved, rejected, Absence, Db, Request, can_manage, is_approved,
}
use iskan.Absences.Create.{AbsenceCreate, distinct, new_absence, create_absences}
use iskan.Absences.Change.{AbsencePatch, patched, update_absence, delete_absence}
use iskan.Absences.Decide.{decided, decide_absence, approve_absence, reject_absence}
use iskan.Absences.Rows.{
  inserted, create_absences-rows, update_absence-rows, delete_absence-rows, decide_absence-rows,
}

-- a request to one of the routes that write absences
pub data Operation : Type 0 where
  create : AbsenceCreate → Operation
  update : ℕ → AbsencePatch → Operation
  delete : ℕ → Operation
  approve : ℕ → Option String → Operation
  reject : ℕ → Option String → Operation

-- the tables afterwards
pub run : Operation → CurrentUser → Request → Db → Db
run (create p) user req db = (create_absences p user req db).1
run (update id p) user req db = (update_absence id p user db).1
run (delete id) user req db = (delete_absence id user db).1
run (approve id comment) user req db = (approve_absence id comment user req db).1
run (reject id comment) user req db = (reject_absence id comment user req db).1

-- what the request's schema has checked: `AbsenceCreate.validate_dates`
abbrev pub IsValid : Operation → Type 0
IsValid (create p) = p.date_from ≤ p.date_to
IsValid (update id p) = ⊤
IsValid (delete id) = ⊤
IsValid (approve id comment) = ⊤
IsValid (reject id comment) = ⊤

-- The dates are in order, and an approved absence names who approved it and when.
abbrev pub IsSound : Absence → Type 0
IsSound a =
    (a.date_from ≤ a.date_to)
    × (is_approved a.status ≡ true
        → (is_some a.approved_by ≡ true) × (is_some a.approved_at ≡ true))

inserted-IsSound :
    (p : AbsenceCreate) (status : Status) (user : CurrentUser) (req : Request) (es : List ℕ)
    (rows : List Absence)
    → p.date_from ≤ p.date_to
    → All IsSound rows
    → All IsSound (inserted p status user req es rows)
unfolding inserted
inserted-IsSound p status user req [] rows le h = h
inserted-IsSound p status user req (e ∷ es) rows le h =
    inserted-IsSound p status user req es _ le
      ((le, λ k. (ground (arith, k), ground (arith, k))), h)

decide_absence-IsSound :
    (id : ℕ) (decision : Status) (comment : Option String) (user : CurrentUser) (req : Request)
    (db : Db)
    → All IsSound db.absences
    → All IsSound (decide_absence id decision comment user req db).1.absences
decide_absence-IsSound id decision comment user req db h =
    elim (decide_absence-rows id decision comment user req db) [
      | inl same ↦ rw same h
      | inr all ↦ rw all (
          update_where-All IsSound (λ a. a.id == id) (decided decision comment user.id req.now)
            db.absences (λ a s _. (s.0, λ _. (refl, refl))) h)
    ]

gated :
    (m : Action Db ⊤) (user : CurrentUser) (db : Db)
    → (((require_permission "absence:manage" user >> m) db).1 ≡ db)
      ⊎ ((can_manage user ≡ true)
          × (((require_permission "absence:manage" user >> m) db).1 ≡ (m db).1))
gated m user db = elim (Bool-cases (can_manage user)) [
  | inl may ↦ inr (may, ground (arith, may))
  | inr barred ↦ inl (ground (arith, barred))
]

-- Whatever a request to create, change, delete, approve or reject answers: if every absence had
-- its dates in order and every approved one an approver and a moment, the same holds afterwards.
pub run-IsSound :
    (op : Operation) (user : CurrentUser) (req : Request) (db : Db)
    → IsValid op
    → All IsSound db.absences
    → All IsSound (run op user req db).absences
unfolding run approve_absence reject_absence
run-IsSound (create p) user req db le h = elim (create_absences-rows p user req db) [
  | inl same ↦ rw same h
  | inr (status, _, all) ↦
      rw all (inserted-IsSound p status user req (distinct p.employee_ids) db.absences le h)
]
run-IsSound (update id p) user req db le h = elim (update_absence-rows id p user db) [
  | inl same ↦ rw same h
  | inr (type_id, from, to, le, all) ↦ rw all (
      update_where-All IsSound (λ a. a.id == id) (patched p type_id from to) db.absences
        (λ a s _. (le, s.1)) h)
]
run-IsSound (delete id) user req db le h = elim (delete_absence-rows id user db) [
  | inl same ↦ rw same h
  | inr all ↦ rw all (delete_where-All IsSound (λ a. a.id == id) db.absences h)
]
run-IsSound (approve id comment) user req db le h =
    elim (gated (decide_absence id approved comment user req) user db) [
      | inl same ↦ rw same h
      | inr (may, e) ↦ rw e (decide_absence-IsSound id approved comment user req db h)
    ]
run-IsSound (reject id comment) user req db le h =
    elim (gated (decide_absence id rejected comment user req) user db) [
      | inl same ↦ rw same h
      | inr (may, e) ↦ rw e (decide_absence-IsSound id rejected comment user req db h)
    ]

-- an approved absence with the id
abbrev pub is_approved_row : ℕ → Absence → Bool
is_approved_row n a = (a.id == n) && is_approved a.status

abbrev pub approved_rows : ℕ → Db → ℕ
approved_rows n db = count_where (is_approved_row n) db.absences

inserted-approved_rows :
    (p : AbsenceCreate) (user : CurrentUser) (req : Request) (es : List ℕ) (rows : List Absence)
    (n : ℕ)
    → count_where (is_approved_row n) (inserted p pending user req es rows)
      ≤ count_where (is_approved_row n) rows
unfolding inserted
inserted-approved_rows p user req [] rows n = omega arith
inserted-approved_rows p user req (e ∷ es) rows n =
    ground (arith, inserted-approved_rows p user req es (new_absence p pending user req e ∷ rows) n)

-- A user who may not manage absences makes no absence approved, whatever they send: no id has
-- more approved absences afterwards than before.
pub run-unprivileged :
    (op : Operation) (user : CurrentUser) (req : Request) (db : Db) (n : ℕ)
    → can_manage user ≡ false
    → approved_rows n (run op user req db) ≤ approved_rows n db
unfolding run approve_absence reject_absence
run-unprivileged (create p) user req db n barred = elim (create_absences-rows p user req db) [
  | inl same ↦ rw same (omega arith)
  | inr (status, inl may, all) ↦ absurd (cc (may, barred))
  | inr (status, inr low, all) ↦
      rw (all, low) (inserted-approved_rows p user req (distinct p.employee_ids) db.absences n)
]
run-unprivileged (update id p) user req db n barred = elim (update_absence-rows id p user db) [
  | inl same ↦ rw same (omega arith)
  | inr (type_id, from, to, le, all) ↦ rw all (
      count_where-update_le (is_approved_row n) (λ a. a.id == id) (patched p type_id from to)
        (λ a _ k. k) db.absences)
]
run-unprivileged (delete id) user req db n barred = elim (delete_absence-rows id user db) [
  | inl same ↦ rw same (omega arith)
  | inr all ↦ rw all (count_where-delete_le (is_approved_row n) (λ a. a.id == id) db.absences)
]
run-unprivileged (approve id comment) user req db n barred =
    elim (gated (decide_absence id approved comment user req) user db) [
      | inl same ↦ rw same (omega arith)
      | inr (may, e) ↦ absurd (cc (may, barred))
    ]
run-unprivileged (reject id comment) user req db n barred =
    elim (gated (decide_absence id rejected comment user req) user db) [
      | inl same ↦ rw same (omega arith)
      | inr (may, e) ↦ absurd (cc (may, barred))
    ]
