-- ===== src/Absences/Rows.antt =====
-- What each operation on absences does to their rows, whatever it answers.
use iskan.Prelude.{
  ℕ, ◌≤◌, ◌≡◌, refl, ◌⊎◌, inl, inr, ◌==◌, String, true, ◌||◌, List, [], ◌∷◌, Option, none, some,
  find?, update_where, delete_where, Bool-cases, Option-cases, arith,
}
use iskan.Http.{outcome}
use iskan.Http.Errors.{Error, ok, err, Result-cases}
use iskan.Auth.Store.{CurrentUser}
use iskan.Absences.{
  Status, pending, Absence, AbsenceType, Db, Request, get_absence, can_manage, is_own_open,
}
use iskan.Absences.Create.{
  AbsenceCreate, distinct, is_pending, effective_status, new_absence, insert_absences,
  create_absences,
}
use iskan.Absences.Change.{
  AbsencePatch, patched, changed, check_dates, check_reference, has_changes, load_owned,
  update_absence, delete_absence,
}
use iskan.Absences.Decide.{decided, decide_absence}

-- the rows with the new ones
unfoldable pub inserted :
    AbsenceCreate → Status → CurrentUser → Request → List ℕ → List Absence → List Absence
inserted p status user req [] rows = rows
inserted p status user req (e ∷ es) rows =
    inserted p status user req es (new_absence p status user req e ∷ rows)

insert_absences-rows :
    (p : AbsenceCreate) (status : Status) (user : CurrentUser) (req : Request) (es : List ℕ)
    (db : Db)
    → ((insert_absences p status user req es db).0 ≡ ok tt)
      × ((insert_absences p status user req es db).1.absences
          ≡ inserted p status user req es db.absences)
unfolding insert_absences inserted
insert_absences-rows p status user req [] db = (refl, refl)
insert_absences-rows p status user req (e ∷ es) db = elim (Bool-cases (is_pending status)) [
  | inl t ↦ rw t (insert_absences-rows p status user req es _)
  | inr f ↦ rw f (insert_absences-rows p status user req es _)
]

-- the status that a new absence of the user has
abbrev pub IsAllowed : CurrentUser → Status → Type 0
IsAllowed user status = (can_manage user ≡ true) ⊎ (status ≡ pending)

effective_status-IsAllowed :
    (user : CurrentUser) (ids : List ℕ) (asked status : Status)
    → effective_status user ids asked ≡ ok status
    → IsAllowed user status
effective_status-IsAllowed user ids asked status h = elim (Bool-cases (can_manage user)) [
  | inl may ↦ inl may
  | inr no_one ↦ inr (ground (arith, no_one, h))
]

pub create_absences-rows :
    (p : AbsenceCreate) (user : CurrentUser) (req : Request) (db : Db)
    → ((create_absences p user req db).1.absences ≡ db.absences)
      ⊎ ((status : Status) × IsAllowed user status
          × ((create_absences p user req db).1.absences
              ≡ inserted p status user req (distinct p.employee_ids) db.absences))
unfolding create_absences
create_absences-rows p user req db =
    elim (Result-cases (effective_status user (distinct p.employee_ids) p.status)) [
      | inr (e, h) ↦ inl (ground (arith, h))
      | inl (status, h) ↦
          let (fine, rows) = insert_absences-rows p status user req (distinct p.employee_ids) db in
          elim (outcome (create_absences p user req db)) [
            | inr (e, db', r) ↦ inl (ground (arith, h, fine, r))
            | inl (ids, db', r) ↦ inr (
              status,
              effective_status-IsAllowed user _ _ status h,
              ground (arith, h, fine, rows, r),
            )
          ]
    ]

module _ (id : ℕ) (user : CurrentUser) (refusal : String) (db db' : Db) where
  -- `load_owned` changes nothing, and what it finds may be touched by the user.
  pub load_owned-ok :
      (a : Absence) (t : AbsenceType)
      → load_owned id user (is_own_open user) refusal db ≡ (ok (a, t), db')
      → (db' ≡ db)
        × (find? (λ x. x.id == id) db.absences ≡ some a)
        × ((can_manage user || is_own_open user a) ≡ true)
  load_owned-ok a t h = elim (Option-cases (find? (λ x. x.id == id) db.absences)) [
    | inl missing ↦ absurd (ground arith)
    | inr (x, e) ↦ elim (Option-cases (find? (λ k. k.id == x.type_id) db.types)) [
      | inl missing ↦ absurd (ground arith)
      | inr (y, f) ↦ (ground arith, ground arith, ground arith)
    ]
  ]

  pub load_owned-err :
      (e : Error) → load_owned id user (is_own_open user) refusal db ≡ (err e, db') → db' ≡ db
  load_owned-err e h = elim (Option-cases (get_absence id db)) [
    | inl missing ↦ ground arith
    | inr ((x, y), f) ↦ ground arith
  ]

pub update_absence-rows :
    (id : ℕ) (p : AbsencePatch) (user : CurrentUser) (db : Db)
    → ((update_absence id p user db).1.absences ≡ db.absences)
      ⊎ ((type_id from to : ℕ) × (from ≤ to)
          × ((update_absence id p user db).1.absences
              ≡ update_where (λ a. a.id == id) (patched p type_id from to) db.absences))
unfolding update_absence
update_absence-rows id p user db =
    elim (outcome (load_owned id user (is_own_open user) "Редактирование запрещено" db)) [
      | inr (e, db', h) ↦ inl (ground (arith, h, load_owned-err id user _ db db' e h))
      | inl ((a, t), db', h) ↦
          let (same, _, _) = load_owned-ok id user _ db db' a t h in
          elim (Result-cases
            (check_dates (changed p.date_from a.date_from) (changed p.date_to a.date_to))) [
              | inr (e, bad) ↦ inl (ground (arith, h, same, bad))
              | inl ((from, to), good) ↦
                  elim (Result-cases (check_reference (changed p.type_id a.type_id) db.types)) [
                    | inr (e, bad) ↦ inl (ground (arith, h, same, good, bad))
                    | inl (type_id, fits) ↦ elim (Bool-cases (has_changes p)) [
                      | inr idle ↦ inl (ground (arith, h, same, idle))
                      | inl sent ↦ inr (
                        type_id,
                        from,
                        to,
                        check_dates-le (changed p.date_from a.date_from)
                            (changed p.date_to a.date_to) from to good,
                        ground (arith, h, same, good, fits, sent),
                      )
                    ]
                  ]
            ]
    ]
  where
    check_dates-le : (f t : Option ℕ) (from to : ℕ) → check_dates f t ≡ ok (from, to) → from ≤ to
    check_dates-le none t from to h = absurd (ground arith)
    check_dates-le (some f) none from to h = absurd (ground arith)
    check_dates-le (some f) (some t) from to h = ground arith

pub delete_absence-rows :
    (id : ℕ) (user : CurrentUser) (db : Db)
    → ((delete_absence id user db).1.absences ≡ db.absences)
      ⊎ ((delete_absence id user db).1.absences ≡ delete_where (λ a. a.id == id) db.absences)
unfolding delete_absence
delete_absence-rows id user db =
    elim (outcome (load_owned id user (is_own_open user) "Удаление запрещено" db)) [
      | inr (e, db', h) ↦ inl (ground (arith, h, load_owned-err id user _ db db' e h))
      | inl ((a, t), db', h) ↦
          let (same, _, _) = load_owned-ok id user _ db db' a t h in inr (ground (arith, h, same))
    ]

pub decide_absence-rows :
    (id : ℕ) (decision : Status) (comment : Option String) (user : CurrentUser) (req : Request)
    (db : Db)
    → ((decide_absence id decision comment user req db).1.absences ≡ db.absences)
      ⊎ ((decide_absence id decision comment user req db).1.absences
          ≡ update_where (λ a. a.id == id) (decided decision comment user.id req.now) db.absences)
unfolding decide_absence
decide_absence-rows id decision comment user req db =
    elim (outcome (decide_absence id decision comment user req db)) [
      | inr (e, db', h) ↦ inl (ground (arith, h))
      | inl (done, db', h) ↦ inr (ground (arith, h))
    ]
