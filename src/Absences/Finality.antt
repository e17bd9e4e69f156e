-- ===== src/Absences/Finality.antt =====
-- A decision on an absence is made once.
use iskan.Prelude.{
  ℕ, ◌≡◌, refl, inl, inr, ◌==◌, String, true, false, Option, some, find?, find?_holds,
  find?-update_where, Option-cases, arith,
}
use iskan.Http.Errors.{http, ok, err}
use iskan.Auth.Store.{CurrentUser}
use iskan.Auth.Scope.{sees, visible_employee_ids}
use iskan.Absences.{Status, Absence, AbsenceType, Db, Request, is_open}
use iskan.Absences.Decide.{decided, decide_absence}

module _ (id : ℕ) (decision : Status) (comment : Option String) (user : CurrentUser) (req : Request)
    (db : Db) (a : Absence) where
  decide_absence-row :
      (db' : Db)
      → find? (λ x. x.id == id) db.absences ≡ some a
      → decide_absence id decision comment user req db ≡ (ok tt, db')
      → (find? (λ x. x.id == id) db'.absences ≡ some (decided decision comment user.id req.now a))
        × (db'.scope ≡ db.scope)
        × ((t : AbsenceType) × (find? (λ t. t.id == a.type_id) db'.types ≡ some t))
  unfolding decide_absence
  decide_absence-row db' found h =
      let row =
        find?-update_where (λ x. x.id == id) (λ x. x.id == id)
          (decided decision comment user.id req.now) (λ x. refl) db.absences found in
      let same_id = find?_holds (λ x. x.id == id) db.absences a found in
      elim (Option-cases (find? (λ t. t.id == a.type_id) db.types)) [
        | inl missing ↦ absurd (ground (arith, found, missing, h))
        | inr (t, typed) ↦ (
          ground (arith, found, typed, h, row, same_id),
          ground (arith, found, typed, h),
          (t, ground (arith, found, typed, h)),
        )
      ]

  -- Once an absence is decided, its row holds the decision, who made it and when, and every
  -- further decision by a user who sees the employee is refused with 409 and changes nothing.
  pub decide_absence-final :
      (db' : Db)
      → find? (λ x. x.id == id) db.absences ≡ some a
      → decide_absence id decision comment user req db ≡ (ok tt, db')
      → is_open decision ≡ false
      → (find? (λ x. x.id == id) db'.absences ≡ some (decided decision comment user.id req.now a))
        × ((again : Status) (comment' : Option String) (user' : CurrentUser) (req' : Request)
            → sees (visible_employee_ids user' db.scope) a.employee_id ≡ true
            → decide_absence id again comment' user' req' db'
              ≡ (err (http 409 "Решение по событию уже принято"), db'))
  unfolding decide_absence
  decide_absence-final db' found h closed =
      let (row, scope, (t, typed)) = decide_absence-row db' found h in
      (row, λ again comment' user' req' seen. ground (arith, row, scope, typed, closed, seen))
