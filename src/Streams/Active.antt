-- ===== src/Streams/Active.antt =====
-- A request for a stream leaves one active session of its employee.
use iskan.Prelude.{
  ℕ, ◌≡◌, ◌==◌, ==_refl, String, true, false, ◌∷◌, inl, inr, select, update_where, count_where,
  count_where-update_none, count_where-update, Option-cases, arith,
}
use iskan.Http.Errors.{Error, Result, ok, err}
use iskan.Auth.Store.{CurrentUser}
use iskan.Streams.{StreamSession, StreamDevice, Db}
use iskan.Streams.Handlers.{
  StreamRequest, newest_device, is_device_of, new_session, is_active_of, end_session, audit_access,
  request_stream,
}

-- the active sessions of an employee
abbrev pub active_sessions : ℕ → Db → ℕ
active_sessions employee_id db = count_where (is_active_of employee_id) db.sessions

module _ (employee_id : ℕ) (profile mode : String) (user : CurrentUser) (req : StreamRequest)
    (db db' : Db) where
  request_stream-ok :
      (s : StreamSession)
      → request_stream employee_id profile mode user req db ≡ (ok s, db')
      → (device : StreamDevice) × (s ≡ new_session device.id employee_id profile mode user.id req)
        × (db'.sessions
            ≡ new_session device.id employee_id profile mode user.id req
              ∷ update_where (is_active_of employee_id) (end_session req.now) db.sessions)
  unfolding request_stream audit_access
  request_stream-ok s h =
      elim (Option-cases (newest_device (select (is_device_of employee_id) db.devices))) [
        | inl missing ↦ absurd (ground (arith, h, missing))
        | inr (device, found) ↦ (device, ground (arith, h, found), ground (arith, h, found))
      ]

  request_stream-err :
      (e : Error) → request_stream employee_id profile mode user req db ≡ (err e, db') → db' ≡ db
  unfolding request_stream audit_access
  request_stream-err e h =
      elim (Option-cases (newest_device (select (is_device_of employee_id) db.devices))) [
        | inl missing ↦ ground (arith, h, missing)
        | inr (device, found) ↦ ground (arith, h, found)
      ]

  -- what the answer tells of the tables
  abbrev pub Answered : Result StreamSession → Type 0
  Answered (err e) = db' ≡ db
  Answered (ok s) =
      (active_sessions employee_id db' ≡ 1)
      × (is_active_of employee_id s ≡ true)
      × ((other : ℕ)
          → (other == employee_id) ≡ false
          → active_sessions other db' ≡ active_sessions other db)

  -- A request that is granted leaves its employee with exactly one active session, however many
  -- there were, answers an active session of theirs, and leaves every other employee as many
  -- active sessions as before; one that is refused changes nothing.
  pub request_stream-Answered :
      (r : Result StreamSession)
      → request_stream employee_id profile mode user req db ≡ (r, db')
      → Answered r
  request_stream-Answered (err e) h = request_stream-err e h
  request_stream-Answered (ok s) h =
      let (device, same, rows) = request_stream-ok s h in
      let none_left =
        count_where-update_none (is_active_of employee_id) (is_active_of employee_id)
          (end_session req.now) (λ x _. ground arith) (λ x e. e) db.sessions in
      (
        rw rows (ground (arith, none_left, ==_refl employee_id)),
        rw same (ground (arith, ==_refl employee_id)),
        λ other apart.
            let kept =
              count_where-update (is_active_of other) (is_active_of employee_id)
                (end_session req.now) (elsewhere other apart) db.sessions in
            rw rows (ground (arith, kept, apart, swapped other apart)),
      )
    where
      swapped : (other : ℕ) → (other == employee_id) ≡ false → (employee_id == other) ≡ false
      swapped other apart = ground (arith, apart)

      elsewhere :
          (other : ℕ)
          → (other == employee_id) ≡ false
          → (x : StreamSession) → is_active_of employee_id x ≡ true
          → is_active_of other (end_session req.now x) ≡ is_active_of other x
      elsewhere other apart x e = ground (arith, apart, e)
