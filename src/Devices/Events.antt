-- ===== src/Devices/Events.antt =====
-- What happens to a device's events when the device or a Windows account gets an employee.
use iskan.Prelude.{
  ℕ, ◌≡◌, refl, inl, inr, ◌==◌, ◌=s◌, =s_iff, Bool, true, false, ◌&&◌, List, [], ◌∷◌, some, find?,
  update_where, count_where, count_where-update, count_where-update_none, All, Bool-cases,
  Option-cases, arith,
}
use iskan.Http.Errors.{ok, Result-cases}
use iskan.Ingest.{Account, StoredEvent}
use iskan.Absences.Change.{value}
use iskan.Devices.{Db}
use iskan.Devices.Admin.{
  DeviceAdminPatch, check_approved, is_event_of, assign, write_device, update_device, is_waiting_of,
  release, write_account, map_windows_account,
}

map_windows_account-events :
    (account_id employee_id : ℕ) (db db' : Db)
    → map_windows_account account_id employee_id db ≡ (ok tt, db')
    → (a : Account) × (find? (λ x. x.id == account_id) db.accounts ≡ some a)
      × (db'.events ≡ update_where (is_waiting_of a) (release employee_id) db.events)
unfolding map_windows_account write_account
map_windows_account-events account_id employee_id db db' h =
    elim (Option-cases (find? (λ x. x.id == account_id) db.accounts)) [
      | inl missing ↦ absurd (ground (arith, h, missing))
      | inr (a, found) ↦ (a, found, ground (arith, h, found))
    ]

-- When an account is mapped, none of its events waits in quarantine any more, and every other
-- account, of another device or with another SID, has as many waiting events as before.
pub map_windows_account-releases :
    (account_id employee_id : ℕ) (db db' : Db)
    → map_windows_account account_id employee_id db ≡ (ok tt, db')
    → (a : Account) × (find? (λ x. x.id == account_id) db.accounts ≡ some a)
      × (count_where (is_waiting_of a) db'.events ≡ 0)
      × ((b : Account)
          → ((b.device_id == a.device_id) && (b.sid =s a.sid)) ≡ false
          → count_where (is_waiting_of b) db'.events ≡ count_where (is_waiting_of b) db.events)
map_windows_account-releases account_id employee_id db db' h =
    let (a, found, all) = map_windows_account-events account_id employee_id db db' h in
    (
      a,
      found,
      rw all (
          count_where-update_none (is_waiting_of a) (is_waiting_of a) (release employee_id)
            (λ e _. gone a e) (λ e k. k) db.events),
      λ b apart. rw all (
          count_where-update (is_waiting_of b) (is_waiting_of a) (release employee_id)
            (λ e k. other a b e apart k) db.events),
    )
  where
    gone : (a : Account) (e : StoredEvent) → is_waiting_of a (release employee_id e) ≡ false
    gone a e = ground arith

    other :
        (a b : Account) (e : StoredEvent)
        → ((b.device_id == a.device_id) && (b.sid =s a.sid)) ≡ false
        → is_waiting_of a e ≡ true
        → is_waiting_of b (release employee_id e) ≡ is_waiting_of b e
    other a b e apart k = elim (Option-cases e.windows_sid) [
      | inl nobody ↦ absurd (ground (arith, k, nobody))
      | inr (s, sid) ↦
          ground (arith, k, apart, sid, =s_iff s a.sid, =s_iff s b.sid, =s_iff b.sid a.sid)
    ]

update_device-events :
    (id employee : ℕ) (p : DeviceAdminPatch) (db db' : Db)
    → p.employee_id ≡ value employee
    → update_device id p db ≡ (ok tt, db')
    → db'.events ≡ update_where (is_event_of id) (assign (some employee)) db.events
unfolding update_device write_device
update_device-events id employee p db db' sent h =
    elim (Result-cases (check_approved p.is_approved)) [
      | inr (e, bad) ↦ absurd (ground (arith, h, sent, bad))
      | inl (done, good) ↦ ground (arith, h, sent, good)
    ]

-- an event of the device that waits for an employee
abbrev pub is_quarantined_of : ℕ → StoredEvent → Bool
is_quarantined_of id e = is_event_of id e && e.is_quarantined

-- When a device gets an employee, every event of the device becomes that employee's, also one of a
-- Windows account that is mapped to another employee, and the device's quarantined events, which
-- now have an employee, stay quarantined.
pub update_device-reassigns :
    (id employee : ℕ) (p : DeviceAdminPatch) (db db' : Db)
    → p.employee_id ≡ value employee
    → update_device id p db ≡ (ok tt, db')
    → All (λ e. is_event_of id e ≡ true → e.employee_id ≡ some employee) db'.events
      × (count_where (is_quarantined_of id) db'.events
          ≡ count_where (is_quarantined_of id) db.events)
update_device-reassigns id employee p db db' sent h =
    let all = update_device-events id employee p db db' sent h in
    (
      rw all (assigned db.events),
      rw all (
          count_where-update (is_quarantined_of id) (is_event_of id) (assign (some employee))
            (λ e _. refl) db.events),
    )
  where
    assigned :
        (es : List StoredEvent)
        → All
            (λ e. is_event_of id e ≡ true → e.employee_id ≡ some employee)
            (update_where (is_event_of id) (assign (some employee)) es)
    assigned [] = tt
    assigned (e ∷ es) = elim (Bool-cases (is_event_of id e)) [
      | inl hit ↦ rw hit ((λ _. refl), assigned es)
      | inr miss ↦ rw miss ((λ k. absurd (cc (k, miss))), assigned es)
    ]
