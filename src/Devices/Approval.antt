-- ===== src/Devices/Approval.antt =====
-- An approved device is somebody's.
use iskan.Prelude.{
  ℕ, ◌≡◌, ◌⊎◌, inl, inr, ◌==◌, String, list_eq, Bool, true, false, ◌&&◌, ◌||◌, ◌∷◌, Option, find?,
  update_where, update_where-All, All, is_some, is_none, Bool-cases, Option-cases, arith,
}
use iskan.Http.Errors.{Result-cases}
use iskan.Security.Crypto.{Text}
use iskan.Rules.{TextOps}
use iskan.Activity.{normalize_activity_state}
use iskan.Absences.Change.{changed_option}
use iskan.Devices.{Device, Db, DeviceSettings, DeviceRequest, hash_device_token}
use iskan.Devices.Agent.{
  RegisterRequest, is_machine, reinstall, new_device, upsert_device, register_device, seen,
  heartbeat,
}
use iskan.Devices.Admin.{
  DeviceAdminPatch, approved_value, check_approved, is_unknown, write_device, update_device,
  revoke_device_token, send_device_command, write_account, map_windows_account,
}

-- a request to one of the routes that write devices, their commands and their accounts
pub data Operation : Type 0 where
  register : RegisterRequest → Operation
  report : String → Option String → Device → Operation
  update : ℕ → DeviceAdminPatch → Operation
  revoke_token : ℕ → Operation
  send_command : ℕ → String → Operation
  map_account : ℕ → ℕ → Operation

module _ (t : TextOps) (cfg : DeviceSettings) where
  -- the tables afterwards
  unfoldable pub run : Operation → DeviceRequest → Db → Db
  run (register p) req db = (register_device cfg p req db).1
  run (report version state device) req db = (heartbeat t cfg version state device req db).1
  run (update id p) req db = (update_device id p db).1
  run (revoke_token id) req db = (revoke_device_token id req db).1
  run (send_command id command) req db = (send_device_command id command req db).1
  run (map_account id employee) req db = (map_windows_account id employee db).1

-- A device that is approved has an employee.
abbrev pub IsOwned : Device → Type 0
IsOwned d = d.is_approved ≡ true → is_some d.employee_id ≡ true

upsert_device-devices :
    (p : RegisterRequest) (hash : Text) (id : ℕ) (db : Db)
    → ((upsert_device p hash id db).1.devices ≡ new_device p hash id ∷ db.devices)
      ⊎ ((upsert_device p hash id db).1.devices
          ≡ update_where (is_machine p.machine_guid) (reinstall p hash) db.devices)
unfolding upsert_device
upsert_device-devices p hash id db =
    elim (Option-cases (find? (is_machine p.machine_guid) db.devices)) [
      | inl missing ↦ inl (ground (arith, missing))
      | inr (d, found) ↦ inr (ground (arith, found))
    ]

upsert_device-IsOwned :
    (p : RegisterRequest) (hash : Text) (id : ℕ) (db : Db)
    → All IsOwned db.devices
    → All IsOwned (upsert_device p hash id db).1.devices
upsert_device-IsOwned p hash id db h = elim (upsert_device-devices p hash id db) [
  | inl new ↦ rw new ((λ k. absurd (ground (arith, k))), h)
  | inr old ↦ rw old (
      update_where-All IsOwned (is_machine p.machine_guid) (reinstall p hash) db.devices
        (λ d o _. o) h)
]

register_device-devices :
    (cfg : DeviceSettings) (p : RegisterRequest) (req : DeviceRequest) (db : Db)
    → ((register_device cfg p req db).1.devices ≡ db.devices)
      ⊎ ((register_device cfg p req db).1.devices
          ≡ (upsert_device p (hash_device_token cfg req.fresh_token) req.fresh_device db).1.devices)
unfolding register_device upsert_device
register_device-devices cfg p req db =
    elim (Bool-cases (list_eq p.installation_token cfg.installation_token)) [
      | inr refused ↦ inl (ground (arith, refused))
      | inl fits ↦ elim (Option-cases (find? (is_machine p.machine_guid) db.devices)) [
        | inl missing ↦ inr (ground (arith, fits, missing))
        | inr (d, found) ↦ inr (ground (arith, fits, found))
      ]
    ]

heartbeat-devices :
    (t : TextOps) (cfg : DeviceSettings) (version : String) (s : Option String) (device : Device)
    (req : DeviceRequest) (db : Db)
    → ((heartbeat t cfg version s device req db).1.devices ≡ db.devices)
      ⊎ ((state : Option String) × ((heartbeat t cfg version s device req db).1.devices
            ≡ update_where (λ d. d.id == device.id) (seen req.now state version) db.devices))
unfolding heartbeat
heartbeat-devices t cfg version s device req db =
    elim (Result-cases (normalize_activity_state t s)) [
      | inr (e, bad) ↦ inl (ground (arith, bad))
      | inl (state, good) ↦ elim (Option-cases db.redis) [
        | inl missing ↦ inr (state, ground (arith, good, missing))
        | inr (values, there) ↦ inr (state, ground (arith, good, there))
      ]
    ]

update_device-devices :
    (id : ℕ) (p : DeviceAdminPatch) (db : Db)
    → ((update_device id p db).1.devices ≡ db.devices)
      ⊎ ((employee : Option ℕ) × (approved : Bool) × ((approved ≡ true) → is_some employee ≡ true)
          × ((update_device id p db).1.devices
              ≡ update_where
                  (λ d. d.id == id)
                  (λ d. record d { employee_id = employee; is_approved = approved })
                  db.devices))
unfolding update_device write_device
update_device-devices id p db = elim (Option-cases (find? (λ d. d.id == id) db.devices)) [
  | inl missing ↦ inl (ground (arith, missing))
  | inr (current, found) ↦
      let employee = changed_option p.employee_id current.employee_id in
      let approved = approved_value p.is_approved current.is_approved in
      elim (Bool-cases (is_unknown employee db.employees || (approved && is_none employee))) [
        | inl refused ↦ inl (ground (arith, found, refused))
        | inr fine ↦ elim (Result-cases (check_approved p.is_approved)) [
          | inr (e, bad) ↦ inl (ground (arith, found, fine, bad))
          | inl (done, good) ↦ inr (
            employee,
            approved,
            (λ k. ground (arith, fine, k)),
            ground (arith, found, fine, good),
          )
        ]
      ]
]

revoke_device_token-devices :
    (id : ℕ) (req : DeviceRequest) (db : Db)
    → (revoke_device_token id req db).1.devices
      ≡ update_where
          (λ d. d.id == id)
          (λ d. record d { token_hash = req.fresh_hash; is_approved = false })
          db.devices
unfolding revoke_device_token
revoke_device_token-devices id req db = ground arith

send_device_command-devices :
    (id : ℕ) (command : String) (req : DeviceRequest) (db : Db)
    → (send_device_command id command req db).1.devices ≡ db.devices
unfolding send_device_command
send_device_command-devices id command req db = ground arith

map_windows_account-devices :
    (id employee : ℕ) (db : Db) → (map_windows_account id employee db).1.devices ≡ db.devices
unfolding map_windows_account write_account
map_windows_account-devices id employee db = ground arith

-- Whatever a request answers that registers a device, reports, changes, revokes, commands or maps
-- an account: if every approved device had an employee, every one has one afterwards.
pub run-IsOwned :
    (t : TextOps) (cfg : DeviceSettings) (op : Operation) (req : DeviceRequest) (db : Db)
    → All IsOwned db.devices
    → All IsOwned (run t cfg op req db).devices
unfolding run
run-IsOwned t cfg (register p) req db h = elim (register_device-devices cfg p req db) [
  | inl same ↦ rw same h
  | inr all ↦ rw all (upsert_device-IsOwned p _ req.fresh_device db h)
]
run-IsOwned t cfg (report version s device) req db h =
    elim (heartbeat-devices t cfg version s device req db) [
      | inl same ↦ rw same h
      | inr (state, all) ↦ rw all (
          update_where-All IsOwned (λ d. d.id == device.id) (seen req.now state version) db.devices
            (λ d o _. o) h)
    ]
run-IsOwned t cfg (update id p) req db h = elim (update_device-devices id p db) [
  | inl same ↦ rw same h
  | inr (employee, approved, owned, all) ↦
      rw all (update_where-All IsOwned (λ d. d.id == id) _ db.devices (λ d o _. owned) h)
]
run-IsOwned t cfg (revoke_token id) req db h = rw (revoke_device_token-devices id req db) (
    update_where-All IsOwned (λ d. d.id == id) _ db.devices (λ d o _ k. absurd (ground (arith, k)))
      h)
run-IsOwned t cfg (send_command id command) req db h =
    rw (send_device_command-devices id command req db) h
run-IsOwned t cfg (map_account id employee) req db h =
    rw (map_windows_account-devices id employee db) h
