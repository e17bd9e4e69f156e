-- ===== src/Devices/Admin.antt =====
-- admin.py: `update_device`, `revoke_device_token`, `send_device_command` and `map_windows_account`.
use iskan.Prelude.{
  ℕ, ◌+◌, ◌*◌, ◌==◌, String, ◌=s◌, any, Bool, false, not, ◌&&◌, List, ◌∷◌, Option, none, some, ⊤,
  find?, update_where, is_none,
}
use iskan.Http.{
  Action, pure, gets, modify, lift, raise_if, or_raise, transaction, when, ◌>>=◌, ◌>>◌,
}
use iskan.Http.Errors.{http, runtime_error, Result, ok, err}
use iskan.Auth.Scope.{is_in}
use iskan.Ingest.{Account, StoredEvent}
use iskan.Streams.{pending}
use iskan.Absences.Change.{Change, unset, null, value, is_sent, changed_option}
use iskan.Devices.{Db, DeviceRequest, audit}

-- `DeviceAdminPatch`
pub record DeviceAdminPatch : Type 0 where
  pub employee_id : Change ℕ
  pub is_approved : Change Bool

-- a truthy `changes.get("is_approved", current["is_approved"])`
abbrev pub approved_value : Change Bool → Bool → Bool
approved_value unset b = b
approved_value null b = false
approved_value (value a) b = a

-- `is_approved` is NOT NULL
abbrev pub check_approved : Change Bool → Result ⊤
check_approved unset = ok tt
check_approved null = err (runtime_error "NotNullViolationError")
check_approved (value a) = ok tt

abbrev pub is_unknown : Option ℕ → List ℕ → Bool
is_unknown none employees = false
is_unknown (some e) employees = not (is_in e employees)

-- an event of the device
abbrev pub is_event_of : ℕ → StoredEvent → Bool
is_event_of device_id e = e.device_id == device_id

abbrev pub assign : Option ℕ → StoredEvent → StoredEvent
assign employee_id e = record e { employee_id = employee_id }

-- the transaction of `update_device`
unfoldable pub write_device : ℕ → DeviceAdminPatch → Option ℕ → Bool → Action Db ⊤
write_device device_id p employee approved = do
  fits ← lift (check_approved p.is_approved)
  modify (λ db. record db {
    devices =
        update_where (λ d. d.id == device_id)
          (λ d. record d { employee_id = employee; is_approved = approved }) db.devices;
  })
  when (is_sent p.employee_id) (
      modify (λ db. record db {
        events = update_where (is_event_of device_id) (assign employee) db.events;
      }))
  audit "device_updated" device_id

-- `update_device`
unfoldable pub update_device : ℕ → DeviceAdminPatch → Action Db ⊤
update_device device_id p = do
  found ← gets (λ db. find? (λ d. d.id == device_id) db.devices)
  current ← or_raise found (http 404 "Устройство не найдено")
  let employee = changed_option p.employee_id current.employee_id
  let approved = approved_value p.is_approved current.is_approved
  employees ← gets (λ db. db.employees)
  raise_if (is_unknown employee employees) (http 422 "Сотрудник не найден")
  raise_if (approved && is_none employee)
      (http 422 "Перед подтверждением привяжите устройство к сотруднику")
  transaction (write_device device_id p employee approved)

-- `revoke_device_token`
unfoldable pub revoke_device_token : ℕ → DeviceRequest → Action Db ⊤
revoke_device_token device_id req = do
  found ← gets (λ db. find? (λ d. d.id == device_id) db.devices)
  modify (λ db. record db {
    devices =
        update_where (λ d. d.id == device_id)
          (λ d. record d { token_hash = req.fresh_hash; is_approved = false }) db.devices;
  })
  device ← or_raise found (http 404 "Устройство не найдено")
  audit "device_token_revoked" device_id

-- `send_device_command`; the command waits for its agent
unfoldable pub send_device_command : ℕ → String → DeviceRequest → Action Db ℕ
send_device_command device_id command req = do
  approved ← gets (λ db. any (λ d. (d.id == device_id) && d.is_approved) db.devices)
  raise_if (not approved) (http 404 "Подтверждённое устройство не найдено")
  modify (λ db. record db {
    commands =
        record {
          id = req.fresh_command;
          device_id = device_id;
          command = command;
          session_id = none;
          status = pending;
          requested_at = req.now;
          expires_at = req.now + 10 * 60;
          ack_message = none;
        }
        ∷ db.commands;
  })
  audit "device_command_requested" device_id
  pure req.fresh_command

-- an event that waits for the account's employee
abbrev pub is_waiting_of : Account → StoredEvent → Bool
is_waiting_of a e =
    (e.device_id == a.device_id)
    && (elim e.windows_sid [ none ↦ false | some s ↦ s =s a.sid ])
    && e.is_quarantined

abbrev pub release : ℕ → StoredEvent → StoredEvent
release employee_id e = record e { employee_id = some employee_id; is_quarantined = false }

-- the transaction of `map_windows_account`
unfoldable pub write_account : ℕ → ℕ → Action Db ⊤
write_account account_id employee_id = do
  found ← gets (λ db. find? (λ a. a.id == account_id) db.accounts)
  modify (λ db. record db {
    accounts =
        update_where (λ a. a.id == account_id) (λ a. record a { employee_id = some employee_id })
          db.accounts;
  })
  account ← or_raise found (http 404 "Учётная запись Windows не найдена")
  modify (λ db. record db {
    events = update_where (is_waiting_of account) (release employee_id) db.events;
  })
  audit "windows_account_mapped" account_id

-- `map_windows_account`
unfoldable pub map_windows_account : ℕ → ℕ → Action Db ⊤
map_windows_account account_id employee_id = do
  known ← gets (λ db. is_in employee_id db.employees)
  raise_if (not known) (http 422 "Сотрудник не найден")
  transaction (write_account account_id employee_id)
