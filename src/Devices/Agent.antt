-- ===== src/Devices/Agent.antt =====
-- main.py: `register_device` and `heartbeat`.
use iskan.Prelude.{
  ℕ, ◌+◌, ◌==◌, String, ◌=s◌, list_eq, Bool, false, not, List, ◌∷◌, Option, none, some, ⊤, find?,
  select, update_where, delete_where,
}
use iskan.Http.{Action, pure, gets, modify, lift, raise_if, or_raise, ◌>>=◌, ◌>>◌}
use iskan.Http.Errors.{http, ok}
use iskan.Security.Crypto.{Text}
use iskan.Auth.Scope.{is_in}
use iskan.Rules.{TextOps}
use iskan.Activity.{normalize_activity_state}
use iskan.Streams.{Command, delivered}
use iskan.Streams.Handlers.{is_due, by_requested_at, take, ids_of}
use iskan.Devices.{Device, Presence, Db, DeviceSettings, DeviceRequest, audit, hash_device_token}

pub record RegisterRequest : Type 0 where
  pub installation_token : Text
  pub hostname : String
  pub machine_guid : String
  pub os_version : String
  pub agent_version : String

pub record RegisterResponse : Type 0 where
  pub device_id : ℕ
  pub device_token : Text
  pub approval_required : Bool

abbrev pub is_machine : String → Device → Bool
is_machine guid d = d.machine_guid =s guid

-- `DO UPDATE SET …`
abbrev pub reinstall : RegisterRequest → Text → Device → Device
reinstall p hash d = record d {
  hostname = p.hostname;
  os_version = p.os_version;
  agent_version = p.agent_version;
  token_hash = hash;
}

abbrev pub new_device : RegisterRequest → Text → ℕ → Device
new_device p hash id = record {
  id = id;
  employee_id = none;
  hostname = p.hostname;
  machine_guid = p.machine_guid;
  os_version = p.os_version;
  agent_version = p.agent_version;
  token_hash = hash;
  is_approved = false;
  last_seen = none;
  last_activity_state = none;
}

-- `INSERT … ON CONFLICT(machine_guid) DO UPDATE … RETURNING id, is_approved`
unfoldable pub upsert_device : RegisterRequest → Text → ℕ → Action Db Device
upsert_device p hash id db = elim (find? (is_machine p.machine_guid) db.devices) [
  | some d ↦ (
    ok (reinstall p hash d),
    record db { devices = update_where (is_machine p.machine_guid) (reinstall p hash) db.devices },
  )
  | none ↦ (ok (new_device p hash id), record db { devices = new_device p hash id ∷ db.devices })
]

-- `register_device`
unfoldable pub register_device :
    DeviceSettings → RegisterRequest → DeviceRequest → Action Db RegisterResponse
register_device cfg p req = do
  raise_if (not (list_eq p.installation_token cfg.installation_token))
      (http 403 "Invalid installation token")
  row ← upsert_device p (hash_device_token cfg req.fresh_token) req.fresh_device
  audit "device_registered" row.id
  pure (record {
    device_id = row.id;
    device_token = req.fresh_token;
    approval_required = not row.is_approved;
  })

-- `setex`: the value of the device, which had one or had none
abbrev pub set_presence : Presence → List Presence → List Presence
set_presence p ps = p ∷ delete_where (λ q. q.device_id == p.device_id) ps

-- `if redis_client is None: raise …`
abbrev pub store_presence : Presence → Action Db ⊤
store_presence p = do
  redis ← gets (λ db. db.redis)
  values ← or_raise redis (http 503 "Presence storage unavailable")
  modify (λ db. record db { redis = some (set_presence p values) })

-- the commands of the device that are due, at most twenty, oldest first
abbrev pub due_commands : ℕ → ℕ → List Command → List Command
due_commands device_id now cs = take 20 (by_requested_at (select (is_due device_id now) cs))

-- `UPDATE agent_commands SET status='delivered' … RETURNING …`
abbrev pub deliver : ℕ → ℕ → Action Db (List Command)
deliver device_id now = do
  rows ← gets (λ db. due_commands device_id now db.commands)
  modify (λ db. record db {
    commands =
        update_where (λ c. is_in c.id (ids_of rows)) (λ c. record c { status = delivered })
          db.commands;
  })
  pure rows

-- the row of a device that reports
abbrev pub seen : ℕ → Option String → String → Device → Device
seen now state version d = record d {
  last_seen = some now;
  last_activity_state = state;
  agent_version = version;
}

-- `heartbeat`; it answers the commands
unfoldable pub heartbeat :
    TextOps
    → DeviceSettings
    → String
    → Option String
    → Device
    → DeviceRequest
    → Action Db (List Command)
heartbeat t cfg agent_version activity_state device req = do
  state ← lift (normalize_activity_state t activity_state)
  modify (λ db. record db {
    devices = update_where (λ d. d.id == device.id) (seen req.now state agent_version) db.devices;
  })
  store_presence (record {
    device_id = device.id;
    state = state;
    at = req.now;
    expires_at = req.now + cfg.presence_ttl_seconds;
  })
  deliver device.id req.now
