-- ===== src/Tests/Devices.antt =====
-- The theorems on devices at concrete inputs.
use iskan.Prelude.{
  ◌≡◌, refl, ◌==◌, ◌&&◌, String, ◌=s◌, Bool, true, false, not, [], ◌∷◌, Option, none, some, find?,
  count_where, All, arith,
}
use iskan.Http.Errors.{http, ok, err}
use iskan.Absences.Change.{value}
use iskan.Ingest.{Account, StoredEvent}
use iskan.Devices.{
  Device, Db, DeviceSettings, DeviceRequest, hash_device_token, authenticated_device,
}
use iskan.Devices.Agent.{RegisterRequest, RegisterResponse, register_device, upsert_device}
use iskan.Devices.Admin.{
  DeviceAdminPatch, update_device, write_device, revoke_device_token, is_event_of, is_waiting_of,
  map_windows_account, write_account,
}
use iskan.Devices.Approval.{update, run, IsOwned, run-IsOwned}
use iskan.Devices.Tokens.{
  authorization, register_device-authenticated_device, revoke_device_token-authenticated_device,
}
use iskan.Devices.Events.{map_windows_account-releases, is_quarantined_of, update_device-reassigns}
use iskan.Tests.Rules.{ops}

abbrev cfg : DeviceSettings
cfg = record {
  installation_token = 1 ∷ [];
  device_token_pepper = 9 ∷ [];
  presence_ttl_seconds = 90;
  sha256 = λ t. t;
}

abbrev req : DeviceRequest
req = record {
  now = 1000;
  fresh_device = 7;
  fresh_token = 4 ∷ [];
  fresh_hash = 8 ∷ [];
  fresh_command = 2;
}

abbrev installation : RegisterRequest
installation = record {
  installation_token = 1 ∷ [];
  hostname = "PC";
  machine_guid = "M";
  os_version = "11";
  agent_version = "1.0.0";
}

abbrev account : Account
account = record { id = 3; device_id = 7; sid = "S-1"; username = "anna"; employee_id = some 12 }

abbrev event : Option String → Bool → StoredEvent
event sid waits = record {
  event_uuid = 1;
  device_id = 7;
  employee_id = some 12;
  interval = record { start = 0; end = 5; duration_seconds = 1; state = "NEUTRAL" };
  category_id = none;
  windows_sid = sid;
  is_quarantined = waits;
  time_skew = false;
}

abbrev empty : Db
empty = record {
  devices = [];
  employees = 11 ∷ 12 ∷ [];
  accounts = account ∷ [];
  events = event (some "S-1") false ∷ event (some "S-1") true ∷ [];
  commands = [];
  audit = [];
  redis = none;
}

abbrev registered : Db
registered = (register_device cfg installation req empty).1

abbrev response : RegisterResponse
response = record { device_id = 7; device_token = 4 ∷ []; approval_required = true }

register_device-authenticated_device_example :
    (d : Device) × (authenticated_device cfg (authorization (4 ∷ [])) registered
      ≡ (ok d, registered))
    × (d.id ≡ 7)
    × (d.machine_guid ≡ "M")
    × (true ≡ not d.is_approved)
unfolding register_device upsert_device hash_device_token
register_device-authenticated_device_example =
    register_device-authenticated_device cfg installation req empty registered response refl tt

abbrev revoked : Db
revoked = (revoke_device_token 7 req registered).1

revoke_device_token-authenticated_device_example :
    (authenticated_device cfg (authorization (4 ∷ [])) revoked
      ≡ (err (http 401 "Invalid device token"), revoked))
    × (find? (λ d. (d.id == 7) && d.is_approved) revoked.devices ≡ none)
unfolding register_device upsert_device hash_device_token revoke_device_token
revoke_device_token-authenticated_device_example =
    revoke_device_token-authenticated_device cfg 7 (4 ∷ []) req registered revoked refl
      ((λ e. absurd (ground (arith, e))), tt) refl

abbrev patch : DeviceAdminPatch
patch = record { employee_id = value 11; is_approved = value true }

run-IsOwned_example : All IsOwned (run ops cfg (update 7 patch) req registered).devices
unfolding register_device upsert_device hash_device_token
run-IsOwned_example = run-IsOwned ops cfg (update 7 patch) req registered ((λ e. absurd (cc e)), tt)

abbrev mapped : Db
mapped = (map_windows_account 3 12 empty).1

map_windows_account-releases_example :
    (a : Account) × (find? (λ x. x.id == 3) empty.accounts ≡ some a)
    × (count_where (is_waiting_of a) mapped.events ≡ 0)
    × ((b : Account)
        → ((b.device_id == a.device_id) && (b.sid =s a.sid)) ≡ false
        → count_where (is_waiting_of b) mapped.events ≡ count_where (is_waiting_of b) empty.events)
unfolding map_windows_account write_account
map_windows_account-releases_example = map_windows_account-releases 3 12 empty mapped refl

abbrev updated : Db
updated = (update_device 7 patch registered).1

update_device-reassigns_example :
    All (λ e. is_event_of 7 e ≡ true → e.employee_id ≡ some 11) updated.events
    × (count_where (is_quarantined_of 7) updated.events
        ≡ count_where (is_quarantined_of 7) registered.events)
unfolding register_device upsert_device hash_device_token update_device write_device
update_device-reassigns_example = update_device-reassigns 7 11 patch registered updated refl refl
