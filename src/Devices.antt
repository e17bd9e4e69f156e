-- ===== src/Devices.antt =====
-- main.py and admin.py: the devices, who speaks for them and who approves them. A token's hash is
-- made by `sha256`, whose hexadecimal digest is a parameter.
pub mod Agent
pub mod Admin
pub mod Approval
pub mod Tokens
pub mod Events
use iskan.Prelude.{
  ℕ, String, ◌==◌, Bool, true, false, ◌&&◌, List, [], ◌∷◌, ◌++◌, map, Option, none, some, ⊤, find?,
  codes, list_eq, any, if◌then◌else◌,
}
use iskan.Http.{Action, pure, gets, modify, raise, or_raise, ◌>>=◌, ◌>>◌}
use iskan.Http.Errors.{Error, http, Result, ok, err}
use iskan.Security.Crypto.{Text}
use iskan.Auth.Store.{AuditRow}
use iskan.Ingest.{Account, StoredEvent}
use iskan.Streams.{Command}

pub record Device : Type 0 where
  pub id : ℕ
  pub employee_id : Option ℕ
  pub hostname : String
  pub machine_guid : String
  pub os_version : String
  pub agent_version : String
  pub token_hash : Text
  pub is_approved : Bool
  pub last_seen : Option ℕ
  pub last_activity_state : Option String

-- a value of Redis that expires
pub record Presence : Type 0 where
  pub device_id : ℕ
  pub state : Option String
  pub at : ℕ
  pub expires_at : ℕ

pub record Db : Type 0 where
  pub devices : List Device
  pub employees : List ℕ
  pub accounts : List Account
  pub events : List StoredEvent
  pub commands : List Command
  pub audit : List AuditRow
  -- `redis_client`, which is None until it is connected
  pub redis : Option (List Presence)

pub record DeviceSettings : Type 0 where
  pub installation_token : Text
  pub device_token_pepper : Text
  pub presence_ttl_seconds : ℕ
  pub sha256 : Text → Text

-- the moment of the request and what is drawn for it: a device's id, its token, a hash that is no
-- token's and a command's id
pub record DeviceRequest : Type 0 where
  pub now : ℕ
  pub fresh_device : ℕ
  pub fresh_token : Text
  pub fresh_hash : Text
  pub fresh_command : ℕ

abbrev pub audit : String → ℕ → Action Db ⊤
audit action object_id =
    modify λ db. record db { audit = record { action = action; object_id = object_id } ∷ db.audit }

-- `hash_device_token`
unfoldable pub hash_device_token : DeviceSettings → Text → Text
hash_device_token cfg token = cfg.sha256 (cfg.device_token_pepper ++ codes ":" ++ token)

-- `authorization.startswith("Bearer ")`, with the rest
abbrev pub strip_prefix : Text → Text → Option Text
strip_prefix [] text = some text
strip_prefix (x ∷ xs) [] = none
strip_prefix (x ∷ xs) (y ∷ ys) = let rest = strip_prefix xs ys in if x == y then rest else none

abbrev pub bearer : Option Text → Option Text
bearer none = none
bearer (some authorization) = strip_prefix (codes "Bearer ") authorization

abbrev pub has_hash : Text → Device → Bool
has_hash hash d = list_eq d.token_hash hash

-- `authenticated_device`, which streams.py has once more
unfoldable pub authenticated_device : DeviceSettings → Option Text → Action Db Device
authenticated_device cfg authorization = do
  token ← or_raise (bearer authorization) (http 401 "Device token is required")
  found ← gets (λ db. find? (has_hash (hash_device_token cfg token)) db.devices)
  or_raise found (http 401 "Invalid device token")
