-- ===== src/Streams.antt =====
-- streams.py: stream sessions and the commands that an agent fetches and acknowledges. An instant
-- is a whole second; the URLs and keys of the media server are texts drawn with the request.
pub mod Schedule
pub mod Handlers
pub mod Active
pub mod Delivery
pub mod Revival
use iskan.Prelude.{
  ℕ, ◌+◌, ◌-◌, ◌==◌, leb, ltb, String, ◌=s◌, one_of, any, Bool, true, false, not, ◌&&◌, ◌||◌, List,
  [], ◌∷◌, Option, none, some, is_none, if◌then◌else◌,
}

pub data StreamStatus : Type 0 where
  requested : StreamStatus
  starting : StreamStatus
  live : StreamStatus
  ended : StreamStatus
  failed : StreamStatus

pub record StreamSession : Type 0 where
  pub id : ℕ
  pub device_id : ℕ
  pub employee_id : ℕ
  pub started_at : ℕ
  pub ended_at : Option ℕ
  pub profile : String
  pub mode : String
  pub status : StreamStatus
  pub initiated_by : Option ℕ
  pub stream_key : String
  pub failure_reason : Option String

pub data CommandStatus : Type 0 where
  pending : CommandStatus
  delivered : CommandStatus
  acknowledged : CommandStatus
  failed_command : CommandStatus

-- a row of `agent_commands`; its payload names a session
pub record Command : Type 0 where
  pub id : ℕ
  pub device_id : ℕ
  pub command : String
  pub session_id : Option ℕ
  pub status : CommandStatus
  pub requested_at : ℕ
  pub expires_at : ℕ
  pub ack_message : Option String

-- the schedule that is assigned to an employee: the weekdays and the times of its rules, `none`
-- where reading them raises
pub record WorkSchedule : Type 0 where
  pub rules : Option (List ℕ × ℕ × ℕ)

pub record StreamDevice : Type 0 where
  pub id : ℕ
  pub employee_id : Option ℕ
  pub is_approved : Bool
  pub last_seen : Option ℕ
  pub last_activity_state : Option String

-- an audit row of a stream
pub record Access : Type 0 where
  pub user_id : ℕ
  pub action : String
  pub object_id : ℕ
  pub created_at : ℕ

pub record Db : Type 0 where
  pub devices : List StreamDevice
  pub sessions : List StreamSession
  pub commands : List Command
  pub audit : List Access

-- `status IN ('requested','starting','live')`
abbrev pub is_active : StreamStatus → Bool
is_active requested = true
is_active starting = true
is_active live = true
is_active ended = false
is_active failed = false

abbrev pub is_pending : CommandStatus → Bool
is_pending pending = true
is_pending delivered = false
is_pending acknowledged = false
is_pending failed_command = false

abbrev pub is_delivered : CommandStatus → Bool
is_delivered pending = false
is_delivered delivered = true
is_delivered acknowledged = false
is_delivered failed_command = false
