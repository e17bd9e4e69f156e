-- ===== src/Tests/Streams.antt =====
-- The theorems on streams at concrete inputs.
use iskan.Prelude.{ℕ, ◌≡◌, refl, List, [], ◌∷◌, none, some, All, true, false, find?, ◌==◌}
use iskan.Http.Errors.{ok}
use iskan.Auth.Store.{CurrentUser}
use iskan.Auth.Scope.{is_in}
use iskan.Streams.{
  StreamStatus, requested, starting, live, StreamSession, CommandStatus, pending, delivered,
  Command, Db,
}
use iskan.Streams.Schedule.{within_work_schedule}
use iskan.Streams.Handlers.{
  StreamRequest, request_stream, stop_stream, agent_commands, acknowledge_command, audit_access,
  ids_of, new_session,
}
use iskan.Streams.Active.{Answered, request_stream-Answered}
use iskan.Streams.Delivery.{agent_commands-once}
use iskan.Streams.Revival.{stop_stream-acknowledge_command}

abbrev person : CurrentUser
person = record {
  id = 1;
  login = "anna";
  display_name = "Anna";
  role = "manager";
  employee_id = none;
  scope_type = "organization";
  permissions = "stream:live" ∷ [];
}

abbrev at : ℕ → StreamRequest
at now = record {
  now = now;
  local = now;
  fresh_session = 8;
  fresh_command = 9;
  stream_key = "wm-2";
  visible = none;
  work_schedule = none;
  is_holiday = false;
  schedule_grace_minutes = 60;
}

abbrev running : StreamStatus → StreamSession
running status = record {
  id = 4;
  device_id = 3;
  employee_id = 11;
  started_at = 900;
  ended_at = none;
  profile = "medium";
  mode = "on_demand";
  status = status;
  initiated_by = some 1;
  stream_key = "wm-1";
  failure_reason = none;
}

abbrev start_command : CommandStatus → Command
start_command status = record {
  id = 5;
  device_id = 3;
  command = "start_stream";
  session_id = some 4;
  status = status;
  requested_at = 900;
  expires_at = 1500;
  ack_message = none;
}

abbrev tables : StreamStatus → CommandStatus → Db
tables session command = record {
  devices =
      record {
        id = 3;
        employee_id = some 11;
        is_approved = true;
        last_seen = some 990;
        last_activity_state = some "PRODUCTIVE";
      }
      ∷ [];
  sessions = running session ∷ [];
  commands = start_command command ∷ [];
  audit = [];
}

abbrev granted : Db
granted = (request_stream 11 "low" "on_demand" person (at 1000) (tables live delivered)).1

request_stream-Answered_example :
    Answered 11 "low" "on_demand" person
      (at 1000)
      (tables live delivered)
      granted
      (ok (new_session 3 11 "low" "on_demand" 1 (at 1000)))
unfolding request_stream audit_access within_work_schedule
request_stream-Answered_example =
    request_stream-Answered 11 "low" "on_demand" person (at 1000) (tables live delivered) granted
      (ok (new_session 3 11 "low" "on_demand" 1 (at 1000))) refl

agent_commands-once_example :
    (first : List Command) × (second : List Command) × ((agent_commands 3 1000
        (tables requested pending)).0
      ≡ ok first)
    × ((agent_commands 3 1001 (agent_commands 3 1000 (tables requested pending)).1).0 ≡ ok second)
    × All (λ c. is_in c.id (ids_of first) ≡ false) second
agent_commands-once_example = agent_commands-once 3 1000 (tables requested pending) 3 1001

stop_stream-acknowledge_command_example :
    (revived : StreamSession) × (find?
        (λ x. x.id == 4)
        (acknowledge_command 5 3 true none
          (stop_stream 11 person (at 1000) (tables starting delivered)).1).1.sessions
      ≡ some revived)
    × (revived.status ≡ live)
    × (revived.ended_at ≡ some 1000)
stop_stream-acknowledge_command_example =
    stop_stream-acknowledge_command 11 5 3 person (at 1000) none (tables starting delivered)
      (running starting) (running starting) (start_command delivered) refl refl refl refl refl refl
