-- ===== src/Streams/Handlers.antt =====
-- streams.py: `request_stream`, `stop_stream`, `agent_commands`, `acknowledge_command` and
-- `audit_access`.
use iskan.Prelude.{
  ℕ, zero, suc, ◌+◌, ◌-◌, ◌*◌, ◌==◌, leb, ltb, String, ◌=s◌, one_of, any, Bool, true, false, not,
  ◌&&◌, List, [], ◌∷◌, map, Option, none, some, ⊤, find?, select, update_where, is_number,
  if◌then◌else◌,
}
use iskan.Http.{Action, pure, gets, modify, raise_if, or_raise, when, ◌>>=◌, ◌>>◌}
use iskan.Http.Errors.{http}
use iskan.Auth.Store.{CurrentUser}
use iskan.Auth.Scope.{is_in, sees}
use iskan.Streams.{
  requested, starting, live, ended, failed, StreamSession, pending, delivered, acknowledged,
  failed_command, Command, WorkSchedule, StreamDevice, Access, Db, is_active, is_pending,
  is_delivered,
}
use iskan.Streams.Schedule.{within_work_schedule}

-- the request's moment, in UTC and on the employee's wall clock, what is drawn for it, and what it
-- reads of the other tables: the visible employees, the schedule of the day and the grace
pub record StreamRequest : Type 0 where
  pub now : ℕ
  pub local : ℕ
  pub fresh_session : ℕ
  pub fresh_command : ℕ
  pub stream_key : String
  pub visible : Option (List ℕ)
  pub work_schedule : Option WorkSchedule
  pub is_holiday : Bool
  pub schedule_grace_minutes : ℕ

-- `ensure_scope`
abbrev pub ensure_scope : Option (List ℕ) → ℕ → Action Db ⊤
ensure_scope visible employee_id =
    raise_if (not (sees visible employee_id)) (http 404 "Сотрудник не найден")

-- an action that is written at most once in five minutes
abbrev pub is_deduplicated : String → Bool
is_deduplicated action = one_of action ("stream_viewed" ∷ "stream_archive_played" ∷ [])

abbrev pub is_recent : ℕ → String → ℕ → ℕ → Access → Bool
is_recent user_id action object_id now a =
    (a.user_id == user_id)
    && (a.action =s action)
    && (a.object_id == object_id)
    && ltb now (a.created_at + 5 * 60)

-- `audit_access`
unfoldable pub audit_access : ℕ → String → ℕ → ℕ → Action Db ⊤
audit_access user_id action object_id now = modify λ db. record db {
  audit =
      if is_deduplicated action && any (is_recent user_id action object_id now) db.audit
      then db.audit
      else record { user_id = user_id; action = action; object_id = object_id; created_at = now }
        ∷ db.audit;
}

-- `ORDER BY last_seen DESC NULLS LAST LIMIT 1`
abbrev pub seen_later : StreamDevice → StreamDevice → Bool
seen_later d e = elim d.last_seen [
  | none ↦ false
  | some s ↦ elim e.last_seen [ none ↦ true | some u ↦ ltb u s ]
]

abbrev pub newest_device : List StreamDevice → Option StreamDevice
newest_device [] = none
newest_device (d ∷ ds) =
    let rest = newest_device ds in
    elim rest [ none ↦ some d | some e ↦ if seen_later e d then some e else some d ]

abbrev pub is_device_of : ℕ → StreamDevice → Bool
is_device_of employee_id d = is_number d.employee_id employee_id && d.is_approved

-- `last_seen is None or now - last_seen > 90 seconds`
abbrev pub is_away : Option ℕ → ℕ → Bool
is_away none now = true
is_away (some t) now = ltb 90 (now - t)

abbrev pub is_private : Option String → Bool
is_private none = false
is_private (some s) = one_of s ("BREAK" ∷ "LOCKED" ∷ [])

abbrev pub end_session : ℕ → StreamSession → StreamSession
end_session now s = record s { status = ended; ended_at = some now }

abbrev pub is_active_of : ℕ → StreamSession → Bool
is_active_of employee_id s = (s.employee_id == employee_id) && is_active s.status

abbrev pub new_session : ℕ → ℕ → String → String → ℕ → StreamRequest → StreamSession
new_session device_id employee_id profile mode user_id req = record {
  id = req.fresh_session;
  device_id = device_id;
  employee_id = employee_id;
  started_at = req.now;
  ended_at = none;
  profile = profile;
  mode = mode;
  status = requested;
  initiated_by = some user_id;
  stream_key = req.stream_key;
  failure_reason = none;
}

-- a command waits ten minutes for its agent
abbrev pub new_command : ℕ → String → ℕ → StreamRequest → Command
new_command device_id command session_id req = record {
  id = req.fresh_command;
  device_id = device_id;
  command = command;
  session_id = some session_id;
  status = pending;
  requested_at = req.now;
  expires_at = req.now + 10 * 60;
  ack_message = none;
}

abbrev pub insert_command : Command → Action Db ⊤
insert_command c = modify λ db. record db { commands = c ∷ db.commands }

abbrev pub update_sessions : (StreamSession → Bool) → (StreamSession → StreamSession) → Action Db ⊤
update_sessions p f = modify λ db. record db { sessions = update_where p f db.sessions }

-- `request_stream`; it answers the new session
unfoldable pub request_stream :
    ℕ → String → String → CurrentUser → StreamRequest → Action Db StreamSession
request_stream employee_id profile mode user req = do
  ensure_scope req.visible employee_id
  found ← gets (λ db. newest_device (select (is_device_of employee_id) db.devices))
  device ← or_raise found (http 409 "У сотрудника нет одобренного устройства")
  raise_if (is_away device.last_seen req.now) (http 409 "Устройство сотрудника не в сети")
  raise_if (is_private device.last_activity_state)
      (http 409 "Трансляция запрещена во время перерыва или блокировки")
  raise_if
      (not (
        within_work_schedule req.work_schedule req.local req.schedule_grace_minutes req.is_holiday))
      (http 409 "Трансляция запрещена вне рабочего графика")
  update_sessions (is_active_of employee_id) (end_session req.now)
  let session = new_session device.id employee_id profile mode user.id req
  modify (λ db. record db { sessions = session ∷ db.sessions })
  insert_command (new_command device.id "start_stream" session.id req)
  audit_access user.id "stream_requested" session.id req.now
  pure session

-- `ORDER BY started_at DESC LIMIT 1`
abbrev pub newest_session : List StreamSession → Option StreamSession
newest_session [] = none
newest_session (s ∷ ss) =
    let rest = newest_session ss in
    elim rest [ none ↦ some s | some t ↦ if ltb s.started_at t.started_at then some t else some s ]

-- `stop_stream`
unfoldable pub stop_stream : ℕ → CurrentUser → StreamRequest → Action Db ⊤
stop_stream employee_id user req = do
  ensure_scope req.visible employee_id
  found ← gets (λ db. newest_session (select (is_active_of employee_id) db.sessions))
  session ← or_raise found (http 404 "Активная трансляция не найдена")
  insert_command (new_command session.device_id "stop_stream" session.id req)
  update_sessions (λ s. s.id == session.id) (end_session req.now)
  audit_access user.id "stream_stopped" session.id req.now

-- a command that waits for the device
abbrev pub is_due : ℕ → ℕ → Command → Bool
is_due device_id now c = (c.device_id == device_id) && is_pending c.status && ltb now c.expires_at

-- `ORDER BY requested_at LIMIT 20`
abbrev pub insert_ordered : Command → List Command → List Command
insert_ordered c [] = c ∷ []
insert_ordered c (d ∷ ds) =
    let rest = insert_ordered c ds in
    if leb c.requested_at d.requested_at then c ∷ d ∷ ds else d ∷ rest

abbrev pub by_requested_at : List Command → List Command
by_requested_at [] = []
by_requested_at (c ∷ cs) = insert_ordered c (by_requested_at cs)

abbrev pub take : ℕ → List Command → List Command
take zero cs = []
take (suc n) [] = []
take (suc n) (c ∷ cs) = c ∷ take n cs

abbrev pub due : ℕ → ℕ → Db → List Command
due device_id now db = take 20 (by_requested_at (select (is_due device_id now) db.commands))

abbrev pub ids_of : List Command → List ℕ
ids_of = map (λ c. c.id)

-- the sessions that the start commands name
abbrev pub started : List Command → List ℕ
started [] = []
started (c ∷ cs) =
    let rest = started cs in
    elim c.session_id [
      | none ↦ rest
      | some s ↦ if c.command =s "start_stream" then s ∷ rest else rest
    ]

-- `agent_commands`; it answers the commands that it delivers
unfoldable pub agent_commands : ℕ → ℕ → Action Db (List Command)
agent_commands device_id now = do
  rows ← gets (due device_id now)
  modify (λ db. record db {
    commands =
        update_where (λ c. is_in c.id (ids_of rows)) (λ c. record c { status = delivered })
          db.commands;
  })
  update_sessions (λ s. is_in s.id (started rows)) (λ s. record s { status = starting })
  pure rows

-- the session of a start command that was acknowledged
abbrev pub mark_session : Command → Bool → Option String → Action Db ⊤
mark_session c success message = elim c.session_id [
  | none ↦ pure tt
  | some sid ↦ when (c.command =s "start_stream") (
      update_sessions (λ s. s.id == sid)
        (λ s. record s { status = if success then live else failed; failure_reason = message }))
]

-- `acknowledge_command`
unfoldable pub acknowledge_command : ℕ → ℕ → Bool → Option String → Action Db ⊤
acknowledge_command command_id device_id success message = do
  found ← gets (λ db.
      find? (λ c. (c.id == command_id) && (c.device_id == device_id) && is_delivered c.status)
        db.commands)
  row ← or_raise found (http 404 "Команда не найдена")
  modify (λ db. record db {
    commands =
        update_where
          (λ c. (c.id == command_id) && (c.device_id == device_id) && is_delivered c.status)
          (λ c. record c {
            status = if success then acknowledged else failed_command;
            ack_message = message;
          })
          db.commands;
  })
  mark_session row success message
