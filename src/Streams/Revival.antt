-- ===== src/Streams/Revival.antt =====
-- A session that is stopped before its agent acknowledges the start.
use iskan.Prelude.{
  ℕ, ◌≡◌, refl, ◌==◌, String, ◌=s◌, true, ◌&&◌, Option, some, select, find?, find?_holds,
  find?-update_where, update_where, arith,
}
use iskan.Auth.Store.{CurrentUser}
use iskan.Auth.Scope.{sees}
use iskan.Streams.{live, StreamSession, Command, Db, is_delivered}
use iskan.Streams.Handlers.{
  StreamRequest, newest_session, is_active_of, end_session, audit_access, stop_stream,
  acknowledge_command,
}

module _ (employee_id command_id device_id : ℕ) (user : CurrentUser) (req : StreamRequest)
    (message : Option String) (db : Db) (s row : StreamSession) (c : Command) where
  stopped : Db
  stopped = (stop_stream employee_id user req db).1

  stop_stream-rows :
      sees req.visible employee_id ≡ true
      → newest_session (select (is_active_of employee_id) db.sessions) ≡ some s
      → (stopped.sessions ≡ update_where (λ x. x.id == s.id) (end_session req.now) db.sessions)
        × (find?
              (λ x. (x.id == command_id) && (x.device_id == device_id) && is_delivered x.status)
              stopped.commands
            ≡ find?
                (λ x. (x.id == command_id) && (x.device_id == device_id) && is_delivered x.status)
                db.commands)
  unfolding stop_stream audit_access stopped
  stop_stream-rows seen found = (ground (arith, seen, found), ground (arith, seen, found))

  -- If the employee's newest active session is stopped after its start command was delivered, and
  -- the agent then acknowledges the start, the session is live again, although it has an end.
  pub stop_stream-acknowledge_command :
      sees req.visible employee_id ≡ true
      → newest_session (select (is_active_of employee_id) db.sessions) ≡ some s
      → find? (λ x. x.id == s.id) db.sessions ≡ some row
      → find?
          (λ x. (x.id == command_id) && (x.device_id == device_id) && is_delivered x.status)
          db.commands
        ≡ some c
      → c.session_id ≡ some s.id
      → (c.command =s "start_stream") ≡ true
      → (revived : StreamSession) × (find?
            (λ x. x.id == s.id)
            (acknowledge_command command_id device_id true message
              (stop_stream employee_id user req db).1).1.sessions
          ≡ some revived)
        × (revived.status ≡ live)
        × (revived.ended_at ≡ some req.now)
  unfolding acknowledge_command stopped
  stop_stream-acknowledge_command seen newest stored command names starts =
      let (sessions, commands) = stop_stream-rows seen newest in
      let same = find?_holds (λ x. x.id == s.id) db.sessions row stored in
      let once =
        find?-update_where (λ x. x.id == s.id) (λ x. x.id == s.id) (end_session req.now) (λ x. refl)
          db.sessions stored in
      let twice =
        find?-update_where (λ x. x.id == s.id) (λ x. x.id == s.id)
          (λ x. record x { status = live; failure_reason = message }) (λ x. refl)
          (update_where (λ x. x.id == s.id) (end_session req.now) db.sessions) once in
      (
        record row { status = live; ended_at = some req.now; failure_reason = message },
        ground (arith, sessions, commands, command, names, starts, same, twice),
        refl,
        refl,
      )
