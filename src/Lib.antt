-- ===== src/Lib.antt =====
-- The server of the workforce monitor (backend/app), as far as its decisions go.
--
-- The program is a FastAPI service over PostgreSQL. Agents on employees' computers register,
-- send heartbeats and batches of activity; managers log in, look at presence and timelines, decide
-- absences and request streams. Handlers talk to each other through the tables only, so a
-- component is the record of its tables and its handlers are statement sequences over it.
--
-- Files and the code they are about:
--   Prelude/*      Boolean tests, lists, and tables as lists of rows: find?, select, update_where,
--                  delete_where and count_where are SELECT, UPDATE, DELETE and count(*) WHERE
--   Http           handlers: Action S A is a step over the tables S that answers an A or raises;
--                  what was written before a raise stays, unless it was in a transaction
--   Security/*     backend/app/security.py: tokens (Token), passwords (Password), one-time codes
--                  (Totp). Crypto is the record of what security.py calls of other packages
--   Auth/Store     the tables of backend/app/auth.py, CurrentUser, load_current_user
--   Auth/Session   _create_session, refresh, logout; Rotation and Reuse prove them
--   Auth/Login     login and confirm_totp; Justified and Lockout prove login
--   Auth/Scope     visible_employee_ids and require_permission
--   Absences/*     backend/app/absences.py: Create, Change (update and delete), Decide; Rows says
--                  what each does to the rows, Invariant and Finality prove from that
--   Rules          backend/app/rules_engine.py; Rules/Best is the reference it is compared with
--   Activity       backend/app/presence.py and activity.py
--   Ingest/*       receive_activity_batch of backend/app/main.py
--   Streams/*      backend/app/streams.py: Handlers (request, stop, fetch, acknowledge), Schedule
--                  (within_work_schedule of backend/app/stream_policy_jobs.py); Active, Delivery
--                  and Revival prove from them
--   Users/*        update_user, _replace_user_scopes and update_role_permissions of
--                  backend/app/auth.py; Written and Protection prove update_user
--   Devices/*      backend/app/main.py (register_device, heartbeat, authenticated_device) and
--                  admin.py (update_device, revoke_device_token, send_device_command,
--                  map_windows_account); Approval, Tokens and Events prove from them
--   Uploads        backend/app/upload_validation.py
--   Screenshots/*  backend/app/screenshots.py: Form and Upload (upload_screenshot), the parent
--                  (screenshot_object), Response (screenshot_response); Retention is
--                  purge_screenshots of retention_jobs.py. Linked, Gallery, Insert, Stored, Files,
--                  Shown and Distance prove from them
--   Catalog/*      categories and rules of backend/app/admin.py with admin_schemas.py (Requests)
--                  and admin_validation.py; Effects says what each route does to the tables,
--                  Consistency proves from that
--   Reclassification/*  backend/app/reclassification_jobs.py and start_reclassification of admin.py;
--                  Batches, Loop and Jobs prove from them
--   Staff/*        departments and employees of backend/app/admin.py with admin_schemas.py
--                  (Requests); Named proves from them
--   Reports/*      backend/app/report_jobs.py: Cron, Queue (the worker's pass, and one that is
--                  cancelled); Next, Due, Runs and Cancelled prove from them
--   Tests/*        concrete inputs
--
-- Conventions. A UUID is a number, and the ids and secrets that a request draws are fields of the
-- request. An instant in Auth and Absences is a whole second or a day's number, in Activity and
-- Ingest a microsecond. One request reads the clock once. Statements of one request run without
-- others between them, so races between requests are not in the theorems. Cookies are a field of
-- the tables that tells what the response does to them.
--
-- Bounds. Every loop is a structural recursion; Reports.Cron.search_minute has the 532800 rounds of
-- the code, and Reclassification.run_batches any number, of which as many as there are events in
-- range and one more are enough. Security.Totp.str has n + 1 rounds for the digits of
-- n, which are fewer; Auth.Scope.expand has a round for each department, and a round that finds
-- none is the last that changes anything.
--
-- Parameters. Crypto: base64, JSON, HMAC and Argon2, with IsBase64 and Reloads as the documented
-- laws of the first two. TextOps: casefold, strip, upper, substring search, fnmatch and re. Settings:
-- secrets, lifetimes and the text form of UUIDs. PatternOps: lower and upper case and re.compile.
-- DeviceSettings: SHA-256. The object storage is the list of its objects; whether it takes or removes
-- an object, and how the making and mailing of a report ended, are given to the operations. A number
-- in a token's claims is not negative.
--
-- Not modelled: SQL ordering of answers that only the screen shows, audit details, HTTP headers,
-- the object storage's protocol, mail, websockets, the export formats, creation of users, stream archives and
-- policies, the timeline and the analytics, the lists of admin.py, the agent's configuration and
-- updates, discipline, and the worker for videos.
pub mod Prelude
pub mod Http
pub mod Security
pub mod Auth
pub mod Absences
pub mod Rules
pub mod Activity
pub mod Ingest
pub mod Streams
pub mod Users
pub mod Catalog
pub mod Devices
pub mod Reclassification
pub mod Reports
pub mod Screenshots
pub mod Staff
pub mod Tests
pub mod Uploads
