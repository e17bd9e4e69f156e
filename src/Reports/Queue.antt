-- ===== src/Reports/Queue.antt =====
-- report_jobs.py: `process_report_schedules`, a pass of the worker over the schedules that are due.
-- What the body of the `try` does (the report, its file and its e-mail) is a parameter: whether it
-- raised, and with what. The instants at which the pass asks the clock are one instant.
use iskan.Prelude.{
  ℕ, zero, suc, ◌+◌, ◌*◌, ◌==◌, leb, String, Bool, true, false, ◌&&◌, List, [], ◌∷◌, Option, none,
  some, or_else, select, update_where, if◌then◌else◌,
}
use iskan.Http.Errors.{Result, ok, err}
use iskan.Security.Crypto.{Text}
use iskan.Reports.Cron.{next_cron_after}

pub record Schedule : Type 0 where
  pub id : ℕ
  pub user_id : ℕ
  pub report_code : String
  pub cron : Text
  pub enabled : Bool
  pub last_run_at : Option ℕ
  pub next_run_at : Option ℕ

-- a run's `status`
pub data RunStatus : Type 0 where
  running : RunStatus
  sent : String → RunStatus
  failed : String → RunStatus

pub record Run : Type 0 where
  pub id : ℕ
  pub schedule_id : ℕ
  pub report_code : String
  pub status : RunStatus
  pub finished_at : Option ℕ

-- `next_run_id` is the id that the table of runs draws next
pub record Db : Type 0 where
  pub schedules : List Schedule
  pub runs : List Run
  pub next_run_id : ℕ

-- how the body of the `try` ended: with the key of the report's file, or with the first 3000
-- characters of what was raised
pub data Attempt : Type 0 where
  delivered : String → Attempt
  raised : String → Attempt

-- `enabled=true AND COALESCE(next_run_at,now())<=now()`
abbrev pub is_due : ℕ → Schedule → Bool
is_due now s = s.enabled && leb (or_else s.next_run_at now) now

-- `next_run_at NULLS FIRST`
abbrev pub is_before : Schedule → Schedule → Bool
is_before s r = elim s.next_run_at [
  | none ↦ true
  | some a ↦ elim r.next_run_at [ none ↦ false | some b ↦ leb a b ]
]

abbrev pub insert_by : Schedule → List Schedule → List Schedule
insert_by s [] = s ∷ []
insert_by s (r ∷ rs) = let rest = insert_by s rs in if is_before s r then s ∷ r ∷ rs else r ∷ rest

abbrev pub in_order : List Schedule → List Schedule
in_order [] = []
in_order (s ∷ ss) = insert_by s (in_order ss)

-- `LIMIT n`
abbrev pub limit : ℕ → List Schedule → List Schedule
limit zero ss = []
limit (suc n) [] = []
limit (suc n) (s ∷ ss) = s ∷ limit n ss

-- `next_cron_after`, and a day later where it raises a ValueError
abbrev pub minute_or_tomorrow : ℕ → Result ℕ → ℕ
minute_or_tomorrow now (ok m) = m * 60
minute_or_tomorrow now (err x) = now + 86400

unfoldable pub next_run : ℕ → Text → ℕ
next_run now cron = minute_or_tomorrow now (next_cron_after cron now)

abbrev pub status_of : Attempt → RunStatus
status_of (delivered key) = sent key
status_of (raised error) = failed error

-- the row that `INSERT INTO report_runs` writes
abbrev pub started_run : ℕ → Schedule → Run
started_run id s = record {
  id = id;
  schedule_id = s.id;
  report_code = s.report_code;
  status = running;
  finished_at = none;
}

-- what `UPDATE report_runs` sets
abbrev pub finished_run : ℕ → Attempt → Run → Run
finished_run now a r = record r { status = status_of a; finished_at = some now }

abbrev pub advance : ℕ → Text → Schedule → Schedule
advance now cron s = record s { last_run_at = some now; next_run_at = some (next_run now cron) }

abbrev pub is_delivered : Attempt → Bool
is_delivered (delivered key) = true
is_delivered (raised error) = false

-- `INSERT INTO report_runs … RETURNING id`
unfoldable pub start_run : Schedule → Db → ℕ × Db
start_run s db = (
  db.next_run_id,
  record db { runs = started_run db.next_run_id s ∷ db.runs; next_run_id = db.next_run_id + 1 },
)

-- `UPDATE report_runs … WHERE id=$1`
unfoldable pub finish_run : ℕ → ℕ → Attempt → Db → Db
finish_run now run_id a db = record db {
  runs = update_where (λ r. r.id == run_id) (finished_run now a) db.runs;
}

-- `UPDATE report_schedules … WHERE id=$1`
unfoldable pub advance_schedule : ℕ → Schedule → Db → Db
advance_schedule now s db = record db {
  schedules = update_where (λ r. r.id == s.id) (advance now s.cron) db.schedules;
}

-- the body of the loop
unfoldable pub process_schedule : (Schedule → Attempt) → ℕ → Schedule → Db → Db
process_schedule attempt now s db =
    let (run_id, db') = start_run s db in
    advance_schedule now s (finish_run now run_id (attempt s) db')

unfoldable pub process_each : (Schedule → Attempt) → ℕ → List Schedule → Db → ℕ × Db
process_each attempt now [] db = (0, db)
process_each attempt now (s ∷ ss) db =
    let (processed, db') = process_each attempt now ss (process_schedule attempt now s db) in
    ((if is_delivered (attempt s) then 1 else 0) + processed, db')

-- the schedules that a pass takes
unfoldable pub taken : ℕ → Db → List Schedule
taken now db = limit 10 (in_order (select (is_due now) db.schedules))

unfoldable pub process_report_schedules : (Schedule → Attempt) → ℕ → Db → ℕ × Db
process_report_schedules attempt now db = process_each attempt now (taken now db) db

-- the element after as many
abbrev pub element : ℕ → List Schedule → Option Schedule
element n [] = none
element zero (s ∷ ss) = some s
element (suc n) (s ∷ ss) = element n ss

-- the tables that a pass leaves that is cancelled within the `try`, after as many schedules: a
-- `CancelledError` is no `Exception`, so nothing is written any more
unfoldable pub cancelled_pass : (Schedule → Attempt) → ℕ → ℕ → Db → Db
cancelled_pass attempt now n db =
    let db' = (process_each attempt now (limit n (taken now db)) db).1 in
    elim (element n (taken now db)) [ none ↦ db' | some s ↦ (start_run s db').1 ]
